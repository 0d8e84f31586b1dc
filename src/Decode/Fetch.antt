-- ===== src/Decode/Fetch.antt =====
-- target-i386/decode.c: the macros that read guest code, and the reads of the opcode tables.
use unitrans.Common.{ℕ, zero, suc, ◌+◌, ◌*◌, ◌^◌, List, [], ◌∷◌, u32}
use unitrans.Decode.OpCode.{OpCode, Table, Pointer, null, function, table}
use unitrans.Decode.Run.{Run, ok, bad_table}
use unitrans.Decode.State.{Decode}
use unitrans.Decode.Tables.{entries}

-- The guest's code, by address; addresses are 32 bits wide.
abbrev pub Code : Type 0
Code = ℕ → ℕ

abbrev pub ldub_code : Code → ℕ → ℕ
ldub_code m a = m a

abbrev pub lduw_code : Code → ℕ → ℕ
lduw_code m a = m a + m (u32 (a + 1)) * 2 ^ 8

abbrev pub ldl_code : Code → ℕ → ℕ
ldl_code m a = m a + m (u32 (a + 1)) * 2 ^ 8 + m (u32 (a + 2)) * 2 ^ 16 + m (u32 (a + 3)) * 2 ^ 24

unfoldable pub read_in_next_byte : Code → Decode → Decode
read_in_next_byte m ds = record ds {
  b = ldub_code m ds.decode_eip;
  decode_eip = u32 (ds.decode_eip + 1);
}

unfoldable pub read_in_next_word : Code → Decode → Decode
read_in_next_word m ds = record ds {
  b = lduw_code m ds.decode_eip;
  decode_eip = u32 (ds.decode_eip + 2);
}

unfoldable pub read_in_next_long : Code → Decode → Decode
read_in_next_long m ds = record ds {
  b = ldl_code m ds.decode_eip;
  decode_eip = u32 (ds.decode_eip + 4);
}

-- `table[i]`; a read behind the end is a fault.
unfoldable pub at : List OpCode → ℕ → Run OpCode
at [] i = bad_table
at (e ∷ es) zero = ok e
at (e ∷ es) (suc i) = at es i

-- `pEntry->ptr` used as a table: a fault where it is none.
unfoldable pub table_of : Pointer → Run Table
table_of (table t) = ok t
table_of null = bad_table
table_of (function f) = bad_table

unfoldable pub entry_at : Table → ℕ → Run OpCode
unfolding entries at
entry_at t i = at (entries t) i
