-- ===== src/Decode/Length/Tables.antt =====
-- A check of every entry of the tables, made by evaluation: each pointer that the decoder follows
-- leads to a table that is long enough, and no path asks for more than eleven bytes.
-- Bytes that the operands of an entry take at most.
use unitrans.Common.{
  leb, if◌then◌else◌, length, get_or, all, all_below, all_below_sound, has, arith, false, ◌≡◌, suc,
  ◌||◌, [], ◌∷◌, true, not, ◌<◌, refl, ◌≤◌, List, ℕ, bit_or, zero, Bool, ◌&&◌, ◌+◌,
}
use unitrans.Decode.Fetch.{at, table_of, entry_at}
use unitrans.Decode.OpCode.{Table, nopbyte0, Pointer, null, function, table, OpCode}
use unitrans.Decode.Run.{Run, ok, bad_table, out_of_fuel, Returns}
use unitrans.Decode.State.{
  df_modrm, df_ib, df_iv, df_jv, df_ob, df_ov, df_prefix, df_table, df_group, df_iw, df_ap,
  df_float, df_one_more_level, other, prefix_kind,
}
use unitrans.Decode.Tables.{entries}

abbrev pub operand_bytes : ℕ → ℕ
operand_bytes a =
    0
    + (if has a df_iw then 2 else 0)
    + (if has a df_ib then 1 else 0)
    + (if has a df_iv then 4 else 0)
    + (if has a df_ov || has a df_ob then 4 else 0)
    + (if has a (bit_or df_jv df_ap) then 4 else 0)
    + (if has a df_ap then 2 else 0)

-- The same with the sib byte and the displacement.
abbrev pub tail_bytes : ℕ → ℕ
tail_bytes a = (if has a (bit_or df_modrm df_group) then 5 else 0) + operand_bytes a

-- The modrm byte, unless it has been read.
abbrev pub modrm_bytes : Bool → ℕ → ℕ
modrm_bytes w a = if not w && has a (bit_or df_modrm df_group) then 1 else 0

abbrev pub table_ok : Pointer → (Table → Bool) → Bool
table_ok null q = false
table_ok (function f) q = false
table_ok (table t) q = q t

-- `t` has `n` entries or more, and all pass the test.
abbrev pub entries_ok : ℕ → (OpCode → Bool) → Table → Bool
entries_ok n p t = leb n (length (entries t)) && all p (entries t)

abbrev pub group_entry_ok : Bool → ℕ → OpCode → OpCode → Bool
group_entry_ok w n e g = leb (n + modrm_bytes w e.attr + tail_bytes (bit_or e.attr g.attr)) 11

-- `n` opcode bytes have been read and `e` is the entry that they lead to.
abbrev pub leaf_ok : Bool → ℕ → OpCode → Bool
leaf_ok w n e =
    if has e.attr df_group
    then table_ok e.ptr (entries_ok 8 (group_entry_ok w n e))
    else leb (n + modrm_bytes w e.attr + tail_bytes e.attr) 11

abbrev pub float_leaf_ok : OpCode → Bool
float_leaf_ok f =
    leaf_ok true 2 f
    && (if has f.attr df_one_more_level
        then table_ok f.ptr (entries_ok 8 (leaf_ok true 2))
        else true)

abbrev pub level2_ok : OpCode → Bool
level2_ok e = not (has e.attr df_table) && (not (has e.attr df_float) && leaf_ok false 2 e)

abbrev pub level1_ok : OpCode → Bool
level1_ok e =
    if has e.attr df_table
    then table_ok e.ptr (entries_ok 256 level2_ok)
    else if has e.attr df_float
    then table_ok e.ptr (entries_ok 16 float_leaf_ok)
    else leaf_ok false 1 e

pub nopbyte0_ok : entries_ok 256 level1_ok nopbyte0 ≡ true
unfolding entries all
nopbyte0_ok = refl

-- Exactly the eleven bytes of the switch carry the prefix attribute.
abbrev pub prefix_ok : ℕ → OpCode → Bool
prefix_ok b e = elim (prefix_kind b) [
  | other ↦ not (has e.attr df_prefix)
  | _ ↦ has e.attr df_prefix
]

at-get_or : (es : List OpCode) (i : ℕ) (d : OpCode) → i < length es → at es i ≡ ok (get_or es i d)
unfolding at
at-get_or [] i d h = absurd (omega arith)
at-get_or (e ∷ es) zero d h = refl
at-get_or (e ∷ es) (suc i) d h = at-get_or es i d (omega arith)

all-at :
    (p : OpCode → Bool) (es : List OpCode) (i : ℕ)
    → all p es ≡ true
    → i < length es
    → Returns (at es i) (λ e. p e ≡ true)
unfolding all at
all-at p [] i h lt = absurd (omega arith)
all-at p (e ∷ es) zero h lt = (e, refl, ground arith)
all-at p (e ∷ es) (suc i) h lt = all-at p es i (ground arith) (omega arith)

-- A read inside a table that passed its check returns an entry that passes the test.
pub entry_at-entries_ok :
    (n : ℕ) (p : OpCode → Bool) (t : Table) (i : ℕ)
    → entries_ok n p t ≡ true
    → i < n
    → Returns (entry_at t i) (λ e. p e ≡ true)
unfolding entry_at
entry_at-entries_ok n p t i h lt =
    let long : n ≤ length (entries t) = ground arith in
    let good : all p (entries t) ≡ true = ground arith in all-at p (entries t) i good (omega arith)

pub table_of-table_ok :
    (q : Table → Bool) (ptr : Pointer)
    → table_ok ptr q ≡ true
    → Returns (table_of ptr) (λ t. q t ≡ true)
unfolding table_of
table_of-table_ok q null h = cc
table_of-table_ok q (function f) h = cc
table_of-table_ok q (table t) h = (t, refl, h)

abbrev run_ok : (OpCode → Bool) → Run OpCode → Bool
run_ok p (ok e) = p e
run_ok p bad_table = false
run_ok p out_of_fuel = false

run_ok-Returns :
    (p : OpCode → Bool) (r : Run OpCode) → run_ok p r ≡ true → Returns r (λ e. p e ≡ true)
run_ok-Returns p (ok e) h = (e, refl, h)
run_ok-Returns p bad_table h = cc
run_ok-Returns p out_of_fuel h = cc

-- What the decoder relies on for the first byte that it looks at.
abbrev pub first_ok : ℕ → OpCode → Bool
first_ok b e = prefix_ok b e && (has e.attr df_prefix || level1_ok e)

first_table : all_below 256 (λ b. run_ok (first_ok b) (entry_at nopbyte0 b)) ≡ true
unfolding entry_at all_below entries all prefix_kind
first_table = refl

pub first_entry : (b : ℕ) → b < 256 → Returns (entry_at nopbyte0 b) (λ e. first_ok b e ≡ true)
first_entry b h =
    run_ok-Returns (first_ok b) (entry_at nopbyte0 b) (all_below_sound 256 _ b first_table h)
