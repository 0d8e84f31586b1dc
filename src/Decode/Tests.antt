-- ===== src/Decode/Tests.antt =====
-- The decoder on instructions that can be followed by hand.
use unitrans.Common.{
  ltb, if◌then◌else◌, ltb→lt, get_or, all, all-get_or, [], ◌∷◌, Bool, ◌≡◌, refl, ℕ, List, ◌<◌,
  false, ◌-◌, arith, true,
}
use unitrans.Decode.Fetch.{Code}
use unitrans.Decode.Insn.{simple_disas_insn}
use unitrans.Decode.Length.Opcode.{IsBytes}
use unitrans.Decode.Length.Total.{Decoded, simple_disas_insn-Decoded}
use unitrans.Decode.OpCode.{inst_reserved, null, op}
use unitrans.Decode.Run.{Run, ok, ◌>>=◌, Returns}
use unitrans.Decode.State.{Decode, prefix_kind}

-- Code bytes laid out from an address, with 0x90 around them.
abbrev pub code_at : ℕ → List ℕ → Code
code_at base bytes a = if ltb a base then 0x90 else get_or bytes (a - base) 0x90

abbrev pub blank : Decode
blank = record {
  decode_eip = 0;
  instr = 0;
  p_instr = 0;
  attr = 0;
  group1_prefix = 0;
  group2_prefix = 0;
  group3_prefix = 0;
  group4_prefix = 0;
  no_of_prefixes = 0;
  flags = 0;
  emitfn = null;
  p_entry = op 0 "" 0 0 0 0 0 0 null inst_reserved 0 0;
  b = 0;
  opstate = 0;
  modrm = 0;
  need_sib = false;
  sib = 0;
  disp_bytes = 0;
  displacement = 0;
  modrm_regs = 0;
  immediate = 0;
  imm16 = 0;
  inst_type = inst_reserved;
}

-- What a test looks at: the answer, the length, the displacement and the immediate.
abbrev summary : List ℕ → Run (Bool × ℕ × ℕ × ℕ)
summary bytes = do
  (found, ds) ← simple_disas_insn 16 (code_at 0x1000 bytes) blank 0x1000
  ok (found, ds.decode_eip - 0x1000, ds.displacement, ds.immediate)

-- movl $0x12345678, 0x10(%esp,%eax,1)
mov_sib :
    summary (0xc7 ∷ 0x44 ∷ 0x04 ∷ 0x10 ∷ 0x78 ∷ 0x56 ∷ 0x34 ∷ 0x12 ∷ [])
    ≡ ok (true, 8, 0x10, 0x12345678)
unfolding simple_disas_insn
mov_sib = refl

-- jne back by two bytes
jne_back : summary (0x75 ∷ 0xfe ∷ []) ≡ ok (true, 2, 0, 0xffff_fffe)
unfolding simple_disas_insn
jne_back = refl

-- 0x66 halves the operand; 0x0f 0x84 is je with a 32-bit displacement
push_word : summary (0x66 ∷ 0x68 ∷ 0x34 ∷ 0x12 ∷ []) ≡ ok (true, 4, 0, 0x1234)
unfolding simple_disas_insn
push_word = refl

je_near : summary (0x0f ∷ 0x84 ∷ 1 ∷ 2 ∷ 3 ∷ 4 ∷ []) ≡ ok (true, 6, 0, 0x04030201)
unfolding simple_disas_insn
je_near = refl

-- fnop, and a reserved opcode
fnop : summary (0xd9 ∷ 0xd0 ∷ []) ≡ ok (true, 2, 0, 0)
unfolding simple_disas_insn
fnop = refl

reserved_d6 : summary (0xd6 ∷ []) ≡ ok (false, 1, 0, 0)
unfolding simple_disas_insn
reserved_d6 = refl

abbrev jump : List ℕ
jump = 0xeb ∷ 0x10 ∷ []

abbrev is_byte : ℕ → Bool
is_byte b = ltb b 256

code_at-IsBytes :
    (base : ℕ) (bytes : List ℕ) → all is_byte bytes ≡ true → IsBytes (code_at base bytes)
code_at-IsBytes base bytes h a =
    let inside : get_or bytes (a - base) 0x90 < 256 =
      ltb→lt (get_or bytes (a - base) 0x90) 256 (all-get_or is_byte bytes (a - base) 0x90 h refl) in
    ground (arith, inside)

jump-IsBytes : IsBytes (code_at 0x1000 jump)
unfolding all
jump-IsBytes = code_at-IsBytes 0x1000 jump refl

simple_disas_insn-Decoded_example :
    Returns
      (simple_disas_insn 16 (code_at 0x1000 jump) blank 0x1000)
      (Decoded (code_at 0x1000 jump) 0x1000 0)
unfolding prefix_kind
simple_disas_insn-Decoded_example =
    simple_disas_insn-Decoded 16 (code_at 0x1000 jump) blank 0x1000 0 jump-IsBytes (omega arith)
      refl (omega arith)
