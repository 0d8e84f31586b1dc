-- ===== src/Decode/Length/Total.antt =====
-- `simple_disas_insn` as a whole: it ends, reads no table out of range, and an instruction takes
-- between one and eleven bytes behind its prefixes.
-- What a call at `pc` returned, when the byte at distance `n` is no prefix.
use unitrans.Common.{u32, has, ◌≡◌, Bool, ℕ, ◌≤◌, not, ◌||◌, ◌∙◌, ◌^◌, arith, ◌+◌, ◌<◌, subst, ◌≢◌}
use unitrans.Decode.Fetch.{Code}
use unitrans.Decode.Insn.{
  start, prefix_loop, opcode_loop, fetch_modrm, fetch_address, fetch_operands, is_null, finish,
  simple_disas_insn,
}
use unitrans.Decode.Length.Fields.{Advances-lt, fetch_operands-Advances, fetch_address-Advances}
use unitrans.Decode.Length.Opcode.{IsBytes, Fits, fetch_modrm-Fits}
use unitrans.Decode.Length.Prefixes.{prefix_loop-Landed}
use unitrans.Decode.Length.Rounds.{first_round}
use unitrans.Decode.Length.Tables.{operand_bytes}
use unitrans.Decode.OpCode.{nopbyte0, OpCode}
use unitrans.Decode.Run.{ok, Returns}
use unitrans.Decode.State.{df_undefined, Decode, other, prefix_kind}

pub record Decoded (m : Code) (pc n : ℕ) (r : Bool × Decode) : Type 0 where
  -- the prefixes: all the bytes before the first that is none
  pub skipped : ℕ
  pub in_range : skipped ≤ n
  pub before : (j : ℕ) → j < skipped → prefix_kind (m (u32 (pc + j))) ≢ other
  pub opcode : prefix_kind (m (u32 (pc + skipped))) ≡ other
  -- the bytes behind them
  pub count : ℕ
  pub some_byte : 1 ≤ count
  pub at_most : count ≤ 11
  pub moved : r.1.decode_eip ≡ u32 (pc + skipped + count)
  -- it succeeds exactly where the entry is not marked undefined and its pointer is not NULL
  pub answer : r.0 ≡ not (has r.1.attr df_undefined || is_null r.1.emitfn)

finish_lem :
    (m : Code) (e : OpCode) (ds : Decode)
    → let r = finish m e ds in
      (r.1.decode_eip ≡ ds.decode_eip)
      × (r.0 ≡ not (has r.1.attr df_undefined || is_null r.1.emitfn))
unfolding finish
finish_lem m e ds = (ground arith, ground arith)

operands-moved :
    (m : Code) (from : ℕ) (ds : Decode)
    → Fits from ds
    → (c : ℕ) × (1 ≤ c)
      × (c ≤ 11)
      × ((fetch_operands m (fetch_address m ds)).decode_eip ≡ u32 (from + c))
operands-moved m from ds f =
    let lt : ds.decode_eip < 2 ^ 32 = omega (arith, f.moved) in
    let s = fetch_address-Advances m ds lt in
    let t = fetch_operands-Advances m (fetch_address m ds) (Advances-lt s) in
    let within : t.count ≤ operand_bytes ds.attr =
      subst (λ (a : ℕ). t.count ≤ operand_bytes a) s.same t.within in
    (
      f.count + s.count + t.count,
      omega (arith, f.some_byte),
      omega (arith, f.room, s.within, within),
      omega (arith, f.moved, s.moved, t.moved),
    )

simple_disas_insn-run :
    (fuel : ℕ) (m : Code) (ds : Decode) (pc : ℕ) (ds₁ ds₂ ds₃ : Decode) (e e' : OpCode) (w : Bool)
    → prefix_loop fuel m (start ds pc) ≡ ok ds₁
    → opcode_loop 2 m nopbyte0 (record ds₁ { instr = ds₁.decode_eip }) ≡ ok (e, w, ds₂)
    → fetch_modrm m e w ds₂ ≡ ok (e', ds₃)
    → simple_disas_insn fuel m ds pc ≡ ok (finish m e' (fetch_operands m (fetch_address m ds₃)))
unfolding simple_disas_insn
simple_disas_insn-run fuel m ds pc ds₁ ds₂ ds₃ e e' w p q r = rw (simple_disas_insn, p, q, r)

-- On any code, from any earlier contents of `ds`: where one of the first `fuel` bytes is no prefix,
-- the decoder returns. It reads no opcode table out of range, skips exactly the bytes before the
-- first that is no prefix, and then reads one to eleven bytes. It answers `true` exactly where the
-- attributes do not have DF_UNDEFINED and the entry's pointer is not NULL.
pub simple_disas_insn-Decoded :
    (fuel : ℕ) (m : Code) (ds : Decode) (pc n : ℕ)
    → IsBytes m
    → pc < 2 ^ 32
    → prefix_kind (m (u32 (pc + n))) ≡ other
    → n < fuel
    → Returns (simple_disas_insn fuel m ds pc) (Decoded m pc n)
simple_disas_insn-Decoded fuel m ds pc n bytes lt stop enough =
    let at_pc : (start ds pc).decode_eip ≡ u32 pc = unfold start in omega arith in
    let (ds₁, run₁, l) = prefix_loop-Landed m bytes fuel pc n (start ds pc) at_pc stop enough in
    let ds₁' = record ds₁ { instr = ds₁.decode_eip } in
    let (e, is_e, e_ok) = l.found in
    let ((e₁, w, ds₂), run₂, o) = first_round m bytes (pc + l.skipped) ds₁' e l.moved is_e e_ok in
    let ((e', ds₃), run₃, f) = fetch_modrm-Fits m w (pc + l.skipped) e₁ ds₂ o in
    let (c, pos, le, moved) = operands-moved m (pc + l.skipped) ds₃ f in
    let (same, answer) = finish_lem m e' (fetch_operands m (fetch_address m ds₃)) in
    (
      finish m e' (fetch_operands m (fetch_address m ds₃)),
      simple_disas_insn-run fuel m ds pc ds₁ ds₂ ds₃ e₁ e' w run₁ run₂ run₃,
      record {
        skipped = l.skipped;
        in_range = l.in_range;
        before = l.before;
        opcode = subst (λ (a : ℕ). prefix_kind (m a) ≡ other) l.moved l.opcode;
        count = c;
        some_byte = pos;
        at_most = le;
        moved = same ∙ moved;
        answer = answer;
      },
    )
