-- ===== src/Decode/Length/Fields.antt =====
-- The stages behind the opcode: each moves the read position by a bounded number of bytes.
-- `ds'` has read at most `n` bytes more than `ds`, with the same attributes.
use unitrans.Common.{
  ltb, ◌==◌, if◌then◌else◌, Bool-cases, u32, has, ◌<◌, false, ◌+◌, inr, ◌^◌, subst, ◌||◌, arith,
  ◌≤◌, inl, ◌≡◌, refl, bit_or, true, Bool, ◌∙◌, ℕ, ap,
}
use unitrans.Decode.Fetch.{Code, read_in_next_byte, read_in_next_word, read_in_next_long}
use unitrans.Decode.Insn.{
  note_sib, fetch_sib, fetch_displacement, note_mode, fetch_address, fetch_sized, fetch_imm16,
  fetch_imm8, fetch_operands,
}
use unitrans.Decode.Length.Tables.{operand_bytes}
use unitrans.Decode.State.{
  df_modrm, df_ib, df_iv, df_jv, df_ob, df_ov, df_group, df_iw, df_ap, opstate_addr32,
  opstate_data32, Decode,
}

pub record Advances (n : ℕ) (ds ds' : Decode) : Type 0 where
  pub count : ℕ
  pub within : count ≤ n
  pub moved : ds'.decode_eip ≡ u32 (ds.decode_eip + count)
  pub same : ds'.attr ≡ ds.attr

advance :
    (k : ℕ) {n : ℕ} (a b : Decode)
    → k ≤ n
    → b.decode_eip ≡ u32 (a.decode_eip + k)
    → b.attr ≡ a.attr
    → Advances n a b
advance k a b h e s = record { count = k; within = h; moved = e; same = s }

pub Advances-stay : (ds : Decode) → ds.decode_eip < 2 ^ 32 → Advances 0 ds ds
Advances-stay ds h = advance 0 ds ds (omega arith) (omega arith) refl

pub Advances-trans :
    {n n' : ℕ} {a b c : Decode} → Advances n a b → Advances n' b c → Advances (n + n') a c
Advances-trans {a = a} {c = c} p q =
    advance (p.count + q.count) a c (omega arith) (omega arith) (q.same ∙ p.same)

pub Advances-lt : {n : ℕ} {a b : Decode} → Advances n a b → b.decode_eip < 2 ^ 32
Advances-lt p = omega (arith, p.moved)

Advances-if :
    (t : Bool) {n : ℕ} {a b : Decode}
    → a.decode_eip < 2 ^ 32
    → Advances n a b
    → Advances (if t then n else 0) a (if t then b else a)
Advances-if true h s = s
Advances-if false {a = a} h s = Advances-stay a h

-- The reading macros.
pub byte-Advances : (m : Code) (ds : Decode) → Advances 1 ds (read_in_next_byte m ds)
unfolding read_in_next_byte
byte-Advances m ds = advance 1 ds _ (omega arith) refl refl

fetch_imm16-Advances : (m : Code) (ds : Decode) → Advances 2 ds (fetch_imm16 m ds)
unfolding fetch_imm16
fetch_imm16-Advances m ds = advance 2 ds _ (omega arith) refl refl

fetch_imm8-Advances : (m : Code) (ds : Decode) → Advances 1 ds (fetch_imm8 m ds)
unfolding fetch_imm8
fetch_imm8-Advances m ds = advance 1 ds _ (omega arith) refl refl

fetch_sized-Advances : (bit : ℕ) (m : Code) (ds : Decode) → Advances 4 ds (fetch_sized bit m ds)
unfolding fetch_sized
fetch_sized-Advances bit m ds = elim (Bool-cases (has ds.opstate bit)) [
  | inl e ↦ advance 4 ds _ (omega arith) (rw e) (rw e)
  | inr e ↦ advance 2 ds _ (omega arith) (rw e) (rw e)
]

-- One operand that a test of the attributes asks for, counted by the attributes `a` at the start.
operand :
    (p : ℕ → Bool) (f : Decode → Decode) (n : ℕ)
    → ((ds : Decode) → Advances n ds (f ds))
    → {k : ℕ} {a b : Decode} → Advances k a b
    → Advances (k + (if p a.attr then n else 0)) a (if p b.attr then f b else b)
operand p f n h {a = a} {b = b} s = Advances-trans s (
    subst (λ t. Advances (if t then n else 0) b (if p b.attr then f b else b)) (ap p s.same)
      (Advances-if (p b.attr) (Advances-lt s) (h b)))

pub fetch_operands-Advances :
    (m : Code) (ds : Decode)
    → ds.decode_eip < 2 ^ 32
    → Advances (operand_bytes ds.attr) ds (fetch_operands m ds)
unfolding fetch_operands
fetch_operands-Advances m ds h =
    let s₁ =
      operand (λ a. has a df_iw) (fetch_imm16 m) 2 (fetch_imm16-Advances m) (Advances-stay ds h) in
    let s₂ = operand (λ a. has a df_ib) (fetch_imm8 m) 1 (fetch_imm8-Advances m) s₁ in
    let s₃ =
      operand (λ a. has a df_iv) (fetch_sized opstate_data32 m) 4 (fetch_sized-Advances _ m) s₂ in
    let s₄ =
      operand (λ a. has a df_ov || has a df_ob) (fetch_sized opstate_addr32 m) 4
        (fetch_sized-Advances _ m) s₃ in
    let s₅ =
      operand (λ a. has a (bit_or df_jv df_ap)) (fetch_sized opstate_data32 m) 4
        (fetch_sized-Advances _ m) s₄ in
    operand (λ a. has a df_ap) (fetch_imm16 m) 2 (fetch_imm16-Advances m) s₅

fetch_sib-Advances :
    (m : Code) (ds : Decode) → ds.decode_eip < 2 ^ 32 → Advances 1 ds (fetch_sib m ds)
unfolding fetch_sib note_sib read_in_next_byte
fetch_sib-Advances m ds h = elim (Bool-cases ds.need_sib) [
  | inl e ↦ advance 1 ds _ (omega arith) (ground arith) (ground arith)
  | inr e ↦ advance 0 ds _ (omega arith) (ground arith) (ground arith)
]

fetch_displacement-Advances :
    (m : Code) (ds : Decode) → ds.decode_eip < 2 ^ 32 → Advances 4 ds (fetch_displacement m ds)
unfolding fetch_displacement read_in_next_byte read_in_next_word read_in_next_long
fetch_displacement-Advances m ds h =
    advance
      (if ds.disp_bytes == 0
        then 0
        else if ltb 2 ds.disp_bytes
        then 4
        else if ltb 1 ds.disp_bytes
        then 2
        else 1)
      ds _ (ground arith) (ground arith) (ground arith)

pub fetch_address-Advances :
    (m : Code) (ds : Decode)
    → ds.decode_eip < 2 ^ 32
    → Advances (if has ds.attr (bit_or df_modrm df_group) then 5 else 0) ds (fetch_address m ds)
unfolding fetch_address
fetch_address-Advances m ds h =
    let noted : Advances 0 ds (note_mode ds) =
      unfold note_mode in advance 0 ds _ (omega arith) (omega arith) refl in
    let s = Advances-trans noted (fetch_sib-Advances m (note_mode ds) (Advances-lt noted)) in
    Advances-if _ h (Advances-trans s (fetch_displacement-Advances m _ (Advances-lt s)))
