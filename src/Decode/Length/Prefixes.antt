-- ===== src/Decode/Length/Prefixes.antt =====
-- The prefix loop, and `simple_disas_insn` as a whole: it ends, reads no table out of range, and
-- an instruction takes between one and eleven bytes behind its prefixes.
-- The byte that the prefix loop stops at.
use unitrans.Common.{
  Bool-cases, and_left, and_right, u32, has, ◌≡◌, inr, ℕ, ◌≤◌, false, ◌∙◌, arith, inl, zero, ◌+◌,
  suc, ◌<◌, subst, true, ◌≢◌,
}
use unitrans.Decode.Fetch.{Code, ldub_code, entry_at}
use unitrans.Decode.Insn.{step_prefix, prefix_loop}
use unitrans.Decode.Length.Opcode.{IsBytes}
use unitrans.Decode.Length.Tables.{level1_ok, prefix_ok, first_ok, first_entry}
use unitrans.Decode.OpCode.{nopbyte0, OpCode}
use unitrans.Decode.Run.{ok, ◌>>=◌, Returns}
use unitrans.Decode.State.{df_prefix, Decode, other, prefix_kind}

pub record Landed (m : Code) (pc n : ℕ) (ds : Decode) : Type 0 where
  pub skipped : ℕ
  pub in_range : skipped ≤ n
  pub moved : ds.decode_eip ≡ u32 (pc + skipped)
  pub before : (j : ℕ) → j < skipped → prefix_kind (m (u32 (pc + j))) ≢ other
  pub opcode : prefix_kind (m ds.decode_eip) ≡ other
  pub found :
      (e : OpCode) × (entry_at nopbyte0 (ldub_code m ds.decode_eip) ≡ ok e) × (level1_ok e ≡ true)

prefix_ok-has :
    (b : ℕ) (e : OpCode)
    → prefix_ok b e ≡ true
    → (has e.attr df_prefix ≡ true → prefix_kind b ≢ other)
      × (has e.attr df_prefix ≡ false → prefix_kind b ≡ other)
prefix_ok-has b e h = (ground arith, ground arith)

opcode_not_prefix :
    (b : ℕ) (e : OpCode)
    → prefix_ok b e ≡ true
    → prefix_kind b ≡ other
    → has e.attr df_prefix ≡ false
opcode_not_prefix b e h k = ground arith

prefix_loop_stop :
    (f : ℕ) (m : Code) (ds : Decode) (e : OpCode)
    → entry_at nopbyte0 (ldub_code m ds.decode_eip) ≡ ok e
    → has e.attr df_prefix ≡ false
    → prefix_loop (suc f) m ds ≡ ok (record ds { b = ldub_code m ds.decode_eip; attr = e.attr })
unfolding prefix_loop
prefix_loop_stop f m ds e p₁ p₂ = rw (prefix_loop, p₁, ◌>>=◌, p₂)

prefix_loop_more :
    (f : ℕ) (m : Code) (ds : Decode) (e : OpCode)
    → entry_at nopbyte0 (ldub_code m ds.decode_eip) ≡ ok e
    → has e.attr df_prefix ≡ true
    → prefix_loop (suc f) m ds
      ≡ prefix_loop f m (step_prefix (record ds { b = ldub_code m ds.decode_eip; attr = e.attr }))
unfolding prefix_loop
prefix_loop_more f m ds e p₁ p₂ = rw (prefix_loop, p₁, ◌>>=◌, p₂)

step_prefix_eip : (ds : Decode) → (step_prefix ds).decode_eip ≡ u32 (ds.decode_eip + 1)
unfolding step_prefix
step_prefix_eip ds = ground arith

module _ (m : Code) (bytes : IsBytes m) where
  Landed-later :
      (pc n : ℕ) (ds : Decode)
      → prefix_kind (m (u32 (pc + 0))) ≢ other
      → Landed m (u32 (pc + 1)) n ds
      → Landed m pc (suc n) ds
  Landed-later pc n ds first l = record {
    skipped = suc l.skipped;
    in_range = omega (arith, l.in_range);
    moved = omega (arith, l.moved);
    before = before;
    opcode = l.opcode;
    found = l.found;
  }
    where
      before : (j : ℕ) → j < suc l.skipped → prefix_kind (m (u32 (pc + j))) ≢ other
      before zero lt = first
      before (suc j) lt =
          subst (λ (a : ℕ). prefix_kind (m a) ≢ other) (omega arith) (l.before j (omega arith))

  module _ (f pc n : ℕ) (ds : Decode) (here : ds.decode_eip ≡ u32 pc) where
    Landed-here :
        (e : OpCode)
        → entry_at nopbyte0 (ldub_code m ds.decode_eip) ≡ ok e
        → first_ok (ldub_code m ds.decode_eip) e ≡ true
        → has e.attr df_prefix ≡ false
        → Returns (prefix_loop (suc f) m ds) (Landed m pc n)
    Landed-here e is_e e_ok done = (
      record ds { b = ldub_code m ds.decode_eip; attr = e.attr },
      prefix_loop_stop f m ds e is_e done,
      record {
        skipped = 0;
        in_range = omega arith;
        moved = omega (arith, here);
        before = λ j h. absurd (omega arith);
        opcode = (prefix_ok-has _ e (and_left _ e_ok)).1 done;
        found = (e, is_e, rw done at (and_right (prefix_ok _ e) e_ok));
      },
    )

  -- With more fuel than there are prefixes the loop stops at the first byte that is none.
  pub prefix_loop-Landed :
      (fuel pc n : ℕ) (ds : Decode)
      → ds.decode_eip ≡ u32 pc
      → prefix_kind (m (u32 (pc + n))) ≡ other
      → n < fuel
      → Returns (prefix_loop fuel m ds) (Landed m pc n)
  prefix_loop-Landed zero pc n ds here stop lt = absurd (omega arith)
  prefix_loop-Landed (suc f) pc zero ds here stop lt =
      let (e, is_e, e_ok) = first_entry (ldub_code m ds.decode_eip) (bytes _) in
      let first = subst (λ (a : ℕ). prefix_kind (m a) ≡ other) (omega (arith, here)) stop in
      Landed-here f pc 0 ds here e is_e e_ok (opcode_not_prefix _ e (and_left _ e_ok) first)
  prefix_loop-Landed (suc f) pc (suc n) ds here stop lt =
      let (e, is_e, e_ok) = first_entry (ldub_code m ds.decode_eip) (bytes _) in
      let ds' = record ds { b = ldub_code m ds.decode_eip; attr = e.attr } in
      elim (Bool-cases (has e.attr df_prefix)) [
        | inr done ↦ Landed-here f pc (suc n) ds here e is_e e_ok done
        | inl more ↦
            let first : prefix_kind (m (u32 (pc + 0))) ≢ other =
              subst (λ (a : ℕ). prefix_kind (m a) ≢ other) (omega (arith, here))
                ((prefix_ok-has _ e (and_left _ e_ok)).0 more) in
            let (r, run, l) =
              prefix_loop-Landed f (u32 (pc + 1)) n (step_prefix ds')
                (omega (arith, here, step_prefix_eip ds'))
                (subst (λ (a : ℕ). prefix_kind (m a) ≡ other) (omega arith) stop) (omega arith) in
            (r, prefix_loop_more f m ds e is_e more ∙ run, Landed-later pc n r first l)
      ]
