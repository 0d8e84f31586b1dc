-- ===== src/Decode/Length/Rounds.antt =====
-- The loop over opcode bytes: two rounds lead to an entry that passed the check.
use unitrans.Common.{
  Bool-cases, and_left, and_right, not-true, u32, has, arith, ◌∙◌, not, suc, false, inr, Bool, refl,
  ◌≡◌, ℕ, ◌+◌, inl, true,
}
use unitrans.Decode.Fetch.{Code, ldub_code, table_of, entry_at}
use unitrans.Decode.Insn.{float_entry, opcode_loop}
use unitrans.Decode.Length.Opcode.{IsBytes, Opened, float_entry-Opened}
use unitrans.Decode.Length.Tables.{
  entries_ok, level2_ok, level1_ok, entry_at-entries_ok, table_of-table_ok,
}
use unitrans.Decode.OpCode.{Table, nopbyte0, OpCode}
use unitrans.Decode.Run.{Run, ok, ◌>>=◌, Returns}
use unitrans.Decode.State.{df_table, df_float, Decode}

opcode_loop_leaf :
    (f : ℕ) (m : Code) (t : Table) (ds : Decode) (e : OpCode)
    → let b = ldub_code m ds.decode_eip in
      entry_at t b ≡ ok e
      → has e.attr df_table ≡ false
      → has e.attr df_float ≡ false
      → opcode_loop (suc f) m t ds
        ≡ ok (e, false, record ds { b = b; attr = e.attr; decode_eip = u32 (ds.decode_eip + 1) })
unfolding opcode_loop
opcode_loop_leaf f m t ds e p₁ p₂ p₃ = rw (opcode_loop, p₁, ◌>>=◌, p₂, p₃)

opcode_loop_table :
    (f : ℕ) (m : Code) (t : Table) (ds : Decode) (e : OpCode) (t' : Table)
    → let b = ldub_code m ds.decode_eip in
      entry_at t b ≡ ok e
      → has e.attr df_table ≡ true
      → table_of e.ptr ≡ ok t'
      → opcode_loop (suc f) m t ds
        ≡ opcode_loop f m t'
            (record ds { b = b; attr = e.attr; decode_eip = u32 (ds.decode_eip + 1) })
unfolding opcode_loop
opcode_loop_table f m t ds e t' p₁ p₂ p₃ = rw (opcode_loop, p₁, ◌>>=◌, p₂, p₃)

opcode_loop_float :
    (f : ℕ) (m : Code) (t : Table) (ds : Decode) (e : OpCode) (r : OpCode × Decode)
    → let b = ldub_code m ds.decode_eip in
      entry_at t b ≡ ok e
      → has e.attr df_table ≡ false
      → has e.attr df_float ≡ true
      → float_entry m e (record ds { b = b; attr = e.attr; decode_eip = u32 (ds.decode_eip + 1) })
        ≡ ok r
      → opcode_loop (suc f) m t ds ≡ ok (r.0, true, r.1)
unfolding opcode_loop
opcode_loop_float f m t ds e r p₁ p₂ p₃ p₄ = rw (opcode_loop, p₁, ◌>>=◌, p₂, p₃, p₄)

module _ (m : Code) (bytes : IsBytes m) (from : ℕ) where
  abbrev pub AtOpcode : Run (OpCode × Bool × Decode) → Type 0
  AtOpcode r = Returns r (λ o. Opened o.1 from o.0 o.2)

  second_round :
      (f : ℕ) (t : Table) (ds : Decode)
      → entries_ok 256 level2_ok t ≡ true
      → ds.decode_eip ≡ u32 (from + 1)
      → AtOpcode (opcode_loop (suc f) m t ds)
  second_round f t ds t_ok moved =
      let (e, is_e, e_ok) =
        entry_at-entries_ok 256 level2_ok t (ldub_code m ds.decode_eip) t_ok (bytes _) in
      (
        _,
        opcode_loop_leaf f m t ds e is_e (not-true (and_left _ e_ok))
            (not-true (and_left _ (and_right (not (has e.attr df_table)) e_ok))),
        record {
          count = 2;
          moved = omega (arith, moved);
          some_byte = omega arith;
          leaf = and_right (not (has e.attr df_float)) (and_right (not (has e.attr df_table)) e_ok);
          same = refl;
        },
      )

  pub first_round :
      (ds : Decode) (e : OpCode)
      → ds.decode_eip ≡ u32 from
      → entry_at nopbyte0 (ldub_code m ds.decode_eip) ≡ ok e
      → level1_ok e ≡ true
      → AtOpcode (opcode_loop 2 m nopbyte0 ds)
  first_round ds e here is_e e_ok =
      let ds' = record ds {
        b = ldub_code m ds.decode_eip;
        attr = e.attr;
        decode_eip = u32 (ds.decode_eip + 1);
      } in
      let moved : ds'.decode_eip ≡ u32 (from + 1) = omega (arith, here) in
      elim (Bool-cases (has e.attr df_table)) [
        | inl more ↦
            let (t, is_t, t_ok) =
              table_of-table_ok (entries_ok 256 level2_ok) e.ptr (rw more at e_ok) in
            let (r, run, o) = second_round 0 t ds' t_ok moved in
            (r, opcode_loop_table 1 m nopbyte0 ds e t is_e more is_t ∙ run, o)
        | inr no_table ↦ elim (Bool-cases (has e.attr df_float)) [
          | inl float ↦
              let (r, run, o) =
                float_entry-Opened m from e ds' (rw (no_table, float) at e_ok) moved in
              (_, opcode_loop_float 1 m nopbyte0 ds e r is_e no_table float run, o)
          | inr no_float ↦ (
            _,
            opcode_loop_leaf 1 m nopbyte0 ds e is_e no_table no_float,
            record {
              count = 1;
              moved = moved;
              some_byte = omega arith;
              leaf = rw (no_table, no_float) at e_ok;
              same = refl;
            },
          )
        ]
      ]
