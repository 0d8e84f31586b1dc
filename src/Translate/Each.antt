-- ===== src/Translate/Each.antt =====
-- Each emitter lets the code grow, and notes at most one open jump, in the new code.
use unitrans.Blocks.Find.{tb_find_fast}
use unitrans.Blocks.Make.{make_tb}
use unitrans.Blocks.State.{normal_tb_tag, Blocks}
use unitrans.Cache.Code.{need_patch_32, EnvLayout}
use unitrans.Common.{
  ltb, ◌==◌, if◌then◌else◌, Bool-cases, u32, has, ◌&&◌, inr, ℕ, true, Option, not, false, arith,
  ◌+◌, none, ◌||◌, refl, inl, [], ◌∷◌, Bool, ◌≤◌, some,
}
use unitrans.Common.Tried.{result, of_search, of_step}
use unitrans.Decode.Fetch.{Code}
use unitrans.Decode.State.{dsfl_group2_prefix, dsfl_group4_prefix, Decode}
use unitrans.Emit.Memory.{Out, emit, code_emit8, code_emit16, code_emit32, ◌▷◌}
use unitrans.Translate.Advance.{
  When, When-bind, any_result, Still, Noted, then-Noted, note_jump-Noted, NotedNext, Noted-next,
}
use unitrans.Translate.Jumps.{
  emit_normal, emit_disp, push_modrm, emit_push_rm, open_jump, func_of, prefix_of, narrow,
  jcond_code, emit_jcond, short_code, long_code, patch_distance, emit_other_jcond, copy_entry,
  is_function_patten, hand_over, emit_jmp, emit_int,
}
use unitrans.Translate.State.{Trans, out_of, emitting, with_blocks, note_jump, copy_insn}

prefix-moved : (ds : Decode) (o : Out) → o.code_ptr ≤ (prefix_of ds o).code_ptr
unfolding code_emit8 emit
prefix-moved ds o = elim (Bool-cases (has ds.flags dsfl_group2_prefix)) [
  | inl p ↦ rw p (omega arith)
  | inr p ↦ rw p (omega arith)
]

pub emit_normal-Noted : (m : Code) (t : Trans) → When (emit_normal m t) (NotedNext t)
unfolding emit_normal copy_insn emit
emit_normal-Noted m t = Noted.still (record { moved = omega arith; same = refl })

pub emit_jcond-Noted :
    (m : Code) (fuel : ℕ) (ds : Decode) (t : Trans) → When (emit_jcond m fuel ds t) (NotedNext t)
unfolding emit_jcond code_emit8 code_emit32 emit
emit_jcond-Noted m fuel ds t =
    let le = prefix-moved ds (out_of t) in
    When-bind (Noted t) (NotedNext t) _ _
      (note_jump-Noted _ _ t (jcond_code m ds t) (omega (arith, le)) refl)
      (λ v n. Noted-next fuel ds t v v n (record { moved = omega arith; same = refl }))

pub emit_other_jcond-Noted :
    (fuel : ℕ) (ds : Decode) (t : Trans) → When (emit_other_jcond fuel ds t) (NotedNext t)
unfolding emit_other_jcond code_emit8 code_emit32 emit
emit_other_jcond-Noted fuel ds t =
    let le = prefix-moved ds (out_of t) in
    When-bind (Noted t) (NotedNext t) _ _
      (note_jump-Noted _ _ t (long_code (short_code ds t)) (omega (arith, le)) refl)
      (λ v n.
        Noted-next fuel ds t v (patch_distance (short_code ds t).code_ptr v) n
          (record { moved = omega arith; same = refl }))

hand_over-Still :
    (m : Code) (l : EnvLayout) (found : Option ℕ) (to : ℕ) (t : Trans)
    → When (hand_over m l found to t) (Still t)
unfolding hand_over code_emit8 code_emit32 emit
hand_over-Still m l (some i) to t =
    elim (Bool-cases (
      not ((t.linker.blocks.tbs i).func_addr == 0)
      && not ((t.linker.blocks.tbs i).func_addr == func_of t))) [
        | inl differ ↦ rw (When, differ) (record { moved = omega arith; same = refl })
        | inr same ↦ rw (When, same) (record { moved = omega arith; same = refl })
      ]
hand_over-Still m l none to t = elim (Bool-cases (ltb to (func_of t) || is_function_patten m to)) [
  | inl fresh ↦
      rw (When, fresh)
        (When-bind (λ (r : ℕ × Blocks). Unit {0}) (Still t)
          (of_step (make_tb to to normal_tb_tag t.linker.blocks))
          (λ (r : ℕ × Blocks).
            let t₁ = with_blocks r.1 t in result (emitting (copy_entry l (func_of t₁) to) t₁))
          (any_result (of_step (make_tb to to normal_tb_tag t.linker.blocks)))
          (λ r u. record { moved = omega arith; same = refl }))
  | inr inside ↦ rw (When, inside) (record { moved = omega arith; same = refl })
]

-- Behind parts that let the code grow, an open jump at the end of the block.
pub emit_jmp-Noted :
    (m : Code) (l : EnvLayout) (fuel : ℕ) (ds : Decode) (t : Trans)
    → When (emit_jmp m l fuel ds t) (NotedNext t)
unfolding emit_jmp code_emit8 code_emit32 emit
emit_jmp-Noted m l fuel ds t =
    let to = narrow ds (u32 (t.pc_ptr + ds.immediate)) in
    let found = of_search (tb_find_fast fuel to normal_tb_tag t.linker.blocks) in
    When-bind (λ (r : Option ℕ × Blocks). Unit {0}) (NotedNext t) found _ (any_result found)
      (λ r u.
        When-bind (Still (with_blocks r.1 t)) (NotedNext t)
          (hand_over m l r.0 to (with_blocks r.1 t)) _
          (hand_over-Still m l r.0 to (with_blocks r.1 t))
          (λ t₁ s.
            let t₂ = emitting (open_jump (0xe9 ∷ []) need_patch_32) t₁ in
            When-bind (Noted t₁) (NotedNext t) (note_jump to (func_of t₂) t₂) _
              (note_jump-Noted to (func_of t₂) t₁ t₂ (omega arith) refl)
              (λ t₃ n. then-Noted (record { moved = s.moved; same = s.same }) n)))

pub emit_int-Noted :
    (m : Code) (l : EnvLayout) (ds : Decode) (t : Trans) → When (emit_int m l ds t) (NotedNext t)
unfolding emit_int copy_insn code_emit8 code_emit32 emit
emit_int-Noted m l ds t = elim (Bool-cases (m (u32 (ds.instr + 1)) == 0x80)) [
  | inl call ↦ rw call (Noted.still (record { moved = omega arith; same = refl }))
  | inr trap ↦ rw trap (Noted.still (record { moved = omega arith; same = refl }))
]

-- A choice between two emissions.
either-moved :
    (b : Bool) (lo : ℕ) (o o' : Out)
    → lo ≤ o.code_ptr
    → lo ≤ o'.code_ptr
    → lo ≤ (if b then o else o').code_ptr
either-moved true lo o o' le le' = le
either-moved false lo o o' le le' = le'

disp-moved : (ds : Decode) (o : Out) → o.code_ptr ≤ (emit_disp ds o).code_ptr
unfolding code_emit8 code_emit16 code_emit32 emit
disp-moved ds o =
    either-moved (ds.disp_bytes == 1) o.code_ptr (code_emit8 ds.displacement o) _ (omega arith) (
      either-moved (ds.disp_bytes == 2) o.code_ptr (code_emit16 ds.displacement o) _ (omega arith) (
        either-moved (ds.disp_bytes == 4) o.code_ptr (code_emit32 ds.displacement o) o (omega arith)
          (omega arith)))

pub emit_push_rm-Still : (ds : Decode) (t : Trans) → When (emit_push_rm ds t) (Still t)
unfolding emit_push_rm code_emit8 emit
emit_push_rm-Still ds t = elim (Bool-cases (has ds.flags dsfl_group4_prefix)) [
  | inl sized ↦ rw sized tt
  | inr plain ↦ rw plain (
      let o₁ = prefix_of ds (out_of t) ▷ code_emit8 0xff ▷ code_emit8 (push_modrm ds.modrm) in
      let o₂ : Out = if ds.need_sib then code_emit8 ds.sib o₁ else o₁ in
      let le = prefix-moved ds (out_of t) in
      let le₂ : o₁.code_ptr ≤ o₂.code_ptr =
        either-moved ds.need_sib o₁.code_ptr (code_emit8 ds.sib o₁) o₁ (omega arith)
          (omega arith) in
      let le₃ = disp-moved ds o₂ in record { moved = omega (arith, le, le₂, le₃); same = refl })
]
