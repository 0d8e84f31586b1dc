-- ===== src/Translate/EachCall.antt =====
-- The same for calls, returns and indirect jumps.
use unitrans.Blocks.State.{ind_slot_max, Blocks}
use unitrans.Cache.Code.{
  need_patch_32, EnvLayout, cemit_exit_tb, cemit_sieve_nopush, emit_tests, emit_hit, patch_byte,
  emit_hits, cemit_ind_opt,
}
use unitrans.Cache.Emission.{emit_tests-Tested}
use unitrans.Cache.Fresh.{leave-Emitted}
use unitrans.Common.{
  ltb, ◌==◌, Bool-cases, u32, sub32, has, some, List, arith, ◌∷◌, ◌+◌, inl, none, [], inr, Option,
  refl, ◌≤◌, ℕ,
}
use unitrans.Common.Maybe.{◌>>=◌}
use unitrans.Common.Tried.{of_step}
use unitrans.Decode.State.{opstate_data32, Decode}
use unitrans.Emit.Memory.{Out, emit, code_emit8, code_emit32}
use unitrans.Emit.Trace.{nothing, then8}
use unitrans.Translate.Advance.{
  When, When-bind, Still, Noted, Still-trans, note_jump-Noted, When-map, NotedNext, Noted-next,
  When-guard,
}
use unitrans.Translate.Calls.{
  cemit_rc_cmp, call_front, call_jump, emit_call_disp, dest_based_on_esp, push_next, push_both,
  emit_cache, ind_type_call, ind_type_jmp, set_kind, rc_entry, rc_place, emit_call_near_mem,
  note_function, emit_jmp_near_mem, emit_ret, drop_arguments, emit_ret_iw, emit_sysenter,
}
use unitrans.Translate.Each.{emit_push_rm-Still}
use unitrans.Translate.Jumps.{emit_push_rm}
use unitrans.Translate.State.{Trans, out_of, emitting, note_jump}

abbrev Longer : Out → Out × List ℕ → Type 0
Longer o r = o.code_ptr ≤ r.0.code_ptr

-- Two steps that may abort, as one.
step-bind {ℓ κ ι μ} :
    {A : Type ℓ} {B : Type κ} (Q : A → Type ι) (P : B → Type μ) (o : Option A) (f : A → Option B)
    → When (of_step o) Q
    → ((a : A) → Q a → When (of_step (f a)) P)
    → When (of_step (o >>= f)) P
step-bind Q P none f q h = tt
step-bind Q P (some a) f q h = h a q

hits-moved : (places : List (ℕ × ℕ)) (o : Out) → When (of_step (emit_hits places o)) (Longer o)
unfolding emit_hits code_emit8 code_emit32 emit
hits-moved [] o = omega arith
hits-moved ((src, place) ∷ places) o =
    let d = sub32 (sub32 o.code_ptr place) 1 in
    let o₁ = code_emit32 need_patch_32 (emit_hit (patch_byte place d o)) in
    elim (Bool-cases (ltb 0xff d)) [
      | inl far ↦ rw (When, far) tt
      | inr near ↦
          rw (When, near)
            (step-bind (Longer o₁) (Longer o) (emit_hits places o₁) _ (hits-moved places o₁)
              (λ r le. omega (arith, le)))
    ]

emit_cache-Still :
    (l : EnvLayout) (ind_type : ℕ) (t : Trans) → When (emit_cache l ind_type t) (Still t)
unfolding emit_cache cemit_ind_opt
emit_cache-Still l ind_type t =
    let o = out_of t in
    let tests = emit_tests ind_slot_max (code_emit8 0x51 o) in
    let o₁ = cemit_exit_tb l (some (l.block_addr t.cur_tb)) (some ind_type) tests.0 in
    let push = then8 0x51 (nothing o) in
    let leave = leave-Emitted l t.cur_tb ind_type tests.0 in
    let moved = (emit_tests-Tested ind_slot_max (code_emit8 0x51 o)).1 in
    When-bind (λ (r : Blocks × Out). o.code_ptr ≤ r.1.code_ptr) (Still t)
      (of_step (cemit_ind_opt l t.cur_tb ind_type t.linker.blocks o)) _
      (step-bind (Longer o₁) (λ (r : Blocks × Out). o.code_ptr ≤ r.1.code_ptr)
        (emit_hits tests.1 o₁) _ (hits-moved tests.1 o₁)
        (λ r le. omega (arith, le, push.moved, moved, leave.moved)))
      (λ r le. record { moved = le; same = refl })

rc_cmp-Still :
    (l : EnvLayout) (pc place : ℕ) (t : Trans) → Still t (emitting (cemit_rc_cmp l pc place) t)
unfolding cemit_rc_cmp cemit_sieve_nopush code_emit8 code_emit32 emit
rc_cmp-Still l pc place t = record { moved = omega arith; same = refl }

pub emit_call_disp-Noted :
    (l : EnvLayout) (fuel : ℕ) (ds : Decode) (t : Trans)
    → When (emit_call_disp l fuel ds t) (NotedNext t)
unfolding emit_call_disp code_emit8 code_emit32 emit
emit_call_disp-Noted l fuel ds t =
    let to = u32 (t.pc_ptr + ds.immediate) in
    let t₁ = call_front l to t in
    When-guard (NotedNext t) (has ds.opstate opstate_data32) _ (
      When-bind (Noted t) (NotedNext t) (note_jump to to (call_jump t₁)) _
        (note_jump-Noted to to t (call_jump t₁) (omega arith) refl)
        (λ v n.
          Noted-next fuel ds t v (emitting (cemit_rc_cmp l t.pc_ptr t₁.code_ptr) v) n
            (rc_cmp-Still l t.pc_ptr t₁.code_ptr v)))

push_both-Still : (ds : Decode) (t : Trans) → When (push_both ds t) (Still t)
unfolding push_both code_emit8 code_emit32 emit
push_both-Still ds t = elim (Bool-cases (dest_based_on_esp ds)) [
  | inl swapped ↦
      rw (When, swapped)
        (When-bind (Still t) (Still t) (emit_push_rm ds t) _ (emit_push_rm-Still ds t)
          (λ u s. Still-trans s (record { moved = omega arith; same = refl })))
  | inr straight ↦
      rw (When, straight)
        (When-map (Still (push_next t)) (Still t) (emit_push_rm ds (push_next t))
          (emit_push_rm-Still ds (push_next t))
          (λ u s. Still-trans (record { moved = omega arith; same = refl }) s))
]

set_kind-Still : (k : ℕ) (t : Trans) → Still t (set_kind k t)
set_kind-Still k t = record { moved = omega arith; same = refl }

pub emit_call_near_mem-Noted :
    (l : EnvLayout) (fuel : ℕ) (ds : Decode) (t : Trans)
    → When (emit_call_near_mem l fuel ds t) (NotedNext t)
unfolding emit_call_near_mem code_emit8 code_emit32 emit
emit_call_near_mem-Noted l fuel ds t =
    let t₀ = set_kind ind_type_call t in
    When-bind (Still t₀) (NotedNext t) (push_both ds t₀) _ (push_both-Still ds t₀) (λ t₁ s.
      let t₃ = rc_place (rc_entry l t₁) in
      When-bind (Still t₃) (NotedNext t) (emit_cache l ind_type_call t₃) _
        (emit_cache-Still l ind_type_call t₃)
        (λ t₄ s'.
          let here : Still t t₄ =
            Still-trans (Still-trans (set_kind-Still ind_type_call t) s)
              (Still-trans (record { moved = omega arith; same = refl }) s') in
          Noted-next fuel ds t t₄ (emitting (cemit_rc_cmp l t₄.pc_ptr (rc_entry l t₁).code_ptr) t₄)
            (Noted.still here) (rc_cmp-Still l t₄.pc_ptr (rc_entry l t₁).code_ptr t₄)))

pub emit_jmp_near_mem-Noted :
    (l : EnvLayout) (ds : Decode) (t : Trans) → When (emit_jmp_near_mem l ds t) (NotedNext t)
unfolding emit_jmp_near_mem code_emit8 code_emit32 emit
emit_jmp_near_mem-Noted l ds t =
    let t₁ = note_function l (set_kind ind_type_jmp t) in
    When-bind (Still t₁) (NotedNext t) (emit_push_rm ds t₁) _ (emit_push_rm-Still ds t₁) (λ t₂ s.
      When-bind (Still t₂) (NotedNext t) (emit_cache l ind_type_jmp t₂) _
        (emit_cache-Still l ind_type_jmp t₂)
        (λ t₃ s'.
          let first : Still t t₁ = record { moved = omega arith; same = refl } in
          Noted.still (Still-trans first (Still-trans s s'))))

pub emit_ret-Noted : (l : EnvLayout) (t : Trans) → When (emit_ret l t) (NotedNext t)
unfolding emit_ret code_emit8 code_emit32 emit
emit_ret-Noted l t = Noted.still (record { moved = omega arith; same = refl })

drop-moved : (imm16 : ℕ) (o : Out) → o.code_ptr ≤ (drop_arguments imm16 o).code_ptr
unfolding code_emit8 code_emit32 emit
drop-moved imm16 o = elim (Bool-cases (imm16 == 4)) [
  | inl p ↦ rw p (omega arith)
  | inr p ↦ rw p (omega arith)
]

pub emit_ret_iw-Noted :
    (l : EnvLayout) (ds : Decode) (t : Trans) → When (emit_ret_iw l ds t) (NotedNext t)
unfolding emit_ret_iw code_emit8 code_emit32 emit
emit_ret_iw-Noted l ds t =
    let le = drop-moved ds.imm16 (out_of t) in
    Noted.still (record { moved = omega (arith, le); same = refl })

pub emit_sysenter-Noted : (t : Trans) → When (emit_sysenter t) (NotedNext t)
unfolding emit_sysenter
emit_sysenter-Noted t = Noted.still (record { moved = omega arith; same = refl })
