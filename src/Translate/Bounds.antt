-- ===== src/Translate/Bounds.antt =====
-- The loop of a block's translation: its rounds are bounded, its list of open jumps does not overflow, and
-- every open jump lies in the code of the block.
use unitrans.Cache.Code.{need_patch_32, EnvLayout}
use unitrans.Common.{
  leb, ◌==◌, Bool-cases, length, length-append, sub32, subst, ◌||◌, List, inr, Bool, zero, ◌∷◌, [],
  suc, ◌≤◌, false, ◌+◌, ◌++◌, ap, inl, arith, ◌≡◌, true, sym, ◌<◌, refl, ℕ,
}
use unitrans.Common.Tried.{Tried, result, abort, no_fuel}
use unitrans.Decode.Fetch.{Code}
use unitrans.Decode.Insn.{simple_disas_insn}
use unitrans.Decode.OpCode.{EmitFn, Pointer, null, function, table}
use unitrans.Decode.Run.{Run}
use unitrans.Decode.State.{Decode}
use unitrans.Emit.Memory.{emit, code_emit32}
use unitrans.Link.State.{PatchEntry}
use unitrans.Translate.Advance.{
  When, Still, Noted, then-Noted, note_jump-Noted, When-map, NotedNext,
}
use unitrans.Translate.Each.{
  emit_normal-Noted, emit_jcond-Noted, emit_other_jcond-Noted, emit_jmp-Noted, emit_int-Noted,
}
use unitrans.Translate.EachCall.{
  emit_call_disp-Noted, emit_call_near_mem-Noted, emit_jmp_near_mem-Noted, emit_ret-Noted,
  emit_ret_iw-Noted, emit_sysenter-Noted,
}
use unitrans.Translate.Gen.{
  run_emitter, run_emitfn, max_insns, Outcome, finished, aborted, out_of_rounds, fuel_spent,
  emit_decoded, translate_insn, count_insn, unmark, cut_block, must_cut, ended, after_insn,
  gen_loop, start_trans,
}
use unitrans.Translate.Jumps.{open_jump, func_of}
use unitrans.Translate.State.{Trans, emitting, note_jump}

-- Every displacement lies between the two addresses.
abbrev pub AllInside : ℕ → ℕ → List PatchEntry → Type 0
AllInside lo hi [] = Unit {0}
AllInside lo hi (p ∷ ps) = (lo < p.place) × (p.place + 4 ≤ hi) × AllInside lo hi ps

AllInside-wider :
    (lo hi hi' : ℕ) (ps : List PatchEntry) → hi ≤ hi' → AllInside lo hi ps → AllInside lo hi' ps
AllInside-wider lo hi hi' [] le all_in = tt
AllInside-wider lo hi hi' (p ∷ ps) le (lt, fits, rest) =
    (lt, omega (arith, fits, le), AllInside-wider lo hi hi' ps le rest)

AllInside-append :
    (lo hi : ℕ) (ps qs : List PatchEntry)
    → AllInside lo hi ps
    → AllInside lo hi qs
    → AllInside lo hi (ps ++ qs)
AllInside-append lo hi [] qs all_in more = more
AllInside-append lo hi (p ∷ ps) qs (lt, fits, rest) more =
    (lt, fits, AllInside-append lo hi ps qs rest more)

-- The state within a block's code from `base` on, with at most `count` open jumps.
pub record IsInside (base count : ℕ) (t : Trans) : Type 0 where
  pub grown : base ≤ t.code_ptr
  pub at_most : length t.linker.patch_array ≤ count
  pub inside : AllInside base t.code_ptr t.linker.patch_array

Noted-IsInside :
    (base count : ℕ) (t u : Trans) → IsInside base count t → Noted t u → IsInside base (count + 1) u
Noted-IsInside base count t u is (Noted.still s) = record {
  grown = omega (arith, is.grown, s.moved);
  at_most = omega (arith, is.at_most, ap length s.same);
  inside =
      subst (AllInside base u.code_ptr) (sym s.same)
        (AllInside-wider base t.code_ptr u.code_ptr t.linker.patch_array s.moved is.inside);
}
Noted-IsInside base count t u is (Noted.noted p eq lt le) =
    let grown : t.code_ptr ≤ u.code_ptr = omega (arith, lt, le) in
    record {
      grown = omega (arith, is.grown, grown);
      at_most =
          omega (arith, is.at_most, ap length eq, length-append t.linker.patch_array (p ∷ []));
      inside = subst (AllInside base u.code_ptr) (sym eq) (
          AllInside-append base u.code_ptr t.linker.patch_array (p ∷ [])
            (AllInside-wider base t.code_ptr u.code_ptr t.linker.patch_array grown is.inside)
            (omega (arith, is.grown, lt), le, tt));
    }

-- Each emitter that the decoder may name.
run_emitter-Noted :
    (m : Code) (l : EnvLayout) (fuel : ℕ) (ds : Decode) (t : Trans) (f : EmitFn)
    → When (run_emitter m l fuel ds t f) (NotedNext t)
unfolding run_emitter
run_emitter-Noted m l fuel ds t EmitFn.emit_normal = emit_normal-Noted m t
run_emitter-Noted m l fuel ds t EmitFn.emit_jcond = emit_jcond-Noted m fuel ds t
run_emitter-Noted m l fuel ds t EmitFn.emit_other_jcond = emit_other_jcond-Noted fuel ds t
run_emitter-Noted m l fuel ds t EmitFn.emit_jmp = emit_jmp-Noted m l fuel ds t
run_emitter-Noted m l fuel ds t EmitFn.emit_int = emit_int-Noted m l ds t
run_emitter-Noted m l fuel ds t EmitFn.emit_call_disp = emit_call_disp-Noted l fuel ds t
run_emitter-Noted m l fuel ds t EmitFn.emit_call_near_mem = emit_call_near_mem-Noted l fuel ds t
run_emitter-Noted m l fuel ds t EmitFn.emit_jmp_near_mem = emit_jmp_near_mem-Noted l ds t
run_emitter-Noted m l fuel ds t EmitFn.emit_ret = emit_ret-Noted l t
run_emitter-Noted m l fuel ds t EmitFn.emit_ret_iw = emit_ret_iw-Noted l ds t
run_emitter-Noted m l fuel ds t EmitFn.emit_sysenter = emit_sysenter-Noted t

run_emitfn-Noted :
    (m : Code) (l : EnvLayout) (fuel : ℕ) (ds : Decode) (t : Trans) (p : Pointer)
    → When (run_emitfn m l fuel ds t p) (NotedNext t)
unfolding run_emitfn
run_emitfn-Noted m l fuel ds t null = tt
run_emitfn-Noted m l fuel ds t (table x) = tt
run_emitfn-Noted m l fuel ds t (function f) = run_emitter-Noted m l fuel ds t f

decoded-Noted :
    (m : Code) (l : EnvLayout) (fuel : ℕ) (t : Trans) (r : Run (Bool × Decode))
    → When (emit_decoded m l fuel t r) (NotedNext t)
unfolding emit_decoded
decoded-Noted m l fuel t Run.bad_table = tt
decoded-Noted m l fuel t Run.out_of_fuel = tt
decoded-Noted m l fuel t (Run.ok (defined, ds)) =
    let t₁ = record t { insn_len = sub32 ds.decode_eip t.pc_ptr; pc_ptr = ds.decode_eip } in
    When-map (NotedNext t₁) (NotedNext t) (run_emitfn m l fuel ds t₁ ds.emitfn)
      (run_emitfn-Noted m l fuel ds t₁ ds.emitfn)
      (λ r n. then-Noted (record { moved = omega arith; same = refl }) n)

translate_insn-Noted :
    (m : Code) (l : EnvLayout) (fuel : ℕ) (ds : Decode) (t : Trans)
    → When (translate_insn m l fuel ds t) (NotedNext t)
unfolding translate_insn
translate_insn-Noted m l fuel ds t = decoded-Noted m l fuel t (simple_disas_insn fuel m ds t.pc_ptr)

-- A translation that ends, and what holds of its state where it did not abort.
abbrev pub Ends : Outcome → (Trans → Type 0) → Type 0
Ends (finished t) P = P t
Ends aborted P = Unit {0}
Ends fuel_spent P = Unit {0}
Ends out_of_rounds P = false ≡ true

unmark-Still : (t : Trans) → Still t (unmark t)
unmark-Still t = elim (Bool-cases ((t.linker.blocks.tbs t.cur_tb).tc_ptr == t.code_ptr)) [
  | inl empty_yet ↦ rw empty_yet (record { moved = omega arith; same = refl })
  | inr begun ↦ rw begun (record { moved = omega arith; same = refl })
]

-- The block is cut with room for its last open jump.
cut_block-Noted : (t : Trans) → When (cut_block t) (Noted t)
unfolding cut_block code_emit32 emit
cut_block-Noted t =
    let s = unmark-Still t in
    let u = unmark t in
    let v = emitting (open_jump (0xe9 ∷ []) need_patch_32) u in
    When-map (Noted u) (Noted t) (note_jump v.pc_ptr (func_of v) v)
      (note_jump-Noted v.pc_ptr (func_of v) u v (omega arith) refl) (λ w n. then-Noted s n)

ended-Ends : (o : Tried Trans) (P : Trans → Type 0) → When o P → Ends (ended o) P
ended-Ends abort P w = tt
ended-Ends no_fuel P w = tt
ended-Ends (result t) P w = w

-- After an instruction, with at most 253 open jumps before it.
after_insn-Ends :
    (base num_insns : ℕ) (t : Trans) (o : Tried (Bool × Trans)) (rest : Trans → Outcome)
    → IsInside base 253 t
    → When o (NotedNext t)
    → ((u : Trans)
        → IsInside base 253 u
        → num_insns < max_insns
        → Ends (rest u) (IsInside base 255))
    → Ends (after_insn num_insns o rest) (IsInside base 255)
after_insn-Ends base num_insns t abort rest is w next_ends = tt
after_insn-Ends base num_insns t no_fuel rest is w next_ends = tt
after_insn-Ends base num_insns t (result (false, u)) rest is w next_ends =
    let now = Noted-IsInside base 253 t u is w in
    record { grown = now.grown; at_most = omega (arith, now.at_most); inside = now.inside }
after_insn-Ends base num_insns t (result (true, u)) rest is w next_ends =
    let u₁ = count_insn u in
    let now = Noted-IsInside base 253 t u is w in
    let now₁ : IsInside base 254 u₁ = record {
      grown = now.grown;
      at_most = now.at_most;
      inside = now.inside;
    } in
    let k = length u.linker.patch_array in
    elim (Bool-cases (must_cut num_insns u₁)) [
      | inl cut ↦ rw cut (
          ended-Ends (cut_block u₁) (IsInside base 255) (
            When-map (Noted u₁) (IsInside base 255) (cut_block u₁) (cut_block-Noted u₁)
              (λ v n. Noted-IsInside base 254 u₁ v now₁ n)))
      | inr go_on ↦ rw go_on (
          let room : (k ≤ 253) × (num_insns < max_insns) = no_cut k num_insns go_on in
          next_ends u₁ (record { grown = now.grown; at_most = room.0; inside = now.inside }) room.1)
    ]
  where
    no_cut : (k n : ℕ) → (leb 254 k || leb 8192 n) ≡ false → (k ≤ 253) × (n < 8192)
    no_cut k n h = ground arith

-- Every round of the loop is one instruction of at most 8193.
gen_loop-Ends :
    (rounds : ℕ) (m : Code) (l : EnvLayout) (fuel : ℕ) (ds : Decode) (num_insns base : ℕ)
    (t : Trans)
    → num_insns ≤ max_insns
    → max_insns < num_insns + rounds
    → IsInside base 253 t
    → Ends (gen_loop rounds m l fuel ds num_insns t) (IsInside base 255)
unfolding gen_loop
gen_loop-Ends zero m l fuel ds num_insns base t le enough is = absurd (omega (arith, le, enough))
gen_loop-Ends (suc rounds) m l fuel ds num_insns base t le enough is =
    after_insn-Ends base num_insns t (translate_insn m l fuel ds t) _ is
      (translate_insn-Noted m l fuel ds t)
      (λ u in_u lt.
        gen_loop-Ends rounds m l fuel ds (num_insns + 1) base u (omega (arith, lt))
          (omega (arith, enough)) in_u)

-- The loop of a block's translation translates at most `MAX_INSNS` and one instructions: with so many
-- rounds or more it never uses them up. Where it ends, and does not abort or spend the fuel on the
-- prefixes of an instruction or on a search, it ends with at most 255 open jumps, one less than `patch_array` has room
-- for, each with its displacement in the code that was emitted for the block, and with the code
-- pointer not before the block's code.
pub gen_loop-IsInside :
    (rounds : ℕ) (m : Code) (l : EnvLayout) (fuel : ℕ) (ds : Decode) (tb : ℕ) (t : Trans)
    → max_insns < rounds
    → Ends
        (gen_loop rounds m l fuel ds 0 (start_trans tb t))
        (IsInside (t.linker.blocks.tbs tb).tc_ptr 255)
gen_loop-IsInside rounds m l fuel ds tb t enough =
    gen_loop-Ends rounds m l fuel ds 0 (t.linker.blocks.tbs tb).tc_ptr (start_trans tb t)
      (omega arith) (omega (arith, enough))
      (record { grown = omega arith; at_most = omega arith; inside = tt })
