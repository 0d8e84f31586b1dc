-- ===== src/Cache/Dispatch.antt =====
-- An indirect branch through the inline cache, and from there through the sieve.
use unitrans.Blocks.State.{Blocks}
use unitrans.Blocks.Tests.{empty}
use unitrans.Cache.Code.{need_patch_32, EnvLayout, cemit_ind_opt}
use unitrans.Cache.Emission.{unfilled, unfilled-length}
use unitrans.Cache.Frame.{Agree, Spells-moved}
use unitrans.Cache.Fresh.{cemit_ind_opt-IsCache}
use unitrans.Cache.Misses.{WayOut, landing, IsCache}
use unitrans.Cache.Sequence.{
  first_of, patch_all, resolved, AreAddresses, left_after, pairs_after, pairs_after-first_of,
  entered_after-more, patch_all-After, IsCache-Agree,
}
use unitrans.Cache.Slots.{Slots-Arrives}
use unitrans.Common.{
  ltb, ◌==◌, if◌then◌else◌, lt→ltb, ==_iff, Bool-cases, Option-cases, length, length-append, suc,
  ap₂, ◌^◌, refl, zero, arith, ◌≡◌, ◌*◌, ◌∙◌, inl, sym, true, none, List, some, ℕ, ◌≢◌, ◌++◌, [],
  false, inr, Option, ◌≤◌, ◌<◌, ◌∷◌, Bool, ◌+◌, ap, subst,
}
use unitrans.Emit.Memory.{Memory, Out}
use unitrans.Emit.Stored.{Spells, Spells-same}
use unitrans.Link.Patch.{translated}
use unitrans.Sieve.Chain.{lookup, Pushed, Arrives, cpu, jump-Step}
use unitrans.Sieve.Dispatch.{
  stub_bytes, emit_sieve_stub-Spells, dispatch-Arrives, view_of, lookup-view_of,
}
use unitrans.Sieve.Entry.{default_sieve_buffer_size, SieveState}
use unitrans.Sieve.History.{add_all, AreTranslated, add_all-Holds}
use unitrans.Sieve.Holding.{IsSieve}
use unitrans.Sieve.Machine.{Cpu, Runs, Runs-trans}
use unitrans.Sieve.Table.{emit_sieve_stub}

-- The slots that are not filled have no other address than the placeholder.
lookup-unfilled :
    (target : ℕ) (filled : List (ℕ × ℕ)) (n h : ℕ)
    → target ≢ need_patch_32
    → lookup target (filled ++ unfilled n h) ≡ lookup target filled
unfolding lookup
lookup-unfilled target [] zero h ne = refl
lookup-unfilled target [] (suc n) h ne =
    let apart : (need_patch_32 == target) ≡ false = elim (Bool-cases (need_patch_32 == target)) [
      | inl same ↦ absurd (ne (sym ((==_iff need_patch_32 target).0 same)))
      | inr differ ↦ differ
    ] in
    rw apart (lookup-unfilled target [] n (h + 10) ne)
lookup-unfilled target ((pc, tc_ptr) ∷ filled) n h ne =
    ap (λ (o : Option ℕ). if pc == target then some tc_ptr else o)
      (lookup-unfilled target filled n h ne)

-- From the first test of a cache.
pub IsCache-Arrives :
    (l : EnvLayout) (tb ind_type a left : ℕ) (filled : List (ℕ × ℕ)) (entered : Bool) (s : Blocks)
    (m : Memory) (esp saved target ecx : ℕ)
    → IsCache l tb ind_type a left filled entered s m
    → target ≢ need_patch_32
    → Pushed m esp saved target
    → (c : Cpu) × Runs m (cpu a ecx esp) c × Arrives (lookup target filled) (a + 36) esp saved c
IsCache-Arrives l tb ind_type a left filled entered s m esp saved target ecx is ne p =
    let h = landing a + 10 * length filled in
    let pairs = filled ++ unfilled left h in
    let (c, runs, arrives) = Slots-Arrives m a (landing a) esp saved target ecx pairs is.slots p in
    let total : a + 12 * length pairs ≡ a + 36 =
      omega (arith, is.count, length-append filled (unfilled left h), unfilled-length left h) in
    (
      c,
      runs,
      subst (λ (o : Option ℕ). Arrives o (a + 36) esp saved c)
          (lookup-unfilled target filled left h ne)
          (subst (λ (k : ℕ). Arrives (lookup target pairs) k esp saved c) total arrives),
    )

or_both : Option (Blocks × Out) → Blocks × Out → Blocks × Out
or_both none d = d
or_both (some x) d = x

both_are : {x y : Blocks × Out} → some x ≡ some y → x ≡ y
unfolding or_both
both_are {x} p = ap (λ (o : Option (Blocks × Out)). or_both o x) p

resolved-length : (code : ℕ → ℕ) (ms : List (ℕ × ℕ)) → length (resolved code ms) ≡ length ms
resolved-length code [] = refl
resolved-length code ((eip, dest) ∷ ms) = ap suc (resolved-length code ms)

-- The emitted cache behind the misses.
missed-IsCache :
    (l : EnvLayout) (tb ind_type : ℕ) (s s' : Blocks) (o o' : Out) (misses : List (ℕ × ℕ))
    → (s.tbs tb).jmp_ind_index ≡ 0
    → o.code_ptr + 99 ≤ 2 ^ 32
    → cemit_ind_opt l tb ind_type s o ≡ some (s', o')
    → ((i : ℕ) → (s'.tbs i).tc_ptr < 2 ^ 32)
    → l.sieve_stub < 2 ^ 32
    → AreAddresses misses
    → let ms = resolved (λ i. (s'.tbs i).tc_ptr) misses in
      let r = patch_all l tb misses s' o'.mem in
      IsCache l tb ind_type
        (o.code_ptr + 1)
        (left_after 3 ms)
        (first_of 3 ms)
        (ltb 3 (length misses))
        r.0
        r.1
missed-IsCache l tb ind_type s s' o o' misses empty room ran codes_lt stub_lt addresses =
    let code : ℕ → ℕ = λ i. (s'.tbs i).tc_ptr in
    let ms = resolved code misses in
    let (s₁, o₁, ran', end, push, same, codes, fresh) =
      cemit_ind_opt-IsCache l tb ind_type s o empty room in
    let a = o.code_ptr + 1 in
    let both : (s₁, o₁) ≡ (s', o') = both_are (sym ran' ∙ ran) in
    let fresh' : IsCache l tb ind_type a 3 [] false s' o'.mem =
      subst (λ (r : Blocks × Out). IsCache l tb ind_type a 3 [] false r.0 r.1.mem) both fresh in
    let (after, kept) =
      patch_all-After l tb ind_type a code misses 3 [] false s' o'.mem (λ i. refl) codes_lt stub_lt
        addresses fresh' in
    let r = patch_all l tb misses s' o'.mem in
    subst
      (λ (ps : List (ℕ × ℕ)).
        IsCache l tb ind_type a (left_after 3 ms) ps (ltb 3 (length misses)) r.0 r.1)
      (pairs_after-first_of [] 3 ms)
      (subst
        (λ (e : Bool). IsCache l tb ind_type a (left_after 3 ms) (pairs_after [] 3 ms) e r.0 r.1)
        (entered_after-more 3 ms ∙ ap (ltb 3) (resolved-length code misses)) after)

-- The code of an indirect branch in a block that is new, after any sequence of misses, each for an
-- address and a block with translated code: a branch to one of the first three addresses that
-- missed reaches the code of the block of the first such miss, with the guest's %ecx restored and the
-- two pushed words dropped; any other branch, but to the placeholder's address, gets to the way out
-- with both words still on the stack. The way out leaves the cache as long as there were at most three
-- misses, and leads to the sieve afterwards.
pub patch_all-Arrives :
    (l : EnvLayout) (tb ind_type : ℕ) (s s' : Blocks) (o o' : Out) (misses : List (ℕ × ℕ))
    (esp saved target ecx : ℕ)
    → (s.tbs tb).jmp_ind_index ≡ 0
    → o.code_ptr + 99 ≤ 2 ^ 32
    → cemit_ind_opt l tb ind_type s o ≡ some (s', o')
    → ((i : ℕ) → (s'.tbs i).tc_ptr < 2 ^ 32)
    → l.sieve_stub < 2 ^ 32
    → AreAddresses misses
    → target ≢ need_patch_32
    → Pushed (patch_all l tb misses s' o'.mem).1 esp saved target
    → let m = (patch_all l tb misses s' o'.mem).1 in
      let way = o.code_ptr + 37 in
      (c : Cpu) × Runs m (cpu (o.code_ptr + 1) ecx esp) c
      × Arrives
          (lookup target (first_of 3 (resolved (λ i. (s'.tbs i).tc_ptr) misses)))
          way
          esp
          saved
          c
      × WayOut l tb ind_type m way (ltb 3 (length misses))
patch_all-Arrives l tb ind_type s s' o o' misses esp saved target ecx empty room ran codes_lt
      stub_lt addresses ne p =
    let ms = resolved (λ i. (s'.tbs i).tc_ptr) misses in
    let a = o.code_ptr + 1 in
    let is =
      missed-IsCache l tb ind_type s s' o o' misses empty room ran codes_lt stub_lt addresses in
    let r = patch_all l tb misses s' o'.mem in
    let (c, runs, arrives) =
      IsCache-Arrives l tb ind_type a (left_after 3 ms) (first_of 3 ms) (ltb 3 (length misses)) r.0
        r.1 esp saved target ecx is ne p in
    (
      c,
      runs,
      subst (λ (k : ℕ). Arrives (lookup target (first_of 3 ms)) k esp saved c) (omega arith)
          arrives,
      subst (λ (k : ℕ). WayOut l tb ind_type r.1 k (ltb 3 (length misses))) (omega arith) is.way,
    )

lookup-append_none :
    (target : ℕ) (xs ys : List (ℕ × ℕ))
    → lookup target xs ≡ none
    → lookup target (xs ++ ys) ≡ lookup target ys
unfolding lookup
lookup-append_none target [] ys h = refl
lookup-append_none target ((pc, tc_ptr) ∷ xs) ys h = ground (arith, lookup-append_none target xs ys)

lookup-append_some :
    (target code : ℕ) (xs ys : List (ℕ × ℕ))
    → lookup target xs ≡ some code
    → lookup target (xs ++ ys) ≡ some code
unfolding lookup
lookup-append_some target code [] ys h = cc
lookup-append_some target code ((pc, tc_ptr) ∷ xs) ys h =
    ground (arith, lookup-append_some target code xs ys)

-- A cache whose way out leads to the sieve, in the memory of a sieve: a branch reaches the code that
-- the cache has for its target, or else the code of the newest entry that the sieve has, with the
-- guest's %ecx restored and the two pushed words dropped, or else leaves the cache from the end of a
-- chain with both words on the stack. The target is not the placeholder's address.
full-Arrives :
    (l : EnvLayout) (tb ind_type a left : ℕ) (filled additions : List (ℕ × ℕ)) (b : Blocks)
    (s : SieveState) (exit esp saved target ecx : ℕ)
    → IsCache l tb ind_type a left filled true b s.out.mem
    → IsSieve s exit (view_of additions)
    → Spells s.out.mem l.sieve_stub (stub_bytes s.sieve_hashtable)
    → l.sieve_stub + 16 ≤ 2 ^ 32
    → target ≢ need_patch_32
    → Pushed s.out.mem esp saved target
    → (c : Cpu) × Runs s.out.mem (cpu a ecx esp) c
      × Arrives (lookup target (filled ++ additions)) exit esp saved c
unfolding Arrives
full-Arrives l tb ind_type a left filled additions b s exit esp saved target ecx is sieve stub room
      ne p =
    let m = s.out.mem in
    let (c, runs, arrives) =
      IsCache-Arrives l tb ind_type a left filled true b m esp saved target ecx is ne p in
    elim (Option-cases (lookup target filled)) [
      | inr (code, found) ↦ (
        c,
        runs,
        rw (lookup-append_some target code filled additions found)
            (subst (λ (o : Option ℕ). Arrives o (a + 36) esp saved c) found arrives),
      )
      | inl missing ↦
          let (at_way, stack) =
            subst (λ (o : Option ℕ). Arrives o (a + 36) esp saved c) missing arrives in
          let (d, runs', arrives') =
            dispatch-Arrives s exit l.sieve_stub c.ecx esp saved target (view_of additions) sieve
              stub room p in
          let jumps =
            subst (λ (k : Cpu). Runs m (cpu a ecx esp) k)
              (ap₂ (λ (x y : ℕ). cpu x c.ecx y) at_way stack) runs in
          (
            d,
            Runs-trans jumps (Runs.then (jump-Step c.ecx esp is.way) runs'),
            rw (lookup-append_none target filled additions missing) (
                subst (λ (o : Option ℕ). Arrives o exit esp saved d)
                  (lookup-view_of target additions) arrives'),
          )
    ]

-- The code of an indirect branch in a block that is new, after more than three misses, each for an
-- address and a block with translated code, and a sieve without entries to which any entries were
-- added that its buffer has room for. In the memory that the additions left, the code as the misses
-- left it and the stub that `sieve_init` emits are still there. Then a branch reaches the code of the
-- block of the first of the first three misses that was for its target, or else the code of the
-- newest entry of the sieve for it, with the guest's %ecx restored and the two pushed words dropped,
-- or else leaves the cache from the end of a chain with both words on the stack. The target is not
-- the placeholder's address.
pub branch-Arrives :
    (l : EnvLayout) (tb ind_type : ℕ) (s s' : Blocks) (o o' stub_out : Out)
    (misses additions : List (ℕ × ℕ)) (sieve t : SieveState) (exit esp saved target ecx : ℕ)
    → (s.tbs tb).jmp_ind_index ≡ 0
    → o.code_ptr + 99 ≤ 2 ^ 32
    → cemit_ind_opt l tb ind_type s o ≡ some (s', o')
    → ((i : ℕ) → (s'.tbs i).tc_ptr < 2 ^ 32)
    → l.sieve_stub + 16 ≤ 2 ^ 32
    → AreAddresses misses
    → 3 < length misses
    → IsSieve sieve exit (view_of [])
    → AreTranslated additions
    → sieve.out.code_ptr + 27 * length additions ≤ sieve.sieve_buffer + default_sieve_buffer_size
    → add_all additions sieve ≡ some t
    → Agree (patch_all l tb misses s' o'.mem).1 t.out.mem (o.code_ptr + 1) (o.code_ptr + 99)
    → stub_out.code_ptr ≡ l.sieve_stub
    → Agree
        (emit_sieve_stub t.sieve_hashtable stub_out).mem
        t.out.mem
        l.sieve_stub
        (l.sieve_stub + 16)
    → target ≢ need_patch_32
    → Pushed t.out.mem esp saved target
    → (c : Cpu) × Runs t.out.mem (cpu (o.code_ptr + 1) ecx esp) c
      × Arrives
          (lookup target (first_of 3 (resolved (λ i. (s'.tbs i).tc_ptr) misses) ++ additions))
          exit
          esp
          saved
          c
branch-Arrives l tb ind_type s s' o o' stub_out misses additions sieve t exit esp saved target ecx
      empty room ran codes_lt stub_room addresses many is translated buffer_room added' code_there
      stub_at stub_there ne p =
    let code : ℕ → ℕ = λ i. (s'.tbs i).tc_ptr in
    let a = o.code_ptr + 1 in
    let r = patch_all l tb misses s' o'.mem in
    let left = left_after 3 (resolved code misses) in
    let after =
      missed-IsCache l tb ind_type s s' o o' misses empty room ran codes_lt
        (omega (arith, stub_room)) addresses in
    let way_on : ltb 3 (length misses) ≡ true = lt→ltb 3 (length misses) many in
    let full : IsCache l tb ind_type a left (first_of 3 (resolved code misses)) true r.0 t.out.mem =
      IsCache-Agree l tb ind_type a left (first_of 3 (resolved code misses)) true r.0 r.1 t.out.mem
        (λ x le lt. code_there x le (omega (arith, lt)))
        (subst
          (λ (e : Bool). IsCache l tb ind_type a left (first_of 3 (resolved code misses)) e r.0 r.1)
          way_on after) in
    full-Arrives l tb ind_type a left (first_of 3 (resolved code misses)) additions r.0 t exit esp
      saved target ecx full (add_all-Holds additions sieve t exit is translated buffer_room added')
      (Spells-same (stub_bytes t.sieve_hashtable) (emit_sieve_stub t.sieve_hashtable stub_out).mem
        t.out.mem l.sieve_stub stub_there
        (Spells-moved (emit_sieve_stub t.sieve_hashtable stub_out).mem stub_out.code_ptr
          l.sieve_stub (stub_bytes t.sieve_hashtable) stub_at
          (emit_sieve_stub-Spells t.sieve_hashtable stub_out)))
      stub_room ne p
