-- ===== src/Sieve/Dispatch.antt =====
-- An indirect branch through the sieve, from the stub to the translated code or out of the cache.
use unitrans.Cache.Emission.{apart}
use unitrans.Common.{
  ◌==◌, if◌then◌else◌, ==_iff, Bool-cases, ==_different, all, arith, ◌≡◌, ◌≤◌, false, List, [],
  some, ◌^◌, ◌<◌, ◌∙◌, ◌∷◌, ℕ, inl, sym, ◌+◌, ◌%◌, true, inr, ◌++◌, Option, subst, ap, ◌*◌, refl,
}
use unitrans.Emit.Memory.{Memory, le32, Out}
use unitrans.Emit.Stored.{Spells, store-Spells, Spells-same, Spells-left, Spells-right, are_bytes}
use unitrans.Emit.Trace.{Emitted, nothing, then8, then32}
use unitrans.Sieve.Chain.{lookup, Pushed, Arrives, cpu, Step-to, jump-Step, Chain-Arrives}
use unitrans.Sieve.Entry.{SieveState}
use unitrans.Sieve.Hash.{slot_of}
use unitrans.Sieve.Holding.{slot_of-index, IsSieve}
use unitrans.Sieve.Machine.{Cpu, Step, Runs, Runs-trans}
use unitrans.Sieve.Refinement.{insert}
use unitrans.Sieve.Table.{emit_sieve_stub}

abbrev pub stub_bytes : ℕ → List ℕ
stub_bytes base =
    (0x8b ∷ 0x4c ∷ 0x24 ∷ 4 ∷ 0x0f ∷ 0xb7 ∷ 0xc9 ∷ 0x8d ∷ 0x0c ∷ 0xcd ∷ [])
    ++ le32 base
    ++ (0xff ∷ 0xe1 ∷ [])

stub-Emitted : (base : ℕ) (o : Out) → Emitted o (emit_sieve_stub base o) (stub_bytes base)
unfolding emit_sieve_stub
stub-Emitted base o = then8 0xe1 (
    then8 0xff (
      then32 base (
        then8 0xcd (
          then8 0x0c (
            then8 0x8d (
              then8 0xc9 (
                then8 0xb7
                  (then8 0x0f (then8 4 (then8 0x24 (then8 0x4c (then8 0x8b (nothing o)))))))))))))

stub_bytes-bytes : (base : ℕ) → are_bytes (stub_bytes base) ≡ true
unfolding all
stub_bytes-bytes base = ground arith

-- The code that `sieve_init` emits for the table at `base` is at `a`.
pub emit_sieve_stub-Spells :
    (base : ℕ) (o : Out) → Spells (emit_sieve_stub base o).mem o.code_ptr (stub_bytes base)
emit_sieve_stub-Spells base o =
    let e = stub-Emitted base o in
    subst (λ (m : Memory). Spells m o.code_ptr (stub_bytes base)) (sym e.stored)
      (store-Spells (stub_bytes base) o.mem o.code_ptr (stub_bytes-bytes base))

-- The stub takes the processor to the slot of the target.
stub-Runs :
    (m : Memory) (a base ecx esp saved target : ℕ)
    → Spells m a (stub_bytes base)
    → a + 16 ≤ 2 ^ 32
    → base + 2 ^ 19 ≤ 2 ^ 32
    → Pushed m esp saved target
    → Runs m (cpu a ecx esp) (cpu (base + target % 2 ^ 16 * 8) (base + target % 2 ^ 16 * 8) esp)
stub-Runs m a base ecx esp saved target s room base_room p =
    let mov : List ℕ = 0x8b ∷ 0x4c ∷ 0x24 ∷ 4 ∷ [] in
    let movzwl : List ℕ = 0x0f ∷ 0xb7 ∷ 0xc9 ∷ [] in
    let lea : List ℕ = (0x8d ∷ 0x0c ∷ 0xcd ∷ []) ++ le32 base in
    let jump : List ℕ = 0xff ∷ 0xe1 ∷ [] in
    let k = target % 2 ^ 16 in
    let t₁ : Spells m (a + 4) (movzwl ++ lea ++ jump) =
      Spells-right mov (movzwl ++ lea ++ jump) m a s in
    let t₂ : Spells m (a + 7) (lea ++ jump) =
      subst (λ (x : ℕ). Spells m x (lea ++ jump)) (omega arith)
        (Spells-right movzwl (lea ++ jump) m (a + 4) t₁) in
    let t₃ : Spells m (a + 14) jump =
      subst (λ (x : ℕ). Spells m x jump) (omega arith) (Spells-right lea jump m (a + 7) t₂) in
    let s₁ : Step m (cpu a ecx esp) (cpu (a + 4) target esp) =
      Step-to (Step.mov_ecx 4 (omega arith) (Spells-left mov (movzwl ++ lea ++ jump) m a s))
        (omega (arith, room)) p.pushed_target refl in
    let s₂ : Step m (cpu (a + 4) target esp) (cpu (a + 7) k esp) =
      Step-to (Step.movzwl_ecx (Spells-left movzwl (lea ++ jump) m (a + 4) t₁))
        (omega (arith, room)) refl refl in
    let s₃ : Step m (cpu (a + 7) k esp) (cpu (a + 14) (base + k * 8) esp) =
      Step-to (Step.lea_table base (omega (arith, base_room)) (Spells-left lea jump m (a + 7) t₂))
        (omega (arith, room)) (omega (arith, base_room)) refl in
    Runs.then s₁ (Runs.then s₂ (Runs.then s₃ (Runs.then (Step.jmp_ecx t₃) Runs.done)))

-- In every later memory `m` that still has the 16 bytes that `sieve_init` emits for the table at
-- `base`, with the saved %ecx and a target on the stack, this code runs to the slot that the source
-- computes for the target, with %esp unchanged and the slot's address in %ecx. The table and the code
-- lie inside the address space.
pub emit_sieve_stub-Runs :
    (base : ℕ) (o : Out) (m : Memory) (ecx esp saved target : ℕ)
    → o.code_ptr + 16 ≤ 2 ^ 32
    → base + 2 ^ 19 ≤ 2 ^ 32
    → ((x : ℕ) → o.code_ptr ≤ x → x < o.code_ptr + 16 → m x ≡ (emit_sieve_stub base o).mem x)
    → Pushed m esp saved target
    → Runs m (cpu o.code_ptr ecx esp) (cpu (slot_of base target) (slot_of base target) esp)
emit_sieve_stub-Runs base o m ecx esp saved target room base_room same p =
    subst (λ (k : ℕ). Runs m (cpu o.code_ptr ecx esp) (cpu k k esp))
      (sym (slot_of-index base target base_room))
      (stub-Runs m o.code_ptr base ecx esp saved target
        (Spells-same (stub_bytes base) (emit_sieve_stub base o).mem m o.code_ptr same
          (emit_sieve_stub-Spells base o))
        room base_room p)

-- In a sieve with its stub at `a`, an indirect branch with the guest's %ecx and the target pushed
-- reaches the translated code of the newest entry for the target, with %ecx restored and the two
-- words dropped, and where the target has no entry the code that leaves the cache, with both words
-- still on the stack.
pub dispatch-Arrives :
    (s : SieveState) (exit a ecx esp saved target : ℕ) (view : ℕ → List (ℕ × ℕ))
    → IsSieve s exit view
    → Spells s.out.mem a (stub_bytes s.sieve_hashtable)
    → a + 16 ≤ 2 ^ 32
    → Pushed s.out.mem esp saved target
    → (c : Cpu) × Runs s.out.mem (cpu a ecx esp) c
      × Arrives (lookup target (view (target % 2 ^ 16))) exit esp saved c
dispatch-Arrives s exit a ecx esp saved target view is stub room p =
    let base = s.sieve_hashtable in
    let k = target % 2 ^ 16 in
    let h = is.slots k (omega arith) in
    let to_slot =
      stub-Runs s.out.mem a base ecx esp saved target stub room is.placed.table_room p in
    let (c, runs, arrives) =
      Chain-Arrives s.out.mem s.sieve_buffer s.out.code_ptr exit h.first esp saved target
        (base + k * 8) (view k) h.chain p in
    (c, Runs-trans to_slot (Runs.then (jump-Step (base + k * 8) esp h.jumps) runs), arrives)

-- One map for all slots: the newest entry of an address among all that were added.
abbrev pub view_of : List (ℕ × ℕ) → ℕ → List (ℕ × ℕ)
view_of [] = λ k. []
view_of ((pc, tc_ptr) ∷ older) = insert pc tc_ptr (view_of older)

other_target : (pc target : ℕ) → (target % 2 ^ 16 == pc % 2 ^ 16) ≡ false → (pc == target) ≡ false
other_target pc target h =
    let ne = ==_different (target % 2 ^ 16) (pc % 2 ^ 16) h in
    elim (Bool-cases (pc == target)) [
      | inl same ↦ absurd (ne (sym (ap (λ (k : ℕ). k % 2 ^ 16) ((==_iff pc target).0 same))))
      | inr apart ↦ apart
    ]

-- The chain of an address's slot finds what the sequence of all additions, newest first, has for
-- the address.
pub lookup-view_of :
    (target : ℕ) (additions : List (ℕ × ℕ))
    → lookup target (view_of additions (target % 2 ^ 16)) ≡ lookup target additions
unfolding lookup
lookup-view_of target [] = refl
lookup-view_of target ((pc, tc_ptr) ∷ older) =
    let rest = lookup-view_of target older in
    elim (Bool-cases (target % 2 ^ 16 == pc % 2 ^ 16)) [
      | inl same ↦
          let slots = (==_iff (target % 2 ^ 16) (pc % 2 ^ 16)).0 same in
          let rest' : lookup target (view_of older (pc % 2 ^ 16)) ≡ lookup target older =
            ap (λ (k : ℕ). lookup target (view_of older k)) (sym slots) ∙ rest in
          rw same (ap (λ (o : Option ℕ). if pc == target then some tc_ptr else o) rest')
      | inr differ ↦
          let apart : (pc == target) ≡ false = other_target pc target differ in
          rw (differ, apart) rest
    ]
