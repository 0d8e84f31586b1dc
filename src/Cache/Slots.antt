-- ===== src/Cache/Slots.antt =====
-- The slots of an inline cache in memory, and where they take a branch.
use unitrans.Common.{
  ◌==◌, ==_iff, Bool-cases, ==_different, length, u32, sub32, ◌≢◌, List, ◌<◌, refl, ◌^◌, ◌*◌, inr,
  ◌+◌, ◌≤◌, ◌++◌, inl, subst, arith, sym, ℕ, ◌≡◌, [], ◌∷◌,
}
use unitrans.Emit.Memory.{Memory, le32}
use unitrans.Emit.Stored.{Spells}
use unitrans.Sieve.Chain.{JumpsTo, lookup, Pushed, Arrives, cpu, Step-to, jump-Step}
use unitrans.Sieve.Machine.{Cpu, Step, Runs, Runs-trans}

-- A slot for the address `pc`: the test at `a`, and at `h` what runs when it succeeds.
pub record Slot (m : Memory) (a h pc tc_ptr : ℕ) : Type 0 where
  pub dist : ℕ
  pub dist_short : dist < 128
  pub lands : h ≡ a + 12 + dist
  pub room : h + 10 ≤ 2 ^ 32
  pub pc_word : pc < 2 ^ 32
  pub loads : Spells m a (0x8b ∷ 0x4c ∷ 0x24 ∷ 4 ∷ [])
  pub compares : Spells m (a + 4) ((0x8d ∷ 0x89 ∷ []) ++ le32 (sub32 0 pc))
  pub branches : Spells m (a + 10) (0xe3 ∷ dist ∷ [])
  pub pops : Spells m h (0x59 ∷ [])
  pub drops : Spells m (h + 1) (0x8d ∷ 0x64 ∷ 0x24 ∷ 4 ∷ [])
  pub enters : JumpsTo m (h + 5) tc_ptr

-- The test computes a word that is zero exactly at the slot's address.
Slot-head :
    {m : Memory} {a h pc tc_ptr esp saved target : ℕ} (ecx : ℕ)
    → Slot m a h pc tc_ptr
    → Pushed m esp saved target
    → Runs m (cpu a ecx esp) (cpu (a + 10) (u32 (target + sub32 0 pc)) esp)
Slot-head {m} {a} {h} {pc} {esp = esp} {target = target} ecx n p =
    let room = n.room in
    let lands = n.lands in
    let s₁ : Step m (cpu a ecx esp) (cpu (a + 4) target esp) =
      Step-to (Step.mov_ecx 4 (omega arith) n.loads) (omega (arith, room, lands)) p.pushed_target
        refl in
    let s₂ : Step m (cpu (a + 4) target esp) (cpu (a + 10) (u32 (target + sub32 0 pc)) esp) =
      Step-to (Step.lea_ecx (sub32 0 pc) (omega arith) n.compares) (omega (arith, room, lands)) refl
        refl in
    Runs.then s₁ (Runs.then s₂ Runs.done)

pub Slot-hit :
    {m : Memory} {a h pc tc_ptr esp saved : ℕ} (ecx : ℕ)
    → Slot m a h pc tc_ptr
    → Pushed m esp saved pc
    → Runs m (cpu a ecx esp) (cpu tc_ptr saved (u32 (esp + 8)))
Slot-hit {m} {a} {h} {pc} {tc_ptr} {esp} {saved} ecx n p =
    let room = n.room in
    let lands = n.lands in
    let stack = p.stack_room in
    let lt = n.pc_word in
    let x = u32 (pc + sub32 0 pc) in
    let s₁ : Step m (cpu (a + 10) x esp) (cpu h x esp) =
      Step-to (Step.jecxz_taken n.dist n.dist_short n.branches (omega (arith, lt)))
        (omega (arith, room, lands)) refl refl in
    let s₂ : Step m (cpu h x esp) (cpu (h + 1) saved (esp + 4)) =
      Step-to (Step.pop_ecx n.pops) (omega (arith, room)) p.saved_ecx (omega (arith, stack)) in
    let s₃ : Step m (cpu (h + 1) saved (esp + 4)) (cpu (h + 5) saved (u32 (esp + 8))) =
      Step-to (Step.lea_esp 4 (omega arith) n.drops) (omega (arith, room)) refl (omega arith) in
    Runs-trans (Slot-head ecx n p) (
      Runs.then s₁ (
        Runs.then s₂
          (Runs.then s₃ (Runs.then (jump-Step saved (u32 (esp + 8)) n.enters) Runs.done))))

pub Slot-miss :
    {m : Memory} {a h pc tc_ptr esp saved target : ℕ} (ecx : ℕ)
    → Slot m a h pc tc_ptr
    → Pushed m esp saved target
    → pc ≢ target
    → Runs m (cpu a ecx esp) (cpu (a + 12) (u32 (target + sub32 0 pc)) esp)
Slot-miss {m} {a} {h} {pc} {esp = esp} {target = target} ecx n p ne =
    let room = n.room in
    let lands = n.lands in
    let lt = n.pc_word in
    let lt' = p.target_word in
    let x = u32 (target + sub32 0 pc) in
    let s₁ : Step m (cpu (a + 10) x esp) (cpu (a + 12) x esp) =
      Step-to (Step.jecxz_not n.dist n.branches (λ z. ne (omega (arith, z, lt, lt'))))
        (omega (arith, room, lands)) refl refl in
    Runs-trans (Slot-head ecx n p) (Runs.then s₁ Runs.done)

-- The slots from `a` on, their landings from `h` on, for the pairs in order.
pub data Slots (m : Memory) : ℕ → ℕ → List (ℕ × ℕ) → Type 0 where
  none_left : {a h : ℕ} → Slots m a h []
  slot :
      {a h pc tc_ptr : ℕ} {rest : List (ℕ × ℕ)}
      → Slot m a h pc tc_ptr
      → Slots m (a + 12) (h + 10) rest
      → Slots m a h ((pc, tc_ptr) ∷ rest)

-- From the first test the processor reaches the code of the first slot of the target, with the guest's
-- %ecx restored and the two pushed words dropped, and behind the last test where no slot has the
-- target, with both words still on the stack.
pub Slots-Arrives :
    (m : Memory) (a h esp saved target ecx : ℕ) (pairs : List (ℕ × ℕ))
    → Slots m a h pairs
    → Pushed m esp saved target
    → (c : Cpu) × Runs m (cpu a ecx esp) c
      × Arrives (lookup target pairs) (a + 12 * length pairs) esp saved c
unfolding lookup Arrives
Slots-Arrives m a h esp saved target ecx [] Slots.none_left p =
    (cpu a ecx esp, Runs.done, (omega arith, refl))
Slots-Arrives m a h esp saved target ecx ((pc, tc_ptr) ∷ rest) (Slots.slot s more) p =
    elim (Bool-cases (pc == target)) [
      | inl same ↦
          let pc_is = (==_iff pc target).0 same in
          (
            cpu tc_ptr saved (u32 (esp + 8)),
            Slot-hit ecx s (subst (Pushed m esp saved) (sym pc_is) p),
            rw same (refl, refl, refl),
          )
      | inr differ ↦
          let (c, runs, arrives) =
            Slots-Arrives m (a + 12) (h + 10) esp saved target (u32 (target + sub32 0 pc)) rest more
              p in
          (
            c,
            Runs-trans (Slot-miss ecx s p (==_different pc target differ)) runs,
            rw differ (
                subst (λ (k : ℕ). Arrives (lookup target rest) k esp saved c) (omega arith)
                  arrives),
          )
    ]
