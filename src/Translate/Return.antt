-- ===== src/Translate/Return.antt =====
-- The code behind a call, which the return cache enters: what `cemit_rc_cmp` writes.
use unitrans.Common.{
  ◌==◌, ==_iff, Bool-cases, ==_different, u32, sub32, ◌∷◌, arith, refl, ◌≢◌, ◌+◌, Bool, true, ◌^◌,
  ◌<◌, inr, ℕ, ◌++◌, [], ◌≡◌, inl, false,
}
use unitrans.Emit.Memory.{Memory, le32}
use unitrans.Emit.Stored.{Spells}
use unitrans.Sieve.Chain.{JumpsTo, Pushed, cpu, Step-to, jump-Step}
use unitrans.Sieve.Machine.{Cpu, Step, Runs, Runs-trans}

-- The code at `a`, behind its push of %ecx, for a return to `pc`: another address goes to `onwards`.
pub record ReturnTest (m : Memory) (a pc onwards : ℕ) : Type 0 where
  pub room : a + 22 < 2 ^ 32
  pub pc_word : pc < 2 ^ 32
  pub loads : Spells m a (0x8b ∷ 0x4c ∷ 0x24 ∷ 4 ∷ [])
  pub compares : Spells m (a + 4) ((0x8d ∷ 0x89 ∷ []) ++ le32 (sub32 0 pc))
  pub branches : Spells m (a + 10) (0xe3 ∷ 0x05 ∷ [])
  pub leaves : JumpsTo m (a + 12) onwards
  pub pops : Spells m (a + 17) (0x59 ∷ [])
  pub drops : Spells m (a + 18) (0x8d ∷ 0x64 ∷ 0x24 ∷ 4 ∷ [])

-- Where a return to `target` gets: behind the test with the guest's %ecx and the two pushed words
-- dropped, or to `onwards` with both still on the stack.
abbrev pub Returned : Bool → ℕ → ℕ → ℕ → ℕ → Cpu → Type 0
Returned true behind onwards esp saved c =
    (c.eip ≡ behind) × (c.ecx ≡ saved) × (c.esp ≡ u32 (esp + 8))
Returned false behind onwards esp saved c = (c.eip ≡ onwards) × (c.esp ≡ esp)

module _ {m : Memory} {a pc onwards esp saved target : ℕ} (ecx : ℕ) (n : ReturnTest m a pc onwards)
    (p : Pushed m esp saved target) where
  head-Runs : Runs m (cpu a ecx esp) (cpu (a + 10) (u32 (target + sub32 0 pc)) esp)
  head-Runs =
      let room = n.room in
      let s₁ : Step m (cpu a ecx esp) (cpu (a + 4) target esp) =
        Step-to (Step.mov_ecx 4 (omega arith) n.loads) (omega (arith, room)) p.pushed_target refl in
      let s₂ : Step m (cpu (a + 4) target esp) (cpu (a + 10) (u32 (target + sub32 0 pc)) esp) =
        Step-to (Step.lea_ecx (sub32 0 pc) (omega arith) n.compares) (omega (arith, room)) refl
          refl in
      Runs.then s₁ (Runs.then s₂ Runs.done)

  equal-Runs : pc ≡ target → Runs m (cpu a ecx esp) (cpu (a + 22) saved (u32 (esp + 8)))
  equal-Runs same =
      let room = n.room in
      let stack = p.stack_room in
      let x = u32 (target + sub32 0 pc) in
      let s₁ : Step m (cpu (a + 10) x esp) (cpu (a + 17) x esp) =
        Step-to (Step.jecxz_taken 5 (omega arith) n.branches (omega (arith, same, n.pc_word)))
          (omega (arith, room)) refl refl in
      let s₂ : Step m (cpu (a + 17) x esp) (cpu (a + 18) saved (esp + 4)) =
        Step-to (Step.pop_ecx n.pops) (omega (arith, room)) p.saved_ecx (omega (arith, stack)) in
      let s₃ : Step m (cpu (a + 18) saved (esp + 4)) (cpu (a + 22) saved (u32 (esp + 8))) =
        Step-to (Step.lea_esp 4 (omega arith) n.drops) (omega (arith, room)) refl (omega arith) in
      Runs-trans head-Runs (Runs.then s₁ (Runs.then s₂ (Runs.then s₃ Runs.done)))

  other-Runs : pc ≢ target → Runs m (cpu a ecx esp) (cpu onwards (u32 (target + sub32 0 pc)) esp)
  other-Runs ne =
      let room = n.room in
      let x = u32 (target + sub32 0 pc) in
      let s₁ : Step m (cpu (a + 10) x esp) (cpu (a + 12) x esp) =
        Step-to (Step.jecxz_not 5 n.branches (λ z. ne (omega (arith, z, n.pc_word, p.target_word))))
          (omega (arith, room)) refl refl in
      Runs-trans head-Runs (Runs.then s₁ (Runs.then (jump-Step x esp n.leaves) Runs.done))

  pub ReturnTest-Returned :
      (c : Cpu) × Runs m (cpu a ecx esp) c × Returned (pc == target) (a + 22) onwards esp saved c
  ReturnTest-Returned = elim (Bool-cases (pc == target)) [
    | inl same ↦ (
      cpu (a + 22) saved (u32 (esp + 8)),
      equal-Runs ((==_iff pc target).0 same),
      rw same (refl, refl, refl),
    )
    | inr differ ↦ (
      cpu onwards (u32 (target + sub32 0 pc)) esp,
      other-Runs (==_different pc target differ),
      rw differ (refl, refl),
    )
  ]
