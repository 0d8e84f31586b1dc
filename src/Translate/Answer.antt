-- ===== src/Translate/Answer.antt =====
-- A return through the return cache: `cemit_rc_cmp` of target-i386/translate.c at run time.
use unitrans.Cache.Code.{EnvLayout}
use unitrans.Cache.Frame.{Agree, Spells-Agree, JumpsTo-Agree}
use unitrans.Common.{◌==◌, sub32, ◌∷◌, [], arith, ◌++◌, ◌^◌, ◌≡◌, subst, ◌+◌, ◌<◌, ◌∙◌, ◌≤◌, ℕ}
use unitrans.Emit.Memory.{Memory, le32, load32, Out}
use unitrans.Emit.Stored.{Spells, load32-le32}
use unitrans.Sieve.Chain.{Pushed, cpu}
use unitrans.Sieve.Machine.{Cpu, Runs}
use unitrans.Translate.Calls.{cemit_rc_cmp}
use unitrans.Translate.Return.{ReturnTest, Returned, ReturnTest-Returned}
use unitrans.Translate.Returning.{front-Spells, cemit_rc_cmp-ReturnTest, place-Spells, answer-moved}

ReturnTest-Agree :
    {m n : Memory} {a pc onwards : ℕ}
    → Agree m n a (a + 22)
    → ReturnTest m a pc onwards
    → ReturnTest n a pc onwards
ReturnTest-Agree {a = a} {pc = pc} h t = record {
  room = t.room;
  pc_word = t.pc_word;
  loads = Spells-Agree (0x8b ∷ 0x4c ∷ 0x24 ∷ 4 ∷ []) a h (omega arith) (omega arith) t.loads;
  compares =
      Spells-Agree ((0x8d ∷ 0x89 ∷ []) ++ le32 (sub32 0 pc)) (a + 4) h (omega arith) (omega arith)
        t.compares;
  branches = Spells-Agree (0xe3 ∷ 0x05 ∷ []) (a + 10) h (omega arith) (omega arith) t.branches;
  leaves = JumpsTo-Agree (λ x le lt. h x (omega (arith, le)) (omega (arith, lt))) t.leaves;
  pops = Spells-Agree (0x59 ∷ []) (a + 17) h (omega arith) (omega arith) t.pops;
  drops = Spells-Agree (0x8d ∷ 0x64 ∷ 0x24 ∷ 4 ∷ []) (a + 18) h (omega arith) (omega arith) t.drops;
}

-- Let `cemit_rc_cmp` write the code behind a call whose return address is `pc`, the word at `place`
-- standing in front of that code. The word then is the address of the code. In every later memory
-- `m` that still has these 23 bytes, the code starts with push %ecx, and behind the push, with the
-- saved %ecx and the target of a return on the stack, it runs to an end as follows. A return to `pc`
-- goes on right behind the code, with the saved %ecx and both words dropped; any other one enters
-- the sieve's stub with both words still on the stack.
pub cemit_rc_cmp-Returned :
    (l : EnvLayout) (pc place : ℕ) (o : Out) (m : Memory) (ecx esp saved target : ℕ)
    → pc < 2 ^ 32
    → l.sieve_stub < 2 ^ 32
    → o.code_ptr + 24 ≤ 2 ^ 32
    → place + 4 ≤ o.code_ptr
    → Agree (cemit_rc_cmp l pc place o).mem m o.code_ptr (o.code_ptr + 23)
    → Pushed m esp saved target
    → (load32 (cemit_rc_cmp l pc place o).mem place ≡ o.code_ptr)
      × ((cemit_rc_cmp l pc place o).code_ptr ≡ o.code_ptr + 23)
      × (m o.code_ptr ≡ 0x51)
      × (c : Cpu) × Runs m (cpu (o.code_ptr + 1) ecx esp) c
      × Returned (pc == target) (o.code_ptr + 23) l.sieve_stub esp saved c
unfolding Spells cemit_rc_cmp
cemit_rc_cmp-Returned l pc place o m ecx esp saved target pc_lt stub_lt room le same pushed =
    let front = front-Spells l pc place o in
    let test =
      ReturnTest-Agree (λ x ge lt. same x (omega (arith, ge)) (omega (arith, lt)))
        (cemit_rc_cmp-ReturnTest l pc place o pc_lt stub_lt room) in
    let r : (c : Cpu) × Runs m (cpu (o.code_ptr + 1) ecx esp) c
        × Returned (pc == target) (o.code_ptr + 23) l.sieve_stub esp saved c =
      subst
        (λ (k : ℕ).
          (c : Cpu) × Runs m (cpu (o.code_ptr + 1) ecx esp) c
          × Returned (pc == target) k l.sieve_stub esp saved c)
        (omega arith) (ReturnTest-Returned ecx test pushed) in
    (
      load32-le32 (cemit_rc_cmp l pc place o).mem place o.code_ptr (place-Spells l pc place o le)
          (omega (arith, room)),
      answer-moved l pc place o,
      same o.code_ptr (omega arith) (omega arith) ∙ front.0,
      r.0,
      r.1,
      r.2,
    )
