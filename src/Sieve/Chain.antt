-- ===== src/Sieve/Chain.antt =====
-- The chains of the sieve: what memory holds of a node, and where a chain takes a target address.
use unitrans.Common.{
  ◌==◌, if◌then◌else◌, ==_iff, Bool-cases, u32, sub32, arith, inr, none, ◌∷◌, List, refl, ◌≢◌, inl,
  ℕ, ◌^◌, false, ◌≡◌, ◌∙◌, some, Option, ◌+◌, [], ◌++◌, subst, ◌≤◌, sym, true, ◌<◌,
}
use unitrans.Emit.Memory.{Memory, le32, load32}
use unitrans.Emit.Stored.{Spells}
use unitrans.Sieve.Machine.{Cpu, Step, Runs, Runs-trans}

-- A jump at `a` that goes to `to`.
pub record JumpsTo (m : Memory) (a to : ℕ) : Type 0 where
  pub rel : ℕ
  pub rel_word : rel < 2 ^ 32
  pub to_word : to < 2 ^ 32
  pub spelled : Spells m a ((0xe9 ∷ []) ++ le32 rel)
  pub target : u32 (a + 5 + rel) ≡ to

-- A node at `a` for the address `pc`: it goes to `tc_ptr`, and for other addresses to `next`.
pub record Node (m : Memory) (a pc tc_ptr next : ℕ) : Type 0 where
  pub room : a + 27 ≤ 2 ^ 32
  pub pc_word : pc < 2 ^ 32
  pub loads : Spells m a (0x8b ∷ 0x4c ∷ 0x24 ∷ 4 ∷ [])
  pub compares : Spells m (a + 4) ((0x8d ∷ 0x89 ∷ []) ++ le32 (sub32 0 pc))
  pub branches : Spells m (a + 10) (0xe3 ∷ 0x05 ∷ [])
  pub onwards : JumpsTo m (a + 12) next
  pub pops : Spells m (a + 17) (0x59 ∷ [])
  pub drops : Spells m (a + 18) (0x8d ∷ 0x64 ∷ 0x24 ∷ 4 ∷ [])
  pub enters : JumpsTo m (a + 22) tc_ptr

-- The chain from `a` on: nodes for the pairs in order, all between `lo` and `hi`, and then `out`.
pub data Chain (m : Memory) (lo hi out : ℕ) : ℕ → List (ℕ × ℕ) → Type 0 where
  ends : Chain m lo hi out out []
  node :
      {a pc tc_ptr next : ℕ} {nodes : List (ℕ × ℕ)}
      → lo ≤ a
      → a + 27 ≤ hi
      → Node m a pc tc_ptr next
      → Chain m lo hi out next nodes
      → Chain m lo hi out a ((pc, tc_ptr) ∷ nodes)

-- The abstract view of a chain: the first entry of the address, if there is one.
unfoldable pub lookup : ℕ → List (ℕ × ℕ) → Option ℕ
lookup pc [] = none
lookup pc ((a, tc_ptr) ∷ nodes) = if a == pc then some tc_ptr else lookup pc nodes

-- What an indirect branch to `target` finds on the stack: the saved %ecx and the target.
pub record Pushed (m : Memory) (esp saved target : ℕ) : Type 0 where
  pub stack_room : esp + 8 ≤ 2 ^ 32
  pub target_word : target < 2 ^ 32
  pub saved_ecx : load32 m esp ≡ saved
  pub pushed_target : load32 m (esp + 4) ≡ target

-- In the translated code %ecx is the guest's and the two words are off the stack; out of the
-- cache both words are still there.
unfoldable pub Arrives : Option ℕ → ℕ → ℕ → ℕ → Cpu → Type 0
Arrives (some tc_ptr) out esp saved c = (c.eip ≡ tc_ptr) × (c.ecx ≡ saved) × (c.esp ≡ u32 (esp + 8))
Arrives none out esp saved c = (c.eip ≡ out) × (c.esp ≡ esp)

abbrev pub cpu : ℕ → ℕ → ℕ → Cpu
cpu eip ecx esp = record { eip = eip; ecx = ecx; esp = esp }

pub Step-to :
    {m : Memory} {c : Cpu} {e e' x x' s s' : ℕ}
    → Step m c (cpu e x s)
    → e ≡ e'
    → x ≡ x'
    → s ≡ s'
    → Step m c (cpu e' x' s')
Step-to {m} {c} {e} {e'} {x} {x'} {s} {s'} step p q r =
    subst (λ (k : ℕ). Step m c (cpu e' x' k)) r
      (subst (λ (k : ℕ). Step m c (cpu e' k s)) q (subst (λ (k : ℕ). Step m c (cpu k x s)) p step))

pub jump-Step :
    {m : Memory} {a to : ℕ} (ecx esp : ℕ) → JumpsTo m a to → Step m (cpu a ecx esp) (cpu to ecx esp)
jump-Step ecx esp j = Step-to (Step.jmp j.rel j.rel_word j.spelled) j.target refl refl

-- The first two instructions of a node, up to the branch.
Node-head :
    {m : Memory} {a pc tc_ptr next esp saved target : ℕ} (ecx : ℕ)
    → Node m a pc tc_ptr next
    → Pushed m esp saved target
    → Runs m (cpu a ecx esp) (cpu (a + 10) (u32 (target + sub32 0 pc)) esp)
Node-head {m} {a} {pc} {esp} {target} ecx n p =
    let room = n.room in
    let s₁ : Step m (cpu a ecx esp) (cpu (a + 4) target esp) =
      Step-to (Step.mov_ecx 4 (omega arith) n.loads) (omega (arith, room)) p.pushed_target refl in
    let s₂ : Step m (cpu (a + 4) target esp) (cpu (a + 10) (u32 (target + sub32 0 pc)) esp) =
      Step-to (Step.lea_ecx (sub32 0 pc) (omega arith) n.compares) (omega (arith, room)) refl
        refl in
    Runs.then s₁ (Runs.then s₂ Runs.done)

Node-hit :
    {m : Memory} {a pc tc_ptr next esp saved : ℕ} (ecx : ℕ)
    → Node m a pc tc_ptr next
    → Pushed m esp saved pc
    → Runs m (cpu a ecx esp) (cpu tc_ptr saved (u32 (esp + 8)))
Node-hit {m} {a} {pc} {tc_ptr} {esp} {saved} ecx n p =
    let room = n.room in
    let stack = p.stack_room in
    let lt = n.pc_word in
    let x = u32 (pc + sub32 0 pc) in
    let s₁ : Step m (cpu (a + 10) x esp) (cpu (a + 17) x esp) =
      Step-to (Step.jecxz_taken 5 (omega arith) n.branches (omega (arith, lt)))
        (omega (arith, room)) refl refl in
    let s₂ : Step m (cpu (a + 17) x esp) (cpu (a + 18) saved (esp + 4)) =
      Step-to (Step.pop_ecx n.pops) (omega (arith, room)) p.saved_ecx (omega (arith, stack)) in
    let s₃ : Step m (cpu (a + 18) saved (esp + 4)) (cpu (a + 22) saved (u32 (esp + 8))) =
      Step-to (Step.lea_esp 4 (omega arith) n.drops) (omega (arith, room)) refl (omega arith) in
    Runs-trans (Node-head ecx n p) (
      Runs.then s₁ (
        Runs.then s₂
          (Runs.then s₃ (Runs.then (jump-Step saved (u32 (esp + 8)) n.enters) Runs.done))))

Node-miss :
    {m : Memory} {a pc tc_ptr next esp saved target : ℕ} (ecx : ℕ)
    → Node m a pc tc_ptr next
    → Pushed m esp saved target
    → pc ≢ target
    → Runs m (cpu a ecx esp) (cpu next (u32 (target + sub32 0 pc)) esp)
Node-miss {m} {a} {pc} {esp} {target} ecx n p ne =
    let room = n.room in
    let lt = n.pc_word in
    let lt' = p.target_word in
    let x = u32 (target + sub32 0 pc) in
    let s₁ : Step m (cpu (a + 10) x esp) (cpu (a + 12) x esp) =
      Step-to (Step.jecxz_not 5 n.branches (λ z. ne (omega (arith, z, lt, lt'))))
        (omega (arith, room)) refl refl in
    Runs-trans (Node-head ecx n p) (Runs.then s₁ (Runs.then (jump-Step x esp n.onwards) Runs.done))

false-true : false ≢ true
false-true p = cc

-- From the start of a chain the processor reaches the code that the first entry of the target
-- address names, with the guest's %ecx restored and the stack as it was before the pushes; where
-- there is no such entry it reaches the end of the chain with the stack untouched.
pub Chain-Arrives :
    (m : Memory) (lo hi out a esp saved target ecx : ℕ) (nodes : List (ℕ × ℕ))
    → Chain m lo hi out a nodes
    → Pushed m esp saved target
    → (c : Cpu) × Runs m (cpu a ecx esp) c × Arrives (lookup target nodes) out esp saved c
unfolding lookup Arrives
Chain-Arrives m lo hi out a esp saved target ecx [] Chain.ends p =
    (cpu a ecx esp, Runs.done, (refl, refl))
Chain-Arrives m lo hi out a esp saved target ecx ((pc, tc_ptr) ∷ older)
      (Chain.node {next = onwards} le le' n chain) p =
    elim (Bool-cases (pc == target)) [
      | inl same ↦
          let pc_is = (==_iff pc target).0 same in
          (
            cpu tc_ptr saved (u32 (esp + 8)),
            Node-hit ecx n (subst (Pushed m esp saved) (sym pc_is) p),
            rw same (refl, refl, refl),
          )
      | inr differ ↦
          let (c, runs, arrives) =
            Chain-Arrives m lo hi out onwards esp saved target (u32 (target + sub32 0 pc)) older
              chain p in
          (
            c,
            Runs-trans (Node-miss ecx n p (λ q. false-true (sym differ ∙ (==_iff pc target).1 q)))
                runs,
            rw differ arrives,
          )
    ]
