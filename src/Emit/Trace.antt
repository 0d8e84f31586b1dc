-- ===== src/Emit/Trace.antt =====
-- A run of emissions as one store.
use unitrans.Common.{
  length, length-append, u8, ◌∙◌, ◌++◌, ◌∷◌, refl, ◌+◌, ℕ, ap, arith, List, ◌≡◌, [],
}
use unitrans.Emit.Memory.{Memory, store, le32, Out, emit, code_emit8, code_emit32}
use unitrans.Emit.Stored.{store-append}

-- From `o` to `o'` the bytes were written, one behind the other.
pub record Emitted (o o' : Out) (bytes : List ℕ) : Type 0 where
  pub stored : o'.mem ≡ store o.mem o.code_ptr bytes
  pub moved : o'.code_ptr ≡ o.code_ptr + length bytes

pub nothing : (o : Out) → Emitted o o []
unfolding store
nothing o = record { stored = refl; moved = omega arith }

emit-Emitted : (o o' : Out) (xs ys : List ℕ) → Emitted o o' xs → Emitted o (emit ys o') (xs ++ ys)
unfolding emit
emit-Emitted o o' xs ys e = record {
  stored =
      ap (λ (m : Memory). store m o'.code_ptr ys) e.stored
      ∙ ap (λ (k : ℕ). store (store o.mem o.code_ptr xs) k ys) e.moved
      ∙ store-append xs ys o.mem o.code_ptr;
  moved = omega (arith, e.moved, length-append xs ys);
}

pub then8 :
    {o o' : Out} {xs : List ℕ} (val : ℕ)
    → Emitted o o' xs
    → Emitted o (code_emit8 val o') (xs ++ u8 val ∷ [])
unfolding code_emit8
then8 {o} {o'} {xs} val e = emit-Emitted o o' xs (u8 val ∷ []) e

pub then32 :
    {o o' : Out} {xs : List ℕ} (val : ℕ)
    → Emitted o o' xs
    → Emitted o (code_emit32 val o') (xs ++ le32 val)
unfolding code_emit32
then32 {o} {o'} {xs} val e = emit-Emitted o o' xs (le32 val) e

pub Emitted-trans :
    {o o₁ o₂ : Out} (xs ys : List ℕ) → Emitted o o₁ xs → Emitted o₁ o₂ ys → Emitted o o₂ (xs ++ ys)
Emitted-trans {o} {o₁} {o₂} xs ys e f = record {
  stored =
      f.stored
      ∙ ap (λ (m : Memory). store m o₁.code_ptr ys) e.stored
      ∙ ap (λ (k : ℕ). store (store o.mem o.code_ptr xs) k ys) e.moved
      ∙ store-append xs ys o.mem o.code_ptr;
  moved = omega (arith, e.moved, f.moved, length-append xs ys);
}
