-- ===== src/Emit/Stored.antt =====
-- What memory holds after a store: the bytes that were written, and the old ones elsewhere.
use unitrans.Blocks.State.{update}
use unitrans.Common.{
  ltb, ◌==◌, ==_iff, Bool-cases, and_right, ==_different, length, get_or, all, u8, ◌∙◌, ℕ, ◌+◌,
  arith, suc, ◌≡◌, ◌≤◌, sym, inl, inr, ◌<◌, true, refl, [], ◌++◌, List, Bool, zero, ◌^◌, subst, ◌∷◌,
  ap,
}
use unitrans.Emit.Memory.{Memory, store, le32, load32}

-- The bytes from `a` on.
unfoldable pub Spells : Memory → ℕ → List ℕ → Type 0
Spells m a [] = Unit {0}
Spells m a (b ∷ bytes) = (m a ≡ b) × Spells m (a + 1) bytes

pub store-below : (bytes : List ℕ) (m : Memory) (a x : ℕ) → x < a → store m a bytes x ≡ m x
unfolding store
store-below [] m a x lt = refl
store-below (b ∷ bytes) m a x lt =
    let later = store-below bytes (update m a (u8 b)) (a + 1) x (omega (arith, lt)) in
    ground (arith, later)

pub store-above :
    (bytes : List ℕ) (m : Memory) (a x : ℕ) → a + length bytes ≤ x → store m a bytes x ≡ m x
unfolding store
store-above [] m a x le = refl
store-above (b ∷ bytes) m a x le =
    let later = store-above bytes (update m a (u8 b)) (a + 1) x (omega (arith, le)) in
    ground (arith, later)

pub store-Spells :
    (bytes : List ℕ) (m : Memory) (a : ℕ)
    → all (λ (b : ℕ). ltb b 256) bytes ≡ true
    → Spells (store m a bytes) a bytes
unfolding store Spells all
store-Spells [] m a h = tt
store-Spells (b ∷ bytes) m a h =
    let first = store-below bytes (update m a (u8 b)) (a + 1) a (omega arith) in
    (
      ground (arith, first),
      store-Spells bytes (update m a (u8 b)) (a + 1) (and_right (ltb b 256) h),
    )

-- Bytes that two memories share spell the same.
pub Spells-same :
    (bytes : List ℕ) (m n : Memory) (a : ℕ)
    → ((x : ℕ) → a ≤ x → x < a + length bytes → n x ≡ m x)
    → Spells m a bytes
    → Spells n a bytes
unfolding Spells
Spells-same [] m n a h s = tt
Spells-same (b ∷ bytes) m n a h (p, s) = (
  h a (omega arith) (omega arith) ∙ p,
  Spells-same bytes m n (a + 1) (λ x le lt. h x (omega (arith, le)) (omega (arith, lt))) s,
)

pub Spells-left : (xs ys : List ℕ) (m : Memory) (a : ℕ) → Spells m a (xs ++ ys) → Spells m a xs
unfolding Spells
Spells-left [] ys m a s = tt
Spells-left (x ∷ xs) ys m a (p, s) = (p, Spells-left xs ys m (a + 1) s)

pub Spells-right :
    (xs ys : List ℕ) (m : Memory) (a : ℕ) → Spells m a (xs ++ ys) → Spells m (a + length xs) ys
unfolding Spells
Spells-right [] ys m a s = subst (λ (k : ℕ). Spells m k ys) (omega arith) s
Spells-right (x ∷ xs) ys m a (p, s) =
    subst (λ (k : ℕ). Spells m k ys) (omega arith) (Spells-right xs ys m (a + 1) s)

pub Spells-at :
    (bytes : List ℕ) (m : Memory) (a i : ℕ)
    → Spells m a bytes
    → i < length bytes
    → m (a + i) ≡ get_or bytes i 0
unfolding Spells
Spells-at [] m a i s lt = absurd (omega (arith, lt))
Spells-at (b ∷ bytes) m a zero (p, s) lt = ap m (omega arith) ∙ p
Spells-at (b ∷ bytes) m a (suc i) (p, s) lt =
    ap m (omega arith) ∙ Spells-at bytes m (a + 1) i s (omega (arith, lt))

the_sum : (a : ℕ) → a ≡ a + 0
the_sum a = omega arith

-- A word that is spelled is the word that a load reads.
pub load32-le32 : (m : Memory) (a v : ℕ) → Spells m a (le32 v) → v < 2 ^ 32 → load32 m a ≡ v
load32-le32 m a v s lt =
    let p = ap m (the_sum a) ∙ Spells-at (le32 v) m a 0 s (omega arith) in
    let q = Spells-at (le32 v) m a 1 s (omega arith) in
    let r = Spells-at (le32 v) m a 2 s (omega arith) in
    let t = Spells-at (le32 v) m a 3 s (omega arith) in omega (arith, p, q, r, t, lt)

-- Consecutive stores are one.
pub store-append :
    (xs ys : List ℕ) (m : Memory) (a : ℕ)
    → store (store m a xs) (a + length xs) ys ≡ store m a (xs ++ ys)
unfolding store
store-append [] ys m a = ap (λ (k : ℕ). store m k ys) (omega arith)
store-append (x ∷ xs) ys m a =
    ap (λ (k : ℕ). store (store (update m a (u8 x)) (a + 1) xs) k ys) (omega arith)
    ∙ store-append xs ys (update m a (u8 x)) (a + 1)

-- Lists of bytes, put together of lists of bytes.
abbrev pub are_bytes : List ℕ → Bool
are_bytes bytes = all (λ (b : ℕ). ltb b 256) bytes

pub le32-bytes : (v : ℕ) → are_bytes (le32 v) ≡ true
unfolding all
le32-bytes v = ground arith

pub all-append :
    (xs ys : List ℕ) → are_bytes xs ≡ true → are_bytes ys ≡ true → are_bytes (xs ++ ys) ≡ true
unfolding all
all-append [] ys h h' = h'
all-append (x ∷ xs) ys h h' =
    let rest = all-append xs ys (and_right (ltb x 256) h) h' in ground (arith, rest)

-- Two memories that spell the same bytes agree on them.
pub Spells-agree :
    (bytes : List ℕ) (m n : Memory) (a : ℕ)
    → Spells m a bytes
    → Spells n a bytes
    → (x : ℕ) → a ≤ x
    → x < a + length bytes
    → n x ≡ m x
unfolding Spells
Spells-agree [] m n a s s' x le lt = absurd (omega (arith, le, lt))
Spells-agree (b ∷ bytes) m n a (p, s) (p', s') x le lt = elim (Bool-cases (x == a)) [
  | inl first ↦ let at : x ≡ a = (==_iff x a).0 first in ap n at ∙ p' ∙ sym p ∙ ap m (sym at)
  | inr later ↦
      let ne = ==_different x a later in
      Spells-agree bytes m n (a + 1) s s' x (omega (arith, le, ne)) (omega (arith, lt))
]
