-- ===== src/Blocks/Ring.antt =====
-- The jumps into a block: the ring keeps the last sixteen.
use unitrans.Blocks.Make.{note_jmp_from}
use unitrans.Blocks.State.{tb_from_max, Block}
use unitrans.Common.{
  length, get_elem?, set, length-set, u8, ◌≡◌, zero, sym, Option, ◌∷◌, ◌≢◌, ◌<◌, [], none, suc,
  some, refl, ◌≤◌, ◌%◌, ℕ, ◌∙◌, ◌+◌, List, ap, subst, arith,
}

-- The jumps, the oldest first: the block that jumps and the number of its stub.
unfoldable pub note_all : List (ℕ × ℕ) → Block → Block
note_all [] b = b
note_all ((tb, n) ∷ jumps) b = note_all jumps (note_jmp_from tb n b)

pub record IsRing (b : Block) : Type 0 where
  pub from_length : length b.jmp_from ≡ tb_from_max
  pub num_length : length b.jmp_from_num ≡ tb_from_max
  pub in_range : b.jmp_from_index < tb_from_max

note_jmp_from-index :
    (tb n : ℕ) (b : Block)
    → IsRing b
    → (note_jmp_from tb n b).jmp_from_index ≡ (b.jmp_from_index + 1) % tb_from_max
unfolding note_jmp_from
note_jmp_from-index tb n b r = let lt = r.in_range in ground arith

pub note_jmp_from-IsRing : (tb n : ℕ) (b : Block) → IsRing b → IsRing (note_jmp_from tb n b)
unfolding note_jmp_from
note_jmp_from-IsRing tb n b r = record {
  from_length = length-set b.jmp_from b.jmp_from_index (some tb) ∙ r.from_length;
  num_length = length-set b.jmp_from_num b.jmp_from_index (u8 n) ∙ r.num_length;
  in_range = let lt = r.in_range in ground arith;
}

get-set {ℓ} :
    {A : Type ℓ} (xs : List A) (i : ℕ) (v : A) → i < length xs → get_elem? (set xs i v) i ≡ some v
get-set [] i v lt = absurd (omega arith)
get-set (x ∷ xs) zero v lt = refl
get-set (x ∷ xs) (suc i) v lt = get-set xs i v (omega arith)

get-set_other {ℓ} :
    {A : Type ℓ} (xs : List A) (i j : ℕ) (v : A) → i ≢ j → get_elem? (set xs i v) j ≡ get_elem? xs j
get-set_other [] i j v ne = refl
get-set_other (x ∷ xs) zero zero v ne = absurd (ne refl)
get-set_other (x ∷ xs) zero (suc j) v ne = refl
get-set_other (x ∷ xs) (suc i) zero v ne = refl
get-set_other (x ∷ xs) (suc i) (suc j) v ne = get-set_other xs i j v (λ p. ne (ap suc p))

-- What the ring holds of one jump.
abbrev pub Recorded : Block → ℕ → ℕ × ℕ → Type 0
Recorded b k (tb, n) =
    (get_elem? b.jmp_from k ≡ some (some tb)) × (get_elem? b.jmp_from_num k ≡ some (u8 n))

pub note_jmp_from-Recorded :
    (tb n : ℕ) (b : Block) → IsRing b → Recorded (note_jmp_from tb n b) b.jmp_from_index (tb, n)
unfolding note_jmp_from
note_jmp_from-Recorded tb n b r =
    let lt = r.in_range in
    let l₁ = r.from_length in
    let l₂ = r.num_length in
    (
      get-set b.jmp_from b.jmp_from_index (some tb) (omega (arith, lt, l₁)),
      get-set b.jmp_from_num b.jmp_from_index (u8 n) (omega (arith, lt, l₂)),
    )

note_jmp_from-other :
    (tb n k : ℕ) (b : Block) (j : ℕ × ℕ)
    → b.jmp_from_index ≢ k
    → Recorded b k j
    → Recorded (note_jmp_from tb n b) k j
unfolding note_jmp_from
note_jmp_from-other tb n k b (tb', n') ne (p, q) = (
  get-set_other b.jmp_from b.jmp_from_index k (some tb) ne ∙ p,
  get-set_other b.jmp_from_num b.jmp_from_index k (u8 n) ne ∙ q,
)

or_else : Option (ℕ × ℕ) → ℕ × ℕ → ℕ × ℕ
or_else none d = d
or_else (some x) d = x

pair-injective : {a b : ℕ × ℕ} → some a ≡ some b → a ≡ b
unfolding or_else
pair-injective {a} p = ap (λ (o : Option (ℕ × ℕ)). or_else o a) p

note_all-untouched :
    (jumps : List (ℕ × ℕ)) (b : Block) (k : ℕ) (j : ℕ × ℕ)
    → IsRing b
    → Recorded b k j
    → ((m : ℕ) → m < length jumps → (b.jmp_from_index + m) % tb_from_max ≢ k)
    → Recorded (note_all jumps b) k j
unfolding note_all
note_all-untouched [] b k j r h ne = h
note_all-untouched ((tb, n) ∷ jumps) b k j r h ne =
    let here_not : b.jmp_from_index ≢ k =
      λ p. ne 0 (omega arith) (let lt = r.in_range in omega (arith, p, lt)) in
    let moved = note_jmp_from-index tb n b r in
    note_all-untouched jumps (note_jmp_from tb n b) k j (note_jmp_from-IsRing tb n b r)
      (note_jmp_from-other tb n k b j here_not h)
      (λ m lt p. ne (m + 1) (omega (arith, lt)) (omega (arith, p, moved)))

-- However many jumps into a block are noted from an index in range, the ring keeps its size and
-- its index in range.
note_all-IsRing : (jumps : List (ℕ × ℕ)) (b : Block) → IsRing b → IsRing (note_all jumps b)
unfolding note_all
note_all-IsRing [] b r = r
note_all-IsRing ((tb, n) ∷ jumps) b r =
    note_all-IsRing jumps (note_jmp_from tb n b) (note_jmp_from-IsRing tb n b r)

note_all-at :
    (jumps : List (ℕ × ℕ)) (b : Block) (i : ℕ) (j : ℕ × ℕ)
    → IsRing b
    → get_elem? jumps i ≡ some j
    → length jumps ≤ i + tb_from_max
    → Recorded (note_all jumps b) ((b.jmp_from_index + i) % tb_from_max) j
unfolding note_all
note_all-at [] b i j r p le = cc
note_all-at ((tb, n) ∷ jumps) b zero j r p le =
    let lt = r.in_range in
    let moved = note_jmp_from-index tb n b r in
    let r' = note_jmp_from-IsRing tb n b r in
    let k_is : (b.jmp_from_index + 0) % tb_from_max ≡ b.jmp_from_index = omega (arith, lt) in
    let j_is : (tb, n) ≡ j = pair-injective p in
    let noted =
      note_all-untouched jumps (note_jmp_from tb n b) b.jmp_from_index (tb, n) r'
        (note_jmp_from-Recorded tb n b r) (λ m m_lt q. omega (arith, m_lt, q, moved, lt, le)) in
    subst (Recorded (note_all jumps (note_jmp_from tb n b)) ((b.jmp_from_index + 0) % tb_from_max))
      j_is
      (subst (λ (k : ℕ). Recorded (note_all jumps (note_jmp_from tb n b)) k (tb, n)) (sym k_is)
        noted)
note_all-at ((tb, n) ∷ jumps) b (suc i) j r p le =
    let moved = note_jmp_from-index tb n b r in
    let k_is : ((note_jmp_from tb n b).jmp_from_index + i) % tb_from_max
        ≡ (b.jmp_from_index + suc i) % tb_from_max =
      omega (arith, moved) in
    subst (λ (k : ℕ). Recorded (note_all jumps (note_jmp_from tb n b)) k j) k_is
      (note_all-at jumps (note_jmp_from tb n b) i j (note_jmp_from-IsRing tb n b r) p
        (omega (arith, le)))

-- However many jumps into a block are noted from an index in range, the ring keeps its size and
-- the index stays in range, and each of the last sixteen jumps stands in the ring with its block
-- and the number of its stub, at the first index plus its place in the sequence, modulo sixteen.
pub note_all-Recorded :
    (jumps : List (ℕ × ℕ)) (b : Block) (i : ℕ) (j : ℕ × ℕ)
    → IsRing b
    → get_elem? jumps i ≡ some j
    → length jumps ≤ i + tb_from_max
    → IsRing (note_all jumps b)
      × Recorded (note_all jumps b) ((b.jmp_from_index + i) % tb_from_max) j
note_all-Recorded jumps b i j r p le = (note_all-IsRing jumps b r, note_all-at jumps b i j r p le)
