-- ===== src/Link/Lands.antt =====
-- Where the 32-bit displacement at an address takes the processor.
use unitrans.Common.{u32, sub32, arith, ℕ, ◌<◌, ◌≤◌, inr, ◌+◌, ◌⊎◌, ◌≡◌, ◌∙◌, inl, ap, ◌^◌}
use unitrans.Emit.Memory.{Memory, store, le32, load32}
use unitrans.Emit.Stored.{store-below, store-above, store-Spells, load32-le32, le32-bytes}
use unitrans.Link.Patch.{point_at}

-- A displacement is relative to the end of the instruction, which it ends.
abbrev pub LandsAt : Memory → ℕ → ℕ → Type 0
LandsAt m place to = u32 (place + 4 + load32 m place) ≡ to

pub load32-store : (m : Memory) (a v : ℕ) → v < 2 ^ 32 → load32 (store m a (le32 v)) a ≡ v
load32-store m a v lt =
    load32-le32 (store m a (le32 v)) a v (store-Spells (le32 v) m a (le32-bytes v)) lt

pub point_at-LandsAt :
    (m : Memory) (place to : ℕ)
    → place + 4 ≤ 2 ^ 32
    → to < 2 ^ 32
    → LandsAt (point_at place to m) place to
point_at-LandsAt m place to room lt =
    let v = sub32 (sub32 to place) 4 in
    let read = load32-store m place v (omega arith) in
    ap (λ (k : ℕ). u32 (place + 4 + k)) read ∙ omega (arith, room, lt)

pub point_at-elsewhere :
    (m : Memory) (place to x : ℕ) → x < place ⊎ place + 4 ≤ x → point_at place to m x ≡ m x
point_at-elsewhere m place to x (inl lt) =
    store-below (le32 (sub32 (sub32 to place) 4)) m place x lt
point_at-elsewhere m place to x (inr le) =
    store-above (le32 (sub32 (sub32 to place) 4)) m place x le

-- Bytes away from the displacement leave it where it was.
pub LandsAt-same :
    (m n : Memory) (place to : ℕ)
    → ((x : ℕ) → place ≤ x → x < place + 4 → n x ≡ m x)
    → LandsAt m place to
    → LandsAt n place to
LandsAt-same m n place to same h =
    let p₀ = same place (omega arith) (omega arith) in
    let p₁ = same (place + 1) (omega arith) (omega arith) in
    let p₂ = same (place + 2) (omega arith) (omega arith) in
    let p₃ = same (place + 3) (omega arith) (omega arith) in omega (arith, h, p₀, p₁, p₂, p₃)
