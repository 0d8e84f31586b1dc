-- ===== src/Cache/Filling.antt =====
-- A slot that is filled: the two words that `patch_jmp_target` writes.
use unitrans.Cache.Frame.{Agree, Spells-Agree, Slot-Agree, Slots-Agree, Spells-moved}
use unitrans.Cache.Slots.{Slot, Slots}
use unitrans.Common.{
  length, sub32, ◌*◌, ◌≡◌, List, ◌≤◌, inl, arith, ◌++◌, ℕ, [], ◌⊎◌, ◌∷◌, ◌+◌, inr, suc, subst, ◌<◌,
  ◌∙◌, ◌^◌,
}
use unitrans.Emit.Memory.{Memory, store, le32}
use unitrans.Emit.Stored.{Spells, store-Spells, Spells-same, le32-bytes}
use unitrans.Sieve.Linking.{store-away}

-- The memory after both writes.
abbrev pub filled_at : Memory → ℕ → ℕ → ℕ → ℕ → Memory
filled_at m src dest pc tc_ptr =
    store (store m src (le32 (sub32 0 pc))) dest (le32 (sub32 (sub32 tc_ptr dest) 4))

abbrev Beside : ℕ → ℕ → Type 0
Beside x place = x < place ⊎ place + 4 ≤ x

pub filled_at-elsewhere :
    (m : Memory) (src dest pc tc_ptr x : ℕ)
    → Beside x src
    → Beside x dest
    → filled_at m src dest pc tc_ptr x ≡ m x
filled_at-elsewhere m src dest pc tc_ptr x away away' =
    store-away (le32 (sub32 (sub32 tc_ptr dest) 4)) (store m src (le32 (sub32 0 pc))) dest x away'
    ∙ store-away (le32 (sub32 0 pc)) m src x away

-- The words are there, for a source before the destination.
source-Spells :
    (m : Memory) (src dest pc tc_ptr : ℕ)
    → src + 4 ≤ dest
    → Spells (filled_at m src dest pc tc_ptr) src (le32 (sub32 0 pc))
source-Spells m src dest pc tc_ptr le =
    let m₁ = store m src (le32 (sub32 0 pc)) in
    Spells-same (le32 (sub32 0 pc)) m₁ (filled_at m src dest pc tc_ptr) src
      (λ x x_le x_lt.
        store-away (le32 (sub32 (sub32 tc_ptr dest) 4)) m₁ dest x (inl (omega (arith, x_lt, le))))
      (store-Spells (le32 (sub32 0 pc)) m src (le32-bytes (sub32 0 pc)))

dest-Spells :
    (m : Memory) (src dest pc tc_ptr : ℕ)
    → Spells (filled_at m src dest pc tc_ptr) dest (le32 (sub32 (sub32 tc_ptr dest) 4))
dest-Spells m src dest pc tc_ptr =
    store-Spells (le32 (sub32 (sub32 tc_ptr dest) 4)) (store m src (le32 (sub32 0 pc))) dest
      (le32-bytes (sub32 (sub32 tc_ptr dest) 4))

-- A slot takes the new pair.
filled-Slot :
    (m : Memory) (a h pc tc_ptr old old_tc : ℕ)
    → a + 12 ≤ h
    → pc < 2 ^ 32
    → tc_ptr < 2 ^ 32
    → Slot m a h old old_tc
    → Slot (filled_at m (a + 6) (h + 6) pc tc_ptr) a h pc tc_ptr
unfolding Spells
filled-Slot m a h pc tc_ptr old old_tc le pc_lt tc_lt s =
    let m' = filled_at m (a + 6) (h + 6) pc tc_ptr in
    let rel = sub32 (sub32 tc_ptr (h + 6)) 4 in
    let room = s.room in
    let head : Agree m m' a (a + 6) = λ x x_le x_lt.
      filled_at-elsewhere m (a + 6) (h + 6) pc tc_ptr x (inl x_lt)
        (inl (omega (arith, x_lt, le))) in
    let tail : Agree m m' (a + 10) (h + 6) = λ x x_le x_lt.
      filled_at-elsewhere m (a + 6) (h + 6) pc tc_ptr x (inr (omega (arith, x_le))) (inl x_lt) in
    let (opcode, (modrm, more)) = s.compares in
    let source =
      Spells-moved m' (a + 6) (a + 4 + 1 + 1) (le32 (sub32 0 pc)) (omega arith)
        (source-Spells m (a + 6) (h + 6) pc tc_ptr (omega (arith, le))) in
    let (jump, rest) = s.enters.spelled in
    let dest =
      Spells-moved m' (h + 6) (h + 5 + 1) (le32 rel) (omega arith)
        (dest-Spells m (a + 6) (h + 6) pc tc_ptr) in
    record {
      dist = s.dist;
      dist_short = s.dist_short;
      lands = s.lands;
      room = s.room;
      pc_word = pc_lt;
      loads = Spells-Agree (0x8b ∷ 0x4c ∷ 0x24 ∷ 4 ∷ []) a head (omega arith) (omega arith) s.loads;
      compares = (
        head (a + 4) (omega arith) (omega arith) ∙ opcode,
        (head (a + 4 + 1) (omega arith) (omega arith) ∙ modrm, source),
      );
      branches =
          Spells-Agree (0xe3 ∷ s.dist ∷ []) (a + 10) tail (omega arith) (omega (arith, le))
            s.branches;
      pops = Spells-Agree (0x59 ∷ []) h tail (omega (arith, le)) (omega arith) s.pops;
      drops =
          Spells-Agree (0x8d ∷ 0x64 ∷ 0x24 ∷ 4 ∷ []) (h + 1) tail (omega (arith, le)) (omega arith)
            s.drops;
      enters = record {
        rel = rel;
        rel_word = omega arith;
        to_word = tc_lt;
        spelled = (tail (h + 5) (omega (arith, le)) (omega arith) ∙ jump, dest);
        target = omega (arith, tc_lt, room);
      };
    }

-- The slot behind `filled` takes the new pair, and the others keep theirs.
pub fill-Slots :
    (filled rest : List (ℕ × ℕ)) (m : Memory) (a h pc tc_ptr : ℕ) (old : ℕ × ℕ)
    → a + 12 * (length filled + 1 + length rest) ≤ h
    → pc < 2 ^ 32
    → tc_ptr < 2 ^ 32
    → Slots m a h (filled ++ old ∷ rest)
    → Slots
        (filled_at m (a + 6 + 12 * length filled) (h + 6 + 10 * length filled) pc tc_ptr)
        a
        h
        (filled ++ (pc, tc_ptr) ∷ rest)
fill-Slots [] rest m a h pc tc_ptr (old, old_tc) le pc_lt tc_lt (Slots.slot s more) =
    let m' = filled_at m (a + 6) (h + 6) pc tc_ptr in
    let result : Slots m' a h ((pc, tc_ptr) ∷ rest) =
      Slots.slot (filled-Slot m a h pc tc_ptr old old_tc (omega (arith, le)) pc_lt tc_lt s) (
        Slots-Agree
          (λ x x_le x_lt.
            filled_at-elsewhere m (a + 6) (h + 6) pc tc_ptr x (inr (omega (arith, x_le)))
              (inl (omega (arith, x_lt, le))))
          (λ x x_le x_lt.
            filled_at-elsewhere m (a + 6) (h + 6) pc tc_ptr x (inr (omega (arith, x_le, le)))
              (inr (omega (arith, x_le))))
          more) in
    subst (λ (d : ℕ). Slots (filled_at m d (h + 6 + 0) pc tc_ptr) a h ((pc, tc_ptr) ∷ rest))
      (omega arith)
      (subst (λ (d : ℕ). Slots (filled_at m (a + 6) d pc tc_ptr) a h ((pc, tc_ptr) ∷ rest))
        (omega arith) result)
fill-Slots ((pc₀, tc₀) ∷ filled) rest m a h pc tc_ptr old le pc_lt tc_lt (Slots.slot s more) =
    let k = length filled in
    let src = a + 12 + 6 + 12 * k in
    let dest = h + 10 + 6 + 10 * k in
    let ih =
      fill-Slots filled rest m (a + 12) (h + 10) pc tc_ptr old (omega (arith, le)) pc_lt tc_lt
        more in
    let first =
      Slot-Agree
        (λ x x_le x_lt.
          filled_at-elsewhere m src dest pc tc_ptr x (inl (omega (arith, x_lt)))
            (inl (omega (arith, x_lt, le))))
        (λ x x_le x_lt.
          filled_at-elsewhere m src dest pc tc_ptr x (inr (omega (arith, x_le, le)))
            (inl (omega (arith, x_lt))))
        s in
    let result = Slots.slot first ih in
    let pairs = (pc₀, tc₀) ∷ filled ++ (pc, tc_ptr) ∷ rest in
    subst (λ (d : ℕ). Slots (filled_at m d (h + 6 + 10 * suc k) pc tc_ptr) a h pairs) (omega arith)
      (subst (λ (d : ℕ). Slots (filled_at m src d pc tc_ptr) a h pairs) (omega arith) result)
