-- ===== src/Cache/Frame.antt =====
-- Slots in memories that differ elsewhere, and slots from the bytes that make them.
use unitrans.Cache.Slots.{Slot, Slots}
use unitrans.Common.{
  length, u32, sub32, ap, ◌∷◌, arith, ◌*◌, List, ◌∙◌, ◌≡◌, ◌+◌, [], ◌<◌, subst, ℕ, ◌++◌, ◌≤◌, ◌^◌,
}
use unitrans.Emit.Memory.{Memory, le32}
use unitrans.Emit.Stored.{Spells, Spells-same, Spells-left, Spells-right}
use unitrans.Sieve.Chain.{JumpsTo}

-- Two memories agree from `lo` up to `hi`.
abbrev pub Agree : Memory → Memory → ℕ → ℕ → Type 0
Agree m n lo hi = (x : ℕ) → lo ≤ x → x < hi → n x ≡ m x

pub Spells-Agree :
    (bytes : List ℕ) {m n : Memory} {lo hi : ℕ} (a : ℕ)
    → Agree m n lo hi
    → lo ≤ a
    → a + length bytes ≤ hi
    → Spells m a bytes
    → Spells n a bytes
Spells-Agree bytes {m} {n} a h le le' s =
    Spells-same bytes m n a
      (λ x x_le x_lt. h x (omega (arith, le, x_le)) (omega (arith, le', x_lt))) s

pub JumpsTo-Agree :
    {m n : Memory} {a to : ℕ} → Agree m n a (a + 5) → JumpsTo m a to → JumpsTo n a to
JumpsTo-Agree {a = a} h j = record {
  rel = j.rel;
  rel_word = j.rel_word;
  to_word = j.to_word;
  spelled = Spells-Agree ((0xe9 ∷ []) ++ le32 j.rel) a h (omega arith) (omega arith) j.spelled;
  target = j.target;
}

pub Slot-Agree :
    {m n : Memory} {a h pc tc_ptr : ℕ}
    → Agree m n a (a + 12)
    → Agree m n h (h + 10)
    → Slot m a h pc tc_ptr
    → Slot n a h pc tc_ptr
Slot-Agree {a = a} {h = h} {pc = pc} same same' s = record {
  dist = s.dist;
  dist_short = s.dist_short;
  lands = s.lands;
  room = s.room;
  pc_word = s.pc_word;
  loads = Spells-Agree (0x8b ∷ 0x4c ∷ 0x24 ∷ 4 ∷ []) a same (omega arith) (omega arith) s.loads;
  compares =
      Spells-Agree ((0x8d ∷ 0x89 ∷ []) ++ le32 (sub32 0 pc)) (a + 4) same (omega arith)
        (omega arith) s.compares;
  branches = Spells-Agree (0xe3 ∷ s.dist ∷ []) (a + 10) same (omega arith) (omega arith) s.branches;
  pops = Spells-Agree (0x59 ∷ []) h same' (omega arith) (omega arith) s.pops;
  drops =
      Spells-Agree (0x8d ∷ 0x64 ∷ 0x24 ∷ 4 ∷ []) (h + 1) same' (omega arith) (omega arith) s.drops;
  enters = JumpsTo-Agree (λ x le lt. same' x (omega (arith, le)) (omega (arith, lt))) s.enters;
}

pub Slots-Agree :
    {m n : Memory} {a h : ℕ} {pairs : List (ℕ × ℕ)}
    → Agree m n a (a + 12 * length pairs)
    → Agree m n h (h + 10 * length pairs)
    → Slots m a h pairs
    → Slots n a h pairs
Slots-Agree same same' Slots.none_left = Slots.none_left
Slots-Agree same same' (Slots.slot s rest) =
    Slots.slot
      (Slot-Agree (λ x le lt. same x le (omega (arith, lt)))
        (λ x le lt. same' x le (omega (arith, lt))) s)
      (Slots-Agree (λ x le lt. same x (omega (arith, le)) (omega (arith, lt)))
        (λ x le lt. same' x (omega (arith, le)) (omega (arith, lt))) rest)

pub Spells-moved :
    (m : Memory) (a b : ℕ) (bytes : List ℕ) → a ≡ b → Spells m a bytes → Spells m b bytes
Spells-moved m a b bytes p s = subst (λ (k : ℕ). Spells m k bytes) p s

-- The test for the address `pc` up to the distance, and the landing with a displacement.
abbrev pub test_bytes : ℕ → List ℕ
test_bytes pc = (0x8b ∷ 0x4c ∷ 0x24 ∷ 4 ∷ 0x8d ∷ 0x89 ∷ []) ++ le32 (sub32 0 pc) ++ (0xe3 ∷ [])

abbrev pub hit_bytes : ℕ → List ℕ
hit_bytes rel = (0x59 ∷ 0x8d ∷ 0x64 ∷ 0x24 ∷ 4 ∷ 0xe9 ∷ []) ++ le32 rel

pub spelled-Slot :
    (m : Memory) (a h pc rel dist : ℕ)
    → h ≡ a + 12 + dist
    → dist < 128
    → h + 10 ≤ 2 ^ 32
    → pc < 2 ^ 32
    → rel < 2 ^ 32
    → Spells m a (test_bytes pc)
    → m (a + 11) ≡ dist
    → Spells m h (hit_bytes rel)
    → Slot m a h pc (u32 (h + 10 + rel))
unfolding Spells
spelled-Slot m a h pc rel dist lands short room pc_lt rel_lt test byte hit =
    let mov : List ℕ = 0x8b ∷ 0x4c ∷ 0x24 ∷ 4 ∷ [] in
    let lea : List ℕ = (0x8d ∷ 0x89 ∷ []) ++ le32 (sub32 0 pc) in
    let pop : List ℕ = 0x59 ∷ [] in
    let drop : List ℕ = 0x8d ∷ 0x64 ∷ 0x24 ∷ 4 ∷ [] in
    let jump : List ℕ = (0xe9 ∷ []) ++ le32 rel in
    let t₁ : Spells m (a + 4) (lea ++ (0xe3 ∷ [])) =
      Spells-right mov (lea ++ (0xe3 ∷ [])) m a test in
    let t₂ : Spells m (a + 10) (0xe3 ∷ []) =
      Spells-moved m (a + 4 + 6) (a + 10) (0xe3 ∷ []) (omega arith)
        (Spells-right lea (0xe3 ∷ []) m (a + 4) t₁) in
    let u₁ : Spells m (h + 1) (drop ++ jump) = Spells-right pop (drop ++ jump) m h hit in
    let u₂ : Spells m (h + 5) jump =
      Spells-moved m (h + 1 + 4) (h + 5) jump (omega arith) (Spells-right drop jump m (h + 1) u₁) in
    record {
      dist = dist;
      dist_short = short;
      lands = lands;
      room = room;
      pc_word = pc_lt;
      loads = Spells-left mov (lea ++ (0xe3 ∷ [])) m a test;
      compares = Spells-left lea (0xe3 ∷ []) m (a + 4) t₁;
      branches = (t₂.0, (ap m (omega arith) ∙ byte, tt));
      pops = Spells-left pop (drop ++ jump) m h hit;
      drops = Spells-left drop jump m (h + 1) u₁;
      enters = record {
        rel = rel;
        rel_word = rel_lt;
        to_word = omega arith;
        spelled = u₂;
        target = omega (arith, room);
      };
    }
