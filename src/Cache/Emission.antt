-- ===== src/Cache/Emission.antt =====
-- What `cemit_ind_opt` writes: three slots, all for the placeholder.
use unitrans.Cache.Code.{
  need_patch_32, need_patch_8, emit_load, emit_test, emit_tests, emit_hit, patch_byte, emit_hits,
}
use unitrans.Cache.Frame.{Agree, Spells-Agree, Slot-Agree, test_bytes, hit_bytes, spelled-Slot}
use unitrans.Cache.Slots.{Slots}
use unitrans.Common.{
  ltb, ◌==◌, if◌then◌else◌, ==_iff, le→not_ltb, length, all, u8, u32, sub32, ◌*◌, ap, ◌≡◌, sym,
  zero, ◌≤◌, ◌⊎◌, ap₂, ◌∷◌, inr, subst, false, Option, ◌++◌, ◌+◌, ◌<◌, suc, ◌∙◌, true, arith, ◌-◌,
  List, ℕ, inl, some, refl, [], ◌^◌,
}
use unitrans.Common.Maybe.{◌>>=◌}
use unitrans.Emit.Memory.{Memory, store, Out, code_emit8, code_emit32}
use unitrans.Emit.Stored.{Spells, store-below, store-Spells, Spells-same, Spells-left, are_bytes}
use unitrans.Emit.Trace.{Emitted, nothing, then8, then32}

-- The slots before any is filled: each has the placeholder for an address, and for its code what lies
-- the placeholder behind its landing.
abbrev pub unfilled : ℕ → ℕ → List (ℕ × ℕ)
unfilled zero h = []
unfilled (suc n) h = (need_patch_32, u32 (h + 10 + need_patch_32)) ∷ unfilled n (h + 10)

-- The places in the tests from `a` on, and in the landings from `h` on.
abbrev pub places_from : ℕ → ℕ → List (ℕ × ℕ)
places_from zero a = []
places_from (suc n) a = (a + 6, a + 11) ∷ places_from n (a + 12)

abbrev pub dests_from : ℕ → ℕ → List ℕ
dests_from zero h = []
dests_from (suc n) h = (h + 6) ∷ dests_from n (h + 10)

pub unfilled-length : (n h : ℕ) → length (unfilled n h) ≡ n
unfilled-length zero h = refl
unfilled-length (suc n) h = ap suc (unfilled-length n (h + 10))

-- The tests in memory, but for the distances.
abbrev pub Tested : Memory → ℕ → ℕ → Type 0
Tested m a zero = Unit {0}
Tested m a (suc n) = Spells m a (test_bytes need_patch_32) × Tested m (a + 12) n

pub Tested-Agree :
    (n : ℕ) {m m' : Memory} (a : ℕ) → Agree m m' a (a + 12 * n) → Tested m a n → Tested m' a n
Tested-Agree zero a h t = tt
Tested-Agree (suc n) a h (s, t) = (
  Spells-Agree (test_bytes need_patch_32) a h (omega arith) (omega arith) s,
  Tested-Agree n (a + 12) (λ x le lt. h x (omega (arith, le)) (omega (arith, lt))) t,
)

abbrev whole_test : List ℕ
whole_test = test_bytes need_patch_32 ++ (need_patch_8 ∷ [])

load-Emitted : (o : Out) → Emitted o (emit_load o) (0x8b ∷ 0x4c ∷ 0x24 ∷ 4 ∷ 0x8d ∷ 0x89 ∷ [])
load-Emitted o =
    then8 0x89 (then8 0x8d (then8 4 (then8 0x24 (then8 0x4c (then8 0x8b (nothing o))))))

test-Emitted : (o : Out) → Emitted o (code_emit8 need_patch_8 (emit_test (emit_load o))) whole_test
test-Emitted o = then8 need_patch_8 (then8 0xe3 (then32 (sub32 0 need_patch_32) (load-Emitted o)))

load-moved : (o : Out) → (emit_load o).code_ptr ≡ o.code_ptr + 6
load-moved o = let e = load-Emitted o in e.moved

test-moved : (o : Out) → (emit_test (emit_load o)).code_ptr ≡ o.code_ptr + 11
test-moved o = let e = then8 0xe3 (then32 (sub32 0 need_patch_32) (load-Emitted o)) in e.moved

whole_test-bytes : are_bytes whole_test ≡ true
unfolding all
whole_test-bytes = refl

-- Bytes that were emitted are there, and the rest of memory is as it was.
pub Emitted-Spells :
    {o o' : Out} (bytes : List ℕ)
    → Emitted o o' bytes
    → are_bytes bytes ≡ true
    → Spells o'.mem o.code_ptr bytes
Emitted-Spells {o} bytes e h =
    subst (λ (m : Memory). Spells m o.code_ptr bytes) (sym e.stored)
      (store-Spells bytes o.mem o.code_ptr h)

pub Emitted-below :
    {o o' : Out} (bytes : List ℕ) (x : ℕ) → Emitted o o' bytes → x < o.code_ptr → o'.mem x ≡ o.mem x
Emitted-below {o} bytes x e lt =
    ap (λ (m : Memory). m x) e.stored ∙ store-below bytes o.mem o.code_ptr x lt

-- The first loop.
pub emit_tests-Tested :
    (n : ℕ) (o : Out)
    → let r = emit_tests n o in
      (r.1 ≡ places_from n o.code_ptr)
      × (r.0.code_ptr ≡ o.code_ptr + 12 * n)
      × Tested r.0.mem o.code_ptr n
      × Agree o.mem r.0.mem 0 o.code_ptr
unfolding emit_tests
emit_tests-Tested zero o = (refl, omega arith, tt, λ x le lt. refl)
emit_tests-Tested (suc n) o =
    let o₁ = code_emit8 need_patch_8 (emit_test (emit_load o)) in
    let e = test-Emitted o in
    let moved : o₁.code_ptr ≡ o.code_ptr + 12 = e.moved in
    let (places, stops, tested, same) = emit_tests-Tested n o₁ in
    let r = emit_tests n o₁ in
    (
      ap₂ (λ (x : ℕ × ℕ) (xs : List (ℕ × ℕ)). x ∷ xs)
          (ap₂ (λ (x y : ℕ). (x, y)) (load-moved o) (test-moved o))
          (places ∙ ap (places_from n) moved),
      omega (arith, stops, moved),
      (
        Spells-same (test_bytes need_patch_32) o₁.mem r.0.mem o.code_ptr
            (λ x le lt. same x (omega arith) (omega (arith, lt, moved)))
            (Spells-left (test_bytes need_patch_32) (need_patch_8 ∷ []) o₁.mem o.code_ptr
              (Emitted-Spells whole_test e whole_test-bytes)),
        subst (λ (a : ℕ). Tested r.0.mem a n) moved tested,
      ),
      λ x le lt. same x le (omega (arith, lt, moved)) ∙ Emitted-below whole_test x e lt,
    )

-- One round of the second loop.
abbrev round : ℕ → ℕ → Out → Out
round place val o = code_emit32 need_patch_32 (emit_hit (patch_byte place val o))

hit-Emitted : (o : Out) → Emitted o (emit_hit o) (0x59 ∷ 0x8d ∷ 0x64 ∷ 0x24 ∷ 4 ∷ 0xe9 ∷ [])
hit-Emitted o = then8 0xe9 (then8 4 (then8 0x24 (then8 0x64 (then8 0x8d (then8 0x59 (nothing o))))))

round-Emitted :
    (place val : ℕ) (o : Out)
    → Emitted (patch_byte place val o) (round place val o) (hit_bytes need_patch_32)
round-Emitted place val o = then32 need_patch_32 (hit-Emitted (patch_byte place val o))

hit_bytes-bytes : are_bytes (hit_bytes need_patch_32) ≡ true
unfolding all
hit_bytes-bytes = refl

pub one_byte :
    (m : Memory) (place val x : ℕ)
    → store m place (u8 val ∷ []) x ≡ (if x == place then u8 val else m x)
unfolding store
one_byte m place val x = ground arith

round-elsewhere :
    (place val : ℕ) (o : Out) (x : ℕ)
    → x < o.code_ptr
    → (x == place) ≡ false
    → (round place val o).mem x ≡ o.mem x
round-elsewhere place val o x lt ne =
    Emitted-below (hit_bytes need_patch_32) x (round-Emitted place val o) lt
    ∙ one_byte o.mem place val x
    ∙ rw ne refl

round-byte :
    (place val : ℕ) (o : Out) → place < o.code_ptr → val < 256 → (round place val o).mem place ≡ val
round-byte place val o lt small =
    Emitted-below (hit_bytes need_patch_32) place (round-Emitted place val o) lt
    ∙ one_byte o.mem place val place
    ∙ rw ((==_iff place place).1 refl) (omega (arith, small))

pub apart : (x y : ℕ) → x < y ⊎ y < x → (x == y) ≡ false
apart x y h = ground arith

-- The rest of the list behind a first landing.
abbrev joined : ℕ → Out × List ℕ → Option (Out × List ℕ)
joined k x = some (x.0, k ∷ x.1)

hits-join :
    (r : Option (Out × List ℕ)) (o' : Out) (dests : List ℕ) (k : ℕ)
    → r ≡ some (o', dests)
    → (r >>= joined k) ≡ some (o', k ∷ dests)
hits-join r o' dests k p = ap (λ (q : Option (Out × List ℕ)). q >>= joined k) p

-- The second loop: no distance is too long, and the slots are complete.
pub emit_hits-Slots :
    (n a : ℕ) (o : Out)
    → a + 12 * n ≤ o.code_ptr
    → o.code_ptr + 10 * n ≤ 2 ^ 32
    → o.code_ptr < a + 140
    → Tested o.mem a n
    → (o' : Out) × (emit_hits (places_from n a) o ≡ some (o', dests_from n o.code_ptr))
      × (o'.code_ptr ≡ o.code_ptr + 10 * n)
      × Slots o'.mem a o.code_ptr (unfilled n o.code_ptr)
      × Agree o.mem o'.mem 0 a
      × Agree o.mem o'.mem (a + 12 * n) o.code_ptr
unfolding emit_hits
emit_hits-Slots zero a o below room near tested =
    (o, refl, omega arith, Slots.none_left, λ x le lt. refl, λ x le lt. refl)
emit_hits-Slots (suc n) a o below room near (test, tested) =
    let d = sub32 (sub32 o.code_ptr (a + 11)) 1 in
    let dist : d ≡ o.code_ptr - (a + 12) = omega (arith, below, room, near) in
    let o₁ = round (a + 11) d o in
    let e = round-Emitted (a + 11) d o in
    let moved : o₁.code_ptr ≡ o.code_ptr + 10 = e.moved in
    let same : (x : ℕ) → x < o.code_ptr → x < a + 11 ⊎ a + 11 < x → o₁.mem x ≡ o.mem x =
      λ x lt away. round-elsewhere (a + 11) d o x lt (apart x (a + 11) away) in
    let (o', ran, stops, slots, front, back) =
      emit_hits-Slots n (a + 12) o₁ (omega (arith, below, moved)) (omega (arith, room, moved))
        (omega (arith, near, moved))
        (Tested-Agree n (a + 12)
          (λ x le lt. same x (omega (arith, lt, below)) (inr (omega (arith, le)))) tested) in
    let short : ltb 0xff d ≡ false = le→not_ltb 255 d (omega (arith, dist, near)) in
    let hit_moved : (emit_hit (patch_byte (a + 11) d o)).code_ptr ≡ o.code_ptr + 6 =
      (let h = hit-Emitted (patch_byte (a + 11) d o) in h.moved) in
    let first =
      spelled-Slot o₁.mem a o.code_ptr need_patch_32 need_patch_32 d (omega (arith, dist, below))
        (omega (arith, dist, near)) (omega (arith, room)) (omega arith) (omega arith)
        (Spells-same (test_bytes need_patch_32) o.mem o₁.mem a
          (λ x le lt. same x (omega (arith, lt, below)) (inl (omega (arith, lt)))) test)
        (round-byte (a + 11) d o (omega (arith, below)) (omega (arith, dist, near)))
        (Emitted-Spells (hit_bytes need_patch_32) e hit_bytes-bytes) in
    (
      o',
      rw short (
          hits-join (emit_hits (places_from n (a + 12)) o₁) o' (dests_from n o₁.code_ptr)
            (emit_hit (patch_byte (a + 11) d o)).code_ptr ran
          ∙ ap₂ (λ (x : ℕ) (xs : List ℕ). some (o', x ∷ xs)) hit_moved (ap (dests_from n) moved)),
      omega (arith, stops, moved),
      Slots.slot
          (Slot-Agree (λ x le lt. front x (omega arith) lt)
            (λ x le lt. back x (omega (arith, le, below)) (omega (arith, lt, moved))) first)
          (subst (λ (h : ℕ). Slots o'.mem (a + 12) h (unfilled n h)) moved slots),
      λ x le lt.
          front x le (omega (arith, lt))
          ∙ same x (omega (arith, lt, below)) (inl (omega (arith, lt))),
      λ x le lt.
          back x (omega (arith, le)) (omega (arith, lt, moved))
          ∙ same x lt (inr (omega (arith, le))),
    )
