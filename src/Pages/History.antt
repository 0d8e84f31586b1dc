-- ===== src/Pages/History.antt =====
-- A history of `page_set_flags` from the empty table, against a flat map from addresses to flags.
use unitrans.Common.{
  ltb, leb, ◌==◌, if◌then◌else◌, Bool-cases, and_right, set, all_below, all_below_sound, has, ap,
  [], ◌+◌, false, Option, some, ◌<◌, Bool, not, ◌&&◌, inr, inl, ◌/◌, ◌||◌, ◌∷◌, refl, ◌^◌, arith,
  ◌≡◌, none, List, ◌∙◌, ℕ, ◌*◌, true,
}
use unitrans.Common.Maybe.{◌>>=◌}
use unitrans.Pages.Answers.{IsPlain, may, all_from, may_write, unprotected, answer_with, returned}
use unitrans.Pages.Checked.{page_check_range-Checked}
use unitrans.Pages.Find.{page_get_flags}
use unitrans.Pages.Flags.{granted, page_set_flags, page_check_range}
use unitrans.Pages.Ranges.{
  IsRangeSet, spans, meets, pages_of, meets-page, page_set_flags-IsRangeSet,
}
use unitrans.Pages.Single.{IsQuiet, page_get_flags_lem}
use unitrans.Pages.State.{page_write, page_write_org, PageMap, empty_map}

-- A call: the mappings of the user mode pass the three rights and `PAGE_VALID`.
pub record Request : Type 0 where
  pub start : ℕ
  pub end : ℕ
  pub flags : ℕ

pub record IsRequest (r : Request) : Type 0 where
  pub ordered : r.start < r.end
  pub in_word : r.end < 2 ^ 32
  pub plain : r.flags < 16

abbrev pub Requests : List Request → Type 0
Requests [] = Unit {0}
Requests (r ∷ rs) = IsRequest r × Requests rs

unfoldable pub set_all : ℕ → List Request → PageMap → Option PageMap
set_all fuel [] m = some m
set_all fuel (r ∷ rs) m = do m₁ ← page_set_flags fuel r.start r.end r.flags m; set_all fuel rs m₁

-- The flags that the last call for the page of an address left.
abbrev pub latest : List Request → ℕ → ℕ → ℕ
latest [] addr old = old
latest (r ∷ rs) addr old =
    latest rs addr (if meets r.start r.end addr then granted r.flags else old)

-- The second mark of a writable page is given to writable pages only.
is_marked : ℕ → Bool
is_marked f = not (has (granted f) page_write_org) || has (granted f) page_write

granted-is_marked : (f : ℕ) → f < 16 → is_marked f ≡ true
unfolding is_marked all_below
granted-is_marked f lt = all_below_sound 16 is_marked f refl lt

or-implies : (a b : Bool) → (not a || b) ≡ true → a ≡ true → b ≡ true
or-implies a b h p = ground arith

pub set-IsPlain :
    (a n f : ℕ) (m m' : PageMap) → f < 16 → IsRangeSet a n (granted f) m m' → IsPlain m → IsPlain m'
unfolding is_marked
set-IsPlain a n f m m' lt set p = record {
  plain = λ k k_lt h. elim (Bool-cases (leb a k && ltb k (a + n))) [
    | inl inside ↦
        let now = set.changed k k_lt ∙ rw inside refl in
        rw now (
          or-implies (has (granted f) page_write_org) (has (granted f) page_write)
            (granted-is_marked f lt) (rw now at h))
    | inr outside ↦
        let same = set.changed k k_lt ∙ rw outside refl in rw same (p.plain k k_lt (rw same at h))
  ];
}

set_all-latest :
    (fuel addr : ℕ) (rs : List Request) (m : PageMap)
    → 2 ^ 20 < fuel
    → addr < 2 ^ 32
    → Requests rs
    → IsQuiet m
    → IsPlain m
    → (m' : PageMap) × (set_all fuel rs m ≡ some m')
      × IsPlain m'
      × (page_get_flags addr m' ≡ latest rs addr (page_get_flags addr m))
unfolding set_all
set_all-latest fuel addr [] m enough a_lt well q p = (m, refl, p, refl)
set_all-latest fuel addr (r ∷ rs) m enough a_lt (well, wells) q p =
    let (m₁, sets, range) =
      page_set_flags-IsRangeSet fuel r.start r.end r.flags m enough well.ordered well.in_word q in
    let now : page_get_flags addr m₁
        ≡ (if meets r.start r.end addr then granted r.flags else page_get_flags addr m) =
      page_get_flags_lem m₁ addr
      ∙ range.changed (addr / 4096) (omega (arith, a_lt))
      ∙ rw (meets-page r.start r.end addr well.ordered, page_get_flags_lem m addr) refl in
    let (m', sets', plain, last) =
      set_all-latest fuel addr rs m₁ enough a_lt wells range.quiet
        (set-IsPlain (r.start / 4096) (pages_of r.start r.end) r.flags m m₁ well.plain range p) in
    (m', rw (sets, ◌>>=◌) sets', plain, last ∙ ap (latest rs addr) now)

pub empty_map-IsQuiet : IsQuiet empty_map
empty_map-IsQuiet i j = refl

pub empty_map-IsPlain : IsPlain empty_map
empty_map-IsPlain = record { plain = λ k lt h. cc }

marked-writable :
    (start : ℕ) (m : PageMap)
    → start < 2 ^ 32
    → IsPlain m
    → has (page_get_flags start m) page_write_org ≡ true
    → has (page_get_flags start m) page_write ≡ true
marked-writable start m s_lt plain h =
    let at = page_get_flags_lem m start in
    rw at (plain.plain (start / 4096) (omega (arith, s_lt)) (rw at at h))

-- Where no page is write-protected for its code, the answer does not depend on the unprotection.
plain-answer :
    (start len flags : ℕ) (m : PageMap)
    → start < 2 ^ 32
    → IsPlain m
    → (b : Bool) × ((guarded : Option Bool) → answer_with guarded start len flags m ≡ some b)
plain-answer start len flags m s_lt plain =
    let f = page_get_flags start m in
    let pages = pages_of start (start + len) in
    elim (Bool-cases (len == 0)) [
      | inl no_bytes ↦ (true, λ g. rw no_bytes refl)
      | inr filled ↦ elim (Bool-cases (ltb (2 ^ 32) (start + len))) [
        | inl over ↦ (false, λ g. rw (filled, over) refl)
        | inr inside ↦ elim (Bool-cases (spans start (start + len))) [
          | inl whole ↦ (true, λ g. rw (filled, inside, whole) refl)
          | inr part ↦ elim (Bool-cases (has flags page_write)) [
            | inr read ↦ (
              all_from (start / 4096) pages (λ k. may (page_get_flags (4096 * k) m) flags),
              λ g. rw (filled, inside, part, read) refl,
            )
            | inl write ↦ elim (Bool-cases (may_write f flags)) [
              | inr refusal ↦ (false, λ g. rw (filled, inside, part, write, refusal) refl)
              | inl allowed ↦
                  let writable : has f page_write ≡ true =
                    marked-writable start m s_lt plain (and_right (may f flags) allowed) in
                  (true, λ g. rw (filled, inside, part, write, allowed, writable) refl)
            ]
          ]
        ]
      ]
    ]

-- Any sequence of calls of `page_set_flags`, each for a range that is not empty and ends at an address,
-- and each with no flags but the three rights and `PAGE_VALID`, succeeds from the empty table. An
-- address then has the flags of the last call that set its page, 0 where there was none; a call whose
-- range meets the first page and the last of the address space sets none. A check of any range then
-- returns without an abort, changes nothing, and has the described answer, in which no unprotection
-- occurs. The fuel is more than the pages there are.
pub set_all-Flat :
    (fuel host addr start len flags : ℕ) (rs : List Request)
    → 2 ^ 20 < fuel
    → addr < 2 ^ 32
    → start < 2 ^ 32
    → len < 2 ^ 32
    → Requests rs
    → (m : PageMap) × (set_all fuel rs empty_map ≡ some m)
      × (page_get_flags addr m ≡ latest rs addr 0)
      × (b : Bool) × (answer_with none start len flags m ≡ some b)
      × (page_check_range fuel host start len flags m ≡ some (b, m))
set_all-Flat fuel host addr start len flags rs enough a_lt s_lt l_lt well =
    let (m, sets, plain, last) =
      set_all-latest fuel addr rs empty_map enough a_lt well empty_map-IsQuiet empty_map-IsPlain in
    let (b, is) = plain-answer start len flags m s_lt plain in
    (
      m,
      sets,
      last ∙ ap (latest rs addr) (page_get_flags_lem empty_map addr),
      b,
      is none,
      page_check_range-Checked fuel host start len flags m enough s_lt l_lt
          ∙ ap (returned m) (is (unprotected host (4096 * (start / 4096)))),
    )
