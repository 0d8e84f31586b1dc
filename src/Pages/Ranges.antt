-- ===== src/Pages/Ranges.antt =====
-- `page_set_flags` on a whole range: the pages that it meets get the flags, the others keep theirs.
use unitrans.Blocks.Tests.{one}
use unitrans.Common.{
  ltb, leb, ◌==◌, if◌then◌else◌, ltb→lt, lt→ltb, Bool-cases, not_ltb→le, u32, sub32, Bool, ◌≡◌, ℕ,
  true, ◌^◌, ◌-◌, subst, ◌⊎◌, ◌+◌, not, none, ◌*◌, refl, ◌<◌, false, ◌%◌, ◌≤◌, suc, ◌/◌, inl, ◌∙◌,
  arith, ◌&&◌, bit_and, zero, inr, some,
}
use unitrans.Common.Masks.{bit_and-page}
use unitrans.Common.Maybe.{◌>>=◌}
use unitrans.Decode.Insn.{start}
use unitrans.Pages.Find.{page_get_flags}
use unitrans.Pages.Flags.{granted, set_each, page_set_flags}
use unitrans.Pages.Setting.{set_page-IsSetTo}
use unitrans.Pages.Single.{desc_of, IsQuiet, page_get_flags_lem}
use unitrans.Pages.State.{page_mask, PageMap, page_align}

-- The `n` pages from `a` on have the flags `f`.
pub record IsRangeSet (a n f : ℕ) (m m' : PageMap) : Type 0 where
  pub quiet : IsQuiet m'
  pub changed :
      (j : ℕ)
      → j < 2 ^ 20
      → (desc_of m' j).flags ≡ (if leb a j && ltb j (a + n) then f else (desc_of m j).flags)

extend :
    (a n j f old : ℕ)
    → (if leb (a + 1) j && ltb j (a + 1 + n) then f else (if j == a then f else old))
      ≡ (if leb a j && ltb j (a + suc n) then f else old)
extend a n j f old = ground arith

nothing : (a j f old : ℕ) → old ≡ (if leb a j && ltb j (a + 0) then f else old)
nothing a j f old = ground arith

pub not_zero : (n len : ℕ) → len ≡ 4096 * suc n → (len == 0) ≡ false
not_zero n len is_len = ground arith

set_each-IsRangeSet :
    (fuel n a f addr len : ℕ) (m : PageMap)
    → n < fuel
    → a + n ≤ 2 ^ 20
    → addr ≡ 4096 * a % 2 ^ 32
    → len ≡ 4096 * n
    → IsQuiet m
    → (m' : PageMap) × (set_each fuel addr len f m ≡ some m') × IsRangeSet a n f m m'
unfolding set_each
set_each-IsRangeSet zero n a f addr len m lt le at_a is_len q = absurd (omega (arith, lt))
set_each-IsRangeSet (suc fuel) zero a f addr len m lt le at_a is_len q =
    (m, rw is_len refl, record { quiet = q; changed = λ j j_lt. nothing a j f (desc_of m j).flags })
set_each-IsRangeSet (suc fuel) (suc n) a f addr len m lt le at_a is_len q =
    let page : addr / 4096 ≡ a = omega (arith, at_a, le) in
    let (m₁, sets, one) = set_page-IsSetTo addr f m (omega (arith, page, le)) q in
    let (m', sets', rest) =
      set_each-IsRangeSet fuel n (a + 1) f (u32 (addr + 4096)) (sub32 len 4096) m₁
        (omega (arith, lt)) (omega (arith, le)) (omega (arith, at_a, le))
        (omega (arith, is_len, le)) one.quiet in
    (
      m',
      rw (not_zero n len is_len, sets, ◌>>=◌) sets',
      record {
        quiet = rest.quiet;
        changed = λ j j_lt.
            rest.changed j j_lt
            ∙ rw (one.changed j j_lt, page) (extend a n j f (desc_of m j).flags);
      },
    )

-- The range meets the first page and the last of the 2 ^ 32 addresses. Its length is then 0 in the
-- source, as a word.
abbrev pub spans : ℕ → ℕ → Bool
spans start end = ltb start 4096 && ltb (2 ^ 32 - 4096) end

-- The address lies in a page that a call for the range from `start` to `end` sets: one that the range
-- meets, unless the range spans all the pages.
abbrev pub meets : ℕ → ℕ → ℕ → Bool
meets start end addr =
    not (spans start end) && (leb (start / 4096) (addr / 4096) && ltb (addr / 4096 * 4096) end)

-- The number of pages that the source goes through.
abbrev pub pages_of : ℕ → ℕ → ℕ
pages_of start end = if spans start end then 0 else (end + 4095) / 4096 - start / 4096

partial-length :
    (start end : ℕ)
    → start < end
    → end < 2 ^ 32 + 1
    → (4096 ≤ start) ⊎ (end ≤ 2 ^ 32 - 4096)
    → sub32 (page_align (end % 2 ^ 32)) (bit_and start page_mask)
      ≡ 4096 * ((end + 4095) / 4096 - start / 4096)
partial-length start end lt bound partial =
    rw (bit_and-page start, bit_and-page (u32 (end % 2 ^ 32 + 4096 - 1)))
      (elim partial [
        | inl low ↦ omega (arith, lt, bound, low)
        | inr high ↦ omega (arith, lt, bound, high)
      ])

whole-length :
    (start end : ℕ)
    → start < 4096
    → 2 ^ 32 - 4096 < end
    → end < 2 ^ 32 + 1
    → sub32 (page_align (end % 2 ^ 32)) (bit_and start page_mask) ≡ 4096 * 0
whole-length start end low high bound =
    rw (bit_and-page start, bit_and-page (u32 (end % 2 ^ 32 + 4096 - 1)))
      (omega (arith, low, high, bound))

pub spans_lem :
    (start end : ℕ)
    → ((spans start end ≡ true) × (start < 4096) × (2 ^ 32 - 4096 < end))
      ⊎ ((spans start end ≡ false) × ((4096 ≤ start) ⊎ (end ≤ 2 ^ 32 - 4096)))
spans_lem start end = elim (Bool-cases (ltb start 4096)) [
  | inr low ↦ inr (rw low refl, inl (not_ltb→le start 4096 low))
  | inl low ↦ elim (Bool-cases (ltb (2 ^ 32 - 4096) end)) [
    | inr high ↦ inr (rw (low, high) refl, inr (not_ltb→le (2 ^ 32 - 4096) end high))
    | inl high ↦ inl (rw (low, high) refl, ltb→lt start 4096 low, ltb→lt (2 ^ 32 - 4096) end high)
  ]
]

pub range-length :
    (start end : ℕ)
    → start < end
    → end < 2 ^ 32 + 1
    → sub32 (page_align (end % 2 ^ 32)) (bit_and start page_mask) ≡ 4096 * pages_of start end
range-length start end lt bound = elim (spans_lem start end) [
  | inl (is, low, high) ↦ rw is (whole-length start end low high bound)
  | inr (is, partial) ↦ rw is (partial-length start end lt bound partial)
]

pub range-first : (start : ℕ) → start < 2 ^ 32 → bit_and start page_mask ≡ 4096 * (start / 4096)
range-first start lt = omega (arith, lt, bit_and-page start)

pub meets-page :
    (start end addr : ℕ)
    → start < end
    → (leb (start / 4096) (addr / 4096) && ltb (addr / 4096) (start / 4096 + pages_of start end))
      ≡ meets start end addr
meets-page start end addr lt = elim (Bool-cases (spans start end)) [
  | inl whole ↦ rw whole (none_inside (start / 4096) (addr / 4096))
  | inr part ↦ rw part (page_inside start end addr lt)
]
  where
    none_inside : (a k : ℕ) → (leb a k && ltb k (a + 0)) ≡ false
    none_inside a k = ground arith

    page_inside :
        (start end addr : ℕ)
        → start < end
        → (leb (start / 4096) (addr / 4096)
            && ltb (addr / 4096) (start / 4096 + ((end + 4095) / 4096 - start / 4096)))
          ≡ (leb (start / 4096) (addr / 4096) && ltb (addr / 4096 * 4096) end)
    page_inside start end addr lt = ground arith

pub pages_inside :
    (start end : ℕ) → start < end → end < 2 ^ 32 + 1 → start / 4096 + pages_of start end ≤ 2 ^ 20
pages_inside start end lt bound = elim (Bool-cases (spans start end)) [
  | inl whole ↦ rw whole (omega (arith, lt, bound))
  | inr part ↦ rw part (omega (arith, lt, bound))
]

-- A call for a range that is not empty.
pub page_set_flags-IsRangeSet :
    (fuel start end flags : ℕ) (m : PageMap)
    → 2 ^ 20 < fuel
    → start < end
    → end < 2 ^ 32
    → IsQuiet m
    → (m' : PageMap) × (page_set_flags fuel start end flags m ≡ some m')
      × IsRangeSet (start / 4096) (pages_of start end) (granted flags) m m'
unfolding page_set_flags
page_set_flags-IsRangeSet fuel start end flags m enough lt e_lt q =
    let in_word : end % 2 ^ 32 ≡ end = omega (arith, e_lt) in
    let len = range-length start end lt (omega (arith, e_lt)) in
    let inside = pages_inside start end lt (omega (arith, e_lt)) in
    let (m', sets, range) =
      set_each-IsRangeSet fuel (pages_of start end) (start / 4096) (granted flags)
        (bit_and start page_mask) (sub32 (page_align end) (bit_and start page_mask)) m
        (omega (arith, enough, inside)) inside
        (omega (arith, range-first start (omega (arith, lt, e_lt)), lt, e_lt))
        (subst
          (λ (e : ℕ). sub32 (page_align e) (bit_and start page_mask) ≡ 4096 * pages_of start end)
          in_word len)
        q in
    (m', rw (lt→ltb start end lt) sets, range)

-- Setting the flags of a range whose end is an address. An empty range is an assertion that fails.
-- Otherwise the call succeeds, and the page of an address has the flags, a writable one with its second
-- mark, if the range meets it, and keeps its flags if not. The exception is a range that meets the first
-- page and the last of the 2 ^ 32 addresses, which sets no page. No page holds code, and the fuel is more
-- than the pages there are.
pub page_set_flags-Granted :
    (fuel start end flags addr : ℕ) (m : PageMap)
    → 2 ^ 20 < fuel
    → end < 2 ^ 32
    → IsQuiet m
    → addr < 2 ^ 32
    → ((end ≤ start) × (page_set_flags fuel start end flags m ≡ none))
      ⊎ ((start < end)
          × (m' : PageMap) × (page_set_flags fuel start end flags m ≡ some m')
          × IsQuiet m'
          × (page_get_flags addr m'
              ≡ (if meets start end addr then granted flags else page_get_flags addr m)))
unfolding page_set_flags
page_set_flags-Granted fuel start end flags addr m enough e_lt q a_lt =
    elim (Bool-cases (ltb start end)) [
      | inr no_page ↦ inl (not_ltb→le start end no_page, rw no_page refl)
      | inl ordered ↦
          let lt = ltb→lt start end ordered in
          let (m', sets, range) =
            page_set_flags-IsRangeSet fuel start end flags m enough lt e_lt q in
          inr (
            lt,
            m',
            sets,
            range.quiet,
            page_get_flags_lem m' addr
                ∙ range.changed (addr / 4096) (omega (arith, a_lt))
                ∙ rw (meets-page start end addr lt, page_get_flags_lem m addr) refl,
          )
    ]
