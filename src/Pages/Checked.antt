-- ===== src/Pages/Checked.antt =====
-- `page_check_range` against a description of the pages of the range.
use unitrans.Common.{
  ltb, ◌==◌, if◌then◌else◌, Bool-cases, not_ltb→le, u32, sub32, has, ◌≤◌, inl, ◌+◌, ◌≡◌, ◌<◌, ◌∙◌,
  true, some, ◌/◌, Bool, arith, ◌%◌, ℕ, bit_and, false, sym, refl, ◌^◌, Option, ◌*◌, ◌-◌, suc, inr,
  ap, zero,
}
use unitrans.Pages.Answers.{
  may, all_from, may_write, unprotected, answer, verdict-read, verdict-write, judge-page,
  decide-further, returned, decide-write,
}
use unitrans.Pages.Find.{page_get_flags}
use unitrans.Pages.Flags.{page_unprotect, refused, further, check_each, page_check_range}
use unitrans.Pages.Ranges.{not_zero, spans, range-length, range-first, pages_inside}
use unitrans.Pages.Single.{desc_of, page_get_flags_lem}
use unitrans.Pages.State.{page_write, page_mask, PageMap, page_align}

module _ (host flags : ℕ) (m : PageMap) where
  check_each-read :
      (fuel n a addr len : ℕ)
      → n < fuel
      → a + n ≤ 2 ^ 20
      → addr ≡ 4096 * a % 2 ^ 32
      → len ≡ 4096 * n
      → has flags page_write ≡ false
      → check_each fuel host addr len flags m
        ≡ some (all_from a n (λ k. may (page_get_flags (4096 * k) m) flags), m)
  unfolding check_each
  check_each-read zero n a addr len lt le at_a is_len read = absurd (omega (arith, lt))
  check_each-read (suc fuel) zero a addr len lt le at_a is_len read = rw is_len refl
  check_each-read (suc fuel) (suc n) a addr len lt le at_a is_len read =
      let page : addr / 4096 ≡ 4096 * a / 4096 = omega (arith, at_a, le) in
      let rest =
        check_each-read fuel n (a + 1) (u32 (addr + 4096)) (sub32 len 4096) (omega (arith, lt))
          (omega (arith, le)) (omega (arith, at_a, le)) (omega (arith, is_len, le)) read in
      let test =
        judge-page m flags (addr / 4096)
        ∙ verdict-read (desc_of m (addr / 4096)).flags flags read
        ∙ ap (λ (k : ℕ). if may (desc_of m k).flags flags then further else refused) page in
      rw (not_zero n len is_len, test, rest)
        (decide-further (may (desc_of m (4096 * a / 4096)).flags flags) m
            (page_unprotect host addr m)
            (all_from (a + 1) n (λ k. may (page_get_flags (4096 * k) m) flags))
          ∙ rw (page_get_flags_lem m (4096 * a)) refl)

  check_each-write :
      (fuel n addr len : ℕ)
      → 0 < fuel
      → len ≡ 4096 * suc n
      → has flags page_write ≡ true
      → check_each fuel host addr len flags m
        ≡ returned m (
            if may_write (page_get_flags addr m) flags
            then if has (page_get_flags addr m) page_write then some true else unprotected host addr
            else some false)
  unfolding check_each
  check_each-write zero n addr len lt is_len write = absurd (omega (arith, lt))
  check_each-write (suc fuel) n addr len lt is_len write =
      let f = (desc_of m (addr / 4096)).flags in
      let test = judge-page m flags (addr / 4096) ∙ verdict-write f flags write in
      rw (not_zero n len is_len, test, page_get_flags_lem m addr)
        (decide-write host addr flags m
          (check_each fuel host (u32 (addr + 4096)) (sub32 len 4096) flags m))

wrapped :
    (start len : ℕ)
    → start < 2 ^ 32
    → len < 2 ^ 32
    → (len == 0) ≡ false
    → ltb (u32 (start + len - 1)) start ≡ ltb (2 ^ 32) (start + len)
wrapped start len s_lt l_lt some_bytes = ground arith

same_page :
    (start : ℕ) (m : PageMap)
    → start < 2 ^ 32
    → page_get_flags (bit_and start page_mask) m ≡ page_get_flags start m
same_page start m lt =
    let page : bit_and start page_mask / 4096 ≡ start / 4096 =
      omega (arith, range-first start lt) in
    page_get_flags_lem m (bit_and start page_mask)
    ∙ ap (λ (k : ℕ). (desc_of m k).flags) page
    ∙ sym (page_get_flags_lem m start)

empty_check :
    (fuel host addr len flags : ℕ) (m : PageMap)
    → 2 ^ 20 < fuel
    → (len == 0) ≡ true
    → check_each fuel host addr len flags m ≡ some (true, m)
unfolding check_each
empty_check zero host addr len flags m enough h = absurd (omega (arith, enough))
empty_check (suc fuel) host addr len flags m enough h = rw h refl

module _ (fuel host start len flags : ℕ) (m : PageMap) where
  check-in_range :
      2 ^ 20 < fuel
      → start < 2 ^ 32
      → (len == 0) ≡ false
      → ltb (2 ^ 32) (start + len) ≡ false
      → check_each fuel host
          (bit_and start page_mask)
          (sub32 (page_align (u32 (start + len))) (bit_and start page_mask))
          flags
          m
        ≡ returned m (answer host start len flags m)
  check-in_range enough s_lt filled inside =
      let positive : 0 < len = ground arith in
      let fits = not_ltb→le (2 ^ 32) (start + len) inside in
      let long = range-length start (start + len) (omega (arith, positive)) (omega (arith, fits)) in
      let bound =
        pages_inside start (start + len) (omega (arith, positive)) (omega (arith, fits)) in
      let first = range-first start s_lt in
      let size = sub32 (page_align (u32 (start + len))) (bit_and start page_mask) in
      rw (filled, inside)
        (elim (Bool-cases (spans start (start + len))) [
          | inl whole ↦
              let no_length : (size == 0) ≡ true =
                ap (λ (k : ℕ). k == 0)
                  (long
                    ∙ ap
                        (λ (b : Bool).
                          4096 * (if b then 0 else (start + len + 4095) / 4096 - start / 4096))
                        whole) in
              rw whole
                (empty_check fuel host (bit_and start page_mask) size flags m enough no_length)
          | inr part ↦ elim (Bool-cases (has flags page_write)) [
            | inl write ↦
                rw (part, write)
                  (let pages = (start + len + 4095) / 4096 - start / 4096 in
                    let long' : size ≡ 4096 * pages =
                      long ∙ ap (λ (b : Bool). 4096 * (if b then 0 else pages)) part in
                    let more : pages ≡ suc (pages - 1) = omega (arith, positive) in
                    check_each-write host flags m fuel (pages - 1) (bit_and start page_mask) size
                      (omega (arith, enough)) (long' ∙ ap (λ (n : ℕ). 4096 * n) more) write
                    ∙ rw (same_page start m s_lt, first) refl)
            | inr read ↦
                rw (read, part)
                  (let pages = (start + len + 4095) / 4096 - start / 4096 in
                    let long' : size ≡ 4096 * pages =
                      long ∙ ap (λ (b : Bool). 4096 * (if b then 0 else pages)) part in
                    check_each-read host flags m fuel pages (start / 4096) (bit_and start page_mask)
                      size (omega (arith, enough, fits)) (omega (arith, fits, positive))
                      (omega (arith, first, s_lt)) long' read)
          ]
        ])

page_check_range-inside :
    (fuel host start len flags : ℕ) (m : PageMap) {r : Option (Bool × PageMap)}
    → (len == 0) ≡ false
    → ltb (u32 (start + len - 1)) start ≡ false
    → check_each fuel host
        (bit_and start page_mask)
        (sub32 (page_align (u32 (start + len))) (bit_and start page_mask))
        flags
        m
      ≡ r
    → page_check_range fuel host start len flags m ≡ r
unfolding page_check_range
page_check_range-inside fuel host start len flags m filled ordered run = rw (filled, ordered) run

-- The check of a range of addresses gives the described answer and changes nothing. No byte is
-- allowed, a range past the last address is refused, and one that meets both the first page and the
-- last of the 2 ^ 32 addresses is allowed unchecked. Of the other ranges, a read needs every page to be
-- mapped and readable, and a write needs only the first page to be so and writable, whatever the
-- other pages are. If that first page is write-protected for its code, the call aborts, or it is
-- allowed where the host's page ends at the top of the address space. The fuel is more than the pages
-- there are.
pub page_check_range-Checked :
    (fuel host start len flags : ℕ) (m : PageMap)
    → 2 ^ 20 < fuel
    → start < 2 ^ 32
    → len < 2 ^ 32
    → page_check_range fuel host start len flags m ≡ returned m (answer host start len flags m)
unfolding page_check_range
page_check_range-Checked fuel host start len flags m enough s_lt l_lt =
    elim (Bool-cases (len == 0)) [
      | inl no_bytes ↦ rw no_bytes refl
      | inr filled ↦ elim (Bool-cases (ltb (2 ^ 32) (start + len))) [
        | inl over ↦ rw (filled, wrapped start len s_lt l_lt filled, over) refl
        | inr inside ↦
            page_check_range-inside fuel host start len flags m filled
              (wrapped start len s_lt l_lt filled ∙ inside)
              (check-in_range fuel host start len flags m enough s_lt filled inside)
      ]
    ]
