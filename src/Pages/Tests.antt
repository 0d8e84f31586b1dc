-- ===== src/Pages/Tests.antt =====
-- Runs of the page table, and witnesses.
use unitrans.Common.{
  if◌then◌else◌, some, false, List, ◌<◌, ◌∷◌, refl, Option, ℕ, Bool, none, map, [], true, ◌≤◌, ◌≡◌,
  ◌⊎◌, arith,
}
use unitrans.Common.Maybe.{◌>>=◌}
use unitrans.Pages.Answers.{answer_with, answer, returned}
use unitrans.Pages.Checked.{page_check_range-Checked}
use unitrans.Pages.Find.{level_two, page_find_alloc, page_find, page_get_flags}
use unitrans.Pages.Flags.{
  granted, stored_at, set_page, set_each, page_set_flags, page_unprotect, check_each,
  page_check_range,
}
use unitrans.Pages.History.{Request, Requests, set_all, latest, empty_map-IsQuiet, set_all-Flat}
use unitrans.Pages.Ranges.{meets, page_set_flags-Granted}
use unitrans.Pages.Single.{IsQuiet}
use unitrans.Pages.State.{PageMap, empty_map}

abbrev two_requests : List Request
two_requests =
    record { start = 0x8048000; end = 0x804a001; flags = 0xb }
    ∷ record { start = 0x8049000; end = 0x804a000; flags = 0x9 }
    ∷ []

two_requests-Requests : Requests two_requests
two_requests-Requests = (
  record { ordered = omega arith; in_word = omega arith; plain = omega arith },
  (record { ordered = omega arith; in_word = omega arith; plain = omega arith }, omega arith),
)

abbrev two_ranges : Option PageMap
two_ranges = set_all 5 two_requests empty_map

-- The flags of a page after the two calls, and what they allow.
abbrev read_back : ℕ → Option ℕ
read_back addr = do m ← two_ranges; some (page_get_flags addr m)

abbrev check_back : ℕ → ℕ → ℕ → Option Bool
check_back from len flags = do
  m ← two_ranges
  (answer, m₁) ← page_check_range 5 4096 from len flags m
  some answer

flags-run :
    map read_back (0x8047fff ∷ 0x8048000 ∷ 0x8049fff ∷ 0x804a000 ∷ 0x804b000 ∷ [])
    ≡ some 0 ∷ some 0x1b ∷ some 0x9 ∷ some 0x1b ∷ some 0 ∷ []
unfolding set_all page_set_flags set_each set_page stored_at page_find_alloc level_two page_find
    page_get_flags
flags-run = refl

-- A read that reaches the unmapped page is refused; a write is not.
check-run :
    (check_back 0x804a000 0x1001 1 ≡ some false)
    × (check_back 0x804a000 0x1001 2 ≡ some true)
    × (check_back 0x8049000 1 2 ≡ some false)
unfolding set_all page_set_flags set_each set_page stored_at page_find_alloc level_two page_find
    page_get_flags page_check_range check_each page_unprotect
check-run = (refl, refl, refl)

page_set_flags-Granted_example :
    ((0x804a001 ≤ 0x8048000) × (page_set_flags 1048577 0x8048000 0x804a001 0xb empty_map ≡ none))
    ⊎ ((0x8048000 < 0x804a001)
        × (m' : PageMap) × (page_set_flags 1048577 0x8048000 0x804a001 0xb empty_map ≡ some m')
        × IsQuiet m'
        × (page_get_flags 0x8049004 m' ≡ (
            if meets 0x8048000 0x804a001 0x8049004
            then granted 0xb
            else page_get_flags 0x8049004 empty_map)))
page_set_flags-Granted_example =
    page_set_flags-Granted 1048577 0x8048000 0x804a001 0xb 0x8049004 empty_map (omega arith)
      (omega arith) empty_map-IsQuiet (omega arith)

page_check_range-Checked_example :
    page_check_range 1048577 4096 0x8048000 0x2000 1 empty_map
    ≡ returned empty_map (answer 4096 0x8048000 0x2000 1 empty_map)
page_check_range-Checked_example =
    page_check_range-Checked 1048577 4096 0x8048000 0x2000 1 empty_map (omega arith) (omega arith)
      (omega arith)

set_all-Flat_example :
    (m : PageMap) × (set_all 1048577 two_requests empty_map ≡ some m)
    × (page_get_flags 0x8049004 m ≡ latest two_requests 0x8049004 0)
    × (b : Bool) × (answer_with none 0x804a000 0x1001 2 m ≡ some b)
    × (page_check_range 1048577 4096 0x804a000 0x1001 2 m ≡ some (b, m))
set_all-Flat_example =
    set_all-Flat 1048577 4096 0x8049004 0x804a000 0x1001 2 two_requests (omega arith) (omega arith)
      (omega arith) (omega arith) two_requests-Requests
