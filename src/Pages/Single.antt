-- ===== src/Pages/Single.antt =====
-- The flags of one page: what is read back after a page is set.
use unitrans.Blocks.State.{update}
use unitrans.Common.{
  ◌==◌, if◌then◌else◌, ==_iff, Bool-cases, none, ◌≡◌, some, ◌/◌, ◌%◌, bit_and, ap₂, ◌∙◌, inr, ℕ,
  inl, Option, false, ◌&&◌, refl,
}
use unitrans.Common.Masks.{bit_and-ten}
use unitrans.Pages.Find.{
  desc_at, page_store, level_two, page_find_alloc, page_find, flags_through, page_get_flags,
}
use unitrans.Pages.State.{PageDesc, PageMap, zero_page}

-- The flags of the page of an index, 0 where its array is missing.
abbrev pub desc_of : PageMap → ℕ → PageDesc
desc_of m k = desc_at (m (k / 1024 % 1024)) (k % 1024)

-- No page holds code: `first_tb` is written nowhere in the program.
abbrev pub IsQuiet : PageMap → Type 0
IsQuiet m = (i j : ℕ) → (desc_at (m i) j).first_tb ≡ none

level_two-flags :
    (o : Option (ℕ → PageDesc)) (i j : ℕ) (m : PageMap)
    → m i ≡ o
    → flags_through m (level_two o i j false m).0 ≡ (desc_at (m i) j).flags
unfolding level_two
level_two-flags none i j m p = rw p refl
level_two-flags (some pd) i j m p = refl

pub page_find_lem : (m : PageMap) (k : ℕ) → flags_through m (page_find k m) ≡ (desc_of m k).flags
unfolding page_find page_find_alloc
page_find_lem m k =
    level_two-flags (m (bit_and (k / 1024) 1023)) (bit_and (k / 1024) 1023) (bit_and k 1023) m refl
    ∙ ap₂ (λ (i j : ℕ). (desc_at (m i) j).flags) (bit_and-ten (k / 1024)) (bit_and-ten k)

pub page_get_flags_lem : (m : PageMap) (a : ℕ) → page_get_flags a m ≡ (desc_of m (a / 4096)).flags
unfolding page_get_flags
page_get_flags_lem m a = page_find_lem m (a / 4096)

-- The table after a new array is put in place, and after a write through a pointer.
pub made-entry :
    (m : PageMap) (i a b : ℕ)
    → m i ≡ none
    → desc_at (update m i (some (λ k. zero_page)) a) b ≡ desc_at (m a) b
made-entry m i a b p = elim (Bool-cases (a == i)) [
  | inl same ↦ rw (same, (==_iff a i).0 same, p) refl
  | inr differ ↦ rw differ refl
]

pub stored-entry :
    (m : PageMap) (i j a b : ℕ) (p : PageDesc) (pd : ℕ → PageDesc)
    → m i ≡ some pd
    → desc_at (page_store m (i, j) p a) b ≡ (if a == i && b == j then p else desc_at (m a) b)
stored-entry m i j a b p pd h = elim (Bool-cases (a == i)) [
  | inl same ↦ rw (same, (==_iff a i).0 same, h) refl
  | inr differ ↦ rw differ refl
]
