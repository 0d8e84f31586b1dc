-- ===== src/Pages/Find.antt =====
-- exec.c: `page_find_alloc`, `page_find` and `page_get_flags`.
use unitrans.Blocks.State.{update}
use unitrans.Common.{false, some, Option, bit_and, Bool, ℕ, ◌-◌, ◌^◌, ◌/◌, true, none}
use unitrans.Pages.State.{page_size, l2_size, v_l1_size, PageDesc, PageMap, zero_page}

-- A pointer to a descriptor is its place in the two levels.
abbrev pub PagePtr : Type 0
PagePtr = ℕ × ℕ

-- What is read and written through a pointer into the table.
abbrev pub desc_at : Option (ℕ → PageDesc) → ℕ → PageDesc
desc_at none j = zero_page
desc_at (some pd) j = pd j

abbrev pub desc_set : Option (ℕ → PageDesc) → ℕ → PageDesc → Option (ℕ → PageDesc)
desc_set none j p = none
desc_set (some pd) j p = some (update pd j p)

abbrev pub page_at : PageMap → PagePtr → PageDesc
page_at m (i, j) = desc_at (m i) j

abbrev pub page_store : PageMap → PagePtr → PageDesc → PageMap
page_store m (i, j) p = update m i (desc_set (m i) j p)

-- The array below an entry of the first level, made where it is missing and wanted.
unfoldable pub level_two : Option (ℕ → PageDesc) → ℕ → ℕ → Bool → PageMap → Option PagePtr × PageMap
level_two (some pd) i j alloc m = (some (i, j), m)
level_two none i j false m = (none, m)
level_two none i j true m = (some (i, j), update m i (some (λ k. zero_page)))

-- The loop over the levels between has no rounds: `V_L1_SHIFT / L2_BITS - 1` is 0.
unfoldable pub page_find_alloc : ℕ → Bool → PageMap → Option PagePtr × PageMap
unfolding level_two
page_find_alloc index alloc m =
    let i = bit_and (index / 2 ^ 10) (v_l1_size - 1) in
    level_two (m i) i (bit_and index (l2_size - 1)) alloc m

unfoldable pub page_find : ℕ → PageMap → Option PagePtr
unfolding page_find_alloc
page_find index m = (page_find_alloc index false m).0

abbrev pub flags_through : PageMap → Option PagePtr → ℕ
flags_through m none = 0
flags_through m (some p) = (page_at m p).flags

unfoldable pub page_get_flags : ℕ → PageMap → ℕ
unfolding page_find
page_get_flags address m = flags_through m (page_find (address / page_size) m)
