-- ===== src/Pages/State.antt =====
-- exec.c: `PageDesc` and the table `l1_map`; cpu-all.h: the flags of a page.
use unitrans.Common.{u32, ◌-◌, Option, bit_and, ℕ, ◌+◌, none}

abbrev pub page_read : ℕ
page_read = 0x1

abbrev pub page_write : ℕ
page_write = 0x2

abbrev pub page_valid : ℕ
page_valid = 0x8

abbrev pub page_write_org : ℕ
page_write_org = 0x10

-- The bits of an address below its page, and of a page's index at each level.
abbrev pub page_size : ℕ
page_size = 4096

abbrev pub page_mask : ℕ
page_mask = 0xfffff000

abbrev pub l2_size : ℕ
l2_size = 1024

abbrev pub v_l1_size : ℕ
v_l1_size = 1024

pub record PageDesc : Type 0 where
  pub first_tb : Option ℕ
  pub code_write_count : ℕ
  pub code_bitmap : Option ℕ
  pub flags : ℕ

-- The table has two levels: an entry of the first is NULL or an array of descriptors.
abbrev pub PageMap : Type 0
PageMap = ℕ → Option (ℕ → PageDesc)

-- Fresh memory of the host is zero.
abbrev pub zero_page : PageDesc
zero_page = record { first_tb = none; code_write_count = 0; code_bitmap = none; flags = 0 }

abbrev pub empty_map : PageMap
empty_map i = none

-- `TARGET_PAGE_ALIGN`.
abbrev pub page_align : ℕ → ℕ
page_align addr = bit_and (u32 (addr + page_size - 1)) page_mask
