-- ===== src/Pages/Flags.antt =====
-- exec.c: `page_set_flags`, `page_check_range` and `page_unprotect`. `none` is an abort: an assertion,
-- or `tb_invalidate_phys_page`, whose body is a call of `abort`; or it is the end of the fuel.
use unitrans.Common.{
  ltb, ◌==◌, if◌then◌else◌, u32, sub32, has, ◌-◌, ℕ, ◌/◌, zero, false, bit_and, ◌+◌, bit_or, none,
  ◌&&◌, suc, some, true, Bool, Option, not, ◌^◌,
}
use unitrans.Common.Maybe.{◌>>=◌}
use unitrans.Decode.Insn.{start}
use unitrans.Pages.Find.{PagePtr, page_at, page_store, page_find_alloc, page_find, flags_through}
use unitrans.Pages.State.{
  page_read, page_write, page_valid, page_write_org, page_size, page_mask, PageMap, page_align,
}

-- `flags |= PAGE_WRITE_ORG` for a writable page.
abbrev pub granted : ℕ → ℕ
granted flags = if has flags page_write then bit_or flags page_write_org else flags

abbrev pub is_some {ℓ} : {A : Type ℓ} → Option A → Bool
is_some none = false
is_some (some a) = true

-- The writable page gets its flags, unless it holds code that would have to be invalidated.
abbrev pub store_flags : ℕ → PageMap → PagePtr → Option PageMap
store_flags flags m ptr =
    let p = page_at m ptr in
    if not (has p.flags page_write) && has flags page_write && is_some p.first_tb
    then none
    else some (page_store m ptr (record p { flags = flags }))

unfoldable pub stored_at : ℕ → PageMap → Option PagePtr → Option PageMap
stored_at flags m none = none
stored_at flags m (some ptr) = store_flags flags m ptr

unfoldable pub set_page : ℕ → ℕ → PageMap → Option PageMap
unfolding page_find_alloc stored_at
set_page addr flags m =
    let found = page_find_alloc (addr / page_size) true m in stored_at flags found.1 found.0

unfoldable pub set_each : ℕ → ℕ → ℕ → ℕ → PageMap → Option PageMap
unfolding set_page
set_each zero addr len flags m = none
set_each (suc f) addr len flags m =
    let rest = (do
      m₁ ← set_page addr flags m
      set_each f (u32 (addr + page_size)) (sub32 len page_size) flags m₁) in
    if len == 0 then some m else rest

unfoldable pub page_set_flags : ℕ → ℕ → ℕ → ℕ → PageMap → Option PageMap
unfolding set_each
page_set_flags fuel start end flags m =
    let first = bit_and start page_mask in
    if ltb start end
    then set_each fuel first (sub32 (page_align end) first) (granted flags) m
    else none

-- The page was really writable: the loop over the host's page ends in its first round, in the abort.
-- It has no round where the host's page ends at the top of the address space; then `mprotect` is
-- called without any right.
unfoldable pub page_unprotect : ℕ → ℕ → PageMap → Option (Bool × PageMap)
unfolding page_find
page_unprotect host_page_size address m =
    let f = flags_through m (page_find (address / page_size) m) in
    let host_start = bit_and address (2 ^ 32 - host_page_size) in
    if has f page_write_org && not (has f page_write)
    then if ltb host_start (u32 (host_start + host_page_size)) then none else some (true, m)
    else some (false, m)

pub data Verdict : Type 0 where
  refused : Verdict
  accepted : Verdict
  protected : Verdict
  further : Verdict

-- The tests of one page. `protected` is a page to be unprotected first.
abbrev pub verdict : ℕ → ℕ → Verdict
verdict f flags =
    if not (has f page_valid)
    then refused
    else if has flags page_read && not (has f page_read)
    then refused
    else if has flags page_write
    then if not (has f page_write_org)
      then refused
      else if not (has f page_write)
      then protected
      else accepted
    else further

abbrev pub judge : PageMap → ℕ → Option PagePtr → Verdict
judge m flags none = refused
judge m flags (some p) = verdict (page_at m p).flags flags

-- `return 0` is `true` and `return -1` is `false`. The rest of the range is checked only where no
-- write is asked for.
abbrev pub decide :
    Verdict → PageMap → Option (Bool × PageMap) → Option (Bool × PageMap) → Option (Bool × PageMap)
decide refused m unprotected rest = some (false, m)
decide accepted m unprotected rest = some (true, m)
decide protected m unprotected rest = unprotected
decide further m unprotected rest = rest

unfoldable pub check_each : ℕ → ℕ → ℕ → ℕ → ℕ → PageMap → Option (Bool × PageMap)
unfolding page_find page_unprotect
check_each zero host addr len flags m = none
check_each (suc f) host addr len flags m =
    let rest = check_each f host (u32 (addr + page_size)) (sub32 len page_size) flags m in
    let unprotected = page_unprotect host addr m in
    if len == 0
    then some (true, m)
    else decide (judge m flags (page_find (addr / page_size) m)) m unprotected rest

unfoldable pub page_check_range : ℕ → ℕ → ℕ → ℕ → ℕ → PageMap → Option (Bool × PageMap)
unfolding check_each
page_check_range fuel host start len flags m =
    let end = page_align (u32 (start + len)) in
    let first = bit_and start page_mask in
    if len == 0
    then some (true, m)
    else if ltb (u32 (start + len - 1)) start
    then some (false, m)
    else check_each fuel host first (sub32 end first) flags m
