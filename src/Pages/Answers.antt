-- ===== src/Pages/Answers.antt =====
-- What the check of a range answers, and the tests of one page (exec.c, `page_check_range`).
use unitrans.Common.{
  ltb, ◌==◌, if◌then◌else◌, Bool-cases, and_right, u32, has, inl, some, Option, ap, ◌<◌, suc, true,
  bit_and, Bool, ℕ, not, ◌*◌, false, ◌^◌, refl, none, inr, ◌-◌, ◌||◌, ◌/◌, ◌+◌, ◌≡◌, ◌&&◌, ◌∙◌,
  zero,
}
use unitrans.Common.Maybe.{◌>>=◌}
use unitrans.Pages.Find.{PagePtr, page_find, flags_through, page_get_flags}
use unitrans.Pages.Flags.{
  page_unprotect, Verdict, refused, accepted, protected, further, verdict, judge, decide,
}
use unitrans.Pages.Ranges.{spans, pages_of}
use unitrans.Pages.Single.{desc_of, page_find_lem}
use unitrans.Pages.State.{page_read, page_write, page_valid, page_write_org, PageMap}

-- A page with the second mark of a writable page is writable: no page is write-protected for its code.
pub record IsPlain (m : PageMap) : Type 0 where
  pub plain :
      (k : ℕ)
      → k < 2 ^ 20
      → has (desc_of m k).flags page_write_org ≡ true
      → has (desc_of m k).flags page_write ≡ true

-- What a page with the flags `f` must have for an access.
abbrev pub may : ℕ → ℕ → Bool
may f flags = has f page_valid && (not (has flags page_read) || has f page_read)

abbrev pub all_from : ℕ → ℕ → (ℕ → Bool) → Bool
all_from a zero p = true
all_from a (suc n) p = p a && all_from (a + 1) n p

-- The answer to a write to a page with the flags `f`.
abbrev pub may_write : ℕ → ℕ → Bool
may_write f flags = may f flags && has f page_write_org

-- The unprotection of a page at `addr` that holds code: an abort, unless the host's page ends at the
-- top of the address space.
abbrev pub unprotected : ℕ → ℕ → Option Bool
unprotected host addr =
    let h = bit_and addr (2 ^ 32 - host) in if ltb h (u32 (h + host)) then none else some true

-- The answer for a range. No byte is always allowed, a range past the last address is not, and one that
-- meets the first page and the last is. Of the others, the first page alone is looked at for a write,
-- and every page otherwise. A write to a page that is write-protected for its code is left to
-- `guarded`.
abbrev pub answer_with : Option Bool → ℕ → ℕ → ℕ → PageMap → Option Bool
answer_with guarded start len flags m =
    let f = page_get_flags start m in
    let pages = pages_of start (start + len) in
    if len == 0
    then some true
    else if ltb (2 ^ 32) (start + len)
    then some false
    else if spans start (start + len)
    then some true
    else if has flags page_write
    then if may_write f flags then if has f page_write then some true else guarded else some false
    else some (all_from (start / 4096) pages (λ k. may (page_get_flags (4096 * k) m) flags))

abbrev pub answer : ℕ → ℕ → ℕ → ℕ → PageMap → Option Bool
answer host start len flags m =
    answer_with (unprotected host (4096 * (start / 4096))) start len flags m

pub verdict-read :
    (f flags : ℕ)
    → has flags page_write ≡ false
    → verdict f flags ≡ (if may f flags then further else refused)
verdict-read f flags read = elim (Bool-cases (has f page_valid)) [
  | inr invalid ↦ rw (invalid) refl
  | inl valid ↦ elim (Bool-cases (has flags page_read)) [
    | inr any ↦ rw (valid, any, read) refl
    | inl wants ↦ elim (Bool-cases (has f page_read)) [
      | inr unread ↦ rw (valid, wants, unread) refl
      | inl fits ↦ rw (valid, wants, fits, read) refl
    ]
  ]
]

unfoldable pub write_verdict : ℕ → Verdict
write_verdict f = if has f page_write then accepted else protected

pub verdict-write :
    (f flags : ℕ)
    → has flags page_write ≡ true
    → verdict f flags ≡ (if may_write f flags then write_verdict f else refused)
unfolding write_verdict
verdict-write f flags write = elim (Bool-cases (has f page_valid)) [
  | inr invalid ↦ rw (invalid) refl
  | inl valid ↦ elim (Bool-cases (has f page_write_org)) [
    | inr fixed ↦ elim (Bool-cases (has flags page_read)) [
      | inr any ↦ rw (valid, any, write, fixed) refl
      | inl wants ↦ elim (Bool-cases (has f page_read)) [
        | inr unread ↦ rw (valid, wants, unread) refl
        | inl fits ↦ rw (valid, wants, fits, write, fixed) refl
      ]
    ]
    | inl loose ↦ elim (Bool-cases (has flags page_read)) [
      | inr any ↦ rw (valid, any, write, loose) (by_mark (has f page_write))
      | inl wants ↦ elim (Bool-cases (has f page_read)) [
        | inr unread ↦ rw (valid, wants, unread) refl
        | inl fits ↦ rw (valid, wants, fits, write, loose) (by_mark (has f page_write))
      ]
    ]
  ]
]
  where
    by_mark :
        (b : Bool) → (if not b then protected else accepted) ≡ (if b then accepted else protected)
    by_mark true = refl
    by_mark false = refl

-- A missing page is judged as one without flags.
judge_lem :
    (m : PageMap) (flags : ℕ) (p : Option PagePtr)
    → judge m flags p ≡ verdict (flags_through m p) flags
judge_lem m flags none = refl
judge_lem m flags (some p) = refl

pub judge-page :
    (m : PageMap) (flags k : ℕ) → judge m flags (page_find k m) ≡ verdict (desc_of m k).flags flags
judge-page m flags k =
    judge_lem m flags (page_find k m) ∙ ap (λ (f : ℕ). verdict f flags) (page_find_lem m k)

pub decide-further :
    (b : Bool) (m : PageMap) (u : Option (Bool × PageMap)) (c : Bool)
    → decide (if b then further else refused) m u (some (c, m)) ≡ some (b && c, m)
decide-further true m u c = refl
decide-further false m u c = refl

-- With a result for every answer.
abbrev pub returned : PageMap → Option Bool → Option (Bool × PageMap)
returned m o = o >>= (λ b. some (b, m))

unprotect-returned :
    (host addr : ℕ) (m : PageMap)
    → has (desc_of m (addr / 4096)).flags page_write_org ≡ true
    → has (desc_of m (addr / 4096)).flags page_write ≡ false
    → page_unprotect host addr m ≡ returned m (unprotected host addr)
unfolding page_unprotect
unprotect-returned host addr m org write =
    let h = bit_and addr (2 ^ 32 - host) in
    rw (page_find_lem m (addr / 4096), org, write)
      (elim (Bool-cases (ltb h (u32 (h + host)))) [ inl p ↦ rw p refl | inr p ↦ rw p refl ])

pub decide-write :
    (host addr flags : ℕ) (m : PageMap) (rest : Option (Bool × PageMap))
    → let f = (desc_of m (addr / 4096)).flags in
      decide
        (if may_write f flags then write_verdict f else refused)
        m
        (page_unprotect host addr m)
        rest
      ≡ returned m (
          if may_write f flags
          then if has f page_write then some true else unprotected host addr
          else some false)
unfolding write_verdict
decide-write host addr flags m rest =
    let f = (desc_of m (addr / 4096)).flags in
    elim (Bool-cases (may_write f flags)) [
      | inr not_so ↦ rw not_so refl
      | inl allowed ↦ elim (Bool-cases (has f page_write)) [
        | inl write ↦ rw (allowed, write) refl
        | inr write ↦
            rw (allowed, write)
              (unprotect-returned host addr m (and_right (may f flags) allowed) write)
      ]
    ]
