-- ===== src/Pages/Setting.antt =====
-- One round of `page_set_flags`: it sets the flags of one page and no others.
use unitrans.Blocks.State.{update}
use unitrans.Common.{
  ◌==◌, if◌then◌else◌, ==_iff, Bool-cases, has, inr, ◌/◌, Option, ◌≡◌, ap₂, false, not, ◌&&◌, ◌^◌,
  ap, ◌∙◌, refl, none, arith, ℕ, ◌<◌, ◌%◌, some, inl, true, Bool,
}
use unitrans.Common.Masks.{bit_and-ten}
use unitrans.Pages.Find.{desc_at, page_store, level_two, page_find_alloc}
use unitrans.Pages.Flags.{is_some, store_flags, stored_at, set_page}
use unitrans.Pages.Single.{desc_of, IsQuiet, made-entry, stored-entry}
use unitrans.Pages.State.{page_write, PageDesc, PageMap, zero_page}

and-false : (a : Bool) → (a && false) ≡ false
and-false true = refl
and-false false = refl

-- The new table `m'` differs from `m` in the flags of the page at two indices.
abbrev WroteAt : ℕ → ℕ → ℕ → PageMap → PageMap → Type 0
WroteAt i j f m m' =
    (a b : ℕ)
    → desc_at (m' a) b
      ≡ (if a == i && b == j then record (desc_at (m i) j) { flags = f } else desc_at (m a) b)

store_flags-Wrote :
    (f i j : ℕ) (m : PageMap) (pd : ℕ → PageDesc)
    → m i ≡ some pd
    → IsQuiet m
    → (m' : PageMap) × (store_flags f m (i, j) ≡ some m') × WroteAt i j f m m'
store_flags-Wrote f i j m pd h q =
    let p = desc_at (m i) j in
    let p' = record p { flags = f } in
    let unused : is_some p.first_tb ≡ false = rw (q i j) refl in
    (
      page_store m (i, j) p',
      rw (unused, and-false (not (has p.flags page_write) && has f page_write)) refl,
      λ a b. stored-entry m i j a b p' pd h,
    )

made-IsQuiet :
    (m : PageMap) (i : ℕ) → m i ≡ none → IsQuiet m → IsQuiet (update m i (some (λ k. zero_page)))
made-IsQuiet m i h q a b = ap (λ (p : PageDesc). p.first_tb) (made-entry m i a b h) ∙ q a b

set-level_two :
    (f i j : ℕ) (m : PageMap) (o : Option (ℕ → PageDesc))
    → m i ≡ o
    → IsQuiet m
    → (m' : PageMap) × (stored_at f (level_two o i j true m).1 (level_two o i j true m).0 ≡ some m')
      × WroteAt i j f m m'
unfolding level_two stored_at
set-level_two f i j m (some pd) h q = store_flags-Wrote f i j m pd h q
set-level_two f i j m none h q =
    let m₁ = update m i (some (λ k. zero_page)) in
    let fresh : m₁ i ≡ some (λ k. zero_page) = rw ((==_iff i i).1 refl) refl in
    let (m', stores, wrote) =
      store_flags-Wrote f i j m₁ (λ k. zero_page) fresh (made-IsQuiet m i h q) in
    (
      m',
      stores,
      λ a b.
          wrote a b
          ∙ ap₂ (λ (p r : PageDesc). if a == i && b == j then record p { flags = f } else r)
              (made-entry m i i j h) (made-entry m i a b h),
    )

-- The table after the flags of the page `k` are set to `f`.
pub record IsSetTo (k f : ℕ) (m m' : PageMap) : Type 0 where
  pub quiet : IsQuiet m'
  pub changed :
      (j : ℕ) → j < 2 ^ 20 → (desc_of m' j).flags ≡ (if j == k then f else (desc_of m j).flags)

-- Two pages are the same page where both indices agree.
same-page :
    (j k : ℕ)
    → j < 2 ^ 20
    → k < 2 ^ 20
    → (j / 1024 % 1024 == k / 1024 % 1024 && j % 1024 == k % 1024) ≡ (j == k)
same-page j k lt lt' = ground arith

wrote-IsSetTo :
    (k f : ℕ) (m m' : PageMap)
    → k < 2 ^ 20
    → IsQuiet m
    → WroteAt (k / 1024 % 1024) (k % 1024) f m m'
    → IsSetTo k f m m'
wrote-IsSetTo k f m m' lt q wrote =
    let i = k / 1024 % 1024 in
    let j = k % 1024 in
    record {
      quiet = λ a b. rw (ap (λ (p : PageDesc). p.first_tb) (wrote a b)) (still a b i j);
      changed = λ x x_lt.
          ap (λ (p : PageDesc). p.flags) (wrote (x / 1024 % 1024) (x % 1024))
          ∙ rw (same-page x k x_lt lt) (flags-if (desc_at (m i) j) (desc_of m x) (x == k));
    }
  where
    still :
        (a b i j : ℕ)
        → (if a == i && b == j
            then record (desc_at (m i) j) { flags = f }
            else desc_at (m a) b).first_tb
          ≡ none
    still a b i j = elim (Bool-cases (a == i && b == j)) [
      | inl same ↦ rw same (q i j)
      | inr differ ↦ rw differ (q a b)
    ]

    flags-if :
        (p r : PageDesc) (c : Bool)
        → (if c then record p { flags = f } else r).flags ≡ (if c then f else r.flags)
    flags-if p r true = refl
    flags-if p r false = refl

-- A round succeeds, and sets the flags of the page of its address.
pub set_page-IsSetTo :
    (addr f : ℕ) (m : PageMap)
    → addr / 4096 < 2 ^ 20
    → IsQuiet m
    → (m' : PageMap) × (set_page addr f m ≡ some m') × IsSetTo (addr / 4096) f m m'
unfolding set_page page_find_alloc
set_page-IsSetTo addr f m lt q =
    let k = addr / 4096 in
    let i = k / 1024 % 1024 in
    let (m', stores, wrote) = set-level_two f i (k % 1024) m (m i) refl q in
    (m', rw (bit_and-ten k, bit_and-ten (k / 1024)) stores, wrote-IsSetTo k f m m' lt q wrote)
