-- ===== src/Cache/Sequence.antt =====
-- A miss when every slot is filled, and any sequence of misses.
use mathlib.Core.List.{append_assoc}
use unitrans.Blocks.State.{Blocks}
use unitrans.Cache.Code.{
  EnvLayout, cemit_sieve_nopush, ind_patch_sieve, patch_jmp_target, patch_ind_opt,
}
use unitrans.Cache.Emission.{unfilled, unfilled-length}
use unitrans.Cache.Frame.{Agree, Slots-Agree}
use unitrans.Cache.Misses.{landing, IsCache, WayOut-Agree, Kept, patched-IsCache}
use unitrans.Common.{
  ltb, lt→ltb, le→not_ltb, length, length-append, all, sub32, sym, arith, ◌∷◌, ◌<◌, ℕ, subst, ◌++◌,
  ◌⊎◌, zero, Bool, List, suc, ◌*◌, ◌∙◌, false, refl, inl, ◌^◌, true, [], ◌≡◌, ◌+◌, ap, inr, ◌≤◌,
}
use unitrans.Emit.Memory.{Memory, store, le32, Out, code_emit8, code_emit32}
use unitrans.Emit.Stored.{store-Spells, are_bytes}
use unitrans.Emit.Trace.{Emitted, nothing, then8, then32}
use unitrans.Sieve.Chain.{JumpsTo}
use unitrans.Sieve.Linking.{store-away}
use unitrans.Sieve.Spelling.{jumps_to}

abbrev pub sieve_jump : EnvLayout → ℕ → List ℕ
sieve_jump l a = (0xe9 ∷ []) ++ le32 (sub32 (sub32 l.sieve_stub (a + 1)) 4)

pub jump-Emitted :
    (l : EnvLayout) (o : Out) → Emitted o (cemit_sieve_nopush l o) (sieve_jump l o.code_ptr)
unfolding cemit_sieve_nopush
jump-Emitted l o =
    let e = then8 0xe9 (nothing o) in
    let d = sub32 (sub32 l.sieve_stub (code_emit8 0xe9 o).code_ptr) 4 in
    subst
      (λ (k : ℕ).
        Emitted o (code_emit32 d (code_emit8 0xe9 o))
          ((0xe9 ∷ []) ++ le32 (sub32 (sub32 l.sieve_stub k) 4)))
      e.moved (then32 d e)

sieve_jump-bytes : (l : EnvLayout) (a : ℕ) → are_bytes (sieve_jump l a) ≡ true
unfolding all
sieve_jump-bytes l a = ground arith

ind_patch_sieve-stored :
    (l : EnvLayout) (a : ℕ) (m : Memory) → ind_patch_sieve l a m ≡ store m a (sieve_jump l a)
unfolding ind_patch_sieve
ind_patch_sieve-stored l a m = let e = jump-Emitted l (record { mem = m; code_ptr = a }) in e.stored

-- The way out becomes a jump to the sieve.
ind_patch_sieve-JumpsTo :
    (l : EnvLayout) (a : ℕ) (m : Memory)
    → l.sieve_stub < 2 ^ 32
    → a + 5 ≤ 2 ^ 32
    → JumpsTo (ind_patch_sieve l a m) a l.sieve_stub
ind_patch_sieve-JumpsTo l a m lt room =
    let d = sub32 (sub32 l.sieve_stub (a + 1)) 4 in
    subst (λ (n : Memory). JumpsTo n a l.sieve_stub) (sym (ind_patch_sieve-stored l a m))
      (jumps_to (store m a (sieve_jump l a)) a l.sieve_stub d refl lt room
        (store-Spells (sieve_jump l a) m a (sieve_jump-bytes l a)))

ind_patch_sieve-elsewhere :
    (l : EnvLayout) (a : ℕ) (m : Memory) (x : ℕ) → x < a ⊎ a + 5 ≤ x → ind_patch_sieve l a m x ≡ m x
ind_patch_sieve-elsewhere l a m x away =
    ap (λ (n : Memory). n x) (ind_patch_sieve-stored l a m) ∙ store-away (sieve_jump l a) m a x away

full-IsCache :
    (l : EnvLayout) (tb ind_type a : ℕ) (filled : List (ℕ × ℕ)) (entered : Bool) (s : Blocks)
    (m : Memory)
    → l.sieve_stub < 2 ^ 32
    → IsCache l tb ind_type a 0 filled entered s m
    → IsCache l tb ind_type a 0 filled true s (ind_patch_sieve l (a + 36) m)
full-IsCache l tb ind_type a filled entered s m lt is =
    let count = is.count in
    let total : length (filled ++ []) ≡ 3 = omega (arith, count, length-append filled []) in
    record {
      count = is.count;
      room = is.room;
      sources = is.sources;
      dests = is.dests;
      index = is.index;
      enter = is.enter;
      slots =
          Slots-Agree
            (λ x x_le x_lt.
              ind_patch_sieve-elsewhere l (a + 36) m x (inl (omega (arith, x_lt, total))))
            (λ x x_le x_lt. ind_patch_sieve-elsewhere l (a + 36) m x (inr (omega (arith, x_le))))
            is.slots;
      way = ind_patch_sieve-JumpsTo l (a + 36) m lt (omega (arith, is.room));
    }

-- The first `n` of a list of misses.
abbrev pub first_of : ℕ → List (ℕ × ℕ) → List (ℕ × ℕ)
first_of zero ms = []
first_of (suc n) [] = []
first_of (suc n) (p ∷ ms) = p ∷ first_of n ms

-- Misses: the guest address that was wanted, and the block that was found for it.
unfoldable pub patch_all : EnvLayout → ℕ → List (ℕ × ℕ) → Blocks → Memory → Blocks × Memory
patch_all l tb [] s m = (s, m)
patch_all l tb ((eip, dest) ∷ ms) s m =
    let r = patch_ind_opt l tb dest eip s m in patch_all l tb ms r.0 r.1

-- Each with the code of the block.
abbrev pub resolved : (ℕ → ℕ) → List (ℕ × ℕ) → List (ℕ × ℕ)
resolved code [] = []
resolved code ((eip, dest) ∷ ms) = (eip, code dest) ∷ resolved code ms

abbrev pub AreAddresses : List (ℕ × ℕ) → Type 0
AreAddresses [] = Unit {0}
AreAddresses ((eip, dest) ∷ ms) = (eip < 2 ^ 32) × AreAddresses ms

-- The two branches of a miss.
patch-open :
    (l : EnvLayout) (tb dest eip : ℕ) (s : Blocks) (m : Memory)
    → (s.tbs tb).jmp_ind_index < 3
    → patch_ind_opt l tb dest eip s m ≡ patch_jmp_target tb eip (s.tbs dest).tc_ptr s m
unfolding patch_ind_opt
patch-open l tb dest eip s m lt = rw (lt→ltb (s.tbs tb).jmp_ind_index 3 lt) refl

patch-full :
    (l : EnvLayout) (tb dest eip : ℕ) (s : Blocks) (m : Memory)
    → 3 ≤ (s.tbs tb).jmp_ind_index
    → patch_ind_opt l tb dest eip s m ≡ (s, ind_patch_sieve l (s.tbs tb).ind_enter_sieve m)
unfolding patch_ind_opt
patch-full l tb dest eip s m le = rw (le→not_ltb (s.tbs tb).jmp_ind_index 3 le) refl

Kept-trans :
    (a : ℕ) (s s₁ s₂ : Blocks) (m m₁ m₂ : Memory)
    → Kept a s s₁ m m₁
    → Kept a s₁ s₂ m₁ m₂
    → Kept a s s₂ m m₂
Kept-trans a s s₁ s₂ m m₁ m₂ k k' = record {
  outside = λ x away. k'.outside x away ∙ k.outside x away;
  codes = λ i. k'.codes i ∙ k.codes i;
}

outside-way : (a x : ℕ) → x < a ⊎ a + 68 + 30 ≤ x → x < a + 36 ⊎ a + 36 + 5 ≤ x
outside-way a x (inl h) = inl (omega (arith, h))
outside-way a x (inr h) = inr (omega (arith, h))

-- The slots left, the pairs in the slots, and the way out, miss by miss.
abbrev pub left_after : ℕ → List (ℕ × ℕ) → ℕ
left_after zero [] = zero
left_after zero (p ∷ ms) = left_after zero ms
left_after (suc n) [] = suc n
left_after (suc n) (p ∷ ms) = left_after n ms

abbrev pub pairs_after : List (ℕ × ℕ) → ℕ → List (ℕ × ℕ) → List (ℕ × ℕ)
pairs_after filled zero [] = filled
pairs_after filled zero (p ∷ ms) = pairs_after filled zero ms
pairs_after filled (suc n) [] = filled
pairs_after filled (suc n) (p ∷ ms) = pairs_after (filled ++ p ∷ []) n ms

abbrev pub entered_after : Bool → ℕ → List (ℕ × ℕ) → Bool
entered_after entered zero [] = entered
entered_after entered zero (p ∷ ms) = entered_after true zero ms
entered_after entered (suc n) [] = entered
entered_after entered (suc n) (p ∷ ms) = entered_after entered n ms

append_nil : (xs : List (ℕ × ℕ)) → xs ++ [] ≡ xs
append_nil [] = refl
append_nil (x ∷ xs) = ap (λ (r : List (ℕ × ℕ)). x ∷ r) (append_nil xs)

next_ltb : (n k : ℕ) → ltb n k ≡ ltb (suc n) (suc k)
next_ltb n k = ground arith

pub pairs_after-first_of :
    (filled : List (ℕ × ℕ)) (n : ℕ) (ms : List (ℕ × ℕ))
    → pairs_after filled n ms ≡ filled ++ first_of n ms
pairs_after-first_of filled zero [] = sym (append_nil filled)
pairs_after-first_of filled zero (p ∷ ms) = pairs_after-first_of filled zero ms
pairs_after-first_of filled (suc n) [] = sym (append_nil filled)
pairs_after-first_of filled (suc n) (p ∷ ms) =
    pairs_after-first_of (filled ++ p ∷ []) n ms ∙ append_assoc filled (p ∷ []) (first_of n ms)

entered_after-true : (ms : List (ℕ × ℕ)) → entered_after true 0 ms ≡ true
entered_after-true [] = refl
entered_after-true (p ∷ ms) = entered_after-true ms

pub entered_after-more : (n : ℕ) (ms : List (ℕ × ℕ)) → entered_after false n ms ≡ ltb n (length ms)
entered_after-more zero [] = refl
entered_after-more zero (p ∷ ms) =
    entered_after-true ms ∙ sym (lt→ltb 0 (suc (length ms)) (omega arith))
entered_after-more (suc n) [] = sym (le→not_ltb (suc n) 0 (omega arith))
entered_after-more (suc n) (p ∷ ms) = entered_after-more n ms ∙ next_ltb n (length ms)

module _ (l : EnvLayout) (tb ind_type a : ℕ) (code : ℕ → ℕ) where
  -- The cache and what is unchanged since `s` and `m`.
  abbrev pub After : ℕ → List (ℕ × ℕ) → Bool → Blocks → Memory → Blocks × Memory → Type 0
  After left filled entered s m r =
      IsCache l tb ind_type a left filled entered r.0 r.1 × Kept a s r.0 m r.1

  patch-open-After :
      (left eip dest : ℕ) (filled : List (ℕ × ℕ)) (entered : Bool) (s : Blocks) (m : Memory)
      → (s.tbs dest).tc_ptr ≡ code dest
      → code dest < 2 ^ 32
      → eip < 2 ^ 32
      → IsCache l tb ind_type a (suc left) filled entered s m
      → After left (filled ++ (eip, code dest) ∷ []) entered s m (patch_ind_opt l tb dest eip s m)
  patch-open-After left eip dest filled entered s m is_code code_lt lt is =
      let path =
        patch-open l tb dest eip s m (omega (arith, is.index, is.count))
        ∙ ap (λ (c : ℕ). patch_jmp_target tb eip c s m) is_code in
      subst (After left (filled ++ (eip, code dest) ∷ []) entered s m) (sym path)
        (patched-IsCache l tb ind_type a left eip (code dest) filled entered s m lt code_lt is)

  patch-full-After :
      (eip dest : ℕ) (filled : List (ℕ × ℕ)) (entered : Bool) (s : Blocks) (m : Memory)
      → l.sieve_stub < 2 ^ 32
      → IsCache l tb ind_type a 0 filled entered s m
      → After 0 filled true s m (patch_ind_opt l tb dest eip s m)
  patch-full-After eip dest filled entered s m lt is =
      let path =
        patch-full l tb dest eip s m (omega (arith, is.index, is.count))
        ∙ ap (λ (e : ℕ). (s, ind_patch_sieve l e m)) is.enter in
      subst (After 0 filled true s m) (sym path) (
        full-IsCache l tb ind_type a filled entered s m lt is,
        record {
          outside = λ x away. ind_patch_sieve-elsewhere l (a + 36) m x (outside-way a x away);
          codes = λ i. refl;
        },
      )

  unchanged : (s : Blocks) (m : Memory) → Kept a s s m m
  unchanged s m = record { outside = λ x away. refl; codes = λ i. refl }

  -- After any sequence of misses the first ones are in the slots, and with more misses than slots the
  -- way out leads to the sieve.
  pub patch_all-After :
      (ms : List (ℕ × ℕ)) (left : ℕ) (filled : List (ℕ × ℕ)) (entered : Bool) (s : Blocks)
      (m : Memory)
      → ((i : ℕ) → (s.tbs i).tc_ptr ≡ code i)
      → ((i : ℕ) → code i < 2 ^ 32)
      → l.sieve_stub < 2 ^ 32
      → AreAddresses ms
      → IsCache l tb ind_type a left filled entered s m
      → After
          (left_after left (resolved code ms))
          (pairs_after filled left (resolved code ms))
          (entered_after entered left (resolved code ms))
          s
          m
          (patch_all l tb ms s m)
  unfolding patch_all
  patch_all-After [] zero filled entered s m codes lts lt words is = (is, unchanged s m)
  patch_all-After [] (suc left) filled entered s m codes lts lt words is = (is, unchanged s m)
  patch_all-After ((eip, dest) ∷ ms) zero filled entered s m codes lts lt (w, words) is =
      let r = patch_ind_opt l tb dest eip s m in
      let (now, kept) = patch-full-After eip dest filled entered s m lt is in
      let (later, kept') =
        patch_all-After ms 0 filled true r.0 r.1 (λ i. kept.codes i ∙ codes i) lts lt words now in
      let q = patch_all l tb ms r.0 r.1 in (later, Kept-trans a s r.0 q.0 m r.1 q.1 kept kept')
  patch_all-After ((eip, dest) ∷ ms) (suc left) filled entered s m codes lts lt (w, words) is =
      let r = patch_ind_opt l tb dest eip s m in
      let (now, kept) =
        patch-open-After left eip dest filled entered s m (codes dest) (lts dest) w is in
      let (later, kept') =
        patch_all-After ms left (filled ++ (eip, code dest) ∷ []) entered r.0 r.1
          (λ i. kept.codes i ∙ codes i) lts lt words now in
      let q = patch_all l tb ms r.0 r.1 in (later, Kept-trans a s r.0 q.0 m r.1 q.1 kept kept')

-- A cache in a memory that agrees on its 98 bytes.
pub IsCache-Agree :
    (l : EnvLayout) (tb ind_type a left : ℕ) (filled : List (ℕ × ℕ)) (entered : Bool) (s : Blocks)
    (m n : Memory)
    → Agree m n a (landing a + 30)
    → IsCache l tb ind_type a left filled entered s m
    → IsCache l tb ind_type a left filled entered s n
IsCache-Agree l tb ind_type a left filled entered s m n same is =
    let h = landing a + 10 * length filled in
    let total : length (filled ++ unfilled left h) ≡ 3 =
      omega (arith, is.count, length-append filled (unfilled left h), unfilled-length left h) in
    record {
      count = is.count;
      room = is.room;
      sources = is.sources;
      dests = is.dests;
      index = is.index;
      enter = is.enter;
      slots =
          Slots-Agree (λ x le lt. same x le (omega (arith, lt, total)))
            (λ x le lt. same x (omega (arith, le)) (omega (arith, lt, total))) is.slots;
      way =
          WayOut-Agree l tb ind_type (a + 36) entered
            (λ x le lt. same x (omega (arith, le)) (omega (arith, lt))) is.way;
    }
