-- ===== src/Logging/Mask.antt =====
-- What `cpu_str_to_log_mask` of exec.c makes of a list of names.
use unitrans.Common.{
  ◌==◌, if◌then◌else◌, Bool-cases, and_left, and_right, not-true, length, length-append, all, ◌+◌,
  not, sym, inl, List, refl, ◌&&◌, none, [], ◌∷◌, some, ◌∙◌, false, ℕ, ap₂, ◌<◌, ◌≤◌, ap, Bool, suc,
  ◌++◌, ◌≡◌, inr, zero, true, arith, Option, bit_or,
}
use unitrans.Common.Maybe.{◌>>=◌}
use unitrans.Logging.Items.{
  comma, cpu_log_items, all_name, memcmp, cmp1, item_of, rest_of, find_item, all_masks, add_item,
  next_item, log_mask_loop, cpu_str_to_log_mask,
}

-- The names with a comma between each two.
unfoldable pub join : List ℕ → List (List ℕ) → List ℕ
join n [] = n
join n (n' ∷ ns) = n ++ comma ∷ join n' ns

unfoldable pub is_name : List ℕ → Bool
is_name n = all (λ c. not (c == comma)) n

unfoldable pub same_text : List ℕ → List ℕ → Bool
same_text [] [] = true
same_text [] (y ∷ ys) = false
same_text (x ∷ xs) [] = false
same_text (x ∷ xs) (y ∷ ys) = x == y && same_text xs ys

-- The mask of the first entry with exactly this name.
unfoldable pub mask_named : List (ℕ × List ℕ) → List ℕ → Option ℕ
mask_named [] n = none
mask_named ((mask, name) ∷ items) n = if same_text n name then some mask else mask_named items n

unfoldable pub masks_in : List (ℕ × List ℕ) → List ℕ
masks_in [] = []
masks_in ((mask, name) ∷ items) = mask ∷ masks_in items

-- What a name stands for: "all" for every mask of the table, another one for the mask of its entry.
unfoldable pub stands_for : List ℕ → Option (List ℕ)
stands_for n =
    if same_text n all_name
    then some (masks_in cpu_log_items ++ 0 ∷ [])
    else mask_named cpu_log_items n >>= (λ m. some (m ∷ []))

unfoldable pub all_of : List (List ℕ) → Option (List ℕ)
all_of [] = some []
all_of (n ∷ ns) = stands_for n >>= (λ ms. all_of ns >>= (λ rest. some (ms ++ rest)))

-- All the bits of some masks, with those of a first one.
unfoldable pub bits_of : ℕ → List ℕ → ℕ
bits_of mask [] = mask
bits_of mask (m ∷ ms) = bits_of (bit_or mask m) ms

bits_of-append :
    (mask : ℕ) (xs ys : List ℕ) → bits_of mask (xs ++ ys) ≡ bits_of (bits_of mask xs) ys
unfolding bits_of
bits_of-append mask [] ys = refl
bits_of-append mask (x ∷ xs) ys = bits_of-append (bit_or mask x) xs ys

cmp1_lem : (s name : List ℕ) → cmp1 s name ≡ same_text s name
unfolding cmp1 memcmp same_text
cmp1_lem [] [] = refl
cmp1_lem [] (y ∷ ys) = ground arith
cmp1_lem (x ∷ xs) [] = ground arith
cmp1_lem (x ∷ xs) (y ∷ ys) = ground (arith, cmp1_lem xs ys)

find_item_lem : (items : List (ℕ × List ℕ)) (s : List ℕ) → find_item items s ≡ mask_named items s
unfolding find_item mask_named
find_item_lem [] s = refl
find_item_lem ((mask, name) ∷ items) s = rw (cmp1_lem s name, find_item_lem items s) refl

all_masks_lem :
    (items : List (ℕ × List ℕ)) (mask : ℕ) → all_masks items mask ≡ bits_of mask (masks_in items)
unfolding all_masks bits_of masks_in
all_masks_lem [] mask = refl
all_masks_lem ((m, name) ∷ items) mask = all_masks_lem items (bit_or mask m)

abbrev with_bits : ℕ → Option (List ℕ) → Option ℕ
with_bits mask none = none
with_bits mask (some ms) = some (bits_of mask ms)

one_bits :
    (mask : ℕ) (o : Option ℕ)
    → (elim o [ none ↦ none | some m ↦ some (bit_or mask m) ])
      ≡ with_bits mask (o >>= (λ m. some (m ∷ [])))
unfolding bits_of
one_bits mask none = refl
one_bits mask (some m) = refl

all_bits :
    (mask : ℕ)
    → some (bit_or (all_masks cpu_log_items mask) 0)
      ≡ with_bits mask (some (masks_in cpu_log_items ++ 0 ∷ []))
unfolding bits_of
all_bits mask =
    ap (λ (k : ℕ). some (bit_or k 0)) (all_masks_lem cpu_log_items mask)
    ∙ ap some (sym (bits_of-append mask (masks_in cpu_log_items) (0 ∷ [])))

add_item_lem : (mask : ℕ) (s : List ℕ) → add_item mask s ≡ with_bits mask (stands_for s)
unfolding add_item stands_for
add_item_lem mask s =
    rw (cmp1_lem s all_name, find_item_lem cpu_log_items s)
      (elim (Bool-cases (same_text s all_name)) [
        | inl every ↦ rw every (all_bits mask)
        | inr one ↦ rw one (one_bits mask (mask_named cpu_log_items s))
      ])

-- The masks with the names' bits, one name after the other.
unfoldable masks_of : ℕ → List (List ℕ) → Option ℕ
masks_of mask [] = some mask
masks_of mask (n ∷ ns) = add_item mask n >>= (λ m. masks_of m ns)

named_bits :
    (mask : ℕ) (o rest : Option (List ℕ)) (f : ℕ → Option ℕ)
    → ((m : ℕ) → f m ≡ with_bits m rest)
    → (with_bits mask o >>= f) ≡ with_bits mask (o >>= (λ ms. rest >>= (λ more. some (ms ++ more))))
named_bits mask none rest f h = refl
named_bits mask (some ms) none f h = h (bits_of mask ms)
named_bits mask (some ms) (some more) f h =
    h (bits_of mask ms) ∙ ap some (sym (bits_of-append mask ms more))

masks_of_lem : (mask : ℕ) (ns : List (List ℕ)) → masks_of mask ns ≡ with_bits mask (all_of ns)
unfolding masks_of all_of bits_of
masks_of_lem mask [] = refl
masks_of_lem mask (n ∷ ns) =
    ap (λ (o : Option ℕ). o >>= (λ m. masks_of m ns)) (add_item_lem mask n)
    ∙ named_bits mask (stands_for n) (all_of ns) (λ m. masks_of m ns) (λ m. masks_of_lem m ns)

unfoldable pub or_zero : Option ℕ → ℕ
or_zero none = 0
or_zero (some m) = m

item-alone : (n : List ℕ) → is_name n ≡ true → item_of n ≡ n
unfolding item_of is_name all
item-alone [] h = refl
item-alone (c ∷ n) h =
    rw (not-true (and_left (all (λ c. not (c == comma)) n) h))
      (ap (λ xs. c ∷ xs) (item-alone n (and_right (not (c == comma)) h)))

rest-alone : (n : List ℕ) → is_name n ≡ true → rest_of n ≡ []
unfolding rest_of is_name all
rest-alone [] h = refl
rest-alone (c ∷ n) h =
    rw (not-true (and_left (all (λ c. not (c == comma)) n) h))
      (rest-alone n (and_right (not (c == comma)) h))

item-first : (n r : List ℕ) → is_name n ≡ true → item_of (n ++ comma ∷ r) ≡ n
unfolding item_of is_name all
item-first [] r h = refl
item-first (c ∷ n) r h =
    rw (not-true (and_left (all (λ c. not (c == comma)) n) h))
      (ap (λ xs. c ∷ xs) (item-first n r (and_right (not (c == comma)) h)))

rest-first : (n r : List ℕ) → is_name n ≡ true → rest_of (n ++ comma ∷ r) ≡ comma ∷ r
unfolding rest_of is_name all
rest-first [] r h = refl
rest-first (c ∷ n) r h =
    rw (not-true (and_left (all (λ c. not (c == comma)) n) h))
      (rest-first n r (and_right (not (c == comma)) h))

join-long : (n : List ℕ) (ns : List (List ℕ)) → length ns ≤ length (join n ns)
unfolding join
join-long n [] = omega arith
join-long n (n' ∷ ns) = omega (arith, length-append n (comma ∷ join n' ns), join-long n' ns)

loop-step :
    (fuel mask : ℕ) (p n r : List ℕ)
    → item_of p ≡ n
    → rest_of p ≡ r
    → log_mask_loop (suc fuel) mask p ≡ next_item (log_mask_loop fuel) (add_item mask n) r
unfolding log_mask_loop
loop-step fuel mask p n r h h' =
    ap₂ (λ (s t : List ℕ). next_item (log_mask_loop fuel) (add_item mask s) t) h h'

last-item :
    (loop : ℕ → List ℕ → Option ℕ) (item : Option ℕ)
    → next_item loop item [] ≡ some (or_zero (item >>= some))
unfolding next_item or_zero
last-item loop none = refl
last-item loop (some m) = refl

more-items :
    (loop : ℕ → List ℕ → Option ℕ) (c : ℕ) (p : List ℕ) (f : ℕ → Option ℕ) (item : Option ℕ)
    → ((m : ℕ) → loop m p ≡ some (or_zero (f m)))
    → next_item loop item (c ∷ p) ≡ some (or_zero (item >>= f))
unfolding next_item or_zero
more-items loop c p f none h = refl
more-items loop c p f (some m) h = h m

loop-masks :
    (fuel mask : ℕ) (n : List ℕ) (ns : List (List ℕ))
    → length ns < fuel
    → is_name n ≡ true
    → all is_name ns ≡ true
    → log_mask_loop fuel mask (join n ns) ≡ some (or_zero (masks_of mask (n ∷ ns)))
unfolding join masks_of all
loop-masks zero mask n ns lt h hs = absurd (omega (arith, lt))
loop-masks (suc fuel) mask n [] lt h hs =
    loop-step fuel mask n n [] (item-alone n h) (rest-alone n h)
    ∙ last-item (log_mask_loop fuel) (add_item mask n)
loop-masks (suc fuel) mask n (n' ∷ ns) lt h hs =
    let r = join n' ns in
    loop-step fuel mask (n ++ comma ∷ r) n (comma ∷ r) (item-first n r h) (rest-first n r h)
    ∙ more-items (log_mask_loop fuel) comma r (λ m. masks_of m (n' ∷ ns)) (add_item mask n)
        (λ m.
          loop-masks fuel m n' ns (omega (arith, lt)) (and_left (all is_name ns) hs)
            (and_right (is_name n') hs))

-- 0 if a name is unknown, otherwise the bits of everything that the names stand for.
abbrev pub meaning : Option (List ℕ) → ℕ
meaning none = 0
meaning (some ms) = bits_of 0 ms

meaning_lem : (o : Option (List ℕ)) → or_zero (with_bits 0 o) ≡ meaning o
unfolding or_zero
meaning_lem none = refl
meaning_lem (some ms) = refl

-- On the list of one or more names, with commas between them and none within, the function
-- returns. The result is 0 if some name is neither "all" nor that of an entry of the table.
-- Otherwise it has the bits of all the masks that the names stand for: every mask of the table for
-- "all", and for another name the mask of the first entry that has exactly this name.
pub cpu_str_to_log_mask-join :
    (n : List ℕ) (ns : List (List ℕ))
    → is_name n ≡ true
    → all is_name ns ≡ true
    → cpu_str_to_log_mask (join n ns) ≡ some (meaning (all_of (n ∷ ns)))
unfolding cpu_str_to_log_mask
cpu_str_to_log_mask-join n ns h hs =
    let long = join-long n ns in
    loop-masks (length (join n ns) + 1) 0 n ns (omega (arith, long)) h hs
    ∙ ap (λ (o : Option ℕ). some (or_zero o)) (masks_of_lem 0 (n ∷ ns))
    ∙ ap some (meaning_lem (all_of (n ∷ ns)))
