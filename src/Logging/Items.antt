-- ===== src/Logging/Items.antt =====
-- The table `cpu_log_items` and `cpu_str_to_log_mask` of exec.c. A string is the list of its characters.
use unitrans.Common.{
  ◌==◌, if◌then◌else◌, length, false, true, zero, Bool, ℕ, Option, bit_or, [], List, ◌∷◌, ◌&&◌,
  none, suc, some, ◌+◌,
}

abbrev pub comma : ℕ
comma = 44

-- The masks of the table in its order; DEBUG_IOPORT is not defined.
abbrev pub cpu_log_items : List (ℕ × List ℕ)
cpu_log_items =
    (1, 111 ∷ 117 ∷ 116 ∷ 95 ∷ 97 ∷ 115 ∷ 109 ∷ [])
    ∷ (2, 105 ∷ 110 ∷ 95 ∷ 97 ∷ 115 ∷ 109 ∷ [])
    ∷ (4, 111 ∷ 112 ∷ [])
    ∷ (8, 111 ∷ 112 ∷ 95 ∷ 111 ∷ 112 ∷ 116 ∷ [])
    ∷ (16, 105 ∷ 110 ∷ 116 ∷ [])
    ∷ (32, 101 ∷ 120 ∷ 101 ∷ 99 ∷ [])
    ∷ (256, 99 ∷ 112 ∷ 117 ∷ [])
    ∷ (64, 112 ∷ 99 ∷ 97 ∷ 108 ∷ 108 ∷ [])
    ∷ (512, 99 ∷ 112 ∷ 117 ∷ 95 ∷ 114 ∷ 101 ∷ 115 ∷ 101 ∷ 116 ∷ [])
    ∷ []

abbrev pub all_name : List ℕ
all_name = 97 ∷ 108 ∷ 108 ∷ []

-- The comparison of two strings of one length.
unfoldable pub memcmp : List ℕ → List ℕ → Bool
memcmp [] ys = true
memcmp (x ∷ xs) [] = false
memcmp (x ∷ xs) (y ∷ ys) = x == y && memcmp xs ys

-- `s1` is the `n` characters of the source's `s1`.
unfoldable pub cmp1 : List ℕ → List ℕ → Bool
cmp1 s1 s2 = length s2 == length s1 && memcmp s1 s2

-- The characters up to the next comma, and what begins with that comma.
unfoldable pub item_of : List ℕ → List ℕ
item_of [] = []
item_of (c ∷ p) = if c == comma then [] else c ∷ item_of p

unfoldable pub rest_of : List ℕ → List ℕ
rest_of [] = []
rest_of (c ∷ p) = if c == comma then c ∷ p else rest_of p

unfoldable pub find_item : List (ℕ × List ℕ) → List ℕ → Option ℕ
find_item [] s = none
find_item ((mask, name) ∷ items) s = if cmp1 s name then some mask else find_item items s

unfoldable pub all_masks : List (ℕ × List ℕ) → ℕ → ℕ
all_masks [] mask = mask
all_masks ((item_mask, name) ∷ items) mask = all_masks items (bit_or mask item_mask)

-- The mask with an item added. Behind "all" the item is the table's last, with the mask 0.
unfoldable pub add_item : ℕ → List ℕ → Option ℕ
add_item mask s =
    if cmp1 s all_name
    then some (bit_or (all_masks cpu_log_items mask) 0)
    else elim (find_item cpu_log_items s) [ none ↦ none | some m ↦ some (bit_or mask m) ]

-- Behind an item: the loop goes on behind the comma if there is one, and an unknown item ends it.
unfoldable pub next_item : (ℕ → List ℕ → Option ℕ) → Option ℕ → List ℕ → Option ℕ
next_item loop none rest = some 0
next_item loop (some mask) [] = some mask
next_item loop (some mask) (c ∷ p) = loop mask p

-- No fuel left is `none`.
unfoldable pub log_mask_loop : ℕ → ℕ → List ℕ → Option ℕ
log_mask_loop zero mask p = none
log_mask_loop (suc fuel) mask p =
    next_item (log_mask_loop fuel) (add_item mask (item_of p)) (rest_of p)

unfoldable pub cpu_str_to_log_mask : List ℕ → Option ℕ
cpu_str_to_log_mask str = log_mask_loop (length str + 1) 0 str
