-- ===== src/Logging/Tests.antt =====
-- Lists of names, and the theorem applied to one.
use unitrans.Common.{all, some, refl, ◌∷◌, ◌++◌, ℕ, List, ◌≡◌, []}
use unitrans.Logging.Items.{
  comma, all_name, memcmp, cmp1, item_of, rest_of, find_item, all_masks, add_item, next_item,
  log_mask_loop, cpu_str_to_log_mask,
}
use unitrans.Logging.Mask.{
  join, is_name, same_text, mask_named, masks_in, stands_for, all_of, bits_of,
  cpu_str_to_log_mask-join,
}

abbrev exec_name : List ℕ
exec_name = 101 ∷ 120 ∷ 101 ∷ 99 ∷ []

unknown_name : cpu_str_to_log_mask (exec_name ++ comma ∷ exec_name ++ comma ∷ []) ≡ some 0
unfolding cpu_str_to_log_mask log_mask_loop next_item add_item find_item all_masks cmp1 memcmp
    item_of rest_of
unknown_name = refl

cpu_str_to_log_mask-join_example : cpu_str_to_log_mask (exec_name ++ comma ∷ all_name) ≡ some 895
unfolding join all_of stands_for mask_named masks_in same_text bits_of is_name all
cpu_str_to_log_mask-join_example = cpu_str_to_log_mask-join exec_name (all_name ∷ []) refl refl
