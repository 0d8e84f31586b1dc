-- ===== src/Blocks/Tests.antt =====
-- The blocks on small structures, and the theorems applied to them.
use unitrans.Blocks.Creation.{made, is_full}
use unitrans.Blocks.Find.{tb_find_fast}
use unitrans.Blocks.Growth.{made-Grown}
use unitrans.Blocks.Hash.{tb_jmp_cache_hash_func}
use unitrans.Blocks.Insertion.{Made, grown-IsLinked, make_tb-Made}
use unitrans.Blocks.Invariant.{IsLinked, Answers}
use unitrans.Blocks.Lookup.{Found, tb_find_fast-Found}
use unitrans.Blocks.Make.{make_tb}
use unitrans.Blocks.Ring.{note_all, IsRing, Recorded, note_all-Recorded}
use unitrans.Blocks.State.{patch_max, tb_from_max, ind_slot_max, Block, Blocks}
use unitrans.Common.{
  replicate, false, ◌⊎◌, true, ◌∷◌, none, Option, arith, refl, some, ◌%◌, ◌+◌, List, ◌≡◌, [], ℕ,
}
use unitrans.Common.Maybe.{◌>>=◌}

abbrev pub zero_block : Block
zero_block = record {
  pc = 0;
  func_addr = 0;
  tb_tag = 0;
  hcode_size = 0;
  insn_count = 0;
  ind_miss_count = 0;
  ind_replace_count = 0;
  tc_ptr = 0;
  phys_hash_next = none;
  patch_num = 0;
  tb_jmp_offset = replicate patch_max 0;
  jmp_from = replicate tb_from_max none;
  jmp_from_num = replicate tb_from_max 0;
  jmp_from_index = 0;
  ind_kind = 0;
  jind_src_addr = replicate ind_slot_max 0;
  jind_dest_addr = replicate ind_slot_max 0;
  mru_src = 0;
  mru_dest = 0;
  jmp_ind = 0;
  jmp_ind_index = 0;
  ind_enter_sieve = 0;
  retransed = false;
}

-- The structure that a program starts with: all is zero.
abbrev pub empty : Blocks
empty = record {
  tbs = λ i. zero_block;
  nb_tbs = 0;
  code_gen_max_blocks = 2;
  code_gen_size = 0;
  code_gen_buffer_max_size = 1024;
  tb_phys_hash = λ h. none;
  tb_jmp_cache = λ h. none;
}

pub empty-IsLinked : IsLinked empty
empty-IsLinked = record {
  heads = λ h i p. cc;
  nexts = λ i j lt p. cc;
  chained = λ i lt. absurd (omega (arith, lt));
  cached = λ h i p. cc;
  unique = λ i j lt. absurd (omega (arith, lt));
}

empty-free : (pc tag : ℕ) → Answers empty pc tag none
empty-free pc tag = λ i held. absurd (omega (arith, held.0))

abbrev pub one : Blocks
one = made 0x1000 0x1000 empty

pub one-IsLinked : IsLinked one
one-IsLinked = grown-IsLinked (made-Grown 0x1000 0x1000 empty) empty-IsLinked (empty-free 0x1000 0)

make_tb-Made_example :
    ((is_full empty ≡ true) × (make_tb 0x1000 0x1000 7 empty ≡ none))
    ⊎ ((is_full empty ≡ false)
        × ((out : ℕ × Blocks) × (make_tb 0x1000 0x1000 7 empty ≡ some out)
            × Made 0x1000 0x1000 empty out))
make_tb-Made_example = make_tb-Made 0x1000 0x1000 7 empty empty-IsLinked (empty-free 0x1000 0)

tb_find_fast-Found_example :
    (out : Option ℕ × Blocks) × (tb_find_fast 3 0x2000 0 one ≡ some out) × Found one 0x2000 0 out
unfolding made
tb_find_fast-Found_example = tb_find_fast-Found 3 0x2000 0 one one-IsLinked (omega arith)

abbrev three_jumps : List (ℕ × ℕ)
three_jumps = (4, 0) ∷ (5, 1) ∷ (4, 2) ∷ []

pub zero_block-IsRing : IsRing zero_block
zero_block-IsRing = record { from_length = refl; num_length = refl; in_range = omega arith }

note_all-Recorded_example :
    IsRing (note_all three_jumps zero_block)
    × Recorded
        (note_all three_jumps zero_block)
        ((zero_block.jmp_from_index + 1) % tb_from_max)
        (5, 1)
note_all-Recorded_example =
    note_all-Recorded three_jumps zero_block 1 (5, 1) zero_block-IsRing refl (omega arith)

-- Two addresses with one hash value share a chain, and each is found.
abbrev collide : Option (Option ℕ × ℕ)
collide = do
  (i, s) ← make_tb 0x1000 0 0 empty
  (j, t) ← make_tb 0x9000 0 0 s
  (r, u) ← tb_find_fast 3 0x1000 0 t
  some (r, u.nb_tbs)

collide_found : collide ≡ some (some 0, 2)
unfolding make_tb tb_find_fast tb_jmp_cache_hash_func
collide_found = refl
