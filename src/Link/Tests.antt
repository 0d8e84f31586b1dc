-- ===== src/Link/Tests.antt =====
-- The linking of blocks at concrete addresses, and the theorems applied to it.
use unitrans.Blocks.Creation.{made}
use unitrans.Blocks.Invariant.{IsLinked}
use unitrans.Blocks.Relinked.{SameLinks-IsLinked}
use unitrans.Blocks.Ring.{IsRing}
use unitrans.Blocks.State.{Block, Blocks}
use unitrans.Blocks.Tests.{zero_block, empty, one, one-IsLinked}
use unitrans.Common.{refl, [], ◌+◌, arith, ◌∷◌, inl, ℕ, ◌≡◌, ◌*◌, ◌%◌}
use unitrans.Common.Tried.{result}
use unitrans.Link.Chained.{Joined, tb_add_jump-Joined}
use unitrans.Link.Jump.{tb_add_jump}
use unitrans.Link.Patch.{patch_one}
use unitrans.Link.Round.{Patched, patch_one-Patched}
use unitrans.Link.State.{PatchEntry, Linker, Layout}

-- Blocks whose code is 0x100 bytes apart, each with a jump at distance 0x20.
abbrev some_block : ℕ → Block
some_block i = record zero_block { tc_ptr = 0x3000 + i % 16 * 0x100; tb_jmp_offset = 0x20 ∷ [] }

abbrev spare : Blocks
spare = record empty { tbs = some_block }

spare-IsLinked : IsLinked spare
spare-IsLinked = record {
  heads = λ h i p. cc;
  nexts = λ i j lt p. cc;
  chained = λ i lt. absurd (omega (arith, lt));
  cached = λ h i p. cc;
  unique = λ i j lt. absurd (omega (arith, lt));
}

abbrev linker : Linker
linker = record {
  blocks = spare;
  out = record { mem = λ x. 0; code_ptr = 0x200000 };
  patch_array = [];
  patch_num = 0;
  find_dest_count = 0;
}

some_block-IsRing : (i : ℕ) → IsRing (some_block i)
some_block-IsRing i = record { from_length = refl; num_length = refl; in_range = omega arith }

tb_add_jump-Joined_example : Joined 2 0 5 linker (tb_add_jump 2 0 5 linker)
tb_add_jump-Joined_example =
    tb_add_jump-Joined 2 0 5 linker spare-IsLinked (some_block-IsRing 5) (omega arith) (omega arith)

abbrev layout : Layout
layout = record {
  ret_tb_addr = 0x8000;
  patch_num_addr = 0x8004;
  eip_addr = 0x8008;
  tb_ret_addr = 0x9000;
  tb_addr = λ i. 0x10000 + i * 128;
}

abbrev open_jump : PatchEntry
open_jump = record { place = 0x3210; to = 0x8048000; tb = 0; func_addr = 0x8048000; tb_tag = 0 }

-- A block for 0x1000 whose code is at 0x3000.
abbrev with_code : Blocks
with_code = record one {
  tbs = λ i. record (one.tbs i) {
    tc_ptr = 0x3000;
    tb_jmp_offset = 0x20 ∷ [];
    jmp_from = zero_block.jmp_from;
    jmp_from_num = zero_block.jmp_from_num;
    jmp_from_index = 0;
  };
}

with_code-IsLinked : IsLinked with_code
with_code-IsLinked =
    SameLinks-IsLinked
      (record {
        count = refl;
        heads = refl;
        cache = refl;
        pcs = λ i. refl;
        tags = λ i. refl;
        nexts = λ i. refl;
      })
      one-IsLinked

abbrev before_round : Linker
before_round = record linker { blocks = with_code }

patch_one-Patched_example :
    (t : Linker) × (patch_one layout 5 open_jump before_round ≡ result t)
    × Patched layout open_jump before_round t
unfolding made
patch_one-Patched_example =
    patch_one-Patched layout 5 open_jump before_round with_code-IsLinked refl (omega arith)
      (omega arith) refl (omega arith) (omega arith) (inl (omega arith)) (λ i. omega arith)
      (λ i. record { from_length = refl; num_length = refl; in_range = omega arith })
