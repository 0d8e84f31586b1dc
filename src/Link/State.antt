-- ===== src/Link/State.antt =====
-- The state of the linking of blocks: the blocks, the code in memory, and the jumps of the block that
-- is being translated which still want a destination (`patch_entry` in target-i386/cpu.h).
use unitrans.Blocks.State.{Blocks}
use unitrans.Common.{List, ℕ}
use unitrans.Emit.Memory.{Out}

abbrev pub patch_array_size : ℕ
patch_array_size = 256

pub record PatchEntry : Type 0 where
  pub place : ℕ
  pub to : ℕ
  pub tb : ℕ
  pub func_addr : ℕ
  pub tb_tag : ℕ

-- `out` is the memory with `env->sieve_code_ptr`; `patch_num` is the field of `env`.
pub record Linker : Type 0 where
  pub blocks : Blocks
  pub out : Out
  pub patch_array : List PatchEntry
  pub patch_num : ℕ
  pub find_dest_count : ℕ

-- Where the linker puts the fields of `env` that generated code writes, and a block.
pub record Layout : Type 0 where
  pub ret_tb_addr : ℕ
  pub patch_num_addr : ℕ
  pub eip_addr : ℕ
  pub tb_ret_addr : ℕ
  pub tb_addr : ℕ → ℕ
