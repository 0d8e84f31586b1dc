-- ===== src/Blocks/Make.antt =====
-- exec.c: `tb_alloc`, `tb_link_page`, `make_tb`, `tb_free` and `tb_add_jmp_from`.
use unitrans.Blocks.Hash.{tb_jmp_cache_hash_func, tb_phys_hash_func}
use unitrans.Blocks.State.{not_trans_yet, patch_max, tb_from_max, Block, Blocks, update}
use unitrans.Common.{
  ltb, leb, ◌==◌, if◌then◌else◌, set, replicate, u8, Option, none, ◌-◌, some, ◌&&◌, ◌+◌, false, ℕ,
  ◌||◌,
}
use unitrans.Common.Maybe.{◌>>=◌}

unfoldable pub tb_alloc : ℕ → Blocks → Option (ℕ × Blocks)
tb_alloc pc s =
    if leb s.code_gen_max_blocks s.nb_tbs || leb s.code_gen_buffer_max_size s.code_gen_size
    then none
    else some (
      s.nb_tbs,
      record s {
        nb_tbs = s.nb_tbs + 1;
        tbs = update s.tbs s.nb_tbs (record (s.tbs s.nb_tbs) { pc = pc });
      },
    )

-- The fields that `make_tb` sets; the rest of the block keeps what the array held.
unfoldable pub fresh_block : ℕ → Block → Block
fresh_block func_addr tb = record tb {
  tc_ptr = not_trans_yet;
  insn_count = 0;
  func_addr = func_addr;
  tb_tag = 0;
  tb_jmp_offset = replicate patch_max 0;
  jmp_from_index = 0;
  jmp_ind_index = 0;
  ind_miss_count = 0;
  mru_src = 0;
  mru_dest = 0;
  ind_replace_count = 0;
  retransed = false;
  patch_num = 0;
}

-- The new block becomes the head of the chain of its address.
unfoldable pub tb_link_page : ℕ → ℕ → Blocks → Blocks
tb_link_page i phys_pc s =
    let h = tb_phys_hash_func phys_pc in
    record s {
      tbs = update s.tbs i (record (s.tbs i) { phys_hash_next = s.tb_phys_hash h });
      tb_phys_hash = update s.tb_phys_hash h (some i);
    }

-- `none` is the abort in `tb_flush`. The argument for the tag is overwritten by 0.
unfoldable pub make_tb : ℕ → ℕ → ℕ → Blocks → Option (ℕ × Blocks)
unfolding tb_alloc fresh_block tb_link_page
make_tb pc func_addr tb_tag s = do
  (i, s₁) ← tb_alloc pc s
  let s₂ = record s₁ { tbs = update s₁.tbs i (fresh_block func_addr (s₁.tbs i)) }
  let s₃ = tb_link_page i pc s₂
  some (i, record s₃ { tb_jmp_cache = update s₃.tb_jmp_cache (tb_jmp_cache_hash_func pc) (some i) })

-- Only the last block can be given back.
unfoldable pub tb_free : ℕ → Blocks → (ℕ → ℕ) → Blocks
tb_free i s size_at =
    if ltb 0 s.nb_tbs && i == s.nb_tbs - 1
    then record s { code_gen_size = size_at (s.tbs i).tc_ptr; nb_tbs = s.nb_tbs - 1 }
    else s

-- `jmp_from` is a ring of `TB_FROM_MAX` entries: `tb` jumps to this block by its stub `n`.
unfoldable pub note_jmp_from : ℕ → ℕ → Block → Block
note_jmp_from tb n b =
    let k = b.jmp_from_index in
    record b {
      jmp_from = set b.jmp_from k (some tb);
      jmp_from_num = set b.jmp_from_num k (u8 n);
      jmp_from_index = if k + 1 == tb_from_max then 0 else k + 1;
    }

unfoldable pub tb_add_jmp_from : ℕ → ℕ → ℕ → Blocks → Blocks
tb_add_jmp_from tb next_tb n s = record s {
  tbs = update s.tbs next_tb (note_jmp_from tb n (s.tbs next_tb));
}
