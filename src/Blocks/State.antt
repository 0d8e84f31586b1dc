-- ===== src/Blocks/State.antt =====
-- exec-all.h: `TranslationBlock`, and the variables of exec.c that hold the blocks. A pointer to a
-- block is its index in `tbs`, and NULL is `none`.
use unitrans.Common.{◌==◌, if◌then◌else◌, Option, Bool, List, ℕ}

abbrev pub not_trans_yet : ℕ
not_trans_yet = 0xdeadbeaf

abbrev pub patch_max : ℕ
patch_max = 8

abbrev pub tb_from_max : ℕ
tb_from_max = 16

abbrev pub ind_slot_max : ℕ
ind_slot_max = 3

abbrev pub normal_tb_tag : ℕ
normal_tb_tag = 0

pub record Block : Type 0 where
  pub pc : ℕ
  pub func_addr : ℕ
  pub tb_tag : ℕ
  pub hcode_size : ℕ
  pub insn_count : ℕ
  pub ind_miss_count : ℕ
  pub ind_replace_count : ℕ
  pub tc_ptr : ℕ
  pub phys_hash_next : Option ℕ
  pub patch_num : ℕ
  pub tb_jmp_offset : List ℕ
  pub jmp_from : List (Option ℕ)
  pub jmp_from_num : List ℕ
  pub jmp_from_index : ℕ
  pub ind_kind : ℕ
  pub jind_src_addr : List ℕ
  pub jind_dest_addr : List ℕ
  pub mru_src : ℕ
  pub mru_dest : ℕ
  pub jmp_ind : ℕ
  pub jmp_ind_index : ℕ
  pub ind_enter_sieve : ℕ
  pub retransed : Bool

-- `tb_jmp_cache` is the field of `env`; `code_gen_size` is `code_gen_ptr - code_gen_buffer`.
pub record Blocks : Type 0 where
  pub tbs : ℕ → Block
  pub nb_tbs : ℕ
  pub code_gen_max_blocks : ℕ
  pub code_gen_size : ℕ
  pub code_gen_buffer_max_size : ℕ
  pub tb_phys_hash : ℕ → Option ℕ
  pub tb_jmp_cache : ℕ → Option ℕ

-- A write to one element of an array.
abbrev pub update {ℓ} : {A : Type ℓ} → (ℕ → A) → ℕ → A → ℕ → A
update f i v j = if j == i then v else f j
