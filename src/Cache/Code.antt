-- ===== src/Cache/Code.antt =====
-- target-i386/translate.c: `cemit_exit_tb`, `cemit_sieve`, `cemit_sieve_nopush`, `ind_patch_sieve` and
-- `cemit_ind_opt`; cpu-exec.c: `patch_jmp_target` and `patch_ind_opt`. IND_TGT_TH and RETRANS_IND are off.
use unitrans.Blocks.State.{ind_slot_max, Block, Blocks, update}
use unitrans.Common.{
  ltb, if◌then◌else◌, get_or, u8, u32, sub32, ◌+◌, suc, ◌∷◌, none, ℕ, some, [], List, map, zero,
  Option,
}
use unitrans.Common.Maybe.{◌>>=◌}
use unitrans.Emit.Memory.{Memory, store, le32, Out, code_emit8, code_emit32, ◌▷◌}

abbrev pub need_patch_32 : ℕ
need_patch_32 = 0x5a5a

abbrev pub need_patch_8 : ℕ
need_patch_8 = 0x5a

-- Where the fields of `env` are that the emitted code writes, and what it jumps to; and the number of
-- the system call `exit_group`.
pub record EnvLayout : Type 0 where
  pub eip_addr : ℕ
  pub ret_tb_addr : ℕ
  pub ind_type_addr : ℕ
  pub ind_dest_addr : ℕ
  pub ret_hash_table : ℕ
  pub env_addr : ℕ
  pub exit_stub : ℕ
  pub tb_ret_addr : ℕ
  pub sieve_stub : ℕ
  pub nr_exit_group : ℕ
  pub block_addr : ℕ → ℕ

-- `movl $val, (addr)`, where there is a value; -1 is `none`.
abbrev pub emit_field : ℕ → Option ℕ → Out → Out
emit_field addr none o = o
emit_field addr (some val) o =
    o ▷ code_emit8 0xc7 ▷ code_emit8 0x05 ▷ code_emit32 addr ▷ code_emit32 val

unfoldable pub cemit_exit_tb : EnvLayout → Option ℕ → Option ℕ → Out → Out
cemit_exit_tb l ret_tb ind_type o =
    let o₁ =
      o
      ▷ code_emit8 0x59
      ▷ code_emit8 0x8f
      ▷ code_emit8 0x05
      ▷ code_emit32 l.eip_addr
      ▷ emit_field l.ret_tb_addr ret_tb
      ▷ emit_field l.ind_type_addr ind_type
      ▷ code_emit8 0xe9 in
    code_emit32 (sub32 (sub32 l.tb_ret_addr o₁.code_ptr) 4) o₁

unfoldable pub cemit_sieve_nopush : EnvLayout → Out → Out
cemit_sieve_nopush l o =
    let o₁ = o ▷ code_emit8 0xe9 in code_emit32 (sub32 (sub32 l.sieve_stub o₁.code_ptr) 4) o₁

unfoldable pub cemit_sieve : EnvLayout → Out → Out
unfolding cemit_sieve_nopush
cemit_sieve l o = o ▷ code_emit8 0x51 ▷ cemit_sieve_nopush l

-- The jump to the sieve is written over the code that leaves the cache.
unfoldable pub ind_patch_sieve : EnvLayout → ℕ → Memory → Memory
unfolding cemit_sieve_nopush
ind_patch_sieve l enter_sieve_ptr m =
    (cemit_sieve_nopush l (record { mem = m; code_ptr = enter_sieve_ptr })).mem

-- The first loop: the tests of the slots, and for each slot the place of its guest address and of the
-- distance of its branch.
abbrev pub emit_load : Out → Out
emit_load o =
    o
    ▷ code_emit8 0x8b
    ▷ code_emit8 0x4c
    ▷ code_emit8 0x24
    ▷ code_emit8 4
    ▷ code_emit8 0x8d
    ▷ code_emit8 0x89

abbrev pub emit_test : Out → Out
emit_test o = o ▷ code_emit32 (sub32 0 need_patch_32) ▷ code_emit8 0xe3

unfoldable pub emit_tests : ℕ → Out → Out × List (ℕ × ℕ)
emit_tests zero o = (o, [])
emit_tests (suc n) o =
    let o₁ = emit_load o in
    let o₂ = emit_test o₁ in
    let rest = emit_tests n (code_emit8 need_patch_8 o₂) in
    (rest.0, (o₁.code_ptr, o₂.code_ptr) ∷ rest.1)

-- The second loop: where the branches land. `none` is the abort for a distance over a byte.
abbrev pub emit_hit : Out → Out
emit_hit o =
    o
    ▷ code_emit8 0x59
    ▷ code_emit8 0x8d
    ▷ code_emit8 0x64
    ▷ code_emit8 0x24
    ▷ code_emit8 4
    ▷ code_emit8 0xe9

abbrev pub patch_byte : ℕ → ℕ → Out → Out
patch_byte place val o = record { mem = store o.mem place (u8 val ∷ []); code_ptr = o.code_ptr }

unfoldable pub emit_hits : List (ℕ × ℕ) → Out → Option (Out × List ℕ)
emit_hits [] o = some (o, [])
emit_hits ((src, place) ∷ places) o =
    let jmp_offset = sub32 (sub32 o.code_ptr place) 1 in
    let o₁ = emit_hit (patch_byte place jmp_offset o) in
    let rest = emit_hits places (code_emit32 need_patch_32 o₁) in
    if ltb 0xff jmp_offset then none else (do (o₂, dests) ← rest; some (o₂, o₁.code_ptr ∷ dests))

-- The slots of a block: what `cemit_ind_opt` puts into its fields.
abbrev pub slots_into : List (ℕ × ℕ) → List ℕ → ℕ → Block → Block
slots_into places dests enter b = record b {
  jind_src_addr = map (λ (p : ℕ × ℕ). p.0) places;
  jind_dest_addr = dests;
  ind_enter_sieve = enter;
}

unfoldable pub cemit_ind_opt : EnvLayout → ℕ → ℕ → Blocks → Out → Option (Blocks × Out)
unfolding cemit_exit_tb emit_tests emit_hits
cemit_ind_opt l cur_tb m_ind_type s o =
    let tests = emit_tests ind_slot_max (code_emit8 0x51 o) in
    let o₁ = cemit_exit_tb l (some (l.block_addr cur_tb)) (some m_ind_type) tests.0 in
    do
      (o₂, dests) ← emit_hits tests.1 o₁
      some (
        record s {
          tbs = update s.tbs cur_tb (slots_into tests.1 dests tests.0.code_ptr (s.tbs cur_tb));
        },
        o₂,
      )

-- A miss in the cache: the next slot is filled; when all are, the sieve is entered from then on.
unfoldable pub patch_jmp_target : ℕ → ℕ → ℕ → Blocks → Memory → Blocks × Memory
patch_jmp_target tb src_addr dest_addr s m =
    let b = s.tbs tb in
    let k = b.jmp_ind_index in
    let place = get_or b.jind_dest_addr k 0 in
    let m₁ = store m (get_or b.jind_src_addr k 0) (le32 (sub32 0 src_addr)) in
    (
      record s { tbs = update s.tbs tb (record b { jmp_ind = 0; jmp_ind_index = u32 (k + 1) }) },
      store m₁ place (le32 (sub32 (sub32 dest_addr place) 4)),
    )

unfoldable pub patch_ind_opt : EnvLayout → ℕ → ℕ → ℕ → Blocks → Memory → Blocks × Memory
unfolding patch_jmp_target ind_patch_sieve
patch_ind_opt l prev_tb tb eip s m =
    let b = s.tbs prev_tb in
    if ltb b.jmp_ind_index ind_slot_max
    then patch_jmp_target prev_tb eip (s.tbs tb).tc_ptr s m
    else (s, ind_patch_sieve l b.ind_enter_sieve m)
