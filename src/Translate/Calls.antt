-- ===== src/Translate/Calls.antt =====
-- target-i386/translate.c: the emitters of calls, returns and indirect jumps, with the return cache.
-- IND_OPT, SIEVE_OPT and RET_CACHE are on. The counters of `cgc` are statistics and are left out.
use unitrans.Blocks.State.{update}
use unitrans.Cache.Code.{
  need_patch_32, need_patch_8, EnvLayout, cemit_sieve_nopush, patch_byte, cemit_ind_opt,
}
use unitrans.Common.{◌==◌, if◌then◌else◌, u32, sub32, has, Bool, ℕ, ◌&&◌, ◌+◌, false, ◌||◌}
use unitrans.Common.Tried.{◌>>=◌, Tried, result, abort, of_step}
use unitrans.Decode.State.{opstate_data32, modrm_rm, modrm_reg, modrm_mod, sib_base, Decode}
use unitrans.Emit.Memory.{store, le32, Out, code_emit8, code_emit32, ◌▷◌}
use unitrans.Translate.Jumps.{emit_push_rm, func_of}
use unitrans.Translate.State.{
  Trans, out_of, emitting, with_blocks, note_jump, ret_hash_mask, ret_hash_func, trans_next,
}

-- The code behind a call, which the entry of the return cache at `place` names: it compares the
-- address that is returned to with the one behind the call.
abbrev pub rc_test : ℕ → Out → Out
rc_test pc_ptr o =
    o
    ▷ code_emit8 0x51
    ▷ code_emit8 0x8b
    ▷ code_emit8 0x4c
    ▷ code_emit8 0x24
    ▷ code_emit8 4
    ▷ code_emit8 0x8d
    ▷ code_emit8 0x89
    ▷ code_emit32 (sub32 0 pc_ptr)
    ▷ code_emit8 0xe3

abbrev pub drop_two : Out → Out
drop_two o =
    o ▷ code_emit8 0x59 ▷ code_emit8 0x8d ▷ code_emit8 0x64 ▷ code_emit8 0x24 ▷ code_emit8 4

abbrev pub store_word : ℕ → ℕ → Out → Out
store_word place val o = record { mem = store o.mem place (le32 val); code_ptr = o.code_ptr }

unfoldable pub cemit_rc_cmp : EnvLayout → ℕ → ℕ → Out → Out
unfolding cemit_sieve_nopush
cemit_rc_cmp l pc_ptr place o =
    let o₁ = rc_test pc_ptr (store_word place o.code_ptr o) in
    let o₂ = cemit_sieve_nopush l (code_emit8 need_patch_8 o₁) in
    drop_two (patch_byte o₁.code_ptr (sub32 (sub32 o₂.code_ptr o₁.code_ptr) 1) o₂)

abbrev pub call_front : EnvLayout → ℕ → Trans → Trans
call_front l jmp_target t =
    emitting
      (λ (o : Out).
        o
        ▷ code_emit8 0x68
        ▷ code_emit32 t.pc_ptr
        ▷ code_emit8 0xc7
        ▷ code_emit8 0x05
        ▷ code_emit32 (ret_hash_func l.ret_hash_table jmp_target))
      t

abbrev pub call_jump : Trans → Trans
call_jump t =
    emitting (λ (o : Out). o ▷ code_emit32 need_patch_32 ▷ code_emit8 0xe9 ▷ code_emit32 0) t

unfoldable pub emit_call_disp : EnvLayout → ℕ → Decode → Trans → Tried (Bool × Trans)
unfolding note_jump cemit_rc_cmp trans_next
emit_call_disp l fuel ds t =
    let jmp_target = u32 (t.pc_ptr + ds.immediate) in
    let t₁ = call_front l jmp_target t in
    let rest = (do
      t₃ ← note_jump jmp_target jmp_target (call_jump t₁)
      trans_next fuel ds (emitting (cemit_rc_cmp l t.pc_ptr t₁.code_ptr) t₃)) in
    if has ds.opstate opstate_data32 then rest else abort

-- The operand is read relative to %esp, which the push of the return address moves.
unfoldable pub dest_based_on_esp : Decode → Bool
dest_based_on_esp ds =
    modrm_reg ds.modrm == 4
    || (if modrm_mod ds.modrm == 3
        then modrm_rm ds.modrm == 4
        else modrm_rm ds.modrm == 4 && sib_base ds.sib == 4)

abbrev pub push_next : Trans → Trans
push_next t = emitting (λ (o : Out). o ▷ code_emit8 0x68 ▷ code_emit32 t.pc_ptr) t

abbrev pub push_under : Trans → Trans
push_under t =
    emitting
      (λ (o : Out).
        o
        ▷ code_emit8 0xff
        ▷ code_emit8 0x34
        ▷ code_emit8 0x24
        ▷ code_emit8 0xc7
        ▷ code_emit8 0x44
        ▷ code_emit8 0x24
        ▷ code_emit8 0x4
        ▷ code_emit32 t.pc_ptr)
      t

-- The return address and the target on the stack, in this order.
unfoldable pub push_both : Decode → Trans → Tried Trans
unfolding emit_push_rm dest_based_on_esp
push_both ds t =
    let swapped = (do t₁ ← emit_push_rm ds t; result (push_under t₁)) in
    if dest_based_on_esp ds then swapped else emit_push_rm ds (push_next t)

-- The inline cache of the block that is being translated.
unfoldable pub emit_cache : EnvLayout → ℕ → Trans → Tried Trans
unfolding cemit_ind_opt
emit_cache l ind_type t = do
  (b, o) ← of_step (cemit_ind_opt l t.cur_tb ind_type t.linker.blocks (out_of t))
  result (with_blocks b (emitting (λ (o' : Out). o) t))

abbrev pub ind_type_call : ℕ
ind_type_call = 1

abbrev pub ind_type_jmp : ℕ
ind_type_jmp = 2

abbrev pub set_kind : ℕ → Trans → Trans
set_kind k t =
    let b = t.linker.blocks in
    with_blocks
      (record b { tbs = update b.tbs t.cur_tb (record (b.tbs t.cur_tb) { ind_kind = k }) }) t

abbrev pub rc_entry : EnvLayout → Trans → Trans
rc_entry l t =
    emitting
      (λ (o : Out).
        o
        ▷ code_emit8 0x51
        ▷ code_emit8 0x8b
        ▷ code_emit8 0x4c
        ▷ code_emit8 0x24
        ▷ code_emit8 4
        ▷ code_emit8 0x81
        ▷ code_emit8 0xe1
        ▷ code_emit32 ret_hash_mask
        ▷ code_emit8 0xc7
        ▷ code_emit8 0x04
        ▷ code_emit8 0x8d
        ▷ code_emit32 l.ret_hash_table)
      t

abbrev pub rc_place : Trans → Trans
rc_place t = emitting (λ (o : Out). o ▷ code_emit32 need_patch_32 ▷ code_emit8 0x59) t

unfoldable pub emit_call_near_mem : EnvLayout → ℕ → Decode → Trans → Tried (Bool × Trans)
unfolding push_both emit_cache cemit_rc_cmp trans_next
emit_call_near_mem l fuel ds t = do
  t₁ ← push_both ds (set_kind ind_type_call t)
  let t₂ = rc_entry l t₁
  let t₃ = rc_place t₂
  t₄ ← emit_cache l ind_type_call t₃
  trans_next fuel ds (emitting (cemit_rc_cmp l t₄.pc_ptr t₂.code_ptr) t₄)

abbrev pub note_function : EnvLayout → Trans → Trans
note_function l t =
    emitting
      (λ (o : Out).
        o
        ▷ code_emit8 0xc7
        ▷ code_emit8 0x05
        ▷ code_emit32 l.ind_dest_addr
        ▷ code_emit32 (t.linker.blocks.tbs t.cur_tb).func_addr)
      t

unfoldable pub emit_jmp_near_mem : EnvLayout → Decode → Trans → Tried (Bool × Trans)
unfolding emit_push_rm emit_cache
emit_jmp_near_mem l ds t = do
  t₂ ← emit_push_rm ds (note_function l (set_kind ind_type_jmp t))
  t₃ ← emit_cache l ind_type_jmp t₂
  result (false, t₃)

-- A return jumps through the entry of the return cache of its function.
abbrev pub return_jump : EnvLayout → ℕ → Out → Out
return_jump l func o =
    o ▷ code_emit8 0xff ▷ code_emit8 0x25 ▷ code_emit32 (ret_hash_func l.ret_hash_table func)

unfoldable pub emit_ret : EnvLayout → Trans → Tried (Bool × Trans)
emit_ret l t = result (false, emitting (return_jump l (func_of t)) t)

-- The return address is moved behind the arguments that are dropped.
abbrev pub drop_arguments : ℕ → Out → Out
drop_arguments imm16 o =
    let o₁ =
      o ▷ code_emit8 0x8f ▷ code_emit8 0x84 ▷ code_emit8 0x24 ▷ code_emit32 (sub32 imm16 4) in
    if imm16 == 4
    then o₁
    else o₁ ▷ code_emit8 0x8d ▷ code_emit8 0xa4 ▷ code_emit8 0x24 ▷ code_emit32 (sub32 imm16 4)

unfoldable pub emit_ret_iw : EnvLayout → Decode → Trans → Tried (Bool × Trans)
emit_ret_iw l ds t =
    result (false, emitting (λ (o : Out). return_jump l (func_of t) (drop_arguments ds.imm16 o)) t)

unfoldable pub emit_sysenter : Trans → Tried (Bool × Trans)
emit_sysenter t = result (false, t)
