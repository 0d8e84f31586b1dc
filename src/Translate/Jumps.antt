-- ===== src/Translate/Jumps.antt =====
-- target-i386/translate.c: the emitters of jumps, of `int`, and of an instruction that is copied. Each
-- answers whether the translation goes on. The counters of `cgc` are statistics and are left out.
use unitrans.Blocks.Find.{tb_find_fast}
use unitrans.Blocks.Make.{make_tb}
use unitrans.Blocks.State.{normal_tb_tag}
use unitrans.Cache.Code.{need_patch_32, need_patch_8, EnvLayout, patch_byte}
use unitrans.Common.{
  ltb, ◌==◌, if◌then◌else◌, u32, sub32, has, [], bit_and, Option, ◌∷◌, none, ◌+◌, ◌*◌, ◌||◌, bit_or,
  some, ◌&&◌, Bool, List, ℕ, true, false, not,
}
use unitrans.Common.Tried.{◌>>=◌, Tried, result, abort, of_search, of_step}
use unitrans.Decode.Fetch.{Code}
use unitrans.Decode.State.{
  dsfl_group2_prefix, dsfl_group4_prefix, opstate_data32, modrm_rm, modrm_mod, Decode,
}
use unitrans.Emit.Memory.{Out, emit, code_emit8, code_emit16, code_emit32, ◌▷◌}
use unitrans.Translate.State.{
  Trans, emitting, with_blocks, note_jump, ret_hash_func, copy_insn, trans_next,
}

unfoldable pub emit_normal : Code → Trans → Tried (Bool × Trans)
unfolding copy_insn
emit_normal m t = result (true, copy_insn m t)

-- `push` of the operand of an indirect branch, with the modrm byte's reg field set to 6. A prefix
-- of the address size is an abort.
abbrev pub emit_disp : Decode → Out → Out
emit_disp ds o =
    if ds.disp_bytes == 1
    then code_emit8 ds.displacement o
    else if ds.disp_bytes == 2
    then code_emit16 ds.displacement o
    else if ds.disp_bytes == 4
    then code_emit32 ds.displacement o
    else o

abbrev pub push_modrm : ℕ → ℕ
push_modrm byte = modrm_mod byte * 64 + 6 * 8 + modrm_rm byte

unfoldable pub emit_push_rm : Decode → Trans → Tried Trans
emit_push_rm ds t =
    let prefixed =
      λ (o : Out). if has ds.flags dsfl_group2_prefix then code_emit8 ds.group2_prefix o else o in
    let opcode = λ (o : Out). prefixed o ▷ code_emit8 0xff ▷ code_emit8 (push_modrm ds.modrm) in
    let with_sib = λ (o : Out). if ds.need_sib then code_emit8 ds.sib (opcode o) else opcode o in
    if has ds.flags dsfl_group4_prefix
    then abort
    else result (emitting (λ (o : Out). emit_disp ds (with_sib o)) t)

-- A jump of 32 bits that waits for its destination.
abbrev pub open_jump : List ℕ → ℕ → Out → Out
open_jump opcode placeholder o = emit opcode o ▷ code_emit32 placeholder

abbrev pub func_of : Trans → ℕ
func_of t = (t.linker.blocks.tbs t.cur_tb).func_addr

abbrev pub prefix_of : Decode → Out → Out
prefix_of ds o = if has ds.flags dsfl_group2_prefix then code_emit8 ds.group2_prefix o else o

abbrev pub narrow : Decode → ℕ → ℕ
narrow ds a = if has ds.opstate opstate_data32 then a else bit_and a 0xffff

abbrev pub jcond_code : Code → Decode → Trans → Trans
jcond_code m ds t =
    let cond = if m ds.instr == 0x0f then m (u32 (ds.instr + 1)) else m ds.instr in
    emitting
      (λ (o : Out).
        prefix_of ds o
        ▷ code_emit8 0x0f
        ▷ code_emit8 (bit_or (bit_and cond 0x0f) 0x80)
        ▷ code_emit32 need_patch_32)
      t

unfoldable pub emit_jcond : Code → ℕ → Decode → Trans → Tried (Bool × Trans)
unfolding note_jump trans_next
emit_jcond m fuel ds t = do
  let t₁ = jcond_code m ds t
  t₂ ← note_jump (narrow ds (u32 (t.pc_ptr + ds.immediate))) (func_of t₁) t₁
  trans_next fuel ds t₂

-- `jcxz` and the loops keep their opcode with the distance 2, over a short jump around the long one. The
-- distance of the short jump is written last: it is 5.
abbrev pub short_code : Decode → Trans → Trans
short_code ds t =
    emitting
      (λ (o : Out).
        prefix_of ds o ▷ code_emit8 ds.p_entry.index ▷ code_emit8 0x02 ▷ code_emit8 0xeb)
      t

abbrev pub long_code : Trans → Trans
long_code t =
    emitting (λ (o : Out). o ▷ code_emit8 need_patch_8 ▷ code_emit8 0xe9 ▷ code_emit32 0) t

abbrev pub patch_distance : ℕ → Trans → Trans
patch_distance place t = emitting (patch_byte place (sub32 (sub32 t.code_ptr place) 1)) t

unfoldable pub emit_other_jcond : ℕ → Decode → Trans → Tried (Bool × Trans)
unfolding note_jump trans_next
emit_other_jcond fuel ds t = do
  let t₁ = short_code ds t
  let t₂ = long_code t₁
  t₃ ← note_jump (u32 (t.pc_ptr + ds.immediate)) (func_of t₂) t₂
  trans_next fuel ds (patch_distance t₁.code_ptr t₃)

-- The entry of the return cache of one function is copied to that of another.
abbrev pub copy_entry : EnvLayout → ℕ → ℕ → Out → Out
copy_entry l from to o =
    o
    ▷ code_emit8 0xff
    ▷ code_emit8 0x35
    ▷ code_emit32 (ret_hash_func l.ret_hash_table from)
    ▷ code_emit8 0x8f
    ▷ code_emit8 0x05
    ▷ code_emit32 (ret_hash_func l.ret_hash_table to)

-- `push %ebp; movl %esp, %ebp`.
unfoldable pub is_function_patten : Code → ℕ → Bool
is_function_patten m addr =
    m addr == 0x55 && m (u32 (addr + 1)) == 0x89 && m (u32 (addr + 2)) == 0xe5

-- The part of `emit_jmp` for the return cache.
unfoldable pub hand_over : Code → EnvLayout → Option ℕ → ℕ → Trans → Tried Trans
unfolding make_tb is_function_patten
hand_over m l (some i) jmp_target t =
    let func = (t.linker.blocks.tbs i).func_addr in
    if not (func == 0) && not (func == func_of t)
    then result (emitting (copy_entry l (func_of t) func) t)
    else result t
hand_over m l none jmp_target t =
    let made = (do
      (i, b) ← of_step (make_tb jmp_target jmp_target normal_tb_tag t.linker.blocks)
      let t₁ = with_blocks b t
      result (emitting (copy_entry l (func_of t₁) jmp_target) t₁)) in
    if ltb jmp_target (func_of t) || is_function_patten m jmp_target then made else result t

unfoldable pub emit_jmp : Code → EnvLayout → ℕ → Decode → Trans → Tried (Bool × Trans)
unfolding tb_find_fast hand_over note_jump
emit_jmp m l fuel ds t = do
  let jmp_target = narrow ds (u32 (t.pc_ptr + ds.immediate))
  (found, b) ← of_search (tb_find_fast fuel jmp_target normal_tb_tag t.linker.blocks)
  t₁ ← hand_over m l found jmp_target (with_blocks b t)
  let t₂ = emitting (open_jump (0xe9 ∷ []) need_patch_32) t₁
  t₃ ← note_jump jmp_target (func_of t₂) t₂
  result (false, t₃)

-- `int $0x80` asks for `exit_group` first.
abbrev pub emit_exit_test : EnvLayout → Trans → Trans
emit_exit_test l t =
    let t₁ =
      emitting
        (λ (o : Out).
          o ▷ code_emit8 0x9c ▷ code_emit8 0x3d ▷ code_emit32 l.nr_exit_group ▷ code_emit8 0x75)
        t in
    let t₂ =
      emitting
        (λ (o : Out).
          o ▷ code_emit8 need_patch_8 ▷ code_emit8 0x68 ▷ code_emit32 l.env_addr ▷ code_emit8 0xe8)
        t₁ in
    let t₃ =
      emitting
        (λ (o : Out).
          o
          ▷ code_emit32 (sub32 (sub32 l.exit_stub t₂.code_ptr) 4)
          ▷ code_emit8 0x8d
          ▷ code_emit8 0x64
          ▷ code_emit8 0x24
          ▷ code_emit8 4)
        t₂ in
    emitting
      (λ (o : Out).
        patch_byte t₁.code_ptr (sub32 (sub32 t₃.code_ptr t₁.code_ptr) 1) o ▷ code_emit8 0x9d)
      t₃

unfoldable pub emit_int : Code → EnvLayout → Decode → Trans → Tried (Bool × Trans)
unfolding copy_insn
emit_int m l ds t =
    result (true, copy_insn m (if m (u32 (ds.instr + 1)) == 0x80 then emit_exit_test l t else t))
