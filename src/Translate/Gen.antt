-- ===== src/Translate/Gen.antt =====
-- target-i386/translate.c: `gen_target_code`, one block's translation.
use unitrans.Blocks.State.{not_trans_yet, update}
use unitrans.Cache.Code.{need_patch_32, EnvLayout}
use unitrans.Common.{
  ltb, leb, ◌==◌, if◌then◌else◌, length, u16, u32, sub32, not, suc, [], ◌+◌, ◌-◌, ◌&&◌, ◌||◌, ℕ,
  Bool, ◌∷◌, zero, ◌*◌, ◌^◌,
}
use unitrans.Common.Tried.{Tried, result, abort, no_fuel}
use unitrans.Decode.Fetch.{Code}
use unitrans.Decode.Insn.{simple_disas_insn}
use unitrans.Decode.OpCode.{EmitFn, Pointer, null, function, table}
use unitrans.Decode.Run.{Run}
use unitrans.Decode.State.{Decode}
use unitrans.Link.Patch.{lazy_patch}
use unitrans.Link.State.{patch_array_size, Linker, Layout}
use unitrans.Translate.Calls.{
  emit_call_disp, emit_call_near_mem, emit_jmp_near_mem, emit_ret, emit_ret_iw, emit_sysenter,
}
use unitrans.Translate.Jumps.{
  emit_normal, open_jump, func_of, emit_jcond, emit_other_jcond, emit_jmp, emit_int,
}
use unitrans.Translate.State.{Trans, emitting, with_blocks, note_jump}

unfoldable pub run_emitter : Code → EnvLayout → ℕ → Decode → Trans → EmitFn → Tried (Bool × Trans)
unfolding emit_normal emit_jcond emit_other_jcond emit_jmp emit_int emit_call_disp
    emit_call_near_mem emit_jmp_near_mem emit_ret emit_ret_iw emit_sysenter
run_emitter m l fuel ds t EmitFn.emit_normal = emit_normal m t
run_emitter m l fuel ds t EmitFn.emit_jcond = emit_jcond m fuel ds t
run_emitter m l fuel ds t EmitFn.emit_other_jcond = emit_other_jcond fuel ds t
run_emitter m l fuel ds t EmitFn.emit_jmp = emit_jmp m l fuel ds t
run_emitter m l fuel ds t EmitFn.emit_int = emit_int m l ds t
run_emitter m l fuel ds t EmitFn.emit_call_disp = emit_call_disp l fuel ds t
run_emitter m l fuel ds t EmitFn.emit_call_near_mem = emit_call_near_mem l fuel ds t
run_emitter m l fuel ds t EmitFn.emit_jmp_near_mem = emit_jmp_near_mem l ds t
run_emitter m l fuel ds t EmitFn.emit_ret = emit_ret l t
run_emitter m l fuel ds t EmitFn.emit_ret_iw = emit_ret_iw l ds t
run_emitter m l fuel ds t EmitFn.emit_sysenter = emit_sysenter t

-- The emitter that the decoder found; a call through NULL is a fault, and so is the use of a table.
unfoldable pub run_emitfn : Code → EnvLayout → ℕ → Decode → Trans → Pointer → Tried (Bool × Trans)
unfolding run_emitter
run_emitfn m l fuel ds t null = abort
run_emitfn m l fuel ds t (table x) = abort
run_emitfn m l fuel ds t (function f) = run_emitter m l fuel ds t f

abbrev pub max_insns : ℕ
max_insns = 1024 * 8

-- How a translation ends: with the state, by an abort or a fault, with no rounds left, or with no fuel
-- left for the prefixes of an instruction or for a search.
pub data Outcome : Type 0 where
  finished : Trans → Outcome
  aborted : Outcome
  out_of_rounds : Outcome
  fuel_spent : Outcome

-- The decoded instruction at work; a read out of the opcode tables is a fault.
unfoldable pub emit_decoded :
    Code → EnvLayout → ℕ → Trans → Run (Bool × Decode) → Tried (Bool × Trans)
unfolding run_emitfn
emit_decoded m l fuel t Run.bad_table = abort
emit_decoded m l fuel t Run.out_of_fuel = no_fuel
emit_decoded m l fuel t (Run.ok (defined, ds)) =
    run_emitfn m l fuel ds
      (record t { insn_len = sub32 ds.decode_eip t.pc_ptr; pc_ptr = ds.decode_eip }) ds.emitfn

-- One instruction: it is decoded into `ds`, whose old contents the decoder overwrites, and emitted.
unfoldable pub translate_insn : Code → EnvLayout → ℕ → Decode → Trans → Tried (Bool × Trans)
unfolding simple_disas_insn emit_decoded
translate_insn m l fuel ds t = emit_decoded m l fuel t (simple_disas_insn fuel m ds t.pc_ptr)

abbrev pub count_insn : Trans → Trans
count_insn t =
    let b = t.linker.blocks in
    with_blocks
      (record b {
        tbs =
            update b.tbs t.cur_tb
              (record (b.tbs t.cur_tb) { insn_count = u32 ((b.tbs t.cur_tb).insn_count + 1) });
      })
      t

-- The block ends in a jump to its next instruction. A block of which nothing is emitted yet is marked.
abbrev pub unmark : Trans → Trans
unmark t =
    let b = t.linker.blocks in
    let tb = b.tbs t.cur_tb in
    if tb.tc_ptr == t.code_ptr
    then with_blocks
        (record b { tbs = update b.tbs t.cur_tb (record tb { tc_ptr = not_trans_yet }) }) t
    else t

unfoldable pub cut_block : Trans → Tried Trans
unfolding note_jump
cut_block t =
    let t₁ = emitting (open_jump (0xe9 ∷ []) need_patch_32) (unmark t) in
    note_jump t₁.pc_ptr (func_of t₁) t₁

-- `sieve_count` is never changed from 0.
abbrev pub must_cut : ℕ → Trans → Bool
must_cut num_insns t =
    leb (patch_array_size - 2) (length t.linker.patch_array) || leb max_insns num_insns

abbrev pub ended : Tried Trans → Outcome
ended abort = aborted
ended no_fuel = fuel_spent
ended (result t) = finished t

-- What follows an instruction: the end of the block, its cut, or the next instruction.
abbrev pub after_insn : ℕ → Tried (Bool × Trans) → (Trans → Outcome) → Outcome
after_insn num_insns abort rest = aborted
after_insn num_insns no_fuel rest = fuel_spent
after_insn num_insns (result (cont_trans, t)) rest =
    let t₁ = count_insn t in
    if not cont_trans
    then finished t₁
    else if must_cut num_insns t₁
    then ended (cut_block t₁)
    else rest t₁

unfoldable pub gen_loop : ℕ → Code → EnvLayout → ℕ → Decode → ℕ → Trans → Outcome
unfolding translate_insn cut_block
gen_loop zero m l fuel ds num_insns t = out_of_rounds
gen_loop (suc f) m l fuel ds num_insns t =
    after_insn num_insns (translate_insn m l fuel ds t) (gen_loop f m l fuel ds (num_insns + 1))

abbrev pub stb_max : ℕ
stb_max = 1024 * 50 * 10

abbrev pub default_code_gen_buffer_size : ℕ
default_code_gen_buffer_size = 128 * 1024 * 1024

-- Behind the loop: the jumps get their destinations, and the block its size. `code_gen_buffer` is the
-- address of the buffer; the difference of the pointers is compared as a signed word.
abbrev pub close_block : ℕ → ℕ → Trans → Linker → Outcome
close_block code_gen_buffer tb t s =
    let b = s.blocks in
    let size = sub32 t.code_ptr code_gen_buffer in
    let b₁ = record b {
      code_gen_size = size;
      tbs =
          update b.tbs tb
            (record (b.tbs tb) { hcode_size = u16 (sub32 t.code_ptr (b.tbs tb).tc_ptr) });
    } in
    if ltb default_code_gen_buffer_size size && ltb size (2 ^ 31)
    then aborted
    else finished (record t { linker = record s { blocks = b₁ } })

abbrev pub patched_block : ℕ → ℕ → Trans → Tried Linker → Outcome
patched_block code_gen_buffer tb t abort = aborted
patched_block code_gen_buffer tb t no_fuel = fuel_spent
patched_block code_gen_buffer tb t (result s) = close_block code_gen_buffer tb t s

unfoldable pub finish_block : Layout → ℕ → ℕ → ℕ → Outcome → Outcome
unfolding lazy_patch
finish_block l fuel code_gen_buffer tb aborted = aborted
finish_block l fuel code_gen_buffer tb out_of_rounds = out_of_rounds
finish_block l fuel code_gen_buffer tb fuel_spent = fuel_spent
finish_block l fuel code_gen_buffer tb (finished t) =
    patched_block code_gen_buffer tb t (lazy_patch l fuel t.linker)

-- The block `tb` from its first instruction; `stb_count` blocks were translated before.
abbrev pub start_trans : ℕ → Trans → Trans
start_trans tb t =
    let b = t.linker.blocks in
    record t {
      linker = record t.linker { patch_array = [] };
      code_ptr = (b.tbs tb).tc_ptr;
      pc_ptr = (b.tbs tb).pc;
      cur_tb = tb;
    }

unfoldable pub gen_target_code :
    ℕ → Code → EnvLayout → Layout → ℕ → Decode → ℕ → ℕ → ℕ → Trans → Outcome
unfolding gen_loop finish_block
gen_target_code rounds m l lay fuel ds stb_count code_gen_buffer tb t =
    let body = gen_loop rounds m l fuel ds 0 (start_trans tb t) in
    if leb stb_max (stb_count + 1) then aborted else finish_block lay fuel code_gen_buffer tb body
