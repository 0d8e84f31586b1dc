-- ===== src/Translate/State.antt =====
-- The state of a translation, and the steps that the emitters share (target-i386/translate.c).
use unitrans.Blocks.Find.{tb_find_fast}
use unitrans.Blocks.Make.{make_tb, tb_add_jmp_from}
use unitrans.Blocks.State.{normal_tb_tag, Blocks, update}
use unitrans.Common.{
  if◌then◌else◌, set, u16, u32, sub32, has, [], true, bit_and, none, some, ◌+◌, ◌*◌, false, ◌∷◌,
  List, suc, Option, Bool, ◌-◌, ℕ, zero,
}
use unitrans.Common.Tried.{◌>>=◌, Tried, result, abort, of_search, of_step}
use unitrans.Decode.Fetch.{Code}
use unitrans.Decode.State.{opstate_data32, Decode}
use unitrans.Emit.Memory.{Out, emit, code_emit8, code_emit32}
use unitrans.Link.Patch.{note_patch, translated}
use unitrans.Link.State.{Linker}

-- `linker` has the blocks, the memory and `patch_array`; the other fields are `env->code_ptr`,
-- `cgc->pc_ptr`, `cgc->insn_len` and `cur_tb`.
pub record Trans : Type 0 where
  pub linker : Linker
  pub code_ptr : ℕ
  pub pc_ptr : ℕ
  pub insn_len : ℕ
  pub cur_tb : ℕ

-- An emission at `env->code_ptr`.
abbrev pub out_of : Trans → Out
out_of t = record { mem = t.linker.out.mem; code_ptr = t.code_ptr }

abbrev pub emitting : (Out → Out) → Trans → Trans
emitting f t =
    let o = f (out_of t) in
    record t {
      linker = record t.linker { out = record { mem = o.mem; code_ptr = t.linker.out.code_ptr } };
      code_ptr = o.code_ptr;
    }

abbrev pub with_blocks : Blocks → Trans → Trans
with_blocks b t = record t { linker = record t.linker { blocks = b } }

-- The jump whose displacement ends at `env->code_ptr` wants the destination `to`.
unfoldable pub note_jump : ℕ → ℕ → Trans → Tried Trans
unfolding note_patch
note_jump to func_addr t = do
  s ← of_step (
      note_patch
        (record {
          place = t.code_ptr - 4;
          to = to;
          tb = t.cur_tb;
          func_addr = func_addr;
          tb_tag = normal_tb_tag;
        })
        t.linker)
  result (record t { linker = s })

-- `RET_HASH_FUNC`.
abbrev pub ret_hash_mask : ℕ
ret_hash_mask = 0xffff

abbrev pub ret_hash_func : ℕ → ℕ → ℕ
ret_hash_func base i = u32 (base + bit_and i ret_hash_mask * 4)

-- An instruction that is copied as it is: its bytes in the guest's code.
unfoldable pub bytes_from : Code → ℕ → ℕ → List ℕ
bytes_from m a zero = []
bytes_from m a (suc n) = m a ∷ bytes_from m (u32 (a + 1)) n

unfoldable pub copy_insn : Code → Trans → Trans
unfolding bytes_from
copy_insn m t = emitting (emit (bytes_from m (sub32 t.pc_ptr t.insn_len) t.insn_len)) t

-- The continuation behind an instruction that ends a block: a jump to the block that is there already, or
-- the start of another block at this place.
unfoldable pub join_block : ℕ → Trans → Trans
unfolding tb_add_jmp_from
join_block i t =
    let b = t.linker.blocks in
    let dest = (b.tbs i).tc_ptr in
    let t₁ = emitting (code_emit8 0xe9) t in
    let t₂ = emitting (code_emit32 (sub32 (sub32 dest t₁.code_ptr) 4)) t₁ in
    let tb = b.tbs t.cur_tb in
    let offset = u16 (sub32 (sub32 t₂.code_ptr tb.tc_ptr) 4) in
    let b₁ = record b {
      tbs =
          update b.tbs t.cur_tb
            (record tb { tb_jmp_offset = set tb.tb_jmp_offset tb.patch_num offset });
    } in
    with_blocks (tb_add_jmp_from t.cur_tb i tb.patch_num b₁) t₂

abbrev pub start_block : ℕ → Trans → Trans
start_block i t =
    let b = t.linker.blocks in
    record (with_blocks
      (record b { tbs = update b.tbs i (record (b.tbs i) { tc_ptr = t.code_ptr }) }) t) {
        cur_tb = i;
      }

unfoldable pub continue_at : Option ℕ → Trans → Tried (Bool × Trans)
unfolding make_tb translated join_block
continue_at none t = do
  (i, b) ←
      of_step
        (make_tb t.pc_ptr (t.linker.blocks.tbs t.cur_tb).func_addr normal_tb_tag t.linker.blocks)
  result (true, start_block i (with_blocks b t))
continue_at (some i) t = elim (translated t.linker.blocks (some i)) [
  | some dest ↦ result (false, join_block i t)
  | none ↦ result (true, start_block i t)
]

unfoldable pub trans_next : ℕ → Decode → Trans → Tried (Bool × Trans)
unfolding tb_find_fast continue_at
trans_next fuel ds t =
    let rest = (do
      (found, b) ← of_search (tb_find_fast fuel t.pc_ptr normal_tb_tag t.linker.blocks)
      continue_at found (with_blocks b t)) in
    if has ds.opstate opstate_data32 then rest else abort
