-- ===== src/Link/Patch.antt =====
-- target-i386/translate.c: `note_patch` and `lazy_patch`.
use unitrans.Blocks.Find.{tb_find_fast}
use unitrans.Blocks.Make.{make_tb, tb_add_jmp_from}
use unitrans.Blocks.State.{not_trans_yet, patch_max, Blocks, update}
use unitrans.Common.{
  leb, ◌==◌, if◌then◌else◌, length, set, u16, u32, sub32, ◌++◌, ℕ, [], ◌||◌, ◌+◌, some, List,
  Option, ◌∷◌, none,
}
use unitrans.Common.Tried.{◌>>=◌, Tried, result, of_search, of_step}
use unitrans.Emit.Memory.{Memory, store, le32, Out, code_emit8, code_emit32, ◌▷◌}
use unitrans.Link.State.{patch_array_size, PatchEntry, Linker, Layout}

-- The guard on `PATCH_MAX` reads the field of `env`, as the source does. `none` is an abort.
unfoldable pub note_patch : PatchEntry → Linker → Option Linker
note_patch p s =
    if leb patch_array_size (length s.patch_array) || leb patch_max s.patch_num
    then none
    else let b = s.blocks in
      let tb = b.tbs p.tb in
      some (record s {
        patch_array = s.patch_array ++ p ∷ [];
        blocks = record b {
          tbs = update b.tbs p.tb (record tb { patch_num = u32 (tb.patch_num + 1) });
        };
      })

-- The block of the jump gives up one of its open jumps and keeps the offset of the jump.
unfoldable pub close_jump : ℕ → ℕ → Blocks → Blocks
close_jump i place b =
    let tb = b.tbs i in
    let n = sub32 tb.patch_num 1 in
    record b {
      tbs = update b.tbs i (record tb {
        patch_num = n;
        tb_jmp_offset = set tb.tb_jmp_offset n (u16 (sub32 place tb.tc_ptr));
      });
    }

-- The block that is found, if it is translated.
unfoldable pub translated : Blocks → Option ℕ → Option ℕ
translated b none = none
translated b (some i) = if (b.tbs i).tc_ptr == not_trans_yet then none else some i

-- The code that leaves the cache for an address that is not translated yet.
unfoldable pub emit_exit_stub : Layout → ℕ → ℕ → ℕ → Out → Out
emit_exit_stub l tb n to o =
    let o₁ =
      o
      ▷ code_emit8 0xc7
      ▷ code_emit8 0x05
      ▷ code_emit32 l.ret_tb_addr
      ▷ code_emit32 (l.tb_addr tb)
      ▷ code_emit8 0xc7
      ▷ code_emit8 0x05
      ▷ code_emit32 l.patch_num_addr
      ▷ code_emit32 n
      ▷ code_emit8 0xc7
      ▷ code_emit8 0x05
      ▷ code_emit32 l.eip_addr
      ▷ code_emit32 to
      ▷ code_emit8 0xe9 in
    code_emit32 (sub32 (sub32 l.tb_ret_addr o₁.code_ptr) 4) o₁

abbrev pub point_at : ℕ → ℕ → Memory → Memory
point_at place to m = store m place (le32 (sub32 (sub32 to place) 4))

-- The branch of the loop's body for a destination that is translated.
unfoldable pub patch_direct : PatchEntry → ℕ → Linker → Linker
unfolding close_jump tb_add_jmp_from
patch_direct p dest s =
    let b = close_jump p.tb p.place s.blocks in
    record s {
      find_dest_count = u32 (s.find_dest_count + 1);
      out = record {
        mem = point_at p.place (s.blocks.tbs dest).tc_ptr s.out.mem;
        code_ptr = s.out.code_ptr;
      };
      blocks = tb_add_jmp_from p.tb dest (b.tbs p.tb).patch_num b;
    }

-- And the other one, behind the creation of the block.
unfoldable pub patch_stub : Layout → PatchEntry → Linker → Linker
unfolding close_jump emit_exit_stub
patch_stub l p s =
    let b = close_jump p.tb p.place s.blocks in
    let m = point_at p.place s.out.code_ptr s.out.mem in
    record s {
      blocks = b;
      out =
          emit_exit_stub l p.tb (b.tbs p.tb).patch_num p.to
            (record { mem = m; code_ptr = s.out.code_ptr });
    }

unfoldable pub ensure_tb : Option ℕ → PatchEntry → Blocks → Tried Blocks
unfolding make_tb
ensure_tb (some i) p b = result b
ensure_tb none p b = do (i, b') ← of_step (make_tb p.to p.func_addr p.tb_tag b); result b'

-- The body of the loop of `lazy_patch`.
unfoldable pub patch_one : Layout → ℕ → PatchEntry → Linker → Tried Linker
unfolding tb_find_fast translated patch_direct patch_stub ensure_tb
patch_one l fuel p s = do
  (found, b) ← of_search (tb_find_fast fuel p.to p.tb_tag s.blocks)
  let s₁ = record s { blocks = b }
  elim (translated b found) [
    | some dest ↦ result (patch_direct p dest s₁)
    | none ↦ do b' ← ensure_tb found p b; result (patch_stub l p (record s₁ { blocks = b' }))
  ]

unfoldable pub patch_each : Layout → ℕ → List PatchEntry → Linker → Tried Linker
patch_each l fuel [] s = result s
patch_each l fuel (p ∷ rest) s = do s₁ ← patch_one l fuel p s; patch_each l fuel rest s₁

unfoldable pub lazy_patch : Layout → ℕ → Linker → Tried Linker
unfolding patch_each
lazy_patch l fuel s = patch_each l fuel s.patch_array s
