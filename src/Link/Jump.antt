-- ===== src/Link/Jump.antt =====
-- exec-all.h: `tb_set_jmp_target1`, `tb_set_jmp_target` and `tb_add_jump`.
use unitrans.Blocks.Make.{tb_add_jmp_from}
use unitrans.Blocks.State.{Block}
use unitrans.Common.{get_or, u32, sub32, ◌+◌, ℕ}
use unitrans.Emit.Memory.{Memory, store, le32}
use unitrans.Link.State.{Linker}

unfoldable pub tb_set_jmp_target1 : ℕ → ℕ → Memory → Memory
tb_set_jmp_target1 jmp_addr addr m = store m jmp_addr (le32 (sub32 addr (u32 (jmp_addr + 4))))

unfoldable pub tb_set_jmp_target : Block → ℕ → ℕ → Memory → Memory
unfolding tb_set_jmp_target1
tb_set_jmp_target tb n addr m =
    let offset = get_or tb.tb_jmp_offset n 0 in tb_set_jmp_target1 (u32 (tb.tc_ptr + offset)) addr m

unfoldable pub tb_add_jump : ℕ → ℕ → ℕ → Linker → Linker
unfolding tb_set_jmp_target tb_add_jmp_from
tb_add_jump tb n tb_next s =
    let b = s.blocks in
    record s {
      out = record {
        mem = tb_set_jmp_target (b.tbs tb) n (b.tbs tb_next).tc_ptr s.out.mem;
        code_ptr = s.out.code_ptr;
      };
      blocks = tb_add_jmp_from tb tb_next n b;
    }
