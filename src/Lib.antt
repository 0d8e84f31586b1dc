-- ===== src/Lib.antt =====
-- The core of unitrans, a dynamic binary translator from IA-32 to IA-32 on the frame of QEMU's
-- user mode. The guest's code is decoded instruction by instruction, copied or rewritten into a
-- code cache as translation blocks, and run there; control comes back to the main loop where a
-- block leaves for an address that is not translated yet.
--
-- The parts and their files:
--
--   Decode    target-i386/decode.c, decode.h and decode-table.c. `simple_disas_insn` is `Decode.Insn`,
--             its state `decode_t` the record `Decode` of Decode/State, the guest's memory a function
--             from addresses to bytes (`Code`). Every opcode table is in Decode/Tables/*, entry by
--             entry; a pointer to a table or to an emitter is a constructor of `Pointer`. A read out
--             of range is the result `bad_table`. The loop over the prefixes runs on fuel, and the
--             loop over the opcode tables on fuel 2, for the tables are at most two deep.
--             Decode/Length/* holds the lemmas, Decode/Tests runs and witnesses.
--   Blocks    exec.c, exec-all.h and cpu-exec.c: the array `tbs`, the hash table `tb_phys_hash` with
--             its chains through `phys_hash_next`, the jump cache of `env`, and the ring `jmp_from`
--             of a block. A pointer to a block is its index, NULL is `none`. The abort of `tb_flush`
--             is `none`. The walk along a chain runs on fuel: more fuel than blocks is enough, since a
--             chain runs from younger blocks to older ones.
--   Emit      target-i386/emit.h and cemit-inline.c: the macros `code_emit8`, `code_emit16` and `code_emit32`
--             write at a cursor (`Out`) into a memory of bytes, little endian.
--   Sieve     target-i386/translate.c (`sv_table_init`, `sieve_init`, `add_sieve_entry`) and the macros of
--             cpu.h: the table of 65536 slots of eight bytes, each a jump to a chain of nodes in the
--             sieve's buffer. The code is bytes in memory. Sieve/Machine says what the ten kinds of
--             instruction in it do on the processor, and is no part of the program; running a branch
--             through the emitted bytes is an explicit sequence of its steps.
--   Link      exec-all.h (`tb_add_jump`, `tb_set_jmp_target`) and target-i386/translate.c (`note_patch`,
--             `lazy_patch`): direct jumps between blocks. The body of the loop of `lazy_patch` is
--             `patch_one`, its branches `patch_direct` and `patch_stub`. The addresses of the fields of
--             `env` that generated code writes are the record `Layout`. A write to `tb_jmp_offset` out
--             of its bounds, which the source does not rule out, changes nothing here.
--   Cache     target-i386/translate.c (`cemit_ind_opt`, `cemit_exit_tb`, `cemit_sieve`, `ind_patch_sieve`) and
--             cpu-exec.c (`patch_jmp_target`, `patch_ind_opt`): the three slots that an indirect branch
--             tries before the sieve. The code is bytes in memory, as for the sieve, and the processor is that
--             of Sieve/Machine. The addresses of the fields of `env` are the record `EnvLayout`. The push
--             of %ecx that the code begins with writes the stack and is the premise `Pushed`.
--   Pages     exec.c: the two-level table `l1_map` of `PageDesc`, `page_set_flags`, `page_get_flags` and
--             `page_check_range`. A pointer to a descriptor is a pair of indices. Fresh memory from `mmap`
--             is zero and never fails here. The loops over a range run on fuel: more than the 2^20 pages
--             there are is enough.
--   Translate target-i386/translate.c: `gen_target_code`, `trans_next` and the emitters that the opcode tables
--             name. `Trans` is the state: the linker's with `env->code_ptr`, `cgc->pc_ptr`, `cgc->insn_len`
--             and `cur_tb`. The guest's code is read through `Code`, apart from the memory that is written. The
--             loop runs on rounds of which `MAX_INSNS` and one are enough. An abort or a fault is `aborted`. A
--             decoder without fuel, which is the source's endless loop on prefixes alone, and a search
--             without fuel are `fuel_spent`; the results of the emitters and of `lazy_patch` (`Tried`, in
--             Common/Tried) tell the two apart. The counters of `cgc` are left out. Bytes that the source copies or
--             emits are emitted in its order.
--   Logging   exec.c: `cpu_str_to_log_mask` with `cpu_log_items`, for a build without DEBUG_IOPORT. A string is the
--             list of its characters without the closing 0; the fuel is its length and one, since a
--             round takes a comma.
--
-- Words are native numbers with the wrap-around written out (`u8`, `u16`, `u32`, `sub32` of
-- Common/Words). The host is a 32-bit machine, as in config-host.h.
--
-- The configuration is that of opt-def.h: SIEVE_OPT, IND_OPT and RET_CACHE are on; RETRANS_IND and the
-- profiling options are off.
--
-- Not modelled: the QEMU user-mode layer (linux-user), SoftFloat, the disassembler and the debugger
-- stub, which are copied libraries and glue, and the retranslation of target-i386/retrans-ind.c,
-- which is compiled to nothing. The loop of `cpu_exec` and the prologue of the cache are
-- left out for their size.
pub mod Common
pub mod Decode
pub mod Blocks
pub mod Emit
pub mod Sieve
pub mod Link
pub mod Pages
pub mod Cache
pub mod Translate
pub mod Logging
