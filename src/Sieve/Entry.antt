-- ===== src/Sieve/Entry.antt =====
-- target-i386/translate.c: `add_sieve_entry`.
use unitrans.Blocks.State.{not_trans_yet, update}
use unitrans.Common.{
  ltb, ◌==◌, if◌then◌else◌, u32, sub32, ◌*◌, none, bit_and, ◌+◌, Option, ℕ, ◌/◌, some, ◌-◌,
}
use unitrans.Emit.Memory.{Memory, store, le32, load32, Out, code_emit8, code_emit32, ◌▷◌}
use unitrans.Sieve.Hash.{sieve_mask, slot_of}

abbrev pub default_sieve_buffer_size : ℕ
default_sieve_buffer_size = 64 * 1024 * 1024

-- `sieve_hashtable` and `sieve_buffer` are addresses; `out` is the memory with `sieve_code_ptr`.
pub record SieveState : Type 0 where
  pub sieve_hashtable : ℕ
  pub sieve_buffer : ℕ
  pub out : Out
  pub sieve_stat : ℕ → ℕ

-- The node: a test for one target address, and a jump onwards or to the translated code.
unfoldable pub emit_node : ℕ → ℕ → ℕ → Out → Out
emit_node pc tc_ptr next_node o =
    let o₁ =
      o
      ▷ code_emit8 0x8b
      ▷ code_emit8 0x4c
      ▷ code_emit8 0x24
      ▷ code_emit8 4
      ▷ code_emit8 0x8d
      ▷ code_emit8 0x89
      ▷ code_emit32 (sub32 0 pc)
      ▷ code_emit8 0xe3
      ▷ code_emit8 0x05
      ▷ code_emit8 0xe9 in
    let o₂ =
      o₁
      ▷ code_emit32 (sub32 (sub32 next_node o₁.code_ptr) 4)
      ▷ code_emit8 0x59
      ▷ code_emit8 0x8d
      ▷ code_emit8 0x64
      ▷ code_emit8 0x24
      ▷ code_emit8 4
      ▷ code_emit8 0xe9 in
    code_emit32 (sub32 (sub32 tc_ptr o₂.code_ptr) 4) o₂

-- The slot now jumps to the node at `to`, and the node onwards to where the slot jumped.
unfoldable pub link_node : ℕ → ℕ → ℕ → ℕ → Memory → Out
unfolding emit_node
link_node se pc tc_ptr code_ptr m =
    let next_insn = u32 (se + 5) in
    let next_node = u32 (next_insn + load32 m (se + 1)) in
    let m₁ = store m (se + 1) (le32 (sub32 code_ptr next_insn)) in
    emit_node pc tc_ptr next_node (record { mem = m₁; code_ptr = code_ptr })

-- `none` is the abort for a full buffer.
unfoldable pub add_sieve_entry : ℕ → ℕ → SieveState → Option SieveState
unfolding link_node
add_sieve_entry pc tc_ptr s =
    if tc_ptr == not_trans_yet
    then some s
    else let o = link_node (slot_of s.sieve_hashtable pc) pc tc_ptr s.out.code_ptr s.out.mem in
      let k = bit_and pc sieve_mask / 8 in
      if ltb default_sieve_buffer_size (o.code_ptr - s.sieve_buffer)
      then none
      else some
          (record s { out = o; sieve_stat = update s.sieve_stat k (u32 (s.sieve_stat k + 1)) })
