-- ===== src/Sieve/Table.antt =====
-- target-i386/translate.c: the stub at the entry of the sieve, and the table before any entry.
use unitrans.Common.{sub32, ◌+◌, suc, ℕ, zero}
use unitrans.Emit.Memory.{Memory, Out, code_emit8, code_emit32, ◌▷◌}
use unitrans.Sieve.Hash.{sieve_size}

-- The loop of `sv_table_init` over the slots: each jumps to the code that leaves the cache. The
-- three bytes of padding behind a jump are skipped.
unfoldable pub fill_slots : ℕ → ℕ → Out → Out
fill_slots zero sv_out o = o
fill_slots (suc n) sv_out o =
    let o₁ = code_emit8 0xe9 o in
    let o₂ = code_emit32 (sub32 (sub32 sv_out o₁.code_ptr) 4) o₁ in
    fill_slots n sv_out (record o₂ { code_ptr = o₂.code_ptr + 3 })

unfoldable pub sv_table_init : ℕ → ℕ → Memory → Memory
unfolding fill_slots
sv_table_init base sv_out m =
    (fill_slots sieve_size sv_out (record { mem = m; code_ptr = base })).mem

-- `sieve_init` up to its call of `sv_table_init`: the stub takes the target below the saved %ecx.
unfoldable pub emit_sieve_stub : ℕ → Out → Out
emit_sieve_stub base o =
    o
    ▷ code_emit8 0x8b
    ▷ code_emit8 0x4c
    ▷ code_emit8 0x24
    ▷ code_emit8 4
    ▷ code_emit8 0x0f
    ▷ code_emit8 0xb7
    ▷ code_emit8 0xc9
    ▷ code_emit8 0x8d
    ▷ code_emit8 0x0c
    ▷ code_emit8 0xcd
    ▷ code_emit32 base
    ▷ code_emit8 0xff
    ▷ code_emit8 0xe1
