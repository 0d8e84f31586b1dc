-- ===== src/Blocks/Find.antt =====
-- cpu-exec.c: the search for a block, through the jump cache and along a hash chain.
use unitrans.Blocks.Hash.{tb_jmp_cache_hash_func, tb_phys_hash_func}
use unitrans.Blocks.State.{Block, Blocks, update}
use unitrans.Common.{◌==◌, if◌then◌else◌, false, zero, ℕ, Option, some, suc, Bool, none, ◌&&◌}
use unitrans.Common.Maybe.{◌>>=◌}

abbrev pub matches : Block → ℕ → ℕ → Bool
matches tb pc tag = tb.pc == pc && tb.tb_tag == tag

-- The loop over `phys_hash_next`. Fuel bounds the length of the chain; running out is no result.
unfoldable pub walk : ℕ → Blocks → Option ℕ → ℕ → ℕ → Option (Option ℕ)
walk zero s tb pc tag = none
walk (suc f) s none pc tag = some none
walk (suc f) s (some i) pc tag =
    let rest = walk f s (s.tbs i).phys_hash_next pc tag in
    if matches (s.tbs i) pc tag then some (some i) else rest

-- A block that is found goes into the jump cache.
unfoldable pub note_found : Option ℕ → ℕ → Blocks → Option ℕ × Blocks
note_found none pc s = (none, s)
note_found (some i) pc s =
    (some i, record s { tb_jmp_cache = update s.tb_jmp_cache (tb_jmp_cache_hash_func pc) (some i) })

unfoldable pub tb_find_slow : ℕ → ℕ → ℕ → Blocks → Option (Option ℕ × Blocks)
unfolding walk note_found
tb_find_slow fuel pc tag s = do
  r ← walk fuel s (s.tb_phys_hash (tb_phys_hash_func pc)) pc tag
  some (note_found r pc s)

abbrev pub is_hit : Blocks → Option ℕ → ℕ → ℕ → Bool
is_hit s none pc tag = false
is_hit s (some i) pc tag = matches (s.tbs i) pc tag

unfoldable pub tb_find_fast : ℕ → ℕ → ℕ → Blocks → Option (Option ℕ × Blocks)
tb_find_fast fuel pc tag s =
    let tb = s.tb_jmp_cache (tb_jmp_cache_hash_func pc) in
    if is_hit s tb pc tag then some (tb, s) else tb_find_slow fuel pc tag s
