-- ===== src/Blocks/Creation.antt =====
-- What `make_tb` writes, as one change of the structure.
use mathlib.Core.Path.{fun_ext}
use unitrans.Blocks.Hash.{tb_jmp_cache_hash_func, tb_phys_hash_func}
use unitrans.Blocks.Make.{tb_alloc, fresh_block, tb_link_page, make_tb}
use unitrans.Blocks.State.{Block, Blocks, update}
use unitrans.Common.{leb, some, false, none, arith, ◌≡◌, ◌<◌, ℕ, true, Bool, ◌+◌, ◌||◌}
use unitrans.Common.Maybe.{◌>>=◌}

pub update-other : {A : Type 0} (f : ℕ → A) (i j : ℕ) (v : A) → j < i → update f i v j ≡ f j
update-other f i j v lt = ground arith

pub update-new : {A : Type 0} (f : ℕ → A) (i : ℕ) (v : A) → update f i v i ≡ v
update-new f i v = ground arith

-- What `make_tb` writes into the next entry of the array.
unfoldable pub new_block : ℕ → ℕ → Blocks → Block
new_block pc func_addr s = record (fresh_block func_addr (record (s.tbs s.nb_tbs) { pc = pc })) {
  phys_hash_next = s.tb_phys_hash (tb_phys_hash_func pc);
}

-- The structure after it, as the three steps leave it.
unfoldable pub made : ℕ → ℕ → Blocks → Blocks
unfolding fresh_block tb_link_page
made pc func_addr s =
    let i = s.nb_tbs in
    let s₁ = record s { nb_tbs = i + 1; tbs = update s.tbs i (record (s.tbs i) { pc = pc }) } in
    let s₂ = record s₁ { tbs = update s₁.tbs i (fresh_block func_addr (s₁.tbs i)) } in
    let s₃ = tb_link_page i pc s₂ in
    record s₃ { tb_jmp_cache = update s₃.tb_jmp_cache (tb_jmp_cache_hash_func pc) (some i) }

abbrev pub is_full : Blocks → Bool
is_full s = leb s.code_gen_max_blocks s.nb_tbs || leb s.code_gen_buffer_max_size s.code_gen_size

update-thrice :
    {A : Type 0} (f : ℕ → A) (i : ℕ) (a : A) (g h : A → A)
    → let f₁ = update f i a in
      let f₂ = update f₁ i (g (f₁ i)) in update f₂ i (h (f₂ i)) ≡ update f i (h (g a))
update-thrice f i a g h = fun_ext (λ j. rw (update-new, update-new) (ground arith))

pub make_tb-full :
    (pc func_addr tag : ℕ) (s : Blocks) → is_full s ≡ true → make_tb pc func_addr tag s ≡ none
unfolding make_tb tb_alloc
make_tb-full pc func_addr tag s h = rw (make_tb, tb_alloc, h, ◌>>=◌)

pub make_tb-made :
    (pc func_addr tag : ℕ) (s : Blocks)
    → is_full s ≡ false
    → make_tb pc func_addr tag s ≡ some (s.nb_tbs, made pc func_addr s)
unfolding make_tb tb_alloc made
make_tb-made pc func_addr tag s h = rw (make_tb, tb_alloc, h, ◌>>=◌)

pub made-tbs :
    (pc func_addr : ℕ) (s : Blocks)
    → (made pc func_addr s).tbs ≡ update s.tbs s.nb_tbs (new_block pc func_addr s)
unfolding made new_block fresh_block tb_link_page
made-tbs pc func_addr s =
    update-thrice s.tbs s.nb_tbs (record (s.tbs s.nb_tbs) { pc = pc }) (fresh_block func_addr)
      (λ b. record b { phys_hash_next = s.tb_phys_hash (tb_phys_hash_func pc) })
