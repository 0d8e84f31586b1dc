-- ===== src/Blocks/Growth.antt =====
-- The structure stays linked when a block is put at the end of the array and at the head of its chain.
use unitrans.Blocks.Creation.{update-other, update-new, new_block, made, made-tbs}
use unitrans.Blocks.Hash.{tb_jmp_cache_hash_func, tb_phys_hash_func}
use unitrans.Blocks.Invariant.{On, IsLinked}
use unitrans.Blocks.Lookup.{some-injective, update-same}
use unitrans.Blocks.Make.{fresh_block, tb_link_page}
use unitrans.Blocks.State.{not_trans_yet, Block, Blocks, update}
use unitrans.Common.{
  ◌==◌, ==_iff, Bool-cases, ◌∙◌, inr, arith, ◌<◌, ℕ, ◌+◌, subst, sym, Option, ap, inl, ◌≡◌, refl,
  some, ◌⊎◌,
}

-- The array after the allocation: the old blocks are as they were, and the new one is at the end.
pub record Grown (pc func_addr : ℕ) (s t : Blocks) : Type 0 where
  pub count : t.nb_tbs ≡ s.nb_tbs + 1
  pub old : (i : ℕ) → i < s.nb_tbs → t.tbs i ≡ s.tbs i
  pub new : t.tbs s.nb_tbs ≡ new_block pc func_addr s
  pub head :
      (h : ℕ) → t.tb_phys_hash h ≡ update s.tb_phys_hash (tb_phys_hash_func pc) (some s.nb_tbs) h
  pub entry :
      (h : ℕ)
      → t.tb_jmp_cache h ≡ update s.tb_jmp_cache (tb_jmp_cache_hash_func pc) (some s.nb_tbs) h

pub made-Grown : (pc func_addr : ℕ) (s : Blocks) → Grown pc func_addr s (made pc func_addr s)
unfolding made tb_link_page
made-Grown pc func_addr s = record {
  count = refl;
  old = λ i lt.
      ap (λ (f : ℕ → Block). f i) (made-tbs pc func_addr s)
      ∙ update-other s.tbs s.nb_tbs i (new_block pc func_addr s) lt;
  new =
      ap (λ (f : ℕ → Block). f s.nb_tbs) (made-tbs pc func_addr s)
      ∙ update-new s.tbs s.nb_tbs (new_block pc func_addr s);
  head = λ h. refl;
  entry = λ h. refl;
}

pub new_block-fields :
    (pc func_addr : ℕ) (s : Blocks)
    → let b = new_block pc func_addr s in
      (b.pc ≡ pc)
      × (b.tb_tag ≡ 0)
      × (b.phys_hash_next ≡ s.tb_phys_hash (tb_phys_hash_func pc))
      × (b.tc_ptr ≡ not_trans_yet)
      × (b.func_addr ≡ func_addr)
      × (b.patch_num ≡ 0)
      × (b.jmp_from_index ≡ 0)
      × (b.jmp_ind_index ≡ 0)
unfolding new_block fresh_block
new_block-fields pc func_addr s = (refl, refl, refl, refl, refl, refl, refl, refl)

module _ {pc func_addr : ℕ} {s t : Blocks} (g : Grown pc func_addr s t) (l : IsLinked s) where
  pub bound-cases : (i : ℕ) → i < t.nb_tbs → (i < s.nb_tbs) ⊎ (i ≡ s.nb_tbs)
  bound-cases i lt = let same = g.count in ground arith

  pub new-pc : (t.tbs s.nb_tbs).pc ≡ pc
  new-pc = ap (λ (b : Block). b.pc) g.new ∙ (new_block-fields pc func_addr s).0

  new-next : (t.tbs s.nb_tbs).phys_hash_next ≡ s.tb_phys_hash (tb_phys_hash_func pc)
  new-next = ap (λ (b : Block). b.phys_hash_next) g.new ∙ (new_block-fields pc func_addr s).2

  pub heads-grown :
      (h i : ℕ) → t.tb_phys_hash h ≡ some i → (i < t.nb_tbs) × (tb_phys_hash_func (t.tbs i).pc ≡ h)
  heads-grown h i p = elim (Bool-cases (h == tb_phys_hash_func pc)) [
    | inl same ↦
        let n_is : s.nb_tbs ≡ i = some-injective s.nb_tbs i (rw same at (sym (g.head h) ∙ p)) in
        (
          omega (arith, n_is, g.count),
          ap (λ (x : ℕ). tb_phys_hash_func (t.tbs x).pc) (sym n_is)
              ∙ ap tb_phys_hash_func new-pc
              ∙ sym ((==_iff h (tb_phys_hash_func pc)).0 same),
        )
    | inr differ ↦
        let (lt, hash) = l.heads h i (rw differ at (sym (g.head h) ∙ p)) in
        (omega (arith, lt, g.count), ap (λ (b : Block). tb_phys_hash_func b.pc) (g.old i lt) ∙ hash)
  ]

  pub nexts-grown :
      (i j : ℕ)
      → i < t.nb_tbs
      → (t.tbs i).phys_hash_next ≡ some j
      → (j < i) × (tb_phys_hash_func (t.tbs j).pc ≡ tb_phys_hash_func (t.tbs i).pc)
  nexts-grown i j lt p = elim (bound-cases i lt) [
    | inl older ↦
        let (j_lt, hash) =
          l.nexts i j older (ap (λ (b : Block). b.phys_hash_next) (sym (g.old i older)) ∙ p) in
        (
          j_lt,
          ap (λ (b : Block). tb_phys_hash_func b.pc) (g.old j (omega (arith, j_lt, older)))
              ∙ hash
              ∙ sym (ap (λ (b : Block). tb_phys_hash_func b.pc) (g.old i older)),
        )
    | inr newest ↦
        let q = sym new-next ∙ ap (λ (x : ℕ). (t.tbs x).phys_hash_next) (sym newest) ∙ p in
        let (j_lt, hash) = l.heads (tb_phys_hash_func pc) j q in
        (
          omega (arith, j_lt, newest),
          ap (λ (b : Block). tb_phys_hash_func b.pc) (g.old j j_lt)
              ∙ hash
              ∙ sym (ap tb_phys_hash_func new-pc)
              ∙ ap (λ (x : ℕ). tb_phys_hash_func (t.tbs x).pc) (sym newest),
        )
  ]

  On-grown :
      (i : ℕ) {o : Option ℕ} → On s.tbs i o → ((j : ℕ) → o ≡ some j → j < s.nb_tbs) → On t.tbs i o
  On-grown i (On.here p) b = On.here p
  On-grown i (On.next j p q) b =
      let lt = b j p in
      On.next j p (
        subst (On t.tbs i) (ap (λ (b : Block). b.phys_hash_next) (sym (g.old j lt)))
          (On-grown i q (λ k r. let older = (l.nexts j k lt r).0 in omega (arith, older, lt))))

  head-grown : (i h : ℕ) → On s.tbs i (s.tb_phys_hash h) → On t.tbs i (t.tb_phys_hash h)
  head-grown i h on =
      let on' = On-grown i on (λ j p. (l.heads h j p).0) in
      elim (Bool-cases (h == tb_phys_hash_func pc)) [
        | inl same ↦ On.next s.nb_tbs (g.head h ∙ rw same) (
            subst (On t.tbs i)
              (ap s.tb_phys_hash ((==_iff h (tb_phys_hash_func pc)).0 same) ∙ sym new-next) on')
        | inr differ ↦ subst (On t.tbs i) (sym (g.head h ∙ rw differ)) on'
      ]

  pub chained-grown :
      (i : ℕ) → i < t.nb_tbs → On t.tbs i (t.tb_phys_hash (tb_phys_hash_func (t.tbs i).pc))
  chained-grown i lt = elim (bound-cases i lt) [
    | inl older ↦
        subst (λ (b : Block). On t.tbs i (t.tb_phys_hash (tb_phys_hash_func b.pc)))
          (sym (g.old i older)) (head-grown i (tb_phys_hash_func (s.tbs i).pc) (l.chained i older))
    | inr newest ↦ On.here (
        ap (λ (x : ℕ). t.tb_phys_hash (tb_phys_hash_func (t.tbs x).pc)) newest
        ∙ ap (λ (a : ℕ). t.tb_phys_hash (tb_phys_hash_func a)) new-pc
        ∙ g.head (tb_phys_hash_func pc)
        ∙ update-same s.tb_phys_hash (tb_phys_hash_func pc) (some s.nb_tbs)
        ∙ ap some (sym newest))
  ]
