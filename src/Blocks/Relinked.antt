-- ===== src/Blocks/Relinked.antt =====
-- The links do not depend on the other fields of a block.
use unitrans.Blocks.Hash.{tb_phys_hash_func}
use unitrans.Blocks.Invariant.{On, IsLinked, Holds}
use unitrans.Blocks.State.{Block, Blocks, update}
use unitrans.Common.{
  ◌==◌, ==_iff, Bool-cases, subst, inr, ◌≡◌, refl, ap, ℕ, ◌∙◌, sym, arith, inl, Option,
}

-- Two structures with the same tables whose blocks agree in the fields that make the links.
pub record SameLinks (s t : Blocks) : Type 0 where
  pub count : t.nb_tbs ≡ s.nb_tbs
  pub heads : t.tb_phys_hash ≡ s.tb_phys_hash
  pub cache : t.tb_jmp_cache ≡ s.tb_jmp_cache
  pub pcs : (i : ℕ) → (t.tbs i).pc ≡ (s.tbs i).pc
  pub tags : (i : ℕ) → (t.tbs i).tb_tag ≡ (s.tbs i).tb_tag
  pub nexts : (i : ℕ) → (t.tbs i).phys_hash_next ≡ (s.tbs i).phys_hash_next

module _ {s t : Blocks} (e : SameLinks s t) where
  On-same : (i : ℕ) {o : Option ℕ} → On s.tbs i o → On t.tbs i o
  On-same i (On.here p) = On.here p
  On-same i (On.next j p q) = On.next j p (subst (On t.tbs i) (sym (e.nexts j)) (On-same i q))

  pub SameLinks-IsLinked : IsLinked s → IsLinked t
  SameLinks-IsLinked l = record {
    heads = λ h i p.
        let (lt, hash) = l.heads h i (sym (ap (λ (f : ℕ → Option ℕ). f h) e.heads) ∙ p) in
        (omega (arith, lt, e.count), ap tb_phys_hash_func (e.pcs i) ∙ hash);
    nexts = λ i j lt p.
        let (older, hash) = l.nexts i j (omega (arith, lt, e.count)) (sym (e.nexts i) ∙ p) in
        (older, ap tb_phys_hash_func (e.pcs j) ∙ hash ∙ sym (ap tb_phys_hash_func (e.pcs i)));
    chained = λ i lt.
        subst (On t.tbs i)
          (ap (λ (a : ℕ). s.tb_phys_hash (tb_phys_hash_func a)) (sym (e.pcs i))
            ∙ sym (ap (λ (f : ℕ → Option ℕ). f (tb_phys_hash_func (t.tbs i).pc)) e.heads))
          (On-same i (l.chained i (omega (arith, lt, e.count))));
    cached = λ h i p.
        let lt = l.cached h i (sym (ap (λ (f : ℕ → Option ℕ). f h) e.cache) ∙ p) in
        omega (arith, lt, e.count);
    unique = λ i j i_lt j_lt p q.
        l.unique i j (omega (arith, i_lt, e.count)) (omega (arith, j_lt, e.count))
          (sym (e.pcs i) ∙ p ∙ e.pcs j) (sym (e.tags i) ∙ q ∙ e.tags j);
  }

  pub SameLinks-Holds : (pc tag i : ℕ) → Holds s pc tag i → Holds t pc tag i
  SameLinks-Holds pc tag i (lt, p, q) = (omega (arith, lt, e.count), e.pcs i ∙ p, e.tags i ∙ q)

-- One block is written, and keeps its fields of that kind.
pub update-SameLinks :
    (s : Blocks) (i : ℕ) (b : Block)
    → b.pc ≡ (s.tbs i).pc
    → b.tb_tag ≡ (s.tbs i).tb_tag
    → b.phys_hash_next ≡ (s.tbs i).phys_hash_next
    → SameLinks s (record s { tbs = update s.tbs i b })
update-SameLinks s i b p q r = record {
  count = refl;
  heads = refl;
  cache = refl;
  pcs = λ j. field_same j (λ (x : Block). x.pc) p;
  tags = λ j. field_same j (λ (x : Block). x.tb_tag) q;
  nexts = λ j. field_same j (λ (x : Block). x.phys_hash_next) r;
}
  where
    field_same :
        {A : Type 0} (j : ℕ) (f : Block → A)
        → f b ≡ f (s.tbs i)
        → f (update s.tbs i b j) ≡ f (s.tbs j)
    field_same j f same = elim (Bool-cases (j == i)) [
      | inl here_too ↦
          rw here_too (same ∙ ap (λ (k : ℕ). f (s.tbs k)) (sym ((==_iff j i).0 here_too)))
      | inr apart ↦ rw apart refl
    ]
