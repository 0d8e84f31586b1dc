-- ===== src/Blocks/Insertion.antt =====
-- A new block as an insertion into the map from addresses to blocks.
use unitrans.Blocks.Creation.{made, is_full, make_tb-full, make_tb-made}
use unitrans.Blocks.Find.{is_hit, tb_find_fast}
use unitrans.Blocks.Growth.{
  Grown, made-Grown, new_block-fields, bound-cases, new-pc, heads-grown, nexts-grown, chained-grown,
}
use unitrans.Blocks.Hash.{tb_jmp_cache_hash_func}
use unitrans.Blocks.Invariant.{IsLinked, Holds, Answers}
use unitrans.Blocks.Lookup.{tb_find_fast-hit, update-same, update-cached}
use unitrans.Blocks.Make.{make_tb}
use unitrans.Blocks.State.{not_trans_yet, normal_tb_tag, Block, Blocks}
use unitrans.Common.{
  Bool-cases, ◌≢◌, some, ℕ, inl, true, none, Option, arith, false, sym, ap, ◌≡◌, ◌⊎◌, ◌<◌, inr, ◌∙◌,
  refl,
}

pub record Made (pc func_addr : ℕ) (s : Blocks) (out : ℕ × Blocks) : Type 0 where
  pub linked : IsLinked out.1
  -- the block is in place, not translated, and the next search for it answers it at once
  pub is_new : out.0 ≡ s.nb_tbs
  pub holds : Holds out.1 pc normal_tb_tag out.0
  pub untranslated : (out.1.tbs out.0).tc_ptr ≡ not_trans_yet
  pub of_function : (out.1.tbs out.0).func_addr ≡ func_addr
  pub unpatched : (out.1.tbs out.0).patch_num ≡ 0
  pub found : (fuel : ℕ) → tb_find_fast fuel pc normal_tb_tag out.1 ≡ some (some out.0, out.1)
  -- the older blocks are untouched, and every other search has the answer it had
  pub kept : (i : ℕ) → i < s.nb_tbs → out.1.tbs i ≡ s.tbs i
  pub others :
      (a tag : ℕ) (r : Option ℕ)
      → (a ≡ pc → tag ≢ normal_tb_tag)
      → Answers s a tag r
      → Answers out.1 a tag r

module _ {pc func_addr : ℕ} {s t : Blocks} (g : Grown pc func_addr s t) (l : IsLinked s) where
  new-Holds : Holds t pc normal_tb_tag s.nb_tbs
  new-Holds = (
    omega (arith, g.count),
    new-pc g l,
    ap (λ (b : Block). b.tb_tag) g.new ∙ (new_block-fields pc func_addr s).1,
  )

  old-Holds : (i a tag : ℕ) → Holds s a tag i → Holds t a tag i
  old-Holds i a tag (lt, p, q) = (
    omega (arith, lt, g.count),
    ap (λ (b : Block). b.pc) (g.old i lt) ∙ p,
    ap (λ (b : Block). b.tb_tag) (g.old i lt) ∙ q,
  )

  Holds-cases :
      (i a tag : ℕ)
      → Holds t a tag i
      → Holds s a tag i ⊎ ((i ≡ s.nb_tbs) × (a ≡ pc) × (tag ≡ normal_tb_tag))
  Holds-cases i a tag (lt, p, q) = elim (bound-cases g l i lt) [
    | inl older ↦ inl (
      older,
      ap (λ (b : Block). b.pc) (sym (g.old i older)) ∙ p,
      ap (λ (b : Block). b.tb_tag) (sym (g.old i older)) ∙ q,
    )
    | inr newest ↦ inr (
      newest,
      sym p ∙ ap (λ (x : ℕ). (t.tbs x).pc) newest ∙ new-pc g l,
      sym q ∙ ap (λ (x : ℕ). (t.tbs x).tb_tag) newest ∙ new-Holds.2,
    )
  ]

  others-grown :
      (a tag : ℕ) (r : Option ℕ)
      → (a ≡ pc → tag ≢ normal_tb_tag)
      → Answers s a tag r
      → Answers t a tag r
  others-grown a tag (some i) ne h = old-Holds i a tag h
  others-grown a tag none ne h = λ i held. elim (Holds-cases i a tag held) [
    | inl older ↦ h i older
    | inr (newest, p, q) ↦ ne p q
  ]

  unique-grown :
      Answers s pc normal_tb_tag none
      → (i j : ℕ) → i < t.nb_tbs
      → j < t.nb_tbs
      → (t.tbs i).pc ≡ (t.tbs j).pc
      → (t.tbs i).tb_tag ≡ (t.tbs j).tb_tag
      → i ≡ j
  unique-grown free i j i_lt j_lt p q =
      let hi = Holds-cases i (t.tbs j).pc (t.tbs j).tb_tag (i_lt, p, q) in
      let hj = Holds-cases j (t.tbs j).pc (t.tbs j).tb_tag (j_lt, refl, refl) in
      elim hi [
        | inl (i_lt', p', q') ↦ elim hj [
          | inl (j_lt', p'', q'') ↦ l.unique i j i_lt' j_lt' (p' ∙ sym p'') (q' ∙ sym q'')
          | inr (same, a, b) ↦ absurd (free i (i_lt', p' ∙ a, q' ∙ b))
        ]
        | inr (newest, a, b) ↦ elim hj [
          | inl (j_lt', p'', q'') ↦ absurd (free j (j_lt', p'' ∙ a, q'' ∙ b))
          | inr (same, a', b') ↦ newest ∙ sym same
        ]
      ]

  cached-grown : (h i : ℕ) → t.tb_jmp_cache h ≡ some i → i < t.nb_tbs
  cached-grown h i p =
      let older = λ (g' j : ℕ) (q : s.tb_jmp_cache g' ≡ some j).
        (let lt = l.cached g' j q in let r : j < t.nb_tbs = omega (arith, lt, g.count) in r) in
      update-cached s.tb_jmp_cache (tb_jmp_cache_hash_func pc) s.nb_tbs t.nb_tbs older
        (omega (arith, g.count)) h i (sym (g.entry h) ∙ p)

  pub grown-IsLinked : Answers s pc normal_tb_tag none → IsLinked t
  grown-IsLinked free = record {
    heads = heads-grown g l;
    nexts = nexts-grown g l;
    chained = chained-grown g l;
    cached = cached-grown;
    unique = unique-grown free;
  }

  grown-found : (fuel : ℕ) → tb_find_fast fuel pc normal_tb_tag t ≡ some (some s.nb_tbs, t)
  grown-found fuel =
      let entry : t.tb_jmp_cache (tb_jmp_cache_hash_func pc) ≡ some s.nb_tbs =
        g.entry (tb_jmp_cache_hash_func pc)
        ∙ update-same s.tb_jmp_cache (tb_jmp_cache_hash_func pc) (some s.nb_tbs) in
      let (lt, p, q) = new-Holds in
      let hit : is_hit t (some s.nb_tbs) pc normal_tb_tag ≡ true = ground arith in
      tb_find_fast-hit fuel pc normal_tb_tag t (rw entry hit) ∙ rw entry

-- Where no block has the address and the tag 0: `make_tb` aborts, and the array or the code buffer
-- is full, or neither is full and it succeeds whatever tag it is asked for, the structure stays
-- linked, the new block is untranslated and is what a search for the address with the tag 0
-- answers, and every other block and every other search is as before.
pub make_tb-Made :
    (pc func_addr tag : ℕ) (s : Blocks)
    → IsLinked s
    → Answers s pc normal_tb_tag none
    → ((is_full s ≡ true) × (make_tb pc func_addr tag s ≡ none))
      ⊎ ((is_full s ≡ false)
          × ((out : ℕ × Blocks) × (make_tb pc func_addr tag s ≡ some out)
              × Made pc func_addr s out))
make_tb-Made pc func_addr tag s l free =
    let g = made-Grown pc func_addr s in
    elim (Bool-cases (is_full s)) [
      | inl full ↦ inl (full, make_tb-full pc func_addr tag s full)
      | inr room ↦ inr (
        room,
        (
          (s.nb_tbs, made pc func_addr s),
          make_tb-made pc func_addr tag s room,
          record {
            linked = grown-IsLinked g l free;
            is_new = refl;
            holds = new-Holds g l;
            untranslated = ap (λ (b : Block). b.tc_ptr) g.new ∙ (new_block-fields pc func_addr s).3;
            of_function =
                ap (λ (b : Block). b.func_addr) g.new ∙ (new_block-fields pc func_addr s).4;
            unpatched = ap (λ (b : Block). b.patch_num) g.new ∙ (new_block-fields pc func_addr s).5;
            found = grown-found g l;
            kept = g.old;
            others = others-grown g l;
          },
        ),
      )
    ]
