-- ===== src/Link/Round.antt =====
-- A round of `lazy_patch` as a whole: the search, the creation of a block, and the two branches.
use unitrans.Blocks.Creation.{is_full}
use unitrans.Blocks.Find.{tb_find_fast}
use unitrans.Blocks.Insertion.{make_tb-Made}
use unitrans.Blocks.Invariant.{IsLinked, Holds, Answers}
use unitrans.Blocks.Lookup.{some-injective, Found, tb_find_fast-Found}
use unitrans.Blocks.Ring.{IsRing}
use unitrans.Blocks.State.{not_trans_yet, normal_tb_tag, Block, Blocks}
use unitrans.Cache.Emission.{apart}
use unitrans.Common.{
  leb, ◌==◌, if◌then◌else◌, ==_iff, Bool-cases, Option-cases, ==_different, sub32, Option, none,
  inr, arith, true, sym, false, ◌||◌, ◌+◌, refl, ◌<◌, subst, ap, inl, ◌≢◌, some, ◌^◌, ◌⊎◌, ◌∙◌, ℕ,
  ◌≤◌, ◌≡◌,
}
use unitrans.Common.Tried.{◌>>=◌, result}
use unitrans.Emit.Stored.{Spells}
use unitrans.Link.Patch.{translated, patch_direct, patch_stub, ensure_tb, patch_one}
use unitrans.Link.Patched.{
  exit_bytes, closed, Direct, Stubbed, patch_direct-Direct, patch_stub-Stubbed,
}
use unitrans.Link.State.{PatchEntry, Linker, Layout}

translated-some :
    (b : Blocks) (o : Option ℕ) (d : ℕ)
    → translated b o ≡ some d
    → (o ≡ some d) × ((b.tbs d).tc_ptr ≢ not_trans_yet)
unfolding translated
translated-some b none d h = cc
translated-some b (some i) d h = elim (Bool-cases ((b.tbs i).tc_ptr == not_trans_yet)) [
  | inl same ↦ absurd (none_some (rw same at h))
  | inr differ ↦
      let i_is : i ≡ d = some-injective i d (rw differ at h) in
      (
        ap some i_is,
        subst (λ (k : ℕ). (b.tbs k).tc_ptr ≢ not_trans_yet) i_is
            (==_different (b.tbs i).tc_ptr not_trans_yet differ),
      )
]
  where
    none_some : {k : ℕ} → none ≡ some k → ⊥
    none_some p = cc

patch_one-direct :
    (l : Layout) (fuel : ℕ) (p : PatchEntry) (s : Linker) (o : Option ℕ) (b : Blocks) (d : ℕ)
    → tb_find_fast fuel p.to p.tb_tag s.blocks ≡ some (o, b)
    → translated b o ≡ some d
    → patch_one l fuel p s ≡ result (patch_direct p d (record s { blocks = b }))
unfolding patch_one
patch_one-direct l fuel p s o b d found is = rw (patch_one, found, ◌>>=◌, is)

patch_one-stub :
    (l : Layout) (fuel : ℕ) (p : PatchEntry) (s : Linker) (o : Option ℕ) (b b' : Blocks)
    → tb_find_fast fuel p.to p.tb_tag s.blocks ≡ some (o, b)
    → translated b o ≡ none
    → ensure_tb o p b ≡ result b'
    → patch_one l fuel p s ≡ result (patch_stub l p (record s { blocks = b' }))
unfolding patch_one
patch_one-stub l fuel p s o b b' found is made' = rw (patch_one, found, ◌>>=◌, is, made')

-- After the search there is a block for the destination, or room to make one.
ensure_tb-Holds :
    (p : PatchEntry) (o : Option ℕ) (b : Blocks)
    → IsLinked b
    → Answers b p.to p.tb_tag o
    → p.tb_tag ≡ normal_tb_tag
    → is_full b ≡ false
    → (b' : Blocks) × (i : ℕ) × (ensure_tb o p b ≡ result b')
      × IsLinked b'
      × Holds b' p.to p.tb_tag i
      × ((k : ℕ) → k < b.nb_tbs → b'.tbs k ≡ b.tbs k)
unfolding ensure_tb
ensure_tb-Holds p (some i) b l a tag room = (b, i, refl, l, a, λ k lt. refl)
ensure_tb-Holds p none b l a tag room =
    let free = subst (λ (t : ℕ). Answers b p.to t none) tag a in
    elim (make_tb-Made p.to p.func_addr p.tb_tag b l free) [
      | inl (full, no_block) ↦ absurd (true_false (sym full ∙ room))
      | inr (has_place, (out, run, m)) ↦ (
        out.1,
        out.0,
        rw run refl,
        m.linked,
        subst (λ (t : ℕ). Holds out.1 p.to t out.0) (sym tag) m.holds,
        m.kept,
      )
    ]
  where
    true_false : true ≡ false → ⊥
    true_false q = cc

Answers-Found :
    (s b : Blocks) (pc tag : ℕ) (o : Option ℕ)
    → b.tbs ≡ s.tbs
    → b.nb_tbs ≡ s.nb_tbs
    → Answers s pc tag o
    → Answers b pc tag o
Answers-Found s b pc tag (some i) p q (lt, at_pc, of_tag) = (
  omega (arith, q, lt),
  ap (λ (f : ℕ → Block). (f i).pc) p ∙ at_pc,
  ap (λ (f : ℕ → Block). (f i).tb_tag) p ∙ of_tag,
)
Answers-Found s b pc tag none p q free = λ i (lt, at_pc, of_tag). free i (
  omega (arith, q, lt),
  ap (λ (f : ℕ → Block). (f i).pc) (sym p) ∙ at_pc,
  ap (λ (f : ℕ → Block). (f i).tb_tag) (sym p) ∙ of_tag,
)

is_full-Found :
    (s : Blocks) (pc tag : ℕ) (out : Option ℕ × Blocks)
    → Found s pc tag out
    → is_full s ≡ false
    → is_full out.1 ≡ false
is_full-Found s pc tag out f h =
    ap (λ (k : ℕ). leb k out.1.nb_tbs || leb out.1.code_gen_buffer_max_size out.1.code_gen_size)
      f.same_max_blocks
    ∙ ap
        (λ (k : ℕ).
          leb s.code_gen_max_blocks k || leb out.1.code_gen_buffer_max_size out.1.code_gen_size)
        f.same_count
    ∙ ap (λ (k : ℕ). leb s.code_gen_max_blocks s.nb_tbs || leb k out.1.code_gen_size)
        f.same_max_size
    ∙ ap (λ (k : ℕ). leb s.code_gen_max_blocks s.nb_tbs || leb s.code_gen_buffer_max_size k)
        f.same_size
    ∙ h

-- No block for the destination has code.
abbrev pub NoCode : PatchEntry → Linker → Type 0
NoCode p s = (i : ℕ) → Holds s.blocks p.to p.tb_tag i → (s.blocks.tbs i).tc_ptr ≡ not_trans_yet

-- The state after a round, with `b` what the search left of the blocks.
pub record Patched (l : Layout) (p : PatchEntry) (s t : Linker) : Type 0 where
  pub searched : Blocks
  pub same_blocks : searched.tbs ≡ s.blocks.tbs
  pub outcome : Direct p (record s { blocks = searched }) t ⊎ (NoCode p s × Stubbed l p s t)

-- With the blocks that the round began with, of which `b` are a copy with perhaps one more.
Stubbed-searched :
    (l : Layout) (p : PatchEntry) (s t : Linker) (b : Blocks)
    → b.tbs p.tb ≡ s.blocks.tbs p.tb
    → Stubbed l p (record s { blocks = b }) t
    → Stubbed l p s t
Stubbed-searched l p s t b same x = record {
  dest = x.dest;
  is_dest = x.is_dest;
  is_closed = x.is_closed ∙ ap (closed p.place) same;
  lands = x.lands;
  stub =
      subst
        (λ (k : Block).
          Spells t.out.mem s.out.code_ptr
            (exit_bytes l p.tb (sub32 k.patch_num 1) p.to s.out.code_ptr))
        same x.stub;
  end = x.end;
  elsewhere = x.elsewhere;
  linked = x.linked;
}

-- A search that finds nothing translated: no block for the destination has code.
no_translated :
    (s : Blocks) (pc tag : ℕ) (o : Option ℕ)
    → IsLinked s
    → Answers s pc tag o
    → translated s o ≡ none
    → (i : ℕ) → Holds s pc tag i
    → (s.tbs i).tc_ptr ≡ not_trans_yet
unfolding translated
no_translated s pc tag none l free is i held = absurd (free i held)
no_translated s pc tag (some k) l (k_lt, k_pc, k_tag) is i (i_lt, i_pc, i_tag) =
    let one_block : i ≡ k = l.unique i k i_lt k_lt (i_pc ∙ sym k_pc) (i_tag ∙ sym k_tag) in
    elim (Bool-cases ((s.tbs k).tc_ptr == not_trans_yet)) [
      | inl same ↦
          ap (λ (j : ℕ). (s.tbs j).tc_ptr) one_block
          ∙ (==_iff (s.tbs k).tc_ptr not_trans_yet).0 same
      | inr differ ↦ absurd (some_none (rw differ at is))
    ]
  where
    some_none : {j : ℕ} → some j ≡ none → ⊥
    some_none q = cc

translated-same :
    (s b : Blocks) (o : Option ℕ) → b.tbs ≡ s.tbs → translated b o ≡ none → translated s o ≡ none
unfolding translated
translated-same s b none same h = refl
translated-same s b (some k) same h =
    subst (λ (f : ℕ → Block). (if (f k).tc_ptr == not_trans_yet then none else some k) ≡ none) same
      h

-- Let the blocks be linked with room for one more, the block of the jump be one of them, the rings be
-- well-formed, the fuel exceed their number, the displacement and the stub's place be inside the
-- address space and apart, the code addresses be words, and the tag be 0. Then the round succeeds, the
-- blocks stay linked, and the number of open jumps of the jump's block goes down by one. A destination
-- with code has the jump land on that code, no other byte written, and the jump in its ring under that
-- number. Otherwise no block for the destination had code, there is one afterwards, the jump lands on a
-- new stub that stores the jump's block, that number and the destination and leaves the cache, no byte
-- but those of the displacement and the stub is written, and the jump's block keeps its fields but for
-- the number and the jump's offset.
pub patch_one-Patched :
    (l : Layout) (fuel : ℕ) (p : PatchEntry) (s : Linker)
    → IsLinked s.blocks
    → is_full s.blocks ≡ false
    → s.blocks.nb_tbs < fuel
    → p.tb < s.blocks.nb_tbs
    → p.tb_tag ≡ normal_tb_tag
    → p.place + 4 ≤ 2 ^ 32
    → s.out.code_ptr < 2 ^ 32
    → p.place + 4 ≤ s.out.code_ptr ⊎ s.out.code_ptr + 35 ≤ p.place
    → ((i : ℕ) → (s.blocks.tbs i).tc_ptr < 2 ^ 32)
    → ((i : ℕ) → IsRing (s.blocks.tbs i))
    → (t : Linker) × (patch_one l fuel p s ≡ result t) × Patched l p s t
patch_one-Patched l fuel p s linked room enough is_tb tag place_room ptr_lt apart words rings =
    let ((o, b), run, f) = tb_find_fast-Found fuel p.to p.tb_tag s.blocks linked enough in
    let answers = Answers-Found s.blocks b p.to p.tb_tag o f.same_blocks f.same_count f.answers in
    let s₁ : Linker = record s { blocks = b } in
    elim (Option-cases (translated b o)) [
      | inl nothing_there ↦
          let (b', i, made', l', held, kept) =
            ensure_tb-Holds p o b f.linked answers tag
              (is_full-Found s.blocks p.to p.tb_tag (o, b) f room) in
          let t = patch_stub l p (record s { blocks = b' }) in
          let same : b'.tbs p.tb ≡ s.blocks.tbs p.tb =
            kept p.tb (omega (arith, is_tb, f.same_count))
            ∙ ap (λ (g : ℕ → Block). g p.tb) f.same_blocks in
          (
            t,
            patch_one-stub l fuel p s o b b' run nothing_there made',
            record {
              searched = b;
              same_blocks = f.same_blocks;
              outcome = inr (
                no_translated s.blocks p.to p.tb_tag o linked f.answers
                    (translated-same s.blocks b o f.same_blocks nothing_there),
                Stubbed-searched l p s t b' same (
                    patch_stub-Stubbed l p i (record s { blocks = b' }) l' held place_room ptr_lt
                      apart),
              );
            },
          )
      | inr (d, is) ↦
          let (o_is, code) = translated-some b o d is in
          let held : Answers b p.to p.tb_tag (some d) =
            subst (Answers b p.to p.tb_tag) o_is answers in
          let word : (b.tbs d).tc_ptr < 2 ^ 32 =
            subst (λ (g : ℕ → Block). (g d).tc_ptr < 2 ^ 32) (sym f.same_blocks) (words d) in
          let ring : IsRing (b.tbs d) =
            subst (λ (g : ℕ → Block). IsRing (g d)) (sym f.same_blocks) (rings d) in
          (
            patch_direct p d s₁,
            patch_one-direct l fuel p s o b d run is,
            record {
              searched = b;
              same_blocks = f.same_blocks;
              outcome = inl (patch_direct-Direct p d s₁ f.linked held code place_room word ring);
            },
          )
    ]
