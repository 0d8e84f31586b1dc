-- ===== src/Blocks/Lookup.antt =====
-- The search for a block: it ends, and its answer is the block of the address and the tag.
use unitrans.Blocks.Find.{matches, walk, note_found, tb_find_slow, is_hit, tb_find_fast}
use unitrans.Blocks.Hash.{tb_jmp_cache_hash_func, tb_phys_hash_func}
use unitrans.Blocks.Invariant.{On, IsLinked, Holds, Answers}
use unitrans.Blocks.State.{Block, Blocks, update}
use unitrans.Common.{
  ◌==◌, Bool-cases, true, ap, ◌⊎◌, ℕ, some, ◌+◌, false, ◌<◌, subst, Option, ◌≡◌, arith, suc, ◌∙◌,
  none, refl, inl, zero, inr,
}
use unitrans.Common.Maybe.{◌>>=◌}

matches-true : (b : Block) (pc tag : ℕ) → matches b pc tag ≡ true → (b.pc ≡ pc) × (b.tb_tag ≡ tag)
matches-true b pc tag h = ground arith

matches-false : (b : Block) (pc tag : ℕ) → matches b pc tag ≡ false → b.pc ≡ pc → b.tb_tag ≡ tag → ⊥
matches-false b pc tag h p q = ground arith

-- What a walk along a chain returns.
record Walked (s : Blocks) (o : Option ℕ) (pc tag : ℕ) (r : Option ℕ) : Type 0 where
  sound : (i : ℕ) → r ≡ some i → Holds s pc tag i
  complete : r ≡ none → (i : ℕ) → On s.tbs i o → (s.tbs i).pc ≡ pc → (s.tbs i).tb_tag ≡ tag → ⊥

abbrev Bounded : Blocks → ℕ → Option ℕ → Type 0
Bounded s f o = (0 < f) × ((i : ℕ) → o ≡ some i → (i < s.nb_tbs) × (i + 1 < f))

On-none : (s : Blocks) (i : ℕ) → On s.tbs i none → ⊥
On-none s i (On.here p) = cc
On-none s i (On.next j p q) = cc

walk-hit :
    (f : ℕ) (s : Blocks) (i pc tag : ℕ)
    → matches (s.tbs i) pc tag ≡ true
    → walk (suc f) s (some i) pc tag ≡ some (some i)
unfolding walk
walk-hit f s i pc tag h = rw (walk, h)

walk-miss :
    (f : ℕ) (s : Blocks) (i pc tag : ℕ)
    → matches (s.tbs i) pc tag ≡ false
    → walk (suc f) s (some i) pc tag ≡ walk f s (s.tbs i).phys_hash_next pc tag
unfolding walk
walk-miss f s i pc tag h = rw (walk, h)

pub some-injective : (i j : ℕ) → some i ≡ some j → i ≡ j
some-injective i j p = grind arith

On-other :
    (s : Blocks) (i k : ℕ) → On s.tbs k (some i) → (i ≡ k) ⊎ On s.tbs k (s.tbs i).phys_hash_next
On-other s i k (On.here p) = inl (grind arith)
On-other s i k (On.next j p q) =
    let same : j ≡ i = grind arith in
    inr (subst (λ (x : ℕ). On s.tbs k (s.tbs x).phys_hash_next) same q)

walk-Walked :
    (f : ℕ) (s : Blocks) (o : Option ℕ) (pc tag : ℕ)
    → IsLinked s
    → Bounded s f o
    → (r : Option ℕ) × (walk f s o pc tag ≡ some r) × Walked s o pc tag r
unfolding walk
walk-Walked zero s o pc tag l b = absurd (omega (arith, b.0))
walk-Walked (suc f) s none pc tag l b =
    (none, refl, record { sound = λ i p. cc; complete = λ p i on q r. On-none s i on })
walk-Walked (suc f) s (some i) pc tag l b = elim (Bool-cases (matches (s.tbs i) pc tag)) [
  | inl hit ↦
      let (at_pc, of_tag) = matches-true (s.tbs i) pc tag hit in
      (
        some i,
        walk-hit f s i pc tag hit,
        record {
          sound =
              λ j p. subst (Holds s pc tag) (some-injective i j p) ((b.1 i refl).0, at_pc, of_tag);
          complete = λ p. cc;
        },
      )
  | inr miss ↦
      let (i_lt, i_f) = b.1 i refl in
      let b' : Bounded s f (s.tbs i).phys_hash_next = (
        omega (arith, i_f),
        λ j p.
            let older = l.nexts i j i_lt p in
            (omega (arith, older.0, i_lt), omega (arith, older.0, i_f)),
      ) in
      let (r, run, w) = walk-Walked f s (s.tbs i).phys_hash_next pc tag l b' in
      (
        r,
        walk-miss f s i pc tag miss ∙ run,
        record {
          sound = w.sound;
          complete = λ p k on q t. elim (On-other s i k on) [
            | inl same ↦
                matches-false (s.tbs i) pc tag miss (ap (λ (x : ℕ). (s.tbs x).pc) same ∙ q)
                  (ap (λ (x : ℕ). (s.tbs x).tb_tag) same ∙ t)
            | inr on' ↦ w.complete p k on' q t
          ];
        },
      )
]

is_hit-some :
    (s : Blocks) (o : Option ℕ) (pc tag : ℕ)
    → is_hit s o pc tag ≡ true
    → (i : ℕ) × (o ≡ some i) × (matches (s.tbs i) pc tag ≡ true)
is_hit-some s none pc tag h = cc
is_hit-some s (some i) pc tag h = (i, refl, h)

pub tb_find_fast-hit :
    (fuel pc tag : ℕ) (s : Blocks)
    → is_hit s (s.tb_jmp_cache (tb_jmp_cache_hash_func pc)) pc tag ≡ true
    → tb_find_fast fuel pc tag s ≡ some (s.tb_jmp_cache (tb_jmp_cache_hash_func pc), s)
unfolding tb_find_fast
tb_find_fast-hit fuel pc tag s h = rw (tb_find_fast, h)

tb_find_fast-slow :
    (fuel pc tag : ℕ) (s : Blocks) (r : Option ℕ)
    → is_hit s (s.tb_jmp_cache (tb_jmp_cache_hash_func pc)) pc tag ≡ false
    → walk fuel s (s.tb_phys_hash (tb_phys_hash_func pc)) pc tag ≡ some r
    → tb_find_fast fuel pc tag s ≡ some (note_found r pc s)
unfolding tb_find_fast tb_find_slow
tb_find_fast-slow fuel pc tag s r h w = rw (tb_find_fast, h, tb_find_slow, ◌>>=◌, w)

-- What a search leaves behind: an answer that is right, and blocks that are still linked.
pub record Found (s : Blocks) (pc tag : ℕ) (out : Option ℕ × Blocks) : Type 0 where
  pub answers : Answers s pc tag out.0
  pub linked : IsLinked out.1
  pub same_blocks : out.1.tbs ≡ s.tbs
  pub same_count : out.1.nb_tbs ≡ s.nb_tbs
  pub same_heads : out.1.tb_phys_hash ≡ s.tb_phys_hash
  pub same_max_blocks : out.1.code_gen_max_blocks ≡ s.code_gen_max_blocks
  pub same_size : out.1.code_gen_size ≡ s.code_gen_size
  pub same_max_size : out.1.code_gen_buffer_max_size ≡ s.code_gen_buffer_max_size
  pub now_cached :
      (i : ℕ) → out.0 ≡ some i → out.1.tb_jmp_cache (tb_jmp_cache_hash_func pc) ≡ some i

pub update-same : (f : ℕ → Option ℕ) (i : ℕ) (v : Option ℕ) → update f i v i ≡ v
update-same f i v = ground arith

pub update-cached :
    (cache : ℕ → Option ℕ) (h i n : ℕ)
    → ((g j : ℕ) → cache g ≡ some j → j < n)
    → i < n
    → (g j : ℕ) → update cache h (some i) g ≡ some j
    → j < n
update-cached cache h i n old lt g j p = elim (Bool-cases (g == h)) [
  | inl same ↦ subst (λ (x : ℕ). x < n) (some-injective i j (rw same at p)) lt
  | inr differ ↦ old g j (rw differ at p)
]

note_found-Found :
    (s : Blocks) (pc tag : ℕ) (r : Option ℕ)
    → IsLinked s
    → Answers s pc tag r
    → Found s pc tag (note_found r pc s)
unfolding note_found
note_found-Found s pc tag none l a = record {
  answers = a;
  linked = l;
  same_blocks = refl;
  same_count = refl;
  same_heads = refl;
  same_max_blocks = refl;
  same_size = refl;
  same_max_size = refl;
  now_cached = λ i p. cc;
}
note_found-Found s pc tag (some i) l a = record {
  answers = a;
  linked = record {
    heads = l.heads;
    nexts = l.nexts;
    chained = l.chained;
    unique = l.unique;
    cached = update-cached s.tb_jmp_cache (tb_jmp_cache_hash_func pc) i s.nb_tbs l.cached a.0;
  };
  same_blocks = refl;
  same_count = refl;
  same_heads = refl;
  same_max_blocks = refl;
  same_size = refl;
  same_max_size = refl;
  now_cached = λ j p.
      subst
        (λ (x : ℕ).
          update s.tb_jmp_cache (tb_jmp_cache_hash_func pc) (some i) (tb_jmp_cache_hash_func pc)
          ≡ some x)
        (some-injective i j p) (update-same s.tb_jmp_cache (tb_jmp_cache_hash_func pc) (some i));
}

holds-matches :
    (s : Blocks) (o : Option ℕ) (pc tag : ℕ)
    → IsLinked s
    → is_hit s o pc tag ≡ true
    → ((i : ℕ) → o ≡ some i → i < s.nb_tbs)
    → Answers s pc tag o
holds-matches s none pc tag l h c = cc
holds-matches s (some i) pc tag l h c =
    let (at_pc, of_tag) = matches-true (s.tbs i) pc tag h in (c i refl, at_pc, of_tag)

Walked-Answers :
    (s : Blocks) (pc tag : ℕ) (r : Option ℕ)
    → IsLinked s
    → Walked s (s.tb_phys_hash (tb_phys_hash_func pc)) pc tag r
    → Answers s pc tag r
Walked-Answers s pc tag (some i) l w = w.sound i refl
Walked-Answers s pc tag none l w = λ i (i_lt, at_pc, of_tag).
    w.complete refl i
      (subst (λ (a : ℕ). On s.tbs i (s.tb_phys_hash (tb_phys_hash_func a))) at_pc
        (l.chained i i_lt))
      at_pc of_tag

-- With more fuel than there are blocks the search ends. It answers a block with the address and
-- the tag if there is one and none if there is none, changes no block and no chain, keeps the
-- structure linked, and leaves a block it found in the jump cache.
pub tb_find_fast-Found :
    (fuel pc tag : ℕ) (s : Blocks)
    → IsLinked s
    → s.nb_tbs < fuel
    → (out : Option ℕ × Blocks) × (tb_find_fast fuel pc tag s ≡ some out) × Found s pc tag out
tb_find_fast-Found fuel pc tag s l enough =
    let entry = s.tb_jmp_cache (tb_jmp_cache_hash_func pc) in
    elim (Bool-cases (is_hit s entry pc tag)) [
      | inl hit ↦ (
        (entry, s),
        tb_find_fast-hit fuel pc tag s hit,
        record {
          answers = holds-matches s entry pc tag l hit (l.cached (tb_jmp_cache_hash_func pc));
          linked = l;
          same_blocks = refl;
          same_count = refl;
          same_heads = refl;
          same_max_blocks = refl;
          same_size = refl;
          same_max_size = refl;
          now_cached = λ i p. p;
        },
      )
      | inr miss ↦
          let head = s.tb_phys_hash (tb_phys_hash_func pc) in
          let b : Bounded s fuel head = (
            omega (arith, enough),
            λ i p.
                let i_lt = (l.heads (tb_phys_hash_func pc) i p).0 in
                (i_lt, omega (arith, i_lt, enough)),
          ) in
          let (r, run, w) = walk-Walked fuel s head pc tag l b in
          (
            note_found r pc s,
            tb_find_fast-slow fuel pc tag s r miss run,
            note_found-Found s pc tag r l (Walked-Answers s pc tag r l w),
          )
    ]
