-- ===== src/Blocks/Invariant.antt =====
-- What the block array, the hash chains and the jump cache have to do with each other.
-- The block `i` is on the chain that starts at `o`.
use unitrans.Blocks.Hash.{tb_phys_hash_func}
use unitrans.Blocks.State.{Block, Blocks}
use unitrans.Common.{◌≡◌, ◌<◌, Option, ℕ, none, some}

pub data On (tbs : ℕ → Block) (i : ℕ) : Option ℕ → Type 0 where
  here : {o : Option ℕ} → o ≡ some i → On tbs i o
  next : {o : Option ℕ} (j : ℕ) → o ≡ some j → On tbs i (tbs j).phys_hash_next → On tbs i o

-- A chain runs from a younger block to an older one, through blocks of one hash value, every
-- allocated block is on the chain of its address, and no two have the same address and tag.
pub record IsLinked (s : Blocks) : Type 0 where
  pub heads :
      (h i : ℕ) → s.tb_phys_hash h ≡ some i → (i < s.nb_tbs) × (tb_phys_hash_func (s.tbs i).pc ≡ h)
  pub nexts :
      (i j : ℕ)
      → i < s.nb_tbs
      → (s.tbs i).phys_hash_next ≡ some j
      → (j < i) × (tb_phys_hash_func (s.tbs j).pc ≡ tb_phys_hash_func (s.tbs i).pc)
  pub chained :
      (i : ℕ) → i < s.nb_tbs → On s.tbs i (s.tb_phys_hash (tb_phys_hash_func (s.tbs i).pc))
  pub cached : (h i : ℕ) → s.tb_jmp_cache h ≡ some i → i < s.nb_tbs
  pub unique :
      (i j : ℕ)
      → i < s.nb_tbs
      → j < s.nb_tbs
      → (s.tbs i).pc ≡ (s.tbs j).pc
      → (s.tbs i).tb_tag ≡ (s.tbs j).tb_tag
      → i ≡ j

-- The abstract view: the block of an address and a tag, and that there is none.
abbrev pub Holds : Blocks → ℕ → ℕ → ℕ → Type 0
Holds s pc tag i = (i < s.nb_tbs) × ((s.tbs i).pc ≡ pc) × ((s.tbs i).tb_tag ≡ tag)

abbrev pub Answers : Blocks → ℕ → ℕ → Option ℕ → Type 0
Answers s pc tag (some i) = Holds s pc tag i
Answers s pc tag none = (i : ℕ) → ¬ Holds s pc tag i
