-- ===== src/Sieve/Holding.antt =====
-- What it means for memory to hold a sieve, and that it depends on the bytes of the sieve only.
use unitrans.Common.{
  u32, sub32, ◌⊎◌, ℕ, ◌%◌, List, [], ◌≤◌, ◌<◌, ◌++◌, ◌+◌, ◌*◌, ◌∷◌, arith, ◌^◌, ◌≡◌,
}
use unitrans.Common.Masks.{bit_and-slot}
use unitrans.Emit.Memory.{Memory, le32}
use unitrans.Emit.Stored.{Spells-same}
use unitrans.Sieve.Chain.{JumpsTo, Node, Chain}
use unitrans.Sieve.Entry.{default_sieve_buffer_size, SieveState}
use unitrans.Sieve.Hash.{sieve_size, sieve_hash, slot_of}

pub slot_of-index :
    (base pc : ℕ) → base + 2 ^ 19 ≤ 2 ^ 32 → slot_of base pc ≡ base + pc % 2 ^ 16 * 8
unfolding slot_of sieve_hash
slot_of-index base pc room = omega (arith, bit_and-slot (u32 (pc * 8)), room)

-- Where the table and the buffer are, and how far the buffer is filled.
pub record IsPlaced (s : SieveState) : Type 0 where
  pub table_room : s.sieve_hashtable + 2 ^ 19 ≤ 2 ^ 32
  pub buffer_room : s.sieve_buffer + default_sieve_buffer_size + 27 ≤ 2 ^ 32
  pub apart :
      s.sieve_hashtable + 2 ^ 19 ≤ s.sieve_buffer
      ⊎ s.sieve_buffer + default_sieve_buffer_size + 27 ≤ s.sieve_hashtable
  pub filled_from : s.sieve_buffer ≤ s.out.code_ptr
  pub filled_to : s.out.code_ptr ≤ s.sieve_buffer + default_sieve_buffer_size

-- Every slot jumps to the chain of its entries, newest first, and a chain ends at `exit`.
pub record Holding (s : SieveState) (exit k : ℕ) (nodes : List (ℕ × ℕ)) : Type 0 where
  pub first : ℕ
  pub jumps : JumpsTo s.out.mem (s.sieve_hashtable + k * 8) first
  pub chain : Chain s.out.mem s.sieve_buffer s.out.code_ptr exit first nodes

pub record IsSieve (s : SieveState) (exit : ℕ) (view : ℕ → List (ℕ × ℕ)) : Type 0 where
  pub placed : IsPlaced s
  pub slots : (k : ℕ) → k < sieve_size → Holding s exit k (view k)

pub JumpsTo-same :
    (m n : Memory) (a to : ℕ)
    → ((x : ℕ) → a ≤ x → x < a + 5 → n x ≡ m x)
    → JumpsTo m a to
    → JumpsTo n a to
JumpsTo-same m n a to same j = record {
  rel = j.rel;
  rel_word = j.rel_word;
  to_word = j.to_word;
  target = j.target;
  spelled = Spells-same ((0xe9 ∷ []) ++ le32 j.rel) m n a same j.spelled;
}

Node-same :
    (m n : Memory) (a pc tc_ptr after : ℕ)
    → ((x : ℕ) → a ≤ x → x < a + 27 → n x ≡ m x)
    → Node m a pc tc_ptr after
    → Node n a pc tc_ptr after
Node-same m n a pc tc_ptr after same b =
    let within =
      λ (d len : ℕ) (fits : d + len ≤ 27) (x : ℕ) (le : a + d ≤ x) (lt : x < a + d + len).
        same x (omega (arith, le)) (omega (arith, lt, fits)) in
    record {
      room = b.room;
      pc_word = b.pc_word;
      loads =
          Spells-same (0x8b ∷ 0x4c ∷ 0x24 ∷ 4 ∷ []) m n a (λ x le lt. same x le (omega (arith, lt)))
            b.loads;
      compares =
          Spells-same ((0x8d ∷ 0x89 ∷ []) ++ le32 (sub32 0 pc)) m n (a + 4)
            (within 4 6 (omega arith)) b.compares;
      branches = Spells-same (0xe3 ∷ 0x05 ∷ []) m n (a + 10) (within 10 2 (omega arith)) b.branches;
      onwards = JumpsTo-same m n (a + 12) after (within 12 5 (omega arith)) b.onwards;
      pops = Spells-same (0x59 ∷ []) m n (a + 17) (within 17 1 (omega arith)) b.pops;
      drops =
          Spells-same (0x8d ∷ 0x64 ∷ 0x24 ∷ 4 ∷ []) m n (a + 18) (within 18 4 (omega arith))
            b.drops;
      enters = JumpsTo-same m n (a + 22) tc_ptr (within 22 5 (omega arith)) b.enters;
    }

pub Chain-same :
    (m n : Memory) (lo hi hi' exit a : ℕ) (nodes : List (ℕ × ℕ))
    → hi ≤ hi'
    → ((x : ℕ) → lo ≤ x → x < hi → n x ≡ m x)
    → Chain m lo hi exit a nodes
    → Chain n lo hi' exit a nodes
Chain-same m n lo hi hi' exit a [] le same Chain.ends = Chain.ends
Chain-same m n lo hi hi' exit a ((pc, tc_ptr) ∷ older) le same
      (Chain.node {next = after} from to b chain) =
    Chain.node from (omega (arith, to, le))
      (Node-same m n a pc tc_ptr after
        (λ x x_le x_lt. same x (omega (arith, from, x_le)) (omega (arith, to, x_lt))) b)
      (Chain-same m n lo hi hi' exit after older le same chain)
