-- ===== src/Emit/Memory.antt =====
-- target-i386/emit.h: the macros that write at a cursor. Memory is a function from addresses to
-- bytes, and a cursor runs over plain numbers, since a buffer does not wrap around.
use unitrans.Blocks.State.{update}
use unitrans.Common.{length, u8, [], ◌+◌, ◌%◌, List, ◌/◌, ℕ, ◌*◌, ◌∷◌}

abbrev pub Memory : Type 0
Memory = ℕ → ℕ

-- A store of bytes from an address on.
unfoldable pub store : Memory → ℕ → List ℕ → Memory
store m a [] = m
store m a (b ∷ bytes) = store (update m a (u8 b)) (a + 1) bytes

abbrev pub le16 : ℕ → List ℕ
le16 v = v % 256 ∷ v / 256 % 256 ∷ []

abbrev pub le32 : ℕ → List ℕ
le32 v = v % 256 ∷ v / 256 % 256 ∷ v / 65536 % 256 ∷ v / 16777216 % 256 ∷ []

abbrev pub load32 : Memory → ℕ → ℕ
load32 m a = m a + 256 * m (a + 1) + 65536 * m (a + 2) + 16777216 * m (a + 3)

-- The memory and the pointer behind the code that was written last.
pub record Out : Type 0 where
  pub mem : Memory
  pub code_ptr : ℕ

unfoldable pub emit : List ℕ → Out → Out
emit bytes o = record { mem = store o.mem o.code_ptr bytes; code_ptr = o.code_ptr + length bytes }

unfoldable pub code_emit8 : ℕ → Out → Out
unfolding emit
code_emit8 val o = emit (u8 val ∷ []) o

unfoldable pub code_emit16 : ℕ → Out → Out
unfolding emit
code_emit16 val o = emit (le16 val) o

unfoldable pub code_emit32 : ℕ → Out → Out
unfolding emit
code_emit32 val o = emit (le32 val) o

-- One write after the other.
infixl 2 ◌▷◌
abbrev pub ◌▷◌ : Out → (Out → Out) → Out
o ▷ f = f o
