-- ===== src/Decode/Run.antt =====
-- The outcome of a decoding step: a value, a table read out of range, or no fuel left.
use unitrans.Common.{◌≡◌}

pub data Run {ℓ} (A : Type ℓ) : Type ℓ where
  ok : A → Run A
  bad_table : Run A
  out_of_fuel : Run A

infixl 5 ◌>>=◌
abbrev pub ◌>>=◌ {ℓ κ} : {A : Type ℓ} {B : Type κ} → Run A → (A → Run B) → Run B
bad_table >>= next = bad_table
out_of_fuel >>= next = out_of_fuel
ok value >>= next = next value

-- The run ends normally, in a value that satisfies `Post`.
abbrev pub Returns {ℓ κ} : {A : Type ℓ} → Run A → (A → Type κ) → Type (ℓ ⊔ κ)
Returns {A} run Post = (value : A) × (run ≡ ok value) × Post value
