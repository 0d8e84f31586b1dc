-- ===== src/Common/Tried.antt =====
-- A step that may abort the program, and that is searched for with fuel.
use unitrans.Common.{Option, none, some}

pub data Tried {ℓ} (A : Type ℓ) : Type ℓ where
  result : A → Tried A
  abort : Tried A
  no_fuel : Tried A

infixl 5 ◌>>=◌
abbrev pub ◌>>=◌ {ℓ κ} : {A : Type ℓ} {B : Type κ} → Tried A → (A → Tried B) → Tried B
result a >>= f = f a
abort >>= f = abort
no_fuel >>= f = no_fuel

-- A search whose `none` is the end of its fuel, and a step whose `none` is an abort.
abbrev pub of_search {ℓ} : {A : Type ℓ} → Option A → Tried A
of_search none = no_fuel
of_search (some a) = result a

abbrev pub of_step {ℓ} : {A : Type ℓ} → Option A → Tried A
of_step none = abort
of_step (some a) = result a
