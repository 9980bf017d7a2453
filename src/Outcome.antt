-- ===== src/Outcome.antt =====
-- How a function of the program ends: it returns a value, or the process stops.
-- A failed read outside of a buffer or through a null pointer is undefined in C; the model stops
-- there with `fault`.
pub mod Post
use tnef.Prelude.{ℕ, Bool, true, false, ◌≡◌, refl, ◌⊎◌, inl, inr, ◌≢◌}

pub data Halt : Type 0 where
  -- `exit (n)`, as the status that the parent process sees: `exit (-1)` is 255
  exit : ℕ → Halt
  -- `abort ()`
  abort : Halt
  -- a failed `assert`
  assert_failed : Halt
  -- undefined behaviour: an access outside of a block, or through a null pointer
  fault : Halt

pub data Result {ℓ} (A : Type ℓ) : Type ℓ where
  ok : A → Result A
  halt : Halt → Result A

infixl 5 ◌>>=◌ ◌>>◌
abbrev pub ◌>>=◌ {ℓ κ} : {A : Type ℓ} {B : Type κ} → Result A → (A → Result B) → Result B
ok a >>= f = f a
halt h >>= f = halt h

abbrev pub ◌>>◌ {ℓ} : {B : Type ℓ} → Result (Unit {0}) → Result B → Result B
m >> k = m >>= λ _. k

-- `assert (b)`
abbrev pub assert : Bool → Result (Unit {0})
assert true = ok tt
assert false = halt assert_failed

-- `if (b) exit (n)` and `if (b) abort ()`
abbrev pub stop_if : Bool → Halt → Result (Unit {0})
stop_if true h = halt h
stop_if false h = ok tt
