-- ===== src/Outcome/Post.antt =====
-- Postconditions of a `Result`: `P` of the value that is returned, `H` of how the program stops.
use tnef.Prelude.{ℕ, Bool, true, false, ◌≡◌, ◌≢◌, refl, if◌then◌else◌}
use mathlib.Core.Path.{subst}
use tnef.Outcome.{
  Halt, exit, abort, assert_failed, fault, Result, ok, halt, assert, stop_if, ◌>>=◌, ◌>>◌,
}

pub data Post {ℓ} {A : Type ℓ} (P : A → Type 0) (H : Halt → Type 0) : Result A → Type ℓ where
  returns : {a : A} → P a → Post P H (ok a)
  stops : {h : Halt} → H h → Post P H (halt h)

-- The program may stop in any way.
abbrev pub Any : Halt → Type 0
Any h = Unit

-- It may stop, but not by undefined behaviour.
abbrev pub NoFault : Halt → Type 0
NoFault h = h ≢ fault

pub exit-ne-fault : (n : ℕ) → exit n ≢ fault
exit-ne-fault n e = cc

pub failed-ne-fault : assert_failed ≢ fault
failed-ne-fault e = cc

pub abort-ne-fault : abort ≢ fault
abort-ne-fault e = cc

module _ {ℓ κ} {A : Type ℓ} {B : Type κ} {P : A → Type 0} {Q : B → Type 0} {H : Halt → Type 0} where
  pub bind :
      (m : Result A) (f : A → Result B)
      → Post P H m
      → ((a : A) → P a → Post Q H (f a))
      → Post Q H (m >>= f)
  bind (ok a) f (returns p) k = k a p
  bind (halt h) f (stops q) k = stops q

module _ {κ} {B : Type κ} {P : Unit {0} → Type 0} {Q : B → Type 0} {H : Halt → Type 0} where
  pub seq :
      (m : Result (Unit {0})) (k : Result B) → Post P H m → (P tt → Post Q H k) → Post Q H (m >> k)
  seq (ok tt) k (returns p) n = n p
  seq (halt h) k (stops q) n = stops q

module _ {ℓ} {A : Type ℓ} {P : A → Type 0} {H : Halt → Type 0} where
  -- For a branch whose test is remembered.
  pub if_Post :
      (b : Bool) (x y : Result A)
      → (b ≡ true → Post P H x)
      → (b ≡ false → Post P H y)
      → Post P H (if b then x else y)
  if_Post true x y f g = f refl
  if_Post false x y f g = g refl

  pub weaken : {Q : A → Type 0} (r : Result A) → ((a : A) → P a → Q a) → Post P H r → Post Q H r
  weaken (ok a) f (returns p) = returns (f a p)
  weaken (halt h) f (stops q) = stops q

  pub and_also :
      {Q : A → Type 0} (r : Result A) → Post P H r → Post Q H r → Post (λ a. P a × Q a) H r
  and_also (ok a) (returns p) (returns q) = returns (p, q)
  and_also (halt h) (stops n) (stops n') = stops n

  pub of_ok : (m : Result A) (a : A) → Post P H m → m ≡ ok a → P a
  of_ok (ok b) a (returns p) e = subst P (cc) p
  of_ok (halt h) a (stops q) e = cc

  pub of_halt : (m : Result A) (h : Halt) → Post P H m → m ≡ halt h → H h
  of_halt (ok b) h (returns p) e = cc
  of_halt (halt h') h (stops q) e = subst H (cc) q

  -- A condition that holds of whatever is returned.
  pub if_ok :
      (m : Result A) → ((a : A) → m ≡ ok a → P a) → ((h : Halt) → m ≡ halt h → H h) → Post P H m
  if_ok (ok a) p q = returns (p a refl)
  if_ok (halt h) p q = stops (q h refl)

pub anyhow {ℓ} : {A : Type ℓ} (m : Result A) → Post (λ _. Unit) Any m
anyhow (ok a) = returns tt
anyhow (halt h) = stops tt

pub assert-Post :
    {H : Halt → Type 0} (b : Bool) → H assert_failed → Post (λ _. b ≡ true) H (assert b)
assert-Post true h = returns refl
assert-Post false h = stops h

pub stop_if-Post :
    {H : Halt → Type 0} (b : Bool) (h : Halt) → H h → Post (λ _. b ≡ false) H (stop_if b h)
stop_if-Post true h q = stops q
stop_if-Post false h q = returns refl
