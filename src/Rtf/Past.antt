-- ===== src/Rtf/Past.antt =====
-- Lists of bytes that are written at one place and read at another.
use tnef.Prelude.{
  ℕ, zero, suc, ◌+◌, ◌<◌, ◌≤◌, ◌≡◌, ◌≢◌, refl, ap, arith, [], ◌∷◌, ◌++◌, length, get_or, set,
  replicate,
}
use tnef.Util.{Bytes}
use tnef.Rtf.Lz77.{onto}

pub get_or-set_self : (xs : Bytes) (i v : ℕ) → i < length xs → get_or (set xs i v) i 0 ≡ v
get_or-set_self [] i v h = absurd (omega arith)
get_or-set_self (x ∷ xs) zero v h = refl
get_or-set_self (x ∷ xs) (suc i) v h = get_or-set_self xs i v (omega arith)

pub get_or-set_ne : (xs : Bytes) (i j v : ℕ) → i ≢ j → get_or (set xs i v) j 0 ≡ get_or xs j 0
get_or-set_ne [] i j v h = refl
get_or-set_ne (x ∷ xs) zero zero v h = absurd (h refl)
get_or-set_ne (x ∷ xs) zero (suc j) v h = refl
get_or-set_ne (x ∷ xs) (suc i) zero v h = refl
get_or-set_ne (x ∷ xs) (suc i) (suc j) v h = get_or-set_ne xs i j v (λ e. h (ap suc e))

pub get_or-zeros : (xs : Bytes) (k i : ℕ) → get_or (xs ++ replicate k 0) i 0 ≡ get_or xs i 0
get_or-zeros [] zero i = refl
get_or-zeros [] (suc k) zero = refl
get_or-zeros [] (suc k) (suc i) = get_or-zeros [] k i
get_or-zeros (x ∷ xs) k zero = refl
get_or-zeros (x ∷ xs) k (suc i) = get_or-zeros xs k i

pub get_or_outside : (xs : Bytes) (i : ℕ) → length xs ≤ i → get_or xs i 0 ≡ 0
get_or_outside [] i h = refl
get_or_outside (x ∷ xs) zero h = absurd (omega arith)
get_or_outside (x ∷ xs) (suc i) h = get_or_outside xs i (omega arith)

pub onto-snoc : (xs : Bytes) (b : ℕ) (past : Bytes) → onto (xs ++ b ∷ []) past ≡ b ∷ onto xs past
unfolding onto
onto-snoc [] b past = refl
onto-snoc (x ∷ xs) b past = onto-snoc xs b (x ∷ past)

pub nil-onto : (past : Bytes) → onto [] past ≡ past
unfolding onto
nil-onto past = refl

pub length-onto : (xs past : Bytes) → length (onto xs past) ≡ length xs + length past
unfolding onto
length-onto [] past = omega arith
length-onto (x ∷ xs) past = omega (arith, length-onto xs (x ∷ past))
