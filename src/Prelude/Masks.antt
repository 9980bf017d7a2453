-- ===== src/Prelude/Masks.antt =====
-- Setting a flag by `|=` and testing one by `&`, at numbers that are not known.
use Prim.Native.Nat.{
  ℕ, zero, suc, ◌+◌, ◌*◌, ◌/◌, ◌%◌, ◌≤◌, ◌<◌, min, max, digits, bit_and, bit_or, bit_and-bitwise,
  bit_or-bitwise,
}
use mathlib.Core.Path.{◌≡◌, refl, sym, ap, ◌∙◌}
use mathlib.Core.Logic.{◌↔◌}
use native.Mathlib.Omega.{arith}

module _ (z : ℕ → ℕ) (f : ℕ → ℕ → ℕ) where
  -- Digits behind the last are not looked at.
  enough_digits : (a b n m : ℕ) → a ≤ n → a ≤ m → digits z f n a b ≡ digits z f m a b
  enough_digits a b zero zero h k = refl
  enough_digits zero b zero (suc m) h k = refl
  enough_digits zero b (suc n) zero h k = refl
  enough_digits zero b (suc n) (suc m) h k = refl
  enough_digits (suc a) b zero m h k = absurd (omega arith)
  enough_digits (suc a) b (suc n) zero h k = absurd (omega arith)
  enough_digits (suc a) b (suc n) (suc m) h k =
      ap (λ (d : ℕ). d * 2 + f (suc a % 2) (b % 2))
        (enough_digits (suc a / 2) (b / 2) n m (omega arith) (omega arith))

  digits_last :
      (a b : ℕ)
      → 0 < a
      → digits z f a a b ≡ digits z f (a / 2) (a / 2) (b / 2) * 2 + f (a % 2) (b % 2)
  digits_last zero b h = absurd (omega arith)
  digits_last (suc a) b h =
      ap (λ (d : ℕ). d * 2 + f (suc a % 2) (b % 2))
        (enough_digits (suc a / 2) (b / 2) a (suc a / 2) (omega arith) (omega arith))

or_last : (a b : ℕ) → bit_or a b ≡ bit_or (a / 2) (b / 2) * 2 + max (a % 2) (b % 2)
or_last zero b = omega (arith, bit_or-bitwise 0 b, bit_or-bitwise 0 (b / 2))
or_last (suc a) b =
    bit_or-bitwise (suc a) b
    ∙ digits_last (λ b. b) max (suc a) b (omega arith)
    ∙ ap (λ (d : ℕ). d * 2 + max (suc a % 2) (b % 2)) (sym (bit_or-bitwise (suc a / 2) (b / 2)))

and_last : (a b : ℕ) → bit_and a b ≡ bit_and (a / 2) (b / 2) * 2 + min (a % 2) (b % 2)
and_last zero b = omega (arith, bit_and-bitwise 0 b, bit_and-bitwise 0 (b / 2))
and_last (suc a) b =
    bit_and-bitwise (suc a) b
    ∙ digits_last (λ b. 0) min (suc a) b (omega arith)
    ∙ ap (λ (d : ℕ). d * 2 + min (suc a % 2) (b % 2)) (sym (bit_and-bitwise (suc a / 2) (b / 2)))

no_mask : (g : ℕ) → bit_and 0 g ≡ 0
no_mask g = bit_and-bitwise 0 g

or_nothing : bit_or 0 0 ≡ 0
or_nothing = refl

more_digits :
    (a f g : ℕ)
    → (bit_and (bit_or (a / 2) (f / 2)) (g / 2) ≡ 0)
      ↔ ((bit_and (a / 2) (g / 2) ≡ 0) × (bit_and (f / 2) (g / 2) ≡ 0))
    → (bit_and (bit_or a f) g ≡ 0) ↔ ((bit_and a g ≡ 0) × (bit_and f g ≡ 0))
more_digits a f g ih =
    let e : bit_or a f / 2 ≡ bit_or (a / 2) (f / 2) = omega (arith, or_last a f) in
    let e' : bit_and (bit_or a f / 2) (g / 2) ≡ bit_and (bit_or (a / 2) (f / 2)) (g / 2) =
      ap (λ o. bit_and o (g / 2)) e in
    (
      λ u.
          let (p, q) = ih.0 (omega (arith, and_last (bit_or a f) g)) in
          (
            omega (arith, and_last a g, and_last (bit_or a f) g, or_last a f),
            omega (arith, and_last f g, and_last (bit_or a f) g, or_last a f),
          ),
      λ u.
          let r = ih.1 (omega (arith, and_last a g), omega (arith, and_last f g)) in
          omega (arith, and_last (bit_or a f) g, and_last a g, and_last f g, or_last a f),
    )

-- Fuel for the digits.
masked :
    (n a f g : ℕ)
    → a + f ≤ n
    → (bit_and (bit_or a f) g ≡ 0) ↔ ((bit_and a g ≡ 0) × (bit_and f g ≡ 0))
masked n zero zero g h = ((λ e. (no_mask g, no_mask g)), (λ e. no_mask g))
masked zero (suc a) f g h = absurd (omega arith)
masked zero zero (suc f) g h = absurd (omega arith)
masked (suc n) (suc a) f g h =
    more_digits (suc a) f g (masked n (suc a / 2) (f / 2) (g / 2) (omega arith))
masked (suc n) zero (suc f) g h =
    more_digits 0 (suc f) g (masked n (0 / 2) (suc f / 2) (g / 2) (omega arith))

-- A flag is off behind `a |= f` if it is off in both.
pub bit_and-bit_or :
    (a f g : ℕ) → (bit_and (bit_or a f) g ≡ 0) ↔ ((bit_and a g ≡ 0) × (bit_and f g ≡ 0))
bit_and-bit_or a f g = masked (a + f) a f g (omega arith)
