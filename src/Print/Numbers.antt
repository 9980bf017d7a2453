-- ===== src/Print/Numbers.antt =====
-- The printed numbers can be read back, and how long they are.
use native.Mathlib.Nat.{
  div-add-mod', div-lt_iff_lt-mul, mod-lt, mod-eq_of_lt, pow-suc, pow-zero, le_trans,
}
use tnef.Prelude.{
  ℕ, zero, suc, ◌+◌, ◌-◌, ◌*◌, ◌/◌, ◌%◌, ◌^◌, ◌≡◌, ◌≤◌, ◌<◌, refl, ap, ◌∙◌, arith, true, [], ◌∷◌,
  ◌++◌, length, replicate, ltb, if◌then◌else◌, Bool-cases, inl, inr,
}
use tnef.Util.{Bytes}
use tnef.Print.{digit, number_onto, decimal, hex, padded}

abbrev undigit : ℕ → ℕ
undigit c = if ltb c b'a' then c - b'0' else c - 87

-- The number that digits stand for, with the digits before them worth `n`.
unfoldable pub value : ℕ → ℕ → Bytes → ℕ
value base n [] = n
value base n (c ∷ digits) = value base (n * base + undigit c) digits

undigit-digit : (d : ℕ) → d < 16 → undigit (digit d) ≡ d
undigit-digit d h = ground arith

of_ltb : (m n : ℕ) → ltb m n ≡ true → m < n
of_ltb m n e = ground arith

ltb_of : (m n : ℕ) → m < n → ltb m n ≡ true
ltb_of m n h = ground arith

pow_one : (b : ℕ) → b ^ 1 ≡ b
pow_one b = rw (pow-suc b 0, pow-zero b) (omega arith)

zero_of : (b n : ℕ) → n < b ^ 0 → 0 ≡ n
zero_of b n h = omega (arith, pow-zero b)

module _ (base : ℕ) (two : 2 ≤ base) (few : base ≤ 16) where
  -- The last digit is worth what division leaves.
  value-digit : (n m : ℕ) → m * base + undigit (digit (n % base)) ≡ m * base + n % base
  value-digit n m =
      ap (λ d. m * base + d)
        (undigit-digit (n % base) (omega (arith, mod-lt n {m = base} (omega arith))))

  value-number_onto :
      (k n : ℕ) (rest : Bytes)
      → n < base ^ k
      → value base 0 (number_onto base k n rest) ≡ value base n rest
  unfolding value number_onto
  value-number_onto zero n rest h = ap (λ m. value base m rest) (zero_of base n h)
  value-number_onto (suc k) n rest h = elim (Bool-cases (ltb n base)) [
    | inl one ↦ rw one (
        ap (λ m. value base m rest)
          (value-digit n 0 ∙ omega (arith, mod-eq_of_lt {n = n} {m = base} (of_ltb n base one))))
    | inr more ↦ rw more (
        value-number_onto k (n / base) (digit (n % base) ∷ rest)
          ((div-lt_iff_lt-mul (omega arith)).1 (rw (← pow-suc base k) h))
        ∙ ap (λ m. value base m rest) (value-digit n (n / base) ∙ div-add-mod' n base))
  ]

nothing : (base : ℕ) → 0 * base + 0 ≡ 0
nothing base = omega arith

-- The least width: leading zeros, which do not count.
value-zeros :
    (base k : ℕ) (digits : Bytes) → value base 0 (replicate k b'0' ++ digits) ≡ value base 0 digits
unfolding value
value-zeros base zero digits = refl
value-zeros base (suc k) digits =
    ap (λ m. value base m (replicate k b'0' ++ digits)) (nothing base) ∙ value-zeros base k digits

-- `decimal` prints 64 bits so that they can be read back.
pub value-decimal : (n : ℕ) → n < 2 ^ 64 → value 10 0 (decimal n) ≡ n
unfolding value
value-decimal n h = value-number_onto 10 (omega arith) (omega arith) 20 n [] (omega arith)

pub value-hex : (n : ℕ) → n < 2 ^ 64 → value 16 0 (hex n) ≡ n
unfolding value
value-hex n h = value-number_onto 16 (omega arith) (omega arith) 16 n [] (omega arith)

pub value-padded :
    (base k : ℕ) (digits : Bytes) → value base 0 (padded k digits) ≡ value base 0 digits
value-padded base k digits = value-zeros base (k - length digits) digits

-- A number below base ^ k has k digits at most.
length-number_onto :
    (base : ℕ)
    → 2 ≤ base
    → (fuel k n : ℕ) (rest : Bytes) → n < base ^ suc k
    → length (number_onto base fuel n rest) ≤ suc k + length rest
unfolding number_onto
length-number_onto base two zero k n rest h = omega arith
length-number_onto base two (suc fuel) zero n rest h =
    rw (ltb_of n base (rw (← pow_one base) h)) (omega arith)
length-number_onto base two (suc fuel) (suc k) n rest h = elim (Bool-cases (ltb n base)) [
  | inl one ↦ rw one (omega arith)
  | inr more ↦ rw more (
      le_trans
        (length-number_onto base two fuel k (n / base) (digit (n % base) ∷ rest)
          ((div-lt_iff_lt-mul (omega arith)).1 (rw (← pow-suc base (suc k)) h)))
        (omega arith))
]

length-zeros : (k : ℕ) (digits : Bytes) → length (replicate k b'0' ++ digits) ≡ k + length digits
length-zeros zero digits = omega arith
length-zeros (suc k) digits = omega (arith, length-zeros k digits)

-- What `%0kd` prints of a number with at most k digits.
abbrev pub Field : ℕ → ℕ → Bytes → Type 0
Field k n digits = (length digits ≡ k) × (value 10 0 digits ≡ n)

pub field : (k n : ℕ) → n < 10 ^ suc k → n < 2 ^ 64 → Field (suc k) n (padded (suc k) (decimal n))
field k n h w = (
  omega (
    arith,
    length-zeros (suc k - length (decimal n)) (decimal n),
    length-number_onto 10 (omega arith) 20 k n [] h,
  ),
  value-padded 10 (suc k) (decimal n) ∙ value-decimal n w,
)

-- The same of `%0kx`.
pub hex_field :
    (k n : ℕ)
    → n < 16 ^ suc k
    → n < 2 ^ 64
    → (length (padded (suc k) (hex n)) ≡ suc k) × (value 16 0 (padded (suc k) (hex n)) ≡ n)
hex_field k n h w = (
  omega (
    arith,
    length-zeros (suc k - length (hex n)) (hex n),
    length-number_onto 16 (omega arith) 16 k n [] h,
  ),
  value-padded 16 (suc k) (hex n) ∙ value-hex n w,
)
