-- ===== src/Alloc/Overflow.antt =====
-- The overflow tests of src/alloc.c.
use native.Mathlib.Nat.{mul-div_cancel_left, div-lt_iff_lt-mul, mul_comm}
use tnef.Prelude.{
  ℕ, zero, suc, ◌*◌, ◌+◌, ◌/◌, ◌%◌, ◌^◌, ◌<◌, ◌≡◌, arith, none, some, ltb, if◌then◌else◌,
  Bool-cases, inl, inr,
}
use tnef.Outcome.{ok, halt, abort}
use tnef.Alloc.{check_mul_overflow, checked_product}

div_of_mul : (a b : ℕ) → 0 < a → a * b / a ≡ b
div_of_mul a b h = mul-div_cancel_left b h

div_of_less : (a b t : ℕ) → 0 < a → t < a * b → t / a < b
div_of_less a b t p h = (div-lt_iff_lt-mul p).1 (rw (mul_comm b a) h)

-- The product comes back exactly when it fits a `size_t`, and 1 is returned otherwise.
pub check_mul_overflow_exact :
    (a b : ℕ) → check_mul_overflow a b ≡ (if ltb (a * b) (2 ^ 64) then some (a * b) else none)
unfolding check_mul_overflow
check_mul_overflow_exact zero b = ground arith
check_mul_overflow_exact (suc a) b =
    ground (arith, div_of_mul (suc a) b, div_of_less (suc a) b (suc a * b % 2 ^ 64))

-- Both tests together: the allocators go on exactly when the whole size fits a `size_t`.
pub checked_product_exact :
    (num size extra : ℕ)
    → extra < 2 ^ 64
    → checked_product num size extra
      ≡ (if ltb (num * size + extra) (2 ^ 64) then ok (num * size) else halt abort)
unfolding checked_product
checked_product_exact num size extra h = elim (Bool-cases (ltb (num * size) (2 ^ 64))) [
  | inl e ↦ rw (check_mul_overflow_exact num size, checked_product, e) (ground arith)
  | inr e ↦ rw (check_mul_overflow_exact num size, checked_product, e) (ground arith)
]
