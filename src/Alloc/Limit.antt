-- ===== src/Alloc/Limit.antt =====
-- What the limited allocators promise, in plain arithmetic.
use tnef.Prelude.{
  List, length, ℕ, Bool, ◌*◌, ◌+◌, ◌%◌, ◌^◌, ◌<◌, ◌≡◌, ◌≤◌, ◌⊎◌, arith, not, ◌&&◌, true, some, ltb,
  ◌==◌, if◌then◌else◌,
}
use tnef.Outcome.{ok, halt, abort, exit}
use tnef.Env.{Env}
use tnef.Alloc.{
  xstrdup, malloc, null_check, alloc_limit_assert, xmalloc, checked_xmalloc, xcalloc,
  checked_xcalloc, or_abort,
}
use tnef.Alloc.Overflow.{checked_product_exact, check_mul_overflow_exact}

-- Whether `n` bytes are above the limit; the limit 0 is no limit.
abbrev pub over_limit : Env → ℕ → Bool
over_limit env n = not (env.alloc_limit == 0) && ltb env.alloc_limit n

wrap_free : (n : ℕ) → n < 2 ^ 64 → n % 2 ^ 64 ≡ n
wrap_free n h = omega arith

-- `checked_xmalloc` on every branch: the size is tested for overflow with the extra bytes, the
-- limit is held against the size without them, and only a block of size 0 may come back as NULL.
pub checked_xmalloc_cases :
    (env : Env) (num size extra : ℕ)
    → extra < 2 ^ 64
    → checked_xmalloc env num size extra ≡ (
        if ltb (num * size + extra) (2 ^ 64)
        then (if over_limit env (num * size)
            then halt (exit 255)
            else null_check (malloc env (num * size + extra)) size)
        else halt abort)
unfolding checked_xmalloc xmalloc alloc_limit_assert
checked_xmalloc_cases env num size extra h =
    ground (arith, checked_product_exact num size extra h, wrap_free (num * size + extra))

-- `checked_xcalloc` on every branch: here the limit is tested before the extra bytes are added, and
-- a failure of `malloc` comes back as NULL.
pub checked_xcalloc_cases :
    (env : Env) (num size extra : ℕ)
    → extra < 2 ^ 64
    → checked_xcalloc env num size extra ≡ (
        if ltb (num * size) (2 ^ 64)
        then (if over_limit env (num * size)
            then halt (exit 255)
            else if ltb (num * size + extra) (2 ^ 64)
            then ok (malloc env (num * size + extra))
            else halt abort)
        else halt abort)
unfolding checked_xcalloc xcalloc alloc_limit_assert or_abort
checked_xcalloc_cases env num size extra h = ground (
  arith,
  check_mul_overflow_exact num size,
  checked_product_exact num size extra h,
  wrap_free (num * size + extra),
)

-- Blocks of up to `n` bytes are within the limit, and `malloc` never fails.
pub record Serves (env : Env) (n : ℕ) : Type 0 where
  pub within : (env.alloc_limit ≡ 0) ⊎ (n ≤ env.alloc_limit)
  pub serves : (k : ℕ) → env.malloc k ≡ true

pub checked_xcalloc-Serves :
    {env : Env} (num size extra : ℕ)
    → Serves env (num * size)
    → num * size + extra < 2 ^ 64
    → checked_xcalloc env num size extra ≡ ok (some (num * size + extra))
unfolding malloc
checked_xcalloc-Serves {env} num size extra s h =
    ground
      (arith, checked_xcalloc_cases env num size extra (omega arith), s.serves (num * size + extra))

pub checked_xmalloc-Serves :
    {env : Env} (num size extra : ℕ)
    → Serves env (num * size)
    → num * size + extra < 2 ^ 64
    → checked_xmalloc env num size extra ≡ ok (some (num * size + extra))
unfolding malloc null_check
checked_xmalloc-Serves {env} num size extra s h =
    ground
      (arith, checked_xmalloc_cases env num size extra (omega arith), s.serves (num * size + extra))

pub Serves-le : {env : Env} {n : ℕ} (m : ℕ) → Serves env n → m ≤ n → Serves env m
Serves-le m s h = record { within = ground arith; serves = s.serves }

pub xstrdup-Serves :
    {env : Env} (str : List ℕ)
    → Serves env (length str)
    → xstrdup env (some str) ≡ ok (some (length str + 1))
unfolding xstrdup malloc alloc_limit_assert
xstrdup-Serves {env} str s = ground (arith, s.serves (length str + 1))
