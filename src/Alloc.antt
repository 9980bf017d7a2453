-- ===== src/Alloc.antt =====
-- src/alloc.c and src/xstrdup.c: allocation with overflow checks and a limit.
-- A pointer is `none` for NULL, and else the number of bytes of its block. `size_t` has 64 bits.
pub mod Overflow
pub mod Limit
pub mod Safety
use tnef.Prelude.{
  ℕ, ◌+◌, ◌*◌, ◌/◌, ◌%◌, ◌^◌, Bool, true, false, not, ◌&&◌, Option, none, some, ltb, ◌==◌, List,
  length, if◌then◌else◌,
}
use tnef.Outcome.{Result, ok, halt, exit, abort, fault, stop_if, ◌>>=◌, ◌>>◌}
use tnef.Env.{Env}

abbrev pub Pointer : Type 0
Pointer = Option ℕ

abbrev pub is_null : Pointer → Bool
is_null none = true
is_null (some n) = false

-- `none` where the function returns 1, and the product in `*res` where it returns 0.
unfoldable pub check_mul_overflow : ℕ → ℕ → Option ℕ
check_mul_overflow a b =
    let tmp = a * b % 2 ^ 64 in if not (a == 0) && not (tmp / a == b) then none else some tmp

-- The platform's `malloc`.
unfoldable pub malloc : Env → ℕ → Pointer
malloc env n = if env.malloc n then some n else none

unfoldable pub alloc_limit_assert : Env → ℕ → Result (Unit {0})
alloc_limit_assert env size =
    stop_if (not (env.alloc_limit == 0) && ltb env.alloc_limit size) (exit 255)

-- The two tests at the head of every allocator: `res`, or `abort ()`.
unfoldable pub checked_product : ℕ → ℕ → ℕ → Result ℕ
checked_product num size extra = elim (check_mul_overflow num size) [
  | none ↦ halt abort
  | some res ↦ if ltb ((res + extra) % 2 ^ 64) res then halt abort else ok res
]

unfoldable pub null_check : Pointer → ℕ → Result Pointer
null_check none size = if size == 0 then ok none else halt abort
null_check (some n) size = ok (some n)

unfoldable pub xmalloc : Env → ℕ → ℕ → ℕ → Result Pointer
xmalloc env num size extra = do
  res ← checked_product num size extra
  null_check (malloc env ((res + extra) % 2 ^ 64)) size

unfoldable pub checked_xmalloc : Env → ℕ → ℕ → ℕ → Result Pointer
checked_xmalloc env num size extra = do
  res ← checked_product num size extra
  alloc_limit_assert env res
  xmalloc env num size extra

-- The block is cleared; a failure of `malloc` is passed on as NULL.
unfoldable pub xcalloc : Env → ℕ → ℕ → ℕ → Result Pointer
xcalloc env num size extra = do
  res ← checked_product num size extra
  ok (malloc env ((res + extra) % 2 ^ 64))

unfoldable pub or_abort : Option ℕ → Result ℕ
or_abort none = halt abort
or_abort (some res) = ok res

unfoldable pub checked_xcalloc : Env → ℕ → ℕ → ℕ → Result Pointer
checked_xcalloc env num size extra = do
  res ← or_abort (check_mul_overflow num size)
  alloc_limit_assert env res
  xcalloc env num size extra

-- `xstrdup` of a string, given as its characters; `strdup` calls `malloc`.
unfoldable pub xstrdup : Env → Option (List ℕ) → Result Pointer
xstrdup env none = ok none
xstrdup env (some str) = do alloc_limit_assert env (length str); ok (malloc env (length str + 1))

-- The first access through a pointer.
unfoldable pub access : Pointer → Result (Unit {0})
access none = halt fault
access (some n) = ok tt

-- `memmove` of `n` bytes to a pointer: none at all may go to NULL.
abbrev pub access_some : Pointer → ℕ → Result (Unit {0})
access_some (some k) n = ok tt
access_some none n = if n == 0 then ok tt else halt fault
