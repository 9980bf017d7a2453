-- ===== src/Attr/Checksum.antt =====
-- The checksum of src/attr.c.
use tnef.Prelude.{ℕ, ◌+◌, ◌%◌, ◌^◌, ◌<◌, ◌≡◌, arith, [], ◌∷◌, ◌++◌, length, take-append, ◌==◌}
use native.Mathlib.Nat.{zero-add}
use tnef.Util.{Bytes}
use tnef.Attr.{Attr, checksum_loop, check_checksum}

abbrev pub sum : Bytes → ℕ
sum [] = 0
sum (b ∷ bytes) = b + sum bytes

pub checksum_loop-sum :
    (start : ℕ) (bytes : Bytes)
    → start < 2 ^ 16
    → checksum_loop start bytes ≡ (start + sum bytes) % 2 ^ 16
unfolding checksum_loop
checksum_loop-sum start [] h = omega arith
checksum_loop-sum start (b ∷ bytes) h =
    omega (arith, checksum_loop-sum ((start + b) % 2 ^ 16) bytes (omega arith))

pub check_checksum-append :
    (attr : Attr) (body : Bytes) (checksum : ℕ)
    → attr.len ≡ length body
    → attr.buf ≡ body ++ 0 ∷ []
    → check_checksum attr checksum ≡ (sum body % 65536 == checksum)
unfolding check_checksum
check_checksum-append attr body checksum l b =
    rw (l, b, take-append body (0 ∷ []), checksum_loop-sum 0 body (omega arith), zero-add)
