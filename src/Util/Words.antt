-- ===== src/Util/Words.antt =====
-- The little-endian readers of src/util.c against a writer, and where they may read.
use tnef.Prelude.{ℕ, ◌/◌, ◌%◌, ◌^◌, ◌<◌, ◌≤◌, ◌≡◌, refl, arith, [], ◌∷◌, ◌++◌, length}
use tnef.Outcome.{ok}
use tnef.Util.{Bytes, getint32, getint16}

-- The bytes of a number, lowest first.
unfoldable pub put16 : ℕ → Bytes
put16 v = v % 256 ∷ v / 256 % 256 ∷ []

unfoldable pub put32 : ℕ → Bytes
put32 v = v % 256 ∷ v / 2 ^ 8 % 256 ∷ v / 2 ^ 16 % 256 ∷ v / 2 ^ 24 % 256 ∷ []

pub getint32-put32 : (v : ℕ) (rest : Bytes) → v < 2 ^ 32 → getint32 (put32 v ++ rest) ≡ ok v
unfolding getint32 put32
getint32-put32 v rest h = ground arith

pub getint16-put16 : (v : ℕ) (rest : Bytes) → v < 2 ^ 16 → getint16 (put16 v ++ rest) ≡ ok v
unfolding getint16 put16
getint16-put16 v rest h = ground arith

-- Four bytes at hand are enough, and the value is a `uint32`.
pub getint32_reads : (p : Bytes) → 4 ≤ length p → (v : ℕ) × (getint32 p ≡ ok v) × (v < 2 ^ 32)
unfolding getint32
getint32_reads (a ∷ b ∷ c ∷ d ∷ p) h = (_, refl, omega arith)
getint32_reads [] h = absurd (omega arith)
getint32_reads (a ∷ []) h = absurd (omega arith)
getint32_reads (a ∷ b ∷ []) h = absurd (omega arith)
getint32_reads (a ∷ b ∷ c ∷ []) h = absurd (omega arith)

pub getint16_reads : (p : Bytes) → 2 ≤ length p → (v : ℕ) × (getint16 p ≡ ok v) × (v < 2 ^ 16)
unfolding getint16
getint16_reads (a ∷ b ∷ p) h = (_, refl, omega arith)
getint16_reads [] h = absurd (omega arith)
getint16_reads (a ∷ []) h = absurd (omega arith)
