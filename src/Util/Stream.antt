-- ===== src/Util/Stream.antt =====
-- The stream readers of src/util.c: what they return, what they leave, and the end of the input.
use tnef.Prelude.{
  ℕ, ◌+◌, ◌^◌, ◌<◌, ◌≡◌, arith, [], ◌∷◌, ◌++◌, length, take-append, drop-append, length-append,
  length-take, length-drop, ltb_of_le,
}
use tnef.Outcome.{ok, halt, exit}
use tnef.Util.{Bytes, getbuf, geti32, geti16, geti8, getint32, getint16, getint8}
use tnef.Util.Words.{put16, put32}

-- `getbuf` returns the next bytes and leaves what stands behind them.
pub getbuf-append : (buf rest : Bytes) → getbuf (buf ++ rest) (length buf) ≡ ok (buf, rest)
unfolding getbuf
getbuf-append buf rest = rw (
  take-append buf rest,
  drop-append buf rest,
  length-append buf rest,
  ltb_of_le (length buf + length rest) (length buf) (omega arith),
)

pub geti32-put32 : (v : ℕ) (rest : Bytes) → v < 2 ^ 32 → geti32 (put32 v ++ rest) ≡ ok (v, rest)
unfolding geti32 getbuf put32 getint32
geti32-put32 v rest h = ground arith

pub geti16-put16 : (v : ℕ) (rest : Bytes) → v < 2 ^ 16 → geti16 (put16 v ++ rest) ≡ ok (v, rest)
unfolding geti16 getbuf put16 getint16
geti16-put16 v rest h = ground arith

pub geti8_cons : (v : ℕ) (rest : Bytes) → v < 2 ^ 8 → geti8 (v ∷ rest) ≡ ok (v, rest)
unfolding geti8 getbuf getint8
geti8_cons v rest h = ground arith

-- An input that ends too early stops the program with status 1.
pub getbuf_short : (fp : Bytes) (n : ℕ) → length fp < n → getbuf fp n ≡ halt (exit 1)
unfolding getbuf
getbuf_short fp n h = ground arith

-- What a successful read took off the stream.
pub getbuf_takes :
    (fp : Bytes) (n : ℕ) {r : Bytes × Bytes}
    → getbuf fp n ≡ ok r
    → (length r.0 ≡ n) × (length fp ≡ n + length r.1)
unfolding getbuf
getbuf_takes fp n e = ground (arith, length-take n fp, length-drop n fp)

pub geti32_takes :
    (fp : Bytes) {r : ℕ × Bytes} → geti32 fp ≡ ok r → (r.0 < 2 ^ 32) × (length fp ≡ 4 + length r.1)
unfolding geti32 getbuf getint32
geti32_takes (a ∷ b ∷ c ∷ d ∷ fp) e = ground arith
geti32_takes (a ∷ b ∷ c ∷ []) e = cc
geti32_takes (a ∷ b ∷ []) e = cc
geti32_takes (a ∷ []) e = cc
geti32_takes [] e = cc

pub geti16_takes :
    (fp : Bytes) {r : ℕ × Bytes} → geti16 fp ≡ ok r → (r.0 < 2 ^ 16) × (length fp ≡ 2 + length r.1)
unfolding geti16 getbuf getint16
geti16_takes (a ∷ b ∷ fp) e = ground (arith)
geti16_takes (a ∷ []) e = cc
geti16_takes [] e = cc

pub geti8_takes :
    (fp : Bytes) {r : ℕ × Bytes} → geti8 fp ≡ ok r → (r.0 < 2 ^ 8) × (length fp ≡ 1 + length r.1)
unfolding geti8 getbuf getint8
geti8_takes (a ∷ fp) e = ground (arith)
geti8_takes [] e = cc
