-- ===== src/Util.antt =====
-- src/util.c: little-endian numbers, the input stream, and UTF-16 to UTF-8.
-- Bytes are numbers below 256. A pointer `buf + idx` into a block is `drop idx buf`, the bytes from
-- there to the end of the block; a read past that end is `fault`. A stream is what is unread of it.
pub mod Words
pub mod Stream
pub mod Utf8
pub mod Reference
use Prim.Native.Nat.{bit_and, bit_or}
use tnef.Prelude.{
  ℕ, zero, suc, ◌+◌, ◌*◌, ◌/◌, ◌%◌, ◌^◌, ◌<◌, List, [], ◌∷◌, ◌++◌, length, take, drop, ltb, leb,
  ◌==◌, if◌then◌else◌,
}
use tnef.Env.{Env}
use tnef.Outcome.{Result, ok, halt, exit, fault, stop_if, ◌>>=◌, ◌>>◌}

abbrev pub Bytes : Type 0
Bytes = List ℕ

abbrev pub IsByte : ℕ → Type 0
IsByte b = b < 256

unfoldable pub getint32 : Bytes → Result ℕ
getint32 (q0 ∷ q1 ∷ q2 ∷ q3 ∷ _) = ok ((q0 + q1 * 2 ^ 8 + q2 * 2 ^ 16 + q3 * 2 ^ 24) % 2 ^ 32)
getint32 _ = halt fault

unfoldable pub getint16 : Bytes → Result ℕ
getint16 (p0 ∷ p1 ∷ _) = ok ((p0 + p1 * 2 ^ 8) % 2 ^ 16)
getint16 _ = halt fault

unfoldable pub getint8 : Bytes → Result ℕ
getint8 (p0 ∷ _) = ok (p0 % 2 ^ 8)
getint8 _ = halt fault

-- CHECKINT32 (a, b) and CHECKINT16 (a, b) of src/util.h.
unfoldable pub checkint32 : ℕ → ℕ → Result (Unit {0})
checkint32 a b = stop_if (ltb b (a + 4)) (exit 255)

unfoldable pub checkint16 : ℕ → ℕ → Result (Unit {0})
checkint16 a b = stop_if (ltb b (a + 2)) (exit 255)

-- The bytes read and the rest of the stream.
unfoldable pub getbuf : Bytes → ℕ → Result (Bytes × Bytes)
getbuf fp n = if ltb (length fp) n then halt (exit 1) else ok (take n fp, drop n fp)

unfoldable pub geti32 : Bytes → Result (ℕ × Bytes)
geti32 fp = do (buf, fp') ← getbuf fp 4; v ← getint32 buf; ok (v, fp')

unfoldable pub geti16 : Bytes → Result (ℕ × Bytes)
geti16 fp = do (buf, fp') ← getbuf fp 2; v ← getint16 buf; ok (v, fp')

unfoldable pub geti8 : Bytes → Result (ℕ × Bytes)
geti8 fp = do (buf, fp') ← getbuf fp 1; v ← getint8 buf; ok (v, fp')

-- The three branches of the loop's body in `unicode_to_utf8`.
unfoldable pub utf8_bytes : ℕ → Bytes
utf8_bytes c =
    if leb c 0x007f
    then bit_or 0x00 (bit_and c 0x007f) ∷ []
    else if ltb c 0x07ff
    then bit_or 0xc0 (bit_and c 0x07c0 / 2 ^ 6) ∷ bit_or 0x80 (bit_and c 0x003f) ∷ []
    else bit_or 0xe0 (bit_and c 0xf000 / 2 ^ 12)
      ∷ bit_or 0x80 (bit_and c 0x0fc0 / 2 ^ 6)
      ∷ bit_or 0x80 (bit_and c 0x003f)
      ∷ []

-- The loop, with `len - i` for the first argument and `buf + i` for the second: it goes on while
-- `i < len - 1`.
unfoldable pub utf8_loop : ℕ → Bytes → Result Bytes
utf8_loop zero buf = ok []
utf8_loop (suc zero) buf = ok []
utf8_loop (suc (suc left)) buf = do
  c ← getint16 buf
  rest ← utf8_loop left (drop 2 buf)
  ok (utf8_bytes c ++ rest)

-- The string that is returned, with its terminating 0. The offsets `i` and `j` of type `int` hold as
-- long as what is written stays below 2 ^ 31, as it does for `len` below 2 ^ 30. The result of `malloc` is not tested, and at
-- the latest the terminating 0 is written through it.
unfoldable pub unicode_to_utf8 : Env → ℕ → Bytes → Result Bytes
unicode_to_utf8 env len buf = do
  utf8 ← utf8_loop len buf
  if env.malloc (3 * len / 2 + 1) then ok (utf8 ++ 0 ∷ []) else halt fault

-- The characters up to the first 0; reading on to the end of the block is undefined.
unfoldable pub c_string : Bytes → Result Bytes
c_string [] = halt fault
c_string (b ∷ bytes) =
    let rest = c_string bytes in if b == 0 then ok [] else (do s ← rest; ok (b ∷ s))
