-- ===== src/Rtf/Stream.antt =====
-- The header of an RTF stream in `get_rtf_data_from_buf` of src/rtf.c.
use tnef.Prelude.{
  ℕ, zero, suc, ◌+◌, ◌^◌, ◌<◌, ◌≡◌, arith, true, some, [], ◌∷◌, ◌++◌, length, take, drop, leb, ltb,
  ◌==◌, if◌then◌else◌,
}
use tnef.Outcome.{ok, halt, fault}
use tnef.Env.{Env}
use tnef.Alloc.{access}
use tnef.Alloc.Limit.{Serves, Serves-le, checked_xcalloc-Serves}
use tnef.Util.{Bytes}
use tnef.Util.Words.{put32, getint32-put32}
use tnef.Mapi.Header.{read_bytes}
use tnef.Rtf.Table.{rtf_uncompressed_magic}
use tnef.Rtf.{get_rtf_data_from_buf, uncompressed_stream}

read_bytes-take :
    (n : ℕ) (p : Bytes) → read_bytes n p ≡ (if leb n (length p) then ok (take n p) else halt fault)
unfolding read_bytes
read_bytes-take zero p = ground arith
read_bytes-take (suc n) [] = ground arith
read_bytes-take (suc n) (b ∷ p) = ground (arith, read_bytes-take n p)

-- [MS-OXRTFCP]: COMPSIZE, RAWSIZE, COMPTYPE and CRC, then the contents, which start at byte 16.
abbrev pub rtf_stream : ℕ → ℕ → ℕ → Bytes → Bytes
rtf_stream raw magic crc contents =
    put32 (length contents + 12) ++ (put32 raw ++ (put32 magic ++ (put32 crc ++ contents)))

-- The bytes from 4 on: the rest of the header stands before the contents.
abbrev pub from_four : ℕ → ℕ → ℕ → Bytes → Bytes
from_four raw magic crc contents = put32 raw ++ (put32 magic ++ (put32 crc ++ contents))

-- An uncompressed stream with contents comes back from byte 4 on: RAWSIZE, COMPTYPE and CRC, and
-- then the contents; where RAWSIZE is greater than what the block has from there, the copy reads
-- behind it. (RAWSIZE is within the limit, and `malloc` is taken to succeed.)
pub uncompressed_rtf :
    (env : Env) (raw crc : ℕ) (contents : Bytes)
    → Serves env raw
    → raw < 2 ^ 32
    → crc < 2 ^ 32
    → 0 < length contents
    → length contents + 12 < 2 ^ 32
    → get_rtf_data_from_buf env
        (length contents + 16)
        (rtf_stream raw rtf_uncompressed_magic crc contents)
      ≡ (if leb raw (length contents + 12)
          then ok (record {
            len = raw;
            bytes = some (take raw (from_four raw rtf_uncompressed_magic crc contents));
          })
          else halt fault)
unfolding get_rtf_data_from_buf uncompressed_stream access put32
uncompressed_rtf env raw crc contents s hr hc pos small =
    let four = from_four raw rtf_uncompressed_magic crc contents in
    rw
      (
        long_enough (length contents) pos,
        getint32-put32 (length contents + 12) four small,
        getint32-put32 raw (drop 4 four) hr,
        getint32-put32 rtf_uncompressed_magic (drop 8 four) (omega arith),
        getint32-put32 crc contents hc,
        size_agrees (length contents),
        checked_xcalloc-Serves raw 1 0 (Serves-le _ s (omega arith)) (omega arith),
        read_bytes-take raw four,
      )
      (ground arith)
  where
    long_enough : (n : ℕ) → 0 < n → ltb 16 (n + 16) ≡ true
    long_enough n h = ground arith

    size_agrees : (n : ℕ) → (n + 12 + 4 == n + 16) ≡ true
    size_agrees n = ground arith
