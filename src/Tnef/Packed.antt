-- ===== src/Tnef/Packed.antt =====
-- A compressed RTF body: the stream in a MAPI value, and the text that `get_rtf_data` of src/rtf.c
-- makes of it.
use mathlib.Core.List.{append-nil}
use tnef.Prelude.{
  ℕ, ◌+◌, ◌-◌, ◌^◌, ◌<◌, ◌≡◌, refl, ap, ◌∙◌, sym, arith, true, [], ◌∷◌, ◌++◌, some, length, All,
  replicate, take-append, drop, ltb, ltb_of_lt, ◌==◌,
}
use tnef.Outcome.{ok}
use tnef.Env.{Env}
use tnef.Alloc.{access, malloc, xmalloc, null_check, checked_product, check_mul_overflow}
use tnef.Alloc.Limit.{Serves, Serves-le, checked_xcalloc-Serves}
use tnef.Util.{Bytes, IsByte}
use tnef.Util.Words.{put32, getint32-put32}
use tnef.Names.{mapi_rtf_compressed}
use tnef.Mapi.Writer.{untagged, Property, blobs, binary, attr_of}
use tnef.Rtf.Table.{rtf_prebuf, rtf_compressed_magic}
use tnef.Rtf.Stream.{rtf_stream, from_four}
use tnef.Rtf.Crc.{crc_ref, generate_crc-crc_ref}
use tnef.Rtf.Past.{length-onto}
use tnef.Rtf.Lz77.{lz77, onto}
use tnef.Rtf.Window.{window_kept}
use tnef.Rtf.Refine.{decompress-lz77}
use tnef.Rtf.{
  decompress, decompress_rtf_data, is_rtf_data, compressed_stream, get_rtf_data_from_buf, rtf_entry,
  rtf_entries, get_rtf_data,
}
use tnef.Tnef.Message.{entry}

-- Compressed bytes, and the text that they stand for.
pub record Packed : Type 0 where
  pub src : Bytes
  pub text : Bytes

-- LZ77 on the whole past gives the text; the sizes and the checksum have 32 bits.
pub record IsPacked (env : Env) (p : Packed) : Type 0 where
  pub is_bytes : All IsByte p.src
  pub some_src : 0 < length p.src
  pub some_text : 0 < length p.text
  pub unpacks : (lz77 p.src (length p.text)).past ≡ onto p.text (onto rtf_prebuf [])
  pub small_src : length p.src + 16 < 2 ^ 32
  pub small_text : length p.text < 2 ^ 32
  pub small_crc : crc_ref 0 p.src < 2 ^ 32
  pub text_served : Serves env (length p.text)

abbrev pub packed_bytes : Packed → Bytes
packed_bytes p = rtf_stream (length p.text) rtf_compressed_magic (crc_ref 0 p.src) p.src

abbrev pub rtf_property : Packed → Property
rtf_property p = record {
  name = mapi_rtf_compressed;
  tag = untagged;
  payload = blobs binary (packed_bytes p ∷ []);
}

onto_inj :
    (xs ys past : Bytes)
    → length xs ≡ length ys
    → (past' : Bytes) → onto xs past ≡ onto ys past'
    → (xs ≡ ys) × (past ≡ past')
unfolding onto
onto_inj [] [] past l past' e = (refl, e)
onto_inj [] (y ∷ ys) past l past' e = absurd (omega arith)
onto_inj (x ∷ xs) [] past l past' e = absurd (omega arith)
onto_inj (x ∷ xs) (y ∷ ys) past l past' e =
    let (same, before) = onto_inj xs ys (x ∷ past) (omega arith) (y ∷ past') e in (cc, cc)

decompress-text :
    (env : Env) (p : Packed) → IsPacked env p → (decompress p.src (length p.text)).dest ≡ p.text
decompress-text env p v =
    let dest = (decompress p.src (length p.text)).dest in
    let same = sym (decompress-lz77 p.src (length p.text) v.is_bytes).0 ∙ v.unpacks in
    (onto_inj dest p.text (onto rtf_prebuf [])
      (omega (
        arith,
        length-onto dest (onto rtf_prebuf []),
        length-onto p.text (onto rtf_prebuf []),
        ap length same,
      ))
      (onto rtf_prebuf []) same).0

positive : (n : ℕ) → 0 < n → ltb 0 n ≡ true
positive n h = ltb_of_lt 0 n h

no_zeros : (s : Bytes) → s ++ replicate (length s - length s) 0 ≡ s
no_zeros s = let e : length s - length s ≡ 0 = omega arith in rw e (append-nil s)

module _ (env : Env) (p : Packed) (v : IsPacked env p) where
  decompressed : decompress_rtf_data env p.src (length p.text) ≡ ok p.text
  unfolding decompress_rtf_data access
  decompressed = rw (
    positive (length p.text) v.some_text,
    checked_xcalloc-Serves (length p.text) 1 0 (Serves-le _ v.text_served (omega arith))
        (omega (arith, v.small_text)),
    positive (length p.src) v.some_src,
    window_kept p.src (length p.text) v.is_bytes,
    decompress-text env p v,
    no_zeros p.text,
  )

  unsealed : compressed_stream env p.src (length p.text) (crc_ref 0 p.src) ≡ ok (entry p.text)
  unfolding compressed_stream
  unsealed = rw (generate_crc-crc_ref p.src, same (crc_ref 0 p.src), decompressed) refl
    where
      same : (n : ℕ) → (n == n) ≡ true
      same n = ground arith

  length-packed_bytes : length (packed_bytes p) ≡ length p.src + 16
  unfolding put32
  length-packed_bytes = omega arith

  abbrev tail : Bytes
  tail = p.src ++ 0 ∷ []

  -- The header is followed by the compressed bytes, and the 0 of the value's block.
  header :
      packed_bytes p ++ 0 ∷ []
      ≡ put32 (length p.src + 12)
        ++ (put32 (length p.text)
            ++ (put32 rtf_compressed_magic ++ (put32 (crc_ref 0 p.src) ++ tail)))
  unfolding put32
  header = refl

  from_buf :
      get_rtf_data_from_buf env (length p.src + 16) (packed_bytes p ++ 0 ∷ []) ≡ ok (entry p.text)
  unfolding get_rtf_data_from_buf put32
  from_buf =
      let crc = crc_ref 0 p.src in
      let four = from_four (length p.text) rtf_compressed_magic crc tail in
      rw
        (
          long_enough (length p.src) v.some_src,
          getint32-put32 (length p.src + 12) four (omega (arith, v.small_src)),
          getint32-put32 (length p.text) (drop 4 four) v.small_text,
          getint32-put32 rtf_compressed_magic (drop 8 four) (omega arith),
          getint32-put32 crc tail v.small_crc,
          size_agrees (length p.src),
          taken (length p.src),
          take-append p.src (0 ∷ []),
        )
        unsealed
    where
      long_enough : (n : ℕ) → 0 < n → ltb 16 (n + 16) ≡ true
      long_enough n h = ltb_of_lt 16 (n + 16) (omega arith)

      size_agrees : (n : ℕ) → (n + 12 + 4 == n + 16) ≡ true
      size_agrees n = ground arith

      taken : (n : ℕ) → n + 16 - 16 ≡ n
      taken n = omega arith

  is_packed : is_rtf_data (packed_bytes p ++ 0 ∷ []) ≡ ok true
  unfolding is_rtf_data put32
  is_packed =
      let crc = crc_ref 0 p.src in
      let four = from_four (length p.text) rtf_compressed_magic crc tail in
      rw
        (
          getint32-put32 (length p.src + 12) four (omega (arith, v.small_src)),
          getint32-put32 (length p.text) (drop 4 four) v.small_text,
          getint32-put32 rtf_compressed_magic (drop 8 four) (omega arith),
        )
        refl

  -- The value of the property is the text.
  pub get_rtf_data-rtf_property :
      Serves env 64 → get_rtf_data env (attr_of (rtf_property p)) ≡ ok (some (entry p.text) ∷ [])
  unfolding get_rtf_data rtf_entries rtf_entry access xmalloc malloc null_check checked_product
      check_mul_overflow
  get_rtf_data-rtf_property s = rw (
    checked_xcalloc-Serves 2 8 0 (Serves-le _ s (omega arith)) (omega arith),
    length-packed_bytes,
    ltb_of_lt 12 (length p.src + 16) (omega arith),
    is_packed,
    s.serves 16,
    from_buf,
  )
