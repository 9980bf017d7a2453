-- ===== src/Mapi/Buffers.antt =====
-- A length and bytes, padded to a multiple of four: what src/mapi_attr.c makes of them.
use mathlib.Core.List.{append_assoc}
use mathlib.Core.Path.{subst}
use tnef.Prelude.{
  ◌≤◌, ℕ, zero, suc, ◌+◌, ◌*◌, ◌^◌, ◌<◌, ◌≡◌, refl, ap, arith, true, false, List, [], ◌∷◌, ◌++◌,
  some, map, length, length-append, replicate, leb_of_le, ◌==◌,
}
use tnef.Outcome.{ok}
use tnef.Env.{Env}
use tnef.Alloc.{access}
use tnef.Alloc.Limit.{Serves, Serves-le, checked_xmalloc-Serves}
use tnef.Util.{Bytes}
use tnef.Util.Reference.{utf16_bytes}
use tnef.Util.Utf8.{utf8_all, unicode_to_utf8-utf16_bytes}
use tnef.Util.Words.{put32}
use tnef.Names.{szmapi_unicode_string}
use tnef.Mapi.Types.{block}
use tnef.Mapi.Header.{pad_to_4byte}
use tnef.Mapi.{read_buffer, read_block}
use tnef.Mapi.Guids.{read_bytes-append}
use tnef.Mapi.Cursor.{At, At-next, At-to, next32-At, length-put32}
use tnef.Mapi.Writer.{
  Blob, string, object, binary, blob_type, concat, padding, put_text, IsText, put_blob,
}

pub length-zeros : (n : ℕ) → length (replicate {A = ℕ} n 0) ≡ n
length-zeros zero = refl
length-zeros (suc n) = ap suc (length-zeros n)

pub length-put_blob : (b : Bytes) → length (put_blob b) ≡ 4 + pad_to_4byte (length b)
unfolding put_blob pad_to_4byte
length-put_blob b = omega (
  arith,
  length-put32 (length b),
  length-append (put32 (length b)) (b ++ replicate (padding (length b)) 0),
  length-append b (replicate (padding (length b)) 0),
  length-zeros (padding (length b)),
)

-- Every item takes a byte at least.
pub length_le_concat :
    {A : Type 0} (put : A → Bytes)
    → ((a : A) → 1 ≤ length (put a))
    → (items : List A) → length items ≤ length (concat (map put items))
unfolding concat
length_le_concat put one [] = omega arith
length_le_concat put one (a ∷ others) =
    omega (
      arith,
      one a,
      length_le_concat put one others,
      length-append (put a) (concat (map put others)),
    )

pub put_blob_one : (b : Bytes) → 1 ≤ length (put_blob b)
put_blob_one b = omega (arith, length-put_blob b)

pub put_text_one : (us : List ℕ) → 1 ≤ length (put_text us)
put_text_one us = put_blob_one (utf16_bytes us)

not_unicode : (k : Blob) → (blob_type k == szmapi_unicode_string) ≡ false
not_unicode string = refl
not_unicode object = refl
not_unicode binary = refl

pub split :
    (b t : Bytes)
    → put_blob b ++ t ≡ put32 (length b) ++ (b ++ (replicate (padding (length b)) 0 ++ t))
unfolding put_blob
split b t = rw (append_assoc, append_assoc)

pub some_units : (us : List ℕ) → 1 ≤ length us → (length (utf16_bytes us) == 0) ≡ false
some_units [] one = absurd (omega arith)
some_units (u ∷ us) one = ground arith

module _ (env : Env) (buf : Bytes) (len : ℕ) (served : Serves env (24 * len + 64))
    (fits : len < 2 ^ 32) where
  -- A block that is no UTF-16.
  pub bytes_read :
      (k : Blob) (b : Bytes) (idx : ℕ) (t : Bytes)
      → At buf len idx (b ++ t)
      → read_block env buf (blob_type k) (length b) idx ≡ ok (b ++ 0 ∷ [])
  unfolding read_block access
  bytes_read k b idx t h = rw (
    not_unicode k,
    checked_xmalloc-Serves (length b) 1 1
        (Serves-le _ served (omega (arith, h.within, length-append b t)))
        (omega (arith, h.within, length-append b t)),
    h.here,
    append_assoc,
    read_bytes-append b (t ++ h.rest),
  )

  -- The same for a text in UTF-16.
  pub text_read :
      (us : List ℕ) (idx : ℕ) (t : Bytes)
      → IsText us
      → At buf len idx (utf16_bytes us ++ t)
      → read_block env buf szmapi_unicode_string (length (utf16_bytes us)) idx
        ≡ ok (utf8_all us ++ 0 ∷ [])
  unfolding read_block
  text_read us idx t (one, b) h = rw (
    some_units us one,
    h.here,
    append_assoc,
    unicode_to_utf8-utf16_bytes env us (t ++ h.rest) (served.serves _) b,
  )

  pub buffer_read :
      (type : ℕ) (b : Bytes) (bytes : Bytes) (idx : ℕ) (t : Bytes)
      → ((t' : Bytes)
          → At buf len (idx + 4) (b ++ t')
          → read_block env buf type (length b) (idx + 4) ≡ ok bytes)
      → At buf len idx (put_blob b ++ t)
      → read_buffer env buf len type idx
        ≡ ok (
            some
              (record { len = length b; content = block bytes }, idx + length (put_blob b), true))
  unfolding read_buffer
  buffer_read type b bytes idx t block_read h =
      let zeros = replicate {A = ℕ} (padding (length b)) 0 in
      let h' : At buf len idx (put32 (length b) ++ (b ++ (zeros ++ t))) =
        subst (At buf len idx) (split b t) h in
      let h'' : At buf len (idx + 4) (b ++ (zeros ++ t)) =
        At-to (ap (λ n. idx + n) (length-put32 (length b)))
          (At-next (put32 (length b)) (b ++ (zeros ++ t)) h') in
      rw
        (
          next32-At (length b) (b ++ (zeros ++ t))
              (omega (arith, h''.within, length-append b (zeros ++ t))) h',
          leb_of_le (length b + (idx + 4)) len
              (omega (arith, h''.within, length-append b (zeros ++ t))),
          block_read (zeros ++ t) h'',
        )
        (ap (λ n. ok (some (record { len = length b; content = block bytes }, n, true)))
          (omega (arith, length-put_blob b)))
