-- ===== src/Mapi/Counts.antt =====
-- The types of src/mapi_attr.c and the numbers of values, as the writer writes them.
use tnef.Prelude.{
  ℕ, ◌+◌, ◌^◌, ◌<◌, ◌≤◌, ◌≡◌, refl, ap, arith, true, false, ◌++◌, length, length-append, length-map,
}
use tnef.Outcome.{ok}
use tnef.Util.{Bytes}
use tnef.Util.Words.{put16, put32}
use tnef.Mapi.{counted, amend_type, read_count}
use tnef.Mapi.Cursor.{At, next32-At, length-put32, length-put16}
use tnef.Mapi.Writer.{
  class_id, unicode, put_text, text_value, int, float, boolean, systime, double, currency, apptime,
  int8byte, string, object, binary, Payload, short, word, pair, ints, times, blobs, type_of,
  type_code, put_time, put_blob, put_count, put_values, int_value, time_value, blob_value,
  values_of, HasRange,
}
use tnef.Mapi.Guids.{length-put_guid}
use tnef.Mapi.Buffers.{length_le_concat, put_blob_one, put_text_one}

pub type_of_code : (p : Payload) → amend_type (type_code p) ≡ type_of p
type_of_code (short x) = refl
type_of_code (word int x) = refl
type_of_code (word float x) = refl
type_of_code (word boolean x) = refl
type_of_code (pair systime low high) = refl
type_of_code (pair double low high) = refl
type_of_code (pair currency low high) = refl
type_of_code (pair apptime low high) = refl
type_of_code (pair int8byte low high) = refl
type_of_code (ints xs) = refl
type_of_code (times ts) = refl
type_of_code (blobs string bs) = refl
type_of_code (blobs object bs) = refl
type_of_code (blobs binary bs) = refl
type_of_code (unicode texts) = refl
type_of_code (class_id g) = refl

pub type_code_range : (p : Payload) → type_code p < 2 ^ 16
type_code_range (short x) = omega arith
type_code_range (word int x) = omega arith
type_code_range (word float x) = omega arith
type_code_range (word boolean x) = omega arith
type_code_range (pair systime low high) = omega arith
type_code_range (pair double low high) = omega arith
type_code_range (pair currency low high) = omega arith
type_code_range (pair apptime low high) = omega arith
type_code_range (pair int8byte low high) = omega arith
type_code_range (ints xs) = omega arith
type_code_range (times ts) = omega arith
type_code_range (blobs string bs) = omega arith
type_code_range (blobs object bs) = omega arith
type_code_range (blobs binary bs) = omega arith
type_code_range (unicode texts) = omega arith
type_code_range (class_id g) = omega arith

put_time_one : (t : ℕ × ℕ) → 1 ≤ length (put_time t)
put_time_one t = omega (arith, length-append (put32 t.0) (put32 t.1), length-put32 t.0)

put32_one : (x : ℕ) → 1 ≤ length (put32 x)
put32_one x = omega (arith, length-put32 x)

-- The number of values against their bytes.
pub count_le :
    (p : Payload)
    → HasRange p
    → (1 ≤ length (values_of p)) × (length (values_of p) ≤ length (put_values p))
count_le (short x) h =
    (omega arith, omega (arith, length-append (put16 x) (put16 0), length-put16 x))
count_le (word k x) h = (omega arith, put32_one x)
count_le (pair k low high) h = (omega arith, put_time_one (low, high))
count_le (ints xs) h = (
  omega (arith, h.0, length-map int_value xs),
  omega (arith, length-map int_value xs, length_le_concat put32 put32_one xs),
)
count_le (times ts) h = (
  omega (arith, h.0, length-map time_value ts),
  omega (arith, length-map time_value ts, length_le_concat put_time put_time_one ts),
)
count_le (blobs k bs) h = (
  omega (arith, h, length-map blob_value bs),
  omega (arith, length-map blob_value bs, length_le_concat put_blob put_blob_one bs),
)
count_le (unicode texts) h = (
  omega (arith, h.0, length-map text_value texts),
  omega (arith, length-map text_value texts, length_le_concat put_text put_text_one texts),
)
count_le (class_id g) h = (omega arith, omega (arith, length-put_guid g))

module _ (buf : Bytes) (len : ℕ) where
  written_count :
      (type n idx : ℕ) (t : Bytes)
      → counted type ≡ true
      → n < 2 ^ 32
      → At buf len idx (put32 n ++ t)
      → read_count buf len type idx ≡ ok (n, idx + 4)
  unfolding read_count
  written_count type n idx t c small h = rw (c, next32-At n t small h)

  one_value : (type idx : ℕ) → counted type ≡ false → read_count buf len type idx ≡ ok (1, idx + 0)
  unfolding read_count
  one_value type idx c = rw c (ap (λ n. ok (1, n)) (omega arith))

  pub read_count-put_count :
      (p : Payload) (idx : ℕ) (t : Bytes)
      → length (values_of p) < 2 ^ 32
      → At buf len idx (put_count p ++ t)
      → read_count buf len (type_code p) idx ≡ ok (length (values_of p), idx + length (put_count p))
  read_count-put_count (short x) idx t b h = one_value _ idx refl
  read_count-put_count (word int x) idx t b h = one_value _ idx refl
  read_count-put_count (word float x) idx t b h = one_value _ idx refl
  read_count-put_count (word boolean x) idx t b h = one_value _ idx refl
  read_count-put_count (pair systime low high) idx t b h = one_value _ idx refl
  read_count-put_count (pair double low high) idx t b h = one_value _ idx refl
  read_count-put_count (pair currency low high) idx t b h = one_value _ idx refl
  read_count-put_count (pair apptime low high) idx t b h = one_value _ idx refl
  read_count-put_count (pair int8byte low high) idx t b h = one_value _ idx refl
  read_count-put_count (class_id g) idx t b h = one_value _ idx refl
  read_count-put_count (ints xs) idx t b h =
      rw (length-map int_value xs, length-put32 (length xs))
        (written_count _ (length xs) idx t refl (omega (arith, b, length-map int_value xs)) h)
  read_count-put_count (times ts) idx t b h =
      rw (length-map time_value ts, length-put32 (length ts))
        (written_count _ (length ts) idx t refl (omega (arith, b, length-map time_value ts)) h)
  read_count-put_count (blobs string bs) idx t b h =
      rw (length-map blob_value bs, length-put32 (length bs))
        (written_count _ (length bs) idx t refl (omega (arith, b, length-map blob_value bs)) h)
  read_count-put_count (blobs object bs) idx t b h =
      rw (length-map blob_value bs, length-put32 (length bs))
        (written_count _ (length bs) idx t refl (omega (arith, b, length-map blob_value bs)) h)
  read_count-put_count (blobs binary bs) idx t b h =
      rw (length-map blob_value bs, length-put32 (length bs))
        (written_count _ (length bs) idx t refl (omega (arith, b, length-map blob_value bs)) h)
  read_count-put_count (unicode texts) idx t b h =
      rw (length-map text_value texts, length-put32 (length texts))
        (written_count _ (length texts) idx t refl (omega (arith, b, length-map text_value texts))
          h)
