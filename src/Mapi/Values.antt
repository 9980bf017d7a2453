-- ===== src/Mapi/Values.antt =====
-- The loop over the values in src/mapi_attr.c reads back what the writer wrote.
use mathlib.Core.List.{append_assoc}
use mathlib.Core.Path.{subst}
use tnef.Prelude.{
  length-map, ℕ, ◌+◌, ◌*◌, ◌^◌, ◌<◌, ◌≡◌, ap, arith, Bool, true, false, List, [], ◌∷◌, ◌++◌, some,
  map, length, length-append, replicate, All,
}
use tnef.Outcome.{ok}
use tnef.Env.{Env}
use tnef.Alloc.Limit.{Serves}
use tnef.Util.{Bytes}
use tnef.Util.Reference.{utf16_bytes}
use tnef.Util.Words.{put16, put32}
use tnef.Names.{szmapi_clsid, szmapi_int, szmapi_systime, szmapi_unicode_string}
use tnef.Mapi.Types.{clsid, Guid, MapiValue, bytes2}
use tnef.Mapi.{read_value, read_values, read_pair, blank}
use tnef.Mapi.Several.{set-next, length-snoc}
use tnef.Mapi.Guids.{length-put_guid, copy_guid-put_guid}
use tnef.Mapi.Buffers.{bytes_read, text_read, buffer_read}
use tnef.Mapi.Cursor.{At, At-next, At-to, next32-At, next16-At, length-put32}
use tnef.Mapi.Writer.{
  Word, int, float, boolean, Pair, systime, double, currency, apptime, int8byte, Blob, string,
  object, binary, word_type, pair_type, blob_type, Payload, short, word, pair, ints, times, blobs,
  type_of, concat, class_id, put_guid, IsGuid, unicode, put_text, text_value, IsText, put_time,
  put_blob, put_values, int_value, time_value, blob_value, values_of, IsTime, HasRange,
}

all_units : (bs : List Bytes) → All (λ (_ : Bytes). Unit {0}) bs
all_units [] = tt
all_units (b ∷ bs) = (tt, all_units bs)

module _ (env : Env) (buf : Bytes) (len : ℕ) (served : Serves env (24 * len + 64))
    (fits : len < 2 ^ 32) where
  -- A value that is read: what it is, the offset behind it, and whether `v++` follows.
  abbrev Reads : ℕ → ℕ → MapiValue → ℕ → Bool → Type 0
  Reads type idx x size advance =
      read_value env buf len type idx ≡ ok (some (x, idx + size, advance))

  read_short :
      (x idx : ℕ) (t : Bytes)
      → x < 2 ^ 16
      → At buf len idx (put16 x ++ t)
      → Reads 2 idx (record { len = 2; content = bytes2 x }) 4 false
  unfolding read_value
  read_short x idx t b h = rw (next16-At x t b h)

  read_word :
      (k : Word) (x idx : ℕ) (t : Bytes)
      → x < 2 ^ 32
      → At buf len idx (put32 x ++ t)
      → (advance : Bool) × Reads (word_type k) idx (int_value x) 4 advance
  unfolding read_value
  read_word int x idx t b h = (true, rw (next32-At x t b h))
  read_word float x idx t b h = (false, rw (next32-At x t b h))
  read_word boolean x idx t b h = (false, rw (next32-At x t b h))

  read_int :
      (x idx : ℕ) (t : Bytes)
      → x < 2 ^ 32
      → At buf len idx (put32 x ++ t)
      → Reads szmapi_int idx (int_value x) 4 true
  unfolding read_value
  read_int x idx t b h = rw (next32-At x t b h)

  both :
      (p : ℕ × ℕ) (idx : ℕ) (t : Bytes) (advance : Bool)
      → IsTime p
      → At buf len idx (put_time p ++ t)
      → read_pair buf len idx advance ≡ ok (some (time_value p, idx + 8, advance))
  unfolding read_pair
  both p idx t advance b h =
      let h' = subst (At buf len idx) (append_assoc (put32 p.0) (put32 p.1) t) h in
      let h'' =
        At-to (ap (λ n. idx + n) (length-put32 p.0)) (At-next (put32 p.0) (put32 p.1 ++ t) h') in
      rw (next32-At p.0 (put32 p.1 ++ t) b.0 h', next32-At p.1 t b.1 h'')

  read_two :
      (k : Pair) (p : ℕ × ℕ) (idx : ℕ) (t : Bytes)
      → IsTime p
      → At buf len idx (put_time p ++ t)
      → (advance : Bool) × Reads (pair_type k) idx (time_value p) 8 advance
  unfolding read_value
  read_two systime p idx t b h = (true, both p idx t true b h)
  read_two double p idx t b h = (false, both p idx t false b h)
  read_two currency p idx t b h = (false, both p idx t false b h)
  read_two apptime p idx t b h = (false, both p idx t false b h)
  read_two int8byte p idx t b h = (false, both p idx t false b h)

  read_time :
      (p : ℕ × ℕ) (idx : ℕ) (t : Bytes)
      → IsTime p
      → At buf len idx (put_time p ++ t)
      → Reads szmapi_systime idx (time_value p) 8 true
  unfolding read_value
  read_time p idx t b h = both p idx t true b h

  read_blob :
      (k : Blob) (b : Bytes) (idx : ℕ) (t : Bytes)
      → At buf len idx (put_blob b ++ t)
      → Reads (blob_type k) idx (blob_value b) (length (put_blob b)) true
  unfolding read_value
  read_blob string b idx t h =
      buffer_read env buf len served fits (blob_type string) b _ idx t
        (bytes_read env buf len served fits string b (idx + 4)) h
  read_blob object b idx t h =
      buffer_read env buf len served fits (blob_type object) b _ idx t
        (bytes_read env buf len served fits object b (idx + 4)) h
  read_blob binary b idx t h =
      buffer_read env buf len served fits (blob_type binary) b _ idx t
        (bytes_read env buf len served fits binary b (idx + 4)) h

  read_text :
      (us : List ℕ) (idx : ℕ) (t : Bytes)
      → IsText us
      → At buf len idx (put_text us ++ t)
      → Reads szmapi_unicode_string idx (text_value us) (length (put_text us)) true
  unfolding read_value
  read_text us idx t b h =
      buffer_read env buf len served fits szmapi_unicode_string (utf16_bytes us) _ idx t
        (λ t' at. text_read env buf len served fits us (idx + 4) t' b at) h

  read_class_id :
      (g : Guid) (idx : ℕ) (t : Bytes)
      → IsGuid g
      → At buf len idx (put_guid g ++ t)
      → Reads szmapi_clsid idx (record { len = 16; content = clsid g }) 16 false
  unfolding read_value
  read_class_id g idx t b h = rw (copy_guid-put_guid buf t len idx g b fits h)

  -- Several values, behind each of which `v++` follows.
  module _ {A : Type 0} (type : ℕ) (put : A → Bytes) (value : A → MapiValue) (Good : A → Type 0)
      (one : (a : A) (idx : ℕ) (t : Bytes)
        → Good a
        → At buf len idx (put a ++ t)
        → Reads type idx (value a) (length (put a)) true) where
    read_all :
        (as_list : List A) (read : List MapiValue) (idx : ℕ) (t : Bytes)
        → All Good as_list
        → At buf len idx (concat (map put as_list) ++ t)
        → read_values env buf len type
            (length as_list)
            (read ++ replicate (length as_list) blank)
            (length read)
            idx
          ≡ ok (some (read ++ map value as_list, idx + length (concat (map put as_list))))
    unfolding read_values concat
    read_all [] read idx t g h = ap (λ n. ok (some (read ++ [], n))) (omega arith)
    read_all (a ∷ others) read idx t (ga, gs) h =
        let more = concat (map put others) in
        let h' = subst (At buf len idx) (append_assoc (put a) more t) h in
        rw
          (
            one a idx (more ++ t) ga h',
            set-next read (length others) (value a),
            ← length-snoc read (value a),
            read_all others (read ++ value a ∷ []) (idx + length (put a)) t gs
                (At-next (put a) (more ++ t) h'),
            append_assoc,
          )
          (ap (λ n. ok (some (read ++ value a ∷ map value others, n)))
            (omega (arith, length-append (put a) more)))

  one_read :
      (type idx size : ℕ) (x : MapiValue) (advance : Bool)
      → Reads type idx x size advance
      → read_values env buf len type 1 (blank ∷ []) 0 idx ≡ ok (some (x ∷ [], idx + size))
  unfolding read_values
  one_read type idx size x advance e = rw e

  -- What the loop makes of the values of a property.
  pub read_values-put_values :
      (p : Payload) (idx : ℕ) (t : Bytes)
      → HasRange p
      → At buf len idx (put_values p ++ t)
      → read_values env buf len
          (type_of p)
          (length (values_of p))
          (replicate (length (values_of p)) blank)
          0
          idx
        ≡ ok (some (values_of p, idx + length (put_values p)))
  unfolding put16 put32
  read_values-put_values (short x) idx t b h = one_read 2 idx 4 _ false (
      read_short x idx (put16 0 ++ t) b
        (subst (At buf len idx) (append_assoc (put16 x) (put16 0) t) h))
  read_values-put_values (word k x) idx t b h =
      let (advance, e) = read_word k x idx t b h in
      one_read (word_type k) idx 4 (int_value x) advance e
  read_values-put_values (pair k low high) idx t b h =
      let (advance, e) = read_two k (low, high) idx t b h in
      one_read (pair_type k) idx 8 (time_value (low, high)) advance e
  read_values-put_values (ints xs) idx t b h =
      rw (length-map int_value xs)
        (read_all szmapi_int put32 int_value (λ x. x < 2 ^ 32) read_int xs [] idx t b.1 h)
  read_values-put_values (times ts) idx t b h =
      rw (length-map time_value ts)
        (read_all szmapi_systime put_time time_value IsTime read_time ts [] idx t b.1 h)
  read_values-put_values (blobs k bs) idx t b h = rw (length-map blob_value bs) (
      read_all (blob_type k) put_blob blob_value (λ _. Unit {0})
        (λ x i s g at. read_blob k x i s at) bs [] idx t (all_units bs) h)
  read_values-put_values (unicode texts) idx t b h =
      rw (length-map text_value texts)
        (read_all szmapi_unicode_string put_text text_value IsText read_text texts [] idx t b.1 h)
  read_values-put_values (class_id g) idx t b h =
      let size : length (put_guid g) ≡ 16 = omega (arith, length-put_guid g, b.3) in
      rw size (
        one_read szmapi_clsid idx 16 (record { len = 16; content = clsid g }) false
          (read_class_id g idx t b h))
