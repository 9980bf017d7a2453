-- ===== src/Mapi.antt =====
-- src/mapi_attr.c: the MAPI properties inside of an attribute. The children `Types` and `Header`
-- hold the first definitions, the others the proofs.
pub mod Types
pub mod Header
pub mod Reads
pub mod Safety
pub mod Bounds
pub mod Overrun
pub mod Dump
pub mod Fits
pub mod Cursor
pub mod Writer
pub mod Guids
pub mod Buffers
pub mod Values
pub mod Counts
pub mod Tagged
pub mod RoundTrip
pub mod Free
pub mod Shape
pub mod Filled
pub mod Several
pub mod Counted
pub mod Printed
use tnef.Prelude.{
  ℕ, zero, suc, ◌+◌, ◌-◌, ◌%◌, ◌^◌, Bool, true, false, not, ◌||◌, List, [], ◌∷◌, ◌++◌, Option, none,
  some, drop, set, replicate, ltb, leb, ◌==◌, if◌then◌else◌,
}
use tnef.Outcome.{Result, ok, halt, exit, assert, ◌>>=◌, ◌>>◌}
use tnef.Env.{Env, flag_on, encode_ok}
use tnef.Alloc.{Pointer, is_null, checked_xcalloc, checked_xmalloc, access}
use tnef.Util.{Bytes, getint32, unicode_to_utf8}
use tnef.Names.{
  szmapi_short, szmapi_int, szmapi_float, szmapi_double, szmapi_currency, szmapi_apptime,
  szmapi_boolean, szmapi_object, szmapi_int8byte, szmapi_string, szmapi_unicode_string,
  szmapi_systime, szmapi_clsid, szmapi_binary,
}
use Types.{
  Content, bytes2, bytes4, bytes8, clsid, block, cleared, MapiValue, MapiAttr, multi_value,
  sizeof_mapi_attr, sizeof_mapi_value,
}
use Header.{
  Naming, pad_to_4byte, next16, next32, read_bytes, copy_guid_from_buf, size_left, read_header,
}

-- `num_values` cleared values; NULL for none, which the assertion behind the call refuses.
unfoldable pub alloc_mapi_values : Env → ℕ → Result Pointer
alloc_mapi_values env num_values =
    if num_values == 0 then ok none else checked_xcalloc env num_values sizeof_mapi_value 0

abbrev pub counted : ℕ → Bool
counted type =
    multi_value type
    || type == szmapi_string
    || type == szmapi_unicode_string
    || type == szmapi_object
    || type == szmapi_binary

-- `num_values`, and the offset behind it.
unfoldable pub read_count : Bytes → ℕ → ℕ → ℕ → Result (ℕ × ℕ)
read_count buf len type idx =
    if counted type then (do n ← next32 buf len idx; ok (n, idx + 4)) else ok (1, idx)

-- The type without the flag for multiple values.
abbrev pub amend_type : ℕ → ℕ
amend_type type = if multi_value type then type - 0x1000 else type

-- A value, the offset behind it, and whether `v++` follows.
abbrev pub Step : Type 0
Step = MapiValue × ℕ × Bool

abbrev pub step : ℕ → Content → ℕ → Bool → Result (Option Step)
step len content idx advance = ok (some (record { len = len; content = content }, idx, advance))

unfoldable pub read_pair : Bytes → ℕ → ℕ → Bool → Result (Option Step)
read_pair buf len idx advance = do
  low ← next32 buf len idx
  high ← next32 buf len (idx + 4)
  step 8 (bytes8 low high) (idx + 8) advance

unfoldable pub read_block : Env → Bytes → ℕ → ℕ → ℕ → Result Bytes
read_block env buf type n idx =
    if type == szmapi_unicode_string
    then (do assert (not (n == 0)); unicode_to_utf8 env n (drop idx buf))
    else (do
      p ← checked_xmalloc env n 1 1
      access p
      bytes ← read_bytes n (drop idx buf)
      ok (bytes ++ 0 ∷ []))

unfoldable pub read_buffer : Env → Bytes → ℕ → ℕ → ℕ → Result (Option Step)
read_buffer env buf len type idx = do
  n ← next32 buf len idx
  assert (leb (n + (idx + 4)) len)
  bytes ← read_block env buf type n (idx + 4)
  step n (block bytes) (idx + 4 + pad_to_4byte n) true

-- The body of the loop over the values. `none` is the `return NULL` at a type that no stream should
-- hold, under --ignore-encode. This is the body without --debug, which prints the property behind each
-- value.
unfoldable pub read_value : Env → Bytes → ℕ → ℕ → ℕ → Result (Option Step)
read_value env buf len type idx =
    if type == szmapi_short
    then (do x ← next16 buf len idx; step 2 (bytes2 x) (idx + 4) false)
    else if type == szmapi_int
    then (do x ← next32 buf len idx; step 4 (bytes4 x) (idx + 4) true)
    else if type == szmapi_float || type == szmapi_boolean
    then (do x ← next32 buf len idx; step 4 (bytes4 x) (idx + 4) false)
    else if type == szmapi_systime
    then read_pair buf len idx true
    else if type == szmapi_double
        || type == szmapi_apptime
        || type == szmapi_currency
        || type == szmapi_int8byte
    then read_pair buf len idx false
    else if type == szmapi_clsid
    then (do
      guid ← copy_guid_from_buf (drop idx buf) (size_left len idx)
      step 16 (clsid guid) (idx + 16) false)
    else if type == szmapi_string
        || type == szmapi_unicode_string
        || type == szmapi_object
        || type == szmapi_binary
    then read_buffer env buf len type idx
    else if flag_on env encode_ok
    then ok none
    else halt (exit 1)

-- NULL is passed on at once.
abbrev pub unless_null {ℓ κ} :
    {A : Type ℓ} {B : Type κ} → Option A → (A → Result (Option B)) → Result (Option B)
unless_null none f = ok none
unless_null (some a) f = f a

-- `k` values are still to be read, into `values` from place `v` on.
unfoldable pub read_values :
    Env → Bytes → ℕ → ℕ → ℕ → List MapiValue → ℕ → ℕ → Result (Option (List MapiValue × ℕ))
read_values env buf len type zero values v idx = ok (some (values, idx))
read_values env buf len type (suc k) values v idx = do
  r ← read_value env buf len type idx
  unless_null r
      (λ s. read_values env buf len type k (set values v s.0) (if s.2 then suc v else v) s.1)

abbrev pub blank : MapiValue
blank = record { len = 0; content = cleared }

-- The attribute made of the parts, unless the values returned NULL.
abbrev pub make_attr : ℕ → ℕ → Naming → Option (List MapiValue × ℕ) → Option (MapiAttr × ℕ)
make_attr type n h none = none
make_attr type n h (some (values, idx)) = some (
  record {
    type = type;
    name = h.name;
    num_values = n;
    values = values;
    guid = h.guid;
    names = h.names;
  },
  idx,
)

-- The body of the loop over the properties: the attribute, and the offset behind it.
unfoldable pub read_property : Env → Bytes → ℕ → ℕ → Result (Option (MapiAttr × ℕ))
read_property env buf len idx = do
  a ← checked_xcalloc env 1 sizeof_mapi_attr 0
  access a
  type ← next16 buf len idx
  name ← next16 buf len (idx + 2)
  h ← read_header env buf len name (idx + 4)
  (n, idx1) ← read_count buf len type h.idx
  v ← alloc_mapi_values env n
  assert (not (is_null v))
  r ← read_values env buf len (amend_type type) n (replicate n blank) 0 idx1
  ok (make_attr (amend_type type) n h r)

abbrev pub cons_attr : MapiAttr → Option (List MapiAttr) → Option (List MapiAttr)
cons_attr a none = none
cons_attr a (some attrs) = some (a ∷ attrs)

unfoldable pub read_properties : Env → Bytes → ℕ → ℕ → ℕ → Result (Option (List MapiAttr))
read_properties env buf len zero idx = ok (some [])
read_properties env buf len (suc k) idx = do
  r ← read_property env buf len idx
  unless_null r (λ s. do attrs ← read_properties env buf len k s.1; ok (cons_attr s.0 attrs))

-- `none` is NULL.
unfoldable pub mapi_attr_read : Env → ℕ → Bytes → Result (Option (List MapiAttr))
mapi_attr_read env len buf = do
  assert (ltb 4 len)
  num_properties ← getint32 buf
  assert (not ((num_properties + 1) % 2 ^ 32 == 0))
  attrs ← checked_xmalloc env ((num_properties + 1) % 2 ^ 32) 8 0
  if is_null attrs then ok none else read_properties env buf len num_properties 4
