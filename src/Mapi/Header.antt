-- ===== src/Mapi/Header.antt =====
-- The readers of src/mapi_attr.c up to the GUID and the names of a property.
use tnef.Prelude.{
  ℕ, zero, suc, ◌+◌, ◌-◌, ◌*◌, ◌/◌, ◌%◌, ◌^◌, not, List, [], ◌∷◌, Option, none, some, drop, leb,
  ◌==◌, if◌then◌else◌,
}
use tnef.Outcome.{Result, ok, halt, fault, assert, ◌>>=◌, ◌>>◌}
use tnef.Env.{Env}
use tnef.Alloc.{is_null, checked_xcalloc, checked_xmalloc, access}
use tnef.Util.{Bytes, getint16, getint32, checkint16, checkint32, unicode_to_utf8}
use tnef.Mapi.Types.{Guid, VarLenData, guid_exists}

-- `(length + 3) & ~3`; the lengths are below 2 ^ 32, so the sum does not wrap.
unfoldable pub pad_to_4byte : ℕ → ℕ
pad_to_4byte length = (length + 3) / 4 * 4

-- CHECKINT32 (idx, len); x = GETINT32 (buf + idx)
unfoldable pub next32 : Bytes → ℕ → ℕ → Result ℕ
next32 buf len idx = do checkint32 idx len; getint32 (drop idx buf)

-- CHECKINT16 (idx, len); x = GETINT16 (buf + idx)
unfoldable pub next16 : Bytes → ℕ → ℕ → Result ℕ
next16 buf len idx = do checkint16 idx len; getint16 (drop idx buf)

-- `n` bytes, read one by one or by `memmove`.
unfoldable pub read_bytes : ℕ → Bytes → Result Bytes
read_bytes zero p = ok []
read_bytes (suc n) [] = halt fault
read_bytes (suc n) (b ∷ p) = do rest ← read_bytes n p; ok (b ∷ rest)

-- The assertions that the two pointers are not NULL hold at every call.
unfoldable pub copy_guid_from_buf : Bytes → ℕ → Result Guid
copy_guid_from_buf buf len = do
  assert (leb 16 len)
  data1 ← next32 buf len 0
  data2 ← next16 buf len 4
  data3 ← next16 buf len 6
  data4 ← read_bytes 8 (drop 8 buf)
  ok (record { data1 = data1; data2 = data2; data3 = data3; data4 = data4 })

-- One name of a named property, and the offset behind its padding.
unfoldable pub read_name : Env → Bytes → ℕ → ℕ → Result (VarLenData × ℕ)
read_name env buf len idx = do
  n ← next32 buf len idx
  assert (not (n == 0))
  assert (leb (idx + 4 + n) len)
  utf8 ← unicode_to_utf8 env n (drop (idx + 4) buf)
  ok (record { len = n; bytes = utf8 }, idx + 4 + pad_to_4byte n)

unfoldable pub read_names : Env → Bytes → ℕ → ℕ → ℕ → Result (List VarLenData × ℕ)
read_names env buf len zero idx = ok ([], idx)
read_names env buf len (suc k) idx = do
  (name, idx1) ← read_name env buf len idx
  (names, idx2) ← read_names env buf len k idx1
  ok (name ∷ names, idx2)

-- What the special case of GUID prefixed properties sets, and the offset behind it.
pub record Naming : Type 0 where
  pub name : ℕ
  pub guid : Option Guid
  pub names : List VarLenData
  pub idx : ℕ

unfoldable pub read_header_names : Env → Bytes → ℕ → ℕ → Guid → ℕ → ℕ → Result Naming
read_header_names env buf len name guid num_names idx =
    if num_names == 0
    then (do
      real ← next32 buf len idx
      ok (record { name = real; guid = some guid; names = []; idx = idx + 4 }))
    else (do
      p ← checked_xcalloc env num_names 16 0
      assert (not (is_null p))
      (names, idx1) ← read_names env buf len num_names idx
      ok (record { name = name; guid = some guid; names = names; idx = idx1 }))

-- `len - idx` is a `size_t`, so it wraps where `idx` is behind `len`.
abbrev pub size_left : ℕ → ℕ → ℕ
size_left len idx = (len + 2 ^ 64 - idx) % 2 ^ 64

unfoldable pub read_header : Env → Bytes → ℕ → ℕ → ℕ → Result Naming
read_header env buf len name idx =
    if guid_exists name
    then (do
      p ← checked_xmalloc env 1 16 0
      access p
      guid ← copy_guid_from_buf (drop idx buf) (size_left len idx)
      num_names ← next32 buf len (idx + 16)
      read_header_names env buf len name guid num_names (idx + 20))
    else ok (record { name = name; guid = none; names = []; idx = idx })
