-- ===== src/Mapi/Overrun.antt =====
-- The shape of property at which `mapi_attr_read` of src/mapi_attr.c leaves its block: a CLSID whose
-- last name ends at the end of the block and wants padding. The offset is then behind the end,
-- `len - idx` wraps round, and `copy_guid_from_buf` reads there.
use tnef.Prelude.{
  ℕ, ◌+◌, ◌^◌, ◌<◌, ◌≤◌, ◌≡◌, arith, true, false, drop, length, drop-eq-nil, leb, ltb,
}
use tnef.Outcome.{ok, halt, fault}
use tnef.Env.{Env}
use tnef.Alloc.{access}
use tnef.Alloc.Limit.{Serves, Serves-le, checked_xcalloc-Serves}
use tnef.Util.{Bytes, getint32, checkint32}
use tnef.Names.{szmapi_clsid}
use tnef.Mapi.Types.{sizeof_mapi_attr, sizeof_mapi_value}
use tnef.Mapi.Header.{Naming, next16, next32, copy_guid_from_buf, size_left, read_header}
use tnef.Mapi.{read_count, alloc_mapi_values, read_value, read_values, read_property}

-- `copy_guid_from_buf` called as the program calls it, with the offset behind the end of the data
-- and of the block: the assertion holds, and the first read is outside.
pub copy_guid_outside :
    (buf : Bytes) (len idx : ℕ)
    → len < idx
    → idx ≤ len + 3
    → length buf ≡ len + 1
    → len < 2 ^ 64
    → copy_guid_from_buf (drop idx buf) (size_left len idx) ≡ halt fault
unfolding copy_guid_from_buf next32 checkint32 getint32
copy_guid_outside buf len idx h near l w =
    let enough : leb 16 (size_left len idx) ≡ true = ground arith in
    let inside : ltb (size_left len idx) 4 ≡ false = ground arith in
    rw (drop-eq-nil idx buf (omega arith), enough, inside)

-- A property of type CLSID, with a GUID prefix whose names end so close to the end of the block that
-- their padding leads behind it, makes the reader of the property read outside of its block. (The
-- block has one byte more than the data, `malloc` is taken to succeed and the limit is kept.)
pub read_property_outside :
    (env : Env) (buf : Bytes) (len idx name : ℕ)
    → Serves env 48
    → length buf ≡ len + 1
    → len < 2 ^ 64
    → next16 buf len idx ≡ ok szmapi_clsid
    → next16 buf len (idx + 2) ≡ ok name
    → (h : Naming) → read_header env buf len name (idx + 4) ≡ ok h
    → len < h.idx
    → h.idx ≤ len + 3
    → read_property env buf len idx ≡ halt fault
unfolding read_property access read_count alloc_mapi_values read_values read_value
read_property_outside env buf len idx name s l w t n h e far near = rw (
  checked_xcalloc-Serves 1 sizeof_mapi_attr 0 s (omega arith),
  t,
  n,
  e,
  checked_xcalloc-Serves 1 sizeof_mapi_value 0 (Serves-le _ s (omega arith)) (omega arith),
  copy_guid_outside buf len h.idx far near l w,
)
