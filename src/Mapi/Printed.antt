-- ===== src/Mapi/Printed.antt =====
-- What `mapi_attr_read` of src/mapi_attr.c returns, `mapi_attr_dump` can print.
use tnef.Prelude.{
  ℕ, zero, suc, ◌+◌, ◌%◌, ◌^◌, ◌≡◌, not, List, [], ◌∷◌, Option, none, some, drop, replicate, length,
  leb, ltb, ◌==◌, All,
}
use tnef.Outcome.{Result, ok, assert}
use tnef.Outcome.Post.{Post, Any, bind, seq, returns, anyhow, if_Post, of_ok, and_also}
use tnef.Env.{Env}
use tnef.Alloc.{is_null, checked_xcalloc, checked_xmalloc, access}
use tnef.Util.{Bytes, getint32}
use tnef.Mapi.Types.{Guid, VarLenData, MapiValue, MapiAttr, guid_exists, sizeof_mapi_attr}
use tnef.Mapi.Header.{
  Naming, next16, next32, copy_guid_from_buf, size_left, read_name, read_names, read_header_names,
  read_header,
}
use tnef.Mapi.{
  alloc_mapi_values, read_count, amend_type, make_attr, unless_null, cons_attr, read_property,
  read_properties, mapi_attr_read, blank,
}
use tnef.Mapi.Fits.{Terminated}
use tnef.Mapi.Shape.{dump-Post}
use tnef.Mapi.Dump.{mapi_attr_dump}
use tnef.Mapi.Counted.{HasLength, read_values-counted}
use tnef.Mapi.Filled.{Full, unicode_to_utf8-Terminated}
use tnef.Mapi.Several.{Full-Shaped, AllRead, read_values-Full, start}

abbrev AllNames : List VarLenData → Type 0
AllNames names = All (λ (v : VarLenData). Terminated v.bytes) names

abbrev Printable : MapiAttr → Type 0
Printable attr =
    Full attr.type attr.values × AllNames attr.names × (attr.num_values ≡ length attr.values)

abbrev PrintableIfRead : Option (MapiAttr × ℕ) → Type 0
PrintableIfRead none = Unit
PrintableIfRead (some (attr, idx)) = Printable attr

abbrev AllPrintable : Option (List MapiAttr) → Type 0
AllPrintable none = Unit
AllPrintable (some attrs) = All Printable attrs

make_attr-Printable :
    (type n : ℕ) (h : Naming) (r : Option (List MapiValue × ℕ))
    → AllNames h.names
    → AllRead type r
    → HasLength n r
    → PrintableIfRead (make_attr type n h r)
make_attr-Printable type n h none names values count = tt
make_attr-Printable type n h (some (values, idx)) names fit count = (fit, names, count)

cons_attr-Printable :
    (attr : MapiAttr) (attrs : Option (List MapiAttr))
    → Printable attr
    → AllPrintable attrs
    → AllPrintable (cons_attr attr attrs)
cons_attr-Printable attr none h hs = tt
cons_attr-Printable attr (some attrs) h hs = (h, hs)

unless_null-Printable :
    (r : Option (MapiAttr × ℕ)) (f : MapiAttr × ℕ → Result (Option (List MapiAttr)))
    → PrintableIfRead r
    → ((s : MapiAttr × ℕ) → Printable s.0 → Post AllPrintable Any (f s))
    → Post AllPrintable Any (unless_null r f)
unless_null-Printable none f h go = returns tt
unless_null-Printable (some s) f h go = go s h

module _ (env : Env) (buf : Bytes) (len : ℕ) where
  read_name-Terminated :
      (idx : ℕ)
      → Post (λ (r : VarLenData × ℕ). Terminated r.0.bytes) Any (read_name env buf len idx)
  unfolding read_name
  read_name-Terminated idx = bind _ _ (anyhow (next32 buf len idx)) λ n _.
      seq _ _ (anyhow (assert (not (n == 0)))) λ _.
        seq _ _ (anyhow (assert (leb (idx + 4 + n) len)))
          λ _. bind _ _ (unicode_to_utf8-Terminated env n (drop (idx + 4) buf)) λ utf8 t. returns t

  read_names-Terminated :
      (k idx : ℕ)
      → Post (λ (r : List VarLenData × ℕ). AllNames r.0) Any (read_names env buf len k idx)
  unfolding read_names
  read_names-Terminated zero idx = returns tt
  read_names-Terminated (suc k) idx =
      bind _ _ (read_name-Terminated idx)
        λ r t. bind _ _ (read_names-Terminated k r.1) λ names ts. returns (t, ts)

  read_header_names-Terminated :
      (name : ℕ) (guid : Guid) (n idx : ℕ)
      → Post (λ (h : Naming). AllNames h.names) Any (read_header_names env buf len name guid n idx)
  unfolding read_header_names
  read_header_names-Terminated name guid n idx =
      if_Post (n == 0) _ _ (λ _. bind _ _ (anyhow (next32 buf len idx)) λ real _. returns tt)
        λ _. bind _ _ (anyhow (checked_xcalloc env n 16 0)) λ p _.
          seq _ _ (anyhow (assert (not (is_null p))))
            λ _. bind _ _ (read_names-Terminated n idx) λ names ts. returns ts

  read_header-Terminated :
      (name idx : ℕ)
      → Post (λ (h : Naming). AllNames h.names) Any (read_header env buf len name idx)
  unfolding read_header
  read_header-Terminated name idx =
      if_Post (guid_exists name) _ _
        (λ _. bind _ _ (anyhow (checked_xmalloc env 1 16 0)) λ p _. seq _ _ (anyhow (access p)) λ _.
          bind _ _ (anyhow (copy_guid_from_buf (drop idx buf) (size_left len idx))) λ guid _.
            bind _ _ (anyhow (next32 buf len (idx + 16)))
              λ n _. read_header_names-Terminated name guid n (idx + 20))
        λ _. returns tt

  read_property-Printable : (idx : ℕ) → Post PrintableIfRead Any (read_property env buf len idx)
  unfolding read_property
  read_property-Printable idx = bind _ _ (anyhow (checked_xcalloc env 1 sizeof_mapi_attr 0)) λ a _.
      seq _ _ (anyhow (access a)) λ _. bind _ _ (anyhow (next16 buf len idx)) λ type _.
        bind _ _ (anyhow (next16 buf len (idx + 2))) λ name _.
          bind _ _ (read_header-Terminated name (idx + 4)) λ h names.
            bind _ _ (anyhow (read_count buf len type h.idx)) λ (n, idx1) _.
              bind _ _ (anyhow (alloc_mapi_values env n)) λ v _.
                seq _ _ (anyhow (assert (not (is_null v)))) λ _.
                  bind _ _
                    (and_also _
                      (read_values-Full env buf len (amend_type type) n (replicate n blank) 0 idx1
                        (start (amend_type type) n))
                      (read_values-counted env buf len (amend_type type) n idx1))
                    λ r (fit, count).
                      returns (make_attr-Printable (amend_type type) n h r names fit count)

  read_properties-Printable :
      (k idx : ℕ) → Post AllPrintable Any (read_properties env buf len k idx)
  unfolding read_properties
  read_properties-Printable zero idx = returns tt
  read_properties-Printable (suc k) idx = bind _ _ (read_property-Printable idx) λ r h.
      unless_null-Printable r _ h λ (attr, idx1) printable.
        bind _ _ (read_properties-Printable k idx1)
          λ attrs hs. returns (cons_attr-Printable attr attrs printable hs)

mapi_attr_read-Printable :
    (env : Env) (len : ℕ) (buf : Bytes) → Post AllPrintable Any (mapi_attr_read env len buf)
unfolding mapi_attr_read
mapi_attr_read-Printable env len buf = seq _ _ (anyhow (assert (ltb 4 len))) λ _.
    bind _ _ (anyhow (getint32 buf)) λ n _.
      seq _ _ (anyhow (assert (not ((n + 1) % 2 ^ 32 == 0)))) λ _.
        bind _ _ (anyhow (checked_xmalloc env ((n + 1) % 2 ^ 32) 8 0)) λ attrs _.
          if_Post (is_null attrs) _ _ (λ _. returns tt)
            λ _. read_properties-Printable env buf len n 4

-- As many values as `num_values` says, set as far as the type of the property has several.
abbrev pub HasValues : MapiAttr → Type 0
HasValues attr = (attr.num_values ≡ length attr.values) × Full attr.type attr.values

All-HasValues : (attrs : List MapiAttr) → All Printable attrs → All HasValues attrs
All-HasValues [] h = tt
All-HasValues (attr ∷ attrs) ((values, names, count), hs) =
    ((count, values), All-HasValues attrs hs)

-- Every property that `mapi_attr_read` returns has `num_values` values. An INT, a SYSTIME, a string of
-- either kind, an object and a binary has all of them set, a property of another type the first one,
-- and the rest is left cleared. What is set of a value is the member of the union for the type; a
-- block of bytes ends in a 0, and one of an object or a binary has as many bytes as its length says,
-- or more.
pub mapi_attr_read-Full :
    (env : Env) (len : ℕ) (buf : Bytes) (attrs : List MapiAttr)
    → mapi_attr_read env len buf ≡ ok (some attrs)
    → All HasValues attrs
mapi_attr_read-Full env len buf attrs e =
    All-HasValues attrs
      (of_ok {P = AllPrintable} _ (some attrs) (mapi_attr_read-Printable env len buf) e)

module _ (get_mapi_name_str get_mapi_type_str float_text : ℕ → Bytes) where
  abbrev Prints : MapiAttr → Type 0
  Prints attr =
      (text : Bytes) × (mapi_attr_dump get_mapi_name_str get_mapi_type_str float_text attr
        ≡ ok text)

  All-Prints : (attrs : List MapiAttr) → All Printable attrs → All Prints attrs
  All-Prints [] h = tt
  All-Prints (attr ∷ attrs) ((values, names, count), hs) = (
    dump-Post get_mapi_name_str get_mapi_type_str float_text attr
        (Full-Shaped attr.type attr.values values) names,
    All-Prints attrs hs,
  )

  -- Whatever properties `mapi_attr_read` returns, `mapi_attr_dump` prints each of them: it reads nothing
  -- outside of a block and nothing through a null pointer.
  pub mapi_attr_read-dumps :
      (env : Env) (len : ℕ) (buf : Bytes) (attrs : List MapiAttr)
      → mapi_attr_read env len buf ≡ ok (some attrs)
      → All
          (λ attr.
            (text : Bytes) × (mapi_attr_dump get_mapi_name_str get_mapi_type_str float_text attr
              ≡ ok text))
          attrs
  mapi_attr_read-dumps env len buf attrs e =
      All-Prints attrs
        (of_ok {P = AllPrintable} _ (some attrs) (mapi_attr_read-Printable env len buf) e)
