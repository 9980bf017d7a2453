-- ===== src/Mapi/RoundTrip.antt =====
-- src/mapi_attr.c reads back the properties that the writer wrote.
use mathlib.Core.List.{append_assoc, append-nil}
use mathlib.Core.Path.{subst}
use tnef.Prelude.{
  ℕ, ◌+◌, ◌*◌, ◌%◌, ◌^◌, ◌<◌, ◌≤◌, ◌≡◌, refl, ap, arith, List, [], ◌∷◌, ◌++◌, some, map, length,
  length-append, All, ltb_of_lt,
}
use tnef.Outcome.{ok}
use tnef.Env.{Env}
use tnef.Alloc.{access, checked_xcalloc}
use tnef.Alloc.Limit.{Serves, Serves-le, checked_xcalloc-Serves, checked_xmalloc-Serves}
use tnef.Util.{Bytes}
use tnef.Util.Words.{put16, put32, getint32-put32}
use tnef.Mapi.Types.{sizeof_mapi_attr, sizeof_mapi_value}
use tnef.Mapi.{alloc_mapi_values, read_property, read_properties, mapi_attr_read}
use tnef.Mapi.Cursor.{At, At-next, At-to, next16-At, length-put32, length-put16}
use tnef.Mapi.Writer.{
  put_tag, Property, type_code, concat, put_count, put_values, put_property, put_properties,
  values_of, attr_of, IsProperty,
}
use tnef.Mapi.Counts.{type_of_code, type_code_range, count_le, read_count-put_count}
use tnef.Mapi.Tagged.{read_header-put_tag}
use tnef.Mapi.Buffers.{length_le_concat}
use tnef.Mapi.Values.{read_values-put_values}

parts :
    (a b c d e t : Bytes) → (a ++ (b ++ (c ++ (d ++ e)))) ++ t ≡ a ++ (b ++ (c ++ (d ++ (e ++ t))))
parts a b c d e t = rw (append_assoc, append_assoc, append_assoc, append_assoc)

module _ (env : Env) (buf : Bytes) (len : ℕ) (served : Serves env (24 * len + 64))
    (fits : len < 2 ^ 32) where
  values_served :
      (n : ℕ) → 1 ≤ n → n ≤ len → alloc_mapi_values env n ≡ ok (some (n * sizeof_mapi_value + 0))
  unfolding alloc_mapi_values
  values_served n one le =
      rw
        (checked_xcalloc-Serves n sizeof_mapi_value 0 (Serves-le _ served (omega arith))
          (omega arith))
        (ground arith)

  served_attr : checked_xcalloc env 1 sizeof_mapi_attr 0 ≡ ok (some 48)
  served_attr =
      checked_xcalloc-Serves 1 sizeof_mapi_attr 0 (Serves-le _ served (omega arith)) (omega arith)

  -- The parts of a property, one behind the other.
  read_property-put_property :
      (p : Property) (idx : ℕ) (t : Bytes)
      → IsProperty p
      → At buf len idx (put_property p ++ t)
      → read_property env buf len idx ≡ ok (some (attr_of p, idx + length (put_property p)))
  unfolding read_property access
  read_property-put_property p idx t (b, g, r) h =
      let code = put16 (type_code p.payload) in
      let tag = put_tag p.tag in
      let count = put_count p.payload in
      let values = put_values p.payload in
      let h1 : At buf len idx (code ++ (put16 p.name ++ (tag ++ (count ++ (values ++ t))))) =
        subst (At buf len idx) (parts code (put16 p.name) tag count values t) h in
      let h2 =
        At-to (ap (λ n. idx + n) (length-put16 (type_code p.payload)))
          (At-next code (put16 p.name ++ (tag ++ (count ++ (values ++ t)))) h1) in
      let h3 : At buf len (idx + 4) (tag ++ (count ++ (values ++ t))) =
        At-to (omega (arith, length-put16 p.name))
          (At-next (put16 p.name) (tag ++ (count ++ (values ++ t))) h2) in
      let h4 = At-next tag (count ++ (values ++ t)) h3 in
      let h5 = At-next count (values ++ t) h4 in
      let few = count_le p.payload r in
      let within : length (values_of p.payload) ≤ len =
        omega (arith, h5.within, few.1, length-append values t) in
      rw
        (
          served_attr,
          next16-At (type_code p.payload) (put16 p.name ++ (tag ++ (count ++ (values ++ t))))
              (type_code_range p.payload) h1,
          next16-At p.name (tag ++ (count ++ (values ++ t))) b h2,
          read_header-put_tag env buf len served fits p.name p.tag (idx + 4)
              (count ++ (values ++ t)) g h3,
          read_count-put_count buf len p.payload (idx + 4 + length tag) (values ++ t) (omega arith)
              h4,
          values_served (length (values_of p.payload)) few.0 within,
          type_of_code p.payload,
          read_values-put_values env buf len served fits p.payload
              (idx + 4 + length tag + length count) t r h5,
        )
        (ap (λ n. ok (some (attr_of p, n)))
          (omega (
            arith,
            length-append code (put16 p.name ++ (tag ++ (count ++ values))),
            length-append (put16 p.name) (tag ++ (count ++ values)),
            length-append tag (count ++ values),
            length-append count values,
            length-put16 p.name,
            length-put16 (type_code p.payload),
          )))

  read_properties-put_property :
      (props : List Property) (idx : ℕ) (t : Bytes)
      → All IsProperty props
      → At buf len idx (concat (map put_property props) ++ t)
      → read_properties env buf len (length props) idx ≡ ok (some (map attr_of props))
  unfolding read_properties concat
  read_properties-put_property [] idx t g h = refl
  read_properties-put_property (p ∷ others) idx t (gp, gs) h =
      let more = concat (map put_property others) in
      let h' = subst (At buf len idx) (append_assoc (put_property p) more t) h in
      rw (
        read_property-put_property p idx (more ++ t) gp h',
        read_properties-put_property others (idx + length (put_property p)) t gs
            (At-next (put_property p) (more ++ t) h'),
      )

put_property_one : (p : Property) → 1 ≤ length (put_property p)
put_property_one p = omega (
  arith,
  length-append (put16 (type_code p.payload))
      (put16 p.name ++ (put_tag p.tag ++ (put_count p.payload ++ put_values p.payload))),
  length-put16 (type_code p.payload),
)

-- Behind the number of properties.
body_At :
    (n : ℕ) (body rest : Bytes)
    → At (put32 n ++ (body ++ rest)) (length (put32 n ++ body)) 4 (body ++ [])
unfolding put32
body_At n body rest = record {
  rest = rest;
  here = rw (append-nil body) refl;
  within = omega (arith, length-append body []);
}

-- The parser reads back what the writer wrote: from the bytes of one or more properties (of the
-- integer, floating, time, currency, boolean, GUID, string, UTF-16, object and binary types, with
-- several values where the type has them, in a stream of less than 2 ^ 32 bytes, whatever follows it in the
-- block), `mapi_attr_read` gives the same types, names and values, in the order in which they were
-- written, with the GUIDs and the names or numbers of named properties. (`malloc` is taken to
-- succeed.)
pub mapi_attr_read-put_properties :
    (env : Env) (props : List Property) (rest : Bytes)
    → 1 ≤ length props
    → All IsProperty props
    → length (put_properties props) < 2 ^ 32
    → Serves env (24 * length (put_properties props) + 64)
    → mapi_attr_read env (length (put_properties props)) (put_properties props ++ rest)
      ≡ ok (some (map attr_of props))
unfolding mapi_attr_read
mapi_attr_read-put_properties env props rest one g fits served =
    let head = put32 (length props) in
    let body = concat (map put_property props) in
    let len = length (put_properties props) in
    let size : len ≡ 4 + length body =
      omega (arith, length-append head body, length-put32 (length props)) in
    let few : length props ≤ length body = length_le_concat put_property put_property_one props in
    let small : (length props + 1) % 2 ^ 32 ≡ length props + 1 = omega arith in
    rw
      (
        ltb_of_lt 4 len (omega arith),
        append_assoc head body rest,
        getint32-put32 (length props) (body ++ rest) (omega arith),
        small,
        checked_xmalloc-Serves (length props + 1) 8 0 (Serves-le _ served (omega arith))
            (omega arith),
        read_properties-put_property env (head ++ (body ++ rest)) len served fits props 4 [] g
            (body_At (length props) body rest),
      )
      (ground arith)
