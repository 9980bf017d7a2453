-- ===== src/Mapi/Tagged.antt =====
-- What stands behind the name of a property, the GUID and the names, is read back by src/mapi_attr.c.
use mathlib.Core.List.{append_assoc}
use mathlib.Core.Path.{subst}
use tnef.Prelude.{
  ℕ, ◌+◌, ◌*◌, ◌^◌, ◌<◌, ◌≤◌, ◌≡◌, ap, ◌∙◌, arith, true, false, List, [], ◌∷◌, ◌++◌, some, map,
  length, length-append, replicate, All, leb_of_le, ◌==◌,
}
use tnef.Outcome.{ok}
use tnef.Env.{Env}
use tnef.Alloc.{access, checked_xmalloc}
use tnef.Alloc.Limit.{Serves, Serves-le, checked_xcalloc-Serves, checked_xmalloc-Serves}
use tnef.Util.{Bytes}
use tnef.Util.Reference.{utf16_bytes}
use tnef.Util.Utf8.{unicode_to_utf8-utf16_bytes}
use tnef.Util.Words.{put32}
use tnef.Mapi.Types.{Guid, guid_exists}
use tnef.Mapi.Header.{Naming, read_name, read_names, read_header_names, read_header}
use tnef.Mapi.Cursor.{At, At-next, At-to, next32-At, length-put32}
use tnef.Mapi.Guids.{length-put_guid, copy_guid-put_guid}
use tnef.Mapi.Buffers.{length_le_concat, put_text_one, split, some_units, length-put_blob}
use tnef.Mapi.Writer.{
  Tag, untagged, numbered, titled, concat, padding, put_text, put_guid, put_tag, name_value,
  name_of, guid_of, names_of, IsText, IsGuid, IsTagged,
}

three : (a b c t : Bytes) → (a ++ (b ++ c)) ++ t ≡ a ++ (b ++ (c ++ t))
three a b c t = rw (append_assoc, append_assoc)

module _ (env : Env) (buf : Bytes) (len : ℕ) (served : Serves env (24 * len + 64))
    (fits : len < 2 ^ 32) where
  read_name-put_text :
      (us : List ℕ) (idx : ℕ) (t : Bytes)
      → IsText us
      → At buf len idx (put_text us ++ t)
      → read_name env buf len idx ≡ ok (name_value us, idx + length (put_text us))
  unfolding read_name
  read_name-put_text us idx t (one, b) h =
      let s = utf16_bytes us in
      let zeros = replicate {A = ℕ} (padding (length s)) 0 in
      let h' : At buf len idx (put32 (length s) ++ (s ++ (zeros ++ t))) =
        subst (At buf len idx) (split s t) h in
      let h'' : At buf len (idx + 4) (s ++ (zeros ++ t)) =
        At-to (ap (λ n. idx + n) (length-put32 (length s)))
          (At-next (put32 (length s)) (s ++ (zeros ++ t)) h') in
      rw
        (
          next32-At (length s) (s ++ (zeros ++ t))
              (omega (arith, h''.within, length-append s (zeros ++ t))) h',
          some_units us one,
          leb_of_le (idx + 4 + length s) len
              (omega (arith, h''.within, length-append s (zeros ++ t))),
          h''.here,
          append_assoc,
          unicode_to_utf8-utf16_bytes env us (zeros ++ t ++ h''.rest) (served.serves _) b,
        )
        (ap (λ n. ok (name_value us, n)) (omega (arith, length-put_blob s)))

  read_names-put_text :
      (texts : List (List ℕ)) (idx : ℕ) (t : Bytes)
      → All IsText texts
      → At buf len idx (concat (map put_text texts) ++ t)
      → read_names env buf len (length texts) idx
        ≡ ok (map name_value texts, idx + length (concat (map put_text texts)))
  unfolding read_names concat
  read_names-put_text [] idx t b h = ap (λ n. ok ([], n)) (omega arith)
  read_names-put_text (us ∷ texts) idx t (b, bs) h =
      let more = concat (map put_text texts) in
      let h' = subst (At buf len idx) (append_assoc (put_text us) more t) h in
      rw
        (
          read_name-put_text us idx (more ++ t) b h',
          read_names-put_text texts (idx + length (put_text us)) t bs
              (At-next (put_text us) (more ++ t) h'),
        )
        (ap (λ n. ok (name_value us ∷ map name_value texts, n))
          (omega (arith, length-append (put_text us) more)))

  served_guid : checked_xmalloc env 1 16 0 ≡ ok (some 16)
  served_guid = checked_xmalloc-Serves 1 16 0 (Serves-le _ served (omega arith)) (omega arith)

  -- The GUID, and the number of the names.
  guid_read :
      (name : ℕ) (g : Guid) (n idx : ℕ) (t : Bytes)
      → guid_exists name ≡ true
      → IsGuid g
      → n < 2 ^ 32
      → At buf len idx (put_guid g ++ (put32 n ++ t))
      → (At buf len (idx + 20) t)
        × (read_header env buf len name idx ≡ read_header_names env buf len name g n (idx + 20))
  unfolding read_header access
  guid_read name g n idx t e b small h =
      let size : length (put_guid g) ≡ 16 = omega (arith, length-put_guid g, b.3) in
      let h' : At buf len (idx + 16) (put32 n ++ t) =
        At-to (ap (λ k. idx + k) size) (At-next (put_guid g) (put32 n ++ t) h) in
      (
        At-to (omega (arith, length-put32 n)) (At-next (put32 n) t h'),
        rw (
          e,
          served_guid,
          copy_guid-put_guid buf (put32 n ++ t) len idx g b fits h,
          next32-At n t small h',
        ),
      )

  some_names : (n : ℕ) → 1 ≤ n → (n == 0) ≡ false
  some_names n h = ground arith

  names_read :
      (name : ℕ) (g : Guid) (texts : List (List ℕ)) (idx : ℕ) (t : Bytes)
      → 1 ≤ length texts
      → All IsText texts
      → At buf len idx (concat (map put_text texts) ++ t)
      → length texts ≤ len
      → read_header_names env buf len name g (length texts) idx
        ≡ ok (record {
          name = name;
          guid = some g;
          names = map name_value texts;
          idx = idx + length (concat (map put_text texts));
        })
  unfolding read_header_names
  names_read name g texts idx t one b h few = rw (
    some_names (length texts) one,
    checked_xcalloc-Serves (length texts) 16 0 (Serves-le _ served (omega arith)) (omega arith),
    read_names-put_text texts idx t b h,
  )

  abbrev found : ℕ → Tag → ℕ → Naming
  found name tag n = record {
    name = name_of name tag;
    guid = guid_of tag;
    names = names_of tag;
    idx = n;
  }

  plain_read :
      (name idx : ℕ)
      → guid_exists name ≡ false
      → read_header env buf len name idx ≡ ok (found name untagged idx)
  unfolding read_header
  plain_read name idx e = rw e

  number_read :
      (name : ℕ) (g : Guid) (real idx : ℕ) (t : Bytes)
      → real < 2 ^ 32
      → At buf len idx (put32 real ++ t)
      → read_header_names env buf len name g 0 idx ≡ ok (found name (numbered g real) (idx + 4))
  unfolding read_header_names
  number_read name g real idx t r h = rw (next32-At real t r h)

  pub read_header-put_tag :
      (name : ℕ) (tag : Tag) (idx : ℕ) (t : Bytes)
      → IsTagged name tag
      → At buf len idx (put_tag tag ++ t)
      → read_header env buf len name idx
        ≡ ok (record {
          name = name_of name tag;
          guid = guid_of tag;
          names = names_of tag;
          idx = idx + length (put_tag tag);
        })
  read_header-put_tag name untagged idx t e h =
      plain_read name idx e ∙ ap (λ n. ok (found name untagged n)) (omega arith)
  read_header-put_tag name (numbered g real) idx t (e, b, r) h =
      let (at, named) =
        guid_read name g 0 idx (put32 real ++ t) e b (omega arith)
          (subst (At buf len idx) (three (put_guid g) (put32 0) (put32 real) t) h) in
      named
      ∙ number_read name g real (idx + 20) t r at
      ∙ ap (λ n. ok (found name (numbered g real) n))
          (omega (
            arith,
            length-append (put_guid g) (put32 0 ++ put32 real),
            length-append (put32 0) (put32 real),
            length-put32 0,
            length-put32 real,
            length-put_guid g,
            b.3,
          ))
  read_header-put_tag name (titled g texts) idx t (e, b, one, bs) h =
      let names = concat (map put_text texts) in
      let h' = subst (At buf len idx) (three (put_guid g) (put32 (length texts)) names t) h in
      let few : length texts ≤ len = omega (
        arith,
        h.within,
        length_le_concat put_text put_text_one texts,
        length-append (put_guid g ++ (put32 (length texts) ++ names)) t,
        length-append (put_guid g) (put32 (length texts) ++ names),
        length-append (put32 (length texts)) names,
      ) in
      let (at, named) = guid_read name g (length texts) idx (names ++ t) e b (omega arith) h' in
      named
      ∙ names_read name g texts (idx + 20) t one bs at few
      ∙ ap (λ n. ok (found name (titled g texts) n))
          (omega (
            arith,
            length-append (put_guid g) (put32 (length texts) ++ names),
            length-append (put32 (length texts)) names,
            length-put32 (length texts),
            length-put_guid g,
            b.3,
          ))
