-- ===== src/Tnef/Collect.antt =====
-- The bodies that `message_attr` of src/tnef.c takes out of the attributes of a message: the text,
-- the HTML and the compressed RTF, the last two from MAPI properties.
use mathlib.Core.Option
use mathlib.Core.List.{map-append}
use tnef.Prelude.{
  ◌+◌, ◌*◌, ◌^◌, ◌<◌, ◌≤◌, ◌≡◌, refl, arith, false, List, [], ◌∷◌, ◌++◌, Option, none, some, length,
  length-append, map, All, ◌==◌, ◌&&◌,
}
use tnef.Outcome.{ok}
use tnef.Env.{Env}
use tnef.Alloc.{access, malloc, xcalloc, xmalloc, null_check, checked_product, check_mul_overflow}
use tnef.Alloc.Limit.{Serves, Serves-le, checked_xcalloc-Serves}
use tnef.Util.{Bytes}
use tnef.Names.{
  sz_text, sz_byte, att_body, att_mapiprops, mapi_body_html, mapi_rtf_compressed, szmapi_binary,
}
use tnef.Attr.Reader.{attr_of}
use tnef.Mapi.Types.{MapiAttr}
use tnef.Mapi.Writer.{
  name_of, untagged, Property, blobs, binary, type_of, put_properties, IsProperty,
}
use tnef.Mapi.Writer
use tnef.Mapi.RoundTrip.{mapi_attr_read-put_properties}
use tnef.Tnef.{
  MessageBody, get_text_data, get_html_data, html_entries, add_body, add_bodies, message_attr,
}
use tnef.Tnef.Extract.{read_bytes-append}
use tnef.Tnef.Message.{Message, one_body, bodies_of}
use tnef.Tnef.Packed.{Packed, IsPacked, rtf_property, get_rtf_data-rtf_property}

-- What a message has, and its other properties, which stand first.
pub record Source : Type 0 where
  pub text : Option Bytes
  pub others : List Property
  pub html : Option Bytes
  pub rtf : Option Packed

abbrev pub html_property : Bytes → Property
html_property html = record {
  name = mapi_body_html;
  tag = untagged;
  payload = blobs binary (html ∷ []);
}

abbrev if_any : {A : Type 0} → (A → Property) → Option A → List Property
if_any put none = []
if_any put (some a) = put a ∷ []

abbrev pub properties_of : Source → List Property
properties_of m = m.others ++ (if_any html_property m.html ++ if_any rtf_property m.rtf)

abbrev pub message_of : Source → Message
message_of m = record {
  rtf = Option.map (λ (p : Packed). p.text) m.rtf;
  html = m.html;
  text = m.text;
}

-- No property, so no body either.
pub properties_of-empty :
    (m : Source)
    → length (properties_of m) ≡ 0
    → bodies_of (message_of m) ≡ bodies_of (record { rtf = none; html = none; text = m.text })
properties_of-empty m e = empty m.html m.rtf (
    omega
      (arith, length-append m.others (if_any html_property m.html ++ if_any rtf_property m.rtf)))
  where
    empty :
        (html : Option Bytes) (rtf : Option Packed)
        → length (if_any html_property html ++ if_any rtf_property rtf) ≡ 0
        → bodies_of
            (message_of (record { text = m.text; others = m.others; html = html; rtf = rtf }))
          ≡ bodies_of (record { rtf = none; html = none; text = m.text })
    empty none none e = refl
    empty none (some p) e = absurd (omega arith)
    empty (some b) rtf e = absurd (omega arith)

-- A property that holds no body.
abbrev pub IsOther : Property → Type 0
IsOther p =
    ((type_of p.payload == szmapi_binary && name_of p.name p.tag == mapi_body_html) ≡ false)
    × ((type_of p.payload == szmapi_binary && name_of p.name p.tag == mapi_rtf_compressed) ≡ false)

All-append :
    (props props' : List Property)
    → All IsProperty props
    → All IsProperty props'
    → All IsProperty (props ++ props')
All-append [] props' h h' = h'
All-append (p ∷ props) props' (hp, h) h' = (hp, All-append props props' h h')

all_properties : (m : Source) → All IsProperty m.others → All IsProperty (properties_of m)
all_properties m h = All-append m.others _ h (bodies m.html m.rtf)
  where
    bodies :
        (html : Option Bytes) (rtf : Option Packed)
        → All IsProperty (if_any html_property html ++ if_any rtf_property rtf)
    bodies none none = tt
    bodies none (some p) = ((omega arith, refl, omega arith), tt)
    bodies (some b) none = ((omega arith, refl, omega arith), tt)
    bodies (some b) (some p) =
        ((omega arith, refl, omega arith), ((omega arith, refl, omega arith), tt))

abbrev pub HasSize : Env → Option Bytes → Type 0
HasSize env none = Unit
HasSize env (some b) = Serves env (length b + 64) × (length b + 64 < 2 ^ 32)

abbrev pub AllPacked : Env → Option Packed → Type 0
AllPacked env none = Unit
AllPacked env (some p) = IsPacked env p

module _ (env : Env) (served : Serves env 64) where
  xcalloc_16 : xcalloc env 2 8 0 ≡ ok (some 16)
  unfolding xcalloc checked_product check_mul_overflow malloc
  xcalloc_16 = rw (served.serves 16) refl

  xcalloc_one_16 : xcalloc env 1 16 0 ≡ ok (some 16)
  unfolding xcalloc checked_product check_mul_overflow malloc
  xcalloc_one_16 = rw (served.serves 16) refl

  xmalloc_16 : xmalloc env 1 16 0 ≡ ok (some 16)
  unfolding xmalloc checked_product check_mul_overflow malloc null_check
  xmalloc_16 = rw (served.serves 16) refl

  pub message_attr-text :
      (body : MessageBody) (text : Bytes)
      → Serves env (length text)
      → length text < 2 ^ 32
      → message_attr env body (attr_of 1 sz_text att_body text)
        ≡ ok (record body { text_body = one_body (some text) })
  unfolding message_attr get_text_data access
  message_attr-text body text s small = rw (
    xcalloc_16,
    xcalloc_one_16,
    checked_xcalloc-Serves (length text) 1 0 (Serves-le _ s (omega arith)) (omega arith),
    read_bytes-append text (0 ∷ []),
  )

  add_body-html :
      (body : MessageBody) (html : Bytes)
      → Serves env (length html)
      → length html < 2 ^ 32
      → add_body env body (Writer.attr_of (html_property html))
        ≡ ok (record body { html_bodies = one_body (some html) })
  unfolding add_body get_html_data html_entries access
  add_body-html body html s small = rw (
    xcalloc_16,
    xmalloc_16,
    checked_xcalloc-Serves (length html) 1 0 (Serves-le _ s (omega arith)) (omega arith),
    read_bytes-append html (0 ∷ []),
  )

  add_body-rtf :
      (body : MessageBody) (p : Packed)
      → IsPacked env p
      → add_body env body (Writer.attr_of (rtf_property p))
        ≡ ok (record body { rtf_bodies = one_body (some p.text) })
  unfolding add_body
  add_body-rtf body p v = rw (get_rtf_data-rtf_property env p v served)

  add_bodies-others :
      (body : MessageBody) (others : List Property) (attrs : List MapiAttr)
      → All IsOther others
      → add_bodies env body (map Writer.attr_of others ++ attrs) ≡ add_bodies env body attrs
  unfolding add_bodies add_body
  add_bodies-others body [] attrs h = refl
  add_bodies-others body (p ∷ others) attrs ((a, b), h) =
      rw (a, b, add_bodies-others body others attrs h)

  add_bodies-html-rtf :
      (text html : Option Bytes) (rtf : Option Packed)
      → HasSize env html
      → AllPacked env rtf
      → add_bodies env
          (bodies_of (record { rtf = none; html = none; text = text }))
          (map Writer.attr_of (if_any html_property html ++ if_any rtf_property rtf))
        ≡ ok (
            bodies_of
              (record { rtf = Option.map (λ (p : Packed). p.text) rtf; html = html; text = text }))
  unfolding add_bodies
  add_bodies-html-rtf text none none s v = refl
  add_bodies-html-rtf text none (some p) s v = rw (add_body-rtf _ p v)
  add_bodies-html-rtf text (some b) none s v =
      rw (add_body-html _ b (Serves-le _ s.0 (omega arith)) (omega (arith, s.1)))
  add_bodies-html-rtf text (some b) (some p) s v =
      rw
        (add_body-html _ b (Serves-le _ s.0 (omega arith)) (omega (arith, s.1)), add_body-rtf _ p v)

  -- What the properties of the message add to its bodies.
  pub message_attr-properties :
      (m : Source)
      → 1 ≤ length (properties_of m)
      → All IsProperty m.others
      → All IsOther m.others
      → HasSize env m.html
      → AllPacked env m.rtf
      → length (put_properties (properties_of m)) < 2 ^ 32
      → Serves env (24 * length (put_properties (properties_of m)) + 64)
      → message_attr env
          (bodies_of (record { rtf = none; html = none; text = m.text }))
          (attr_of 1 sz_byte att_mapiprops (put_properties (properties_of m)))
        ≡ ok (bodies_of (message_of m))
  unfolding message_attr
  message_attr-properties m one good other s v fits served =
      rw
        (
          mapi_attr_read-put_properties env (properties_of m) (0 ∷ []) one (all_properties m good)
              fits served,
          map-append Writer.attr_of m.others
              (if_any html_property m.html ++ if_any rtf_property m.rtf),
          add_bodies-others _ m.others _ other,
        )
        (add_bodies-html-rtf m.text m.html m.rtf s v)
