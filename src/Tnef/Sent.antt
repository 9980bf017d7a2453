-- ===== src/Tnef/Sent.antt =====
-- An attachment in a stream of src/tnef.c, with or without the attribute that holds its MAPI properties,
-- the long name among them.
use mathlib.Core.List.{map-append, append_assoc}
use tnef.Prelude.{
  ℕ, suc, ◌+◌, ◌-◌, ◌*◌, ◌^◌, ◌<◌, ◌≡◌, refl, ap, inr, ◌∙◌, arith, Bool, true, false, List, [], ◌∷◌,
  ◌++◌, Option, none, some, length, length-append, map, All, ◌==◌, if◌then◌else◌,
}
use tnef.Outcome.{Result, ok}
use tnef.Env.{Env, flag_on, dbg_out}
use tnef.Alloc.Limit.{Serves, Serves-le}
use tnef.Util.{Bytes}
use tnef.Names.{
  sz_byte, att_attachment, mapi_attach_long_filename, mapi_attach_data_obj, mapi_attach_mime_tag,
  mapi_attach_content_id,
}
use tnef.Attr.Reader.{attr_of}
use tnef.Path.{Str}
use tnef.File.{File, World}
use tnef.File.Attach.{file_add_attr, file_add_mapi_attr, file_add_mapi_attrs}
use tnef.Mapi.Writer.{name_of, untagged, Property, blobs, string, put_properties, IsProperty}
use tnef.Mapi.Writer
use tnef.Mapi.RoundTrip.{mapi_attr_read-put_properties}
use tnef.Tnef.{MessageBody, Parse, begin_attr, add_attr, parse_loop}
use tnef.Tnef.Extract.{
  Attachment, IsServed, attr_stream, length-attr_stream, attr_round, attachment_stream, file_of,
  c_string-append,
}

-- The properties: those that do not matter here, and then the long name.
pub record Named : Type 0 where
  pub others : List Property
  pub long_name : Str

pub record Sent : Type 0 where
  pub short : Attachment
  pub named : Option Named

abbrev pub long_property : Str → Property
long_property name = record {
  name = mapi_attach_long_filename;
  tag = untagged;
  payload = blobs string ((name ++ 0 ∷ []) ∷ []);
}

abbrev pub properties_of : Named → List Property
properties_of n = n.others ++ long_property n.long_name ∷ []

abbrev pub named_stream : Option Named → Bytes → Bytes
named_stream none rest = rest
named_stream (some n) rest =
    attr_stream 2 sz_byte att_attachment (put_properties (properties_of n)) ++ rest

abbrev pub sent_stream : Sent → Bytes → Bytes
sent_stream s rest = attachment_stream s.short (named_stream s.named rest)

-- The long name is the one that counts.
abbrev renamed : Attachment → Option Named → Attachment
renamed a none = a
renamed a (some n) = record a { title = n.long_name }

abbrev pub attachment_of : Sent → Attachment
attachment_of s = renamed s.short s.named

-- A property that sets nothing of a file.
abbrev pub IsIdle : Property → Type 0
IsIdle p =
    ((name_of p.name p.tag == mapi_attach_long_filename) ≡ false)
    × ((name_of p.name p.tag == mapi_attach_data_obj) ≡ false)
    × ((name_of p.name p.tag == mapi_attach_mime_tag) ≡ false)
    × ((name_of p.name p.tag == mapi_attach_content_id) ≡ false)

pub record IsNamed (env : Env) (n : Named) : Type 0 where
  pub good : All IsProperty n.others
  pub idle : All IsIdle n.others
  pub no_zero : All (λ c. (c == 0) ≡ false) n.long_name
  pub small : length (put_properties (properties_of n)) + 64 < 2 ^ 32
  pub served : Serves env (24 * length (put_properties (properties_of n)) + 64)

abbrev pub IsNamedIfAny : Env → Option Named → Type 0
IsNamedIfAny env none = Unit
IsNamedIfAny env (some n) = IsNamed env n

pub record IsSent (env : Env) (directory : Option Str) (s : Sent) : Type 0 where
  pub short_served : IsServed env directory s.short
  pub named_served : IsNamedIfAny env s.named
  pub served : IsServed env directory (attachment_of s)

either_way : (b : Bool) (r : Result File) → (if b then r else r) ≡ r
either_way true r = refl
either_way false r = refl

idle_kept :
    (env : Env) (file : File) (p : Property)
    → IsIdle p
    → file_add_mapi_attr env file (Writer.attr_of p) ≡ ok file
unfolding file_add_mapi_attr
idle_kept env file p (a, b, c, d) =
    rw (a, b, c, d) (either_way (length (Writer.values_of p.payload) == 0) (ok file))

long_set :
    (env : Env) (file : File) (name : Str)
    → All (λ c. (c == 0) ≡ false) name
    → file_add_mapi_attr env file (Writer.attr_of (long_property name))
      ≡ ok (record file { name = some name })
unfolding file_add_mapi_attr
long_set env file name h =
    rw (append_assoc name (0 ∷ []) (0 ∷ []), c_string-append name (0 ∷ []) h) refl

all_set :
    (env : Env) (file : File) (others : List Property) (name : Str)
    → All IsIdle others
    → All (λ c. (c == 0) ≡ false) name
    → file_add_mapi_attrs env file
        (map Writer.attr_of others ++ Writer.attr_of (long_property name) ∷ [])
      ≡ ok (record file { name = some name })
unfolding file_add_mapi_attrs
all_set env file [] name idle h = rw (long_set env file name h) refl
all_set env file (p ∷ others) name (i, idle) h =
    rw (idle_kept env file p i) (all_set env file others name idle h)

all_good :
    (others : List Property) (name : Str)
    → All IsProperty others
    → All IsProperty (others ++ long_property name ∷ [])
all_good [] name g = ((omega arith, refl, omega arith), tt)
all_good (p ∷ others) name (g, gs) = (g, all_good others name gs)

-- The attribute of the properties.
named_set :
    (env : Env) (file : File) (n : Named)
    → IsNamed env n
    → file_add_attr env
        (some file)
        (attr_of 2 sz_byte att_attachment (put_properties (properties_of n)))
      ≡ ok (record file { name = some n.long_name })
unfolding file_add_attr
named_set env file n v =
    rw
      (
        mapi_attr_read-put_properties env (properties_of n) (0 ∷ [])
            (omega (arith, length-append n.others (long_property n.long_name ∷ [])))
            (all_good n.others n.long_name v.good) (omega (arith, v.small)) v.served,
        map-append Writer.attr_of n.others (long_property n.long_name ∷ []),
      )
      (all_set env file n.others n.long_name v.idle v.no_zero)

module _ (env : Env) (directory : Option Str) (d : flag_on env dbg_out ≡ false) where
  -- The round of that attribute, where there is one.
  pub named_rounds :
      (rounds : ℕ) (a : Attachment) (named : Option Named) (rest : Bytes) (body : MessageBody)
      (w : World)
      → IsNamedIfAny env named
      → length (named_stream named rest) < rounds
      → (rounds' : ℕ) × (length rest < rounds')
        × (parse_loop rounds env false directory
              (named_stream named rest)
              (record { file = some (file_of a); body = body; world = w })
            ≡ parse_loop rounds' env false directory rest
                (record { file = some (file_of (renamed a named)); body = body; world = w }))
  unfolding begin_attr add_attr
  named_rounds rounds a none rest body w v enough = (rounds, enough, refl)
  named_rounds rounds a (some n) rest body w v enough =
      let props = put_properties (properties_of n) in
      let s : Parse = record { file = some (file_of a); body = body; world = w } in
      let more : length rest + 11 < rounds = omega (
        arith,
        length-append (attr_stream 2 sz_byte att_attachment props) rest,
        length-attr_stream 2 sz_byte att_attachment props,
      ) in
      let one : rounds ≡ suc (rounds - 1) = omega arith in
      (
        rounds - 1,
        omega arith,
        ap (λ k. parse_loop k env false directory (named_stream (some n) rest) s) one
            ∙ attr_round env (rounds - 1) 2 sz_byte att_attachment props rest directory s (inr refl)
                (omega arith) (omega arith) (omega (arith, v.small))
                (Serves-le _ v.served (omega arith)) d
            ∙ rw (named_set env (file_of a) n v),
      )
