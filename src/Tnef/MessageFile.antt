-- ===== src/Tnef/MessageFile.antt =====
-- `parse_file` of src/tnef.c with --save-body on a whole message: a text, MAPI properties with an HTML
-- and an RTF body among them, and attachments.
use mathlib.Core.Path.{subst}
use tnef.Prelude.{
  ℕ, suc, ◌+◌, ◌-◌, ◌*◌, ◌^◌, ◌<◌, ◌≡◌, refl, ap, inl, ◌∙◌, arith, true, false, List, [], ◌∷◌, ◌++◌,
  Option, none, some, length, length-append, map, All, ◌==◌,
}
use tnef.Outcome.{ok}
use tnef.Env.{Env, flag_on, savebody, dbg_out}
use tnef.Alloc.Limit.{Serves, Serves-le}
use tnef.Util.{Bytes}
use tnef.Util.Words.{put16, put32}
use tnef.Util.Stream.{geti32-put32, geti16-put16}
use tnef.Names.{sz_text, sz_byte, att_body, att_mapiprops, att_attachrenddata}
use tnef.Attr.{sizeof_attr}
use tnef.Attr.Reader.{attr_of}
use tnef.Path.{Str}
use tnef.File.{World}
use tnef.Mapi.Writer.{Property, put_properties, IsProperty}
use tnef.Tnef.{MessageBody, Parse, message_attr, begin_attr, add_attr, parse_loop, tnef_signature}
use tnef.Tnef.Save.{parse_file, no_body}
use tnef.Tnef.Extract.{IsQuiet, Attachment, attr_stream, length-attr_stream, attr_round}
use tnef.Tnef.Written.{saved}
use tnef.Tnef.Sent.{Sent, IsSent, attachment_of}
use tnef.Tnef.RoundTrip.{sent_streams, saved_all, from_start}
use tnef.Tnef.Message.{
  Letter, letter_h, letter_t, Choice, pref_of, is_all, letters_of, bodies_of, body_of, IsServedBody,
  written, save_bodies-written,
}
use tnef.Tnef.Collect.{
  Source, properties_of, message_of, properties_of-empty, IsOther, HasSize, AllPacked,
  message_attr-text, message_attr-properties,
}

abbrev pub text_stream : Option Bytes → Bytes
text_stream none = []
text_stream (some b) = attr_stream 1 sz_text att_body b

-- No attribute where there is no property.
abbrev pub properties_stream : List Property → Bytes
properties_stream [] = []
properties_stream (p ∷ props) = attr_stream 1 sz_byte att_mapiprops (put_properties (p ∷ props))

abbrev pub message_stream : Source → List Sent → Bytes
message_stream m attachments =
    text_stream m.text ++ (properties_stream (properties_of m) ++ sent_streams attachments)

-- The other properties hold no body, the RTF is a compressed text, and all is within the limit.
pub record IsSource (env : Env) (directory : Option Str) (filename : Str) (m : Source)
    : Type 0 where
  pub good : All IsProperty m.others
  pub other : All IsOther m.others
  pub packed : AllPacked env m.rtf
  pub small : length (properties_stream (properties_of m)) + 64 < 2 ^ 32
  pub properties_served : Serves env (24 * length (properties_stream (properties_of m)) + 64)
  pub name_served : Serves env (length filename + 64)
  pub small_name : length filename + 64 < 2 ^ 64
  pub each : (k : Letter) → IsServedBody env directory filename k (body_of (message_of m) k)

module _ (env : Env) (directory : Option Str) (w : World) (d : flag_on env dbg_out ≡ false) where
  abbrev text_only : Source → MessageBody
  text_only m = bodies_of (record { rtf = none; html = none; text = m.text })

  -- The rounds that are left are enough for what is left of the stream.
  abbrev GoesOn : ℕ → Bytes → MessageBody → Bytes → MessageBody → Type 0
  GoesOn rounds input body rest body' =
      (left : ℕ) × (length rest < left)
      × (parse_loop rounds env false directory input
            (record { file = none; body = body; world = w })
          ≡ parse_loop left env false directory rest
              (record { file = none; body = body'; world = w }))

  -- One attribute of the message.
  message_round :
      (rounds type name : ℕ) (data_bytes rest : Bytes) (body body' : MessageBody)
      → type < 2 ^ 16
      → name < 2 ^ 16
      → (name == att_attachrenddata) ≡ false
      → length data_bytes < 2 ^ 32
      → Serves env (length data_bytes + sizeof_attr)
      → message_attr env body (attr_of 1 type name data_bytes) ≡ ok body'
      → length (attr_stream 1 type name data_bytes ++ rest) < rounds
      → GoesOn rounds (attr_stream 1 type name data_bytes ++ rest) body rest body'
  unfolding begin_attr add_attr
  message_round rounds type name data_bytes rest body body' ht hn other small s e enough =
      let more : length rest + 11 < rounds = omega (
        arith,
        length-append (attr_stream 1 type name data_bytes) rest,
        length-attr_stream 1 type name data_bytes,
      ) in
      let one : rounds ≡ suc (rounds - 1) = omega arith in
      let s0 : Parse = record { file = none; body = body; world = w } in
      (
        rounds - 1,
        omega arith,
        ap (λ n. parse_loop n env false directory (attr_stream 1 type name data_bytes ++ rest) s0)
              one
            ∙ attr_round env (rounds - 1) 1 type name data_bytes rest directory s0 (inl refl) ht hn
                small s d
            ∙ rw (other, e),
      )

  text_rounds :
      (rounds : ℕ) (text : Option Bytes) (rest : Bytes)
      → Serves env 64
      → HasSize env text
      → length (text_stream text ++ rest) < rounds
      → GoesOn rounds
          (text_stream text ++ rest)
          no_body
          rest
          (bodies_of (record { rtf = none; html = none; text = text }))
  text_rounds rounds none rest served s enough = (rounds, enough, refl)
  text_rounds rounds (some b) rest served s enough =
      message_round rounds sz_text att_body b rest no_body _ (omega arith) (omega arith) refl
        (omega (arith, s.1)) (Serves-le _ s.0 (omega arith))
        (message_attr-text env served no_body b (Serves-le _ s.0 (omega arith))
          (omega (arith, s.1)))
        enough

  properties_rounds :
      (rounds : ℕ) (m : Source) (rest : Bytes) (filename : Str)
      → IsSource env directory filename m
      → HasSize env m.html
      → (props : List Property) → properties_of m ≡ props
      → length (properties_stream props ++ rest) < rounds
      → GoesOn rounds
          (properties_stream props ++ rest)
          (text_only m)
          rest
          (bodies_of (message_of m))
  properties_rounds rounds m rest filename v s [] e enough =
      (rounds, enough, rw (properties_of-empty m (ap length e)) refl)
  properties_rounds rounds m rest filename v s (p ∷ props) e enough =
      let data_bytes = put_properties (p ∷ props) in
      let same : length (put_properties (properties_of m)) ≡ length data_bytes =
        ap (λ ps. length (put_properties ps)) e in
      let size : length (properties_stream (properties_of m)) ≡ length data_bytes + 11 =
        ap (λ ps. length (properties_stream ps)) e
        ∙ length-attr_stream 1 sz_byte att_mapiprops data_bytes in
      let few : length data_bytes + 75 < 2 ^ 32 = omega (arith, v.small) in
      let serves : Serves env (24 * length data_bytes + 64) =
        Serves-le _ v.properties_served (omega arith) in
      message_round rounds sz_byte att_mapiprops data_bytes rest (text_only m) _ (omega arith)
        (omega arith) refl (omega arith) (Serves-le _ serves (omega arith))
        (subst
          (λ ps.
            message_attr env (text_only m) (attr_of 1 sz_byte att_mapiprops (put_properties ps))
            ≡ ok (bodies_of (message_of m)))
          e
          (message_attr-properties env (Serves-le _ serves (omega arith)) m
            (omega (arith, ap length e)) v.good v.other s v.packed (omega arith)
            (Serves-le _ serves (omega arith))))
        enough

saved_all-can :
    (env : Env) (directory : Option Str) (w : World) (attachments : List Attachment)
    → ((p : Str) → w.can_create p ≡ true)
    → (p : Str) → (saved_all env directory w attachments).can_create p ≡ true
saved_all-can env directory w [] can p = can p
saved_all-can env directory w (a ∷ others) can p =
    saved_all-can env directory (saved env directory w a) others can p

HasSize-served :
    (env : Env) (directory : Option Str) (filename : Str) (k : Letter) (b : Option Bytes)
    → IsServedBody env directory filename k b
    → HasSize env b
HasSize-served env directory filename k none v = tt
HasSize-served env directory filename k (some b) v = (v.contents_served, v.small)

-- A stream with a message and attachments, with --overwrite, --save-body and no option that prints or
-- asks: `parse_file` returns 0, and the files are those of the attachments, by their titles or their
-- long names, and then those of the bodies that --save-body chooses among the text, the HTML and the
-- RTF of the message (all of them, or the first one by the order of its letters). The HTML and the
-- RTF come from MAPI properties, behind properties that hold no body, and the file of the RTF has
-- the text that its bytes stand for by LZ77. (Names are not empty and have no 0, sizes are within
-- the limit, `malloc` and `fopen` are taken to succeed.)
pub parse_file-saved_message :
    (env : Env) (directory : Option Str) (filename : Str)
    → IsQuiet env
    → flag_on env savebody ≡ true
    → (m : Source) (choice : Choice) (key : ℕ) (attachments : List Sent) (w : World) → key < 2 ^ 16
    → IsSource env directory filename m
    → All (IsSent env directory) attachments
    → ((p : Str) → w.can_create p ≡ true)
    → parse_file env false
        (put32 tnef_signature ++ (put16 key ++ message_stream m attachments))
        directory
        filename
        (pref_of choice)
        w
      ≡ ok (
          some (
            0,
            written env directory filename
                (message_of m)
                (is_all choice)
                (letters_of choice)
                (saved_all env directory w (map attachment_of attachments)),
          ))
unfolding parse_file
parse_file-saved_message env directory filename q on m choice key attachments w k v vs can =
    let served : Serves env 64 = Serves-le _ v.properties_served (omega arith) in
    let size = HasSize-served env directory filename in
    let after = properties_stream (properties_of m) ++ sent_streams attachments in
    let (n, enough, text) =
      text_rounds env directory w q.no_debug (suc (length (message_stream m attachments))) m.text
        after served (size letter_t m.text (v.each letter_t)) (omega arith) in
    let (n', enough', properties) =
      properties_rounds env directory w q.no_debug n m (sent_streams attachments) filename v
        (size letter_h m.html (v.each letter_h)) (properties_of m) refl enough in
    rw
      (
        geti32-put32 tnef_signature (put16 key ++ message_stream m attachments) (omega arith),
        geti16-put16 key (message_stream m attachments) k,
        text,
        properties,
      )
      (from_start env directory filename (pref_of choice) q (bodies_of (message_of m)) w can n'
          attachments served vs enough'
        ∙ rw
            (save_bodies-written env directory filename (message_of m) q v.name_served v.small_name
              v.each choice (saved_all env directory w (map attachment_of attachments)) on
              (saved_all-can env directory w (map attachment_of attachments) can))
            refl)
