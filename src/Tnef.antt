-- ===== src/Tnef.antt =====
-- src/tnef.c: the loop over the whole stream; Save has the message bodies and `parse_file`. The input
-- is a file, so `data_left` knows how much there is, or standard input.
pub mod Save
pub mod Files
pub mod Extract
pub mod Written
pub mod Sent
pub mod RoundTrip
pub mod Message
pub mod Packed
pub mod Collect
pub mod MessageFile
pub mod TextBody
pub mod ShortPref
pub mod Progress
pub mod Free
use tnef.Prelude.{
  ℕ, zero, suc, ◌+◌, Bool, true, false, not, ◌||◌, ◌&&◌, List, [], ◌∷◌, ◌++◌, Option, none, some,
  length, ltb, ◌==◌, if◌then◌else◌,
}
use tnef.Outcome.{Result, ok, halt, fault, exit, assert, ◌>>=◌, ◌>>◌}
use tnef.Env.{Env}
use tnef.Alloc.{checked_xcalloc, checked_xmalloc, xcalloc, xmalloc, access, access_some}
use tnef.Util.{Bytes, geti32, geti16}
use tnef.Attr.{Attr, attr_read, lvl_message, lvl_attachment}
use tnef.Names.{
  att_attachrenddata, att_body, att_mapiprops, mapi_body_html, mapi_rtf_compressed, szmapi_binary,
}
use tnef.Mapi.Types.{MapiValue, MapiAttr, Content, block}
use tnef.Mapi.Header.{read_bytes}
use tnef.Mapi.{mapi_attr_read}
use tnef.Rtf.{Output, get_rtf_data}
use tnef.Path.{Str}
use tnef.File.{File, World, cleared_file, file_write}
use tnef.File.Attach.{file_add_attr, value_block}

abbrev pub tnef_signature : ℕ
tnef_signature = 0x223e9f78

abbrev pub minimum_attr_length : ℕ
minimum_attr_length = 8

abbrev pub sizeof_file : ℕ
sizeof_file = 64

-- A `VarLenData*` of a body: its length and its bytes, NULL if they were never set.
abbrev pub Bodies : Type 0
Bodies = List (Option Output)

-- `MessageBody`: each array up to its terminating NULL; `none` is a NULL array.
pub record MessageBody : Type 0 where
  pub text_body : Option Bodies
  pub html_bodies : Option Bodies
  pub rtf_bodies : Option Bodies

unfoldable pub get_text_data : Env → Attr → Result Bodies
get_text_data env attr = do
  p ← xcalloc env 2 8 0
  access p
  q ← xcalloc env 1 16 0
  access q
  b ← checked_xcalloc env attr.len 1 0
  access_some b attr.len
  bytes ← read_bytes attr.len attr.buf
  ok (some (record { len = attr.len; bytes = some bytes }) ∷ [])

unfoldable pub html_entries : Env → ℕ → List MapiValue → Result Bodies
html_entries env type [] = ok []
html_entries env type (v ∷ values) = do
  e ←
      if type == szmapi_binary
      then (do
        p ← xmalloc env 1 16 0
        access p
        b ← checked_xcalloc env v.len 1 0
        access_some b v.len
        bytes ← read_bytes v.len (value_block v)
        ok (some (record { len = v.len; bytes = some bytes })))
      else ok none
  rest ← html_entries env type values
  ok (e ∷ rest)

-- An array without entries is NULL where `malloc` fails; that is an access here, too.
unfoldable pub get_html_data : Env → MapiAttr → Result Bodies
get_html_data env a = do
  p ← xcalloc env (a.num_values + 1) 8 0
  access p
  html_entries env a.type a.values

-- Whether to go on reading; what is printed about cruft at the end is left out, as it is the end in
-- any case. On standard input only the end of the input that was met before counts, and that has
-- never been met here: every read that meets it stops the program, or the loop by `read_object`.
unfoldable pub data_left : Bool → Bytes → Bool
data_left from_stdin input =
    from_stdin || not (ltb 0 (length input) && ltb (length input) minimum_attr_length)

-- `none` at the end of the input.
unfoldable pub read_object : Env → Bytes → Result (Option (Attr × Bytes))
read_object env [] = ok none
read_object env (c ∷ input) = do r ← attr_read env (c ∷ input); ok (some r)

-- The variables of `parse_file` across its loop.
pub record Parse : Type 0 where
  pub file : Option File
  pub body : MessageBody
  pub world : World

-- `if (attr->name == attATTACHRENDDATA)`: the file before is written, and a cleared one is there.
abbrev pub new_file : Env → Option Str → World → Option File → Result World
new_file env directory w none = do p ← checked_xcalloc env 1 sizeof_file 0; access p; ok w
new_file env directory w (some file) = file_write env w file directory

unfoldable pub begin_file : Env → Option Str → Parse → Result Parse
begin_file env directory s = do
  w ← new_file env directory s.world s.file
  ok (record s { file = some cleared_file; world = w })

unfoldable pub add_body : Env → MessageBody → MapiAttr → Result MessageBody
add_body env body a =
    if a.type == szmapi_binary && a.name == mapi_body_html
    then (do html ← get_html_data env a; ok (record body { html_bodies = some html }))
    else if a.type == szmapi_binary && a.name == mapi_rtf_compressed
    then (do rtf ← get_rtf_data env a; ok (record body { rtf_bodies = some rtf }))
    else ok body

unfoldable pub add_bodies : Env → MessageBody → List MapiAttr → Result MessageBody
add_bodies env body [] = ok body
add_bodies env body (a ∷ attrs) = do body' ← add_body env body a; add_bodies env body' attrs

abbrev pub bodies_unless_null : Env → MessageBody → Option (List MapiAttr) → Result MessageBody
bodies_unless_null env body none = ok body
bodies_unless_null env body (some attrs) = add_bodies env body attrs

unfoldable pub message_attr : Env → MessageBody → Attr → Result MessageBody
message_attr env body attr =
    if attr.name == att_body
    then (do text ← get_text_data env attr; ok (record body { text_body = some text }))
    else if attr.name == att_mapiprops
    then (do attrs ← mapi_attr_read env attr.len attr.buf; bodies_unless_null env body attrs)
    else ok body

-- The `switch` on the level; `none` is the `return 1` of its default.
unfoldable pub add_attr : Env → Parse → Attr → Result (Option Parse)
add_attr env s attr =
    if attr.lvl_type == lvl_message
    then (do body ← message_attr env s.body attr; ok (some (record s { body = body })))
    else if attr.lvl_type == lvl_attachment
    then (do file ← file_add_attr env s.file attr; ok (some (record s { file = some file })))
    else ok none

unfoldable pub begin_attr : Env → Option Str → Parse → Attr → Result Parse
begin_attr env directory s attr =
    if attr.name == att_attachrenddata then begin_file env directory s else ok s

-- How the loop ends: by itself, by `return 1`, or because the rounds ran out.
pub data Loop : Type 0 where
  finished : Parse → Loop
  returned : ℕ → World → Loop
  out_of_rounds : Loop

abbrev pub or_return : Parse → Option Parse → (Parse → Result Loop) → Result Loop
or_return s none go_on = ok (returned 1 s.world)
or_return s (some s') go_on = go_on s'

abbrev pub or_finish : Parse → Option (Attr × Bytes) → (Attr × Bytes → Result Loop) → Result Loop
or_finish s none go_on = ok (finished s)
or_finish s (some object) go_on = go_on object

-- Each round but the last takes an attribute off the input.
unfoldable pub parse_loop : ℕ → Env → Bool → Option Str → Bytes → Parse → Result Loop
parse_loop zero env from_stdin directory input s = ok out_of_rounds
parse_loop (suc rounds) env from_stdin directory input s =
    let round : Result Loop = (do
      object ← read_object env input
      or_finish s object (λ r. (do
        s' ← begin_attr env directory s r.0
        s'' ← add_attr env s' r.0
        or_return s' s'' (parse_loop rounds env from_stdin directory r.1)))) in
    if data_left from_stdin input then round else ok (finished s)

abbrev pub write_if_any : Env → Option Str → World → Option File → Result World
write_if_any env directory w none = ok w
write_if_any env directory w (some file) = file_write env w file directory

unfoldable pub write_last : Env → Option Str → Parse → Result World
write_last env directory s = write_if_any env directory s.world s.file
