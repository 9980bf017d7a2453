-- ===== src/File/Attach.antt =====
-- src/file.c: what the attributes of an attachment set in a file.
use tnef.Prelude.{
  Bool, false, ◌||◌, List, [], ◌∷◌, ◌++◌, Option, none, some, get_or, take, replicate, ◌==◌,
  if◌then◌else◌,
}
use tnef.Outcome.{Result, ok, assert, ◌>>=◌, ◌>>◌}
use tnef.Env.{Env}
use tnef.Alloc.{checked_xmalloc, access}
use tnef.Util.{Bytes, c_string}
use tnef.Attr.{Attr, copy_date_from_attr}
use tnef.Names.{
  att_attachmodifydate, att_attachment, att_attachtitle, att_attachdata, mapi_attach_long_filename,
  mapi_attach_data_obj, mapi_attach_mime_tag, mapi_attach_content_id, szmapi_string,
  szmapi_unicode_string, szmapi_binary, szmapi_object,
}
use tnef.Mapi.Types.{MapiValue, MapiAttr, block}
use tnef.Mapi.Header.{read_bytes}
use tnef.Mapi.{mapi_attr_read, blank}
use tnef.File.{File, cleared_file}

-- `values[0]`, and the block that its `data.buf` points to.
abbrev pub first_value : MapiAttr → MapiValue
first_value a = get_or a.values 0 blank

abbrev pub value_block : MapiValue → Bytes
value_block v = elim v.content [ block bytes ↦ bytes | _ ↦ [] ]

abbrev pub is_text : MapiAttr → Bool
is_text a = a.type == szmapi_string || a.type == szmapi_unicode_string

-- A block of `values[0].len` bytes, copied by `memmove`.
unfoldable pub copy_value : Env → MapiValue → Result Bytes
copy_value env v = do p ← checked_xmalloc env v.len 1 0; read_bytes v.len (value_block v)

-- The same for a string. The block of a converted string has `3 * len / 2 + 1` bytes; those behind its
-- terminating 0 are not initialised. They are taken as 0: what prints the string stops before them.
unfoldable pub copy_text : Env → MapiAttr → Result Bytes
copy_text env a =
    let v = first_value a in
    if a.type == szmapi_unicode_string
    then (do
      p ← checked_xmalloc env v.len 1 0
      ok (take v.len (value_block v ++ replicate v.len 0)))
    else copy_value env v

unfoldable pub file_add_mapi_attr : Env → File → MapiAttr → Result File
file_add_mapi_attr env file a =
    if a.num_values == 0
    then ok file
    else if a.name == mapi_attach_long_filename
    then (do
      assert (is_text a)
      name ← c_string (value_block (first_value a))
      ok (record file { name = some name }))
    else if a.name == mapi_attach_data_obj
    then (do
      assert (a.type == szmapi_binary || a.type == szmapi_object)
      bytes ← copy_value env (first_value a)
      ok (record file { len = (first_value a).len; bytes = some bytes }))
    else if a.name == mapi_attach_mime_tag
    then (do
      assert (is_text a)
      bytes ← copy_text env a
      ok (record file { mime_type = some bytes }))
    else if a.name == mapi_attach_content_id
    then (do
      assert (is_text a)
      bytes ← copy_text env a
      ok (record file { content_id = some bytes }))
    else ok file

unfoldable pub file_add_mapi_attrs : Env → File → List MapiAttr → Result File
file_add_mapi_attrs env file [] = ok file
file_add_mapi_attrs env file (a ∷ attrs) = do
  file' ← file_add_mapi_attr env file a
  file_add_mapi_attrs env file' attrs

abbrev pub add_unless_null : Env → File → Option (List MapiAttr) → Result File
add_unless_null env file none = ok file
add_unless_null env file (some attrs) = file_add_mapi_attrs env file attrs

-- `none` is a NULL file.
unfoldable pub file_add_attr : Env → Option File → Attr → Result File
file_add_attr env none attr = do assert false; ok cleared_file
file_add_attr env (some file) attr =
    if attr.name == att_attachmodifydate
    then (do dt ← copy_date_from_attr attr; ok (record file { dt = dt }))
    else if attr.name == att_attachment
    then (do attrs ← mapi_attr_read env attr.len attr.buf; add_unless_null env file attrs)
    else if attr.name == att_attachtitle
    then (do name ← c_string attr.buf; ok (record file { name = some name }))
    else if attr.name == att_attachdata
    then (do
      p ← checked_xmalloc env attr.len 1 0
      access p
      bytes ← read_bytes attr.len attr.buf
      ok (record file { len = attr.len; bytes = some bytes }))
    else ok file
