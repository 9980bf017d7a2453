-- ===== src/Mapi/Dump.antt =====
-- `mapi_attr_dump` of src/mapi_attr.c: the text that --debug prints of a property. The names of
-- properties and types are those of generated tables, and the text of a `float` is the platform's:
-- they are parameters.
use tnef.Prelude.{
  ℕ, zero, suc, ◌+◌, ◌%◌, ◌^◌, ◌||◌, List, [], ◌∷◌, ◌++◌, Option, none, some, ◌==◌, if◌then◌else◌,
  ascii,
}
use tnef.Outcome.{Result, ok, halt, fault, ◌>>=◌}
use tnef.Util.{Bytes, c_string}
use tnef.Names.{
  szmapi_null, szmapi_short, szmapi_int, szmapi_float, szmapi_double, szmapi_currency,
  szmapi_apptime, szmapi_error, szmapi_boolean, szmapi_object, szmapi_int8byte, szmapi_string,
  szmapi_unicode_string, szmapi_systime, szmapi_clsid, szmapi_binary,
}
use tnef.Print.{decimal}
use tnef.Write.{
  write_int16, write_int32, write_uint32, write_boolean, write_string, write_uint64, write_guid,
  write_byte,
}
use tnef.Mapi.Types.{
  Guid, Content, cleared, bytes2, bytes4, bytes8, clsid, block, MapiValue, VarLenData, MapiAttr,
}

-- The members of the union. A member that was not the one set is no number of its own: that does not
-- arise, since the type of the property says which one is set.
abbrev pub get_bytes2 : Content → Result ℕ
get_bytes2 cleared = ok 0
get_bytes2 (bytes2 x) = ok x
get_bytes2 _ = halt fault

abbrev pub get_bytes4 : Content → Result ℕ
get_bytes4 cleared = ok 0
get_bytes4 (bytes4 x) = ok x
get_bytes4 _ = halt fault

abbrev pub get_bytes8 : Content → Result (ℕ × ℕ)
get_bytes8 cleared = ok (0, 0)
get_bytes8 (bytes8 low high) = ok (low, high)
get_bytes8 _ = halt fault

abbrev pub no_guid : Guid
no_guid = record { data1 = 0; data2 = 0; data3 = 0; data4 = 0 ∷ 0 ∷ 0 ∷ 0 ∷ 0 ∷ 0 ∷ 0 ∷ 0 ∷ [] }

abbrev pub get_guid : Content → Result Guid
get_guid cleared = ok no_guid
get_guid (clsid guid) = ok guid
get_guid _ = halt fault

-- A cleared value holds the null pointer, which `%s` must not be given.
abbrev pub get_string : Content → Result Bytes
get_string (block bytes) = c_string bytes
get_string _ = halt fault

-- The loop over `x`, with `len - x` bytes left.
unfoldable pub dump_bytes : ℕ → Bytes → Result Bytes
dump_bytes zero bytes = ok []
dump_bytes (suc n) [] = halt fault
dump_bytes (suc n) (b ∷ bytes) = do text ← dump_bytes n bytes; ok (write_byte b ++ b' ' ∷ text)

-- No byte is read through the null pointer of a cleared value, whose length is 0.
abbrev pub dump_block : ℕ → Content → Result Bytes
dump_block n (block bytes) = dump_bytes n bytes
dump_block n _ = dump_bytes n []

unfoldable pub dump_names : ℕ → List VarLenData → Result Bytes
dump_names i [] = ok []
dump_names i (v ∷ names) = do
  s ← c_string v.bytes
  text ← dump_names (i + 1) names
  ok (ascii "\tname #" ++ decimal i ++ ascii ": '" ++ s ++ ascii "'\n" ++ text)

abbrev pub guid_text : Option Guid → Bytes
guid_text none = []
guid_text (some guid) = ascii "\tGUID: " ++ write_guid guid ++ ascii "\n"

module _ (get_mapi_name_str get_mapi_type_str float_text : ℕ → Bytes) where
  -- The `switch`. A `float` is made of the number that the four bytes are.
  unfoldable pub dump_value : ℕ → MapiValue → Result Bytes
  dump_value type v =
      if type == szmapi_null
      then ok (ascii "NULL")
      else if type == szmapi_short
      then (do x ← get_bytes2 v.content; ok (write_int16 x))
      else if type == szmapi_int
      then (do x ← get_bytes4 v.content; ok (write_int32 x))
      else if type == szmapi_float
      then (do x ← get_bytes4 v.content; ok (float_text x))
      else if type == szmapi_boolean
      then (do x ← get_bytes4 v.content; ok (write_boolean (x % 2 ^ 16)))
      else if type == szmapi_string || type == szmapi_unicode_string
      then (do s ← get_string v.content; ok (write_string s))
      else if type == szmapi_systime
          || type == szmapi_currency
          || type == szmapi_int8byte
          || type == szmapi_apptime
      then (do (low, high) ← get_bytes8 v.content; ok (write_uint64 low high))
      else if type == szmapi_double
      then (do (low, high) ← get_bytes8 v.content; ok (float_text low))
      else if type == szmapi_error
      then (do x ← get_bytes4 v.content; ok (write_uint32 x))
      else if type == szmapi_clsid
      then (do guid ← get_guid v.content; ok (write_guid guid))
      else if type == szmapi_object || type == szmapi_binary
      then dump_block v.len v.content
      else ok (ascii "<unknown type>")

  unfoldable pub dump_values : ℕ → ℕ → List MapiValue → Result Bytes
  dump_values type i [] = ok []
  dump_values type i (v ∷ values) = do
    s ← dump_value type v
    text ← dump_values type (i + 1) values
    ok (
        ascii "\t#"
        ++ decimal i
        ++ ascii " [len: "
        ++ decimal v.len
        ++ ascii "] = "
        ++ s
        ++ ascii "\n"
        ++ text)

  unfoldable pub mapi_attr_dump : MapiAttr → Result Bytes
  mapi_attr_dump attr = do
    names ← dump_names 0 attr.names
    values ← dump_values attr.type 0 attr.values
    ok (
        ascii "(MAPI) "
        ++ get_mapi_name_str attr.name
        ++ ascii " [type: "
        ++ get_mapi_type_str attr.type
        ++ ascii "] [num_values = "
        ++ decimal attr.num_values
        ++ ascii "] = \n"
        ++ guid_text attr.guid
        ++ names
        ++ values)
