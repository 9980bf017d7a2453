-- ===== src/Mapi/Writer.antt =====
-- A writer of MAPI properties, against which the parser of src/mapi_attr.c is held: what stands in a
-- stream for the properties, and what is to be read of them.
use tnef.Prelude.{
  true, ℕ, ◌+◌, ◌-◌, ◌%◌, ◌^◌, ◌<◌, ◌≤◌, ◌≡◌, false, List, [], ◌∷◌, ◌++◌, Option, none, some, map,
  length, replicate, All,
}
use tnef.Util.{Bytes}
use tnef.Util.Reference.{utf16_bytes, IsUnit16}
use tnef.Util.Utf8.{utf8_all}
use tnef.Util.Words.{put16, put32}
use tnef.Names.{
  szmapi_short, szmapi_int, szmapi_float, szmapi_double, szmapi_currency, szmapi_apptime,
  szmapi_boolean, szmapi_object, szmapi_int8byte, szmapi_string, szmapi_unicode_string,
  szmapi_systime, szmapi_clsid, szmapi_binary,
}
use tnef.Mapi.Types.{
  bytes2, bytes4, bytes8, clsid, block, Guid, VarLenData, MapiValue, MapiAttr, guid_exists,
}

pub data Word : Type 0 where
  int float boolean : Word

pub data Pair : Type 0 where
  systime double currency apptime int8byte : Pair

pub data Blob : Type 0 where
  string object binary : Blob

abbrev pub word_type : Word → ℕ
word_type int = szmapi_int
word_type float = szmapi_float
word_type boolean = szmapi_boolean

abbrev pub pair_type : Pair → ℕ
pair_type systime = szmapi_systime
pair_type double = szmapi_double
pair_type currency = szmapi_currency
pair_type apptime = szmapi_apptime
pair_type int8byte = szmapi_int8byte

abbrev pub blob_type : Blob → ℕ
blob_type string = szmapi_string
blob_type object = szmapi_object
blob_type binary = szmapi_binary

-- The values: one, or several for the types that come with several.
pub data Payload : Type 0 where
  short : ℕ → Payload
  word : Word → ℕ → Payload
  pair : Pair → ℕ → ℕ → Payload
  ints : List ℕ → Payload
  times : List (ℕ × ℕ) → Payload
  blobs : Blob → List Bytes → Payload
  unicode : List (List ℕ) → Payload
  class_id : Guid → Payload

-- What stands behind the name: nothing, or a GUID with the name's number or with names in UTF-16.
pub data Tag : Type 0 where
  untagged : Tag
  numbered : Guid → ℕ → Tag
  titled : Guid → List (List ℕ) → Tag

pub record Property : Type 0 where
  pub name : ℕ
  pub tag : Tag
  pub payload : Payload

abbrev pub type_of : Payload → ℕ
type_of (short x) = szmapi_short
type_of (word k x) = word_type k
type_of (pair k low high) = pair_type k
type_of (ints xs) = szmapi_int
type_of (times ts) = szmapi_systime
type_of (blobs k bs) = blob_type k
type_of (unicode texts) = szmapi_unicode_string
type_of (class_id g) = szmapi_clsid

-- The type with the flag of multiple values.
abbrev pub type_code : Payload → ℕ
type_code (ints xs) = szmapi_int + 0x1000
type_code (times ts) = szmapi_systime + 0x1000
type_code p = type_of p

unfoldable pub concat : List Bytes → Bytes
concat [] = []
concat (s ∷ rest) = s ++ concat rest

abbrev pub put_time : ℕ × ℕ → Bytes
put_time t = put32 t.0 ++ put32 t.1

abbrev pub padding : ℕ → ℕ
padding n = (4 - n % 4) % 4

-- A length, the bytes, and zeros up to a multiple of four.
unfoldable pub put_blob : Bytes → Bytes
put_blob b = put32 (length b) ++ (b ++ replicate (padding (length b)) 0)

-- A text of 16-bit code units.
abbrev pub put_text : List ℕ → Bytes
put_text us = put_blob (utf16_bytes us)

abbrev pub put_guid : Guid → Bytes
put_guid g = put32 g.data1 ++ (put16 g.data2 ++ (put16 g.data3 ++ g.data4))

abbrev pub put_tag : Tag → Bytes
put_tag untagged = []
put_tag (numbered g real) = put_guid g ++ (put32 0 ++ put32 real)
put_tag (titled g texts) = put_guid g ++ (put32 (length texts) ++ concat (map put_text texts))

-- The number of values, where it is written.
abbrev pub put_count : Payload → Bytes
put_count (ints xs) = put32 (length xs)
put_count (times ts) = put32 (length ts)
put_count (blobs k bs) = put32 (length bs)
put_count (unicode texts) = put32 (length texts)
put_count p = []

abbrev pub put_values : Payload → Bytes
put_values (short x) = put16 x ++ put16 0
put_values (word k x) = put32 x
put_values (pair k low high) = put32 low ++ put32 high
put_values (ints xs) = concat (map put32 xs)
put_values (times ts) = concat (map put_time ts)
put_values (blobs k bs) = concat (map put_blob bs)
put_values (unicode texts) = concat (map put_text texts)
put_values (class_id g) = put_guid g

abbrev pub put_property : Property → Bytes
put_property p =
    put16 (type_code p.payload)
    ++ (put16 p.name ++ (put_tag p.tag ++ (put_count p.payload ++ put_values p.payload)))

abbrev pub put_properties : List Property → Bytes
put_properties props = put32 (length props) ++ concat (map put_property props)

abbrev pub int_value : ℕ → MapiValue
int_value x = record { len = 4; content = bytes4 x }

abbrev pub time_value : ℕ × ℕ → MapiValue
time_value t = record { len = 8; content = bytes8 t.0 t.1 }

abbrev pub blob_value : Bytes → MapiValue
blob_value b = record { len = length b; content = block (b ++ 0 ∷ []) }

-- A text comes as UTF-8, with the length that it has in the stream.
abbrev pub text_value : List ℕ → MapiValue
text_value us = record { len = length (utf16_bytes us); content = block (utf8_all us ++ 0 ∷ []) }

abbrev pub values_of : Payload → List MapiValue
values_of (short x) = record { len = 2; content = bytes2 x } ∷ []
values_of (word k x) = int_value x ∷ []
values_of (pair k low high) = time_value (low, high) ∷ []
values_of (ints xs) = map int_value xs
values_of (times ts) = map time_value ts
values_of (blobs k bs) = map blob_value bs
values_of (unicode texts) = map text_value texts
values_of (class_id g) = record { len = 16; content = clsid g } ∷ []

abbrev pub name_value : List ℕ → VarLenData
name_value us = record { len = length (utf16_bytes us); bytes = utf8_all us ++ 0 ∷ [] }

abbrev pub name_of : ℕ → Tag → ℕ
name_of name (numbered g real) = real
name_of name _ = name

abbrev pub guid_of : Tag → Option Guid
guid_of untagged = none
guid_of (numbered g real) = some g
guid_of (titled g texts) = some g

abbrev pub names_of : Tag → List VarLenData
names_of (titled g texts) = map name_value texts
names_of _ = []

abbrev pub attr_of : Property → MapiAttr
attr_of p = record {
  type = type_of p.payload;
  name = name_of p.name p.tag;
  num_values = length (values_of p.payload);
  values = values_of p.payload;
  guid = guid_of p.tag;
  names = names_of p.tag;
}

abbrev pub IsTime : ℕ × ℕ → Type 0
IsTime t = (t.0 < 2 ^ 32) × (t.1 < 2 ^ 32)

-- Not empty, and of 16-bit code units.
abbrev pub IsText : List ℕ → Type 0
IsText us = (1 ≤ length us) × All IsUnit16 us

abbrev pub IsGuid : Guid → Type 0
IsGuid g = (g.data1 < 2 ^ 32) × (g.data2 < 2 ^ 16) × (g.data3 < 2 ^ 16) × (length g.data4 ≡ 8)

-- The numbers have 32 bits, and there is at least one value.
abbrev pub HasRange : Payload → Type 0
HasRange (short x) = x < 2 ^ 16
HasRange (word k x) = x < 2 ^ 32
HasRange (pair k low high) = IsTime (low, high)
HasRange (ints xs) = (1 ≤ length xs) × All (λ x. x < 2 ^ 32) xs
HasRange (times ts) = (1 ≤ length ts) × All IsTime ts
HasRange (blobs k bs) = 1 ≤ length bs
HasRange (unicode texts) = (1 ≤ length texts) × All IsText texts
HasRange (class_id g) = IsGuid g

-- The flag in the name says whether a GUID follows.
abbrev pub IsTagged : ℕ → Tag → Type 0
IsTagged name untagged = guid_exists name ≡ false
IsTagged name (numbered g real) = (guid_exists name ≡ true) × IsGuid g × (real < 2 ^ 32)
IsTagged name (titled g texts) =
    (guid_exists name ≡ true) × IsGuid g × (1 ≤ length texts) × All IsText texts

abbrev pub IsProperty : Property → Type 0
IsProperty p = (p.name < 2 ^ 16) × IsTagged p.name p.tag × HasRange p.payload
