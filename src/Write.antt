-- ===== src/Write.antt =====
-- src/write.c: the texts of numbers, dates and GUIDs in the debug output.
-- A `float` is printed by the platform: its text is a parameter of the functions that need it.
pub mod Values
pub mod Triples
pub mod AttrDump
use tnef.Prelude.{ℕ, zero, suc, ◌%◌, ◌^◌, List, [], ◌∷◌, ◌++◌, ◌==◌, drop, if◌then◌else◌, ascii}
use tnef.Outcome.{Result, ok, ◌>>=◌}
use tnef.Util.{Bytes, c_string}
use tnef.Attr.{Triple}
use tnef.Print.{decimal, signed, hex, padded}
use tnef.Date.{Date, date_to_str}
use tnef.Mapi.Types.{Guid}

abbrev pub write_uint8 : ℕ → Bytes
write_uint8 b = decimal b

abbrev pub write_uint16 : ℕ → Bytes
write_uint16 s = decimal s

abbrev pub write_uint32 : ℕ → Bytes
write_uint32 l = decimal l

abbrev pub write_int8 : ℕ → Bytes
write_int8 b = signed 8 b

abbrev pub write_int16 : ℕ → Bytes
write_int16 s = signed 16 s

abbrev pub write_int32 : ℕ → Bytes
write_int32 l = signed 32 l

abbrev pub write_string : Bytes → Bytes
write_string s = b'\'' ∷ s ++ b'\'' ∷ []

abbrev pub write_byte : ℕ → Bytes
write_byte b = ascii "0x" ++ padded 2 (hex b)

abbrev pub write_word : ℕ → Bytes
write_word w = ascii "0x" ++ padded 4 (hex w)

abbrev pub write_dword : ℕ → Bytes
write_dword dw = ascii "0x" ++ padded 8 (hex dw)

unfoldable pub write_date : Date → Result Bytes
write_date dt = date_to_str dt

-- The two names are printed by `%s`, from where they start in the block of the attribute.
unfoldable pub write_triple : Bytes → Triple → Result Bytes
write_triple buf triple = do
  sender_display_name ← c_string (drop triple.sender_display_name buf)
  sender_address ← c_string (drop triple.sender_address buf)
  ok (
      ascii "{id="
      ++ write_uint16 triple.id
      ++ ascii ",chgtrp="
      ++ write_uint16 triple.chbgtrp
      ++ ascii ",cch="
      ++ write_uint16 triple.cch
      ++ ascii ",cb="
      ++ write_uint16 triple.cb
      ++ ascii "} sender_display_name='"
      ++ sender_display_name
      ++ ascii "', sender_address='"
      ++ sender_address
      ++ ascii "'")

abbrev pub write_boolean : ℕ → Bytes
write_boolean b = if b == 0 then ascii "false" else ascii "true"

abbrev pub write_uint64 : ℕ → ℕ → Bytes
write_uint64 low high = ascii "0x" ++ padded 8 (hex low) ++ ascii " 0x" ++ padded 8 (hex high)

-- The loop over `data4`.
unfoldable pub write_data4 : Bytes → Bytes
write_data4 [] = []
write_data4 (b ∷ data4) = write_byte b ++ b' ' ∷ write_data4 data4

abbrev pub write_guid : Guid → Bytes
write_guid guid =
    ascii "{ 0x"
    ++ padded 4 (hex guid.data1)
    ++ ascii " 0x"
    ++ padded 2 (hex guid.data2)
    ++ ascii " 0x"
    ++ padded 2 (hex guid.data3)
    ++ ascii " { "
    ++ write_data4 guid.data4
    ++ ascii "}"
