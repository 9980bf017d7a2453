-- ===== src/Tests/Formats.antt =====
-- The properties of src/mapi_attr.c and the RTF streams of src/rtf.c on concrete input.
use tnef.Prelude.{◌≡◌, ◌≢◌, ◌≤◌, ◌-◌, replicate, refl, arith, some, [], ◌∷◌, ◌++◌, length, drop}
use tnef.Outcome.{ok, halt, fault}
use tnef.Util.{
  Bytes, getint16, getint32, checkint16, checkint32, unicode_to_utf8, utf8_loop, utf8_bytes,
}
use tnef.Alloc.{
  malloc, checked_xmalloc, checked_xcalloc, xmalloc, xcalloc, check_mul_overflow, checked_product,
  null_check, alloc_limit_assert, or_abort, access,
}
use tnef.Util.Words.{put16, put32}
use tnef.Mapi.{read_property}
use tnef.Mapi.Header.{
  copy_guid_from_buf, size_left, Naming, read_header, read_header_names, read_names, read_name,
  read_bytes, pad_to_4byte, next16, next32,
}
use tnef.Mapi.Overrun.{read_property_outside, copy_guid_outside}
use tnef.Rtf.{generate_crc, decompress, decompress_rtf_data, get_rtf_data_from_buf, running}
use tnef.Rtf.Table.{rtf_uncompressed_magic, rtf_prebuf}
use tnef.Rtf.Window.{Fits, decompress-Fits, decompress_rtf_data-lz77}
use tnef.Rtf.Lz77.{lz77, onto}
use tnef.Rtf.Stream.{rtf_stream, uncompressed_rtf}
use tnef.Rtf.Crc.{crc_ref, generate_crc-crc_ref}
use tnef.Tests.{plain, plain-Serves, three_two_one}

-- One property of type PT_LONG.
abbrev one_long : Bytes
one_long = put32 1 ++ (put16 3 ++ (put16 0x3701 ++ put32 7))

-- A CLSID property with a GUID and one name of two bytes at the end of the 30 bytes, and the 0 that
-- `attr_read` puts behind them.
abbrev named : Bytes
named =
    0x48 ∷ 0 ∷ 0 ∷ 0x80 ∷ 0 ∷ 0 ∷ 0 ∷ 0 ∷ 0 ∷ 0 ∷ 0 ∷ 0 ∷ 0 ∷ 0 ∷ 0 ∷ 0 ∷ 0 ∷ 0 ∷ 0 ∷ 0 ∷ 1 ∷ 0 ∷ 0
    ∷ 0 ∷ 2 ∷ 0 ∷ 0 ∷ 0 ∷ 0x61 ∷ 0 ∷ 0 ∷ []

copy_guid_outside_example : copy_guid_from_buf (drop 32 named) (size_left 30 32) ≡ halt fault
copy_guid_outside_example =
    copy_guid_outside named 30 32 (omega arith) (omega arith) refl (omega arith)

abbrev naming : Naming
naming = record {
  name = 0x8000;
  guid =
      some (record { data1 = 0; data2 = 0; data3 = 0; data4 = 0 ∷ 0 ∷ 0 ∷ 0 ∷ 0 ∷ 0 ∷ 0 ∷ 0 ∷ [] });
  names = record { len = 2; bytes = 0x61 ∷ 0 ∷ [] } ∷ [];
  idx = 32;
}

type_read : next16 named 30 0 ≡ ok 0x48
unfolding next16 checkint16 getint16
type_read = refl

name_read : next16 named 30 2 ≡ ok 0x8000
unfolding next16 checkint16 getint16
name_read = refl

header_read : read_header plain named 30 0x8000 4 ≡ ok naming
unfolding read_header read_header_names read_names read_name read_bytes next16 next32 checkint16
    checkint32 getint16 getint32 copy_guid_from_buf pad_to_4byte checked_xmalloc checked_xcalloc
    xmalloc xcalloc malloc check_mul_overflow checked_product null_check alloc_limit_assert or_abort
    access unicode_to_utf8 utf8_loop utf8_bytes
header_read = refl

read_property_outside_example : read_property plain named 30 0 ≡ halt fault
read_property_outside_example =
    read_property_outside plain named 30 0 0x8000 (plain-Serves 48) refl (omega arith) type_read
      name_read naming header_read (omega arith) (omega arith)

generate_crc-crc_ref_example : generate_crc three_two_one ≡ crc_ref 0 three_two_one
generate_crc-crc_ref_example = generate_crc-crc_ref three_two_one

decompress-Fits_example :
    Fits 4 (decompress three_two_one 4) × ((decompress three_two_one 4).endflag ≢ running)
decompress-Fits_example =
    decompress-Fits three_two_one 4 (omega arith, (omega arith, (omega arith, tt))) (omega arith)
      (omega arith)

decompress_rtf_data-lz77_example :
    (out : Bytes) × (decompress_rtf_data plain three_two_one 4
      ≡ ok (out ++ replicate (4 - length out) 0))
    × (length out ≤ 4)
    × ((lz77 three_two_one 4).past ≡ onto out (onto rtf_prebuf []))
    × ((lz77 three_two_one 4).endflag ≢ running)
decompress_rtf_data-lz77_example =
    decompress_rtf_data-lz77 plain three_two_one 4 (plain-Serves 4) (omega arith) (omega arith)
      (omega arith) (omega arith) (omega arith, (omega arith, (omega arith, tt)))

uncompressed_rtf_example :
    get_rtf_data_from_buf plain 19 (rtf_stream 3 rtf_uncompressed_magic 0 three_two_one)
    ≡ ok (record { len = 3; bytes = some (3 ∷ 0 ∷ 0 ∷ []) })
unfolding put32
uncompressed_rtf_example =
    uncompressed_rtf plain 3 0 three_two_one (plain-Serves 3) (omega arith) (omega arith)
      (omega arith) (omega arith)
