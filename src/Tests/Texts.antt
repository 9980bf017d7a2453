-- ===== src/Tests/Texts.antt =====
-- Numbers, dates, decompression and debug output on concrete input.
use tnef.Prelude.{ℕ, ◌≡◌, ◌≤◌, ◌<◌, refl, arith, true, false, none, some, [], ◌∷◌, ◌++◌, ascii, All}
use tnef.Outcome.{ok, halt, fault}
use tnef.Util.{Bytes, IsByte}
use tnef.Names.{sz_triples}
use tnef.Attr.{Attr, Triple, copy_triple_from_attr}
use tnef.Write.{write_triple}
use tnef.Write.Triples.{write_triple_ends}
use tnef.Date.{Date, date_to_str}
use tnef.Date.Columns.{date_to_str_columns}
use tnef.Print.Numbers.{Field}
use tnef.File.{World, file_exists, numbered_name, find_free_number}
use tnef.File.Numbers.{find_free_number_first}
use tnef.Rtf.{decompress}
use tnef.Rtf.Table.{rtf_prebuf}
use tnef.Rtf.Lz77.{lz77, onto}
use tnef.Rtf.Refine.{decompress-lz77}
use tnef.Mapi.Types.{MapiAttr, bytes4, block}
use tnef.Mapi.{mapi_attr_read, blank}
use tnef.Mapi.Dump.{mapi_attr_dump}
use tnef.Mapi.Shape.{mapi_attr_dump_null}
use tnef.Mapi.Printed.{HasValues, mapi_attr_read-dumps, mapi_attr_read-Full}
use tnef.Tests.{plain, plain-Serves}

abbrev new_year : Date
new_year = record { year = 2024; month = 1; day = 1; hour = 9; min = 30; sec = 5; dow = 1 }

date_to_str_columns_example :
    (year month day hour min sec : Bytes) × (date_to_str new_year
      ≡ ok (
          ascii "Mon"
          ++ b' ' ∷ year
          ++ b'/' ∷ month
          ++ b'/' ∷ day
          ++ b' ' ∷ hour
          ++ b':' ∷ min
          ++ b':' ∷ sec))
    × Field 4 2024 year
    × Field 2 1 month
    × Field 2 1 day
    × Field 2 9 hour
    × Field 2 30 min
    × Field 2 5 sec
date_to_str_columns_example =
    date_to_str_columns new_year (omega arith) (omega arith) (omega arith) (omega arith)
      (omega arith) (omega arith) (omega arith)

printed : date_to_str new_year ≡ ok (ascii "Mon 2024/01/01 09:30:05")
unfolding date_to_str tnef.Date.dow_str tnef.Date.dow_str_assert tnef.Print.number_onto
printed = refl

-- One numbered backup is there.
abbrev backed_up : World
backed_up = record {
  files = (ascii "b.1", []) ∷ (ascii "b", []) ∷ [];
  answers = [];
  listed = [];
  can_create = λ p. true;
}

free_two : file_exists backed_up (numbered_name (ascii "b") 2) ≡ false
unfolding numbered_name tnef.Print.number_onto tnef.File.find_file tnef.File.str_eq
free_two = refl

find_free_number_first_example :
    (m : ℕ) × (find_free_number plain backed_up (ascii "b") ≡ ok (numbered_name (ascii "b") m))
    × (m ≤ 2)
    × (1 ≤ m)
    × (file_exists backed_up (numbered_name (ascii "b") m) ≡ false)
    × ((j : ℕ) → 1 ≤ j → j < m → file_exists backed_up (numbered_name (ascii "b") j) ≡ true)
find_free_number_first_example =
    find_free_number_first backed_up (ascii "b") plain 2 (plain-Serves 8) (omega arith)
      (omega arith) (omega arith) free_two

-- A run of three characters of the preset text, a literal, and a run of the output itself.
abbrev packed : Bytes
packed = 0x05 ∷ 0 ∷ 0x01 ∷ b'!' ∷ 0x0c ∷ 0xf2 ∷ []

packed_bytes : All IsByte packed
packed_bytes =
    (omega arith, (omega arith, (omega arith, (omega arith, (omega arith, (omega arith, tt))))))

decompress-lz77_example :
    ((lz77 packed 8).past ≡ onto (decompress packed 8).dest (onto rtf_prebuf []))
    × ((decompress packed 8).endflag ≡ (lz77 packed 8).endflag)
decompress-lz77_example = decompress-lz77 packed 8 packed_bytes

-- One property, the number 7.
abbrev one_property : Bytes
one_property = 1 ∷ 0 ∷ 0 ∷ 0 ∷ 3 ∷ 0 ∷ 0x17 ∷ 0 ∷ 7 ∷ 0 ∷ 0 ∷ 0 ∷ []

abbrev number : MapiAttr
number = record {
  type = 3;
  name = 0x17;
  num_values = 1;
  values = record { len = 4; content = bytes4 7 } ∷ [];
  guid = none;
  names = [];
}

number_read : mapi_attr_read plain 12 one_property ≡ ok (some (number ∷ []))
unfolding mapi_attr_read tnef.Mapi.read_properties tnef.Mapi.read_property tnef.Mapi.read_values
    tnef.Mapi.read_value tnef.Mapi.read_count tnef.Mapi.alloc_mapi_values
    tnef.Mapi.Header.read_header tnef.Mapi.Header.next32 tnef.Mapi.Header.next16
    tnef.Util.checkint32 tnef.Util.checkint16 tnef.Util.getint32 tnef.Util.getint16
    tnef.Alloc.check_mul_overflow tnef.Alloc.malloc tnef.Alloc.alloc_limit_assert
    tnef.Alloc.checked_product tnef.Alloc.null_check tnef.Alloc.xmalloc tnef.Alloc.checked_xmalloc
    tnef.Alloc.xcalloc tnef.Alloc.or_abort tnef.Alloc.checked_xcalloc tnef.Alloc.access
number_read = refl

abbrev unnamed : ℕ → Bytes
unnamed n = []

mapi_attr_read-dumps_example :
    All
      (λ attr. (text : Bytes) × (mapi_attr_dump unnamed unnamed unnamed attr ≡ ok text))
      (number ∷ [])
mapi_attr_read-dumps_example =
    mapi_attr_read-dumps unnamed unnamed unnamed plain 12 one_property (number ∷ []) number_read

-- The first of two strings has been read.
abbrev half_read : MapiAttr
half_read = record {
  type = 30;
  name = 0x1a;
  num_values = 2;
  values = record { len = 1; content = block (b'a' ∷ 0 ∷ []) } ∷ blank ∷ [];
  guid = none;
  names = [];
}

mapi_attr_dump_null_example : mapi_attr_dump unnamed unnamed unnamed half_read ≡ halt fault
mapi_attr_dump_null_example =
    mapi_attr_dump_null unnamed unnamed unnamed half_read
      (record { len = 1; content = block (b'a' ∷ 0 ∷ []) } ∷ []) [] refl refl
      ((refl, (b'a' ∷ [], refl), λ other. omega arith), tt) tt

-- A triple with the names `A` and `b`.
abbrev triple_data : Bytes
triple_data = 4 ∷ 0 ∷ 12 ∷ 0 ∷ 2 ∷ 0 ∷ 2 ∷ 0 ∷ b'A' ∷ 0 ∷ b'b' ∷ 0 ∷ []

abbrev triple_attr : Attr
triple_attr = record {
  lvl_type = 1;
  type = sz_triples;
  name = 0x8000;
  len = 12;
  buf = triple_data ++ 0 ∷ [];
}

abbrev from : Triple
from = record {
  id = 4;
  chbgtrp = 12;
  cch = 2;
  cb = 2;
  sender_display_name = 8;
  sender_address = 10;
}

from_copied : copy_triple_from_attr triple_attr ≡ ok from
unfolding copy_triple_from_attr tnef.Util.getint16
from_copied = refl

write_triple_ends_example : (text : Bytes) × (write_triple (triple_data ++ 0 ∷ []) from ≡ ok text)
write_triple_ends_example = write_triple_ends triple_attr triple_data from refl refl from_copied

mapi_attr_read-Full_example : All HasValues (number ∷ [])
mapi_attr_read-Full_example = mapi_attr_read-Full plain 12 one_property (number ∷ []) number_read
