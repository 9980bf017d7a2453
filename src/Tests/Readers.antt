-- ===== src/Tests/Readers.antt =====
-- The readers of src/util.c, src/alloc.c and src/attr.c, and the dump of the last, on concrete input.
use tnef.Prelude.{ℕ, ◌≡◌, ◌≤◌, refl, inl, arith, none, some, ◌^◌, ◌<◌, [], ◌∷◌, ◌++◌, length, ascii}
use tnef.Outcome.{ok, halt, fault}
use tnef.Alloc.{check_mul_overflow, checked_xmalloc, checked_xcalloc}
use tnef.Alloc.Overflow.{check_mul_overflow_exact}
use tnef.Alloc.Limit.{checked_xcalloc_cases}
use tnef.Util.{Bytes, unicode_to_utf8, utf8_bytes}
use tnef.Util.Reference.{utf8_ref, decode_char, decode_chars}
use tnef.Util.Utf8.{
  unicode_to_utf8-decode, unicode_to_utf8_bounds, utf8_bytes-eq-utf8_ref, decode_char-utf8_bytes,
}
use tnef.Attr.{Attr, attr_read, attr_dump}
use tnef.Attr.Reader.{attr_bytes, attr_of, attr_read-attr_bytes}
use tnef.Attr.Dump.{attr_dump_dword}
use tnef.Write.AttrDump.{dump_each, extra_data, data_text, attr_dump_text}
use tnef.Names.{sz_short}
use tnef.Tests.{plain, plain-Serves, three_two_one}

check_mul_overflow_exact_example : check_mul_overflow 6 7 ≡ some 42
check_mul_overflow_exact_example = check_mul_overflow_exact 6 7

checked_xcalloc_cases_example : checked_xcalloc plain 6 7 1 ≡ ok (some 43)
unfolding tnef.Alloc.malloc
checked_xcalloc_cases_example = checked_xcalloc_cases plain 6 7 1 (omega arith)

utf8_bytes-eq-utf8_ref_example : utf8_bytes 0x20ac ≡ utf8_ref 0x20ac
utf8_bytes-eq-utf8_ref_example = utf8_bytes-eq-utf8_ref 0x20ac (omega arith) (omega arith) refl

decode_char-utf8_bytes_example : decode_char (utf8_bytes 0xd83d ++ []) ≡ none
decode_char-utf8_bytes_example = decode_char-utf8_bytes 0xd83d [] (omega arith)

unicode_to_utf8-decode_example :
    (s : Bytes) × (unicode_to_utf8 plain 4 (0x41 ∷ 0 ∷ 0xac ∷ 0x20 ∷ 3 ∷ 2 ∷ 1 ∷ [])
      ≡ ok (s ++ 0 ∷ []))
    × (decode_chars 2 s ≡ some (0x41 ∷ 0x20ac ∷ [], []))
unicode_to_utf8-decode_example =
    unicode_to_utf8-decode plain (0x41 ∷ 0x20ac ∷ []) three_two_one refl (omega arith)
      ((omega arith, refl), ((omega arith, refl), tt))

unicode_to_utf8_bounds_example :
    (s : Bytes) × (unicode_to_utf8 plain 3 three_two_one ≡ ok s) × (length s ≤ 5) × (5 < 2 ^ 31)
unicode_to_utf8_bounds_example =
    unicode_to_utf8_bounds plain 3 three_two_one refl (omega arith) (omega arith)

-- The attribute `attBODY` with three bytes.
abbrev body_attr : Attr
body_attr = attr_of 1 2 0x800c three_two_one

attr_read-attr_bytes_example :
    attr_read plain (attr_bytes 1 2 0x800c three_two_one 6 ++ three_two_one)
    ≡ ok (body_attr, three_two_one)
attr_read-attr_bytes_example =
    attr_read-attr_bytes plain 1 2 0x800c three_two_one three_two_one 6 (inl refl) (omega arith)
      (omega arith) (omega arith) (omega arith) (plain-Serves 35) refl

body_attr_read :
    attr_read plain (attr_bytes 1 2 0x800c three_two_one 6 ++ three_two_one)
    ≡ ok (body_attr, three_two_one)
body_attr_read =
    attr_read-attr_bytes plain 1 2 0x800c three_two_one three_two_one 6 (inl refl) (omega arith)
      (omega arith) (omega arith) (omega arith) (plain-Serves 35) refl

attr_dump_dword_example :
    attr_dump plain (record body_attr { type = 8; len = 1; buf = 1 ∷ 0 ∷ [] }) ≡ halt fault
attr_dump_dword_example =
    attr_dump_dword plain (record body_attr { type = 8; len = 1; buf = 1 ∷ 0 ∷ [] }) refl refl

-- A short with one byte behind it.
abbrev short_attr : Attr
short_attr = record body_attr { type = sz_short }

abbrev unnamed : ℕ → Bytes
unnamed n = ascii "?"

short_attr_printed :
    attr_dump_text unnamed unnamed plain short_attr
    ≡ ok (ascii "(MESS) ? [type: ?] [len: 3] = 515 [extra data: 1 ]" ++ 10 ∷ [])
unfolding attr_dump_text data_text extra_data dump_each tnef.Util.getint16 tnef.Print.number_onto
short_attr_printed = refl
