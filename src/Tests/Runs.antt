-- ===== src/Tests/Runs.antt =====
-- Runs of the whole program on a small stream.
use tnef.Prelude.{ascii, ℕ, ◌≡◌, ◌⊎◌, refl, true, false, none, some, Option, List, [], ◌∷◌}
use tnef.Outcome.{ok}
use tnef.Env.{Env}
use tnef.Util.{Bytes}
use tnef.Path.{Str}
use tnef.File.{World, find_file, str_eq}
use tnef.Tnef.Save.{parse_file}
use tnef.Tnef.Files.{parse_file_lists, parse_file_keeps}
use tnef.Tests.{plain}

-- The signature, the key, and the beginning, the title `a` and the data `xy` of an attachment.
abbrev stream : Bytes
stream =
    0x78 ∷ 0x9f ∷ 0x3e ∷ 0x22 ∷ 1 ∷ 0 ∷ 2 ∷ 0x02 ∷ 0x90 ∷ 6 ∷ 0 ∷ 0 ∷ 0 ∷ 0 ∷ 0 ∷ 0 ∷ 0 ∷ 2 ∷ 0x10
    ∷ 0x80 ∷ 1 ∷ 0 ∷ 2 ∷ 0 ∷ 0 ∷ 0 ∷ b'a' ∷ 0 ∷ 97 ∷ 0 ∷ 2 ∷ 0x0f ∷ 0x80 ∷ 6 ∷ 0 ∷ 2 ∷ 0 ∷ 0 ∷ 0
    ∷ b'x' ∷ b'y' ∷ 241 ∷ 0 ∷ []

abbrev other : Str × Bytes
other = (b'b' ∷ [], b'z' ∷ [])

abbrev world : World
world = record { files = other ∷ []; answers = []; listed = []; can_create = λ p. true }

-- With --list.
abbrev listing : Env
listing = record plain { g_flags = 4 }

abbrev written : World
written = record world { files = (b'a' ∷ [], b'x' ∷ b'y' ∷ []) ∷ other ∷ [] }

abbrev told : World
told = record world { listed = ascii "a\t|\ta\n" ∷ [] }

extracted : parse_file plain false stream none [] [] world ≡ ok (some (0, written))
unfolding tnef.Alloc.xstrdup tnef.Alloc.check_mul_overflow tnef.Alloc.malloc
    tnef.Alloc.alloc_limit_assert tnef.Alloc.checked_product tnef.Alloc.null_check
    tnef.Alloc.xmalloc tnef.Alloc.checked_xmalloc tnef.Alloc.xcalloc tnef.Alloc.or_abort
    tnef.Alloc.checked_xcalloc tnef.Alloc.access tnef.Util.getint32 tnef.Util.getint16
    tnef.Util.getint8 tnef.Util.getbuf tnef.Util.geti32 tnef.Util.geti16 tnef.Util.geti8
    tnef.Attr.checksum_loop tnef.Attr.check_checksum tnef.Attr.verify tnef.Attr.attr_read
    tnef.File.str_eq tnef.File.find_file tnef.File.confirm_action tnef.File.safe_path
    tnef.File.choose_path tnef.File.put_file tnef.File.list_file tnef.File.extract
    tnef.File.file_write tnef.Util.c_string tnef.File.Attach.file_add_attr tnef.Tnef.data_left
    tnef.Tnef.read_object tnef.Tnef.begin_file tnef.Tnef.add_attr tnef.Tnef.begin_attr
    tnef.Tnef.parse_loop tnef.Tnef.write_last tnef.Tnef.Save.save_bodies tnef.Tnef.Save.finish
    tnef.Tnef.Save.parse_file tnef.Path.contains tnef.Path.strip_slashes tnef.Path.concat_raw
    tnef.Path.concat_fname tnef.Path.must_escape tnef.Path.sanitize_char tnef.Path.sanitize_filename
    tnef.Path.munge_parts tnef.Path.munge_fname tnef.Mapi.Header.read_bytes
extracted = refl

listed : parse_file listing false stream none [] [] world ≡ ok (some (0, told))
unfolding tnef.Alloc.xstrdup tnef.Alloc.check_mul_overflow tnef.Alloc.malloc
    tnef.Alloc.alloc_limit_assert tnef.Alloc.checked_product tnef.Alloc.null_check
    tnef.Alloc.xmalloc tnef.Alloc.checked_xmalloc tnef.Alloc.xcalloc tnef.Alloc.or_abort
    tnef.Alloc.checked_xcalloc tnef.Alloc.access tnef.Util.getint32 tnef.Util.getint16
    tnef.Util.getint8 tnef.Util.getbuf tnef.Util.geti32 tnef.Util.geti16 tnef.Util.geti8
    tnef.Attr.checksum_loop tnef.Attr.check_checksum tnef.Attr.verify tnef.Attr.attr_read
    tnef.File.str_eq tnef.File.find_file tnef.File.confirm_action tnef.File.safe_path
    tnef.File.choose_path tnef.File.put_file tnef.File.show_mime tnef.File.show_names
    tnef.File.list_file tnef.File.extract tnef.File.file_write tnef.Util.c_string
    tnef.File.Attach.file_add_attr tnef.Tnef.data_left tnef.Tnef.read_object tnef.Tnef.begin_file
    tnef.Tnef.add_attr tnef.Tnef.begin_attr tnef.Tnef.parse_loop tnef.Tnef.write_last
    tnef.Tnef.Save.save_bodies tnef.Tnef.Save.finish tnef.Tnef.Save.parse_file tnef.Path.contains
    tnef.Path.strip_slashes tnef.Path.concat_raw tnef.Path.concat_fname tnef.Path.must_escape
    tnef.Path.sanitize_char tnef.Path.sanitize_filename tnef.Path.munge_parts tnef.Path.munge_fname
    tnef.Mapi.Header.read_bytes
listed = refl

found_other :
    (files : List (Str × Bytes)) → find_file (b'b' ∷ []) (other ∷ files) ≡ some (b'z' ∷ [])
unfolding find_file str_eq
found_other files = refl

parse_file_keeps_example :
    (n : ℕ) × (w' : World) × (◌≡◌ {A = Option (ℕ × World)} (some (0, written)) (some (n, w')))
    × ((n ≡ 0) ⊎ (n ≡ 1))
    × (find_file (b'b' ∷ []) w'.files ≡ some (b'z' ∷ []))
parse_file_keeps_example =
    parse_file_keeps plain false stream none [] [] world (b'b' ∷ []) (b'z' ∷ []) refl extracted
      (found_other [])

parse_file_lists_example :
    (n : ℕ) × (w' : World) × (◌≡◌ {A = Option (ℕ × World)} (some (0, told)) (some (n, w')))
    × ((n ≡ 0) ⊎ (n ≡ 1))
    × (w'.files ≡ world.files)
parse_file_lists_example = parse_file_lists listing false stream none [] [] world refl listed
