-- ===== src/Lib.antt =====
-- tnef reads a winmail.dat stream (TNEF, a format of Microsoft Outlook) and writes the attachments
-- and the message bodies that are in it to files. The stream is untrusted, so most of what is shown
-- here is about memory, sizes and file names.
--
-- The parts, from the bottom up, and the files of this library that model them:
-- - Env: the flags of src/options.h and the limit of src/alloc.c as a record that every function
--   takes. `malloc` is the platform's: a function that says which sizes it serves.
-- - Outcome: a function of the program returns, or the process stops by `exit`, `abort`, a failed
--   `assert`, or `fault`, an access outside of a block or through NULL. Outcome.Post has the
--   postconditions of such results.
-- - Alloc: src/alloc.c and src/xstrdup.c, `xmalloc` to `checked_xcalloc`. A pointer is the number of
--   bytes of its block; `size_t` has 64 bits, and the products and sums wrap.
-- - Heap: the addresses of the blocks that are there, and XFREE of src/alloc.h. The functions that free
--   (Mapi.Free, File.Free, Tnef.Free) work on it and see a structure by its pointers; those that
--   allocate and read do not carry it along.
-- - Util: src/util.c, the little-endian readers GETINT32 to geti8, and `unicode_to_utf8`. A buffer is
--   the list of the bytes from the pointer to the end of its block, so a read behind it is seen. A
--   stream is the list of the bytes that are still to come.
-- - Print: the numbers of the formats of `printf`. Write: src/write.c, the texts of the debug output,
--   as the characters that are written.
-- - Names: the numbers that src/mkdata.awk generates. Date: src/date.c, and the text of a date.
-- - Attr: src/attr.c, `attr_read`, its checksum, and the reads of `attr_dump`. Write.AttrDump has
--   `attr_dump` with its text; the names of attributes and types are parameters of it.
-- - Mapi: src/mapi_attr.c. Mapi.Header reads a property up to its GUID and its names, Mapi its values;
--   Mapi.Types has the types of src/mapi_attr.h. The offset `idx` is passed on from read to read.
--   Mapi.Dump has `mapi_attr_dump`, on a property that is read or partly read. Mapi.Writer writes
--   properties, for the round trip in Mapi.RoundTrip. Mapi.Free has what is freed of them.
-- - Rtf: src/rtf.c, the checksum and the decompression. Rtf.Table has its tables. The record `Machine`
--   has the variables of the loop in `decompress_rtf_data`. Rtf.Lz77 is what the loop implements: the
--   decompression with the whole past in place of the ring. An access outside of the ring leaves no
--   ring, and is a `fault` in the end.
-- - Path: src/path.c, from the names in a stream to paths, `munge_fname` above all.
-- - File: src/file.c, `file_write`, and in File.Attach what the attributes of an attachment set. The
--   record `World` has the files on disk, the lines that --list prints, and the answers of the user.
-- - Tnef: src/tnef.c. `parse_loop` is the loop of `parse_file`, over the state `Parse`; Tnef.Save has
--   the message bodies and `parse_file` itself. Tnef.Extract describes the stream of an attachment,
--   Tnef.Sent that of one with MAPI properties, Tnef.Written the file that is made of one, and
--   Tnef.RoundTrip the files that a run makes of a list of them. Tnef.Message is about the choice
--   among the bodies of a message, Tnef.Packed and Tnef.Collect about how they get out of their
--   attributes, Tnef.MessageFile about a whole message, and Main.Message about a run on one.
--   Tnef.ShortPref is about a short --body-pref, Tnef.Free about what is freed at the end.
-- - Main: src/main.c. An option is what a call of `getopt_long` returns, and `main` is run on the list
--   of them; `strtoul` is a parameter.
-- - Tests: the theorems on concrete input, and runs of the whole program.
--
-- Loops are structural where they can be. `parse_loop` has one round for each byte that is left and
-- one more, and each attribute takes 11 bytes at least; the loop of `decompress_rtf_data` has one
-- round for each byte of the source and one more, and each takes a control byte. The loop of
-- `find_free_number` has 99999 rounds, after which the program itself leaves its buffer of five
-- digits, a `fault`.
--
-- Not modelled: `getopt_long`, of which src/replace has a copy, and the other library functions there;
-- the text that is printed by --help and by `debug_print`, and the messages of errors; the calls of
-- `mapi_attr_dump` in the loop of `mapi_attr_read`. A history of all blocks of a run is not kept: what
-- is freed is stated function by function. The allocations by `strdup` are taken to succeed. A run that
-- writes to its own input file: `main` reads what the file held when it was opened. The `int`s that
-- count bytes in `unicode_to_utf8` and `decompress_rtf_data` have no bound, which is exact below 2 ^ 30
-- bytes.
pub mod Prelude
pub mod Outcome
pub mod Env
pub mod Alloc
pub mod Heap
pub mod Util
pub mod Print
pub mod Names
pub mod Date
pub mod Attr
pub mod Mapi
pub mod Write
pub mod Rtf
pub mod Path
pub mod File
pub mod Tnef
pub mod Main
pub mod Tests
