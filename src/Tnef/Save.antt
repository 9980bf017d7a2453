-- ===== src/Tnef/Save.antt =====
-- The end of src/tnef.c: the message bodies are written out, and `parse_file` itself.
use tnef.Prelude.{
  ℕ, zero, suc, ◌+◌, Bool, true, false, not, List, [], ◌∷◌, ◌++◌, Option, none, some, length, ◌==◌,
  if◌then◌else◌,
}
use tnef.Outcome.{Result, ok, halt, fault, ◌>>=◌, ◌>>◌}
use tnef.Env.{Env, flag_on, savebody}
use tnef.Alloc.{checked_xcalloc, checked_xmalloc, xcalloc, access}
use tnef.Util.{Bytes, geti32, geti16}
use tnef.Mapi.Header.{read_bytes}
use tnef.Path.{Str}
use tnef.File.{File, World, cleared_file, file_write, str_eq, contents}
use tnef.Tnef.{
  Bodies, MessageBody, Loop, finished, returned, out_of_rounds, parse_loop, write_last,
  tnef_signature, sizeof_file,
}

-- A body's array, the extension and the MIME type; NULL for another letter.
abbrev pub Kind : Type 0
Kind = Option Bodies × Str × Str

abbrev pub ext_rtf : Str
ext_rtf = b'.' ∷ b'r' ∷ b't' ∷ b'f' ∷ []

abbrev pub ext_html : Str
ext_html = b'.' ∷ b'h' ∷ b't' ∷ b'm' ∷ b'l' ∷ []

abbrev pub ext_txt : Str
ext_txt = b'.' ∷ b't' ∷ b'x' ∷ b't' ∷ []

abbrev pub text_slash : Str → Str
text_slash kind = b't' ∷ b'e' ∷ b'x' ∷ b't' ∷ b'/' ∷ kind

unfoldable pub body_kind : ℕ → MessageBody → Kind
body_kind pref body =
    if pref == b'r'
    then (body.rtf_bodies, ext_rtf, text_slash (b'r' ∷ b't' ∷ b'f' ∷ []))
    else if pref == b'h'
    then (body.html_bodies, ext_html, text_slash (b'h' ∷ b't' ∷ b'm' ∷ b'l' ∷ []))
    else if pref == b't'
    then (body.text_body, ext_txt, text_slash (b'p' ∷ b'l' ∷ b'a' ∷ b'i' ∷ b'n' ∷ []))
    else (none, [], [])

-- The files for the entries up to the first NULL.
unfoldable pub body_files : Env → Str → Str → Bodies → Result (List File)
body_files env name mime [] = ok []
body_files env name mime (none ∷ bodies) = ok []
body_files env name mime (some entry ∷ bodies) = do
  p ← xcalloc env 1 sizeof_file 0
  access p
  q ← checked_xmalloc env entry.len 1 0
  bytes ← read_bytes entry.len (contents entry.bytes)
  files ← body_files env name mime bodies
  ok (
      record cleared_file {
        name = some name;
        mime_type = some (mime ++ 0 ∷ []);
        len = entry.len;
        bytes = some bytes;
      }
      ∷ files)

-- The entries before the first NULL.
abbrev pub entries : Bodies → ℕ
entries [] = 0
entries (none ∷ bodies) = 0
entries (some entry ∷ bodies) = suc (entries bodies)

-- An array without entries is NULL where `malloc` fails; that is an access here, too.
abbrev pub some_files : Env → Str → Kind → Result (Option (List File))
some_files env filename (none, _, _) = ok none
some_files env filename (some bodies, ext, type) = do
  p ← checked_xcalloc env (length filename + length ext + 1) 1 0
  access p
  q ← checked_xcalloc env (length type + 1) 1 0
  access q
  r ← xcalloc env (entries bodies + 2) 8 0
  access r
  files ← body_files env (filename ++ ext) type bodies
  ok (some files)

unfoldable pub get_body_files : Env → Str → ℕ → MessageBody → Result (Option (List File))
get_body_files env filename pref body = some_files env filename (body_kind pref body)

-- The files of one array share the blocks of their name and MIME type, and `file_free` frees them
-- with the first file: writing a second one reads freed memory.
unfoldable pub write_body_files : Env → Option Str → World → List File → Result World
write_body_files env directory w [] = ok w
write_body_files env directory w (f ∷ []) = file_write env w f directory
write_body_files env directory w (f ∷ g ∷ files) = do w' ← file_write env w f directory; halt fault

abbrev pub write_unless_null :
    Env → Option Str → World → Option (List File) → (World → Result World) → Bool → Result World
write_unless_null env directory w none go_on all = go_on w
write_unless_null env directory w (some files) go_on all = do
  w' ← write_body_files env directory w files
  if all then go_on w' else ok w'

-- The loop over `i`, with `n` letters left to look at. `pref` is `body_pref + i` with the string's
-- terminating 0; behind that nothing can be read.
unfoldable pub write_bodies :
    Env → Option Str → Str → MessageBody → Bool → ℕ → Str → World → Result World
write_bodies env directory filename body all zero pref w = ok w
write_bodies env directory filename body all (suc n) [] w = halt fault
write_bodies env directory filename body all (suc n) (p ∷ pref) w = do
  files ← get_body_files env filename p body
  write_unless_null env directory w files (write_bodies env directory filename body all n pref) all

abbrev pub all_pref : Str
all_pref = b'a' ∷ b'l' ∷ b'l' ∷ []

abbrev pub every_body : Str
every_body = b'r' ∷ b'h' ∷ b't' ∷ []

unfoldable pub save_bodies : Env → Option Str → Str → Str → MessageBody → World → Result World
save_bodies env directory filename pref body w =
    if flag_on env savebody
    then (if str_eq pref all_pref
        then write_bodies env directory filename body true 3 (every_body ++ 0 ∷ []) w
        else write_bodies env directory filename body false 3 (pref ++ 0 ∷ []) w)
    else ok w

abbrev pub no_body : MessageBody
no_body = record { text_body = none; html_bodies = none; rtf_bodies = none }

-- What follows the loop. `none` for the rounds is no outcome of the program.
unfoldable pub finish : Env → Option Str → Str → Str → Loop → Result (Option (ℕ × World))
finish env directory filename pref (finished s) = do
  w ← write_last env directory s
  w' ← save_bodies env directory filename pref s.body w
  ok (some (0, w'))
finish env directory filename pref (returned n w) = ok (some (n, w))
finish env directory filename pref out_of_rounds = ok none

-- The value that `parse_file` returns and the world behind it. Every attribute takes 11 bytes at
-- least, so one round for each byte, and one more, are enough.
unfoldable pub parse_file :
    Env → Bool → Bytes → Option Str → Str → Str → World → Result (Option (ℕ × World))
parse_file env from_stdin input directory filename pref w = do
  (d, input1) ← geti32 input
  if not (d == tnef_signature) then ok (some (1, w)) else (do
    (key, input2) ← geti16 input1
    r ←
        parse_loop (suc (length input2)) env from_stdin directory input2
          (record { file = none; body = no_body; world = w })
    finish env directory filename pref r)
