-- ===== src/File.antt =====
-- src/file.c: a file, and how it is written out. Attach has what attributes set in it.
-- The world outside is what the functions read and change of it: the files with their bytes, the
-- answers still to come on standard input, the lines on standard output, the last one first, and the paths at
-- which `fopen` succeeds.
pub mod Disk
pub mod Numbers
pub mod Attach
pub mod Free
use tnef.Prelude.{
  ascii, drop, length, ℕ, zero, suc, ◌+◌, ◌/◌, ◌%◌, ◌^◌, Bool, true, false, not, ◌||◌, ◌&&◌, List,
  [], ◌∷◌, ◌++◌, Option, none, some, get_or, take, replicate, ltb, ◌==◌, if◌then◌else◌,
}
use tnef.Outcome.{Result, ok, halt, fault, exit, assert, stop_if, ◌>>=◌, ◌>>◌}
use tnef.Env.{Env, flag_on, list, verbose, confirm, overwrite, numbered, listmime}
use tnef.Alloc.{checked_xmalloc, access}
use tnef.Util.{Bytes, c_string}
use tnef.Print.{number_onto, decimal, spaced}
use tnef.Alloc.{checked_xmalloc, access}
use tnef.Date.{Date, date_to_str}
use tnef.Attr.{Attr, copy_date_from_attr}
use tnef.Names.{
  att_attachmodifydate, att_attachment, att_attachtitle, att_attachdata, mapi_attach_long_filename,
  mapi_attach_data_obj, mapi_attach_mime_tag, mapi_attach_content_id, szmapi_string,
  szmapi_unicode_string, szmapi_binary, szmapi_object,
}
use tnef.Mapi.Types.{MapiValue, MapiAttr, Content, block}
use tnef.Mapi.Header.{read_bytes}
use tnef.Mapi.{mapi_attr_read, blank}
use tnef.Path.{Str, concat_fname, munge_fname}

pub record File : Type 0 where
  pub name : Option Str
  pub path : Option Str
  pub len : ℕ
  pub bytes : Option Bytes
  pub dt : Date
  pub mime_type : Option Bytes
  pub content_id : Option Bytes

-- `CHECKED_XCALLOC (File, 1)`, and what `file_free` leaves.
abbrev pub cleared_file : File
cleared_file = record {
  name = none;
  path = none;
  len = 0;
  bytes = none;
  dt = record { year = 0; month = 0; day = 0; hour = 0; min = 0; sec = 0; dow = 0 };
  mime_type = none;
  content_id = none;
}

pub record World : Type 0 where
  pub files : List (Str × Bytes)
  pub answers : List Bool
  pub listed : List Str
  pub can_create : Str → Bool

unfoldable pub str_eq : Str → Str → Bool
str_eq [] [] = true
str_eq (a ∷ s) (b ∷ t) = a == b && str_eq s t
str_eq _ _ = false

unfoldable pub find_file : Str → List (Str × Bytes) → Option Bytes
find_file p [] = none
find_file p ((q, bytes) ∷ files) = if str_eq q p then some bytes else find_file p files

abbrev pub is_some {ℓ} : {A : Type ℓ} → Option A → Bool
is_some none = false
is_some (some a) = true

-- `file_exists` of src/path.c.
abbrev pub file_exists : World → Str → Bool
file_exists w p = is_some (find_file p w.files)

-- `sprintf (tmp, "%s.%d", fname, counter)`
unfoldable pub numbered_name : Str → ℕ → Str
numbered_name fname counter = fname ++ b'.' ∷ number_onto 10 5 counter []

-- The loop of `find_free_number`, from `counter` on. The buffer has room for five digits, so the
-- 100000th round writes behind it; `rounds` counts down to that.
unfoldable pub find_free : ℕ → World → Str → ℕ → Result Str
find_free zero w fname counter = halt fault
find_free (suc rounds) w fname counter = elim (file_exists w (numbered_name fname counter)) [
  | true ↦ find_free rounds w fname (counter + 1)
  | false ↦ ok (numbered_name fname counter)
]

unfoldable pub find_free_number : Env → World → Str → Result Str
find_free_number env w fname = do
  tmp ← checked_xmalloc env (length fname + 7) 1 0
  access tmp
  find_free 99999 w fname 1

abbrev pub tnef_default_filename : Str
tnef_default_filename = b't' ∷ b'n' ∷ b'e' ∷ b'f' ∷ b'-' ∷ b't' ∷ b'm' ∷ b'p' ∷ []

abbrev pub or_default : Option Str → Str
or_default none = tnef_default_filename
or_default (some s) = s

-- One line of the input answers. No line left counts as no, where the source tests a buffer that
-- nothing was read into.
abbrev pub ask : World → List Bool → Bool × World
ask w [] = (false, w)
ask w (a ∷ answers) = (a, record w { answers = answers })

unfoldable pub confirm_action : Env → World → Bool × World
confirm_action env w = if flag_on env confirm then ask w w.answers else (true, w)

-- `file->path` once it is set.
unfoldable pub safe_path : Env → Str → Option Str → Result Str
safe_path env name (some path) = ok path
safe_path env name none = do path ← munge_fname env (some name); ok (or_default path)

-- Where the file goes: `none` where the function returns without writing.
unfoldable pub choose_path : Env → World → Str → Result (Option Str)
choose_path env w path =
    if not (flag_on env overwrite) && file_exists w path
    then (if flag_on env numbered
        then (do free ← find_free_number env w path; ok (some free))
        else ok none)
    else ok (some path)

abbrev pub contents : Option Bytes → Bytes
contents none = []
contents (some bytes) = bytes

-- `fopen`, `fwrite` and `fclose`.
unfoldable pub put_file : World → Str → Bytes → Result World
put_file w path bytes =
    if w.can_create path then ok (record w { files = (path, bytes) ∷ w.files }) else halt (exit 1)

-- A string that is printed, or a constant where it is NULL.
unfoldable pub print_string : Str → Option Bytes → Result Str
print_string default none = ok default
print_string default (some bytes) = c_string bytes

abbrev pub separator : Str
separator = ascii "\t|\t"

-- With --verbose, which sets LISTMIME too, the MIME type and the content id are printed.
unfoldable pub show_mime : Env → File → Result Str
show_mime env file =
    if flag_on env listmime
    then (do
      mime_type ← print_string (ascii "unknown") file.mime_type
      content_id ← print_string [] file.content_id
      ok (separator ++ mime_type ++ separator ++ content_id))
    else ok []

-- With --list and --verbose, the length and the date, without the day of the week, are printed too.
unfoldable pub show_names : Env → File → Str → Str → Result Str
show_names env file name path =
    if flag_on env list && flag_on env verbose
    then (do
      date_str ← date_to_str file.dt
      ok (
          spaced 11 (decimal file.len)
          ++ separator
          ++ drop 4 date_str
          ++ separator
          ++ name
          ++ separator
          ++ path))
    else ok (name ++ separator ++ path)

-- The line for --list and --verbose.
unfoldable pub list_file : Env → World → File → Str → Str → Result World
list_file env w file name path =
    if flag_on env list || flag_on env verbose
    then (do
      names ← show_names env file name path
      mime ← show_mime env file
      ok (record w { listed = (names ++ mime ++ ascii "\n") ∷ w.listed }))
    else ok w

unfoldable pub extract : Env → World → File → Str → Str → Result World
extract env w file name path = do
  target ← choose_path env w path
  elim target [
    | none ↦ ok w
    | some p ↦ do w' ← put_file w p (contents file.bytes); list_file env w' file name p
  ]

-- `file_write` on a file that is not NULL.
unfoldable pub file_write : Env → World → File → Option Str → Result World
file_write env w file directory = do
  let name : Str = or_default file.name
  path ← safe_path env name file.path
  joined ← concat_fname env directory (some path)
  let target : Str = or_default joined
  if flag_on env list
      then list_file env w file name target
      else (let (confirmed, w') = confirm_action env w in
          if confirmed then extract env w' file name target else ok w')
