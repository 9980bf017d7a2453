-- ===== src/Path.antt =====
-- src/path.c: from the names in a stream to names in the file system.
-- A C string is the list of its characters without the terminating 0, and `none` is NULL. A `char`
-- is its byte, so it is a control character of the C locale below 32 and at 127, and ASCII below
-- 128. (`strdup` is taken to succeed, and an `int` to hold the length of a name.)
pub mod Concat
pub mod Sanitize
pub mod Munge
use tnef.Prelude.{
  ℕ, zero, suc, ◌+◌, ◌/◌, ◌%◌, ◌^◌, Bool, true, false, not, ◌||◌, ◌&&◌, List, [], ◌∷◌, ◌++◌, Option,
  none, some, map, length, ◌*◌, get_or, ltb, leb, ◌==◌, if◌then◌else◌,
}
use tnef.Outcome.{Result, ok, ◌>>=◌, ◌>>◌}
use tnef.Alloc.{xstrdup, checked_xmalloc, checked_xcalloc, access}
use tnef.Env.{Env, flag_on, paths, unix_paths, absolute_paths}

abbrev pub Str : Type 0
Str = List ℕ

abbrev pub slash : ℕ
slash = b'/'

abbrev pub backslash : ℕ
backslash = b'\\'

-- `index (s, c) != NULL`, for a character that is not 0.
unfoldable pub contains : ℕ → Str → Bool
contains c [] = false
contains c (x ∷ s) = c == x || contains c s

abbrev pub is_empty : Str → Bool
is_empty [] = true
is_empty (c ∷ s) = false

-- The last character is '/'.
unfoldable pub ends_in_slash : Str → Bool
ends_in_slash [] = false
ends_in_slash (c ∷ []) = c == slash
ends_in_slash (c ∷ d ∷ s) = ends_in_slash (d ∷ s)

unfoldable pub starts_with_slash : Str → Bool
starts_with_slash [] = false
starts_with_slash (c ∷ s) = c == slash

abbrev pub strip_first : ℕ → Str → Str
strip_first c [] = if c == slash then [] else c ∷ []
strip_first c (d ∷ s) = c ∷ d ∷ s

-- The loop at the end of `concat_fname`: all '/' at the end go.
unfoldable pub strip_slashes : Str → Str
strip_slashes [] = []
strip_slashes (c ∷ s) = strip_first c (strip_slashes s)

abbrev pub null_if_empty : Str → Option Str
null_if_empty [] = none
null_if_empty (c ∷ s) = some (c ∷ s)

unfoldable pub join : Str → Str → Str
join fname1 fname2 =
    if not (ends_in_slash fname1) && not (starts_with_slash fname2)
    then fname1 ++ slash ∷ fname2
    else fname1 ++ fname2

abbrev pub copied : Env → Str → Result Str
copied env fname = do p ← xstrdup env (some fname); access p; ok fname

-- `CHECKED_XMALLOC (char, (len + 2))`, and what is written there.
abbrev pub into_block : Env → ℕ → Str → Result Str
into_block env len fname = do p ← checked_xmalloc env (len + 2) 1 0; access p; ok fname

-- The name before the loop. An empty first name and no second give a NULL that is then read.
unfoldable pub concat_raw : Env → Option Str → Option Str → Result Str
concat_raw env none none = ok []
concat_raw env none (some fname2) = copied env fname2
concat_raw env (some []) none = do p ← xstrdup env none; access p; ok []
concat_raw env (some []) (some fname2) = copied env fname2
concat_raw env (some (c ∷ s)) none = into_block env (length (c ∷ s)) (c ∷ s)
concat_raw env (some (c ∷ s)) (some fname2) =
    into_block env (length (c ∷ s) + length fname2) (join (c ∷ s) fname2)

-- `none` is NULL: nothing is left.
unfoldable pub concat_fname : Env → Option Str → Option Str → Result (Option Str)
concat_fname env fname1 fname2 = do
  filename ← concat_raw env fname1 fname2
  ok (null_if_empty (strip_slashes filename))

abbrev pub unsanitary_windows_chars : Str
unsanitary_windows_chars = b'\\' ∷ b'/' ∷ b':' ∷ b'*' ∷ b'?' ∷ b'"' ∷ b'<' ∷ b'>' ∷ b'|' ∷ []

abbrev pub unsavory_unix_chars : Str
unsavory_unix_chars = b' ' ∷ b';' ∷ b'`' ∷ 0x27 ∷ b'[' ∷ b']' ∷ b'{' ∷ b'}' ∷ b'(' ∷ b')' ∷ []

abbrev pub is_cntrl : ℕ → Bool
is_cntrl c = ltb c 32 || c == 127

abbrev pub is_ascii : ℕ → Bool
is_ascii c = ltb c 128

unfoldable pub ends_in_backslash : Str → Bool
ends_in_backslash [] = false
ends_in_backslash (c ∷ []) = c == backslash
ends_in_backslash (c ∷ d ∷ s) = ends_in_backslash (d ∷ s)

-- No character of the table but the backslash.
unfoldable pub has_other_unsanitary : Str → Bool
has_other_unsanitary [] = false
has_other_unsanitary (c ∷ s) =
    (not (c == backslash) && contains c unsanitary_windows_chars) || has_other_unsanitary s

unfoldable pub has_cntrl : Str → Bool
has_cntrl [] = false
has_cntrl (c ∷ s) = is_cntrl c || has_cntrl s

unfoldable pub could_be_a_windows_path : Str → Bool
could_be_a_windows_path fname =
    contains backslash fname
    && not (ends_in_backslash fname)
    && not (has_other_unsanitary fname)
    && not (has_cntrl fname)

abbrev pub hex_digits : List ℕ
hex_digits =
    b'0' ∷ b'1' ∷ b'2' ∷ b'3' ∷ b'4' ∷ b'5' ∷ b'6' ∷ b'7' ∷ b'8' ∷ b'9' ∷ b'A' ∷ b'B' ∷ b'C' ∷ b'D'
    ∷ b'E' ∷ b'F' ∷ []

-- The `while (1)` of `sanitize_filename`: whether a character is not to be kept.
unfoldable pub must_escape : Bool → ℕ → Bool
must_escape unix_fs c =
    is_cntrl c
    || contains c unsanitary_windows_chars
    || (unix_fs && (not (is_ascii c) || contains c unsavory_unix_chars))
    || c == b'%'

unfoldable pub sanitize_char : Bool → ℕ → Str
sanitize_char unix_fs c =
    if must_escape unix_fs c
    then b'%' ∷ get_or hex_digits (c / 2 ^ 4 % 2 ^ 4) 0 ∷ get_or hex_digits (c % 2 ^ 4) 0 ∷ []
    else c ∷ []

abbrev pub slop : ℕ
slop = 4

-- What `sanitize_filename` writes into its buffer; `sanitized` allocates it. The empty string for NULL
-- too.
unfoldable pub sanitize_filename : Bool → Str → Str
sanitize_filename unix_fs [] = []
sanitize_filename unix_fs (c ∷ s) = sanitize_char unix_fs c ++ sanitize_filename unix_fs s

-- Up to the last backslash and with it, and the rest.
unfoldable pub split_base : Str → Str × Str
split_base [] = ([], [])
split_base (c ∷ s) =
    let (dir, base) = split_base s in
    if c == backslash || not (is_empty dir) then (c ∷ dir, base) else ([], c ∷ base)

unfoldable pub flip_separator : ℕ → ℕ
flip_separator c = if c == backslash then slash else c

unfoldable pub skip_slashes : Str → Str
skip_slashes [] = []
skip_slashes (c ∷ s) = if c == slash then skip_slashes s else c ∷ s

-- What becomes of the directory part: `none` for nothing left.
unfoldable pub munge_dir : Bool → Str → Option Str
munge_dir absolute_ok dir =
    if starts_with_slash dir && not absolute_ok then null_if_empty (skip_slashes dir) else some dir

-- The directory and the base that `munge_fname` goes on with.
unfoldable pub munge_parts : Env → Str → Option Str × Str
munge_parts env fname =
    if flag_on env paths && could_be_a_windows_path fname
    then (
      munge_dir (flag_on env absolute_paths) (map flip_separator (split_base fname).0),
      (split_base fname).1,
    )
    else (none, fname)

-- The buffer that `sanitize_filename` allocates, with the name in it.
abbrev pub sanitized : Env → Str → Result Str
sanitized env fname = do
  p ← checked_xcalloc env (3 * length fname + slop) 1 0
  access p
  ok (sanitize_filename (flag_on env unix_paths) fname)

unfoldable pub munge_fname : Env → Option Str → Result (Option Str)
munge_fname env none = ok none
munge_fname env (some []) = ok none
munge_fname env (some (c ∷ s)) =
    let parts = munge_parts env (c ∷ s) in
    (do buf ← sanitized env parts.1; concat_fname env parts.0 (some buf))
