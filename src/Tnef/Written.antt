-- ===== src/Tnef/Written.antt =====
-- `file_write` of src/file.c with --overwrite: where the bytes of a file are put.
use tnef.Prelude.{
  ◌+◌, ◌*◌, ◌^◌, ◌<◌, ◌≤◌, ◌≡◌, arith, Bool, true, false, [], ◌∷◌, ◌++◌, Option, none, some, length,
  if◌then◌else◌,
}
use tnef.Outcome.{ok}
use tnef.Env.{Env, flag_on, confirm, paths, unix_paths}
use tnef.Alloc.Limit.{Serves, Serves-le}
use tnef.Util.{Bytes}
use tnef.Path.{Str, slash, ends_in_slash, sanitize_filename, munge_fname, concat_fname}
use tnef.Path.Concat.{NoSlash, concat_fname-null, concat_fname-empty, concat_fname_into}
use tnef.Path.Sanitize.{length-sanitize_filename, sanitize_filename-Allowed}
use tnef.Path.Munge.{munge_fname_plain, Allowed-NoSlash}
use tnef.File.{
  File, World, safe_path, confirm_action, choose_path, put_file, list_file, extract, file_write,
}
use tnef.Tnef.Extract.{IsQuiet, Attachment, IsServed, file_of, dir_length}

-- The path of a name in the output directory.
abbrev pub in_directory : Option Str → Str → Str
in_directory none name = name
in_directory (some []) name = name
in_directory (some (d ∷ dir)) name =
    if ends_in_slash (d ∷ dir) then (d ∷ dir) ++ name else (d ∷ dir) ++ (slash ∷ name)

abbrev pub path_of : Env → Option Str → Attachment → Str
path_of env directory a =
    in_directory directory (sanitize_filename (flag_on env unix_paths) a.title)

abbrev pub saved : Env → Option Str → World → Attachment → World
saved env directory w a = record w { files = (path_of env directory a, a.contents) ∷ w.files }

concat_fname-in_directory :
    (env : Env) (directory : Option Str) (name : Str)
    → NoSlash name
    → 1 ≤ length name
    → Serves env (dir_length directory + length name + 2)
    → dir_length directory + length name + 2 < 2 ^ 64
    → concat_fname env directory (some name) ≡ ok (some (in_directory directory name))
concat_fname-in_directory env directory [] n l v w = absurd (omega arith)
concat_fname-in_directory env none (c ∷ name) n l v w =
    concat_fname-null env c name (Serves-le _ v (omega arith)) n
concat_fname-in_directory env (some []) (c ∷ name) n l v w =
    concat_fname-empty env c name (Serves-le _ v (omega arith)) n
concat_fname-in_directory env (some (d ∷ dir)) (c ∷ name) n l v w =
    concat_fname_into env d dir c name v w n

munge_title :
    (env : Env) (title : Str)
    → flag_on env paths ≡ false
    → 1 ≤ length title
    → Serves env (3 * length title + 64)
    → 3 * length title + 64 < 2 ^ 32
    → munge_fname env (some title) ≡ ok (some (sanitize_filename (flag_on env unix_paths) title))
munge_title env [] off l v w = absurd (omega arith)
munge_title env (c ∷ title) off l v w =
    let (r, e, same, _) =
      munge_fname_plain env c title off (Serves-le _ v (omega arith)) (omega arith) in
    rw (← same) e

confirm_quiet :
    (env : Env) (w : World) → flag_on env confirm ≡ false → confirm_action env w ≡ (true, w)
unfolding confirm_action
confirm_quiet env w off = rw off

put_file_can :
    (w : World) (path : Str) (bytes : Bytes)
    → w.can_create path ≡ true
    → put_file w path bytes ≡ ok (record w { files = (path, bytes) ∷ w.files })
unfolding put_file
put_file_can w path bytes can = ground arith

list_quiet :
    (env : Env) (w : World) (file : File) (name path : Str)
    → IsQuiet env
    → list_file env w file name path ≡ ok w
unfolding list_file
list_quiet env w file name path q = rw (q.no_list, q.no_verbose)

-- The file of an attachment, or one that has a MIME type, too.
abbrev pub typed : Attachment → Option Bytes → File
typed a mime = record (file_of a) { mime_type = mime }

extract-saved :
    (env : Env) (directory : Option Str) (a : Attachment) (mime : Option Bytes) (w : World)
    → IsQuiet env
    → w.can_create (path_of env directory a) ≡ true
    → extract env w (typed a mime) a.title (path_of env directory a) ≡ ok (saved env directory w a)
unfolding extract choose_path
extract-saved env directory a mime w q can = rw (
  q.over,
  put_file_can w (path_of env directory a) a.contents can,
  list_quiet env (saved env directory w a) (typed a mime) a.title (path_of env directory a) q,
)

-- A file is written at its path.
pub file_write-saved :
    (env : Env) (directory : Option Str) (a : Attachment) (mime : Option Bytes) (w : World)
    → IsQuiet env
    → IsServed env directory a
    → ((p : Str) → w.can_create p ≡ true)
    → file_write env w (typed a mime) directory ≡ ok (saved env directory w a)
unfolding file_write safe_path
file_write-saved env directory a mime w q v can =
    let unix_fs = flag_on env unix_paths in
    let name = sanitize_filename unix_fs a.title in
    rw
      (
        munge_title env a.title q.no_paths v.some_title (Serves-le _ v.title_served (omega arith))
            (omega (arith, v.small_title)),
        concat_fname-in_directory env directory name
            (Allowed-NoSlash unix_fs name (sanitize_filename-Allowed unix_fs a.title))
            (omega (arith, length-sanitize_filename unix_fs a.title, v.some_title))
            (Serves-le _ v.title_served (omega (arith, length-sanitize_filename unix_fs a.title)))
            (omega (arith, length-sanitize_filename unix_fs a.title, v.small_title)),
        q.no_list,
      )
      (confirmed (confirm_action env w) (confirm_quiet env w q.no_confirm))
  where
    confirmed :
        (r : Bool × World)
        → r ≡ (true, w)
        → (if r.0 then extract env r.1 (typed a mime) a.title (path_of env directory a) else ok r.1)
          ≡ ok (saved env directory w a)
    confirmed r e = rw e (extract-saved env directory a mime w q (can (path_of env directory a)))
