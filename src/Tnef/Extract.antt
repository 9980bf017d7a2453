-- ===== src/Tnef/Extract.antt =====
-- A stream of attachments goes through the loop of `parse_file` in src/tnef.c: each attribute takes one
-- round, and each attachment three.
use mathlib.Core.List.{append_assoc}
use tnef.Prelude.{
  ℕ, suc, ◌+◌, ◌*◌, ◌%◌, ◌^◌, ◌<◌, ◌≤◌, ◌≡◌, ◌⊎◌, inr, refl, ◌∙◌, arith, true, false, [], ◌∷◌, ◌++◌,
  Option, none, some, length, length-append, All, ◌==◌,
}
use tnef.Outcome.{Result, ok, halt, ◌>>=◌}
use tnef.Env.{Env, flag_on, dbg_out, list, verbose, confirm, overwrite, paths}
use tnef.Alloc.{access}
use tnef.Alloc.Limit.{Serves, Serves-le, checked_xmalloc-Serves}
use tnef.Util.{Bytes, c_string}
use tnef.Util.Words.{put16, put32}
use tnef.Attr.{sizeof_attr}
use tnef.Attr.Checksum.{sum}
use tnef.Attr.Reader.{attr_bytes, attr_of, attr_read-attr_bytes}
use tnef.Path.{Str}
use tnef.File.{File, World, cleared_file}
use tnef.File.Attach.{file_add_attr}
use tnef.Names.{att_attachrenddata, att_attachtitle, att_attachdata}
use tnef.Mapi.Header.{read_bytes}
use tnef.Tnef.{
  begin_file, new_file, Parse, data_left, read_object, begin_attr, add_attr, or_return, parse_loop,
}

-- An attribute with its checksum.
abbrev pub attr_stream : ℕ → ℕ → ℕ → Bytes → Bytes
attr_stream lvl type name body = attr_bytes lvl type name body (sum body % 65536)

-- What holds of the options here: nothing is printed or asked, and names have no paths.
pub record IsQuiet (env : Env) : Type 0 where
  pub no_debug : flag_on env dbg_out ≡ false
  pub no_list : flag_on env list ≡ false
  pub no_verbose : flag_on env verbose ≡ false
  pub no_confirm : flag_on env confirm ≡ false
  pub no_paths : flag_on env paths ≡ false
  pub over : flag_on env overwrite ≡ true

pub length-attr_stream :
    (lvl type name : ℕ) (body : Bytes) → length (attr_stream lvl type name body) ≡ length body + 11
unfolding put32 put16
length-attr_stream lvl type name body = omega (arith, length-append body (put16 (sum body % 65536)))

same_checksum : (n : ℕ) → (n == n) ≡ true
same_checksum n = ground arith

more_left : (input : Bytes) → 8 ≤ length input → data_left false input ≡ true
unfolding data_left
more_left input h = ground arith

pub attr_round :
    (env : Env) (rounds lvl type name : ℕ) (body rest : Bytes) (directory : Option Str) (s : Parse)
    → (lvl ≡ 1) ⊎ (lvl ≡ 2)
    → type < 2 ^ 16
    → name < 2 ^ 16
    → length body < 2 ^ 32
    → Serves env (length body + sizeof_attr)
    → flag_on env dbg_out ≡ false
    → parse_loop (suc rounds) env false directory (attr_stream lvl type name body ++ rest) s ≡ (
        begin_attr env directory s (attr_of lvl type name body) >>= λ s'.
        add_attr env s' (attr_of lvl type name body) >>= λ s''.
        or_return s' s'' (parse_loop rounds env false directory rest))
unfolding parse_loop read_object
attr_round env rounds lvl type name body rest directory s hl ht hn hb v d = rw (
  more_left (attr_stream lvl type name body ++ rest) (
      omega (
        arith,
        length-append (attr_stream lvl type name body) rest,
        length-attr_stream lvl type name body,
      )),
  attr_read-attr_bytes env lvl type name body rest (sum body % 65536) hl ht hn hb (omega arith) v d,
  same_checksum (sum body % 65536),
)

-- An attachment: its title, without the terminating 0, and its data.
pub record Attachment : Type 0 where
  pub title : Str
  pub contents : Bytes

abbrev pub rendering : Bytes
rendering = 0 ∷ 0 ∷ []

-- The title and the data, and what follows.
abbrev pub set_stream : Attachment → Bytes → Bytes
set_stream a rest =
    attr_stream 2 1 att_attachtitle (a.title ++ 0 ∷ [])
    ++ (attr_stream 2 6 att_attachdata a.contents ++ rest)

abbrev pub attachment_stream : Attachment → Bytes → Bytes
attachment_stream a rest = attr_stream 2 6 att_attachrenddata rendering ++ set_stream a rest

abbrev pub dir_length : Option Str → ℕ
dir_length none = 0
dir_length (some dir) = length dir

pub length-attachment_stream :
    (a : Attachment) (rest : Bytes) → 33 + length rest ≤ length (attachment_stream a rest)
length-attachment_stream a rest = omega (
  arith,
  length-append (attr_stream 2 6 att_attachrenddata rendering) (set_stream a rest),
  length-append (attr_stream 2 1 att_attachtitle (a.title ++ 0 ∷ []))
      (attr_stream 2 6 att_attachdata a.contents ++ rest),
  length-append (attr_stream 2 6 att_attachdata a.contents) rest,
  length-attr_stream 2 6 att_attachrenddata rendering,
  length-attr_stream 2 1 att_attachtitle (a.title ++ 0 ∷ []),
  length-attr_stream 2 6 att_attachdata a.contents,
)

-- The title is not empty and has no 0, and with the output directory's name and the data it is
-- small enough for the blocks to be served.
pub record IsServed (env : Env) (directory : Option Str) (a : Attachment) : Type 0 where
  pub some_title : 1 ≤ length a.title
  pub no_zero : All (λ c. (c == 0) ≡ false) a.title
  pub small_title : dir_length directory + 3 * length a.title + 64 < 2 ^ 32
  pub small : length a.contents + 64 < 2 ^ 32
  pub title_served : Serves env (dir_length directory + 3 * length a.title + 64)
  pub contents_served : Serves env (length a.contents + 64)

-- The file that the attributes of an attachment build.
abbrev pub file_of : Attachment → File
file_of a = record cleared_file {
  name = some a.title;
  len = length a.contents;
  bytes = some a.contents;
}

pub c_string-append :
    (title rest : Str) → All (λ c. (c == 0) ≡ false) title → c_string (title ++ 0 ∷ rest) ≡ ok title
unfolding c_string
c_string-append [] rest h = refl
c_string-append (c ∷ title) rest (hc, h) = rw (hc, c_string-append title rest h)

pub read_bytes-append : (body rest : Bytes) → read_bytes (length body) (body ++ rest) ≡ ok body
unfolding read_bytes
read_bytes-append [] rest = refl
read_bytes-append (b ∷ body) rest = rw (read_bytes-append body rest)

module _ (env : Env) (directory : Option Str) (a : Attachment) (v : IsServed env directory a) where
  title_set :
      file_add_attr env (some cleared_file) (attr_of 2 1 att_attachtitle (a.title ++ 0 ∷ []))
      ≡ ok (record cleared_file { name = some a.title })
  unfolding file_add_attr
  title_set = rw (append_assoc, c_string-append a.title (0 ∷ []) v.no_zero)

  contents_set :
      file_add_attr env
        (some (record cleared_file { name = some a.title }))
        (attr_of 2 6 att_attachdata a.contents)
      ≡ ok (file_of a)
  unfolding file_add_attr access
  contents_set = rw (
    checked_xmalloc-Serves (length a.contents) 1 0 (Serves-le _ v.contents_served (omega arith))
        (omega arith),
    read_bytes-append a.contents (0 ∷ []),
  )

  rendering_set :
      file_add_attr env (some cleared_file) (attr_of 2 6 att_attachrenddata rendering)
      ≡ ok cleared_file
  unfolding file_add_attr
  rendering_set = refl

  -- The title and the data.
  two_rounds :
      (rounds : ℕ) (rest : Bytes) (s : Parse)
      → flag_on env dbg_out ≡ false
      → s.file ≡ some cleared_file
      → parse_loop (suc (suc rounds)) env false directory (set_stream a rest) s
        ≡ parse_loop rounds env false directory rest (record s { file = some (file_of a) })
  unfolding begin_attr add_attr
  two_rounds rounds rest s d f =
      attr_round env (suc rounds) 2 1 att_attachtitle (a.title ++ 0 ∷ []) _ directory s (inr refl)
        (omega arith) (omega arith) (omega (arith, length-append a.title (0 ∷ []), v.small_title))
        (Serves-le _ v.title_served (omega (arith, length-append a.title (0 ∷ [])))) d
      ∙ rw (f, title_set)
          (attr_round env rounds 2 6 att_attachdata a.contents rest directory
              (record s { file = some (record cleared_file { name = some a.title }) }) (inr refl)
              (omega arith) (omega arith) (omega (arith, v.small))
              (Serves-le _ v.contents_served (omega arith)) d
            ∙ rw contents_set)

  -- The three attributes, with the file before them written.
  pub attachment_rounds :
      (rounds : ℕ) (rest : Bytes) (s : Parse)
      → flag_on env dbg_out ≡ false
      → parse_loop (suc (suc (suc rounds))) env false directory (attachment_stream a rest) s ≡ (
          new_file env directory s.world s.file >>= λ w.
          parse_loop rounds env false directory rest
            (record s { file = some (file_of a); world = w }))
  unfolding begin_attr begin_file add_attr
  attachment_rounds rounds rest s d =
      attr_round env (suc (suc rounds)) 2 6 att_attachrenddata rendering (set_stream a rest)
        directory s (inr refl) (omega arith) (omega arith) (omega arith)
        (Serves-le _ v.contents_served (omega arith)) d
      ∙ begun (new_file env directory s.world s.file)
    where
      begun :
          (r : Result World)
          → ((r >>= λ w. ok (record s { file = some cleared_file; world = w })) >>= λ s'.
              add_attr env s' (attr_of 2 6 att_attachrenddata rendering) >>= λ s''.
              or_return s' s''
                (parse_loop (suc (suc rounds)) env false directory (set_stream a rest)))
            ≡ (r >>= λ w.
                parse_loop rounds env false directory rest
                  (record s { file = some (file_of a); world = w }))
      begun (ok w) =
          rw rendering_set
            (two_rounds rounds rest (record s { file = some cleared_file; world = w }) d refl)
      begun (halt h) = refl
