-- ===== src/Tnef/Message.antt =====
-- The bodies of a message in src/tnef.c, one of each kind at most: how the loop collects them, and
-- which of them --save-body writes.
use mathlib.Core.Path.{subst}
use tnef.Prelude.{
  ℕ, ◌+◌, ◌^◌, ◌<◌, ◌≡◌, refl, inl, inr, arith, Bool, true, false, List, [], ◌∷◌, ◌++◌, Option,
  none, some, length, map, ascii, Option-cases, if◌then◌else◌,
}
use tnef.Outcome.{Result, ok}
use tnef.Env.{Env, flag_on, savebody}
use tnef.Alloc.{access, malloc, xcalloc, checked_product, check_mul_overflow}
use tnef.Alloc.Limit.{Serves, Serves-le, checked_xcalloc-Serves, checked_xmalloc-Serves}
use tnef.Util.{Bytes}
use tnef.Mapi.Header.{read_bytes}
use tnef.Rtf.{Output}
use tnef.Path.{Str}
use tnef.File.{World, str_eq}
use tnef.Tnef.{Bodies, MessageBody}
use tnef.Tnef.Save.{
  all_pref, ext_rtf, ext_html, ext_txt, text_slash, body_files, get_body_files, body_kind,
  some_files, write_body_files, write_bodies, save_bodies,
}
use tnef.Tnef.Extract.{IsQuiet, Attachment, IsServed}
use tnef.Tnef.Written.{saved, typed, file_write-saved}

-- What the message has of each kind.
pub record Message : Type 0 where
  pub rtf : Option Bytes
  pub html : Option Bytes
  pub text : Option Bytes

abbrev pub entry : Bytes → Output
entry b = record { len = length b; bytes = some b }

abbrev pub one_body : Option Bytes → Option Bodies
one_body none = none
one_body (some b) = some (some (entry b) ∷ [])

abbrev pub bodies_of : Message → MessageBody
bodies_of m = record {
  text_body = one_body m.text;
  html_bodies = one_body m.html;
  rtf_bodies = one_body m.rtf;
}

-- The letters of --save-body.
pub data Letter : Type 0 where
  letter_r letter_h letter_t : Letter

abbrev pub code : Letter → ℕ
code letter_r = b'r'
code letter_h = b'h'
code letter_t = b't'

abbrev pub ext : Letter → Str
ext letter_r = ext_rtf
ext letter_h = ext_html
ext letter_t = ext_txt

-- The argument of --save-body: `all`, or letters in the order in which they are looked at.
pub data Choice : Type 0 where
  all_letters : Choice
  letters : Letter → Letter → Letter → Choice

abbrev pub letters_of : Choice → List Letter
letters_of all_letters = letter_r ∷ letter_h ∷ letter_t ∷ []
letters_of (letters a b c) = a ∷ b ∷ c ∷ []

abbrev pub is_all : Choice → Bool
is_all all_letters = true
is_all (letters a b c) = false

abbrev pub pref_of : Choice → Str
pref_of all_letters = all_pref
pref_of (letters a b c) = map code (a ∷ b ∷ c ∷ [])

abbrev mime : Letter → Str
mime letter_r = text_slash (ascii "rtf")
mime letter_h = text_slash (ascii "html")
mime letter_t = text_slash (ascii "plain")

abbrev pub body_of : Message → Letter → Option Bytes
body_of m letter_r = m.rtf
body_of m letter_h = m.html
body_of m letter_t = m.text

-- The file of a body: the name of the body file with the extension of the kind.
abbrev pub body_file : Str → Letter → Bytes → Attachment
body_file filename k b = record { title = filename ++ ext k; contents = b }

abbrev pub IsServedBody : Env → Option Str → Str → Letter → Option Bytes → Type 0
IsServedBody env directory filename k none = Unit
IsServedBody env directory filename k (some b) = IsServed env directory (body_file filename k b)

read_bytes_all : (b : Bytes) → read_bytes (length b) b ≡ ok b
unfolding read_bytes
read_bytes_all [] = refl
read_bytes_all (c ∷ b) = rw (read_bytes_all b)

kind_of :
    (m : Message) (k : Letter)
    → body_kind (code k) (bodies_of m) ≡ (one_body (body_of m k), ext k, mime k)
unfolding body_kind
kind_of m letter_r = refl
kind_of m letter_h = refl
kind_of m letter_t = refl

module _ (env : Env) (served : Serves env 64) where
  -- The allocations of fixed size.
  xcalloc_24 : xcalloc env 3 8 0 ≡ ok (some 24)
  unfolding xcalloc checked_product check_mul_overflow malloc
  xcalloc_24 = rw (served.serves 24) refl

  xcalloc_64 : xcalloc env 1 64 0 ≡ ok (some 64)
  unfolding xcalloc checked_product check_mul_overflow malloc
  xcalloc_64 = rw (served.serves 64) refl

  one_file :
      (filename : Str) (k : Letter) (b : Bytes)
      → Serves env (length filename + 64)
      → length filename + 64 < 2 ^ 64
      → Serves env (length b)
      → length b < 2 ^ 32
      → some_files env filename (some (some (entry b) ∷ []), ext k, mime k)
        ≡ ok (some (typed (body_file filename k b) (some (mime k ++ 0 ∷ [])) ∷ []))
  unfolding body_files access
  one_file filename k b f fits s small =
      let size = sizes k in
      rw (
        checked_xcalloc-Serves (length filename + length (ext k) + 1) 1 0
            (Serves-le _ f (omega arith)) (omega arith),
        checked_xcalloc-Serves (length (mime k) + 1) 1 0 (Serves-le _ f (omega arith))
            (omega arith),
        xcalloc_24,
        xcalloc_64,
        checked_xmalloc-Serves (length b) 1 0 (Serves-le _ s (omega arith)) (omega arith),
        read_bytes_all b,
      )
    where
      sizes : (k : Letter) → (length (ext k) < 6) × (length (mime k) < 12)
      sizes letter_r = (omega arith, omega arith)
      sizes letter_h = (omega arith, omega arith)
      sizes letter_t = (omega arith, omega arith)

abbrev if_any : Option Bytes → World → (Bytes → World) → World
if_any none w f = w
if_any (some b) w f = f b

-- What is written for a choice of letters: the first of the bodies that there is, or all of them.
abbrev pub written : Env → Option Str → Str → Message → Bool → List Letter → World → World
written env directory filename m all [] w = w
written env directory filename m all (k ∷ others) w =
    let after = written env directory filename m all others in
    if_any (body_of m k) (after w)
      (λ b. let w' = saved env directory w (body_file filename k b) in if all then after w' else w')

one_or_all :
    (all : Bool) {rest : Result World} (w : World) {w' : World}
    → rest ≡ ok w'
    → (if all then rest else ok w) ≡ ok (if all then w' else w)
one_or_all true w e = e
one_or_all false w e = refl

not_all : (k : Letter) (pref : Str) → str_eq (code k ∷ pref) all_pref ≡ false
unfolding str_eq
not_all letter_r pref = refl
not_all letter_h pref = refl
not_all letter_t pref = refl

module _ (env : Env) (directory : Option Str) (filename : Str) (m : Message) (q : IsQuiet env)
    (served : Serves env (length filename + 64)) (fits : length filename + 64 < 2 ^ 64)
    (each : (k : Letter) → IsServedBody env directory filename k (body_of m k)) where
  some_body :
      (k : Letter) (b : Bytes)
      → body_of m k ≡ some b
      → IsServed env directory (body_file filename k b)
  some_body k b e = subst (IsServedBody env directory filename k) e (each k)

  -- The files of a letter.
  files_of :
      (k : Letter) (b : Bytes)
      → body_of m k ≡ some b
      → get_body_files env filename (code k) (bodies_of m)
        ≡ ok (some (typed (body_file filename k b) (some (mime k ++ 0 ∷ [])) ∷ []))
  unfolding get_body_files
  files_of k b e =
      let v = some_body k b e in
      rw (kind_of m k, e)
        (one_file env (Serves-le _ served (omega arith)) filename k b served fits
          (Serves-le _ v.contents_served (omega arith)) (omega (arith, v.small)))

  no_files :
      (k : Letter)
      → body_of m k ≡ none
      → get_body_files env filename (code k) (bodies_of m) ≡ ok none
  unfolding get_body_files
  no_files k e = rw (kind_of m k, e) refl

  pub write_bodies-written :
      (all : Bool) (chosen : List Letter) (rest : Str) (w : World)
      → ((p : Str) → w.can_create p ≡ true)
      → write_bodies env directory filename
          (bodies_of m)
          all
          (length chosen)
          (map code chosen ++ rest)
          w
        ≡ ok (written env directory filename m all chosen w)
  unfolding write_bodies write_body_files
  write_bodies-written all [] rest w can = refl
  write_bodies-written all (k ∷ others) rest w can = elim (Option-cases (body_of m k)) [
    | inl e ↦ rw (no_files k e, e) (write_bodies-written all others rest w can)
    | inr (b, e) ↦
        rw
          (
            files_of k b e,
            e,
            file_write-saved env directory (body_file filename k b) (some (mime k ++ 0 ∷ [])) w q
                (some_body k b e) can,
          )
          (one_or_all all (saved env directory w (body_file filename k b)) (
            write_bodies-written all others rest (saved env directory w (body_file filename k b))
              can))
  ]

-- The bodies of a message, with --save-body and --overwrite: with `all` every body is
-- written, the RTF first, then the HTML and the text; with three letters the first one in their
-- order that the message has, and no other. Each goes to the name of the body file with the
-- extension of its kind, sanitized. (One body of each kind at most, no option that prints or asks;
-- sizes are within the limit, `malloc` and `fopen` are taken to succeed.)
pub save_bodies-written :
    (env : Env) (directory : Option Str) (filename : Str) (m : Message)
    → IsQuiet env
    → Serves env (length filename + 64)
    → length filename + 64 < 2 ^ 64
    → ((k : Letter) → IsServedBody env directory filename k (body_of m k))
    → (choice : Choice) (w : World) → flag_on env savebody ≡ true
    → ((p : Str) → w.can_create p ≡ true)
    → save_bodies env directory filename (pref_of choice) (bodies_of m) w
      ≡ ok (written env directory filename m (is_all choice) (letters_of choice) w)
unfolding save_bodies str_eq
save_bodies-written env directory filename m q served fits each all_letters w on can = rw on (
    write_bodies-written env directory filename m q served fits each true
      (letter_r ∷ letter_h ∷ letter_t ∷ []) (0 ∷ []) w can)
save_bodies-written env directory filename m q served fits each (letters a b c) w on can =
    rw (on, not_all a (map code (b ∷ c ∷ [])))
      (write_bodies-written env directory filename m q served fits each false (a ∷ b ∷ c ∷ [])
        (0 ∷ []) w can)
