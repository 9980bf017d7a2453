-- ===== src/File/Disk.antt =====
-- What writing a file, `file_write` of src/file.c, does to the files that are there already.
use tnef.Prelude.{
  ascii, ◌++◌, length, ℕ, zero, suc, ◌+◌, Bool, true, false, ◌||◌, ◌&&◌, List, [], ◌∷◌, Option,
  none, some, ◌≡◌, refl, ap, ◌∙◌, if◌then◌else◌, ◌==◌, Bool-cases, ==_iff, inl, inr,
}
use tnef.Outcome.{ok, ◌>>=◌}
use tnef.Outcome.Post.{Post, Any, bind, weaken, seq, returns, stops, anyhow}
use tnef.Env.{Env, flag_on, list, overwrite, numbered, confirm, verbose}
use tnef.Alloc.{checked_xmalloc, access}
use tnef.Util.{Bytes}
use tnef.Path.{Str, concat_fname}
use tnef.File.{
  show_mime, show_names, File, World, str_eq, find_file, file_exists, find_free, find_free_number,
  confirm_action, ask, put_file, list_file, choose_path, extract, file_write, safe_path, or_default,
  contents, numbered_name,
}

-- The files are the same.
abbrev pub SameFiles : World → World → Type 0
SameFiles w w' = w'.files ≡ w.files

-- Every file that was there is there with the same bytes.
abbrev pub KeepsFiles : World → World → Type 0
KeepsFiles w w' =
    (p : Str) (bytes : Bytes) → find_file p w.files ≡ some bytes → find_file p w'.files ≡ some bytes

list_file_keeps :
    (env : Env) (w : World) (file : File) (name path : Str)
    → Post (SameFiles w) Any (list_file env w file name path)
unfolding list_file
list_file_keeps env w file name path = elim (Bool-cases (flag_on env list || flag_on env verbose)) [
  | inl told ↦ rw told (
      bind _ _ (anyhow (show_names env file name path)) λ names _.
        bind _ _ (anyhow (show_mime env file)) λ mime _.
          returns {a = record w { listed = (names ++ mime ++ ascii "\n") ∷ w.listed }} refl)
  | inr silent ↦ rw silent (returns refl)
]

-- With --list nothing is written.
pub file_write_lists :
    (env : Env) (w : World) (file : File) (directory : Option Str)
    → flag_on env list ≡ true
    → Post (SameFiles w) Any (file_write env w file directory)
unfolding file_write
file_write_lists env w file directory l =
    bind _ _ (anyhow (safe_path env (or_default file.name) file.path)) λ path _.
      bind _ _ (anyhow (concat_fname env directory (some path)))
        λ joined _. rw l (list_file_keeps env w file (or_default file.name) (or_default joined))

and-true : (b c : Bool) → (b && c) ≡ true → (b ≡ true) × (c ≡ true)
and-true true c e = (refl, e)
and-true false c e = cc

pub str_eq_sound : (s t : Str) → str_eq s t ≡ true → s ≡ t
unfolding str_eq
str_eq_sound [] [] e = refl
str_eq_sound (a ∷ s) (b ∷ t) e =
    let (same, rest) = and-true (a == b) (str_eq s t) e in
    cc ((==_iff a b).0 same, str_eq_sound s t rest)
str_eq_sound [] (b ∷ t) e = cc
str_eq_sound (a ∷ s) [] e = cc

-- A file put at a path with no file keeps the others.
put_file_keeps :
    (w : World) (path : Str) (bytes : Bytes)
    → file_exists w path ≡ false
    → Post (KeepsFiles w) Any (put_file w path bytes)
unfolding put_file find_file
put_file_keeps w path bytes free = elim (Bool-cases (w.can_create path)) [
  | inl can ↦ rw can (returns keeps)
  | inr cannot ↦ rw cannot (stops tt)
]
  where
    keeps : KeepsFiles w (record w { files = (path, bytes) ∷ w.files })
    keeps p old found = elim (Bool-cases (str_eq path p)) [
      | inl same ↦ cc (str_eq_sound path p same, free, found)
      | inr other ↦ rw other found
    ]

find_free_is_free :
    (rounds : ℕ) (w : World) (fname : Str) (counter : ℕ)
    → Post (λ p. file_exists w p ≡ false) Any (find_free rounds w fname counter)
unfolding find_free
find_free_is_free zero w fname counter = stops tt
find_free_is_free (suc rounds) w fname counter =
    elim (Bool-cases (file_exists w (numbered_name fname counter))) [
      | inl taken ↦ rw (find_free, taken) (find_free_is_free rounds w fname (counter + 1))
      | inr free ↦ rw (find_free, free) (returns free)
    ]

find_free_number_is_free :
    (env : Env) (w : World) (fname : Str)
    → Post (λ p. file_exists w p ≡ false) Any (find_free_number env w fname)
unfolding find_free_number
find_free_number_is_free env w fname =
    bind _ _ (anyhow (checked_xmalloc env (length fname + 7) 1 0))
      λ tmp _. seq _ _ (anyhow (access tmp)) λ _. find_free_is_free 99999 w fname 1

-- A path that is chosen is that of no file.
data Free (w : World) : Option Str → Type 0 where
  nowhere : Free w none
  free_at : {p : Str} → file_exists w p ≡ false → Free w (some p)

choose_path-Post :
    (env : Env) (w : World) (path : Str)
    → flag_on env overwrite ≡ false
    → Post (Free w) Any (choose_path env w path)
unfolding choose_path
choose_path-Post env w path off = elim (Bool-cases (file_exists w path)) [
  | inl taken ↦ elim (Bool-cases (flag_on env numbered)) [
    | inl number ↦
        rw (off, taken, number)
          (bind _ _ (find_free_number_is_free env w path) λ p free. returns (free_at free))
    | inr no_number ↦ rw (off, taken, no_number) (returns nowhere)
  ]
  | inr free ↦ rw (off, free) (returns (free_at free))
]

extract_keeps :
    (env : Env) (w : World) (file : File) (name path : Str)
    → flag_on env overwrite ≡ false
    → Post (KeepsFiles w) Any (extract env w file name path)
unfolding extract
extract_keeps env w file name path off =
    bind _ _ (choose_path-Post env w path off) λ target free. put target free
  where
    put :
        (target : Option Str)
        → Free w target
        → Post (KeepsFiles w) Any (elim target [
          | none ↦ ok w
          | some p ↦ do w' ← put_file w p (contents file.bytes); list_file env w' file name p
        ])
    put none nowhere = returns (λ p bytes found. found)
    put (some p) (free_at free) =
        bind _ _ (put_file_keeps w p (contents file.bytes) free) λ w' kept.
          weaken {P = SameFiles w'} _
            (λ w'' same q bytes found. ap (find_file q) same ∙ kept q bytes found)
            (list_file_keeps env w' file name p)

confirm_action_same : (env : Env) (w : World) → SameFiles w (confirm_action env w).1
unfolding confirm_action
confirm_action_same env w = elim (Bool-cases (flag_on env confirm)) [
  | inl on ↦ rw on (asked w.answers)
  | inr not_on ↦ rw not_on refl
]
  where
    asked : (answers : List Bool) → SameFiles w (ask w answers).1
    asked [] = refl
    asked (a ∷ answers) = refl

-- Without --overwrite every file that was there keeps its bytes.
pub file_write_keeps :
    (env : Env) (w : World) (file : File) (directory : Option Str)
    → flag_on env overwrite ≡ false
    → Post (KeepsFiles w) Any (file_write env w file directory)
unfolding file_write
file_write_keeps env w file directory off =
    bind _ _ (anyhow (safe_path env (or_default file.name) file.path)) λ path _.
      bind _ _ (anyhow (concat_fname env directory (some path)))
        λ joined _. write (or_default joined)
  where
    same_keeps : (w' : World) → SameFiles w w' → KeepsFiles w w'
    same_keeps w' same q bytes found = ap (find_file q) same ∙ found

    write :
        (target : Str)
        → Post (KeepsFiles w) Any (
            if flag_on env list
            then list_file env w file (or_default file.name) target
            else (let (confirmed, w') = confirm_action env w in
                if confirmed then extract env w' file (or_default file.name) target else ok w'))
    write target = elim (Bool-cases (flag_on env list)) [
      | inl on ↦
          rw on (weaken _ same_keeps (list_file_keeps env w file (or_default file.name) target))
      | inr not_on ↦ elim (Bool-cases (confirm_action env w).0) [
        | inl agreed ↦
            rw (not_on, agreed)
              (weaken _
                (λ w'' kept q bytes found.
                  kept q bytes
                    (same_keeps (confirm_action env w).1 (confirm_action_same env w) q bytes found))
                (extract_keeps env (confirm_action env w).1 file (or_default file.name) target off))
        | inr refused ↦
            rw (not_on, refused)
              (returns (same_keeps (confirm_action env w).1 (confirm_action_same env w)))
      ]
    ]
