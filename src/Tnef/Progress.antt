-- ===== src/Tnef/Progress.antt =====
-- The loop of `parse_file` ends, and what it does to the world is what writing files does.
use tnef.Prelude.{
  ℕ, zero, suc, ◌+◌, ◌^◌, ◌<◌, Bool, true, false, List, [], ◌∷◌, ◌++◌, Option, none, some, length,
  ◌==◌, ◌≡◌, refl, sym, ◌⊎◌, inl, inr, arith, Bool-cases,
}
use mathlib.Core.Path.{subst}
use tnef.Outcome.{Result, ok, halt, ◌>>=◌}
use tnef.Outcome.Post.{Post, Any, bind, returns, stops, anyhow, weaken, if_ok, if_Post}
use tnef.Env.{Env, flag_on, savebody}
use tnef.Alloc.{checked_xcalloc, access}
use tnef.Util.{Bytes, geti32, geti16}
use tnef.Path.{Str}
use tnef.Attr.{Attr, attr_read, lvl_message, lvl_attachment}
use tnef.Names.{att_attachrenddata}
use tnef.Attr.Reader.{attr_read_takes}
use tnef.File.{str_eq, File, World, file_write}
use tnef.File.Attach.{file_add_attr}
use tnef.Tnef.Save.{
  write_body_files, write_bodies, write_unless_null, get_body_files, save_bodies, finish,
  parse_file, all_pref, every_body,
}
use tnef.Tnef.{
  MessageBody, tnef_signature, Parse, Loop, finished, returned, out_of_rounds, data_left,
  read_object, new_file, begin_file, message_attr, add_attr, begin_attr, or_return, or_finish,
  parse_loop, write_if_any, write_last, sizeof_file,
}

-- What `read_object` returns: the end, or an attribute of one of the two levels and less input.
data Taken (input : Bytes) : Option (Attr × Bytes) → Type 0 where
  at_end : Taken input none
  took :
      {r : Attr × Bytes}
      → length r.1 < length input
      → (r.0.lvl_type ≡ 1) ⊎ (r.0.lvl_type ≡ 2)
      → Taken input (some r)

read_object-Post : (env : Env) (input : Bytes) → Post (Taken input) Any (read_object env input)
unfolding read_object
read_object-Post env [] = returns at_end
read_object-Post env (c ∷ input) =
    bind {P = λ r. Taken (c ∷ input) (some r)} _ _
      (if_ok (attr_read env (c ∷ input)) (λ r e. taken r (attr_read_takes env (c ∷ input) e))
        (λ _ _. tt))
      λ r t. returns t
  where
    taken :
        (r : Attr × Bytes)
        → (length (c ∷ input) ≡ 11 + r.0.len + length r.1)
          × ((r.0.lvl_type ≡ 1) ⊎ (r.0.lvl_type ≡ 2))
          × (length r.0.buf ≡ r.0.len + 1)
          × (r.0.len < 2 ^ 32)
        → Taken (c ∷ input) (some r)
    taken r (lengths, level, _, _) = took (omega arith) level

is_level : (n level : ℕ) → n ≡ level → (n == level) ≡ true
is_level n level e = ground arith

not_message : (n : ℕ) → n ≡ 2 → (n == lvl_message) ≡ false
not_message n e = ground arith

data Added (w : World) : Option Parse → Type 0 where
  added : {s : Parse} → s.world ≡ w → Added w (some s)

pub data Ended (K : World → World → Type 0) (w : World) : Loop → Type 0 where
  ended : {s : Parse} → K w s.world → Ended K w (finished s)

-- What `parse_file` gives back: 1 and the world as it was, or 0 and the world behind the files.
pub data Parsed (K : World → World → Type 0) (w : World) : Option (ℕ × World) → Type 0 where
  rejected : Parsed K w (some (1, w))
  parsed : {w' : World} → K w w' → Parsed K w (some (0, w'))

-- `K` relates the world before and after: it holds of writing no file, of one file, and of more.
module _ (env : Env) (directory : Option Str) (K : World → World → Type 0)
    (none_written : (w : World) → K w w) (both : (u v w : World) → K u v → K v w → K u w)
    (written : (w : World) (file : File) → Post (K w) Any (file_write env w file directory)) where
  begin_attr-Post :
      (s : Parse) (attr : Attr)
      → Post (λ s'. K s.world s'.world) Any (begin_attr env directory s attr)
  unfolding begin_attr begin_file
  begin_attr-Post s attr = elim (Bool-cases (attr.name == att_attachrenddata)) [
    | inl new ↦ rw new (bind _ _ (old_post s.file) λ w k. returns k)
    | inr same ↦ rw same (returns (none_written s.world))
  ]
    where
      old_post : (file : Option File) → Post (K s.world) Any (new_file env directory s.world file)
      old_post none =
          bind _ _ (anyhow (checked_xcalloc env 1 sizeof_file 0))
            λ p _. bind _ _ (anyhow (access p)) λ _ _. returns (none_written s.world)
      old_post (some file) = written s.world file

  add_attr-Post :
      (s : Parse) (attr : Attr)
      → (attr.lvl_type ≡ 1) ⊎ (attr.lvl_type ≡ 2)
      → Post (Added s.world) Any (add_attr env s attr)
  unfolding add_attr
  add_attr-Post s attr (inl message) =
      rw (is_level attr.lvl_type lvl_message message)
        (bind _ _ (anyhow (message_attr env s.body attr)) λ body _. returns (added refl))
  add_attr-Post s attr (inr attachment) =
      rw (not_message attr.lvl_type attachment, is_level attr.lvl_type lvl_attachment attachment)
        (bind _ _ (anyhow (file_add_attr env s.file attr)) λ file _. returns (added refl))

  later : (v w : World) (r : Result Loop) → K w v → Post (Ended K v) Any r → Post (Ended K w) Any r
  later v w (ok _) k (returns (ended k')) = returns (ended (both w v _ k k'))
  later v w (halt h) k (stops t) = stops t

  -- A round, given what the rounds after it do.
  object-Post :
      (from_stdin : Bool) (rounds : ℕ) (input : Bytes) (s : Parse) (object : Option (Attr × Bytes))
      → length input < suc rounds
      → Taken input object
      → ((input' : Bytes) (s' : Parse)
          → length input' < rounds
          → Post (Ended K s'.world) Any (parse_loop rounds env from_stdin directory input' s'))
      → Post (Ended K s.world) Any (
          or_finish s object (λ r. (do
            s' ← begin_attr env directory s r.0
            s'' ← add_attr env s' r.0
            or_return s' s'' (parse_loop rounds env from_stdin directory r.1))))
  object-Post from_stdin rounds input s none enough at_end go =
      returns (ended (none_written s.world))
  object-Post from_stdin rounds input s (some r) enough (took less level) go =
      bind _ _ (begin_attr-Post s r.0)
        λ s' k. bind _ _ (add_attr-Post s' r.0 level) λ s'' a. next s' s'' k a
    where
      next :
          (s' : Parse) (s'' : Option Parse)
          → K s.world s'.world
          → Added s'.world s''
          → Post
              (Ended K s.world)
              Any
              (or_return s' s'' (parse_loop rounds env from_stdin directory r.1))
      next s' none k none_added = elim none_added [ ]
      next s' (some s'') k (added same) =
          later s''.world s.world _ (subst (K s.world) (sym same) k) (go r.1 s'' (omega arith))

  pub parse_loop-Post :
      (from_stdin : Bool) (rounds : ℕ) (input : Bytes) (s : Parse)
      → length input < rounds
      → Post (Ended K s.world) Any (parse_loop rounds env from_stdin directory input s)
  unfolding parse_loop
  parse_loop-Post from_stdin zero input s enough = absurd (omega arith)
  parse_loop-Post from_stdin (suc rounds) input s enough =
      elim (Bool-cases (data_left from_stdin input)) [
        | inl left ↦ rw left (
            bind _ _ (read_object-Post env input) λ object t.
              object-Post from_stdin rounds input s object enough t
                (λ input' s' less. parse_loop-Post from_stdin rounds input' s' less))
        | inr done ↦ rw done (returns (ended (none_written s.world)))
      ]

  write_last-Post : (s : Parse) → Post (K s.world) Any (write_last env directory s)
  unfolding write_last
  write_last-Post s = file_post s.file
    where
      file_post :
          (file : Option File) → Post (K s.world) Any (write_if_any env directory s.world file)
      file_post none = returns (none_written s.world)
      file_post (some file) = written s.world file

  write_body_files-Post :
      (w : World) (files : List File) → Post (K w) Any (write_body_files env directory w files)
  unfolding write_body_files
  write_body_files-Post w [] = returns (none_written w)
  write_body_files-Post w (f ∷ []) = written w f
  write_body_files-Post w (f ∷ g ∷ files) = bind _ _ (written w f) λ w' k. stops tt

  module _ (filename : Str) (body : MessageBody) (all : Bool) where
    write_bodies-Post :
        (n : ℕ) (pref : Str) (w : World)
        → Post (K w) Any (write_bodies env directory filename body all n pref w)
    unfolding write_bodies
    write_bodies-Post zero pref w = returns (none_written w)
    write_bodies-Post (suc n) [] w = stops tt
    write_bodies-Post (suc n) (p ∷ pref) w =
        bind _ _ (anyhow (get_body_files env filename p body))
          λ files _. go files (λ w'. write_bodies-Post n pref w')
      where
        go :
            (files : Option (List File))
            → ((w' : World)
                → Post (K w') Any (write_bodies env directory filename body all n pref w'))
            → Post (K w) Any (
                write_unless_null env directory w files
                  (write_bodies env directory filename body all n pref)
                  all)
        go none rest = rest w
        go (some files) rest = bind _ _ (write_body_files-Post w files) λ w' k.
            if_Post all _ _ (λ _. weaken _ (λ w'' k'. both w w' w'' k k') (rest w'))
              (λ _. returns k)

  save_bodies-Post :
      (filename pref : Str) (body : MessageBody) (w : World)
      → Post (K w) Any (save_bodies env directory filename pref body w)
  unfolding save_bodies
  save_bodies-Post filename pref body w = elim (Bool-cases (flag_on env savebody)) [
    | inl save ↦ elim (Bool-cases (str_eq pref all_pref)) [
      | inl all ↦ rw (save, all) (write_bodies-Post filename body true 3 (every_body ++ 0 ∷ []) w)
      | inr some_of ↦
          rw (save, some_of) (write_bodies-Post filename body false 3 (pref ++ 0 ∷ []) w)
    ]
    | inr off ↦ rw off (returns (none_written w))
  ]

  pub parse_file-Post :
      (from_stdin : Bool) (input : Bytes) (filename pref : Str) (w : World)
      → Post (Parsed K w) Any (parse_file env from_stdin input directory filename pref w)
  unfolding parse_file
  parse_file-Post from_stdin input filename pref w = bind _ _ (anyhow (geti32 input)) λ r _.
      elim (Bool-cases (r.0 == tnef_signature)) [
        | inl signature ↦ rw signature (
            bind _ _ (anyhow (geti16 r.1)) λ key _.
              bind _ _ (parse_loop-Post from_stdin (suc (length key.1)) key.1 _ (omega arith))
                λ l e. after l e)
        | inr other ↦ rw other (returns rejected)
      ]
    where
      after :
          (l : Loop) → Ended K w l → Post (Parsed K w) Any (finish env directory filename pref l)
      after (finished s) (ended k) =
          unfold finish in
          bind _ _ (write_last-Post s) λ w' k'.
            bind _ _ (save_bodies-Post filename pref s.body w')
              λ w'' k''. returns (parsed (both w s.world w'' k (both s.world w' w'' k' k'')))
      after (returned n v) e = elim e [ ]
      after out_of_rounds e = elim e [ ]
