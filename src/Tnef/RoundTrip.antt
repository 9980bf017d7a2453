-- ===== src/Tnef/RoundTrip.antt =====
-- `parse_file` of src/tnef.c on a whole stream of attachments: every one of them is in the file of its
-- name afterwards, byte for byte.
use tnef.Prelude.{
  ℕ, suc, ◌-◌, ◌^◌, ◌<◌, ◌≡◌, refl, ap, ◌∙◌, arith, true, false, List, [], ◌∷◌, ◌++◌, Option, none,
  some, length, map, ◌+◌, ◌≤◌, All,
}
use tnef.Outcome.{Result, ok, ◌>>=◌}
use tnef.Env.{Env, flag_on, savebody}
use tnef.Alloc.{access}
use tnef.Alloc.Limit.{Serves, Serves-le, checked_xcalloc-Serves}
use tnef.Util.{Bytes}
use tnef.Util.Words.{put16, put32}
use tnef.Util.Stream.{geti32-put32, geti16-put16}
use tnef.Path.{Str}
use tnef.File.{World}
use tnef.Tnef.{
  MessageBody, Parse, sizeof_file, tnef_signature, data_left, read_object, parse_loop, write_last,
}
use tnef.Tnef.Save.{save_bodies, finish, parse_file, no_body}
use tnef.Tnef.Extract.{
  IsQuiet, Attachment, IsServed, attachment_stream, file_of, attachment_rounds,
  length-attachment_stream,
}
use tnef.Tnef.Sent.{Sent, IsSent, attachment_of, named_stream, sent_stream, named_rounds}
use tnef.Tnef.Written.{saved, file_write-saved}

abbrev pub streams : List Attachment → Bytes
streams [] = []
streams (a ∷ others) = attachment_stream a (streams others)

abbrev pub sent_streams : List Sent → Bytes
sent_streams [] = []
sent_streams (s ∷ others) = sent_stream s (sent_streams others)

-- The files of the attachments, the last one first.
abbrev pub saved_all : Env → Option Str → World → List Attachment → World
saved_all env directory w [] = w
saved_all env directory w (a ∷ others) = saved_all env directory (saved env directory w a) others

module _ (env : Env) (directory : Option Str) (filename pref : Str) (q : IsQuiet env) where
  -- What follows the last attachment.
  abbrev pub bodies_saved : MessageBody → World → Result (Option (ℕ × World))
  bodies_saved body w = save_bodies env directory filename pref body w >>= λ w'. ok (some (0, w'))

  loop_saves :
      (rounds : ℕ) (a : Attachment) (others : List Sent) (s : Parse)
      → length (sent_streams others) < rounds
      → s.file ≡ some (file_of a)
      → IsServed env directory a
      → All (IsSent env directory) others
      → ((p : Str) → s.world.can_create p ≡ true)
      → (parse_loop rounds env false directory (sent_streams others) s
          >>= finish env directory filename pref)
        ≡ bodies_saved s.body (saved_all env directory s.world (a ∷ map attachment_of others))
  unfolding parse_loop read_object data_left write_last finish
  loop_saves rounds a [] s enough f v vs can =
      let e : rounds ≡ suc (rounds - 1) = omega arith in
      rw (e, parse_loop) (rw (f, file_write-saved env directory a none s.world q v can) refl)
  loop_saves rounds a (b ∷ others) s enough f v (vb, vs) can =
      let rest = sent_streams others in
      let long : 33 + length (named_stream b.named rest) ≤ length (sent_stream b rest) =
        length-attachment_stream b.short (named_stream b.named rest) in
      let e : rounds ≡ suc (suc (suc (rounds - 3))) = omega arith in
      let w = saved env directory s.world a in
      let (n, left, named) =
        named_rounds env directory q.no_debug (rounds - 3) b.short b.named rest s.body w
          vb.named_served (omega arith) in
      rw
        (
          e,
          attachment_rounds env directory b.short vb.short_served (rounds - 3)
              (named_stream b.named rest) s q.no_debug,
          f,
          file_write-saved env directory a none s.world q v can,
          named,
        )
        (loop_saves n (attachment_of b) others
          (record s { file = some (file_of (attachment_of b)); world = w }) left refl vb.served vs
          can)

  module _ (body : MessageBody) (w : World) (can : (p : Str) → w.can_create p ≡ true) where
    abbrev start : Parse
    start = record { file = none; body = body; world = w }

    no_attachments :
        (rounds : ℕ)
        → (parse_loop (suc rounds) env false directory [] start
            >>= finish env directory filename pref)
          ≡ bodies_saved body w
    unfolding parse_loop read_object data_left write_last finish
    no_attachments rounds = refl

    pub from_start :
        (rounds : ℕ) (attachments : List Sent)
        → Serves env sizeof_file
        → All (IsSent env directory) attachments
        → length (sent_streams attachments) < rounds
        → (parse_loop rounds env false directory (sent_streams attachments) start
            >>= finish env directory filename pref)
          ≡ bodies_saved body (saved_all env directory w (map attachment_of attachments))
    unfolding access
    from_start rounds [] v vs enough =
        let e : rounds ≡ suc (rounds - 1) = omega arith in rw e (no_attachments (rounds - 1))
    from_start rounds (a ∷ others) v (va, vs) enough =
        let rest = sent_streams others in
        let long : 33 + length (named_stream a.named rest) ≤ length (sent_stream a rest) =
          length-attachment_stream a.short (named_stream a.named rest) in
        let e : rounds ≡ suc (suc (suc (rounds - 3))) = omega arith in
        let (n, left, named) =
          named_rounds env directory q.no_debug (rounds - 3) a.short a.named rest body w
            va.named_served (omega arith) in
        rw
          (
            e,
            attachment_rounds env directory a.short va.short_served (rounds - 3)
                (named_stream a.named rest) start q.no_debug,
            checked_xcalloc-Serves 1 sizeof_file 0 (Serves-le _ v (omega arith)) (omega arith),
            named,
          )
          (loop_saves n (attachment_of a) others
            (record start { file = some (file_of (attachment_of a)) }) left refl va.served vs can)

-- An attachment without properties.
abbrev pub plain : Attachment → Sent
plain a = record { short = a; named = none }

pub sent_streams-plain :
    (attachments : List Attachment) → sent_streams (map plain attachments) ≡ streams attachments
sent_streams-plain [] = refl
sent_streams-plain (a ∷ others) = rw (sent_streams-plain others)

pub attachment_of-plain :
    (attachments : List Attachment) → map attachment_of (map plain attachments) ≡ attachments
attachment_of-plain [] = refl
attachment_of-plain (a ∷ others) = rw (attachment_of-plain others)

pub All-plain :
    (env : Env) (directory : Option Str) (attachments : List Attachment)
    → All (IsServed env directory) attachments
    → All (IsSent env directory) (map plain attachments)
All-plain env directory [] vs = tt
All-plain env directory (a ∷ others) (v, vs) =
    (record { short_served = v; named_served = tt; served = v }, All-plain env directory others vs)

-- A stream of attachments, with --overwrite and no other option that bears on it: `parse_file`
-- returns 0, and the files are those of the attachments, each with its data in the output directory
-- under its sanitized name, the later ones first, and then those that were there. The name is the
-- title, or the long name where the attachment has an attribute of MAPI properties with one, the
-- last of them. (The other properties set nothing of a file; names are not empty and have no 0,
-- sizes are within the limit, `malloc` and `fopen` are taken to succeed.)
pub parse_file-saved_sent :
    (env : Env) (directory : Option Str) (filename pref : Str)
    → IsQuiet env
    → flag_on env savebody ≡ false
    → (key : ℕ) (attachments : List Sent) (w : World) → key < 2 ^ 16
    → Serves env sizeof_file
    → All (IsSent env directory) attachments
    → ((p : Str) → w.can_create p ≡ true)
    → parse_file env false
        (put32 tnef_signature ++ (put16 key ++ sent_streams attachments))
        directory
        filename
        pref
        w
      ≡ ok (some (0, saved_all env directory w (map attachment_of attachments)))
unfolding parse_file save_bodies
parse_file-saved_sent env directory filename pref q off key attachments w k v vs can =
    let input = sent_streams attachments in
    rw (geti32-put32 tnef_signature (put16 key ++ input) (omega arith), geti16-put16 key input k)
      (from_start env directory filename pref q no_body w can (suc (length input)) attachments v vs
          (omega arith)
        ∙ rw off refl)

-- A stream of attachments, with --overwrite and no other option that bears on it: `parse_file`
-- returns 0, and the files are those of the attachments, each with its data under its sanitized
-- title in the output directory, the later ones first, and then those that were there. (Titles are
-- not empty and have no 0, sizes are within the limit, `malloc` and `fopen` are taken to succeed.)
pub parse_file-saved_all :
    (env : Env) (directory : Option Str) (filename pref : Str)
    → IsQuiet env
    → flag_on env savebody ≡ false
    → (key : ℕ) (attachments : List Attachment) (w : World) → key < 2 ^ 16
    → Serves env sizeof_file
    → All (IsServed env directory) attachments
    → ((p : Str) → w.can_create p ≡ true)
    → parse_file env false
        (put32 tnef_signature ++ (put16 key ++ streams attachments))
        directory
        filename
        pref
        w
      ≡ ok (some (0, saved_all env directory w attachments))
parse_file-saved_all env directory filename pref q off key attachments w k v vs can =
    rw (← sent_streams-plain attachments) (
      parse_file-saved_sent env directory filename pref q off key (map plain attachments) w k v
        (All-plain env directory attachments vs) can
      ∙ ap (λ as_list. ok (some (0, saved_all env directory w as_list)))
          (attachment_of-plain attachments))
