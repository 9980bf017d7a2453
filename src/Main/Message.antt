-- ===== src/Main/Message.antt =====
-- `main` of src/main.c on a file with a whole message.
use tnef.Prelude.{ℕ, ◌≡◌, ◌≢◌, ◌^◌, ◌<◌, Bool, true, List, ◌++◌, some, map, All}
use tnef.Outcome.{ok}
use tnef.Env.{flag_on, savebody}
use tnef.Util.{Bytes}
use tnef.Util.Words.{put16, put32}
use tnef.Path.{Str}
use tnef.File.{World, find_file}
use tnef.Tnef.{tnef_signature}
use tnef.Tnef.Extract.{IsQuiet}
use tnef.Tnef.Sent.{Sent, IsSent, attachment_of}
use tnef.Tnef.Written.{path_of}
use tnef.Tnef.RoundTrip.{saved_all}
use tnef.Tnef.Message.{Choice, pref_of, is_all, letters_of, written}
use tnef.Tnef.Collect.{Source, message_of}
use tnef.Tnef.MessageFile.{message_stream, IsSource, parse_file-saved_message}
use tnef.Main.{Opt, Cmdline, parse_cmdline, open_input, env_of, main}

-- The program with --save-body, run on a file with a message and attachments, with options that come
-- to --overwrite and neither to listing nor to asking: it ends with 0, and the files behind it are
-- those of the attachments and of the bodies that --body-pref chooses, and those from before. No
-- attachment has the input file for its path, which would be cut off while it is read.
-- (`find_file` is what `fopen` finds, and other paths name other files; sizes are within the limit, `malloc` and the creation of files
-- are taken to succeed.)
pub main-saved_message :
    (strtoul : Str → ℕ × Str) (malloc : ℕ → Bool) (w : World) (stdin : Bytes) (opts : List Opt)
    (operands : List Str) (c : Cmdline) (in_file filename : Str) (key : ℕ) (m : Source)
    (choice : Choice) (attachments : List Sent)
    → parse_cmdline strtoul opts operands ≡ ok c
    → c.in_file ≡ some in_file
    → c.body_file ≡ some filename
    → c.body_pref ≡ pref_of choice
    → find_file in_file w.files
      ≡ some (put32 tnef_signature ++ (put16 key ++ message_stream m attachments))
    → IsQuiet (env_of malloc c)
    → flag_on (env_of malloc c) savebody ≡ true
    → key < 2 ^ 16
    → IsSource (env_of malloc c) c.out_dir filename m
    → All (IsSent (env_of malloc c) c.out_dir) attachments
    → All (λ s. path_of (env_of malloc c) c.out_dir (attachment_of s) ≢ in_file) attachments
    → ((p : Str) → w.can_create p ≡ true)
    → main strtoul malloc w stdin opts operands
      ≡ ok (
          some (
            0,
            written
                (env_of malloc c)
                c.out_dir
                filename
                (message_of m)
                (is_all choice)
                (letters_of choice)
                (saved_all (env_of malloc c) c.out_dir w (map attachment_of attachments)),
          ))
unfolding main open_input
main-saved_message strtoul malloc w stdin opts operands c in_file filename key m choice attachments
      e named body pref found q on k v vs apart can =
    rw (e, named, found, body, pref)
      (parse_file-saved_message (env_of malloc c) c.out_dir filename q on m choice key attachments w
        k v vs can)
