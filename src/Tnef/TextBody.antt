-- ===== src/Tnef/TextBody.antt =====
-- `parse_file` of src/tnef.c with --save-body on a message with a text and attachments.
use tnef.Prelude.{
  false, ℕ, ◌+◌, ◌^◌, ◌<◌, ◌≡◌, ap, ◌∙◌, arith, true, List, [], ◌++◌, Option, none, some, length,
  map, All,
}
use tnef.Outcome.{ok}
use tnef.Env.{Env, flag_on, savebody}
use tnef.Alloc.Limit.{Serves, Serves-le}
use tnef.Util.{Bytes}
use tnef.Util.Words.{put16, put32}
use tnef.Names.{sz_text, att_body}
use tnef.Path.{Str}
use tnef.File.{World}
use tnef.Tnef.{tnef_signature}
use tnef.Tnef.Save.{every_body, parse_file}
use tnef.Tnef.Extract.{IsQuiet, Attachment, IsServed, attr_stream}
use tnef.Tnef.Written.{saved}
use tnef.Tnef.RoundTrip.{
  streams, saved_all, plain, sent_streams-plain, attachment_of-plain, All-plain,
}
use tnef.Tnef.Message.{
  Letter, letter_r, letter_h, letter_t, letters, body_file, body_of, IsServedBody,
}
use tnef.Tnef.Collect.{Source, message_of}
use tnef.Tnef.MessageFile.{parse_file-saved_message}

abbrev pub text_file : Str → Bytes → Attachment
text_file filename text = body_file filename letter_t text

abbrev only : Bytes → Source
only text = record { text = some text; others = []; html = none; rtf = none }

-- A stream with the text of a message and attachments, with --overwrite, --save-body and no other
-- option that bears on it: `parse_file` returns 0, and the files are those of the attachments, as
-- without --save-body, and one more for the text, under the sanitized name of the body file with the
-- extension `.txt`. (Titles are not empty and have no 0, sizes are within the limit, `malloc` and
-- `fopen` are taken to succeed.)
pub parse_file-saved_text :
    (env : Env) (directory : Option Str) (filename : Str)
    → IsQuiet env
    → flag_on env savebody ≡ true
    → (key : ℕ) (text : Bytes) (attachments : List Attachment) (w : World) → key < 2 ^ 16
    → Serves env (length filename + 64)
    → length filename + 64 < 2 ^ 64
    → IsServed env directory (text_file filename text)
    → All (IsServed env directory) attachments
    → ((p : Str) → w.can_create p ≡ true)
    → parse_file env false
        (put32 tnef_signature
          ++ (put16 key ++ (attr_stream 1 sz_text att_body text ++ streams attachments)))
        directory
        filename
        every_body
        w
      ≡ ok (
          some (
            0,
            saved env directory (saved_all env directory w attachments) (text_file filename text),
          ))
parse_file-saved_text env directory filename q on key text attachments w k f fits v vs can =
    rw (← sent_streams-plain attachments) (
      parse_file-saved_message env directory filename q on (only text)
        (letters letter_r letter_h letter_t) key (map plain attachments) w k
        (record {
          good = tt;
          other = tt;
          packed = tt;
          small = omega arith;
          properties_served = Serves-le _ f (omega arith);
          name_served = f;
          small_name = fits;
          each = each;
        })
        (All-plain env directory attachments vs) can
      ∙ ap
          (λ as_list. ok (
            some (
              0,
              saved env directory (saved_all env directory w as_list) (text_file filename text),
            )))
          (attachment_of-plain attachments))
  where
    each : (k : Letter) → IsServedBody env directory filename k (body_of (message_of (only text)) k)
    each letter_r = tt
    each letter_h = tt
    each letter_t = v
