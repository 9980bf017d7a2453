-- ===== src/Tests/Whole.antt =====
-- A run of the program on a message.
use tnef.Prelude.{◌≡◌, refl, arith, true, none, some, List, [], ◌∷◌, ◌++◌, ascii}
use tnef.Outcome.{ok}
use tnef.Util.{Bytes}
use tnef.Util.Words.{put16, put32}
use tnef.File.{World, find_file}
use tnef.Tnef.{tnef_signature}
use tnef.Tnef.Message.{letter_r, letter_h, letter_t, letters}
use tnef.Tnef.MessageFile.{message_stream}
use tnef.Main.{Opt, Cmdline, parse_cmdline, main}
use tnef.Main.Message.{main-saved_message}
use tnef.Tests.Program.{strtoul, malloc, quiet, long_option, overwrite_option}
use tnef.Tests.Messages.{message, saving-IsQuiet, message-IsSource}

abbrev mail : Bytes
mail = put32 tnef_signature ++ (put16 1 ++ message_stream message [])

abbrev disk : World
disk = record { files = (ascii "in", mail) ∷ []; answers = []; listed = []; can_create = λ p. true }

abbrev options : List Opt
options = overwrite_option ∷ long_option (ascii "save-body") none ∷ []

abbrev saving : Cmdline
saving = record quiet {
  flags = 0x90;
  in_file = some (ascii "in");
  body_file = some (ascii "message");
}

saving_cmdline : parse_cmdline strtoul options (ascii "in" ∷ []) ≡ ok saving
unfolding parse_cmdline tnef.Main.take_options tnef.Main.act tnef.Main.action tnef.Main.long_action
    tnef.File.str_eq
saving_cmdline = refl

found_mail : find_file (ascii "in") disk.files ≡ some mail
unfolding find_file tnef.File.str_eq
found_mail = refl

main-saved_message_example :
    main strtoul malloc disk [] options (ascii "in" ∷ [])
    ≡ ok (some (0, record disk { files = (ascii "message.rtf", ascii "Hi") ∷ disk.files }))
unfolding tnef.Path.sanitize_filename tnef.Path.sanitize_char tnef.Path.must_escape
    tnef.Path.contains
main-saved_message_example =
    main-saved_message strtoul malloc disk [] options (ascii "in" ∷ []) saving (ascii "in")
      (ascii "message") 1 message (letters letter_r letter_h letter_t) [] saving_cmdline refl refl
      refl found_mail saving-IsQuiet refl (omega arith) message-IsSource tt tt (λ p. refl)
