-- ===== src/Tests/Program.antt =====
-- Runs of the program from its command line, and the options on their own.
use tnef.Prelude.{
  ℕ, ◌^◌, ◌%◌, ◌≡◌, ◌≢◌, ◌⊎◌, ◌≤◌, ◌<◌, refl, inl, arith, Bool, true, false, none, some, Option,
  List, [], ◌∷◌, ◌++◌, ascii, All,
}
use tnef.Outcome.{ok}
use tnef.Alloc.{alloc_limit_assert}
use tnef.Util.{Bytes}
use tnef.Util.Words.{put16, put32}
use tnef.Path.{Str}
use tnef.File.{World, find_file}
use tnef.Print.Numbers.{value}
use tnef.Tnef.{tnef_signature, sizeof_file}
use tnef.Tnef.Extract.{IsQuiet, Attachment, IsServed}
use tnef.Tnef.Written.{path_of}
use tnef.Tnef.RoundTrip.{streams, saved_all}
use tnef.Env.{Env}
use tnef.Alloc.Limit.{Serves}
use tnef.Tnef.Save.{parse_file, save_bodies, no_body}
use tnef.Main.{Opt, Cmdline, action, set_max_size, raise, defaults, parse_cmdline, env_of, main}
use tnef.Main.Options.{is_overwrite}
use tnef.Main.Preference.{IsPref, parse_cmdline-IsPref}
use tnef.Main.Maxsize.{parse_cmdline_maxsize}
use tnef.Main.Runs.{main_lists, main_keeps, main-saved_all}

-- The digits of the whole string.
abbrev pub strtoul : Str → ℕ × Str
strtoul s = (value 10 0 s, [])

abbrev pub malloc : ℕ → Bool
malloc n = true

abbrev pub long_option : Str → Option Str → Opt
long_option name optarg = record { val = 0; name = name; optarg = optarg }

abbrev pub overwrite_option : Opt
overwrite_option = long_option (ascii "overwrite") none

abbrev pub quiet : Cmdline
quiet = record defaults { flags = 0x10 }

abbrev pub quiet_env : Env
quiet_env = env_of malloc quiet

pub env-IsQuiet : IsQuiet quiet_env
env-IsQuiet = record {
  no_debug = refl;
  no_list = refl;
  no_verbose = refl;
  no_confirm = refl;
  no_paths = refl;
  over = refl;
}

abbrev pub two : List Attachment
two =
    record { title = ascii "a"; contents = ascii "xy" }
    ∷ record { title = ascii "b/c"; contents = [] }
    ∷ []

pub two-IsServed : All (IsServed quiet_env none) two
two-IsServed = (
  record {
    some_title = omega arith;
    no_zero = (refl, tt);
    small_title = omega arith;
    small = omega arith;
    title_served = plain_Serves 67;
    contents_served = plain_Serves 66;
  },
  (
    record {
      some_title = omega arith;
      no_zero = (refl, (refl, (refl, tt)));
      small_title = omega arith;
      small = omega arith;
      title_served = plain_Serves 73;
      contents_served = plain_Serves 64;
    },
    tt,
  ),
)
  where
    plain_Serves : (n : ℕ) → Serves quiet_env n
    plain_Serves n = record { within = inl refl; serves = λ k. refl }

abbrev stream : Bytes
stream = put32 tnef_signature ++ (put16 1 ++ streams two)

abbrev pub world : World
world = record {
  files = (ascii "in", stream) ∷ [];
  answers = [];
  listed = [];
  can_create = λ p. true;
}

quiet_cmdline :
    parse_cmdline strtoul (overwrite_option ∷ []) (ascii "in" ∷ [])
    ≡ ok (record quiet { in_file = some (ascii "in") })
unfolding parse_cmdline tnef.Main.take_options tnef.Main.act tnef.Main.action tnef.Main.long_action
    tnef.File.str_eq
quiet_cmdline = refl

found_in : find_file (ascii "in") world.files ≡ some stream
unfolding find_file tnef.File.str_eq
found_in = refl

two_apart : All (λ a. path_of quiet_env none a ≢ ascii "in") two
unfolding tnef.Path.sanitize_filename tnef.Path.sanitize_char tnef.Path.must_escape
    tnef.Path.contains
two_apart = (λ e. cc, (λ e. cc, tt))

main-saved_all_example :
    main strtoul malloc world [] (overwrite_option ∷ []) (ascii "in" ∷ [])
    ≡ ok (some (0, saved_all quiet_env none world two))
main-saved_all_example =
    main-saved_all strtoul malloc world [] (overwrite_option ∷ []) (ascii "in" ∷ [])
      (record quiet { in_file = some (ascii "in") }) (ascii "in") 1 two quiet_cmdline refl found_in
      env-IsQuiet refl (omega arith) (record { within = inl refl; serves = λ k. refl }) two-IsServed
      two_apart (λ p. refl)

-- Nothing that is a TNEF stream.
abbrev other_world : World
other_world = record world { files = (ascii "in", 0 ∷ 0 ∷ 0 ∷ 0 ∷ []) ∷ [] }

abbrev list_option : Opt
list_option = record { val = b't'; name = []; optarg = none }

abbrev save_option : Opt
save_option = long_option (ascii "save-body") none

refused :
    main strtoul malloc other_world []
      (save_option ∷ list_option ∷ overwrite_option ∷ [])
      (ascii "in" ∷ [])
    ≡ ok (some (1, other_world))
unfolding main parse_cmdline tnef.Main.open_input tnef.Main.take_options tnef.Main.act
    tnef.Main.action tnef.Main.long_action tnef.File.str_eq find_file tnef.Tnef.Save.parse_file
    tnef.Util.geti32 tnef.Util.getbuf tnef.Util.getint32
refused = refl

listing : action list_option ≡ raise 4
unfolding action
listing = refl

main_lists_example :
    (n : ℕ) × (w' : World) × (◌≡◌ {A = Option (ℕ × World)} (some (1, other_world)) (some (n, w')))
    × ((n ≡ 0) ⊎ (n ≡ 1))
    × (w'.files ≡ other_world.files)
main_lists_example =
    main_lists strtoul malloc other_world [] (ascii "in" ∷ []) (save_option ∷ []) list_option
      (overwrite_option ∷ []) listing (λ e. cc) refused

kept :
    main strtoul malloc other_world [] (save_option ∷ []) (ascii "in" ∷ [])
    ≡ ok (some (1, other_world))
unfolding main parse_cmdline tnef.Main.open_input tnef.Main.take_options tnef.Main.act
    tnef.Main.action tnef.Main.long_action tnef.File.str_eq find_file tnef.Tnef.Save.parse_file
    tnef.Util.geti32 tnef.Util.getbuf tnef.Util.getint32
kept = refl

not_overwriting : is_overwrite save_option ≡ false
unfolding tnef.File.str_eq
not_overwriting = refl

found_other : find_file (ascii "in") other_world.files ≡ some (0 ∷ 0 ∷ 0 ∷ 0 ∷ [])
unfolding find_file tnef.File.str_eq
found_other = refl

main_keeps_example :
    (n : ℕ) × (w' : World) × (◌≡◌ {A = Option (ℕ × World)} (some (1, other_world)) (some (n, w')))
    × ((n ≡ 0) ⊎ (n ≡ 1))
    × (find_file (ascii "in") w'.files ≡ some (0 ∷ 0 ∷ 0 ∷ 0 ∷ []))
main_keeps_example =
    main_keeps strtoul malloc other_world [] (ascii "in" ∷ []) (save_option ∷ []) (ascii "in")
      (0 ∷ 0 ∷ 0 ∷ 0 ∷ []) (not_overwriting, tt) kept found_other

preferred :
    parse_cmdline strtoul (long_option (ascii "body-pref") (some (ascii "Th")) ∷ []) []
    ≡ ok (record defaults { body_pref = ascii "th" })
unfolding parse_cmdline tnef.Main.take_options tnef.Main.act tnef.Main.action tnef.Main.long_action
    tnef.File.str_eq tnef.Main.validate_body_pref tnef.Main.to_lower tnef.Main.all_bodies
preferred = refl

parse_cmdline-IsPref_example : IsPref (ascii "th")
parse_cmdline-IsPref_example =
    parse_cmdline-IsPref strtoul (long_option (ascii "body-pref") (some (ascii "Th")) ∷ []) []
      preferred

abbrev size_option : Opt
size_option = record { val = b'x'; name = []; optarg = some (ascii "3000000000") }

limited : parse_cmdline strtoul (overwrite_option ∷ size_option ∷ []) [] ≡ ok quiet
unfolding parse_cmdline tnef.Main.take_options tnef.Main.act tnef.Main.action tnef.Main.long_action
    tnef.File.str_eq tnef.Main.size_of value
limited = refl

sizing : action size_option ≡ set_max_size
unfolding action
sizing = refl

parse_cmdline_maxsize_example :
    (value 10 0 (ascii "3000000000") % 2 ^ 32 < 2 ^ 31 → 0 ≡ value 10 0 (ascii "3000000000"))
    × (2 ^ 31 ≤ value 10 0 (ascii "3000000000") % 2 ^ 32
        → (n : ℕ) → alloc_limit_assert quiet_env n ≡ ok tt)
parse_cmdline_maxsize_example =
    parse_cmdline_maxsize strtoul malloc (overwrite_option ∷ []) size_option (ascii "3000000000") []
      sizing refl limited
