-- ===== src/Tests/Sent.antt =====
-- A run on attachments with long names.
use tnef.Prelude.{ℕ, ◌≡◌, refl, inl, arith, false, none, some, List, [], ◌∷◌, ◌++◌, ascii}
use tnef.Outcome.{ok}
use tnef.Alloc.Limit.{Serves}
use tnef.Util.Words.{put16, put32}
use tnef.Mapi.Writer.{untagged, int, word}
use tnef.Tnef.{tnef_signature}
use tnef.Tnef.Save.{parse_file}
use tnef.Tnef.Extract.{IsServed}
use tnef.Tnef.Sent.{Sent, IsNamed, Named}
use tnef.Tnef.RoundTrip.{sent_streams, parse_file-saved_sent}
use tnef.Tests.Program.{quiet_env, env-IsQuiet, world}

-- With a property that sets nothing, the rendering position.
abbrev long : Named
long = record {
  others = record { name = 0x370b; tag = untagged; payload = word int 7 } ∷ [];
  long_name = ascii "report";
}

abbrev sent : List Sent
sent =
    record { short = record { title = ascii "REPOR~1"; contents = ascii "xy" }; named = some long }
    ∷ record { short = record { title = ascii "b"; contents = [] }; named = none }
    ∷ []

quiet-Serves : (n : ℕ) → Serves quiet_env n
quiet-Serves n = record { within = inl refl; serves = λ k. refl }

short-IsServed : IsServed quiet_env none (record { title = ascii "REPOR~1"; contents = ascii "xy" })
short-IsServed = record {
  some_title = omega arith;
  no_zero = (refl, (refl, (refl, (refl, (refl, (refl, (refl, tt)))))));
  small_title = omega arith;
  small = omega arith;
  title_served = quiet-Serves _;
  contents_served = quiet-Serves _;
}

long-IsServed : IsServed quiet_env none (record { title = ascii "report"; contents = ascii "xy" })
long-IsServed = record {
  some_title = omega arith;
  no_zero = (refl, (refl, (refl, (refl, (refl, (refl, tt))))));
  small_title = omega arith;
  small = omega arith;
  title_served = quiet-Serves _;
  contents_served = quiet-Serves _;
}

plain-IsServed : IsServed quiet_env none (record { title = ascii "b"; contents = [] })
plain-IsServed = record {
  some_title = omega arith;
  no_zero = (refl, tt);
  small_title = omega arith;
  small = omega arith;
  title_served = quiet-Serves _;
  contents_served = quiet-Serves _;
}

long-IsNamed : IsNamed quiet_env long
unfolding put32 put16 tnef.Mapi.Writer.concat tnef.Mapi.Writer.put_blob
    tnef.Mapi.Header.pad_to_4byte
long-IsNamed = record {
  good = ((omega arith, refl, omega arith), tt);
  idle = ((refl, refl, refl, refl), tt);
  no_zero = (refl, (refl, (refl, (refl, (refl, (refl, tt))))));
  small = omega arith;
  served = quiet-Serves _;
}

parse_file-saved_sent_example :
    parse_file quiet_env false
      (put32 tnef_signature ++ (put16 1 ++ sent_streams sent))
      none
      []
      (ascii "rht")
      world
    ≡ ok (
        some (
          0,
          record world { files = (ascii "b", []) ∷ (ascii "report", ascii "xy") ∷ world.files },
        ))
unfolding tnef.Path.sanitize_filename tnef.Path.sanitize_char tnef.Path.must_escape
    tnef.Path.contains
parse_file-saved_sent_example =
    parse_file-saved_sent quiet_env none [] (ascii "rht") env-IsQuiet refl 1 sent world
      (omega arith) (quiet-Serves _)
      (
        record {
          short_served = short-IsServed;
          named_served = long-IsNamed;
          served = long-IsServed;
        },
        (record { short_served = plain-IsServed; named_served = tt; served = plain-IsServed }, tt),
      )
      (λ p. refl)
