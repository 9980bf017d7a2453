-- ===== src/Tests/Messages.antt =====
-- Runs with --save-body, and the properties of a message.
use tnef.Prelude.{
  ℕ, ◌^◌, ◌+◌, ◌*◌, ◌<◌, ◌≤◌, ◌==◌, ◌≡◌, refl, inl, arith, false, none, some, List, [], ◌∷◌, ◌++◌,
  ascii, All, map, length,
}
use tnef.Outcome.{ok, halt, fault}
use tnef.Alloc.Limit.{Serves}
use tnef.Util.{Bytes}
use tnef.Util.Words.{put16, put32}
use tnef.Env.{Env}
use tnef.Path.{Str}
use tnef.Mapi.{mapi_attr_read}
use tnef.Mapi.Types.{Guid}
use tnef.Mapi.Writer.{
  numbered, titled, unicode, class_id, IsGuid, untagged, Property, attr_of, boolean, currency,
  string, short, word, pair, ints, times, blobs, put_properties, IsProperty,
}
use tnef.Mapi.RoundTrip.{mapi_attr_read-put_properties}
use tnef.Tnef.{tnef_signature}
use tnef.Tnef.Save.{parse_file, save_bodies, no_body}
use tnef.Tnef.Extract.{IsQuiet, IsServed}
use tnef.Tnef.ShortPref.{save_bodies_overrun}
use tnef.Tnef.Message.{Letter, letter_r, letter_h, letter_t, letters, body_of, IsServedBody}
use tnef.Rtf.Lz77.{lz77, onto}
use tnef.Rtf.Crc.{crc_ref}
use tnef.Rtf.Table.{rtf_prebuf}
use tnef.Tnef.Packed.{Packed, IsPacked}
use tnef.Tnef.Collect.{Source, message_of}
use tnef.Tnef.MessageFile.{message_stream, IsSource, parse_file-saved_message}
use tnef.Tests.{plain, plain-Serves}
use tnef.Tests.Program.{quiet_env, world}

abbrev guid : Guid
guid = record { data1 = 0x62008; data2 = 0; data3 = 0; data4 = ascii "12345678" }

-- The properties of the types that come with one value, and with several.
abbrev some_properties : List Property
some_properties =
    record { name = 0x17; tag = untagged; payload = short 1 }
    ∷ record { name = 0x26; tag = untagged; payload = word boolean 1 }
    ∷ record { name = 0x39; tag = untagged; payload = pair currency 5 6 }
    ∷ record { name = 0x40; tag = untagged; payload = ints (7 ∷ 8 ∷ []) }
    ∷ record { name = 0x41; tag = untagged; payload = times ((1, 2) ∷ []) }
    ∷ record {
      name = 0x70;
      tag = untagged;
      payload = blobs string (ascii "Hi" ∷ ascii "there" ∷ []);
    }
    ∷ record { name = 0x8001; tag = numbered guid 0x8503; payload = unicode ((0x48 ∷ []) ∷ []) }
    ∷ record { name = 0x8002; tag = titled guid ((0x2603 ∷ []) ∷ []); payload = class_id guid }
    ∷ []

guid-IsGuid : IsGuid guid
guid-IsGuid = (omega arith, omega arith, omega arith, refl)

some-IsProperty : All IsProperty some_properties
some-IsProperty = (
  (omega arith, refl, omega arith),
  (
    (omega arith, refl, omega arith),
    (
      (omega arith, refl, (omega arith, omega arith)),
      (
        (omega arith, refl, (omega arith, (omega arith, (omega arith, tt)))),
        (
          (omega arith, refl, (omega arith, ((omega arith, omega arith), tt))),
          (
            (omega arith, refl, omega arith),
            (
              (
                omega arith,
                (refl, guid-IsGuid, omega arith),
                (omega arith, ((omega arith, (omega arith, tt)), tt)),
              ),
              (
                (
                  omega arith,
                  (refl, guid-IsGuid, omega arith, ((omega arith, (omega arith, tt)), tt)),
                  guid-IsGuid,
                ),
                tt,
              ),
            ),
          ),
        ),
      ),
    ),
  ),
)

mapi_attr_read-put_properties_example :
    mapi_attr_read plain
      (length (put_properties some_properties))
      (put_properties some_properties ++ 0 ∷ [])
    ≡ ok (some (map attr_of some_properties))
unfolding put32 put16 tnef.Mapi.Writer.concat tnef.Mapi.Writer.put_blob
    tnef.Mapi.Header.pad_to_4byte
mapi_attr_read-put_properties_example =
    mapi_attr_read-put_properties plain some_properties (0 ∷ []) (omega arith) some-IsProperty
      (omega arith) (plain-Serves _)

-- With --save-body.
abbrev pub saving_env : Env
saving_env = record quiet_env { g_flags = 0x90 }

saving-Serves : (n : ℕ) → Serves saving_env n
saving-Serves n = record { within = inl refl; serves = λ k. refl }

pub saving-IsQuiet : IsQuiet saving_env
saving-IsQuiet = record {
  no_debug = refl;
  no_list = refl;
  no_verbose = refl;
  no_confirm = refl;
  no_paths = refl;
  over = refl;
}

-- The message has no HTML.
save_bodies_overrun_example :
    save_bodies saving_env none (ascii "message") (ascii "h") no_body world ≡ halt fault
save_bodies_overrun_example =
    save_bodies_overrun saving_env none (ascii "message") b'h' no_body world refl
      (unfold tnef.Tnef.Save.body_kind in refl)

abbrev packed : Packed
packed = record { src = 0 ∷ ascii "Hi"; text = ascii "Hi" }

unpacks : (lz77 packed.src 2).past ≡ onto packed.text (onto rtf_prebuf [])
unfolding lz77 onto tnef.Rtf.Lz77.tokens tnef.Rtf.Lz77.token tnef.Rtf.Lz77.literal
    tnef.Rtf.Lz77.groups tnef.Rtf.Lz77.match tnef.Rtf.Lz77.pair tnef.Rtf.Lz77.copy rtf_prebuf
unpacks = refl

small_crc : crc_ref 0 packed.src < 2 ^ 32
unfolding crc_ref tnef.Rtf.Crc.crc_bits tnef.Rtf.Crc.crc_bit
small_crc = omega arith

-- A control byte for eight literals, of which two follow.
packed-IsPacked : IsPacked saving_env packed
packed-IsPacked = record {
  is_bytes = (omega arith, (omega arith, (omega arith, tt)));
  some_src = omega arith;
  some_text = omega arith;
  unpacks = unpacks;
  small_src = omega arith;
  small_text = omega arith;
  small_crc = small_crc;
  text_served = saving-Serves _;
}

abbrev pub message : Source
message = record {
  text = some (ascii "Hi");
  others = some_properties;
  html = some (ascii "<p>Hi");
  rtf = some packed;
}

served :
    (title b : Bytes)
    → 1 ≤ length title
    → All (λ c. (c == 0) ≡ false) title
    → 0 + 3 * length title + 64 < 2 ^ 32
    → length b + 64 < 2 ^ 32
    → IsServed saving_env none (record { title = title; contents = b })
served title b one no_zero small_title small = record {
  some_title = one;
  no_zero = no_zero;
  small_title = small_title;
  small = small;
  title_served = saving-Serves _;
  contents_served = saving-Serves _;
}

message-served :
    (k : Letter) → IsServedBody saving_env none (ascii "message") k (body_of (message_of message) k)
message-served letter_r =
    served _ (ascii "Hi") (omega arith)
      (refl, (refl, (refl, (refl, (refl, (refl, (refl, (refl, (refl, (refl, (refl, tt)))))))))))
      (omega arith) (omega arith)
message-served letter_h =
    served _ (ascii "<p>Hi") (omega arith)
      (
        refl,
        (refl, (refl, (refl, (refl, (refl, (refl, (refl, (refl, (refl, (refl, (refl, tt))))))))))),
      )
      (omega arith) (omega arith)
message-served letter_t =
    served _ (ascii "Hi") (omega arith)
      (refl, (refl, (refl, (refl, (refl, (refl, (refl, (refl, (refl, (refl, (refl, tt)))))))))))
      (omega arith) (omega arith)

pub message-IsSource : IsSource saving_env none (ascii "message") message
unfolding put32 put16 tnef.Mapi.Writer.concat tnef.Mapi.Writer.put_blob
    tnef.Mapi.Header.pad_to_4byte
message-IsSource = record {
  good = some-IsProperty;
  other = (
    (refl, refl),
    (
      (refl, refl),
      (
        (refl, refl),
        ((refl, refl), ((refl, refl), ((refl, refl), ((refl, refl), ((refl, refl), tt))))),
      ),
    ),
  );
  packed = packed-IsPacked;
  small = omega arith;
  properties_served = saving-Serves _;
  name_served = saving-Serves _;
  small_name = omega arith;
  each = message-served;
}

parse_file-saved_message_example :
    parse_file saving_env false
      (put32 tnef_signature ++ (put16 1 ++ message_stream message []))
      none
      (ascii "message")
      (ascii "hrt")
      world
    ≡ ok (some (0, record world { files = (ascii "message.html", ascii "<p>Hi") ∷ world.files }))
unfolding tnef.Path.sanitize_filename tnef.Path.sanitize_char tnef.Path.must_escape
    tnef.Path.contains
parse_file-saved_message_example =
    parse_file-saved_message saving_env none (ascii "message") saving-IsQuiet refl message
      (letters letter_h letter_r letter_t) 1 [] world (omega arith) message-IsSource tt (λ p. refl)
