-- ===== src/Util/Reference.antt =====
-- UTF-8 for the code points below 0x10000, as RFC 3629 has it, in plain arithmetic, and its decoder,
-- which refuses overlong forms, surrogates and bytes out of place. This is the independent
-- description that `unicode_to_utf8` is held against.
use tnef.Prelude.{
  ℕ, zero, suc, ◌+◌, ◌-◌, ◌*◌, ◌/◌, ◌%◌, ◌^◌, ◌<◌, List, [], ◌∷◌, ltb, leb, not, ◌&&◌, Bool,
  if◌then◌else◌, Option, none, some,
}
use tnef.Util.{Bytes}

-- Half of a surrogate pair, which is no character.
abbrev pub is_surrogate : ℕ → Bool
is_surrogate c = leb 0xd800 c && ltb c 0xe000

-- A surrogate has no encoding.
abbrev pub utf8_ref : ℕ → Bytes
utf8_ref c =
    if ltb c 0x80
    then c ∷ []
    else if ltb c 0x800
    then (0xc0 + c / 64) ∷ (0x80 + c % 64) ∷ []
    else if is_surrogate c
    then []
    else (0xe0 + c / 4096) ∷ (0x80 + c / 64 % 64) ∷ (0x80 + c % 64) ∷ []

abbrev pub is_continuation : ℕ → Bool
is_continuation b = leb 0x80 b && ltb b 0xc0

abbrev pub only_if : Bool → ℕ → Bytes → Option (ℕ × Bytes)
only_if valid c rest = if valid then some (c, rest) else none

abbrev pub two_bytes : ℕ → Bytes → Option (ℕ × Bytes)
two_bytes a [] = none
two_bytes a (b ∷ rest) =
    let u = (a - 0xc0) * 64 + (b - 0x80) in only_if (is_continuation b && leb 0x80 u) u rest

abbrev pub three_bytes : ℕ → Bytes → Option (ℕ × Bytes)
three_bytes a (b ∷ c ∷ rest) =
    let u = (a - 0xe0) * 4096 + (b - 0x80) * 64 + (c - 0x80) in
    only_if (is_continuation b && is_continuation c && leb 0x800 u && not (is_surrogate u)) u rest
three_bytes a _ = none

-- The length of a character is told by its first byte: a continuation byte is none, and four bytes
-- hold the characters from 0x10000 on, which are left out here.
unfoldable pub decode_char : Bytes → Option (ℕ × Bytes)
decode_char [] = none
decode_char (a ∷ rest) =
    if ltb a 0x80
    then some (a, rest)
    else if ltb a 0xc0
    then none
    else if ltb a 0xe0
    then two_bytes a rest
    else if ltb a 0xf0
    then three_bytes a rest
    else none

abbrev pub cons_char : ℕ → Option (List ℕ × Bytes) → Option (List ℕ × Bytes)
cons_char c none = none
cons_char c (some (cs, rest)) = some (c ∷ cs, rest)

abbrev pub and_then :
    Option (ℕ × Bytes) → (Bytes → Option (List ℕ × Bytes)) → Option (List ℕ × Bytes)
and_then none f = none
and_then (some (c, rest)) f = cons_char c (f rest)

-- The next `n` characters, and what follows them.
unfoldable pub decode_chars : ℕ → Bytes → Option (List ℕ × Bytes)
decode_chars zero s = some ([], s)
decode_chars (suc n) s = and_then (decode_char s) (λ rest. decode_chars n rest)

-- Code units, each in two bytes, the lower first.
abbrev pub utf16_bytes : List ℕ → Bytes
utf16_bytes [] = []
utf16_bytes (u ∷ us) = u % 256 ∷ u / 256 ∷ utf16_bytes us

abbrev pub IsUnit16 : ℕ → Type 0
IsUnit16 u = u < 2 ^ 16
