-- ===== src/Util/Utf8.antt =====
-- `unicode_to_utf8` of src/util.c: the bytes that it writes, the room that they need, and where it
-- reads.
use Prim.Native.Nat.{bit_and, bit_or}
use tnef.Prelude.{
  ℕ, zero, suc, ◌+◌, ◌*◌, ◌/◌, ◌%◌, ◌^◌, ◌<◌, ◌≤◌, ◌≡◌, ◌≢◌, refl, arith, List, [], ◌∷◌, ◌++◌,
  length, length-append, All, true, ltb, if◌then◌else◌, some, none, ◌==◌, ◌||◌, ◌-◌, false,
  Bool-cases, inl, inr,
}
use mathlib.Core.List.{append_assoc, append-nil}
use tnef.Prelude.Bits.{agree_below, agree_below→eq}
use tnef.Env.{Env}
use tnef.Outcome.{ok}
use tnef.Util.{Bytes, getint16, utf8_bytes, utf8_loop, unicode_to_utf8}
use tnef.Util.Reference.{
  is_surrogate, is_continuation, two_bytes, three_bytes, utf8_ref, decode_char, decode_chars,
  utf16_bytes, IsUnit16,
}

low7 : (c : ℕ) → c < 0x80 → bit_or 0x00 (bit_and c 0x007f) ≡ c
unfolding agree_below
low7 = agree_below→eq _ _ 0x80 refl

tail6 : (c : ℕ) → c < 0x10000 → bit_or 0x80 (bit_and c 0x003f) ≡ 0x80 + c % 64
unfolding agree_below
tail6 = agree_below→eq _ _ 0x10000 refl

lead2 : (c : ℕ) → c < 0x800 → bit_or 0xc0 (bit_and c 0x07c0 / 2 ^ 6) ≡ 0xc0 + c / 64
unfolding agree_below
lead2 = agree_below→eq _ _ 0x800 refl

middle6 : (c : ℕ) → c < 0x10000 → bit_or 0x80 (bit_and c 0x0fc0 / 2 ^ 6) ≡ 0x80 + c / 64 % 64
unfolding agree_below
middle6 = agree_below→eq _ _ 0x10000 refl

lead3 : (c : ℕ) → c < 0x10000 → bit_or 0xe0 (bit_and c 0xf000 / 2 ^ 12) ≡ 0xe0 + c / 4096
unfolding agree_below
lead3 = agree_below→eq _ _ 0x10000 refl

-- The three branches in plain arithmetic; they differ from UTF-8 at 0x7ff only.
utf8_bytes_arith :
    (c : ℕ)
    → IsUnit16 c
    → utf8_bytes c ≡ (
        if ltb c 0x80
        then c ∷ []
        else if ltb c 0x7ff
        then (0xc0 + c / 64) ∷ (0x80 + c % 64) ∷ []
        else (0xe0 + c / 4096) ∷ (0x80 + c / 64 % 64) ∷ (0x80 + c % 64) ∷ [])
unfolding utf8_bytes
utf8_bytes_arith c h = ground (arith, low7 c, tail6 c, lead2 c, middle6 c, lead3 c)

-- Each 16-bit code unit but 0x7ff and the halves of surrogate pairs is written as UTF-8 prescribes.
pub utf8_bytes-eq-utf8_ref :
    (c : ℕ) → IsUnit16 c → c ≢ 0x7ff → is_surrogate c ≡ false → utf8_bytes c ≡ utf8_ref c
utf8_bytes-eq-utf8_ref c h n s = rw (utf8_bytes_arith c h) (ground arith)

length-utf8_bytes : (c : ℕ) → length (utf8_bytes c) ≤ 3
unfolding utf8_bytes
length-utf8_bytes c = ground arith

continues : (n : ℕ) → n < 64 → is_continuation (0x80 + n) ≡ true
continues n h = ground arith

two_back :
    (c : ℕ) (rest : Bytes)
    → (0x80 ≤ c) × (c < 0x7ff)
    → two_bytes (0xc0 + c / 64) ((0x80 + c % 64) ∷ rest)
      ≡ (if c == 0x7ff || is_surrogate c then none else some (c, rest))
two_back c rest h =
    let e : (0xc0 + c / 64 - 0xc0) * 64 + (0x80 + c % 64 - 0x80) ≡ c = omega arith in
    rw (e, continues (c % 64) (omega arith)) (ground arith)

three_back :
    (c : ℕ) (rest : Bytes)
    → (0x7ff ≤ c) × (c < 0x10000)
    → three_bytes (0xe0 + c / 4096) ((0x80 + c / 64 % 64) ∷ (0x80 + c % 64) ∷ rest)
      ≡ (if c == 0x7ff || is_surrogate c then none else some (c, rest))
three_back c rest h =
    let e : (0xe0 + c / 4096 - 0xe0) * 4096
          + (0x80 + c / 64 % 64 - 0x80) * 64
          + (0x80 + c % 64 - 0x80)
        ≡ c =
      omega arith in
    let middle : is_continuation (0x80 + c / 64 % 64) ≡ true =
      continues (c / 64 % 64) (omega arith) in
    let last : is_continuation (0x80 + c % 64) ≡ true = continues (c % 64) (omega arith) in
    rw (e, middle, last) (ground arith)

decode_char-two : (a : ℕ) (p : Bytes) → 0xc0 ≤ a → a < 0xe0 → decode_char (a ∷ p) ≡ two_bytes a p
unfolding decode_char
decode_char-two a p h l = ground arith

decode_char-three :
    (a : ℕ) (p : Bytes) → 0xe0 ≤ a → a < 0xf0 → decode_char (a ∷ p) ≡ three_bytes a p
unfolding decode_char
decode_char-three a p h l = ground arith

-- A UTF-8 decoder takes back exactly the code units that are characters, but 0x7ff, which gets three
-- bytes where UTF-8 has two; what is written of it and of the halves of surrogate pairs is refused.
pub decode_char-utf8_bytes :
    (c : ℕ) (rest : Bytes)
    → IsUnit16 c
    → decode_char (utf8_bytes c ++ rest)
      ≡ (if c == 0x7ff || is_surrogate c then none else some (c, rest))
unfolding decode_char
decode_char-utf8_bytes c rest h = rw (utf8_bytes_arith c h) (elim (Bool-cases (ltb c 0x80)) [
  | inl one ↦ ground arith
  | inr more ↦ elim (Bool-cases (ltb c 0x7ff)) [
    | inl two ↦
        rw
          (
            more,
            two,
            decode_char-two (0xc0 + c / 64) ((0x80 + c % 64) ∷ rest) (ground arith) (ground arith),
          )
          (two_back c rest (ground arith, ground arith))
    | inr three ↦
        rw
          (
            more,
            three,
            decode_char-three (0xe0 + c / 4096) ((0x80 + c / 64 % 64) ∷ (0x80 + c % 64) ∷ rest)
                (ground arith) (ground arith),
          )
          (three_back c rest (ground arith, h))
  ]
])

-- A code unit that stands for a character, and not 0x7ff.
abbrev pub IsCharacter : ℕ → Type 0
IsCharacter u = IsUnit16 u × ((u == 0x7ff || is_surrogate u) ≡ false)

-- All that the loop writes for a list of code units.
abbrev pub utf8_all : List ℕ → Bytes
utf8_all [] = []
utf8_all (u ∷ us) = utf8_bytes u ++ utf8_all us

decode_chars-utf8_all :
    (us : List ℕ) (rest : Bytes)
    → All IsCharacter us
    → decode_chars (length us) (utf8_all us ++ rest) ≡ some (us, rest)
unfolding decode_chars
decode_chars-utf8_all [] rest h = refl
decode_chars-utf8_all (u ∷ us) rest ((hu, char), hus) = rw (
  append_assoc,
  decode_char-utf8_bytes u (utf8_all us ++ rest) hu,
  char,
  decode_chars-utf8_all us rest hus,
)

unit_value : (u : ℕ) → IsUnit16 u → (u % 256 + u / 256 * 2 ^ 8) % 2 ^ 16 ≡ u
unit_value u h = omega arith

utf8_loop-utf16_bytes :
    (us : List ℕ) (rest : Bytes)
    → All IsUnit16 us
    → utf8_loop (length (utf16_bytes us)) (utf16_bytes us ++ rest) ≡ ok (utf8_all us)
unfolding utf8_loop getint16
utf8_loop-utf16_bytes [] rest h = refl
utf8_loop-utf16_bytes (u ∷ us) rest (hu, hus) =
    rw (unit_value u hu, utf8_loop-utf16_bytes us rest hus)

pub unicode_to_utf8-utf16_bytes :
    (env : Env) (us : List ℕ) (rest : Bytes)
    → env.malloc (3 * length (utf16_bytes us) / 2 + 1) ≡ true
    → All IsUnit16 us
    → unicode_to_utf8 env (length (utf16_bytes us)) (utf16_bytes us ++ rest)
      ≡ ok (utf8_all us ++ 0 ∷ [])
unfolding unicode_to_utf8
unicode_to_utf8-utf16_bytes env us rest m h = rw (utf8_loop-utf16_bytes us rest h, m)

units : (us : List ℕ) → All IsCharacter us → All IsUnit16 us
units [] h = tt
units (u ∷ us) ((hu, char), hus) = (hu, units us hus)

-- Text in UTF-16 without surrogates and 0x7ff, whatever follows it in the block, comes back as a
-- string with a terminating 0, from which a UTF-8 decoder reads the same characters and nothing more,
-- if the block for it can be allocated and the text is short enough for the offsets of type `int`.
pub unicode_to_utf8-decode :
    (env : Env) (us : List ℕ) (rest : Bytes)
    → env.malloc (3 * length (utf16_bytes us) / 2 + 1) ≡ true
    → length (utf16_bytes us) < 2 ^ 30
    → All IsCharacter us
    → (s : Bytes) × (unicode_to_utf8 env (length (utf16_bytes us)) (utf16_bytes us ++ rest)
        ≡ ok (s ++ 0 ∷ []))
      × (decode_chars (length us) s ≡ some (us, []))
unicode_to_utf8-decode env us rest m short h = (
  utf8_all us,
  unicode_to_utf8-utf16_bytes env us rest m (units us h),
  rw (← append-nil (utf8_all us)) (decode_chars-utf8_all us [] h),
)

-- The loop reads at most `len` bytes, and writes at most three for each two that it reads.
pub utf8_loop_bounds :
    (len : ℕ) (buf : Bytes)
    → len ≤ length buf
    → (s : Bytes) × (utf8_loop len buf ≡ ok s) × (length s ≤ 3 * len / 2)
unfolding utf8_loop getint16
utf8_loop_bounds zero buf h = ([], refl, omega arith)
utf8_loop_bounds (suc zero) buf h = ([], refl, omega arith)
utf8_loop_bounds (suc (suc left)) (a ∷ b ∷ buf) h =
    let (s, e, l) = utf8_loop_bounds left buf (omega arith) in
    let c = (a + b * 2 ^ 8) % 2 ^ 16 in
    (utf8_bytes c ++ s, rw e, omega (arith, length-append (utf8_bytes c) s, length-utf8_bytes c))
utf8_loop_bounds (suc (suc left)) [] h = absurd (omega arith)
utf8_loop_bounds (suc (suc left)) (a ∷ []) h = absurd (omega arith)

pub unicode_to_utf8_returns :
    (env : Env) (len : ℕ) (buf : Bytes)
    → env.malloc (3 * len / 2 + 1) ≡ true
    → len ≤ length buf
    → (s : Bytes) × (unicode_to_utf8 env len buf ≡ ok s) × (length s ≤ 3 * len / 2 + 1)
unfolding unicode_to_utf8
unicode_to_utf8_returns env len buf m h =
    let (s, e, l) = utf8_loop_bounds len buf h in
    (s ++ 0 ∷ [], rw (e, m), omega (arith, length-append s (0 ∷ [])))

-- For every length below 2 ^ 30, odd ones too: `unicode_to_utf8` on a block of at least `len` bytes
-- returns, what it writes fits the `3 * len / 2 + 1` bytes that it allocates, if they can be
-- allocated, and that is below 2 ^ 31, so its offsets of type `int` do not overflow.
pub unicode_to_utf8_bounds :
    (env : Env) (len : ℕ) (buf : Bytes)
    → env.malloc (3 * len / 2 + 1) ≡ true
    → len ≤ length buf
    → len < 2 ^ 30
    → (s : Bytes) × (unicode_to_utf8 env len buf ≡ ok s)
      × (length s ≤ 3 * len / 2 + 1)
      × (3 * len / 2 + 1 < 2 ^ 31)
unicode_to_utf8_bounds env len buf m h short =
    let (s, e, l) = unicode_to_utf8_returns env len buf m h in (s, e, l, omega arith)
