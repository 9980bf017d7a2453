-- ===== src/Path/Sanitize.antt =====
-- `sanitize_filename` of src/path.c: what it lets through, the room that it needs, and that names
-- stay apart.
use tnef.Prelude.{
  ℕ, ◌+◌, ◌*◌, ◌/◌, ◌%◌, ◌^◌, ◌<◌, ◌≤◌, ◌≡◌, refl, arith, Bool, true, false, not, ◌||◌, ◌&&◌, List,
  [], ◌∷◌, ◌++◌, get_or, length, length-append, All, ◌==◌, ltb, if◌then◌else◌, Bool-cases, inl, inr,
}
use tnef.Prelude.Bits.{agree_below, agree_below→eq}
use tnef.Path.{
  Str, contains, is_cntrl, is_ascii, unsanitary_windows_chars, unsavory_unix_chars, hex_digits,
  must_escape, sanitize_char, sanitize_filename,
}

-- A character that a file name may hold: no control character and none of the Windows characters
-- (`/` and `\` are two of them), and with --unix-paths an ASCII character that a shell leaves alone.
unfoldable pub allowed : Bool → ℕ → Bool
allowed unix_fs c =
    not (is_cntrl c)
    && not (contains c unsanitary_windows_chars)
    && (not unix_fs || (is_ascii c && not (contains c unsavory_unix_chars)))

abbrev pub Allowed : Bool → ℕ → Type 0
Allowed unix_fs c = allowed unix_fs c ≡ true

abbrev flag : Bool → ℕ
flag true = 1
flag false = 0

hex_table : (n : ℕ) → n < 16 → flag (allowed true (get_or hex_digits n 0)) ≡ 1
unfolding agree_below allowed contains
hex_table = agree_below→eq (λ n. flag (allowed true (get_or hex_digits n 0))) (λ _. 1) 16 refl

weaker : (unix_fs : Bool) (c : ℕ) → flag (allowed true c) ≡ 1 → Allowed unix_fs c
unfolding allowed
weaker unix_fs c h = ground arith

kept : (unix_fs : Bool) (c : ℕ) → must_escape unix_fs c ≡ false → Allowed unix_fs c
unfolding allowed must_escape
kept unix_fs c h = ground arith

All-append {ℓ κ} :
    {A : Type ℓ} (P : A → Type κ) (xs ys : List A) → All P xs → All P ys → All P (xs ++ ys)
All-append P [] ys h k = k
All-append P (x ∷ xs) ys (hx, hxs) k = (hx, All-append P xs ys hxs k)

sanitize_char-Allowed : (unix_fs : Bool) (c : ℕ) → All (Allowed unix_fs) (sanitize_char unix_fs c)
unfolding sanitize_char
sanitize_char-Allowed unix_fs c = elim (Bool-cases (must_escape unix_fs c)) [
  | inl yes_escape ↦ rw yes_escape (
    weaker unix_fs b'%' (unfold allowed contains in refl),
    (
      weaker unix_fs _ (hex_table (c / 2 ^ 4 % 2 ^ 4) (omega arith)),
      (weaker unix_fs _ (hex_table (c % 2 ^ 4) (omega arith)), tt),
    ),
  )
  | inr keep ↦ rw keep (kept unix_fs c keep, tt)
]

-- Every character of the result may stand in a file name, whatever the name was.
pub sanitize_filename-Allowed :
    (unix_fs : Bool) (fname : Str) → All (Allowed unix_fs) (sanitize_filename unix_fs fname)
unfolding sanitize_filename
sanitize_filename-Allowed unix_fs [] = tt
sanitize_filename-Allowed unix_fs (c ∷ s) =
    All-append (Allowed unix_fs) (sanitize_char unix_fs c) (sanitize_filename unix_fs s)
      (sanitize_char-Allowed unix_fs c) (sanitize_filename-Allowed unix_fs s)

length-sanitize_char :
    (unix_fs : Bool) (c : ℕ)
    → (1 ≤ length (sanitize_char unix_fs c)) × (length (sanitize_char unix_fs c) ≤ 3)
unfolding sanitize_char
length-sanitize_char unix_fs c = ground arith

-- The result and its terminating 0 fit the buffer of `3 * strlen (fname) + SLOP` characters, and it
-- is no shorter than the name.
pub length-sanitize_filename :
    (unix_fs : Bool) (fname : Str)
    → (length fname ≤ length (sanitize_filename unix_fs fname))
      × (length (sanitize_filename unix_fs fname) + 1 ≤ 3 * length fname + 4)
unfolding sanitize_filename
length-sanitize_filename unix_fs [] = omega arith
length-sanitize_filename unix_fs (c ∷ s) = omega (
  arith,
  length-append (sanitize_char unix_fs c) (sanitize_filename unix_fs s),
  length-sanitize_char unix_fs c,
  length-sanitize_filename unix_fs s,
)

abbrev pub hex_value : ℕ → ℕ
hex_value h = if ltb h 58 then (h + 208) % 256 else (h + 201) % 256

-- Takes `%XX` back.
unfoldable pub unescape : Str → Str
unescape [] = []
unescape (x ∷ h ∷ l ∷ s) = elim (x == b'%') [
  | true ↦ (hex_value h * 16 + hex_value l) ∷ unescape s
  | false ↦ x ∷ unescape (h ∷ l ∷ s)
]
unescape (x ∷ s) = x ∷ unescape s

unescape_other : (x : ℕ) (s : Str) → (x == b'%') ≡ false → unescape (x ∷ s) ≡ x ∷ unescape s
unfolding unescape
unescape_other x [] h = refl
unescape_other x (y ∷ []) h = refl
unescape_other x (y ∷ z ∷ s) h = rw (h, unescape)

hex_pair :
    (c : ℕ)
    → c < 256
    → hex_value (get_or hex_digits (c / 2 ^ 4 % 2 ^ 4) 0) * 16
        + hex_value (get_or hex_digits (c % 2 ^ 4) 0)
      ≡ c
unfolding agree_below
hex_pair = agree_below→eq _ _ 256 refl

not_percent : (unix_fs : Bool) (c : ℕ) → must_escape unix_fs c ≡ false → (c == b'%') ≡ false
unfolding must_escape
not_percent unix_fs c h = ground arith

unescape-sanitize_char :
    (unix_fs : Bool) (c : ℕ) (s : Str)
    → c < 256
    → unescape (sanitize_char unix_fs c ++ s) ≡ c ∷ unescape s
unfolding sanitize_char
unescape-sanitize_char unix_fs c s hc = elim (Bool-cases (must_escape unix_fs c)) [
  | inl escaped ↦ rw escaped (unfold unescape in rw (hex_pair c hc))
  | inr keep ↦ rw keep (unescape_other c s (not_percent unix_fs c keep))
]

-- The escapes in a sanitized name of bytes can be taken back: `unescape` gives the name again.
pub unescape-sanitize_filename :
    (unix_fs : Bool) (fname : Str)
    → All (λ c. c < 256) fname
    → unescape (sanitize_filename unix_fs fname) ≡ fname
unfolding sanitize_filename
unescape-sanitize_filename unix_fs [] h = unfold unescape in refl
unescape-sanitize_filename unix_fs (c ∷ s) (hc, hs) = rw (
  unescape-sanitize_char unix_fs c (sanitize_filename unix_fs s) hc,
  unescape-sanitize_filename unix_fs s hs,
)
