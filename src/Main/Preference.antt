-- ===== src/Main/Preference.antt =====
-- What src/main.c makes of --body-pref: whatever the options, `parse_file` gets a valid preference.
use tnef.Prelude.{
  length-map, ℕ, ◌≡◌, ◌⊎◌, ◌≤◌, inl, inr, refl, arith, Bool, true, false, ◌||◌, List, [], ◌∷◌,
  Option, none, some, map, length, ltb, ◌==◌, All, ascii,
}
use tnef.Outcome.{ok}
use tnef.Outcome.Post.{Post, Any, bind, returns, stops, anyhow, if_Post, of_ok}
use tnef.Path.{Str}
use tnef.File.{str_eq}
use tnef.File.Disk.{str_eq_sound}
use tnef.Tnef.Save.{all_pref, every_body}
use tnef.Main.{
  Opt, Cmdline, Action, raise, save_body, set_body_pref, set_in_file, set_out_dir, set_max_size,
  leave, is_body, all_bodies, validate_body_pref, to_lower, action, input_of, size_of, act,
  take_options, defaults, take_operands, parse_cmdline,
}

abbrev pub IsLetter : ℕ → Type 0
IsLetter c = (c ≡ b'r') ⊎ (c ≡ b'h') ⊎ (c ≡ b't')

-- What the manual allows for --body-pref: "all", or one to three letters of "rht".
abbrev pub IsPref : Str → Type 0
IsPref pref = ((pref ≡ ascii "all") ⊎ All IsLetter pref) × (1 ≤ length pref) × (length pref ≤ 3)

is_body-IsLetter : (c : ℕ) → is_body c ≡ true → IsLetter c
unfolding is_body
is_body-IsLetter c on = ground arith

all_bodies-IsLetter : (pref : Str) → all_bodies pref ≡ true → All IsLetter pref
unfolding all_bodies
all_bodies-IsLetter [] on = tt
all_bodies-IsLetter (c ∷ pref) on =
    (is_body-IsLetter c (ground arith), all_bodies-IsLetter pref (ground arith))

or-cases : (b c : Bool) → (b || c) ≡ true → (b ≡ true) ⊎ (c ≡ true)
or-cases true c on = inl refl
or-cases false c on = inr on

size-cases : (n : ℕ) → (n == 0 || ltb 3 n) ≡ false → (1 ≤ n) × (n ≤ 3)
size-cases n off = (ground arith, ground arith)

pref-cases :
    (pref : Str)
    → (str_eq pref all_pref || all_bodies pref) ≡ true
    → (pref ≡ ascii "all") ⊎ All IsLetter pref
pref-cases pref on = elim (or-cases (str_eq pref all_pref) (all_bodies pref) on) [
  | inl same ↦ inl (str_eq_sound pref all_pref same)
  | inr all ↦ inr (all_bodies-IsLetter pref all)
]

validate_body_pref-IsPref : (optarg : Option Str) → Post IsPref Any (validate_body_pref optarg)
unfolding validate_body_pref
validate_body_pref-IsPref none = stops tt
validate_body_pref-IsPref (some optarg) =
    if_Post _ _ _ (λ _. stops tt)
      λ fits.
        if_Post _ _ _
          (λ valid.
            let (some_letter, few) = size-cases (length optarg) fits in
            let same = length-map to_lower optarg in
            returns (pref-cases (map to_lower optarg) valid, omega arith, omega arith))
          λ _. stops tt

default-IsPref : IsPref every_body
default-IsPref = (inr (inl refl, (inr (inl refl), (inr (inr refl), tt))), omega arith, omega arith)

module _ (strtoul : Str → ℕ × Str) where
  act-IsPref :
      (c : Cmdline) (optarg : Option Str) (a : Action)
      → IsPref c.body_pref
      → Post (λ c'. IsPref c'.body_pref) Any (act strtoul c optarg a)
  unfolding act
  act-IsPref c optarg (raise mask) h = returns h
  act-IsPref c optarg save_body h = returns h
  act-IsPref c optarg set_body_pref h =
      bind _ _ (validate_body_pref-IsPref optarg) λ pref valid. returns valid
  act-IsPref c optarg set_in_file h = bind _ _ (anyhow (input_of optarg)) λ in_file _. returns h
  act-IsPref c optarg set_out_dir h = returns h
  act-IsPref c optarg set_max_size h =
      bind _ _ (anyhow (size_of strtoul optarg)) λ size _. returns h
  act-IsPref c optarg (leave h') h = stops tt

  take_options-IsPref :
      (c : Cmdline) (opts : List Opt)
      → IsPref c.body_pref
      → Post (λ c'. IsPref c'.body_pref) Any (take_options strtoul c opts)
  unfolding take_options
  take_options-IsPref c [] h = returns h
  take_options-IsPref c (o ∷ opts) h =
      bind _ _ (act-IsPref c o.optarg (action o) h) λ c' h'. take_options-IsPref c' opts h'

  take_operands-IsPref :
      (c : Cmdline) (operands : List Str)
      → IsPref c.body_pref
      → IsPref (take_operands c operands).body_pref
  take_operands-IsPref c [] h = h
  take_operands-IsPref c (operand ∷ operands) h = h

  -- If `parse_cmdline` returns, `body_pref` is "all" or has one to three letters, each of them `r`,
  -- `h` or `t`, whatever the options and the operands were.
  pub parse_cmdline-IsPref :
      (opts : List Opt) (operands : List Str) {c : Cmdline}
      → parse_cmdline strtoul opts operands ≡ ok c
      → IsPref c.body_pref
  unfolding parse_cmdline
  parse_cmdline-IsPref opts operands {c} e =
      of_ok {P = λ c'. IsPref c'.body_pref} _ c
        (bind _ _ (take_options-IsPref defaults opts default-IsPref)
          λ c' h. returns (take_operands-IsPref c' operands h))
        e
