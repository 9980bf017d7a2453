-- ===== src/Main/Options.antt =====
-- What the options of src/main.c come to: flags are only ever added, and the body preference is valid.
use Prim.Native.Nat.{bit_and}
use tnef.Prelude.{
  ℕ, ◌≡◌, ◌≢◌, refl, Bool, true, false, ◌&&◌, List, [], ◌∷◌, ◌++◌, Option, ◌==◌, if◌then◌else◌,
  ascii, All,
}
use tnef.Prelude.Masks.{bit_and-bit_or}
use tnef.Outcome.Post.{Post, Any, bind, returns, stops, anyhow}
use tnef.Env.{savebody, overwrite}
use tnef.Path.{Str}
use tnef.File.{str_eq}
use tnef.Main.{
  Opt, Cmdline, Action, raise, save_body, set_body_pref, set_in_file, set_out_dir, set_max_size,
  leave, validate_body_pref, long_action, action, input_of, size_of, act, take_options,
}

-- `--overwrite`
abbrev pub is_overwrite : Opt → Bool
is_overwrite o = o.val == 0 && str_eq o.name (ascii "overwrite")

abbrev pub Has : ℕ → Cmdline → Type 0
Has g c = bit_and c.flags g ≢ 0

abbrev pub Lacks : ℕ → Cmdline → Type 0
Lacks g c = bit_and c.flags g ≡ 0

-- The action does not set a bit of `g`.
abbrev pub Spares : ℕ → Action → Type 0
Spares g (raise mask) = bit_and mask g ≡ 0
Spares g save_body = bit_and savebody g ≡ 0
Spares g _ = Unit

module _ (strtoul : Str → ℕ × Str) where
  pub act-Has :
      (g : ℕ) (c : Cmdline) (optarg : Option Str) (a : Action)
      → Has g c
      → Post (Has g) Any (act strtoul c optarg a)
  unfolding act
  act-Has g c optarg (raise mask) h = returns (λ e. h ((bit_and-bit_or c.flags mask g).0 e).0)
  act-Has g c optarg save_body h = returns (λ e. h ((bit_and-bit_or c.flags savebody g).0 e).0)
  act-Has g c optarg set_body_pref h =
      bind _ _ (anyhow (validate_body_pref optarg)) λ pref _. returns h
  act-Has g c optarg set_in_file h = bind _ _ (anyhow (input_of optarg)) λ in_file _. returns h
  act-Has g c optarg set_out_dir h = returns h
  act-Has g c optarg set_max_size h = bind _ _ (anyhow (size_of strtoul optarg)) λ size _. returns h
  act-Has g c optarg (leave h') h = stops tt

  pub act-Lacks :
      (g : ℕ) (c : Cmdline) (optarg : Option Str) (a : Action)
      → Spares g a
      → Lacks g c
      → Post (Lacks g) Any (act strtoul c optarg a)
  unfolding act
  act-Lacks g c optarg (raise mask) s h = returns ((bit_and-bit_or c.flags mask g).1 (h, s))
  act-Lacks g c optarg save_body s h = returns ((bit_and-bit_or c.flags savebody g).1 (h, s))
  act-Lacks g c optarg set_body_pref s h =
      bind _ _ (anyhow (validate_body_pref optarg)) λ pref _. returns h
  act-Lacks g c optarg set_in_file s h = bind _ _ (anyhow (input_of optarg)) λ in_file _. returns h
  act-Lacks g c optarg set_out_dir s h = returns h
  act-Lacks g c optarg set_max_size s h =
      bind _ _ (anyhow (size_of strtoul optarg)) λ size _. returns h
  act-Lacks g c optarg (leave h') s h = stops tt

  pub take_options-Has :
      (g : ℕ) (c : Cmdline) (opts : List Opt)
      → Has g c
      → Post (Has g) Any (take_options strtoul c opts)
  unfolding take_options
  take_options-Has g c [] h = returns h
  take_options-Has g c (o ∷ opts) h =
      bind _ _ (act-Has g c o.optarg (action o) h) λ c' h'. take_options-Has g c' opts h'

  pub take_options-Lacks :
      (g : ℕ) (c : Cmdline) (opts : List Opt)
      → All (λ o. Spares g (action o)) opts
      → Lacks g c
      → Post (Lacks g) Any (take_options strtoul c opts)
  unfolding take_options
  take_options-Lacks g c [] s h = returns h
  take_options-Lacks g c (o ∷ opts) (so, s) h =
      bind _ _ (act-Lacks g c o.optarg (action o) so h) λ c' h'. take_options-Lacks g c' opts s h'

  -- A flag that one option raises is on in the end.
  pub take_options-raise :
      (g : ℕ) (c : Cmdline) (before : List Opt) (o : Opt) (after : List Opt) {mask : ℕ}
      → action o ≡ raise mask
      → bit_and mask g ≢ 0
      → Post (Has g) Any (take_options strtoul c (before ++ o ∷ after))
  unfolding take_options act
  take_options-raise g c [] o after {mask} e set =
      rw e (take_options-Has g _ after (λ u. set ((bit_and-bit_or c.flags mask g).0 u).1))
  take_options-raise g c (b ∷ before) o after e set =
      bind _ _ (anyhow (act strtoul c b.optarg (action b)))
        λ c' _. take_options-raise g c' before o after e set

-- `Spares`, for the branches of a test.
data Mild (g : ℕ) (a : Action) : Type 0 where
  mild : Spares g a → Mild g a

mildness : {g : ℕ} {a : Action} → Mild g a → Spares g a
mildness (mild s) = s

if_Mild :
    {g : ℕ} (b : Bool) {x y : Action}
    → (b ≡ true → Mild g x)
    → (b ≡ false → Mild g y)
    → Mild g (if b then x else y)
if_Mild true f h = f refl
if_Mild false f h = h refl

not_both : {b : Bool} (a : Action) → b ≡ false → b ≡ true → Mild overwrite a
not_both a off on = cc

off_name : (b c : Bool) → (b && c) ≡ false → b ≡ true → c ≡ false
off_name true c off on = off
off_name false c off on = cc

long_action-Mild :
    (name : Str) → str_eq name (ascii "overwrite") ≡ false → Mild overwrite (long_action name)
unfolding long_action
long_action-Mild name off =
    if_Mild (str_eq name (ascii "debug")) (λ _. mild refl)
      λ _.
        if_Mild (str_eq name (ascii "use-paths")) (λ _. mild refl)
          λ _.
            if_Mild (str_eq name (ascii "unix-paths")) (λ _. mild refl)
              λ _.
                if_Mild (str_eq name (ascii "allow-absolute-paths")) (λ _. mild refl)
                  λ _. if_Mild (str_eq name (ascii "overwrite")) (not_both _ off) λ _.
                    if_Mild (str_eq name (ascii "number-backups")) (λ _. mild refl)
                      λ _.
                        if_Mild (str_eq name (ascii "save-body")) (λ _. mild refl)
                          λ _.
                            if_Mild (str_eq name (ascii "body-pref")) (λ _. mild tt)
                              λ _.
                                if_Mild (str_eq name (ascii "list-with-mime-types"))
                                  (λ _. mild refl)
                                  λ _.
                                    if_Mild (str_eq name (ascii "ignore-encode")) (λ _. mild refl)
                                      λ _.
                                        if_Mild (str_eq name (ascii "ignore-cruft"))
                                          (λ _. mild refl) λ _. mild tt

action-Mild : (o : Opt) → is_overwrite o ≡ false → Mild overwrite (action o)
unfolding action
action-Mild o off =
    if_Mild (o.val == 0) (λ long. long_action-Mild o.name (off_name _ _ off long))
      λ _.
        if_Mild (o.val == b'V') (λ _. mild tt)
          λ _.
            if_Mild (o.val == b'v') (λ _. mild refl)
              λ _.
                if_Mild (o.val == b'f') (λ _. mild tt)
                  λ _.
                    if_Mild (o.val == b'C') (λ _. mild tt)
                      λ _.
                        if_Mild (o.val == b'x') (λ _. mild tt)
                          λ _.
                            if_Mild (o.val == b'h') (λ _. mild tt)
                              λ _.
                                if_Mild (o.val == b't') (λ _. mild refl)
                                  λ _.
                                    if_Mild (o.val == b'w') (λ _. mild refl)
                                      λ _.
                                        if_Mild (o.val == b'K') (λ _. mild refl)
                                          λ _. if_Mild (o.val == b'?') (λ _. mild tt) λ _. mild tt

pub All-Spares :
    (opts : List Opt)
    → All (λ o. is_overwrite o ≡ false) opts
    → All (λ o. Spares overwrite (action o)) opts
All-Spares [] off = tt
All-Spares (o ∷ opts) (off, offs) = (mildness (action-Mild o off), All-Spares opts offs)
