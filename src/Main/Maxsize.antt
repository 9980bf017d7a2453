-- ===== src/Main/Maxsize.antt =====
-- What src/main.c makes of --maxsize, and what the allocators of src/alloc.c then hold it against.
use tnef.Prelude.{
  ℕ, ◌%◌, ◌^◌, ◌≡◌, ◌≤◌, ◌<◌, refl, arith, Bool, not, ◌==◌, leb, List, [], ◌∷◌, ◌++◌, some, length,
}
use tnef.Outcome.{ok}
use tnef.Outcome.Post.{Post, Any, bind, returns, stops, anyhow, if_Post, of_ok}
use tnef.Env.{Env}
use tnef.Alloc.{alloc_limit_assert}
use tnef.Path.{Str}
use tnef.Main.{
  Opt, Cmdline, action, set_max_size, size_of, act, take_options, defaults, take_operands,
  parse_cmdline, env_of,
}

module _ (strtoul : Str → ℕ × Str) where
  -- The last option has the last word.
  take_options_last :
      (P : Cmdline → Type 0) (c : Cmdline) (before : List Opt) (o : Opt)
      → ((c : Cmdline) → Post P Any (act strtoul c o.optarg (action o)))
      → Post P Any (take_options strtoul c (before ++ o ∷ []))
  unfolding take_options
  take_options_last P c [] o last = bind _ _ (last c) λ c' p. returns p
  take_options_last P c (b ∷ before) o last =
      bind _ _ (anyhow (act strtoul c b.optarg (action b)))
        λ c' _. take_options_last P c' before o last

  abbrev Limits : ℕ → ℕ → Type 0
  Limits size max_size =
      (size % 2 ^ 32 < 2 ^ 31 → max_size ≡ size) × (2 ^ 31 ≤ size % 2 ^ 32 → max_size ≡ 0)

  size_of-Limits :
      (optarg : Str) → Post (Limits ((strtoul optarg).0)) Any (size_of strtoul (some optarg))
  unfolding size_of
  size_of-Limits optarg =
      if_Post (not (length ((strtoul optarg).1) == 0)) _ _ (λ _. stops tt)
        λ _.
          if_Post (leb (2 ^ 31) ((strtoul optarg).0 % 2 ^ 32)) _ _
            (λ negative. returns ((λ small. ground arith), λ _. refl))
            λ positive. returns ((λ _. refl), λ large. ground arith)

  take_operands-Limits :
      (size : ℕ) (c : Cmdline) (operands : List Str)
      → Limits size c.max_size
      → Limits size (take_operands c operands).max_size
  take_operands-Limits size c [] h = h
  take_operands-Limits size c (operand ∷ operands) h = h

  unlimited : (env : Env) (n : ℕ) → env.alloc_limit ≡ 0 → alloc_limit_assert env n ≡ ok tt
  unfolding alloc_limit_assert
  unlimited env n e = rw e refl

  -- If --maxsize is the last option, its value is `size` as `strtoul` reads it, and `parse_cmdline`
  -- returns: where bit 31 of `size` is clear, `size` is the limit; where it is set, the allocators
  -- are held to no limit.
  pub parse_cmdline_maxsize :
      (malloc : ℕ → Bool) (before : List Opt) (o : Opt) (optarg : Str) (operands : List Str)
      {c : Cmdline}
      → action o ≡ set_max_size
      → o.optarg ≡ some optarg
      → parse_cmdline strtoul (before ++ o ∷ []) operands ≡ ok c
      → ((strtoul optarg).0 % 2 ^ 32 < 2 ^ 31 → c.max_size ≡ (strtoul optarg).0)
        × (2 ^ 31 ≤ (strtoul optarg).0 % 2 ^ 32
            → (n : ℕ) → alloc_limit_assert (env_of malloc c) n ≡ ok tt)
  unfolding parse_cmdline act
  parse_cmdline_maxsize malloc before o optarg operands {c} sets given e =
      let limits =
        of_ok {P = λ c'. Limits ((strtoul optarg).0) c'.max_size} _ c
          (bind _ _
            (take_options_last (λ c'. Limits ((strtoul optarg).0) c'.max_size) defaults before o
              λ c'. rw (sets, given) (bind _ _ (size_of-Limits optarg) λ size l. returns l))
            λ c' l. returns (take_operands-Limits ((strtoul optarg).0) c' operands l))
          e in
      (limits.0, λ large n. unlimited (env_of malloc c) n (limits.1 large))
