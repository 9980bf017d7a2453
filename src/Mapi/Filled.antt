-- ===== src/Mapi/Filled.antt =====
-- The values that src/mapi_attr.c sets, one by one, and the types that it has several values of.
use tnef.Prelude.{
  ℕ, zero, suc, ◌+◌, ◌*◌, ◌/◌, ◌≡◌, ◌≤◌, refl, arith, Bool, true, false, not, ◌||◌, List, [], ◌∷◌,
  ◌++◌, Option, none, some, length, take, drop, ◌⊎◌, ◌==◌, All, leb,
}
use tnef.Outcome.{assert}
use tnef.Outcome.Post.{Post, Any, bind, seq, returns, stops, anyhow, weaken, if_Post}
use tnef.Env.{Env, flag_on, encode_ok}
use tnef.Alloc.{checked_xmalloc, access}
use tnef.Util.{Bytes, utf8_loop, unicode_to_utf8}
use tnef.Mapi.Types.{Content, cleared, MapiValue}
use tnef.Mapi.Header.{read_bytes, next16, next32, copy_guid_from_buf, size_left}
use tnef.Mapi.{Step, read_pair, read_block, read_buffer, read_value, blank}
use tnef.Mapi.Fits.{Shaped, Terminated, is_text}

abbrev is_cleared : Content → Bool
is_cleared cleared = true
is_cleared _ = false

-- Set, to what the type asks for.
abbrev pub SetTo : ℕ → MapiValue → Type 0
SetTo type v = Shaped type v × (is_cleared v.content ≡ false)

abbrev pub IsBlank : MapiValue → Type 0
IsBlank v = v ≡ blank

-- The types of which several values occur: the INT, the SYSTIME, the two strings, the object and the
-- binary.
abbrev pub several : ℕ → Bool
several type = type == 3 || type == 64 || (type == 30 || type == 31 || type == 13 || type == 258)

abbrev pub Full : ℕ → List MapiValue → Type 0
Full type values =
    ((several type ≡ true) × All (SetTo type) values)
    ⊎ ((several type ≡ false) × All (SetTo type) (take 1 values) × All IsBlank (drop 1 values))

-- What is read is set, and `v++` follows where several values occur.
abbrev pub Read : ℕ → Option Step → Type 0
Read type none = Unit
Read type (some (x, idx, advance)) = SetTo type x × (advance ≡ several type)

pub unicode_to_utf8-Terminated :
    (env : Env) (n : ℕ) (p : Bytes) → Post Terminated Any (unicode_to_utf8 env n p)
unfolding unicode_to_utf8
unicode_to_utf8-Terminated env n p =
    bind _ _ (anyhow (utf8_loop n p))
      λ utf8 _. if_Post (env.malloc (3 * n / 2 + 1)) _ _ (λ _. returns (utf8, refl)) λ _. stops tt

read_bytes-length : (n : ℕ) (p : Bytes) → Post (λ s. length s ≡ n) Any (read_bytes n p)
unfolding read_bytes
read_bytes-length zero p = returns refl
read_bytes-length (suc n) [] = stops tt
read_bytes-length (suc n) (b ∷ p) = bind _ _ (read_bytes-length n p) λ s e. returns (omega arith)

-- What a block holds, and how long it is where it is not a string that `unicode_to_utf8` made.
abbrev Held : ℕ → ℕ → Bytes → Type 0
Held type n bytes = Terminated bytes × (is_text type ≡ false → n ≤ length bytes)

longer : (s : Bytes) → length s ≤ length (s ++ 0 ∷ [])
longer [] = omega arith
longer (b ∷ s) = omega (arith, longer s)

module _ (env : Env) (buf : Bytes) (len : ℕ) where
  read_block-Held : (type n idx : ℕ) → Post (Held type n) Any (read_block env buf type n idx)
  unfolding read_block
  read_block-Held type n idx =
      if_Post (type == 31) _ _
        (λ unicode. seq _ _ (anyhow (assert (not (n == 0)))) λ _.
          weaken _ (λ _ t. (t, λ other. absurd (ground arith)))
            (unicode_to_utf8-Terminated env n (drop idx buf)))
        λ _. bind _ _ (anyhow (checked_xmalloc env n 1 1)) λ p _. seq _ _ (anyhow (access p)) λ _.
          bind _ _ (read_bytes-length n (drop idx buf))
            λ s e. returns ((s, refl), λ _. omega (arith, longer s))

  read_buffer-Read :
      (type idx : ℕ)
      → (type == 30 || type == 31 || type == 13 || type == 258) ≡ true
      → Post (Read type) Any (read_buffer env buf len type idx)
  unfolding read_buffer
  read_buffer-Read type idx t = bind _ _ (anyhow (next32 buf len idx)) λ n _.
      seq _ _ (anyhow (assert (leb (n + (idx + 4)) len))) λ _.
        bind _ _ (read_block-Held type n (idx + 4))
          λ bytes held. returns (((ground arith, held.0, held.1), refl), ground arith)

  read_pair-Read :
      (type idx : ℕ) (advance : Bool)
      → (type == 64 || type == 5 || type == 7 || type == 6 || type == 20) ≡ true
      → advance ≡ several type
      → Post (Read type) Any (read_pair buf len idx advance)
  unfolding read_pair
  read_pair-Read type idx advance t goes_on =
      bind _ _ (anyhow (next32 buf len idx))
        λ low _. bind _ _ (anyhow (next32 buf len (idx + 4))) λ high _. returns ((t, refl), goes_on)

  pub read_value-Read : (type idx : ℕ) → Post (Read type) Any (read_value env buf len type idx)
  unfolding read_value
  read_value-Read type idx =
      if_Post (type == 2) _ _
        (λ t.
          bind _ _ (anyhow (next16 buf len idx))
            λ x _. returns ((ground arith, refl), ground arith))
        λ _.
          if_Post (type == 3) _ _
            (λ t.
              bind _ _ (anyhow (next32 buf len idx))
                λ x _. returns ((ground arith, refl), ground arith))
            λ _.
              if_Post (type == 4 || type == 11) _ _
                (λ t.
                  bind _ _ (anyhow (next32 buf len idx))
                    λ x _. returns ((ground arith, refl), ground arith))
                λ _.
                  if_Post (type == 64) _ _
                    (λ t. read_pair-Read type idx true (ground arith) (ground arith))
                    λ _.
                      if_Post (type == 5 || type == 7 || type == 6 || type == 20) _ _
                        (λ t. read_pair-Read type idx false (ground arith) (ground arith))
                        λ _.
                          if_Post (type == 72) _ _
                            (λ t.
                              bind _ _
                                (anyhow (copy_guid_from_buf (drop idx buf) (size_left len idx)))
                                λ guid _. returns ((ground arith, refl), ground arith))
                            λ _.
                              if_Post (type == 30 || type == 31 || type == 13 || type == 258) _ _
                                (λ t. read_buffer-Read type idx t)
                                λ _.
                                  if_Post (flag_on env encode_ok) _ _ (λ _. returns tt)
                                    λ _. stops tt
