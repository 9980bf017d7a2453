-- ===== src/Mapi/Fits.antt =====
-- The values that src/mapi_attr.c reads fit the type of their property: what can then be read of them.
use tnef.Prelude.{
  ℕ, zero, suc, ◌≡◌, ◌≢◌, ◌≤◌, refl, arith, Bool, true, false, ◌||◌, [], ◌∷◌, ◌++◌, length, ◌==◌,
}
use tnef.Outcome.{Halt, Result, ok, halt}
use tnef.Outcome.Post.{Post, bind, returns, stops, if_Post}
use tnef.Util.{Bytes, c_string}
use tnef.Mapi.Types.{Content, cleared, bytes2, bytes4, bytes8, clsid, block, MapiValue}
use tnef.Mapi.Dump.{
  get_bytes2, get_bytes4, get_bytes8, get_guid, get_string, dump_bytes, dump_block,
}

-- There is no way to stop.
abbrev pub Never : Halt → Type 0
Never h = h ≢ h

pub of_Never {ℓ} :
    {A : Type ℓ} {P : A → Type 0} (m : Result A) → Post P Never m → (a : A) × (m ≡ ok a)
of_Never (ok a) (returns p) = (a, refl)
of_Never (halt h) (stops never) = absurd (never refl)

abbrev pub Terminated : Bytes → Type 0
Terminated bytes = (s : Bytes) × (bytes ≡ s ++ 0 ∷ [])

abbrev pub is_text : ℕ → Bool
is_text type = type == 30 || type == 31

-- The member that is set is the one of the type; a block ends in 0, and holds `len` bytes at least
-- where they are printed one by one.
abbrev pub Fits : ℕ → ℕ → Content → Type 0
Fits type len cleared = (is_text type ≡ false) × (len ≡ 0)
Fits type len (bytes2 x) = type ≡ 2
Fits type len (bytes4 x) = (type == 3 || type == 4 || type == 11) ≡ true
Fits type len (bytes8 low high) =
    (type == 64 || type == 5 || type == 7 || type == 6 || type == 20) ≡ true
Fits type len (clsid guid) = type ≡ 72
Fits type len (block bytes) =
    ((is_text type || type == 13 || type == 258) ≡ true)
    × Terminated bytes
    × (is_text type ≡ false → len ≤ length bytes)

abbrev pub Shaped : ℕ → MapiValue → Type 0
Shaped type v = Fits type v.len v.content

pub c_string-Terminated :
    (bytes s : Bytes) → bytes ≡ s ++ 0 ∷ [] → Post (λ _. Unit) Never (c_string bytes)
unfolding c_string
c_string-Terminated bytes s e = rw e (go s)
  where
    go : (s : Bytes) → Post (λ _. Unit) Never (c_string (s ++ 0 ∷ []))
    go [] = returns tt
    go (b ∷ s) = if_Post (b == 0) _ _ (λ _. returns tt) λ _. bind _ _ (go s) λ _ _. returns tt

module _ (type len : ℕ) where
  pub get_bytes2-Post :
      (c : Content) → Fits type len c → type ≡ 2 → Post (λ _. Unit) Never (get_bytes2 c)
  get_bytes2-Post cleared h t = returns tt
  get_bytes2-Post (bytes2 x) h t = returns tt
  get_bytes2-Post (bytes4 x) h t = absurd (ground arith)
  get_bytes2-Post (bytes8 low high) h t = absurd (ground arith)
  get_bytes2-Post (clsid guid) h t = absurd (ground arith)
  get_bytes2-Post (block bytes) h t = absurd (ground (arith, h.0))

  pub get_bytes4-Post :
      (c : Content)
      → Fits type len c
      → (type == 3 || type == 4 || type == 11 || type == 10) ≡ true
      → Post (λ _. Unit) Never (get_bytes4 c)
  get_bytes4-Post cleared h t = returns tt
  get_bytes4-Post (bytes4 x) h t = returns tt
  get_bytes4-Post (bytes2 x) h t = absurd (ground arith)
  get_bytes4-Post (bytes8 low high) h t = absurd (ground arith)
  get_bytes4-Post (clsid guid) h t = absurd (ground arith)
  get_bytes4-Post (block bytes) h t = absurd (ground (arith, h.0))

  pub get_bytes8-Post :
      (c : Content)
      → Fits type len c
      → (type == 64 || type == 5 || type == 7 || type == 6 || type == 20) ≡ true
      → Post (λ _. Unit) Never (get_bytes8 c)
  get_bytes8-Post cleared h t = returns tt
  get_bytes8-Post (bytes8 low high) h t = returns tt
  get_bytes8-Post (bytes2 x) h t = absurd (ground arith)
  get_bytes8-Post (bytes4 x) h t = absurd (ground arith)
  get_bytes8-Post (clsid guid) h t = absurd (ground arith)
  get_bytes8-Post (block bytes) h t = absurd (ground (arith, h.0))

  pub get_guid-Post :
      (c : Content) → Fits type len c → type ≡ 72 → Post (λ _. Unit) Never (get_guid c)
  get_guid-Post cleared h t = returns tt
  get_guid-Post (clsid guid) h t = returns tt
  get_guid-Post (bytes2 x) h t = absurd (ground arith)
  get_guid-Post (bytes4 x) h t = absurd (ground arith)
  get_guid-Post (bytes8 low high) h t = absurd (ground arith)
  get_guid-Post (block bytes) h t = absurd (ground (arith, h.0))

  pub get_string-Post :
      (c : Content) → Fits type len c → is_text type ≡ true → Post (λ _. Unit) Never (get_string c)
  get_string-Post (block bytes) (_, (s, e), _) t = c_string-Terminated bytes s e
  get_string-Post cleared h t = absurd (ground (arith, h.0))
  get_string-Post (bytes2 x) h t = absurd (ground arith)
  get_string-Post (bytes4 x) h t = absurd (ground arith)
  get_string-Post (bytes8 low high) h t = absurd (ground arith)
  get_string-Post (clsid guid) h t = absurd (ground arith)

pub dump_bytes-Post :
    (n : ℕ) (bytes : Bytes) → n ≤ length bytes → Post (λ _. Unit) Never (dump_bytes n bytes)
unfolding dump_bytes
dump_bytes-Post zero bytes h = returns tt
dump_bytes-Post (suc n) [] h = absurd (omega arith)
dump_bytes-Post (suc n) (b ∷ bytes) h =
    bind _ _ (dump_bytes-Post n bytes (omega arith)) λ _ _. returns tt

pub dump_block-Post :
    (type len : ℕ) (c : Content)
    → Fits type len c
    → (type == 13 || type == 258) ≡ true
    → Post (λ _. Unit) Never (dump_block len c)
dump_block-Post type len (block bytes) (_, _, enough) t =
    dump_bytes-Post len bytes (enough (ground arith))
dump_block-Post type len cleared (_, empty) t = dump_bytes-Post len [] (omega arith)
dump_block-Post type len (bytes2 x) h t = absurd (ground arith)
dump_block-Post type len (bytes4 x) h t = absurd (ground arith)
dump_block-Post type len (bytes8 low high) h t = absurd (ground arith)
dump_block-Post type len (clsid guid) h t = absurd (ground arith)
