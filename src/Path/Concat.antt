-- ===== src/Path/Concat.antt =====
-- `concat_fname` of src/path.c.
use tnef.Prelude.{
  ℕ, ◌+◌, ◌^◌, ◌<◌, length, ◌≡◌, refl, arith, false, [], ◌∷◌, ◌++◌, Option, none, some, All, ◌==◌,
  if◌then◌else◌, Bool-cases, inl, inr,
}
use mathlib.Core.List.{append_assoc}
use tnef.Outcome.{ok}
use tnef.Outcome.Post.{Post, Any, bind, seq, returns, anyhow, of_ok}
use tnef.Env.{Env}
use tnef.Alloc.{xstrdup, checked_xmalloc, access}
use tnef.Alloc.Limit.{Serves, Serves-le, xstrdup-Serves, checked_xmalloc-Serves}
use tnef.Path.{
  Str, slash, ends_in_slash, starts_with_slash, strip_first, strip_slashes, null_if_empty, join,
  copied, concat_raw, concat_fname,
}

abbrev pub NoSlash : Str → Type 0
NoSlash s = All (λ c. (c == slash) ≡ false) s

strip_slashes-NoSlash : (s : Str) → NoSlash s → strip_slashes s ≡ s
unfolding strip_slashes
strip_slashes-NoSlash [] h = refl
strip_slashes-NoSlash (c ∷ []) (hc, _) = rw hc
strip_slashes-NoSlash (c ∷ d ∷ s) (hc, hs) = rw (strip_slashes-NoSlash (d ∷ s) hs)

-- Only the end is looked at.
strip_slashes-append :
    (dir : Str) (c : ℕ) (s : Str)
    → NoSlash (c ∷ s)
    → strip_slashes (dir ++ (c ∷ s)) ≡ dir ++ (c ∷ s)
unfolding strip_slashes
strip_slashes-append [] c s h = strip_slashes-NoSlash (c ∷ s) h
strip_slashes-append (d ∷ []) c s h = rw (strip_slashes-NoSlash (c ∷ s) h)
strip_slashes-append (d ∷ e ∷ dir) c s h = rw (strip_slashes, strip_slashes-append (e ∷ dir) c s h)

pub concat_fname-null :
    (env : Env) (c : ℕ) (s : Str)
    → Serves env (length (c ∷ s))
    → NoSlash (c ∷ s)
    → concat_fname env none (some (c ∷ s)) ≡ ok (some (c ∷ s))
unfolding concat_fname concat_raw access
concat_fname-null env c s v h = rw (xstrdup-Serves (c ∷ s) v, strip_slashes-NoSlash (c ∷ s) h)

pub concat_fname-empty :
    (env : Env) (c : ℕ) (s : Str)
    → Serves env (length (c ∷ s))
    → NoSlash (c ∷ s)
    → concat_fname env (some []) (some (c ∷ s)) ≡ ok (some (c ∷ s))
unfolding concat_fname concat_raw access
concat_fname-empty env c s v h = rw (xstrdup-Serves (c ∷ s) v, strip_slashes-NoSlash (c ∷ s) h)

strip_first_end :
    (c : ℕ) (t : Str) → ends_in_slash t ≡ false → ends_in_slash (strip_first c t) ≡ false
unfolding ends_in_slash
strip_first_end c [] h = ground arith
strip_first_end c (d ∷ t) h = h

strip_slashes_end : (s : Str) → ends_in_slash (strip_slashes s) ≡ false
unfolding strip_slashes
strip_slashes_end [] = unfold ends_in_slash in refl
strip_slashes_end (c ∷ s) = strip_first_end c (strip_slashes s) (strip_slashes_end s)

strip_first_start :
    (c : ℕ) (t : Str) → (c == slash) ≡ false → starts_with_slash (strip_first c t) ≡ false
unfolding starts_with_slash
strip_first_start c [] h = ground arith
strip_first_start c (d ∷ t) h = h

strip_slashes_start :
    (s : Str) → starts_with_slash s ≡ false → starts_with_slash (strip_slashes s) ≡ false
unfolding strip_slashes starts_with_slash
strip_slashes_start [] h = refl
strip_slashes_start (c ∷ s) h = strip_first_start c (strip_slashes s) h

-- A name without '/' that is not empty is put into a directory, with a '/' between if the directory
-- does not end in one. (The name is within the limit, and `malloc` is taken to succeed.)
pub concat_fname_into :
    (env : Env) (d : ℕ) (dir : Str) (c : ℕ) (name : Str)
    → Serves env (length (d ∷ dir) + length (c ∷ name) + 2)
    → length (d ∷ dir) + length (c ∷ name) + 2 < 2 ^ 64
    → NoSlash (c ∷ name)
    → concat_fname env (some (d ∷ dir)) (some (c ∷ name))
      ≡ ok (
          some (
            if ends_in_slash (d ∷ dir)
            then (d ∷ dir) ++ (c ∷ name)
            else (d ∷ dir) ++ (slash ∷ c ∷ name)))
unfolding concat_fname concat_raw join starts_with_slash access
concat_fname_into env d dir c name v w (hc, hs) =
    rw
      (checked_xmalloc-Serves (length (d ∷ dir) + length (c ∷ name) + 2) 1 0
        (Serves-le _ v (omega arith)) (omega arith))
      (elim (Bool-cases (ends_in_slash (d ∷ dir))) [
        | inl ends ↦ rw (ends, strip_slashes-append (d ∷ dir) c name (hc, hs))
        | inr open_end ↦ rw (
          open_end,
          hc,
          ← append_assoc (d ∷ dir) (slash ∷ []) (c ∷ name),
          strip_slashes-append ((d ∷ dir) ++ (slash ∷ [])) c name (hc, hs),
          append_assoc,
        )
      ])

pub null_if_empty-eq : (s : Str) {r : Str} → null_if_empty s ≡ some r → s ≡ r
null_if_empty-eq [] e = cc
null_if_empty-eq (c ∷ s) e = cc

join_start :
    (c : ℕ) (s base : Str)
    → starts_with_slash (c ∷ s) ≡ false
    → starts_with_slash (join (c ∷ s) base) ≡ false
unfolding join starts_with_slash
join_start c s base h = ground arith

copied_start :
    (env : Env) (base : Str)
    → starts_with_slash base ≡ false
    → Post (λ r. starts_with_slash r ≡ false) Any (copied env base)
copied_start env base k =
    bind _ _ (anyhow (xstrdup env (some base))) λ p _. seq _ _ (anyhow (access p)) λ _. returns k

concat_raw_start :
    (env : Env) (dir : Option Str) (base : Str)
    → ((d : Str) → dir ≡ some d → starts_with_slash d ≡ false)
    → starts_with_slash base ≡ false
    → Post (λ r. starts_with_slash r ≡ false) Any (concat_raw env dir (some base))
unfolding concat_raw
concat_raw_start env none base h k = copied_start env base k
concat_raw_start env (some []) base h k = copied_start env base k
concat_raw_start env (some (c ∷ s)) base h k =
    bind _ _ (anyhow (checked_xmalloc env (length (c ∷ s) + length base + 2) 1 0))
      λ p _. seq _ _ (anyhow (access p)) λ _. returns (join_start c s base (h (c ∷ s) refl))

-- Where two names that are not absolute are joined to a name, it is not absolute and does not end in
-- '/'.
pub concat_fname_start :
    (env : Env) (dir : Option Str) (base : Str) {r : Str}
    → ((d : Str) → dir ≡ some d → starts_with_slash d ≡ false)
    → starts_with_slash base ≡ false
    → concat_fname env dir (some base) ≡ ok (some r)
    → (starts_with_slash r ≡ false) × (ends_in_slash r ≡ false)
unfolding concat_fname
concat_fname_start env dir base {r} h k e = of_ok _ (some r) stripped e r refl
  where
    Stripped : Option Str → Type 0
    Stripped o = (r : Str) → o ≡ some r → (starts_with_slash r ≡ false) × (ends_in_slash r ≡ false)

    stripped : Post Stripped Any (concat_fname env dir (some base))
    stripped = bind _ _ (concat_raw_start env dir base h k) λ raw start. returns λ r same.
        rw (← null_if_empty-eq (strip_slashes raw) same)
          (strip_slashes_start raw start, strip_slashes_end raw)
