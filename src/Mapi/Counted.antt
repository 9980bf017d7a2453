-- ===== src/Mapi/Counted.antt =====
-- The loop over the values in src/mapi_attr.c keeps their number.
use tnef.Prelude.{
  ℕ, zero, suc, ◌≡◌, sym, ◌∙◌, List, Option, none, some, length, length-set, length-replicate, set,
  replicate, if◌then◌else◌,
}
use tnef.Outcome.{Result}
use tnef.Outcome.Post.{Post, Any, bind, returns, anyhow}
use tnef.Env.{Env}
use tnef.Util.{Bytes}
use tnef.Mapi.Types.{MapiValue}
use tnef.Mapi.{Step, read_value, read_values, unless_null, blank}

-- NULL, or as many values as that.
abbrev pub HasLength : ℕ → Option (List MapiValue × ℕ) → Type 0
HasLength n none = Unit
HasLength n (some (values, idx)) = n ≡ length values

unless_null-HasLength :
    (n : ℕ) (r : Option Step) (f : Step → Result (Option (List MapiValue × ℕ)))
    → ((s : Step) → Post (HasLength n) Any (f s))
    → Post (HasLength n) Any (unless_null r f)
unless_null-HasLength n none f go = returns tt
unless_null-HasLength n (some s) f go = go s

read_values-HasLength :
    (env : Env) (buf : Bytes) (len type k n : ℕ) (values : List MapiValue) (v idx : ℕ)
    → n ≡ length values
    → Post (HasLength n) Any (read_values env buf len type k values v idx)
unfolding read_values
read_values-HasLength env buf len type zero n values v idx e = returns e
read_values-HasLength env buf len type (suc k) n values v idx e =
    bind _ _ (anyhow (read_value env buf len type idx)) λ r _.
      unless_null-HasLength n r _ λ (x, at, advance).
        read_values-HasLength env buf len type k n (set values v x) (if advance then suc v else v)
          at (e ∙ sym (length-set values v x))

-- From as many cleared values on.
pub read_values-counted :
    (env : Env) (buf : Bytes) (len type n idx : ℕ)
    → Post (HasLength n) Any (read_values env buf len type n (replicate n blank) 0 idx)
read_values-counted env buf len type n idx =
    read_values-HasLength env buf len type n n (replicate n blank) 0 idx
      (sym (length-replicate n blank))
