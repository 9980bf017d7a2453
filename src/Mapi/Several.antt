-- ===== src/Mapi/Several.antt =====
-- The loop over the values of a property in src/mapi_attr.c, and which of them it sets.
use mathlib.Core.Path.{subst}
use mathlib.Core.List.{append-nil}
use tnef.Prelude.{
  ℕ, zero, suc, ◌≡◌, refl, sym, ap, ◌∙◌, arith, Bool, true, false, List, [], ◌∷◌, ◌++◌, Option,
  none, some, length, take, drop, set, replicate, if◌then◌else◌, All, Bool-cases, inl, inr,
}
use tnef.Outcome.{Result}
use tnef.Outcome.Post.{Post, Any, bind, returns}
use tnef.Env.{Env}
use tnef.Util.{Bytes}
use tnef.Mapi.Types.{MapiValue}
use tnef.Mapi.{Step, read_values, blank, unless_null}
use tnef.Mapi.Fits.{Shaped}
use tnef.Mapi.Filled.{SetTo, IsBlank, several, Full, Read, read_value-Read}

-- The values while they are read: where several occur, those that are set stand before the cleared
-- ones that are left; otherwise the first is set once one is read.
pub data Partial (type v k : ℕ) (values : List MapiValue) : Type 0 where
  each :
      (read : List MapiValue)
      → several type ≡ true
      → All (SetTo type) read
      → length read ≡ v
      → values ≡ read ++ replicate k blank
      → Partial type v k values
  fresh : several type ≡ false → v ≡ 0 → values ≡ replicate k blank → Partial type v k values
  first :
      several type ≡ false
      → v ≡ 0
      → All (SetTo type) (take 1 values)
      → All IsBlank (drop 1 values)
      → Partial type v k values

All-snoc :
    (type : ℕ) (values : List MapiValue) (x : MapiValue)
    → All (SetTo type) values
    → SetTo type x
    → All (SetTo type) (values ++ x ∷ [])
All-snoc type [] x h hx = (hx, tt)
All-snoc type (y ∷ values) x (h, hs) hx = (h, All-snoc type values x hs hx)

all_blank : (n : ℕ) → All IsBlank (replicate n blank)
all_blank zero = tt
all_blank (suc n) = (refl, all_blank n)

pub set-next :
    (read : List MapiValue) (k : ℕ) (x : MapiValue)
    → set (read ++ replicate (suc k) blank) (length read) x ≡ (read ++ x ∷ []) ++ replicate k blank
set-next [] k x = refl
set-next (y ∷ read) k x = ap (λ l. y ∷ l) (set-next read k x)

pub length-snoc :
    (read : List MapiValue) (x : MapiValue) → length (read ++ x ∷ []) ≡ suc (length read)
length-snoc [] x = refl
length-snoc (y ∷ read) x = ap suc (length-snoc read x)

next_first :
    (type k : ℕ) (values : List MapiValue) (x : MapiValue)
    → several type ≡ false
    → SetTo type x
    → All IsBlank (drop 1 values)
    → Partial type 0 k (set values 0 x)
next_first type k [] x one hx h = first one refl tt tt
next_first type k (y ∷ values) x one hx h = first one refl (hx, tt) h

next :
    (type v k : ℕ) (values : List MapiValue) (x : MapiValue) (advance : Bool)
    → SetTo type x
    → advance ≡ several type
    → Partial type v (suc k) values
    → Partial type (if advance then suc v else v) k (set values v x)
next type v k values x advance hx step (first one z h hs) =
    rw (step, one, z) (next_first type k values x one hx hs)
next type v k values x advance hx step (fresh one z e) =
    rw (step, one, z, e) (next_first type k (replicate (suc k) blank) x one hx (all_blank k))
next type v k values x advance hx step (each read many h l e) =
    each (read ++ x ∷ []) many (All-snoc type read x h hx)
      (rw (step, many) (length-snoc read x ∙ ap suc l)) (rw (e, ← l) (set-next read k x))

whole : (type v : ℕ) (values : List MapiValue) → Partial type v 0 values → Full type values
whole type v values (first one z h hs) = inr (one, h, hs)
whole type v values (fresh one z e) = inr (
  one,
  subst (λ xs. All (SetTo type) (take 1 xs)) (sym e) tt,
  subst (λ xs. All IsBlank (drop 1 xs)) (sym e) tt,
)
whole type v values (each read many h l e) =
    inl (many, subst (All (SetTo type)) (sym (e ∙ append-nil read)) h)

pub start : (type n : ℕ) → Partial type 0 n (replicate n blank)
start type n = elim (Bool-cases (several type)) [
  | inl many ↦ each [] many tt refl refl
  | inr one ↦ fresh one refl refl
]

set-Shaped :
    (type : ℕ) (values : List MapiValue) → All (SetTo type) values → All (Shaped type) values
set-Shaped type [] h = tt
set-Shaped type (v ∷ values) (h, hs) = (h.0, set-Shaped type values hs)

-- A cleared value is none of a string.
blank-Shaped :
    (type : ℕ) (values : List MapiValue)
    → several type ≡ false
    → All IsBlank values
    → All (Shaped type) values
blank-Shaped type [] one h = tt
blank-Shaped type (v ∷ values) one (h, hs) =
    (rw h (ground arith, refl), blank-Shaped type values one hs)

-- All of them can be printed.
pub Full-Shaped : (type : ℕ) (values : List MapiValue) → Full type values → All (Shaped type) values
Full-Shaped type values (inl (many, h)) = set-Shaped type values h
Full-Shaped type [] (inr (one, h, hs)) = tt
Full-Shaped type (v ∷ values) (inr (one, h, hs)) = (h.0.0, blank-Shaped type values one hs)

-- NULL, or values that are set.
abbrev pub AllRead : ℕ → Option (List MapiValue × ℕ) → Type 0
AllRead type none = Unit
AllRead type (some (values, idx)) = Full type values

unless_null-Read :
    (type : ℕ) (r : Option Step) (f : Step → Result (Option (List MapiValue × ℕ)))
    → Read type r
    → ((s : Step) → SetTo type s.0 → s.2 ≡ several type → Post (AllRead type) Any (f s))
    → Post (AllRead type) Any (unless_null r f)
unless_null-Read type none f read go = returns tt
unless_null-Read type (some s) f (hx, step) go = go s hx step

pub read_values-Full :
    (env : Env) (buf : Bytes) (len type k : ℕ) (values : List MapiValue) (v idx : ℕ)
    → Partial type v k values
    → Post (AllRead type) Any (read_values env buf len type k values v idx)
unfolding read_values
read_values-Full env buf len type zero values v idx h = returns (whole type v values h)
read_values-Full env buf len type (suc k) values v idx h =
    bind _ _ (read_value-Read env buf len type idx) λ r read.
      unless_null-Read type r _ read λ (x, at, advance) hx step.
        read_values-Full env buf len type k (set values v x) (if advance then suc v else v) at
          (next type v k values x advance hx step h)
