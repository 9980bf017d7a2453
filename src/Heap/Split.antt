-- ===== src/Heap/Split.antt =====
-- The pointers of a structure, in two parts: those that are freed, and those that are left.
use tnef.Prelude.{ℕ, ◌≡◌, refl, arith, false, ◌||◌, ◌&&◌, List, [], ◌∷◌, ◌++◌, Option, none, some}
use tnef.Heap.{Heap, is_among, Distinct, AreLive}

pub data Split : List (Option ℕ) → List (Option ℕ) → List (Option ℕ) → Type 0 where
  nothing : Split [] [] []
  null : (os fs ls : List (Option ℕ)) → Split os fs ls → Split (none ∷ os) fs ls
  freed : (p : Option ℕ) (os fs ls : List (Option ℕ)) → Split os fs ls → Split (p ∷ os) (p ∷ fs) ls
  left : (p : Option ℕ) (os fs ls : List (Option ℕ)) → Split os fs ls → Split (p ∷ os) fs (p ∷ ls)

pub all_freed : (ps : List (Option ℕ)) → Split ps ps []
all_freed [] = nothing
all_freed (p ∷ ps) = freed p ps ps [] (all_freed ps)

pub all_left : (ps : List (Option ℕ)) → Split ps [] ps
all_left [] = nothing
all_left (p ∷ ps) = left p ps [] ps (all_left ps)

pub both :
    {os fs ls os' fs' ls' : List (Option ℕ)}
    → Split os fs ls
    → Split os' fs' ls'
    → Split (os ++ os') (fs ++ fs') (ls ++ ls')
both nothing s' = s'
both (null os fs ls s) s' = null _ _ _ (both s s')
both (freed p os fs ls s) s' = freed p _ _ _ (both s s')
both (left p os fs ls s) s' = left p _ _ _ (both s s')

pub Split-is_among :
    {os fs ls : List (Option ℕ)}
    → Split os fs ls
    → (q : ℕ) → is_among q os ≡ (is_among q fs || is_among q ls)
unfolding is_among
Split-is_among nothing q = refl
Split-is_among (null os fs ls s) q = Split-is_among s q
Split-is_among (freed p os fs ls s) q = ground (arith, Split-is_among s q)
Split-is_among (left p os fs ls s) q = ground (arith, Split-is_among s q)

pub Split-AreLive :
    (h : Heap) {os fs ls : List (Option ℕ)} → Split os fs ls → AreLive h os → AreLive h fs
Split-AreLive h nothing l = tt
Split-AreLive h (null os fs ls s) l = Split-AreLive h s l
Split-AreLive h (freed none os fs ls s) l = Split-AreLive h s l
Split-AreLive h (freed (some p) os fs ls s) (lp, l) = (lp, Split-AreLive h s l)
Split-AreLive h (left none os fs ls s) l = Split-AreLive h s l
Split-AreLive h (left (some p) os fs ls s) (lp, l) = Split-AreLive h s l

pub Split-Distinct : {os fs ls : List (Option ℕ)} → Split os fs ls → Distinct os → Distinct fs
Split-Distinct nothing d = tt
Split-Distinct (null os fs ls s) d = Split-Distinct s d
Split-Distinct (freed none os fs ls s) d = Split-Distinct s d
Split-Distinct (freed (some p) os fs ls s) (n, d) =
    (ground (arith, Split-is_among s p), Split-Distinct s d)
Split-Distinct (left none os fs ls s) d = Split-Distinct s d
Split-Distinct (left (some p) os fs ls s) (n, d) = Split-Distinct s d

-- Nothing is in both parts.
pub Split-apart :
    {os fs ls : List (Option ℕ)}
    → Split os fs ls
    → Distinct os
    → (q : ℕ) → (is_among q fs && is_among q ls) ≡ false
unfolding is_among
Split-apart nothing d q = refl
Split-apart (null os fs ls s) d q = Split-apart s d q
Split-apart (freed none os fs ls s) d q = Split-apart s d q
Split-apart (freed (some p) os fs ls s) (n, d) q =
    ground (arith, Split-apart s d q, Split-is_among s p)
Split-apart (left none os fs ls s) d q = Split-apart s d q
Split-apart (left (some p) os fs ls s) (n, d) q =
    ground (arith, Split-apart s d q, Split-is_among s p)
