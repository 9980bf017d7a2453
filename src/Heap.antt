-- ===== src/Heap.antt =====
-- The heap as far as `free` is concerned, and `XFREE` of src/alloc.h: which addresses are those of
-- blocks that were allocated and not freed since.
pub mod Split
use mathlib.Core.Path.{fun_ext}
use tnef.Prelude.{
  ℕ, ◌≡◌, refl, ap, ◌∙◌, sym, arith, Bool, true, false, not, ◌||◌, ◌&&◌, List, [], ◌∷◌, ◌++◌,
  Option, none, some, ◌==◌, if◌then◌else◌,
}
use tnef.Outcome.{Result, ok, halt, fault, ◌>>=◌}

abbrev pub Heap : Type 0
Heap = ℕ → Bool

abbrev pub without : ℕ → Heap → Heap
without p h q = if q == p then false else h q

-- A block that is not there cannot be freed.
unfoldable pub free : ℕ → Heap → Result Heap
free p h = if h p then ok (without p h) else halt fault

-- NULL is left alone.
unfoldable pub xfree : Option ℕ → Heap → Result Heap
xfree none h = ok h
xfree (some p) h = free p h

unfoldable pub free_each : List (Option ℕ) → Heap → Result Heap
free_each [] h = ok h
free_each (p ∷ ps) h = do h' ← xfree p h; free_each ps h'

abbrev pub is_at : ℕ → Option ℕ → Bool
is_at q none = false
is_at q (some p) = q == p

unfoldable pub is_among : ℕ → List (Option ℕ) → Bool
is_among q [] = false
is_among q (p ∷ ps) = is_at q p || is_among q ps

-- No two of the pointers are the same, but for NULL.
abbrev pub Distinct : List (Option ℕ) → Type 0
Distinct [] = Unit
Distinct (none ∷ ps) = Distinct ps
Distinct (some p ∷ ps) = (is_among p ps ≡ false) × Distinct ps

-- All of them point to blocks, or are NULL.
abbrev pub AreLive : Heap → List (Option ℕ) → Type 0
AreLive h [] = Unit
AreLive h (none ∷ ps) = AreLive h ps
AreLive h (some p ∷ ps) = (h p ≡ true) × AreLive h ps

pub >>=-assoc :
    (r : Result Heap) (f g : Heap → Result Heap) {k : Heap → Result Heap}
    → ((h : Heap) → k h ≡ (f h >>= g))
    → (r >>= k) ≡ ((r >>= f) >>= g)
>>=-assoc (ok h) f g e = e h
>>=-assoc (halt why) f g e = refl

pub free_each-append :
    (ps qs : List (Option ℕ)) (h : Heap)
    → free_each (ps ++ qs) h ≡ (free_each ps h >>= free_each qs)
unfolding free_each
free_each-append [] qs h = refl
free_each-append (p ∷ ps) qs h =
    >>=-assoc (xfree p h) (free_each ps) (free_each qs) (free_each-append ps qs)

pub >>=-ok : (r : Result Heap) → r ≡ (r >>= λ h. ok h)
>>=-ok (ok h) = refl
>>=-ok (halt why) = refl

pub xfree-each : (p : Option ℕ) (h : Heap) → xfree p h ≡ free_each (p ∷ []) h
unfolding free_each
xfree-each p h = >>=-ok (xfree p h)

-- One pointer before others.
pub xfree-then :
    (p : Option ℕ) (ps : List (Option ℕ)) (k : Heap → Result Heap)
    → ((h : Heap) → k h ≡ free_each ps h)
    → (h : Heap) → (xfree p h >>= k) ≡ free_each (p ∷ ps) h
unfolding free_each
xfree-then p ps k e h = ap (λ f. xfree p h >>= f) (fun_ext e)

-- One more pointer.
pub free_each-then :
    (ps : List (Option ℕ)) (p : Option ℕ) (h : Heap)
    → (free_each ps h >>= xfree p) ≡ free_each (ps ++ p ∷ []) h
free_each-then ps p h =
    ap (λ f. free_each ps h >>= f) (fun_ext (xfree-each p)) ∙ sym (free_each-append ps (p ∷ []) h)

AreLive-without :
    (p : ℕ) (ps : List (Option ℕ)) (h : Heap)
    → is_among p ps ≡ false
    → AreLive h ps
    → AreLive (without p h) ps
unfolding is_among
AreLive-without p [] h n l = tt
AreLive-without p (none ∷ ps) h n l = AreLive-without p ps h n l
AreLive-without p (some q ∷ ps) h n (lq, l) =
    (ground arith, AreLive-without p ps h (ground arith) l)

-- The blocks are freed, and no others.
pub free_each-frees :
    (ps : List (Option ℕ)) (h : Heap)
    → Distinct ps
    → AreLive h ps
    → (h' : Heap) × (free_each ps h ≡ ok h') × ((q : ℕ) → h' q ≡ (h q && not (is_among q ps)))
unfolding free_each xfree free is_among
free_each-frees [] h d l = (h, refl, λ q. ground arith)
free_each-frees (none ∷ ps) h d l = free_each-frees ps h d l
free_each-frees (some p ∷ ps) h (n, d) (lp, l) =
    let (h', e, left) = free_each-frees ps (without p h) d (AreLive-without p ps h n l) in
    (h', rw lp e, λ q. left q ∙ ground arith)
