-- ===== src/Mapi/Free.antt =====
-- src/mapi_attr.c: what is freed of the properties. `mapi_attr_free` sees an attribute by its
-- pointers.
use mathlib.Core.Path.{fun_ext}
use mathlib.Core.List.{append_assoc, append-nil}
use tnef.Prelude.{
  ℕ, suc, ◌≡◌, refl, ap, ◌∙◌, sym, arith, Bool, true, false, not, ◌||◌, ◌&&◌, List, [], ◌∷◌, ◌++◌,
  Option, none, All, Bool-cases, inl, inr, length, ◌==◌, if◌then◌else◌,
}
use tnef.Outcome.{Result, ok, ◌>>=◌}
use tnef.Names.{szmapi_string, szmapi_unicode_string, szmapi_binary}
use tnef.Heap.{
  Heap, xfree, free_each, is_among, Distinct, AreLive, free_each-append, free_each-frees, >>=-assoc,
  >>=-ok, free_each-then,
}
use tnef.Heap.Split.{
  Split, nothing, null, all_freed, all_left, both, Split-is_among, Split-AreLive, Split-Distinct,
  Split-apart,
}

-- The pointers of a `MAPI_Attr`: `data.buf` of each value, NULL where the value has no block, `data`
-- of each name, and the three blocks of the attribute itself.
pub record Held : Type 0 where
  pub type : ℕ
  pub bufs : List (Option ℕ)
  pub names_data : List (Option ℕ)
  pub names : Option ℕ
  pub values : Option ℕ
  pub guid : Option ℕ

-- The types whose values are freed.
abbrev pub has_buf : ℕ → Bool
has_buf type = type == szmapi_string || type == szmapi_unicode_string || type == szmapi_binary

unfoldable pub free_values : ℕ → List (Option ℕ) → Heap → Result Heap
free_values type [] h = ok h
free_values type (p ∷ bufs) h = do
  h' ← if has_buf type then xfree p h else ok h
  free_values type bufs h'

unfoldable pub free_names : Held → Heap → Result Heap
free_names a h =
    if length a.names_data == 0 then ok h else (do h' ← free_each a.names_data h; xfree a.names h')

-- `attr` is not NULL at the one call.
unfoldable pub mapi_attr_free : Held → Heap → Result Heap
mapi_attr_free a h = do
  h1 ← free_values a.type a.bufs h
  h2 ← free_names a h1
  h3 ← xfree a.values h2
  xfree a.guid h3

-- Each attribute stands with the pointer to it. The array of the pointers is left to the caller.
unfoldable pub mapi_attr_free_list : List (Option ℕ × Held) → Heap → Result Heap
mapi_attr_free_list [] h = ok h
mapi_attr_free_list ((p, a) ∷ attrs) h = do
  h1 ← mapi_attr_free a h
  h2 ← xfree p h1
  mapi_attr_free_list attrs h2

-- Everything that is reachable from an attribute.
abbrev pub reachable : Option ℕ × Held → List (Option ℕ)
reachable (p, a) = a.bufs ++ (a.names_data ++ (a.names ∷ a.values ∷ a.guid ∷ p ∷ []))

abbrev pub all_reachable : List (Option ℕ × Held) → List (Option ℕ)
all_reachable [] = []
all_reachable (a ∷ attrs) = reachable a ++ all_reachable attrs

-- The values of a type that is not freed.
abbrev pub left_of : Option ℕ × Held → List (Option ℕ)
left_of (p, a) = if has_buf a.type then [] else a.bufs

abbrev pub all_left_of : List (Option ℕ × Held) → List (Option ℕ)
all_left_of [] = []
all_left_of (a ∷ attrs) = left_of a ++ all_left_of attrs

-- Without names there is no array of names.
abbrev pub HasNames : Option ℕ × Held → Type 0
HasNames (p, a) = length a.names_data ≡ 0 → a.names ≡ none

-- What is freed, in order.
abbrev freed_values : ℕ → List (Option ℕ) → List (Option ℕ)
freed_values type bufs = if has_buf type then bufs else []

abbrev freed_names : List (Option ℕ) → Option ℕ → List (Option ℕ)
freed_names [] names = []
freed_names (d ∷ names_data) names = (d ∷ names_data) ++ names ∷ []

abbrev freed_of : Option ℕ × Held → List (Option ℕ)
freed_of (p, a) =
    freed_values a.type a.bufs ++ (freed_names a.names_data a.names ++ (a.values ∷ a.guid ∷ p ∷ []))

abbrev all_freed_of : List (Option ℕ × Held) → List (Option ℕ)
all_freed_of [] = []
all_freed_of (a ∷ attrs) = freed_of a ++ all_freed_of attrs

all_values :
    (type : ℕ) (bufs : List (Option ℕ)) (h : Heap)
    → has_buf type ≡ true
    → free_values type bufs h ≡ free_each bufs h
unfolding free_values free_each
all_values type [] h e = refl
all_values type (p ∷ bufs) h e =
    rw e (ap (λ f. xfree p h >>= f) (fun_ext λ h'. all_values type bufs h' e))

no_values :
    (type : ℕ) (bufs : List (Option ℕ)) (h : Heap)
    → has_buf type ≡ false
    → free_values type bufs h ≡ ok h
unfolding free_values
no_values type [] h e = refl
no_values type (p ∷ bufs) h e = rw e (no_values type bufs h e)

free_values-each :
    (type : ℕ) (bufs : List (Option ℕ)) (h : Heap)
    → free_values type bufs h ≡ free_each (freed_values type bufs) h
unfolding free_each
free_values-each type bufs h = elim (Bool-cases (has_buf type)) [
  | inl e ↦ rw e (all_values type bufs h e)
  | inr e ↦ rw e (no_values type bufs h e)
]

some_names : (n : ℕ) → (suc n == 0) ≡ false
some_names n = ground arith

free_names-each :
    (a : Held) (names_data : List (Option ℕ)) (h : Heap)
    → a.names_data ≡ names_data
    → free_names a h ≡ free_each (freed_names names_data a.names) h
unfolding free_names
free_names-each a [] h e = rw e (unfold free_each in refl)
free_names-each a (d ∷ names_data) h e =
    rw (e, some_names (length names_data)) (free_each-then (d ∷ names_data) a.names h)

three :
    (p q r : Option ℕ) (h : Heap)
    → free_each (p ∷ q ∷ r ∷ []) h ≡ ((xfree p h >>= xfree q) >>= xfree r)
unfolding free_each
three p q r h =
    >>=-assoc (xfree p h) (xfree q) (xfree r)
      λ h'. ap (λ f. xfree q h' >>= f) (fun_ext λ h''. sym (>>=-ok (xfree r h'')))

-- An attribute and the pointer to it.
attr-each :
    (p : Option ℕ) (a : Held) (h : Heap)
    → (mapi_attr_free a h >>= xfree p) ≡ free_each (freed_of (p, a)) h
unfolding mapi_attr_free
attr-each p a h =
    let names = freed_names a.names_data a.names in
    let last = a.values ∷ a.guid ∷ p ∷ [] in
    rw (free_values-each a.type a.bufs h) (
      sym (
        free_each-append (freed_values a.type a.bufs) (names ++ last) h
        ∙ >>=-assoc (free_each (freed_values a.type a.bufs) h) _ (xfree p) λ h1.
          rw (free_names-each a a.names_data h1 refl) (
            free_each-append names last h1
            ∙ >>=-assoc (free_each names h1) _ (xfree p) (three a.values a.guid p))))

list-each :
    (attrs : List (Option ℕ × Held)) (h : Heap)
    → mapi_attr_free_list attrs h ≡ free_each (all_freed_of attrs) h
unfolding mapi_attr_free_list
list-each [] h = unfold free_each in refl
list-each ((p, a) ∷ attrs) h =
    >>=-assoc (mapi_attr_free a h) (xfree p) (mapi_attr_free_list attrs) (λ h'. refl)
    ∙ rw (attr-each p a h) (
        ap (λ f. free_each (freed_of (p, a)) h >>= f) (fun_ext (list-each attrs))
        ∙ sym (free_each-append (freed_of (p, a)) (all_freed_of attrs) h))

values-Split :
    (type : ℕ) (bufs : List (Option ℕ))
    → Split bufs (freed_values type bufs) (if has_buf type then [] else bufs)
values-Split type bufs = elim (Bool-cases (has_buf type)) [
  | inl e ↦ rw e (all_freed bufs)
  | inr e ↦ rw e (all_left bufs)
]

names-Split :
    (names_data : List (Option ℕ)) (names : Option ℕ) (last : List (Option ℕ))
    → (length names_data ≡ 0 → names ≡ none)
    → Split (names_data ++ (names ∷ last)) (freed_names names_data names ++ last) []
names-Split [] names last e = rw (e refl) (null last last [] (all_freed last))
names-Split (d ∷ names_data) names last e =
    rw (append_assoc (d ∷ names_data) (names ∷ []) last)
      (all_freed ((d ∷ names_data) ++ names ∷ last))

attr-Split : (a : Option ℕ × Held) → HasNames a → Split (reachable a) (freed_of a) (left_of a)
attr-Split (p, a) e = rw (← append-nil (if has_buf a.type then [] else a.bufs)) (
    both (values-Split a.type a.bufs)
      (names-Split a.names_data a.names (a.values ∷ a.guid ∷ p ∷ []) e))

list-Split :
    (attrs : List (Option ℕ × Held))
    → All HasNames attrs
    → Split (all_reachable attrs) (all_freed_of attrs) (all_left_of attrs)
list-Split [] e = nothing
list-Split (a ∷ attrs) (e, es) = both (attr-Split a e) (list-Split attrs es)

-- Where the pointers of the properties are distinct and all point to blocks, `mapi_attr_free_list`
-- frees no block twice and none that is not there; behind it the blocks are those from before, but
-- for the ones that the properties reach, and of these the values of the types that are not
-- freed (all but strings, UTF-16 strings and binary ones) are still there. (A property without names
-- has no array of names; the array of the properties is the caller's.)
pub mapi_attr_free_list-frees :
    (attrs : List (Option ℕ × Held)) (h : Heap)
    → All HasNames attrs
    → Distinct (all_reachable attrs)
    → AreLive h (all_reachable attrs)
    → (h' : Heap) × (mapi_attr_free_list attrs h ≡ ok h')
      × ((q : ℕ)
          → h' q
            ≡ (h q && (not (is_among q (all_reachable attrs)) || is_among q (all_left_of attrs))))
mapi_attr_free_list-frees attrs h e d l =
    let s = list-Split attrs e in
    let (h', done, after) =
      free_each-frees (all_freed_of attrs) h (Split-Distinct s d) (Split-AreLive h s l) in
    (
      h',
      list-each attrs h ∙ done,
      λ q. after q ∙ ground (arith, Split-is_among s q, Split-apart s d q),
    )
