-- ===== src/Tnef/Free.antt =====
-- What is freed at the end of `parse_file` in src/tnef.c: the arrays of the message bodies. An entry of
-- an array is NULL, or the pointer to a `VarLenData` and the one to its data.
use mathlib.Core.Path.{fun_ext}
use tnef.Prelude.{
  ℕ, zero, suc, ◌≡◌, refl, ap, ◌∙◌, sym, arith, Bool, true, false, not, ◌&&◌, List, [], ◌∷◌, ◌++◌,
  Option, none, some, Bool-cases, inl, inr, length, get_elem?, ◌==◌, if◌then◌else◌,
}
use tnef.Outcome.{Result, ok, halt, fault, ◌>>=◌}
use tnef.Heap.{
  Heap, xfree, free_each, is_among, Distinct, AreLive, free_each-append, free_each-frees, >>=-assoc,
  >>=-ok, free_each-then,
}

abbrev pub Entry : Type 0
Entry = Option (ℕ × Option ℕ)

unfoldable pub free_entry : Entry → Heap → Result Heap
free_entry none h = ok h
free_entry (some (p, data_ptr)) h = do h' ← xfree data_ptr h; xfree (some p) h'

abbrev pub or_outside : Option Entry → Heap → Result Heap
or_outside none h = halt fault
or_outside (some e) h = free_entry e h

-- From the last of `len` entries to the first; behind the array's end nothing can be read.
unfoldable pub free_bodies : List Entry → ℕ → Heap → Result Heap
free_bodies bodies zero h = ok h
free_bodies bodies (suc len) h = do
  h' ← or_outside (get_elem? bodies len) h
  free_bodies bodies len h'

-- An array of bodies: the pointer to it, its entries up to the terminating NULL, and what
-- `parse_file` has in `rtf_size` or `html_size`.
pub record HeldBodies : Type 0 where
  pub array : Option ℕ
  pub entries : List Entry
  pub size : ℕ

abbrev pub is_set : Option ℕ → Bool
is_set none = false
is_set (some p) = true

unfoldable pub free_array : HeldBodies → ℕ → Heap → Result Heap
free_array b len h = do h' ← free_bodies b.entries len h; xfree b.array h'

-- The text is freed where there is one, the RTF and the HTML by their sizes.
unfoldable pub free_message : HeldBodies → HeldBodies → HeldBodies → Heap → Result Heap
free_message text rtf html h = do
  h1 ← if is_set text.array then free_array text 1 h else ok h
  h2 ← if rtf.size == 0 then ok h1 else free_array rtf rtf.size h1
  if html.size == 0 then ok h2 else free_array html html.size h2

abbrev pub entry_pointers : Entry → List (Option ℕ)
entry_pointers none = []
entry_pointers (some (p, data_ptr)) = data_ptr ∷ some p ∷ []

abbrev pub pointers_of : List Entry → List (Option ℕ)
pointers_of [] = []
pointers_of (e ∷ entries) = pointers_of entries ++ entry_pointers e

-- Everything that is reachable from an array, the last entry first.
abbrev pub reachable : HeldBodies → List (Option ℕ)
reachable b = pointers_of b.entries ++ b.array ∷ []

-- The size is the number of entries, and an array without entries is NULL.
abbrev pub IsSized : HeldBodies → Type 0
IsSized b = (b.size ≡ length b.entries) × (b.size ≡ 0 → b.array ≡ none)

-- One text, or none.
abbrev pub IsText : HeldBodies → Type 0
IsText b = (b.array ≡ none → length b.entries ≡ 0) × (is_set b.array ≡ true → length b.entries ≡ 1)

free_entry-each : (e : Entry) (h : Heap) → free_entry e h ≡ free_each (entry_pointers e) h
unfolding free_entry free_each
free_entry-each none h = refl
free_entry-each (some (p, data_ptr)) h =
    ap (λ f. xfree data_ptr h >>= f) (fun_ext λ h'. >>=-ok (xfree (some p) h'))

-- The entries behind the first stand one place further back.
free_bodies-cons :
    (e : Entry) (entries : List Entry) (len : ℕ) (h : Heap)
    → free_bodies (e ∷ entries) (suc len) h ≡ (free_bodies entries len h >>= free_entry e)
unfolding free_bodies
free_bodies-cons e entries zero h = sym (>>=-ok (free_entry e h))
free_bodies-cons e entries (suc len) h =
    >>=-assoc (or_outside (get_elem? entries len) h) (free_bodies entries len) (free_entry e)
      (free_bodies-cons e entries len)

free_bodies-each :
    (entries : List Entry) (h : Heap)
    → free_bodies entries (length entries) h ≡ free_each (pointers_of entries) h
free_bodies-each [] h = unfold free_bodies free_each in refl
free_bodies-each (e ∷ entries) h =
    free_bodies-cons e entries (length entries) h
    ∙ rw (free_bodies-each entries h) (
        ap (λ f. free_each (pointers_of entries) h >>= f) (fun_ext (free_entry-each e))
        ∙ sym (free_each-append (pointers_of entries) (entry_pointers e) h))

free_array-each :
    (b : HeldBodies) (len : ℕ) (h : Heap)
    → len ≡ length b.entries
    → free_array b len h ≡ free_each (reachable b) h
unfolding free_array
free_array-each b len h e =
    rw (e, free_bodies-each b.entries h) (free_each-then (pointers_of b.entries) b.array h)

no_entries : (entries : List Entry) → length entries ≡ 0 → entries ≡ []
no_entries [] e = refl
no_entries (b ∷ entries) e = absurd (omega arith)

nothing_there :
    (b : HeldBodies) (h : Heap)
    → length b.entries ≡ 0
    → b.array ≡ none
    → ok h ≡ free_each (reachable b) h
nothing_there b h e n = rw (no_entries b.entries e, n) (unfold free_each xfree in refl)

sized-each :
    (b : HeldBodies) (h : Heap)
    → IsSized b
    → (if b.size == 0 then ok h else free_array b b.size h) ≡ free_each (reachable b) h
sized-each b h (e, n) = elim (Bool-cases (b.size == 0)) [
  | inl z ↦ rw z (nothing_there b h (ground arith) (n (ground arith)))
  | inr z ↦ rw z (free_array-each b b.size h e)
]

not_set : (p : Option ℕ) → is_set p ≡ false → p ≡ none
not_set none e = refl
not_set (some p) e = absurd (ground arith)

text-each :
    (b : HeldBodies) (h : Heap)
    → IsText b
    → (if is_set b.array then free_array b 1 h else ok h) ≡ free_each (reachable b) h
text-each b h (n, one) = elim (Bool-cases (is_set b.array)) [
  | inl e ↦ rw e (free_array-each b 1 h (sym (one e)))
  | inr e ↦ let null = not_set b.array e in rw e (nothing_there b h (n null) null)
]

free_message-each :
    (text rtf html : HeldBodies) (h : Heap)
    → IsText text
    → IsSized rtf
    → IsSized html
    → free_message text rtf html h
      ≡ free_each (reachable text ++ (reachable rtf ++ reachable html)) h
unfolding free_message
free_message-each text rtf html h ht hr hh = rw (text-each text h ht) (
    sym (
      free_each-append (reachable text) (reachable rtf ++ reachable html) h
      ∙ ap (λ f. free_each (reachable text) h >>= f)
          (fun_ext λ h1. rw (sized-each rtf h1 hr) (
            free_each-append (reachable rtf) (reachable html) h1
            ∙ ap (λ f. free_each (reachable rtf) h1 >>= f)
                (fun_ext λ h2. sym (sized-each html h2 hh))))))

-- At the end of `parse_file` the bodies of the message are freed without a rest: where the pointers of
-- the three arrays are distinct and point to blocks, nothing is freed twice, nothing is read behind
-- an array, and the blocks that are left are those from before that no array reaches. (There is one
-- text at most, and the sizes are the numbers of entries.)
pub free_message-frees :
    (text rtf html : HeldBodies) (h : Heap)
    → IsText text
    → IsSized rtf
    → IsSized html
    → Distinct (reachable text ++ (reachable rtf ++ reachable html))
    → AreLive h (reachable text ++ (reachable rtf ++ reachable html))
    → (h' : Heap) × (free_message text rtf html h ≡ ok h')
      × ((q : ℕ)
          → h' q ≡ (h q && not (is_among q (reachable text ++ (reachable rtf ++ reachable html)))))
free_message-frees text rtf html h ht hr hh d l =
    let (h', done, after) = free_each-frees _ h d l in
    (h', free_message-each text rtf html h ht hr hh ∙ done, after)
