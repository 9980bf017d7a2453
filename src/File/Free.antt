-- ===== src/File/Free.antt =====
-- `file_free` of src/file.c, and the loop of src/tnef.c that frees the files of one array of bodies.
use mathlib.Core.Path.{fun_ext}
use tnef.Prelude.{
  ℕ, ◌≡◌, refl, ap, ◌∙◌, sym, arith, true, false, List, [], ◌∷◌, ◌++◌, inl, inr, Option, none, some,
  Bool-cases, not, ◌&&◌,
}
use tnef.Outcome.{Result, ok, halt, fault, ◌>>=◌}
use tnef.Heap.{
  Heap, free, xfree, without, free_each, is_among, free_each-append, free_each-frees, Distinct,
  AreLive, >>=-assoc, xfree-then, xfree-each, free_each-then,
}

-- The pointers of a `File`.
pub record HeldFile : Type 0 where
  pub name : Option ℕ
  pub data_ptr : Option ℕ
  pub mime_type : Option ℕ
  pub content_id : Option ℕ
  pub path : Option ℕ

unfoldable pub file_free : HeldFile → Heap → Result Heap
file_free f h = do
  h1 ← xfree f.name h
  h2 ← xfree f.data_ptr h1
  h3 ← xfree f.mime_type h2
  h4 ← xfree f.content_id h3
  xfree f.path h4

-- The files of an array, each with the pointer to it.
unfoldable pub free_files : List (Option ℕ × HeldFile) → Heap → Result Heap
free_files [] h = ok h
free_files ((p, f) ∷ files) h = do h1 ← file_free f h; h2 ← xfree p h1; free_files files h2

-- The blocks that a body gets of its own: its `File`, its data, and the path that `file_write` sets.
pub record HeldBody : Type 0 where
  pub file : ℕ
  pub data_ptr : ℕ
  pub path : ℕ

-- The files that `get_body_files` makes, as they are when they are freed: `tmp` and `mime` are
-- allocated once, before the loop over the bodies.
unfoldable pub held_files : ℕ → ℕ → List HeldBody → List (Option ℕ × HeldFile)
held_files tmp mime [] = []
held_files tmp mime (body ∷ bodies) =
    (
      some body.file,
      record {
        name = some tmp;
        data_ptr = some body.data_ptr;
        mime_type = some mime;
        content_id = none;
        path = some body.path;
      },
    )
    ∷ held_files tmp mime bodies

abbrev pub file_pointers : Option ℕ × HeldFile → List (Option ℕ)
file_pointers (p, f) = f.name ∷ f.data_ptr ∷ f.mime_type ∷ f.content_id ∷ f.path ∷ p ∷ []

abbrev pub all_pointers : List (Option ℕ × HeldFile) → List (Option ℕ)
all_pointers [] = []
all_pointers (f ∷ files) = file_pointers f ++ all_pointers files

-- What is not there stays away.
gone :
    (p : ℕ) (ps : List (Option ℕ)) (h : Heap)
    → h p ≡ false
    → is_among p ps ≡ true
    → free_each ps h ≡ halt fault
unfolding free_each xfree free is_among
gone p [] h n among = absurd (ground arith)
gone p (none ∷ ps) h n among = gone p ps h n among
gone p (some q ∷ ps) h n among = elim (Bool-cases (h q)) [
  | inl live ↦ rw live (gone p ps (without q h) (ground arith) (ground arith))
  | inr dead ↦ rw dead refl
]

-- A pointer that comes twice is freed twice, at the latest.
twice :
    (p : ℕ) (ps : List (Option ℕ)) (h : Heap)
    → is_among p ps ≡ true
    → free_each (some p ∷ ps) h ≡ halt fault
unfolding free_each xfree free
twice p ps h among = elim (Bool-cases (h p)) [
  | inl live ↦ rw live (gone p ps (without p h) (ground arith) among)
  | inr dead ↦ rw dead refl
]

file_free-each :
    (f : HeldFile) (h : Heap)
    → file_free f h ≡ free_each (f.name ∷ f.data_ptr ∷ f.mime_type ∷ f.content_id ∷ f.path ∷ []) h
unfolding file_free
file_free-each f = xfree-then f.name _ _ (
    xfree-then f.data_ptr _ _
      (xfree-then f.mime_type _ _ (xfree-then f.content_id _ (xfree f.path) (xfree-each f.path))))

file-each :
    (p : Option ℕ) (f : HeldFile) (h : Heap)
    → (file_free f h >>= xfree p) ≡ free_each (file_pointers (p, f)) h
file-each p f h = rw (file_free-each f h) (free_each-then _ p h)

files-each :
    (files : List (Option ℕ × HeldFile)) (h : Heap)
    → free_files files h ≡ free_each (all_pointers files) h
unfolding free_files
files-each [] h = unfold free_each in refl
files-each ((p, f) ∷ files) h =
    >>=-assoc (file_free f h) (xfree p) (free_files files) (λ h'. refl)
    ∙ rw (file-each p f h) (
        ap (λ k. free_each (file_pointers (p, f)) h >>= k) (fun_ext (files-each files))
        ∙ sym (free_each-append (file_pointers (p, f)) (all_pointers files) h))

-- Two files with one block for their name.
free_files-shared :
    (p q : Option ℕ) (f g : HeldFile) (files : List (Option ℕ × HeldFile)) (name : ℕ) (h : Heap)
    → f.name ≡ some name
    → g.name ≡ some name
    → free_files ((p, f) ∷ (q, g) ∷ files) h ≡ halt fault
unfolding is_among
free_files-shared p q f g files name h ef eg =
    files-each ((p, f) ∷ (q, g) ∷ files) h
    ∙ rw (ef, eg)
        (twice name _ h (
          after (f.data_ptr ∷ f.mime_type ∷ f.content_id ∷ f.path ∷ p ∷ [])
            (g.data_ptr ∷ g.mime_type ∷ g.content_id ∷ g.path ∷ q ∷ all_pointers files)))
  where
    after : (qs ps : List (Option ℕ)) → is_among name (qs ++ some name ∷ ps) ≡ true
    after [] ps = ground arith
    after (r ∷ qs) ps = ground (arith, after qs ps)

-- The blocks of one body's file.
abbrev pub blocks_of : ℕ → ℕ → HeldBody → List (Option ℕ)
blocks_of tmp mime body =
    some tmp ∷ some body.data_ptr ∷ some mime ∷ none ∷ some body.path ∷ some body.file ∷ []

-- What the loop of `parse_file` frees of the files that `get_body_files` makes of the bodies of one
-- kind. A single body, the blocks of its file distinct and there: just these are freed. One more
-- body, whatever its blocks are: a block is freed that is not there any more.
pub free_files-held_files :
    (tmp mime : ℕ) (body next : HeldBody) (bodies : List HeldBody) (h : Heap)
    → Distinct (blocks_of tmp mime body)
    → AreLive h (blocks_of tmp mime body)
    → (h' : Heap) × (free_files (held_files tmp mime (body ∷ [])) h ≡ ok h')
      × ((q : ℕ) → h' q ≡ (h q && not (is_among q (blocks_of tmp mime body))))
      × (free_files (held_files tmp mime (body ∷ next ∷ bodies)) h ≡ halt fault)
unfolding held_files
free_files-held_files tmp mime body next bodies h d l =
    let (h', done, after) = free_each-frees (blocks_of tmp mime body) h d l in
    (
      h',
      files-each (held_files tmp mime (body ∷ [])) h ∙ done,
      after,
      free_files-shared (some body.file) (some next.file) _ _ (held_files tmp mime bodies) tmp h
          refl refl,
    )
