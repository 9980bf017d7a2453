-- ===== src/Write/Triples.antt =====
-- `write_triple` of src/write.c on what `copy_triple_from_attr` of src/attr.c found.
use tnef.Prelude.{ℕ, zero, suc, ◌+◌, ◌≡◌, ◌≤◌, refl, arith, [], ◌∷◌, ◌++◌, length, drop, ltb, ◌==◌}
use tnef.Outcome.{ok, assert}
use tnef.Outcome.Post.{Post, Any, bind, seq, returns, anyhow, assert-Post, of_ok}
use tnef.Util.{Bytes, c_string, getint16}
use tnef.Names.{sz_triples}
use tnef.Attr.{Attr, Triple, copy_triple_from_attr}
use tnef.Mapi.Fits.{Never, of_Never, c_string-Terminated}
use tnef.Write.{write_triple}

drop-append : (n : ℕ) (s t : Bytes) → n ≤ length s → drop n (s ++ t) ≡ drop n s ++ t
drop-append zero s t h = refl
drop-append (suc n) [] t h = absurd (omega arith)
drop-append (suc n) (b ∷ s) t h = drop-append n s t (omega arith)

-- Both names start inside of the data.
abbrev Inside : ℕ → Triple → Type 0
Inside len triple = (triple.sender_display_name ≤ len) × (triple.sender_address ≤ len)

copy_triple-Inside : (attr : Attr) → Post (Inside attr.len) Any (copy_triple_from_attr attr)
unfolding copy_triple_from_attr
copy_triple-Inside attr = seq _ _ (anyhow (assert (attr.type == sz_triples))) λ _.
    seq _ _ (assert-Post (ltb 8 attr.len) tt) λ enough.
      bind _ _ (anyhow (getint16 attr.buf)) λ id _.
        bind _ _ (anyhow (getint16 (drop 2 attr.buf))) λ chbgtrp _.
          bind _ _ (anyhow (getint16 (drop 4 attr.buf))) λ cch _.
            bind _ _ (anyhow (getint16 (drop 6 attr.buf))) λ cb _.
              seq _ _ (assert-Post (ltb (8 + cch) attr.len) tt)
                λ inside. returns (ground arith, ground arith)

-- If `copy_triple_from_attr` returns, and the block is the data with a 0 behind it, as `attr_read` makes
-- it, `write_triple` prints the triple: its two names end inside of the block.
pub write_triple_ends :
    (attr : Attr) (bytes : Bytes) (triple : Triple)
    → attr.buf ≡ bytes ++ 0 ∷ []
    → length bytes ≡ attr.len
    → copy_triple_from_attr attr ≡ ok triple
    → (text : Bytes) × (write_triple attr.buf triple ≡ ok text)
unfolding write_triple
write_triple_ends attr bytes triple e l copied =
    let (name, address) = of_ok {P = Inside attr.len} _ triple (copy_triple-Inside attr) copied in
    of_Never {P = λ _. Unit {0}} _ (
      bind _ _ (ends triple.sender_display_name (rw l name))
        λ _ _. bind _ _ (ends triple.sender_address (rw l address)) λ _ _. returns tt)
  where
    ends : (n : ℕ) → n ≤ length bytes → Post (λ _. Unit) Never (c_string (drop n attr.buf))
    ends n h =
        c_string-Terminated (drop n attr.buf) (drop n bytes) (rw e (drop-append n bytes (0 ∷ []) h))
