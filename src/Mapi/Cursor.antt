-- ===== src/Mapi/Cursor.antt =====
-- Reading at an offset of a block: what stands there, and that it is within the first `len` bytes.
use native.Mathlib.Nat.{zero-add, suc-add}
use mathlib.Core.Path.{subst}
use mathlib.Core.List.{append_assoc}
use tnef.Prelude.{
  ℕ, zero, suc, ◌+◌, ◌^◌, ◌<◌, ◌≤◌, ◌≡◌, refl, sym, ap, ◌∙◌, ltb_of_le, drop-append, arith, [], ◌∷◌,
  ◌++◌, drop, length, length-append,
}
use tnef.Outcome.{ok}
use tnef.Util.{Bytes, checkint16, checkint32}
use tnef.Util.Words.{put16, put32, getint16-put16, getint32-put32}
use tnef.Mapi.Header.{next16, next32}

pub length-put32 : (x : ℕ) → length (put32 x) ≡ 4
unfolding put32
length-put32 x = refl

pub length-put16 : (x : ℕ) → length (put16 x) ≡ 2
unfolding put16
length-put16 x = refl

drop-drop : (m n : ℕ) (s : Bytes) → drop n (drop m s) ≡ drop (m + n) s
drop-drop zero n s = rw zero-add
drop-drop (suc m) zero [] = rw suc-add
drop-drop (suc m) (suc n) [] = rw suc-add
drop-drop (suc m) n (b ∷ s) = rw suc-add (drop-drop m n s)

-- `s` stands at `buf + idx`, within the first `len` bytes.
pub record At (buf : Bytes) (len idx : ℕ) (s : Bytes) : Type 0 where
  pub rest : Bytes
  pub here : drop idx buf ≡ s ++ rest
  pub within : idx + length s ≤ len

module _ {buf : Bytes} {len idx : ℕ} where
  pub At-next : (s t : Bytes) → At buf len idx (s ++ t) → At buf len (idx + length s) t
  At-next s t h = record {
    rest = h.rest;
    here =
        sym (drop-drop idx (length s) buf)
        ∙ ap (drop (length s)) (h.here ∙ append_assoc s t h.rest)
        ∙ drop-append s (t ++ h.rest);
    within = omega (arith, h.within, length-append s t);
  }

  -- At an offset that is written otherwise.
  pub At-to : {idx' : ℕ} {s : Bytes} → idx ≡ idx' → At buf len idx s → At buf len idx' s
  At-to {s} e h = subst (λ i. At buf len i s) e h

  pub next32-At :
      (x : ℕ) (t : Bytes) → x < 2 ^ 32 → At buf len idx (put32 x ++ t) → next32 buf len idx ≡ ok x
  unfolding next32 checkint32
  next32-At x t b h = rw (
    ltb_of_le len (idx + 4) (omega (arith, h.within, length-append (put32 x) t, length-put32 x)),
    h.here,
    append_assoc,
    getint32-put32 x (t ++ h.rest) b,
  )

  pub next16-At :
      (x : ℕ) (t : Bytes) → x < 2 ^ 16 → At buf len idx (put16 x ++ t) → next16 buf len idx ≡ ok x
  unfolding next16 checkint16
  next16-At x t b h = rw (
    ltb_of_le len (idx + 2) (omega (arith, h.within, length-append (put16 x) t, length-put16 x)),
    h.here,
    append_assoc,
    getint16-put16 x (t ++ h.rest) b,
  )
