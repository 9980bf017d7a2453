-- ===== src/Mapi/Reads.antt =====
-- Where the readers of src/mapi_attr.c read: none of them leaves the block while the offset that it
-- is called with is right. A block has at least `len` bytes, and `malloc` is taken to succeed.
use tnef.Prelude.{
  ℕ, zero, suc, ◌+◌, ◌^◌, ◌<◌, ◌≤◌, ◌≡◌, refl, arith, true, [], ◌∷◌, drop, length, length-drop, leb,
  ltb,
}
use tnef.Outcome.{ok, exit}
use tnef.Outcome.Post.{
  Post, NoFault, bind, seq, returns, assert-Post, stop_if-Post, exit-ne-fault, failed-ne-fault,
}
use tnef.Env.{Env}
use tnef.Util.{Bytes, getint16, checkint16, checkint32, unicode_to_utf8}
use tnef.Util.Words.{getint32_reads, getint16_reads}
use tnef.Util.Utf8.{unicode_to_utf8_returns}
use tnef.Mapi.Header.{next32, next16, read_bytes, copy_guid_from_buf}

-- A read at `idx` that succeeds was inside of the first `len` bytes.
pub next32-Post :
    (buf : Bytes) (len idx : ℕ)
    → len ≤ length buf
    → Post (λ v. (idx + 4 ≤ len) × (v < 2 ^ 32)) NoFault (next32 buf len idx)
unfolding next32 checkint32
next32-Post buf len idx h =
    seq _ _ (stop_if-Post (ltb len (idx + 4)) (exit 255) (exit-ne-fault 255)) λ inside.
      let (v, e, b) = getint32_reads (drop idx buf) (rw length-drop (ground arith)) in
      rw e (returns (ground arith, b))

pub next16-Post :
    (buf : Bytes) (len idx : ℕ)
    → len ≤ length buf
    → Post
        (λ v. (idx + 2 ≤ len) × (v < 2 ^ 16) × (getint16 (drop idx buf) ≡ ok v))
        NoFault
        (next16 buf len idx)
unfolding next16 checkint16
next16-Post buf len idx h =
    seq _ _ (stop_if-Post (ltb len (idx + 2)) (exit 255) (exit-ne-fault 255)) λ inside.
      let (v, e, b) = getint16_reads (drop idx buf) (rw length-drop (ground arith)) in
      rw e (returns (ground arith, b, refl))

pub read_bytes-Post :
    (n : ℕ) (p : Bytes) → n ≤ length p → Post (λ s. length s ≡ n) NoFault (read_bytes n p)
unfolding read_bytes
read_bytes-Post zero p h = returns refl
read_bytes-Post (suc n) [] h = absurd (omega arith)
read_bytes-Post (suc n) (b ∷ p) h =
    bind _ _ (read_bytes-Post n p (omega arith)) λ rest e. returns (omega arith)

-- `copy_guid_from_buf` is safe where 16 bytes are there; with a `len` below 16 it stops before it
-- reads.
pub copy_guid-Post :
    (buf : Bytes) (len : ℕ)
    → (16 ≤ len → len ≤ length buf)
    → Post (λ _. 16 ≤ len) NoFault (copy_guid_from_buf buf len)
unfolding copy_guid_from_buf
copy_guid-Post buf len h = seq _ _ (assert-Post (leb 16 len) failed-ne-fault) λ enough.
    bind _ _ (next32-Post buf len 0 (h (ground arith))) λ _ _.
      bind _ _ (next16-Post buf len 4 (h (ground arith))) λ _ _.
        bind _ _ (next16-Post buf len 6 (h (ground arith))) λ _ _.
          bind _ _ (read_bytes-Post 8 (drop 8 buf) (rw length-drop (ground arith)))
            λ _ _. returns (ground arith)

pub unicode-Post :
    (env : Env) (n : ℕ) (p : Bytes)
    → ((k : ℕ) → env.malloc k ≡ true)
    → n ≤ length p
    → Post (λ _. Unit) NoFault (unicode_to_utf8 env n p)
unicode-Post env n p m h =
    let (s, e, _) = unicode_to_utf8_returns env n p (m _) h in rw e (returns tt)
