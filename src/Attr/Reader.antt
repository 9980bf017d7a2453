-- ===== src/Attr/Reader.antt =====
-- `attr_read` of src/attr.c against a writer of attributes, and what it takes off the stream.
use mathlib.Core.List.{append_assoc}
use tnef.Prelude.{
  ℕ, ◌+◌, ◌*◌, ◌/◌, ◌%◌, ◌^◌, ◌<◌, ◌≡◌, ◌⊎◌, refl, arith, true, false, ◌||◌, [], ◌∷◌, ◌++◌, length,
  length-append, ◌==◌, if◌then◌else◌,
}
use tnef.Outcome.{ok, halt, exit}
use tnef.Outcome.Post.{Post, Any, bind, seq, anyhow, assert-Post, if_ok, of_ok, returns}
use tnef.Env.{Env, flag_on, dbg_out, checksum_ok}
use tnef.Alloc.{checked_xcalloc, access}
use tnef.Alloc.Limit.{Serves, Serves-le, checked_xcalloc-Serves}
use tnef.Util.{Bytes, geti8, geti32, geti16, getbuf}
use tnef.Util.Words.{put16, put32}
use tnef.Util.Stream.{
  geti8_cons, geti32-put32, geti16-put16, getbuf-append, geti8_takes, geti16_takes, geti32_takes,
  getbuf_takes,
}
use tnef.Attr.{Attr, attr_read, sizeof_attr, verify}
use tnef.Attr.Checksum.{sum, check_checksum-append}

-- The bytes of an attribute with the given checksum field.
abbrev pub attr_bytes : ℕ → ℕ → ℕ → Bytes → ℕ → Bytes
attr_bytes lvl type name body checksum =
    lvl ∷ (put32 (type * 2 ^ 16 + name) ++ (put32 (length body) ++ (body ++ put16 checksum)))

abbrev pub attr_of : ℕ → ℕ → ℕ → Bytes → Attr
attr_of lvl type name body = record {
  lvl_type = lvl;
  type = type;
  name = name;
  len = length body;
  buf = body ++ 0 ∷ [];
}

attr_bytes-append :
    (lvl type name : ℕ) (body : Bytes) (checksum : ℕ) (rest : Bytes)
    → attr_bytes lvl type name body checksum ++ rest
      ≡ lvl
        ∷ (put32 (type * 2 ^ 16 + name)
            ++ (put32 (length body) ++ (body ++ (put16 checksum ++ rest))))
attr_bytes-append lvl type name body checksum rest = simp append_assoc

split_name : (type name : ℕ) → name < 2 ^ 16 → (type * 2 ^ 16 + name) / 2 ^ 16 ≡ type
split_name type name h = omega arith

split_type :
    (type name : ℕ) → name < 2 ^ 16 → (type * 2 ^ 16 + name) * 2 ^ 16 % 2 ^ 32 / 2 ^ 16 ≡ name
split_type type name h = omega arith

known_level : (lvl : ℕ) → (lvl ≡ 1) ⊎ (lvl ≡ 2) → (lvl == 1 || lvl == 2) ≡ true
known_level lvl h = ground arith

-- `attr_read` on a well-formed attribute with any checksum field, debugging off: if the field is
-- the sum of the bytes modulo 65536, or with --ignore-checksum, it returns the attribute and leaves
-- what follows; otherwise the program exits with status 1. (The sizes are within the limit, and
-- `malloc` is taken to succeed.)
pub attr_read-attr_bytes :
    (env : Env) (lvl type name : ℕ) (body rest : Bytes) (checksum : ℕ)
    → (lvl ≡ 1) ⊎ (lvl ≡ 2)
    → type < 2 ^ 16
    → name < 2 ^ 16
    → length body < 2 ^ 32
    → checksum < 2 ^ 16
    → Serves env (length body + sizeof_attr)
    → flag_on env dbg_out ≡ false
    → attr_read env (attr_bytes lvl type name body checksum ++ rest) ≡ (
        if sum body % 65536 == checksum || flag_on env checksum_ok
        then ok (attr_of lvl type name body, rest)
        else halt (exit 1))
unfolding attr_read access verify
attr_read-attr_bytes env lvl type name body rest checksum hl ht hn hb hc s d =
    rw
      (
        attr_bytes-append lvl type name body checksum rest,
        attr_read,
        checked_xcalloc-Serves 1 sizeof_attr 0 (Serves-le _ s (omega arith)) (omega arith),
        geti8_cons lvl _ (omega arith),
        known_level lvl hl,
        geti32-put32 (type * 2 ^ 16 + name) _ (omega arith),
        geti32-put32 (length body) _ (omega arith),
        checked_xcalloc-Serves (length body) 1 1 (Serves-le _ s (omega arith)) (omega arith),
        getbuf-append body _,
        geti16-put16 checksum rest hc,
        split_name type name hn,
        split_type type name hn,
        check_checksum-append (attr_of lvl type name body) body checksum refl refl,
      )
      (ground arith)

-- What holds of an attribute read off `in0`, and of the rest of the stream.
abbrev pub Read : Bytes → Attr × Bytes → Type 0
Read in0 r =
    (length in0 ≡ 11 + r.0.len + length r.1)
    × ((r.0.lvl_type ≡ 1) ⊎ (r.0.lvl_type ≡ 2))
    × (length r.0.buf ≡ r.0.len + 1)
    × (r.0.len < 2 ^ 32)

-- The attribute that `attr_read` makes of what it read.
abbrev attr_from : ℕ → ℕ → ℕ → Bytes → Attr
attr_from lvl_type type_and_name len buf = record {
  lvl_type = lvl_type;
  type = type_and_name / 2 ^ 16;
  name = type_and_name * 2 ^ 16 % 2 ^ 32 / 2 ^ 16;
  len = len;
  buf = buf ++ 0 ∷ [];
}

attr_read-Read : (env : Env) (in0 : Bytes) → Post (Read in0) Any (attr_read env in0)
unfolding attr_read
attr_read-Read env in0 = bind _ _ (anyhow (checked_xcalloc env 1 sizeof_attr 0)) λ p _.
    seq _ _ (anyhow (access p)) λ _.
      bind _ _ (if_ok (geti8 in0) (λ r. geti8_takes in0) (λ _ _. tt)) λ r1 h1.
        seq _ _ (assert-Post (r1.0 == 1 || r1.0 == 2) tt) λ level.
          bind _ _ (if_ok (geti32 r1.1) (λ r. geti32_takes r1.1) (λ _ _. tt)) λ r2 h2.
            bind _ _ (if_ok (geti32 r2.1) (λ r. geti32_takes r2.1) (λ _ _. tt)) λ r3 h3.
              bind _ _ (anyhow (checked_xcalloc env r3.0 1 1)) λ p' _.
                seq _ _ (anyhow (access p')) λ _.
                  bind _ _ (if_ok (getbuf r3.1 r3.0) (λ r. getbuf_takes r3.1 r3.0) (λ _ _. tt))
                    λ r4 h4.
                      bind _ _ (if_ok (geti16 r4.1) (λ r. geti16_takes r4.1) (λ _ _. tt)) λ r5 h5.
                        seq _ _ (anyhow (verify env (attr_from r1.0 r2.0 r3.0 r4.0) r5.0)) λ _.
                          returns {a = (attr_from r1.0 r2.0 r3.0 r4.0, r5.1)} (
                            omega (arith, length-append r4.0 (0 ∷ [])),
                            ground arith,
                            omega (arith, length-append r4.0 (0 ∷ [])),
                            omega arith,
                          )

-- Whatever `attr_read` returns: it took 11 bytes and the data off the stream, the level is one of
-- the two, and the block holds the data and the 0 behind it.
pub attr_read_takes :
    (env : Env) (in0 : Bytes) {r : Attr × Bytes}
    → attr_read env in0 ≡ ok r
    → (length in0 ≡ 11 + r.0.len + length r.1)
      × ((r.0.lvl_type ≡ 1) ⊎ (r.0.lvl_type ≡ 2))
      × (length r.0.buf ≡ r.0.len + 1)
      × (r.0.len < 2 ^ 32)
attr_read_takes env in0 {r} e = of_ok _ r (attr_read-Read env in0) e
