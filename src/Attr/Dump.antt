-- ===== src/Attr/Dump.antt =====
-- Where the loops of `attr_dump` in src/attr.c read.
use tnef.Prelude.{
  ℕ, zero, suc, ◌+◌, ◌%◌, ◌≡◌, refl, ◌∙◌, arith, ◌||◌, [], ◌∷◌, length, ◌==◌, if◌then◌else◌,
}
use tnef.Outcome.{Result, ok, halt, fault}
use tnef.Env.{Env}
use tnef.Util.{Bytes, getint16, getint32}
use tnef.Attr.{Attr, dump_words, dump_dwords, attr_dump}
use tnef.Names.{sz_word, sz_dword}

dump_words_lem : (len : ℕ) (buf : Bytes) → length buf ≡ len + 1 → dump_words len buf ≡ ok tt
unfolding dump_words getint16
dump_words_lem zero buf h = refl
dump_words_lem (suc zero) (a ∷ b ∷ buf) h = refl
dump_words_lem (suc zero) (a ∷ []) h = absurd (omega arith)
dump_words_lem (suc zero) [] h = absurd (omega arith)
dump_words_lem (suc (suc left)) (a ∷ b ∷ buf) h = dump_words_lem left buf (omega arith)
dump_words_lem (suc (suc left)) (a ∷ []) h = absurd (omega arith)
dump_words_lem (suc (suc left)) [] h = absurd (omega arith)

abbrev over_read : ℕ → Result (Unit {0})
over_read len = if len % 4 == 1 || len % 4 == 2 then halt fault else ok tt

dump_dwords_lem :
    (len : ℕ) (buf : Bytes) → length buf ≡ len + 1 → dump_dwords len buf ≡ over_read len
unfolding dump_dwords getint32
dump_dwords_lem zero buf h = refl
dump_dwords_lem (suc zero) (a ∷ b ∷ []) h = refl
dump_dwords_lem (suc (suc zero)) (a ∷ b ∷ c ∷ []) h = refl
dump_dwords_lem (suc (suc (suc zero))) (a ∷ b ∷ c ∷ d ∷ buf) h = refl
dump_dwords_lem (suc (suc (suc (suc left)))) (a ∷ b ∷ c ∷ d ∷ buf) h =
    dump_dwords_lem left buf (omega arith) ∙ ground arith
dump_dwords_lem _ _ h = absurd (omega arith)

-- Debug output of `szWORD` data stays in the block, odd lengths included.
pub attr_dump_word :
    (env : Env) (attr : Attr)
    → attr.type ≡ sz_word
    → length attr.buf ≡ attr.len + 1
    → attr_dump env attr ≡ ok tt
unfolding attr_dump
attr_dump_word env attr t h = rw t (dump_words_lem attr.len attr.buf h)

-- Debug output of `szDWORD` data reads behind the block exactly when the length is 1 or 2 modulo 4,
-- and ends well otherwise. The block is the data with one more byte, as `attr_read` makes it.
pub attr_dump_dword :
    (env : Env) (attr : Attr)
    → attr.type ≡ sz_dword
    → length attr.buf ≡ attr.len + 1
    → attr_dump env attr ≡ (if attr.len % 4 == 1 || attr.len % 4 == 2 then halt fault else ok tt)
unfolding attr_dump
attr_dump_dword env attr t h = rw t (dump_dwords_lem attr.len attr.buf h)
