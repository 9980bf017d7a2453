-- ===== src/Attr.antt =====
-- src/attr.c: the attributes of a TNEF stream.
pub mod Checksum
pub mod Reader
pub mod Dump
use Prim.Native.Nat.{bit_and}
use tnef.Prelude.{
  ℕ, zero, suc, ◌+◌, ◌*◌, ◌/◌, ◌%◌, ◌^◌, Bool, true, false, not, ◌||◌, ◌&&◌, List, [], ◌∷◌, ◌++◌,
  take, drop, length, ltb, leb, ◌==◌, if◌then◌else◌,
}
use tnef.Outcome.{Result, ok, halt, abort, exit, assert, stop_if, ◌>>=◌, ◌>>◌}
use tnef.Env.{Env, flag_on, dbg_out, checksum_ok}
use tnef.Alloc.{checked_xcalloc, checked_xmalloc, access}
use tnef.Util.{Bytes, getint16, getint32, getbuf, geti8, geti16, geti32}
use tnef.Date.{Date, date_read, dow_str_assert}
use tnef.Names.{
  sz_triples, sz_string, sz_text, sz_date, sz_short, sz_long, sz_byte, sz_word, sz_dword,
  att_oemcodepage,
}

abbrev pub lvl_message : ℕ
lvl_message = 0x1

abbrev pub lvl_attachment : ℕ
lvl_attachment = 0x2

abbrev pub sizeof_attr : ℕ
sizeof_attr = 32

-- `buf` is the whole block: `len` bytes and the 0 that `attr_read` allocates behind them.
pub record Attr : Type 0 where
  pub lvl_type : ℕ
  pub type : ℕ
  pub name : ℕ
  pub len : ℕ
  pub buf : Bytes

pub record Triple : Type 0 where
  pub id : ℕ
  pub chbgtrp : ℕ
  pub cch : ℕ
  pub cb : ℕ
  -- where in `buf` the two names start
  pub sender_display_name : ℕ
  pub sender_address : ℕ

unfoldable pub copy_date_from_attr : Attr → Result Date
copy_date_from_attr attr = do
  assert (attr.type == sz_date)
  assert (leb 14 attr.len)
  date_read attr.buf

unfoldable pub copy_triple_from_attr : Attr → Result Triple
copy_triple_from_attr attr = do
  assert (attr.type == sz_triples)
  assert (ltb 8 attr.len)
  id ← getint16 attr.buf
  chbgtrp ← getint16 (drop 2 attr.buf)
  cch ← getint16 (drop 4 attr.buf)
  cb ← getint16 (drop 6 attr.buf)
  assert (ltb (8 + cch) attr.len)
  ok (record {
    id = id;
    chbgtrp = chbgtrp;
    cch = cch;
    cb = cb;
    sender_display_name = 8;
    sender_address = 8 + cch;
  })

-- The loop over `szWORD` data from `buf + i`, with `len - i` for the first argument.
unfoldable pub dump_words : ℕ → Bytes → Result (Unit {0})
dump_words zero buf = ok tt
dump_words (suc zero) buf = do w ← getint16 buf; ok tt
dump_words (suc (suc left)) buf = do w ← getint16 buf; dump_words left (drop 2 buf)

-- The loop over `szDWORD` data, the same way.
unfoldable pub dump_dwords : ℕ → Bytes → Result (Unit {0})
dump_dwords zero buf = ok tt
dump_dwords (suc zero) buf = do d ← getint32 buf; ok tt
dump_dwords (suc (suc zero)) buf = do d ← getint32 buf; ok tt
dump_dwords (suc (suc (suc zero))) buf = do d ← getint32 buf; ok tt
dump_dwords (suc (suc (suc (suc left)))) buf = do d ← getint32 buf; dump_dwords left (drop 4 buf)

-- `attr_dump` without its output: what it reads and tests, and where it stops the program.
unfoldable pub attr_dump : Env → Attr → Result (Unit {0})
attr_dump env attr =
    if attr.type == sz_byte
    then (if attr.name == att_oemcodepage
        then (do primary ← getint32 attr.buf; secondary ← getint32 (drop 4 attr.buf); ok tt)
        else ok tt)
    else if attr.type == sz_short
    then (do stop_if (ltb attr.len 2) abort; s ← getint16 attr.buf; ok tt)
    else if attr.type == sz_long
    then (do stop_if (ltb attr.len 4) abort; l ← getint32 attr.buf; ok tt)
    else if attr.type == sz_word
    then dump_words attr.len attr.buf
    else if attr.type == sz_dword
    then dump_dwords attr.len attr.buf
    else if attr.type == sz_date
    then (do dt ← copy_date_from_attr attr; dow_str_assert dt.dow)
    else if attr.type == sz_text || attr.type == sz_string
    then (do p ← checked_xmalloc env (attr.len + 1) 1 0; access p)
    else if attr.type == sz_triples
    then (do triple ← copy_triple_from_attr attr; ok tt)
    else ok tt

-- `sum = (sum + (uint8)attr->buf[i]) & 0xffff`, over the bytes that are left.
unfoldable pub checksum_loop : ℕ → Bytes → ℕ
checksum_loop sum [] = sum
checksum_loop sum (b ∷ bytes) = checksum_loop ((sum + b) % 2 ^ 16) bytes

-- The debugging branch of `check_checksum` only prints.
unfoldable pub check_checksum : Attr → ℕ → Bool
check_checksum attr checksum = checksum_loop 0 (take attr.len attr.buf) == checksum

-- The end of `attr_read`: a wrong checksum is an error or, with --ignore-checksum, a warning.
unfoldable pub verify : Env → Attr → ℕ → Result (Unit {0})
verify env attr checksum = do
  stop_if (not (check_checksum attr checksum) && not (flag_on env checksum_ok)) (exit 1)
  if flag_on env dbg_out then attr_dump env attr else ok tt

-- The attribute and what is left of the stream.
unfoldable pub attr_read : Env → Bytes → Result (Attr × Bytes)
attr_read env in0 = do
  p ← checked_xcalloc env 1 sizeof_attr 0
  access p
  (lvl_type, in1) ← geti8 in0
  assert (lvl_type == lvl_message || lvl_type == lvl_attachment)
  (type_and_name, in2) ← geti32 in1
  (len, in3) ← geti32 in2
  b ← checked_xcalloc env len 1 1
  access b
  (buf, in4) ← getbuf in3 len
  (checksum, in5) ← geti16 in4
  let attr : Attr = record {
    lvl_type = lvl_type;
    type = type_and_name / 2 ^ 16;
    name = type_and_name * 2 ^ 16 % 2 ^ 32 / 2 ^ 16;
    len = len;
    buf = buf ++ 0 ∷ [];
  }
  verify env attr checksum
  ok (attr, in5)
