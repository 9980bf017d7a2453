-- ===== src/Write/AttrDump.antt =====
-- `attr_dump` of src/attr.c with the text that it prints. What was printed before the program stops is left out.
use tnef.Prelude.{
  ℕ, zero, suc, ◌+◌, ◌-◌, ◌||◌, [], ◌∷◌, ◌++◌, drop, take, ltb, ◌==◌, if◌then◌else◌, ascii,
}
use tnef.Outcome.{Result, ok, halt, fault, abort, stop_if, ◌>>=◌, ◌>>◌}
use tnef.Env.{Env}
use tnef.Alloc.{checked_xmalloc, access}
use tnef.Util.{Bytes, c_string, getint16, getint32}
use tnef.Print.{decimal}
use tnef.Names.{
  sz_byte, sz_short, sz_long, sz_word, sz_dword, sz_date, sz_text, sz_string, sz_triples,
  att_oemcodepage,
}
use tnef.Attr.{Attr, lvl_message, copy_date_from_attr, copy_triple_from_attr}
use tnef.Write.{
  write_uint8, write_uint16, write_uint32, write_byte, write_word, write_dword, write_date,
  write_string, write_triple,
}

-- `n` bytes, each with a blank before it.
unfoldable pub dump_each : (ℕ → Bytes) → ℕ → Bytes → Result Bytes
dump_each write zero p = ok []
dump_each write (suc n) [] = halt fault
dump_each write (suc n) (b ∷ p) = do rest ← dump_each write n p; ok (b' ' ∷ write b ++ rest)

-- What stands behind a short or a long.
unfoldable pub extra_data : ℕ → Bytes → Result Bytes
extra_data n p =
    if n == 0
    then ok []
    else (do rest ← dump_each write_uint8 n p; ok (ascii " [extra data:" ++ rest ++ ascii " ]"))

unfoldable pub words_text : ℕ → Bytes → Result Bytes
words_text zero buf = ok []
words_text (suc zero) buf = do w ← getint16 buf; ok (b' ' ∷ write_word w)
words_text (suc (suc left)) buf = do
  w ← getint16 buf
  rest ← words_text left (drop 2 buf)
  ok (b' ' ∷ write_word w ++ rest)

unfoldable pub dwords_text : ℕ → Bytes → Result Bytes
dwords_text zero buf = ok []
dwords_text (suc zero) buf = do d ← getint32 buf; ok (b' ' ∷ write_dword d)
dwords_text (suc (suc zero)) buf = do d ← getint32 buf; ok (b' ' ∷ write_dword d)
dwords_text (suc (suc (suc zero))) buf = do d ← getint32 buf; ok (b' ' ∷ write_dword d)
dwords_text (suc (suc (suc (suc left)))) buf = do
  d ← getint32 buf
  rest ← dwords_text left (drop 4 buf)
  ok (b' ' ∷ write_dword d ++ rest)

-- The `switch` on the type.
unfoldable pub data_text : Env → Attr → Result Bytes
data_text env attr =
    if attr.type == sz_byte
    then (if attr.name == att_oemcodepage
        then (do
          primary ← getint32 attr.buf
          secondary ← getint32 (drop 4 attr.buf)
          ok (
              ascii " CodePage - Primary: "
              ++ decimal primary
              ++ ascii ", Secondary: "
              ++ decimal secondary))
        else dump_each write_byte attr.len attr.buf)
    else if attr.type == sz_short
    then (do
      stop_if (ltb attr.len 2) abort
      s ← getint16 attr.buf
      extra ← extra_data (attr.len - 2) (drop 2 attr.buf)
      ok (b' ' ∷ write_uint16 s ++ extra))
    else if attr.type == sz_long
    then (do
      stop_if (ltb attr.len 4) abort
      l ← getint32 attr.buf
      extra ← extra_data (attr.len - 4) (drop 4 attr.buf)
      ok (b' ' ∷ write_uint32 l ++ extra))
    else if attr.type == sz_word
    then words_text attr.len attr.buf
    else if attr.type == sz_dword
    then dwords_text attr.len attr.buf
    else if attr.type == sz_date
    then (do dt ← copy_date_from_attr attr; date ← write_date dt; ok (b' ' ∷ date))
    else if attr.type == sz_text || attr.type == sz_string
    then (do
      p ← checked_xmalloc env (attr.len + 1) 1 0
      access p
      s ← c_string (take attr.len attr.buf ++ 0 ∷ [])
      ok (write_string s))
    else if attr.type == sz_triples
    then (do triple ← copy_triple_from_attr attr; write_triple attr.buf triple)
    else ok (ascii "<unknown type>")

module _ (get_tnef_name_str get_tnef_type_str : ℕ → Bytes) where
  abbrev pub heading : Attr → Bytes
  heading attr =
      ascii "("
      ++ (if attr.lvl_type == lvl_message then ascii "MESS" else ascii "ATTA")
      ++ ascii ") "
      ++ get_tnef_name_str attr.name
      ++ ascii " [type: "
      ++ get_tnef_type_str attr.type
      ++ ascii "] [len: "
      ++ decimal attr.len
      ++ ascii "] ="

  unfoldable pub attr_dump_text : Env → Attr → Result Bytes
  attr_dump_text env attr = do text ← data_text env attr; ok (heading attr ++ text ++ 10 ∷ [])
