-- ===== src/Rtf.antt =====
-- src/rtf.c: compressed RTF, [MS-OXRTFCP].
pub mod Table
pub mod Crc
pub mod Room
pub mod Window
pub mod Stream
pub mod Lz77
pub mod Past
pub mod Shows
pub mod Refine
use Prim.Native.Nat.{bit_xor}
use tnef.Prelude.{
  ℕ, zero, suc, ◌+◌, ◌-◌, ◌*◌, ◌/◌, ◌%◌, ◌^◌, Bool, true, false, not, ◌||◌, ◌&&◌, List, [], ◌∷◌,
  ◌++◌, Option, none, some, length, take, drop, set, get_or, replicate, ltb, leb, ◌==◌,
  if◌then◌else◌,
}
use tnef.Outcome.{Result, ok, halt, fault, assert, stop_if, ◌>>=◌, ◌>>◌}
use tnef.Env.{Env}
use tnef.Alloc.{checked_xcalloc, xmalloc, access, access_some}
use tnef.Util.{Bytes, getint32}
use tnef.Mapi.Types.{Content, block, MapiValue, MapiAttr, VarLenData}
use tnef.Mapi.Header.{read_bytes}
use Table.{crc_table, rtf_prebuf, rtf_uncompressed_magic, rtf_compressed_magic}

-- `j = (crc ^ c) & 0xff; crc = crc_table[j] ^ (crc >> 8)`, over the bytes that are left.
unfoldable pub crc_loop : ℕ → Bytes → ℕ
crc_loop crc [] = crc
crc_loop crc (c ∷ bytes) =
    crc_loop (bit_xor (get_or crc_table (bit_xor crc c % 2 ^ 8) 0) (crc / 2 ^ 8)) bytes

unfoldable pub generate_crc : Bytes → ℕ
generate_crc bytes = crc_loop 0 bytes

unfoldable pub is_rtf_data : Bytes → Result Bool
is_rtf_data bytes = do
  compr_size ← getint32 bytes
  uncompr_size ← getint32 (drop 4 bytes)
  magic ← getint32 (drop 8 bytes)
  ok (magic == rtf_uncompressed_magic || magic == rtf_compressed_magic)

-- `endflag`: 0, 1 and -1.
pub data EndFlag : Type 0 where
  running happy overrun : EndFlag

-- The variables of `decompress_rtf_data`: `dest` holds the `cout` bytes written so far, and `src`
-- the bytes from `cin` on, so `cin + 1 > lenc` is that `src` is empty.
pub record Machine : Type 0 where
  pub woff : ℕ
  pub eoff : ℕ
  pub dict : Bytes
  pub dest : Bytes
  pub src : Bytes
  pub endflag : EndFlag

-- The dictionary at an access to `dict[i]`. An access outside of it is undefined, and leaves a
-- dictionary of no bytes, so that all later ones are outside, too; `decompress_rtf_data` then is a
-- `fault`.
abbrev pub accessed : Bytes → ℕ → Bytes
accessed dict i = if ltb i (length dict) then dict else []

-- A byte goes to `dest[cout++]` and to `dict[woff++]`.
unfoldable pub emit : Machine → ℕ → Machine
emit s b = record s {
  dest = s.dest ++ b ∷ [];
  dict = set (accessed s.dict s.woff) s.woff b;
  woff = (s.woff + 1) % 2 ^ 12;
  eoff = if ltb s.eoff 4096 then s.eoff + 1 else s.eoff;
}

-- The loop over `j`: `rlen` bytes from `roff` on are still to be copied.
unfoldable pub copy_run : Machine → ℕ → ℕ → Machine
copy_run s roff zero = s
copy_run s roff (suc rlen) =
    copy_run (emit (record s { dict = accessed s.dict roff }) (get_or s.dict roff 0))
      ((roff + 1) % 2 ^ 12) rlen

abbrev pub end_with : Machine → EndFlag → Machine
end_with s flag = record s { endflag = flag }

unfoldable pub reference : ℕ → Machine → ℕ → ℕ → Machine
reference lenu s roff rlen =
    if roff == s.woff
    then end_with s happy
    else if ltb lenu (length s.dest + rlen)
    then end_with s overrun
    else copy_run s roff rlen

unfoldable pub dictionary_item : ℕ → Machine → Bytes → Machine
dictionary_item lenu s (hi ∷ lo ∷ src) =
    reference lenu (record s { src = src }) (hi * 2 ^ 4 + lo / 2 ^ 4) (lo % 2 ^ 4 + 2)
dictionary_item lenu s _ = end_with s overrun

unfoldable pub literal_item : ℕ → Machine → Bytes → Machine
literal_item lenu s [] = end_with s overrun
literal_item lenu s (b ∷ src) =
    if ltb lenu (length s.dest + 1) then end_with s overrun else emit (record s { src = src }) b

-- The body of the loop over `i`, for one bit of the control byte.
unfoldable pub item : ℕ → Bool → Machine → Machine
item lenu true s = dictionary_item lenu s s.src
item lenu false s = literal_item lenu s s.src

-- The loop over the bits that are left of `control`, the lowest first; it breaks at an `endflag`.
unfoldable pub control_run : ℕ → ℕ → ℕ → EndFlag → Machine → Machine
control_run lenu control zero flag s = s
control_run lenu control (suc bits) running s =
    let s' = item lenu (control % 2 == 1) s in control_run lenu (control / 2) bits s'.endflag s'
control_run lenu control (suc bits) _ s = s

-- The processing loop. Each round takes a control byte at least, so rounds as many as there are
-- bytes, and one more to see the end, are enough.
unfoldable pub process : ℕ → ℕ → EndFlag → Bytes → Machine → Machine
process lenu zero flag src s = s
process lenu (suc fuel) running [] s = end_with s overrun
process lenu (suc fuel) running (control ∷ src) s =
    let s' = control_run lenu control 8 running (record s { src = src }) in
    process lenu fuel s'.endflag s'.src s'
process lenu (suc fuel) _ src s = s

unfoldable pub start : Bytes → Machine
start src = record {
  woff = length rtf_prebuf;
  eoff = length rtf_prebuf;
  dict = rtf_prebuf ++ replicate (4096 - length rtf_prebuf) 0;
  dest = [];
  src = src;
  endflag = running;
}

unfoldable pub decompress : Bytes → ℕ → Machine
decompress src lenu = process lenu (suc (length src)) running src (start src)

-- `src` holds the `lenc` bytes. The `int`s `cin` and `cout` hold where both sizes are below 2 ^ 30. What is not written of `dest` stays cleared. (The warning about an
-- overrun is output.)
unfoldable pub decompress_rtf_data : Env → Bytes → ℕ → Result Bytes
decompress_rtf_data env src lenu = do
  assert (ltb 0 lenu)
  dest ← checked_xcalloc env lenu 1 0
  access dest
  assert (ltb 0 (length src))
  let s : Machine = decompress src lenu
  stop_if (length s.dict == 0) fault
  ok (s.dest ++ replicate (lenu - length s.dest) 0)

-- `*out_len` and `*out_data`; the pointer stays as it was for another magic number.
pub record Output : Type 0 where
  pub len : ℕ
  pub bytes : Option Bytes

unfoldable pub uncompressed_stream : Env → Bytes → ℕ → Result Output
uncompressed_stream env bytes uncompr_size = do
  p ← checked_xcalloc env uncompr_size 1 0
  access_some p uncompr_size
  moved ← read_bytes uncompr_size (drop 4 bytes)
  ok (record { len = uncompr_size; bytes = some moved })

unfoldable pub compressed_stream : Env → Bytes → ℕ → ℕ → Result Output
compressed_stream env src uncompr_size checksum =
    if checksum == generate_crc src
    then (do
      dest ← decompress_rtf_data env src uncompr_size
      ok (record { len = uncompr_size; bytes = some dest }))
    else (do
      p ← checked_xcalloc env 4 1 0
      ok (record { len = 0; bytes = some (0 ∷ 0 ∷ 0 ∷ 0 ∷ []) }))

unfoldable pub get_rtf_data_from_buf : Env → ℕ → Bytes → Result Output
get_rtf_data_from_buf env len bytes = do
  assert (ltb 16 len)
  compr_size ← getint32 bytes
  uncompr_size ← getint32 (drop 4 bytes)
  magic ← getint32 (drop 8 bytes)
  checksum ← getint32 (drop 12 bytes)
  assert (compr_size + 4 == len)
  if magic == rtf_uncompressed_magic
      then uncompressed_stream env bytes uncompr_size
      else if magic == rtf_compressed_magic
      then compressed_stream env (take (len - 16) (drop 16 bytes)) uncompr_size checksum
      else ok (record { len = uncompr_size; bytes = none })

-- The bytes behind `data.buf`; another content stands for a NULL pointer.
abbrev pub behind : Content → Bytes
behind (block bytes) = bytes
behind _ = []

-- One entry of the array `body`: NULL where the value is no RTF.
unfoldable pub rtf_entry : Env → MapiValue → Result (Option Output)
rtf_entry env v =
    if ltb 12 v.len
    then (do
      is_rtf ← is_rtf_data (behind v.content)
      if is_rtf
          then (do
            p ← xmalloc env 1 16 0
            access p
            r ← get_rtf_data_from_buf env v.len (behind v.content)
            ok (some r))
          else ok none)
    else ok none

unfoldable pub rtf_entries : Env → List MapiValue → Result (List (Option Output))
rtf_entries env [] = ok []
rtf_entries env (v ∷ values) = do e ← rtf_entry env v; rest ← rtf_entries env values; ok (e ∷ rest)

-- The array without its terminating NULL; `values` has `num_values` elements.
unfoldable pub get_rtf_data : Env → MapiAttr → Result (List (Option Output))
get_rtf_data env a = do
  p ← checked_xcalloc env (a.num_values + 1) 8 0
  access p
  rtf_entries env a.values
