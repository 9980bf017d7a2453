-- ===== src/Mapi/Guids.antt =====
-- `copy_guid_from_buf` of src/mapi_attr.c reads back a GUID.
use mathlib.Core.List.{append_assoc}
use mathlib.Core.Path.{subst}
use tnef.Prelude.{
  ℕ, ◌+◌, ◌-◌, ◌^◌, ◌<◌, ◌≡◌, refl, ap, ◌∙◌, arith, leb_of_le, [], ◌∷◌, ◌++◌, drop, length,
  length-append,
}
use tnef.Outcome.{ok}
use tnef.Util.{Bytes}
use tnef.Util.Words.{put16, put32}
use tnef.Mapi.Types.{Guid}
use tnef.Mapi.Header.{read_bytes, copy_guid_from_buf, size_left}
use tnef.Mapi.Cursor.{At, At-next, At-to, next32-At, next16-At, length-put32, length-put16}
use tnef.Mapi.Writer.{put_guid, IsGuid}

pub read_bytes-append : (b rest : Bytes) → read_bytes (length b) (b ++ rest) ≡ ok b
unfolding read_bytes
read_bytes-append [] rest = refl
read_bytes-append (c ∷ b) rest = rw (read_bytes-append b rest)

eight : (b rest : Bytes) → length b ≡ 8 → read_bytes 8 (b ++ rest) ≡ ok b
eight b rest e = rw (← e) (read_bytes-append b rest)

pub length-put_guid : (g : Guid) → length (put_guid g) ≡ 8 + length g.data4
unfolding put32 put16
length-put_guid g = omega arith

read_guid :
    (buf t : Bytes) (len : ℕ) (g : Guid)
    → IsGuid g
    → At buf len 0 (put_guid g ++ t)
    → copy_guid_from_buf buf len ≡ ok g
unfolding copy_guid_from_buf
read_guid buf t len g (b1, b2, b3, b4) h =
    let p1 = put32 g.data1 in
    let p2 = put16 g.data2 in
    let p3 = put16 g.data3 in
    let h1 : At buf len 0 (p1 ++ (p2 ++ (p3 ++ (g.data4 ++ t)))) =
      subst (At buf len 0)
        (append_assoc p1 _ t
          ∙ ap (λ s. p1 ++ s) (append_assoc p2 _ t ∙ ap (λ s. p2 ++ s) (append_assoc p3 g.data4 t)))
        h in
    let h2 : At buf len 4 (p2 ++ (p3 ++ (g.data4 ++ t))) =
      At-to (omega (arith, length-put32 g.data1)) (At-next p1 _ h1) in
    let h3 : At buf len 6 (p3 ++ (g.data4 ++ t)) =
      At-to (omega (arith, length-put16 g.data2)) (At-next p2 _ h2) in
    let h4 : At buf len 8 (g.data4 ++ t) =
      At-to (omega (arith, length-put16 g.data3)) (At-next p3 _ h3) in
    rw (
      leb_of_le 16 len (omega (arith, h4.within, length-append g.data4 t)),
      next32-At g.data1 _ b1 h1,
      next16-At g.data2 _ b2 h2,
      next16-At g.data3 _ b3 h3,
      h4.here,
      append_assoc,
      eight g.data4 (t ++ h4.rest) b4,
    )

-- At the offset at which a GUID stands, with what is left of the data.
pub copy_guid-put_guid :
    (buf t : Bytes) (len idx : ℕ) (g : Guid)
    → IsGuid g
    → len < 2 ^ 32
    → At buf len idx (put_guid g ++ t)
    → copy_guid_from_buf (drop idx buf) (size_left len idx) ≡ ok g
copy_guid-put_guid buf t len idx g b fits h =
    let left : size_left len idx ≡ len - idx = omega (arith, h.within) in
    rw left (
      read_guid (drop idx buf) t (len - idx) g b
        (record { rest = h.rest; here = h.here; within = omega (arith, h.within) }))
