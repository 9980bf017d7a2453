-- ===== src/Rtf/Lz77.antt =====
-- Decompression without a dictionary: LZ77 on the whole past. This is what `decompress_rtf_data` of
-- src/rtf.c is held against.
use tnef.Prelude.{
  ℕ, zero, suc, ◌+◌, ◌-◌, ◌*◌, ◌/◌, ◌%◌, ◌^◌, Bool, true, false, [], ◌∷◌, length, get_or, ltb, ◌==◌,
  if◌then◌else◌,
}
use tnef.Util.{Bytes}
use tnef.Rtf.Table.{rtf_prebuf}
use tnef.Rtf.{EndFlag, running, happy, overrun}

-- `xs` reversed, and behind it `past`.
unfoldable pub onto : Bytes → Bytes → Bytes
onto [] past = past
onto (x ∷ xs) past = onto xs (x ∷ past)

-- All bytes so far, the latest first, those that every stream starts with among them.
pub record Lz77 : Type 0 where
  pub past : Bytes
  pub src : Bytes
  pub endflag : EndFlag

-- Each byte is the one that stands `distance` bytes before the latest.
unfoldable pub copy : Bytes → ℕ → ℕ → Bytes
copy past distance zero = past
copy past distance (suc n) = copy (get_or past distance 0 ∷ past) distance n

-- An offset into a window of 4096 bytes that the past goes round in, as a distance.
abbrev pub distance_of : Bytes → ℕ → ℕ
distance_of past offset = (length past + 4095 - offset) % 4096

abbrev pub stop : Lz77 → EndFlag → Lz77
stop z flag = record z { endflag = flag }

abbrev pub too_long : ℕ → Bytes → ℕ → Bool
too_long lenu past n = ltb (lenu + length rtf_prebuf) (length past + n)

unfoldable pub match : ℕ → Lz77 → ℕ → ℕ → Lz77
match lenu z distance n =
    if distance == 4095
    then stop z happy
    else if too_long lenu z.past n
    then stop z overrun
    else record z { past = copy z.past distance n }

unfoldable pub pair : ℕ → Lz77 → Bytes → Lz77
pair lenu z (hi ∷ lo ∷ src) =
    match lenu (record z { src = src }) (distance_of z.past (hi * 2 ^ 4 + lo / 2 ^ 4))
      (lo % 2 ^ 4 + 2)
pair lenu z _ = stop z overrun

unfoldable pub literal : ℕ → Lz77 → Bytes → Lz77
literal lenu z [] = stop z overrun
literal lenu z (b ∷ src) =
    if too_long lenu z.past 1 then stop z overrun else record z { past = b ∷ z.past; src = src }

unfoldable pub token : ℕ → Bool → Lz77 → Lz77
token lenu true z = pair lenu z z.src
token lenu false z = literal lenu z z.src

unfoldable pub tokens : ℕ → ℕ → ℕ → EndFlag → Lz77 → Lz77
tokens lenu control zero flag z = z
tokens lenu control (suc bits) running z =
    let z' = token lenu (control % 2 == 1) z in tokens lenu (control / 2) bits z'.endflag z'
tokens lenu control (suc bits) _ z = z

unfoldable pub groups : ℕ → ℕ → EndFlag → Bytes → Lz77 → Lz77
groups lenu zero flag src z = z
groups lenu (suc fuel) running [] z = stop z overrun
groups lenu (suc fuel) running (control ∷ src) z =
    let z' = tokens lenu control 8 running (record z { src = src }) in
    groups lenu fuel z'.endflag z'.src z'
groups lenu (suc fuel) _ src z = z

unfoldable pub lz77 : Bytes → ℕ → Lz77
lz77 src lenu =
    groups lenu (suc (length src)) running src
      (record { past = onto rtf_prebuf []; src = src; endflag = running })
