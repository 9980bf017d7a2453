-- ===== src/Print.antt =====
-- The numbers in the formats of `printf` that the program uses: `%d`, `%u`, `%x`, and with a least width.
pub mod Numbers
use tnef.Prelude.{
  ℕ, zero, suc, ◌+◌, ◌-◌, ◌/◌, ◌%◌, ◌^◌, List, [], ◌∷◌, ◌++◌, length, replicate, ltb, if◌then◌else◌,
}
use tnef.Util.{Bytes}

abbrev pub digit : ℕ → ℕ
digit d = if ltb d 10 then b'0' + d else b'a' + (d - 10)

-- The digits of a number below base ^ n, with no leading zero.
unfoldable pub number_onto : ℕ → ℕ → ℕ → Bytes → Bytes
number_onto base zero n rest = rest
number_onto base (suc k) n rest =
    let more = number_onto base k (n / base) (digit (n % base) ∷ rest) in
    if ltb n base then digit (n % base) ∷ rest else more

-- `%lu`: twenty digits are enough for 64 bits.
abbrev pub decimal : ℕ → Bytes
decimal n = number_onto 10 20 n []

-- `%lx`: sixteen digits.
abbrev pub hex : ℕ → Bytes
hex n = number_onto 16 16 n []

-- `%d` of the w-bit number that stands in two's complement for a negative one.
abbrev pub signed : ℕ → ℕ → Bytes
signed w n = if ltb n (2 ^ (w - 1)) then decimal n else b'-' ∷ decimal (2 ^ w - n)

-- `%0kd` and `%0kx`, of the digits.
abbrev pub padded : ℕ → Bytes → Bytes
padded k digits = replicate (k - length digits) b'0' ++ digits

-- `%kd`
abbrev pub spaced : ℕ → Bytes → Bytes
spaced k digits = replicate (k - length digits) b' ' ++ digits
