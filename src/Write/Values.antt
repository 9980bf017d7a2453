-- ===== src/Write/Values.antt =====
-- The numbers that src/write.c prints can be read back.
use tnef.Prelude.{
  ℕ, ◌+◌, ◌-◌, suc, ◌^◌, ◌≡◌, ◌≤◌, ◌<◌, refl, arith, true, false, ◌∷◌, ◌++◌, length, ltb, ascii,
}
use tnef.Util.{Bytes}
use tnef.Print.{decimal, hex, padded}
use tnef.Print.Numbers.{value, value-decimal, hex_field}
use tnef.Write.{write_byte, write_word, write_dword, write_int32}

-- "0x", and k digits that stand for n.
abbrev pub HexOf : ℕ → ℕ → Bytes → Type 0
HexOf k n text =
    (digits : Bytes) × (text ≡ ascii "0x" ++ digits) × (length digits ≡ k) × (value 16 0 digits ≡ n)

hex_of :
    (k n : ℕ) → n < 16 ^ suc k → n < 2 ^ 64 → HexOf (suc k) n (ascii "0x" ++ padded (suc k) (hex n))
hex_of k n h w = let f = hex_field k n h w in (padded (suc k) (hex n), refl, f.0, f.1)

-- A byte, a word and a double word are printed in two, four and eight hexadecimal digits, which read
-- back as the number.
pub write_hex_columns :
    (n : ℕ)
    → (n < 2 ^ 8 → HexOf 2 n (write_byte n))
      × (n < 2 ^ 16 → HexOf 4 n (write_word n))
      × (n < 2 ^ 32 → HexOf 8 n (write_dword n))
write_hex_columns n = (
  λ h. hex_of 1 n (omega arith) (omega arith),
  λ h. hex_of 3 n (omega arith) (omega arith),
  λ h. hex_of 7 n (omega arith) (omega arith),
)

-- A number of 32 bits is printed as the `int32` that it is: below 2 ^ 31 its digits read back as the
-- number, and from there on they follow a minus sign and read back as what is missing to 2 ^ 32.
pub write_int32_digits :
    (n : ℕ)
    → n < 2 ^ 32
    → (n < 2 ^ 31 → value 10 0 (write_int32 n) ≡ n)
      × (2 ^ 31 ≤ n
          → (digits : Bytes) × (write_int32 n ≡ b'-' ∷ digits) × (value 10 0 digits + n ≡ 2 ^ 32))
write_int32_digits n h = (
  λ small. rw (positive n small) (value-decimal n (omega arith)),
  λ large. (
    decimal (2 ^ 32 - n),
    rw (negative n large) refl,
    omega (arith, value-decimal (2 ^ 32 - n) (omega arith)),
  ),
)
  where
    positive : (n : ℕ) → n < 2 ^ 31 → ltb n (2 ^ 31) ≡ true
    positive n small = ground arith

    negative : (n : ℕ) → 2 ^ 31 ≤ n → ltb n (2 ^ 31) ≡ false
    negative n large = ground arith
