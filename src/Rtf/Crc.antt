-- ===== src/Rtf/Crc.antt =====
-- The checksum of src/rtf.c against the polynomial that its table stands for.
use Prim.Native.Nat.{bit_xor}
use tnef.Prelude.{
  ℕ, zero, suc, ◌/◌, ◌%◌, ◌^◌, ◌<◌, ◌≡◌, refl, arith, [], ◌∷◌, get_or, ◌==◌, if◌then◌else◌,
}
use tnef.Prelude.Bits.{agree_below, agree_below→eq}
use tnef.Util.{Bytes}
use tnef.Rtf.Table.{crc_table}
use tnef.Rtf.{crc_loop, generate_crc}

-- One bit of the reflected CRC-32 with the polynomial 0xedb88320, and eight of them.
unfoldable pub crc_bit : ℕ → ℕ
crc_bit c = if c % 2 == 1 then bit_xor 0xedb88320 (c / 2) else c / 2

unfoldable pub crc_bits : ℕ → ℕ → ℕ
crc_bits zero c = c
crc_bits (suc n) c = crc_bits n (crc_bit c)

-- The checksum with each table entry computed from the polynomial.
unfoldable pub crc_ref : ℕ → Bytes → ℕ
crc_ref crc [] = crc
crc_ref crc (c ∷ bytes) = crc_ref (bit_xor (crc_bits 8 (bit_xor crc c % 256)) (crc / 256)) bytes

-- All 256 entries of the table.
pub crc_table_entry : (i : ℕ) → i < 256 → get_or crc_table i 0 ≡ crc_bits 8 i
unfolding agree_below crc_table crc_bits crc_bit
crc_table_entry = agree_below→eq _ _ 256 refl

crc_loop-crc_ref : (crc : ℕ) (bytes : Bytes) → crc_loop crc bytes ≡ crc_ref crc bytes
unfolding crc_loop crc_ref
crc_loop-crc_ref crc [] = refl
crc_loop-crc_ref crc (c ∷ bytes) =
    rw (crc_table_entry (bit_xor crc c % 2 ^ 8) (omega arith))
      (crc_loop-crc_ref (bit_xor (crc_bits 8 (bit_xor crc c % 2 ^ 8)) (crc / 2 ^ 8)) bytes)

-- The table-driven checksum is the CRC-32 computed bit by bit, with start value 0 and no final
-- complement, on all data.
pub generate_crc-crc_ref : (bytes : Bytes) → generate_crc bytes ≡ crc_ref 0 bytes
unfolding generate_crc
generate_crc-crc_ref bytes = crc_loop-crc_ref 0 bytes
