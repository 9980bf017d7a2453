-- ===== src/Env.antt =====
-- What every function of the program can see: `static size_t alloc_limit` of src/alloc.c, `g_flags`
-- of src/options.c, and the platform's `malloc`, which the program does not implement.
use Prim.Native.Nat.{bit_and}
use tnef.Prelude.{ℕ, Bool, not, ◌==◌}

-- The enumeration of src/options.h.
abbrev pub verbose : ℕ
verbose = 0x01

abbrev pub dbg_out : ℕ
dbg_out = 0x02

abbrev pub list : ℕ
list = 0x04

abbrev pub paths : ℕ
paths = 0x08

abbrev pub overwrite : ℕ
overwrite = 0x10

abbrev pub confirm : ℕ
confirm = 0x20

abbrev pub numbered : ℕ
numbered = 0x40

abbrev pub savebody : ℕ
savebody = 0x80

abbrev pub listmime : ℕ
listmime = 0x100

abbrev pub checksum_ok : ℕ
checksum_ok = 0x200

abbrev pub encode_ok : ℕ
encode_ok = 0x400

abbrev pub cruft_ok : ℕ
cruft_ok = 0x800

abbrev pub unix_paths : ℕ
unix_paths = 0x1000

abbrev pub absolute_paths : ℕ
absolute_paths = 0x2000

pub record Env : Type 0 where
  pub alloc_limit : ℕ
  pub g_flags : ℕ
  -- whether `malloc (n)` returns a block (and not NULL)
  pub malloc : ℕ → Bool

-- `(g_flags) & FLAG` as a condition: the macros of src/options.h.
abbrev pub flag_on : Env → ℕ → Bool
flag_on env flag = not (bit_and env.g_flags flag == 0)
