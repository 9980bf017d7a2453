-- ===== src/Tests/Names.antt =====
-- The file names of src/path.c on concrete input.
use tnef.Prelude.{◌≡◌, refl, arith, true, false, some, All, [], ◌∷◌}
use tnef.Outcome.{ok}
use tnef.Path.{
  Str, concat_fname, sanitize_filename, munge_fname, munge_parts, sanitize_char, must_escape,
  contains, concat_raw, strip_slashes, starts_with_slash, ends_in_slash,
}
use tnef.Path.Sanitize.{Allowed, unescape, sanitize_filename-Allowed, unescape-sanitize_filename}
use tnef.Path.Munge.{munge_fname_plain, munge_fname_relative}
use tnef.Tests.{plain, plain-Serves}

-- `../a`
abbrev up_a : Str
up_a = b'.' ∷ b'.' ∷ b'/' ∷ b'a' ∷ []

-- `..%2Fa`
abbrev clean_up_a : Str
clean_up_a = b'.' ∷ b'.' ∷ b'%' ∷ b'2' ∷ b'F' ∷ b'a' ∷ []

munge_fname_plain_example :
    (r : Str) × (munge_fname plain (some up_a) ≡ ok (some r))
    × (r ≡ sanitize_filename false up_a)
    × All (Allowed false) r
munge_fname_plain_example =
    munge_fname_plain plain b'.' (b'.' ∷ b'/' ∷ b'a' ∷ []) refl (plain-Serves 16) (omega arith)

up_a_munged : munge_fname plain (some up_a) ≡ ok (some clean_up_a)
unfolding tnef.Alloc.xstrdup tnef.Alloc.malloc tnef.Alloc.alloc_limit_assert tnef.Alloc.access
    tnef.Alloc.checked_xcalloc tnef.Alloc.xcalloc tnef.Alloc.or_abort tnef.Alloc.check_mul_overflow
    tnef.Alloc.checked_product munge_fname munge_parts sanitize_filename sanitize_char must_escape
    contains concat_fname concat_raw strip_slashes
up_a_munged = refl

munge_fname_relative_example :
    (starts_with_slash clean_up_a ≡ false) × (ends_in_slash clean_up_a ≡ false)
munge_fname_relative_example = munge_fname_relative plain (some up_a) refl up_a_munged

sanitize_filename-Allowed_example : All (Allowed true) (sanitize_filename true up_a)
sanitize_filename-Allowed_example = sanitize_filename-Allowed true up_a

unescape-sanitize_filename_example : unescape (sanitize_filename true up_a) ≡ up_a
unescape-sanitize_filename_example =
    unescape-sanitize_filename true up_a
      (omega arith, (omega arith, (omega arith, (omega arith, tt))))
