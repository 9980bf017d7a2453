-- ===== src/Main/Runs.antt =====
-- Runs of the program from its command line, `main` of src/main.c: what its options promise of the
-- files on disk.
use tnef.Prelude.{
  ℕ, ◌≡◌, ◌≢◌, ◌⊎◌, ◌^◌, ◌<◌, arith, Bool, true, false, not, ◌==◌, List, [], ◌∷◌, ◌++◌, Option,
  some, All, refl,
}
use Prim.Native.Nat.{bit_and}
use tnef.Outcome.{ok}
use tnef.Outcome.Post.{Post, Any, bind, seq, returns, anyhow, if_ok, of_ok}
use tnef.Env.{flag_on, list, overwrite, savebody}
use tnef.Util.{Bytes}
use tnef.Path.{Str}
use tnef.File.{World, find_file}
use tnef.Tnef.Save.{parse_file}
use tnef.Tnef.Files.{parse_file_lists, parse_file_keeps}
use tnef.Alloc.Limit.{Serves}
use tnef.Util.Words.{put16, put32}
use tnef.Tnef.{tnef_signature, sizeof_file}
use tnef.Tnef.Extract.{IsQuiet, Attachment, IsServed}
use tnef.Tnef.Written.{path_of}
use tnef.Tnef.RoundTrip.{streams, saved_all, parse_file-saved_all}
use tnef.Main.{
  Opt, Cmdline, raise, action, take_options, defaults, take_operands, parse_cmdline, or_null,
  open_input, env_of, main,
}
use tnef.Main.Options.{Has, Lacks, is_overwrite, take_options-raise, take_options-Lacks, All-Spares}

not_zero : (n : ℕ) → n ≢ 0 → not (n == 0) ≡ true
not_zero n h = ground arith

zero_off : (n : ℕ) → n ≡ 0 → not (n == 0) ≡ false
zero_off n h = ground arith

take_operands-Has :
    (g : ℕ) (c : Cmdline) (operands : List Str) → Has g c → Has g (take_operands c operands)
take_operands-Has g c [] h = h
take_operands-Has g c (operand ∷ operands) h = h

take_operands-Lacks :
    (g : ℕ) (c : Cmdline) (operands : List Str) → Lacks g c → Lacks g (take_operands c operands)
take_operands-Lacks g c [] h = h
take_operands-Lacks g c (operand ∷ operands) h = h

module _ (strtoul : Str → ℕ × Str) (malloc : ℕ → Bool) (w : World) (stdin : Bytes)
    (operands : List Str) where
  -- A postcondition of `main`, from one of what `parse_cmdline` returns.
  main-Post :
      (P : Cmdline → Type 0) (Q : Option (ℕ × World) → Type 0) (opts : List Opt)
      → Post P Any (take_options strtoul defaults opts)
      → ((c : Cmdline) → P c → P (take_operands c operands))
      → ((c : Cmdline) (from_stdin : Bool) (input : Bytes) (r : Option (ℕ × World))
          → P c
          → parse_file
              (env_of malloc c)
              from_stdin
              input
              c.out_dir
              (or_null c.body_file)
              c.body_pref
              w
            ≡ ok r
          → Q r)
      → Post Q Any (main strtoul malloc w stdin opts operands)
  unfolding main parse_cmdline
  main-Post P Q opts options keep rest =
      bind _ _ (bind {P = P} {Q = P} _ _ options λ c p. returns (keep c p)) λ c p.
        bind _ _ (anyhow (open_input w stdin c.in_file)) λ (from_stdin, input) _.
          seq _ _ (anyhow _) λ _. if_ok _ (λ r e. rest c from_stdin input r p e) λ _ _. tt

  -- If an option turns --list on and `main` returns, it returns 0 or 1 and the files are what they
  -- were, whatever the other options say.
  pub main_lists :
      (before : List Opt) (o : Opt) (after : List Opt) {mask : ℕ} {r : Option (ℕ × World)}
      → action o ≡ raise mask
      → bit_and mask list ≢ 0
      → main strtoul malloc w stdin (before ++ o ∷ after) operands ≡ ok r
      → (n : ℕ) × (w' : World) × (r ≡ some (n, w')) × ((n ≡ 0) ⊎ (n ≡ 1)) × (w'.files ≡ w.files)
  main_lists before o after {mask} {r} lists set e =
      of_ok _ r
        (main-Post (Has list) _ (before ++ o ∷ after)
          (take_options-raise strtoul list defaults before o after lists set)
          (λ c. take_operands-Has list c operands)
          λ c from_stdin input r on e'.
            parse_file_lists (env_of malloc c) from_stdin input c.out_dir (or_null c.body_file)
              c.body_pref w (not_zero _ on) e')
        e

  -- If no option is --overwrite and `main` returns, it returns 0 or 1 and a file that was there is
  -- there with the same bytes.
  pub main_keeps :
      (opts : List Opt) {r : Option (ℕ × World)} (p : Str) (bytes : Bytes)
      → All (λ o. is_overwrite o ≡ false) opts
      → main strtoul malloc w stdin opts operands ≡ ok r
      → find_file p w.files ≡ some bytes
      → (n : ℕ) × (w' : World) × (r ≡ some (n, w'))
        × ((n ≡ 0) ⊎ (n ≡ 1))
        × (find_file p w'.files ≡ some bytes)
  main_keeps opts {r} p bytes none_of e found =
      of_ok _ r
        (main-Post (Lacks overwrite) _ opts
          (take_options-Lacks strtoul overwrite defaults opts (All-Spares opts none_of) refl)
          (λ c. take_operands-Lacks overwrite c operands)
          λ c from_stdin input r off e'.
            parse_file_keeps (env_of malloc c) from_stdin input c.out_dir (or_null c.body_file)
              c.body_pref w p bytes (zero_off _ off) e' found)
        e

-- The program on a file that holds a stream of attachments, with options that come to --overwrite
-- and none that bears on it: it returns 0, and the files are those of the attachments, each with its
-- data under its sanitized title in the output directory, the later ones first, and then those that
-- were there. No attachment has the input file for its path, which would be cut off while it is read.
-- (Other paths are taken to name other files. Titles are not empty and have no 0, sizes are within the limit of --maxsize, `malloc`
-- and `fopen` are taken to succeed.)
pub main-saved_all :
    (strtoul : Str → ℕ × Str) (malloc : ℕ → Bool) (w : World) (stdin : Bytes) (opts : List Opt)
    (operands : List Str) (c : Cmdline) (in_file : Str) (key : ℕ) (attachments : List Attachment)
    → parse_cmdline strtoul opts operands ≡ ok c
    → c.in_file ≡ some in_file
    → find_file in_file w.files ≡ some (put32 tnef_signature ++ (put16 key ++ streams attachments))
    → IsQuiet (env_of malloc c)
    → flag_on (env_of malloc c) savebody ≡ false
    → key < 2 ^ 16
    → Serves (env_of malloc c) sizeof_file
    → All (IsServed (env_of malloc c) c.out_dir) attachments
    → All (λ a. path_of (env_of malloc c) c.out_dir a ≢ in_file) attachments
    → ((p : Str) → w.can_create p ≡ true)
    → main strtoul malloc w stdin opts operands
      ≡ ok (some (0, saved_all (env_of malloc c) c.out_dir w attachments))
unfolding main open_input
main-saved_all strtoul malloc w stdin opts operands c in_file key attachments e named found q off k
      v vs apart can =
    rw (e, named, found)
      (parse_file-saved_all (env_of malloc c) c.out_dir (or_null c.body_file) c.body_pref q off key
        attachments w k v vs can)
