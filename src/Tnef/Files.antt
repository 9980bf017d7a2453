-- ===== src/Tnef/Files.antt =====
-- What a run of the whole program, `parse_file` of src/tnef.c, does to the files on disk.
use tnef.Prelude.{ℕ, Bool, true, false, Option, some, ◌≡◌, refl, ◌∙◌, ◌⊎◌, inl, inr}
use tnef.Outcome.{ok}
use tnef.Outcome.Post.{of_ok}
use tnef.Env.{Env, flag_on, list, overwrite}
use tnef.Util.{Bytes}
use tnef.Path.{Str}
use tnef.File.{World, find_file}
use tnef.File.Disk.{SameFiles, KeepsFiles, file_write_lists, file_write_keeps}
use tnef.Tnef.Progress.{Parsed, rejected, parsed, parse_file-Post}
use tnef.Tnef.Save.{parse_file}

-- The value and the world that `parse_file` returns, where `K` is what becomes of the world.
result :
    (K : World → World → Type 0) (w : World)
    → K w w
    → (r : Option (ℕ × World)) → Parsed K w r
    → (n : ℕ) × (w' : World) × (r ≡ some (n, w')) × ((n ≡ 0) ⊎ (n ≡ 1)) × K w w'
result K w k _ rejected = (1, w, refl, inr refl, k)
result K w k _ (parsed k') = (0, _, refl, inl refl, k')

module _ (env : Env) (from_stdin : Bool) (input : Bytes) (directory : Option Str)
    (filename pref : Str) (w : World) where
  -- With --list, if `parse_file` returns, it returns 0 or 1, the rounds of its loop are enough, and
  -- the files are what they were.
  pub parse_file_lists :
      {r : Option (ℕ × World)}
      → flag_on env list ≡ true
      → parse_file env from_stdin input directory filename pref w ≡ ok r
      → (n : ℕ) × (w' : World) × (r ≡ some (n, w')) × ((n ≡ 0) ⊎ (n ≡ 1)) × (w'.files ≡ w.files)
  parse_file_lists {r} on e = result SameFiles w refl r (
      of_ok _ r
        (parse_file-Post env directory SameFiles (λ w. refl) (λ u v w same same'. same' ∙ same)
          (λ w file. file_write_lists env w file directory on) from_stdin input filename pref w)
        e)

  -- Without --overwrite, if `parse_file` returns, it returns 0 or 1, the rounds of its loop are
  -- enough, and a file that was there is there with the same bytes.
  pub parse_file_keeps :
      {r : Option (ℕ × World)} (p : Str) (bytes : Bytes)
      → flag_on env overwrite ≡ false
      → parse_file env from_stdin input directory filename pref w ≡ ok r
      → find_file p w.files ≡ some bytes
      → (n : ℕ) × (w' : World) × (r ≡ some (n, w'))
        × ((n ≡ 0) ⊎ (n ≡ 1))
        × (find_file p w'.files ≡ some bytes)
  parse_file_keeps {r} p bytes off e found =
      let (n, w', same, value, kept) =
        result KeepsFiles w (λ p bytes found. found) r
          (of_ok _ r
            (parse_file-Post env directory KeepsFiles (λ w p bytes found. found)
              (λ u v w k k' p bytes found. k' p bytes (k p bytes found))
              (λ w file. file_write_keeps env w file directory off) from_stdin input filename pref
              w)
            e) in
      (n, w', same, value, kept p bytes found)
