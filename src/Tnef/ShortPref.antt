-- ===== src/Tnef/ShortPref.antt =====
-- The loop over the letters of --body-pref in `parse_file` of src/tnef.c, when there is one letter.
use tnef.Prelude.{ℕ, ◌≡◌, refl, Bool, true, false, ◌&&◌, [], ◌∷◌, none, some, Option, ◌==◌}
use tnef.Outcome.{ok, halt, fault}
use tnef.Env.{Env, flag_on, savebody}
use tnef.Path.{Str}
use tnef.File.{World, str_eq}
use tnef.Tnef.{MessageBody}
use tnef.Tnef.Save.{
  all_pref, body_kind, some_files, get_body_files, write_bodies, save_bodies, Kind,
}

and_false : (b : Bool) → (b && false) ≡ false
and_false true = refl
and_false false = refl

not_all : (p : ℕ) → str_eq (p ∷ []) all_pref ≡ false
unfolding str_eq
not_all p = and_false (p == b'a')

no_files :
    (env : Env) (filename : Str) (k : Kind) → k.0 ≡ none → some_files env filename k ≡ ok none
no_files env filename (none, _, _) e = refl
no_files env filename (some bodies, _, _) e = cc

-- With --save-body and a preference of one letter, of a kind of body that the message has not, the loop
-- reads on behind the terminating 0 of the preference.
pub save_bodies_overrun :
    (env : Env) (directory : Option Str) (filename : Str) (p : ℕ) (body : MessageBody) (w : World)
    → flag_on env savebody ≡ true
    → (body_kind p body).0 ≡ none
    → save_bodies env directory filename (p ∷ []) body w ≡ halt fault
unfolding save_bodies write_bodies
save_bodies_overrun env directory filename p body w on lacks = rw (on, not_all p, letter, end)
  where
    letter : get_body_files env filename p body ≡ ok none
    letter = unfold get_body_files in no_files env filename (body_kind p body) lacks

    end : get_body_files env filename 0 body ≡ ok none
    end = unfold get_body_files body_kind in refl
