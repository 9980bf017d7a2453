-- ===== src/Path/Munge.antt =====
-- `munge_fname` of src/path.c: which names it can make of the names in a stream.
use mathlib.Core.Option.{some-injective}
use mathlib.Core.Path.{subst}
use tnef.Prelude.{
  ℕ, ◌+◌, ◌*◌, ◌^◌, ◌<◌, ◌≤◌, ◌≡◌, refl, arith, Bool, false, ◌&&◌, [], ◌∷◌, Option, none, some,
  length, All, ◌==◌, Bool-cases, inl, inr,
}
use tnef.Outcome.{Result, ok, halt, ◌>>=◌}
use tnef.Outcome.Post.{Post, Any, bind, seq, returns, anyhow, of_ok}
use tnef.Alloc.{checked_xcalloc, access}
use tnef.Alloc.Limit.{Serves, Serves-le, checked_xcalloc-Serves}
use tnef.Env.{Env, flag_on, paths, unix_paths, absolute_paths}
use tnef.Path.{
  Str, slash, contains, starts_with_slash, ends_in_slash, could_be_a_windows_path, skip_slashes,
  munge_dir, munge_parts, munge_fname, sanitize_filename, null_if_empty, concat_fname, sanitized,
  slop,
}
use tnef.Path.Concat.{NoSlash, null_if_empty-eq, concat_fname-null, concat_fname_start}
use tnef.Path.Sanitize.{Allowed, allowed, sanitize_filename-Allowed, length-sanitize_filename}

pub Allowed-NoSlash : (unix_fs : Bool) (s : Str) → All (Allowed unix_fs) s → NoSlash s
unfolding allowed contains
Allowed-NoSlash unix_fs [] h = tt
Allowed-NoSlash unix_fs (c ∷ s) (hc, hs) = (ground arith, Allowed-NoSlash unix_fs s hs)

concat_fname_alone :
    (env : Env) (s : Str)
    → Serves env (length s)
    → NoSlash s
    → 1 ≤ length s
    → concat_fname env none (some s) ≡ ok (some s)
concat_fname_alone env [] v h l = absurd (omega arith)
concat_fname_alone env (c ∷ s) v h l = concat_fname-null env c s v h

NoSlash-start : (s : Str) → NoSlash s → starts_with_slash s ≡ false
unfolding starts_with_slash
NoSlash-start [] h = refl
NoSlash-start (c ∷ s) (hc, hs) = hc

skip_slashes_start :
    (s : Str) {d : Str} → null_if_empty (skip_slashes s) ≡ some d → starts_with_slash d ≡ false
unfolding skip_slashes
skip_slashes_start [] e = cc
skip_slashes_start (c ∷ s) e = elim (Bool-cases (c == slash)) [
  | inl more ↦ skip_slashes_start s (rw more at e)
  | inr done ↦
      subst (λ t. starts_with_slash t ≡ false) (null_if_empty-eq (c ∷ s) (rw done at e))
        (unfold starts_with_slash in done)
]

munge_dir_start : (dir : Str) {d : Str} → munge_dir false dir ≡ some d → starts_with_slash d ≡ false
unfolding munge_dir
munge_dir_start dir e = elim (Bool-cases (starts_with_slash dir)) [
  | inl absolute ↦ skip_slashes_start dir (rw absolute at e)
  | inr relative ↦
      subst (λ t. starts_with_slash t ≡ false) (some-injective dir _ (rw relative at e)) relative
]

munge_parts_start :
    (env : Env) (fname : Str) (d : Str)
    → flag_on env absolute_paths ≡ false
    → (munge_parts env fname).0 ≡ some d
    → starts_with_slash d ≡ false
unfolding munge_parts
munge_parts_start env fname d off e =
    elim (Bool-cases (flag_on env paths && could_be_a_windows_path fname)) [
      | inl windows ↦ munge_dir_start _ (rw (windows, off) at e)
      | inr plain ↦ absurd (none_some (rw plain at e))
    ]
  where
    none_some : ◌≡◌ {A = Option Str} none (some d) → ⊥
    none_some e = cc

-- Without --use-paths a name that is not empty is kept in one piece: `munge_fname` returns the
-- sanitized name, all of whose characters may stand in a file name ('/' and '\' may not). (The
-- sanitizer's buffer is within the limit, and `malloc` is taken to succeed.)
pub munge_fname_plain :
    (env : Env) (c : ℕ) (fname : Str)
    → flag_on env paths ≡ false
    → Serves env (3 * length (c ∷ fname) + slop)
    → 3 * length (c ∷ fname) + slop < 2 ^ 64
    → (r : Str) × (munge_fname env (some (c ∷ fname)) ≡ ok (some r))
      × (r ≡ sanitize_filename (flag_on env unix_paths) (c ∷ fname))
      × All (Allowed (flag_on env unix_paths)) r
unfolding munge_fname munge_parts access
munge_fname_plain env c fname off v w =
    let unix_fs = flag_on env unix_paths in
    let clean = sanitize_filename unix_fs (c ∷ fname) in
    let safe = sanitize_filename-Allowed unix_fs (c ∷ fname) in
    (
      clean,
      rw off (
          rw
            (checked_xcalloc-Serves (3 * length (c ∷ fname) + slop) 1 0
              (Serves-le _ v (omega arith)) (omega arith))
            (concat_fname_alone env clean
              (Serves-le _ v (omega (arith, length-sanitize_filename unix_fs (c ∷ fname))))
              (Allowed-NoSlash unix_fs clean safe)
              (omega (arith, length-sanitize_filename unix_fs (c ∷ fname))))),
      refl,
      safe,
    )

sanitized_start :
    (env : Env) (base : Str) → Post (λ buf. starts_with_slash buf ≡ false) Any (sanitized env base)
sanitized_start env base =
    let unix_fs = flag_on env unix_paths in
    let clean = sanitize_filename unix_fs base in
    bind _ _ (anyhow (checked_xcalloc env (3 * length base + slop) 1 0)) λ p _.
      seq _ _ (anyhow (access p)) λ _. returns (
        NoSlash-start clean
          (Allowed-NoSlash unix_fs clean (sanitize_filename-Allowed unix_fs base)))

>>=-eq-ok {ℓ κ} :
    {A : Type ℓ} {B : Type κ} (r : Result A) (k : A → Result B) {b : B}
    → (r >>= k) ≡ ok b
    → (a : A) × (r ≡ ok a) × (k a ≡ ok b)
>>=-eq-ok (ok a) k e = (a, refl, e)
>>=-eq-ok (halt h) k e = cc

-- Without --allow-absolute-paths no result of `munge_fname` is an absolute path, nor does it end in '/'.
pub munge_fname_relative :
    (env : Env) (fname : Option Str) {r : Str}
    → flag_on env absolute_paths ≡ false
    → munge_fname env fname ≡ ok (some r)
    → (starts_with_slash r ≡ false) × (ends_in_slash r ≡ false)
unfolding munge_fname
munge_fname_relative env none off e = cc
munge_fname_relative env (some []) off e = cc
munge_fname_relative env (some (c ∷ fname)) off e =
    let unix_fs = flag_on env unix_paths in
    let base = (munge_parts env (c ∷ fname)).1 in
    let (buf, made, joined) = >>=-eq-ok (sanitized env base) _ e in
    concat_fname_start env (munge_parts env (c ∷ fname)).0 buf
      (λ d. munge_parts_start env (c ∷ fname) d off) (of_ok _ buf (sanitized_start env base) made)
      joined
