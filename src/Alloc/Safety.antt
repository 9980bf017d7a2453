-- ===== src/Alloc/Safety.antt =====
-- While `malloc` succeeds, the limited allocators of src/alloc.c return a block or stop the program.
use tnef.Prelude.{
  ℕ, ◌+◌, ◌%◌, ◌^◌, ◌≡◌, refl, true, false, not, ◌&&◌, Option, none, some, ltb, ◌==◌, if◌then◌else◌,
  Bool-cases, Option-cases, inl, inr,
}
use tnef.Outcome.{ok, halt, abort}
use tnef.Outcome.Post.{Post, NoFault, bind, seq, returns, stops, exit-ne-fault, abort-ne-fault}
use tnef.Env.{Env}
use tnef.Alloc.{
  Pointer, malloc, null_check, checked_product, alloc_limit_assert, is_null, checked_xcalloc,
  checked_xmalloc, xcalloc, xmalloc, or_abort, access, check_mul_overflow,
}

checked_product-Post :
    (num size extra : ℕ) → Post (λ _. Unit) NoFault (checked_product num size extra)
unfolding checked_product
checked_product-Post num size extra = elim (Option-cases (check_mul_overflow num size)) [
  | inl e ↦ rw (e, checked_product) (stops abort-ne-fault)
  | inr (res, e) ↦ rw (e, checked_product) (sum_post res)
]
  where
    sum_post :
        (res : ℕ)
        → Post (λ _. Unit) NoFault (if ltb ((res + extra) % 2 ^ 64) res then halt abort else ok res)
    sum_post res = elim (Bool-cases (ltb ((res + extra) % 2 ^ 64) res)) [
      | inl wraps ↦ rw wraps (stops abort-ne-fault)
      | inr fits ↦ rw fits (returns tt)
    ]

malloc_serves : (env : Env) (k : ℕ) → env.malloc k ≡ true → malloc env k ≡ some k
unfolding malloc
malloc_serves env k m = rw m

module _ (env : Env) (num size extra : ℕ) (m : (k : ℕ) → env.malloc k ≡ true) where
  limit-Post : (n : ℕ) → Post (λ _. Unit) NoFault (alloc_limit_assert env n)
  unfolding alloc_limit_assert
  limit-Post n = elim (Bool-cases (not (env.alloc_limit == 0) && ltb env.alloc_limit n)) [
    | inl over ↦ rw over (stops (exit-ne-fault 255))
    | inr under ↦ rw under (returns tt)
  ]

  xmalloc-Post : Post (λ p. is_null p ≡ false) NoFault (xmalloc env num size extra)
  unfolding xmalloc null_check
  xmalloc-Post =
      bind _ _ (checked_product-Post num size extra)
        λ res _. rw (malloc_serves env ((res + extra) % 2 ^ 64) (m _)) (returns refl)

  xcalloc-Post : Post (λ p. is_null p ≡ false) NoFault (xcalloc env num size extra)
  unfolding xcalloc
  xcalloc-Post =
      bind _ _ (checked_product-Post num size extra)
        λ res _. rw (malloc_serves env ((res + extra) % 2 ^ 64) (m _)) (returns refl)

  pub checked_xmalloc-Post :
      Post (λ p. is_null p ≡ false) NoFault (checked_xmalloc env num size extra)
  unfolding checked_xmalloc
  checked_xmalloc-Post =
      bind _ _ (checked_product-Post num size extra)
        λ res _. seq _ _ (limit-Post res) λ _. xmalloc-Post

  or_abort-Post : (o : Option ℕ) → Post (λ _. Unit) NoFault (or_abort o)
  unfolding or_abort
  or_abort-Post none = stops abort-ne-fault
  or_abort-Post (some n) = returns tt

  pub checked_xcalloc-Post :
      Post (λ p. is_null p ≡ false) NoFault (checked_xcalloc env num size extra)
  unfolding checked_xcalloc
  checked_xcalloc-Post =
      bind _ _ (or_abort-Post (check_mul_overflow num size))
        λ res _. seq _ _ (limit-Post res) λ _. xcalloc-Post

pub access-Post : (p : Pointer) → is_null p ≡ false → Post (λ _. Unit) NoFault (access p)
unfolding access
access-Post none h = cc
access-Post (some n) h = returns tt
