-- ===== src/File/Numbers.antt =====
-- The search for a free number in `find_free_number` of src/path.c.
use tnef.Prelude.{
  ℕ, zero, suc, ◌+◌, ◌^◌, ◌≡◌, ◌≤◌, ◌<◌, ◌⊎◌, inl, inr, refl, arith, true, false, length,
  Bool-cases,
}
use tnef.Outcome.{ok}
use tnef.Env.{Env}
use tnef.Alloc.{access}
use tnef.Alloc.Limit.{Serves, Serves-le, checked_xmalloc-Serves}
use tnef.Path.{Str}
use tnef.File.{World, numbered_name, file_exists, find_free, find_free_number}

-- `m` is the first number from `counter` on whose name is free.
abbrev pub First : World → Str → ℕ → ℕ → Type 0
First w fname counter m =
    (counter ≤ m)
    × (file_exists w (numbered_name fname m) ≡ false)
    × ((j : ℕ) → counter ≤ j → j < m → file_exists w (numbered_name fname j) ≡ true)

at_or_above : {a b : ℕ} → a ≤ b → (b ≡ a) ⊎ (a + 1 ≤ b)
at_or_above {a} {b} h = ground arith

module _ (w : World) (fname : Str) where
  First-later :
      (counter m : ℕ)
      → file_exists w (numbered_name fname counter) ≡ true
      → First w fname (counter + 1) m
      → First w fname counter m
  First-later counter m taken (from, free, before) = (
    omega arith,
    free,
    λ j low high. elim (at_or_above low) [
      | inl same ↦ rw same taken
      | inr above ↦ before j above high
    ],
  )

  find_free-First :
      (rounds counter k : ℕ)
      → counter ≤ k
      → k < counter + rounds
      → file_exists w (numbered_name fname k) ≡ false
      → (m : ℕ) × (find_free rounds w fname counter ≡ ok (numbered_name fname m))
        × (m ≤ k)
        × First w fname counter m
  unfolding find_free
  find_free-First zero counter k low high free = absurd (omega arith)
  find_free-First (suc rounds) counter k low high free =
      elim (Bool-cases (file_exists w (numbered_name fname counter))) [
        | inr here ↦ (
          counter,
          rw (find_free, here) refl,
          low,
          (omega arith, here, λ j l h. absurd (omega arith)),
        )
        | inl taken ↦
            let (m, found, below, first) =
              find_free-First rounds (counter + 1) k (later taken) (omega arith) free in
            (m, rw (find_free, taken) found, below, First-later counter m taken first)
      ]
    where
      later : file_exists w (numbered_name fname counter) ≡ true → counter + 1 ≤ k
      later taken = elim (at_or_above low) [ inl same ↦ cc (same, taken, free) | inr above ↦ above ]

  -- If one of the numbers from 1 to 99999 gives the name of no file, and the memory serves, the loop
  -- ends with the first such number: the name behind it is free and all the names before it are taken.
  pub find_free_number_first :
      (env : Env) (k : ℕ)
      → Serves env (length fname + 7)
      → length fname + 7 < 2 ^ 64
      → 1 ≤ k
      → k < 100000
      → file_exists w (numbered_name fname k) ≡ false
      → (m : ℕ) × (find_free_number env w fname ≡ ok (numbered_name fname m))
        × (m ≤ k)
        × (1 ≤ m)
        × (file_exists w (numbered_name fname m) ≡ false)
        × ((j : ℕ) → 1 ≤ j → j < m → file_exists w (numbered_name fname j) ≡ true)
  unfolding find_free_number access find_free
  find_free_number_first env k serves fits low high free =
      let (m, found, below, first) = find_free-First 99999 1 k low (omega arith) free in
      let serve =
        checked_xmalloc-Serves (length fname + 7) 1 0 (Serves-le _ serves (omega arith))
          (omega arith) in
      (m, rw serve found, below, first.0, first.1, first.2)
