-- ===== src/Tests.antt =====
-- Runs on concrete input: the environments and data that they share, and the modules with the runs.
mod Readers
mod Formats
mod Names
mod Runs
mod Program
mod Messages
mod Texts
mod Freed
mod Sent
mod Whole
use tnef.Prelude.{ℕ, true, refl, inl, List, [], ◌∷◌}
use tnef.Env.{Env}
use tnef.Alloc.Limit.{Serves}
use tnef.Util.{Bytes}

-- No flag, no limit, and memory without end.
abbrev pub plain : Env
plain = record { alloc_limit = 0; g_flags = 0; malloc = λ k. true }

pub plain-Serves : (n : ℕ) → Serves plain n
plain-Serves n = record { within = inl refl; serves = λ k. refl }

abbrev pub three_two_one : Bytes
three_two_one = 3 ∷ 2 ∷ 1 ∷ []
