-- ===== src/Mapi/Bounds.antt =====
-- `mapi_attr_read` of src/mapi_attr.c stays inside of its block, but for one shape of property: a
-- CLSID with a GUID prefix (Overrun has that one).
use tnef.Prelude.{ℕ, ◌+◌, ◌*◌, ◌%◌, ◌^◌, ◌≡◌, ◌≢◌, ◌⊎◌, Bool, false, ◌||◌, ◌&&◌, ◌∷◌, drop, ◌==◌}
use tnef.Outcome.{ok}
use tnef.Outcome.Post.{Post}
use tnef.Env.{Env}
use tnef.Util.{Bytes, getint16}
use tnef.Names.{szmapi_clsid}
use tnef.Mapi.Types.{guid_exists}

-- A CLSID has one value without the flag, and is then read where the header ends.
abbrev Unnamed : Bytes → ℕ → Type 0
Unnamed buf idx =
    (type name : ℕ)
    → getint16 (drop idx buf) ≡ ok type
    → getint16 (drop (idx + 2) buf) ≡ ok name
    → (type ≢ szmapi_clsid) ⊎ (guid_exists name ≡ false)

-- Somewhere in the block the type CLSID is followed by a name with the flag for a GUID.
unfoldable pub named_clsid : Bytes → Bool
named_clsid (a ∷ b ∷ c ∷ d ∷ p) =
    (a + b * 2 ^ 8) % 2 ^ 16 == szmapi_clsid && guid_exists ((c + d * 2 ^ 8) % 2 ^ 16)
    || named_clsid (b ∷ c ∷ d ∷ p)
named_clsid _ = false
