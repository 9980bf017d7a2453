-- ===== src/Mapi/Safety.antt =====
-- `mapi_attr_read` of src/mapi_attr.c stays inside of its block, but for one shape of property: a
-- CLSID with a GUID prefix (Overrun has that one).
use tnef.Prelude.{
  ℕ, zero, suc, ◌+◌, ◌^◌, ◌<◌, ◌≤◌, ◌≡◌, ◌≢◌, refl, arith, Bool, true, false, not, ◌||◌, List,
  Option, none, some, drop, set, length, length-drop, leb, ◌==◌, if◌then◌else◌, Bool-cases, inl,
  inr,
}
use mathlib.Core.Path.{subst}
use mathlib.Core.Option.{some-injective}
use tnef.Outcome.{Halt, Result}
use tnef.Outcome.Post.{
  Post, NoFault, bind, seq, returns, stops, weaken, if_Post, assert-Post, exit-ne-fault,
  failed-ne-fault,
}
use tnef.Env.{Env, flag_on, encode_ok}
use tnef.Alloc.{is_null}
use tnef.Alloc.Safety.{checked_xmalloc-Post, checked_xcalloc-Post, access-Post}
use tnef.Util.{Bytes}
use tnef.Names.{szmapi_clsid, szmapi_unicode_string}
use tnef.Mapi.Types.{MapiValue, guid_exists, sizeof_mapi_value}
use tnef.Mapi.Header.{
  Naming, copy_guid_from_buf, size_left, read_name, read_names, read_header, read_header_names,
}
use tnef.Mapi.Reads.{next32-Post, next16-Post, read_bytes-Post, copy_guid-Post, unicode-Post}
use tnef.Mapi.{
  Step, counted, alloc_mapi_values, read_count, read_pair, read_block, read_buffer, read_value,
  read_values, unless_null,
}

-- What a CLSID needs before it is read: its offset is not behind the end.
abbrev pub AtClsid : ℕ → ℕ → ℕ → Type 0
AtClsid len type idx = type ≡ szmapi_clsid → idx ≤ len

abbrev pub GoodStep : ℕ → ℕ → Option Step → Type 0
GoodStep len type none = Unit
GoodStep len type (some (x, idx, advance)) = AtClsid len type idx

pub after :
    {len type : ℕ} (r : Option Step) (s : Step)
    → GoodStep len type r
    → r ≡ some s
    → AtClsid len type s.1
after none s g e = cc
after {len} {type} (some r) s g e =
    subst (λ (q : Step). AtClsid len type q.1) {x = r} {y = s} (some-injective r s e) g

pub unless_null-Post {ℓ κ} :
    {A : Type ℓ} {B : Type κ} {H : Halt → Type 0} (r : Option A) (f : A → Result (Option B))
    → ((a : A) → r ≡ some a → Post (λ _. Unit) H (f a))
    → Post (λ _. Unit) H (unless_null r f)
unless_null-Post none f k = returns tt
unless_null-Post (some a) f k = k a refl

module _ (env : Env) (buf : Bytes) (len : ℕ) (m : (k : ℕ) → env.malloc k ≡ true)
    (l : len ≤ length buf) (w : len < 2 ^ 64) where
  read_name-Post : (idx : ℕ) → Post (λ _. Unit) NoFault (read_name env buf len idx)
  unfolding read_name
  read_name-Post idx = bind _ _ (next32-Post buf len idx l) λ n _.
      seq _ _ (assert-Post (not (n == 0)) failed-ne-fault) λ _.
        seq _ _ (assert-Post (leb (idx + 4 + n) len) failed-ne-fault) λ inside.
          bind _ _ (unicode-Post env n (drop (idx + 4) buf) m (rw length-drop (ground arith)))
            λ _ _. returns tt

  read_names-Post : (k idx : ℕ) → Post (λ _. Unit) NoFault (read_names env buf len k idx)
  unfolding read_names
  read_names-Post zero idx = returns tt
  read_names-Post (suc k) idx =
      bind _ _ (read_name-Post idx) λ r _. bind _ _ (read_names-Post k r.1) λ _ _. returns tt

  read_header_names-Post :
      (name : ℕ) (guid : _) (n idx : ℕ)
      → Post (λ _. Unit) NoFault (read_header_names env buf len name guid n idx)
  unfolding read_header_names
  read_header_names-Post name guid n idx = elim (Bool-cases (n == 0)) [
    | inl none_left ↦ rw none_left (bind _ _ (next32-Post buf len idx l) λ _ _. returns tt)
    | inr some_left ↦ rw some_left (
        bind _ _ (checked_xcalloc-Post env n 16 0 m) λ p _.
          seq _ _ (assert-Post (not (is_null p)) failed-ne-fault)
            λ _. bind _ _ (read_names-Post n idx) λ _ _. returns tt)
  ]

  -- `copy_guid_from_buf` at an offset inside of the block.
  guid_at-Post :
      (idx : ℕ)
      → idx ≤ len
      → Post (λ _. idx + 16 ≤ len) NoFault (copy_guid_from_buf (drop idx buf) (size_left len idx))
  guid_at-Post idx h =
      weaken _ (λ _ (enough : 16 ≤ size_left len idx). omega arith)
        (copy_guid-Post (drop idx buf) (size_left len idx) (λ _. rw length-drop (omega arith)))

  -- Without a GUID prefix the offset stays.
  pub read_header-Post :
      (name idx : ℕ)
      → idx ≤ len
      → Post
          (λ (h : Naming). guid_exists name ≡ false → h.idx ≡ idx)
          NoFault
          (read_header env buf len name idx)
  unfolding read_header
  read_header-Post name idx h = elim (Bool-cases (guid_exists name)) [
    | inr bare ↦ rw bare (returns (λ _. refl))
    | inl prefixed ↦ rw prefixed (
        bind _ _ (checked_xmalloc-Post env 1 16 0 m) λ p live. seq _ _ (access-Post p live) λ _.
          bind _ _ (guid_at-Post idx h) λ guid _.
            bind _ _ (next32-Post buf len (idx + 16) l)
              λ n _. weaken _ (λ _ _ e. cc) (read_header_names-Post name guid n (idx + 20)))
  ]

  pub read_count-Post :
      (type idx : ℕ)
      → Post
          (λ (r : ℕ × ℕ). (counted type ≡ false → r.1 ≡ idx) × (counted type ≡ true → r.1 ≤ len))
          NoFault
          (read_count buf len type idx)
  unfolding read_count
  read_count-Post type idx = elim (Bool-cases (counted type)) [
    | inl many ↦
        rw many
          (bind _ _ (next32-Post buf len idx l) λ n inside. returns ((λ e. cc), (λ _. inside.0)))
    | inr one ↦ rw one (returns ((λ _. refl), (λ e. cc)))
  ]

  pub alloc-Post : (n : ℕ) → Post (λ _. Unit) NoFault (alloc_mapi_values env n)
  unfolding alloc_mapi_values
  alloc-Post n = elim (Bool-cases (n == 0)) [
    | inl empty ↦ rw empty (returns tt)
    | inr full ↦ rw full (weaken _ (λ _ _. tt) (checked_xcalloc-Post env n sizeof_mapi_value 0 m))
  ]

  read_pair-Post :
      (type idx : ℕ) (advance : Bool)
      → Post (GoodStep len type) NoFault (read_pair buf len idx advance)
  unfolding read_pair
  read_pair-Post type idx advance =
      bind _ _ (next32-Post buf len idx l) λ low _.
        bind _ _ (next32-Post buf len (idx + 4) l) λ high inside. returns (λ _. omega arith)

  read_block-Post :
      (type n idx : ℕ) → n + idx ≤ len → Post (λ _. Unit) NoFault (read_block env buf type n idx)
  unfolding read_block
  read_block-Post type n idx inside = elim (Bool-cases (type == szmapi_unicode_string)) [
    | inl unicode ↦ rw unicode (
        seq _ _ (assert-Post (not (n == 0)) failed-ne-fault)
          λ _. unicode-Post env n (drop idx buf) m (rw length-drop (omega arith)))
    | inr plain ↦ rw plain (
        bind _ _ (checked_xmalloc-Post env n 1 1 m) λ p live. seq _ _ (access-Post p live) λ _.
          bind _ _ (read_bytes-Post n (drop idx buf) (rw length-drop (omega arith)))
            λ _ _. returns tt)
  ]

  -- A block's padding may lead behind the end, but its type is no CLSID.
  read_buffer-Post :
      (type idx : ℕ)
      → type ≢ szmapi_clsid
      → Post (GoodStep len type) NoFault (read_buffer env buf len type idx)
  unfolding read_buffer
  read_buffer-Post type idx other = bind _ _ (next32-Post buf len idx l) λ n _.
      seq _ _ (assert-Post (leb (n + (idx + 4)) len) failed-ne-fault) λ inside.
        bind _ _ (read_block-Post type n (idx + 4) (ground arith))
          λ _ _. returns (λ e. absurd (other e))

  read_value-Post :
      (type idx : ℕ)
      → AtClsid len type idx
      → Post (GoodStep len type) NoFault (read_value env buf len type idx)
  unfolding read_value
  read_value-Post type idx at =
      if_Post (type == 2) _ _
        (λ e. bind _ _ (next16-Post buf len idx l) λ x _. returns (λ c. ground arith))
        λ _.
          if_Post (type == 3) _ _
            (λ e. bind _ _ (next32-Post buf len idx l) λ x _. returns (λ c. ground arith))
            λ _.
              if_Post (type == 4 || type == 11) _ _
                (λ e. bind _ _ (next32-Post buf len idx l) λ x _. returns (λ c. ground arith))
                λ _.
                  if_Post (type == 64) _ _ (λ e. read_pair-Post type idx true)
                    λ _.
                      if_Post (type == 5 || type == 7 || type == 6 || type == 20) _ _
                        (λ e. read_pair-Post type idx false)
                        λ _.
                          if_Post (type == 72) _ _
                            (λ e.
                              bind _ _ (guid_at-Post idx (at (ground arith)))
                                λ _ inside. returns (λ _. inside))
                            λ other.
                              if_Post (type == 30 || type == 31 || type == 13 || type == 258) _ _
                                (λ e. read_buffer-Post type idx (λ c. ground arith))
                                λ _.
                                  if_Post (flag_on env encode_ok) _ _ (λ _. returns tt)
                                    (λ _. stops (exit-ne-fault 1))

  pub read_values-Post :
      (type k : ℕ) (values : List MapiValue) (v idx : ℕ)
      → AtClsid len type idx
      → Post (λ _. Unit) NoFault (read_values env buf len type k values v idx)
  unfolding read_values
  read_values-Post type zero values v idx at = returns tt
  read_values-Post type (suc k) values v idx at = bind _ _ (read_value-Post type idx at) λ r good.
      unless_null-Post r _ λ s e.
        read_values-Post type k (set values v s.0) (if s.2 then suc v else v) s.1 (after r s good e)
