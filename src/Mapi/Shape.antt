-- ===== src/Mapi/Shape.antt =====
-- What `mapi_attr_dump` of src/mapi_attr.c makes of values that fit the type of their property.
use tnef.Prelude.{
  ℕ, ◌+◌, ◌≡◌, ◌⊎◌, refl, arith, true, ◌||◌, List, [], ◌∷◌, ◌++◌, ◌==◌, All, inl, inr,
}
use tnef.Outcome.{ok, halt, fault}
use tnef.Outcome.Post.{Post, bind, returns, if_Post}
use tnef.Util.{Bytes}
use tnef.Mapi.Types.{MapiValue, VarLenData, MapiAttr}
use tnef.Mapi.{blank}
use tnef.Mapi.Dump.{dump_names, dump_value, dump_values, mapi_attr_dump}
use tnef.Mapi.Fits.{
  Never, of_Never, Terminated, is_text, Shaped, c_string-Terminated, get_bytes2-Post,
  get_bytes4-Post, get_bytes8-Post, get_guid-Post, get_string-Post, dump_block-Post,
}

text_cases : (type : ℕ) → is_text type ≡ true → (type ≡ 30) ⊎ (type ≡ 31)
text_cases type t = ground arith

module _ (get_mapi_name_str get_mapi_type_str float_text : ℕ → Bytes) where
  dump_value-Post :
      (type : ℕ) (v : MapiValue)
      → Shaped type v
      → Post (λ _. Unit) Never (dump_value get_mapi_name_str get_mapi_type_str float_text type v)
  unfolding dump_value
  dump_value-Post type v h =
      if_Post (type == 1) _ _ (λ _. returns tt)
        λ _.
          if_Post (type == 2) _ _
            (λ t.
              bind _ _ (get_bytes2-Post type v.len v.content h (ground arith)) λ _ _. returns tt)
            λ _.
              if_Post (type == 3) _ _
                (λ t.
                  bind _ _ (get_bytes4-Post type v.len v.content h (ground arith))
                    λ _ _. returns tt)
                λ _.
                  if_Post (type == 4) _ _
                    (λ t.
                      bind _ _ (get_bytes4-Post type v.len v.content h (ground arith))
                        λ _ _. returns tt)
                    λ _.
                      if_Post (type == 11) _ _
                        (λ t.
                          bind _ _ (get_bytes4-Post type v.len v.content h (ground arith))
                            λ _ _. returns tt)
                        λ _.
                          if_Post (type == 30 || type == 31) _ _
                            (λ t.
                              bind _ _ (get_string-Post type v.len v.content h t) λ _ _. returns tt)
                            λ _.
                              if_Post (type == 64 || type == 6 || type == 20 || type == 7) _ _
                                (λ t.
                                  bind _ _ (get_bytes8-Post type v.len v.content h (ground arith))
                                    λ _ _. returns tt)
                                λ _.
                                  if_Post (type == 5) _ _
                                    (λ t.
                                      bind _ _
                                        (get_bytes8-Post type v.len v.content h (ground arith))
                                        λ _ _. returns tt)
                                    λ _.
                                      if_Post (type == 10) _ _
                                        (λ t.
                                          bind _ _
                                            (get_bytes4-Post type v.len v.content h (ground arith))
                                            λ _ _. returns tt)
                                        λ _.
                                          if_Post (type == 72) _ _
                                            (λ t.
                                              bind _ _
                                                (get_guid-Post type v.len v.content h
                                                  (ground arith))
                                                λ _ _. returns tt)
                                            λ _.
                                              if_Post (type == 13 || type == 258) _ _
                                                (dump_block-Post type v.len v.content h)
                                                λ _. returns tt

  dump_values-Post :
      (type i : ℕ) (values : List MapiValue)
      → All (Shaped type) values
      → Post
          (λ _. Unit)
          Never
          (dump_values get_mapi_name_str get_mapi_type_str float_text type i values)
  unfolding dump_values
  dump_values-Post type i [] h = returns tt
  dump_values-Post type i (v ∷ values) (h, hs) =
      bind _ _ (dump_value-Post type v h)
        λ _ _. bind _ _ (dump_values-Post type (i + 1) values hs) λ _ _. returns tt

  pub dump_names-Post :
      (i : ℕ) (names : List VarLenData)
      → All (λ (v : VarLenData). Terminated v.bytes) names
      → Post (λ _. Unit) Never (dump_names i names)
  unfolding dump_names
  dump_names-Post i [] h = returns tt
  dump_names-Post i (v ∷ names) ((s, e), hs) =
      bind _ _ (c_string-Terminated v.bytes s e)
        λ _ _. bind _ _ (dump_names-Post (i + 1) names hs) λ _ _. returns tt

  -- The values before the null pointer do not stop the loop.
  dump_values_null :
      (type i : ℕ) (before after : List MapiValue)
      → is_text type ≡ true
      → All (Shaped type) before
      → dump_values get_mapi_name_str get_mapi_type_str float_text type i (before ++ blank ∷ after)
        ≡ halt fault
  unfolding dump_values dump_value
  dump_values_null type i [] after t h = elim (text_cases type t) [
    | inl string ↦ rw string refl
    | inr unicode ↦ rw unicode refl
  ]
  dump_values_null type i (v ∷ before) after t (h, hs) =
      let (s, e) = of_Never _ (dump_value-Post type v h) in
      rw (e, dump_values_null type (i + 1) before after t hs) refl

  -- A property whose values fit its type, and whose names end in 0, is printed: nothing is read
  -- outside of a block.
  pub dump-Post :
      (attr : MapiAttr)
      → All (Shaped attr.type) attr.values
      → All (λ (v : VarLenData). Terminated v.bytes) attr.names
      → (text : Bytes) × (mapi_attr_dump get_mapi_name_str get_mapi_type_str float_text attr
          ≡ ok text)
  unfolding mapi_attr_dump
  dump-Post attr values names = of_Never {P = λ _. Unit {0}} _ (
      bind _ _ (dump_names-Post 0 attr.names names)
        λ _ _. bind _ _ (dump_values-Post attr.type 0 attr.values values) λ _ _. returns tt)

  -- The debug output behind the first values of a string property with more of them prints the
  -- cleared values, too: it hands a null pointer to `%s`.
  pub mapi_attr_dump_null :
      (attr : MapiAttr) (before after : List MapiValue)
      → is_text attr.type ≡ true
      → attr.values ≡ before ++ blank ∷ after
      → All (Shaped attr.type) before
      → All (λ (v : VarLenData). Terminated v.bytes) attr.names
      → mapi_attr_dump get_mapi_name_str get_mapi_type_str float_text attr ≡ halt fault
  unfolding mapi_attr_dump
  mapi_attr_dump_null attr before after t e h names =
      let (s, printed) = of_Never _ (dump_names-Post 0 attr.names names) in
      rw (printed, e, dump_values_null attr.type 0 before after t h) refl
