-- ===== src/Rtf/Room.antt =====
-- The loops of `decompress_rtf_data` in src/rtf.c: the bytes in `dest`, and those left of `src`.
use tnef.Prelude.{
  ℕ, zero, suc, ◌+◌, ◌*◌, ◌/◌, ◌%◌, ◌^◌, ◌<◌, ◌≤◌, ◌≡◌, ◌≢◌, refl, arith, Bool, true, false, [],
  ◌∷◌, length, length-append, get_or, ltb, ◌==◌, Bool-cases, inl, inr,
}
use tnef.Util.{Bytes}
use tnef.Rtf.{
  Machine, EndFlag, running, happy, overrun, accessed, emit, copy_run, reference, dictionary_item,
  literal_item, item, control_run, process,
}

-- `dest` fits its `lenu` bytes.
abbrev pub Room : ℕ → Machine → Type 0
Room lenu s = length s.dest ≤ lenu

emit-dest : (s : Machine) (b : ℕ) → length (emit s b).dest ≡ length s.dest + 1
unfolding emit
emit-dest s b = omega (arith, length-append s.dest (b ∷ []))

copy_run-dest :
    (s : Machine) (roff rlen : ℕ) → length (copy_run s roff rlen).dest ≡ length s.dest + rlen
unfolding copy_run
copy_run-dest s roff zero = omega arith
copy_run-dest s roff (suc rlen) =
    let s' : Machine = record s { dict = accessed s.dict roff } in
    let b = get_or s.dict roff 0 in
    omega (arith, emit-dest s' b, copy_run-dest (emit s' b) ((roff + 1) % 2 ^ 12) rlen)

module _ (lenu : ℕ) where
  reference-Room :
      (s : Machine) (roff rlen : ℕ) → Room lenu s → Room lenu (reference lenu s roff rlen)
  unfolding reference
  reference-Room s roff rlen f = elim (Bool-cases (roff == s.woff)) [
    | inl last ↦ rw last f
    | inr more ↦ rw more (elim (Bool-cases (ltb lenu (length s.dest + rlen))) [
      | inl full ↦ rw full f
      | inr fits ↦ rw (fits, copy_run-dest s roff rlen) (ground arith)
    ])
  ]

  dictionary_item-Room :
      (s : Machine) (src : Bytes) → Room lenu s → Room lenu (dictionary_item lenu s src)
  unfolding dictionary_item
  dictionary_item-Room s (hi ∷ lo ∷ src) f =
      reference-Room (record s { src = src }) (hi * 2 ^ 4 + lo / 2 ^ 4) (lo % 2 ^ 4 + 2) f
  dictionary_item-Room s _ f = f

  literal_item-Room :
      (s : Machine) (src : Bytes) → Room lenu s → Room lenu (literal_item lenu s src)
  unfolding literal_item
  literal_item-Room s [] f = f
  literal_item-Room s (b ∷ src) f = elim (Bool-cases (ltb lenu (length s.dest + 1))) [
    | inl full ↦ rw full f
    | inr fits ↦ rw (fits, emit-dest (record s { src = src }) b) (ground arith)
  ]

  item-Room : (bit : Bool) (s : Machine) → Room lenu s → Room lenu (item lenu bit s)
  unfolding item
  item-Room true s f = dictionary_item-Room s s.src f
  item-Room false s f = literal_item-Room s s.src f

  control_run-Room :
      (control bits : ℕ) (flag : EndFlag) (s : Machine)
      → Room lenu s
      → Room lenu (control_run lenu control bits flag s)
  unfolding control_run
  control_run-Room control zero flag s f = f
  control_run-Room control (suc bits) running s f =
      control_run-Room (control / 2) bits _ _ (item-Room (control % 2 == 1) s f)
  control_run-Room control (suc bits) _ s f = f

  pub process-Room :
      (fuel : ℕ) (flag : EndFlag) (src : Bytes) (s : Machine)
      → Room lenu s
      → Room lenu (process lenu fuel flag src s)
  unfolding process
  process-Room zero flag src s f = f
  process-Room (suc fuel) running [] s f = f
  process-Room (suc fuel) running (control ∷ src) s f =
      process-Room fuel _ _ _ (control_run-Room control 8 running (record s { src = src }) f)
  process-Room (suc fuel) _ src s f = f

-- The source only gets shorter.
module _ (lenu : ℕ) where
  copy_run_src : (s : Machine) (roff rlen : ℕ) → (copy_run s roff rlen).src ≡ s.src
  unfolding copy_run emit
  copy_run_src s roff zero = refl
  copy_run_src s roff (suc rlen) =
      copy_run_src (emit (record s { dict = accessed s.dict roff }) (get_or s.dict roff 0))
        ((roff + 1) % 2 ^ 12) rlen

  item_src : (bit : Bool) (s : Machine) → length (item lenu bit s).src ≤ length s.src
  unfolding item
  item_src true s = dictionary_src s s.src (omega arith)
    where
      reference_src : (s : Machine) (roff rlen : ℕ) → (reference lenu s roff rlen).src ≡ s.src
      reference_src s roff rlen = unfold reference in ground (arith, copy_run_src s roff rlen)

      dictionary_src :
          (s : Machine) (src : Bytes)
          → length src ≤ length s.src
          → length (dictionary_item lenu s src).src ≤ length s.src
      dictionary_src s (hi ∷ lo ∷ src) h =
          unfold dictionary_item in
          rw (reference_src (record s { src = src }) (hi * 2 ^ 4 + lo / 2 ^ 4) (lo % 2 ^ 4 + 2))
            (omega arith)
      dictionary_src s _ h = unfold dictionary_item in omega arith
  item_src false s = literal_src s s.src (omega arith)
    where
      literal_src :
          (s : Machine) (src : Bytes)
          → length src ≤ length s.src
          → length (literal_item lenu s src).src ≤ length s.src
      literal_src s [] h = unfold literal_item in omega arith
      literal_src s (b ∷ src) h = unfold literal_item emit in ground arith

  control_run_src :
      (control bits : ℕ) (flag : EndFlag) (s : Machine)
      → length (control_run lenu control bits flag s).src ≤ length s.src
  unfolding control_run
  control_run_src control zero flag s = omega arith
  control_run_src control (suc bits) running s =
      let s' = item lenu (control % 2 == 1) s in
      omega (arith, control_run_src (control / 2) bits s'.endflag s', item_src (control % 2 == 1) s)
  control_run_src control (suc bits) _ s = omega arith

  pub process_ends :
      (fuel : ℕ) (flag : EndFlag) (src : Bytes) (s : Machine)
      → length src < fuel
      → flag ≡ s.endflag
      → (process lenu fuel flag src s).endflag ≢ running
  unfolding process
  process_ends zero flag src s h e = absurd (omega arith)
  process_ends (suc fuel) running [] s h e = λ p. cc
  process_ends (suc fuel) running (control ∷ src) s h e =
      process_ends fuel _ _ _
        (omega (arith, control_run_src control 8 running (record s { src = src }))) refl
  process_ends (suc fuel) happy src s h e = λ p. cc
  process_ends (suc fuel) overrun src s h e = λ p. cc
