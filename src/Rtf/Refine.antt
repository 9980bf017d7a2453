-- ===== src/Rtf/Refine.antt =====
-- `decompress_rtf_data` of src/rtf.c, with its ring of 4096 bytes, does what LZ77 on the whole past does.
use tnef.Prelude.{
  ℕ, zero, suc, ◌+◌, ◌-◌, ◌*◌, ◌/◌, ◌%◌, ◌^◌, ◌<◌, ◌≡◌, refl, sym, ap, ◌∙◌, arith, Bool, true,
  false, [], ◌∷◌, length, length-append, length-replicate, get_or, replicate, All, ltb, ◌==◌,
  Bool-cases, inl, inr,
}
use mathlib.Core.Path.{subst}
use tnef.Prelude.Bits.{agree_below, agree_below→eq}
use tnef.Util.{Bytes, IsByte}
use tnef.Rtf.Table.{rtf_prebuf}
use tnef.Rtf.Lz77.{
  Lz77, onto, distance_of, too_long, match, pair, literal, token, tokens, groups, lz77,
}
use tnef.Rtf.{
  Machine, EndFlag, running, happy, overrun, reference, dictionary_item, literal_item, item,
  control_run, process, start, decompress,
}
use tnef.Rtf.Past.{get_or-zeros, get_or_outside, nil-onto, length-onto}
use tnef.Rtf.Shows.{emit-Shows, copy_run-Shows, stop-Shows, src-Shows, Shows}

-- Both tests of the room are the same.
room :
    (lenu : ℕ) (s : Machine) (z : Lz77) (n : ℕ)
    → Shows s z
    → ltb lenu (length s.dest + n) ≡ too_long lenu z.past n
room lenu s z n h =
    let e : length z.past ≡ length s.dest + length rtf_prebuf =
      ap length h.output
      ∙ omega (arith, length-onto s.dest (onto rtf_prebuf []), length-onto rtf_prebuf []) in
    rw e (ground arith)

module _ (lenu : ℕ) where
  reference-Shows :
      (s : Machine) (z : Lz77) (roff rlen : ℕ)
      → roff < 4096
      → Shows s z
      → Shows (reference lenu s roff rlen) (match lenu z (distance_of z.past roff) rlen)
  unfolding reference match
  reference-Shows s z roff rlen lt h = elim (Bool-cases (roff == s.woff)) [
    | inl last ↦
        let e : (distance_of z.past roff == 4095) ≡ true = ground (arith, h.behind) in
        rw (last, e) (stop-Shows s z happy h)
    | inr more ↦
        let e : (distance_of z.past roff == 4095) ≡ false = ground (arith, h.behind) in
        rw (more, e, room lenu s z rlen h)
          (elim (Bool-cases (too_long lenu z.past rlen)) [
            | inl full ↦ rw full (stop-Shows s z overrun h)
            | inr fits ↦ rw fits (copy_run-Shows s z roff rlen _ lt refl h)
          ])
  ]

  dictionary_item-Shows :
      (s : Machine) (z : Lz77) (src : Bytes)
      → All IsByte src
      → Shows s z
      → Shows (dictionary_item lenu s src) (pair lenu z src)
  unfolding dictionary_item pair
  dictionary_item-Shows s z (hi ∷ lo ∷ src) (bh, (bl, bs)) h =
      reference-Shows (record s { src = src }) (record z { src = src }) (hi * 2 ^ 4 + lo / 2 ^ 4)
        (lo % 2 ^ 4 + 2) (omega arith) (src-Shows s z src bs h)
  dictionary_item-Shows s z (hi ∷ []) b h = stop-Shows s z overrun h
  dictionary_item-Shows s z [] b h = stop-Shows s z overrun h

  literal_item-Shows :
      (s : Machine) (z : Lz77) (src : Bytes)
      → All IsByte src
      → Shows s z
      → Shows (literal_item lenu s src) (literal lenu z src)
  unfolding literal_item literal
  literal_item-Shows s z [] b h = stop-Shows s z overrun h
  literal_item-Shows s z (c ∷ src) (bc, bs) h =
      rw (room lenu s z 1 h) (elim (Bool-cases (too_long lenu z.past 1)) [
        | inl full ↦ rw full (stop-Shows s z overrun h)
        | inr fits ↦ rw fits (
            emit-Shows (record s { src = src }) (record z { src = src }) c (src-Shows s z src bs h))
      ])

  item-Shows :
      (bit : Bool) (s : Machine) (z : Lz77) → Shows s z → Shows (item lenu bit s) (token lenu bit z)
  unfolding item token
  item-Shows true s z h =
      subst (λ src. Shows (item lenu true s) (pair lenu z src)) h.same_src
        (dictionary_item-Shows s z s.src h.is_bytes h)
  item-Shows false s z h =
      subst (λ src. Shows (item lenu false s) (literal lenu z src)) h.same_src
        (literal_item-Shows s z s.src h.is_bytes h)

  control_run-Shows :
      (control bits : ℕ) (flag : EndFlag) (s : Machine) (z : Lz77)
      → Shows s z
      → Shows (control_run lenu control bits flag s) (tokens lenu control bits flag z)
  unfolding control_run tokens
  control_run-Shows control zero flag s z h = h
  control_run-Shows control (suc bits) running s z h =
      let s' = item lenu (control % 2 == 1) s in
      let z' = token lenu (control % 2 == 1) z in
      let h' = item-Shows (control % 2 == 1) s z h in
      subst
        (λ flag.
          Shows (control_run lenu (control / 2) bits s'.endflag s')
            (tokens lenu (control / 2) bits flag z'))
        h'.same_flag (control_run-Shows (control / 2) bits s'.endflag s' z' h')
  control_run-Shows control (suc bits) happy s z h = h
  control_run-Shows control (suc bits) overrun s z h = h

  process-Shows :
      (fuel : ℕ) (flag : EndFlag) (src : Bytes) (s : Machine) (z : Lz77)
      → All IsByte src
      → Shows s z
      → Shows (process lenu fuel flag src s) (groups lenu fuel flag src z)
  unfolding process groups
  process-Shows zero flag src s z b h = h
  process-Shows (suc fuel) running [] s z b h = stop-Shows s z overrun h
  process-Shows (suc fuel) running (control ∷ src) s z (bc, bs) h =
      let s' = control_run lenu control 8 running (record s { src = src }) in
      let z' = tokens lenu control 8 running (record z { src = src }) in
      let h' = control_run-Shows control 8 running _ _ (src-Shows s z src bs h) in
      subst
        (λ flag. Shows (process lenu fuel s'.endflag s'.src s') (groups lenu fuel flag z'.src z'))
        h'.same_flag
        (subst
          (λ rest.
            Shows (process lenu fuel s'.endflag s'.src s') (groups lenu fuel s'.endflag rest z'))
          h'.same_src (process-Shows fuel s'.endflag s'.src s' z' h'.is_bytes h'))
  process-Shows (suc fuel) happy src s z b h = h
  process-Shows (suc fuel) overrun src s z b h = h

preset : (r : ℕ) → r < 207 → get_or rtf_prebuf r 0 ≡ get_or (onto rtf_prebuf []) (206 - r) 0
unfolding agree_below onto rtf_prebuf
preset = agree_below→eq _ _ 207 refl

length-preset : length rtf_prebuf ≡ 207
unfolding rtf_prebuf
length-preset = refl

start-Shows :
    (src : Bytes)
    → All IsByte src
    → Shows (start src) (record { past = onto rtf_prebuf []; src = src; endflag = running })
unfolding start
start-Shows src b = record {
  window = omega (
    arith,
    length-append rtf_prebuf (replicate (4096 - length rtf_prebuf) 0),
    length-replicate {A = ℕ} (4096 - length rtf_prebuf) 0,
    length-preset,
  );
  behind = omega (arith, length-onto rtf_prebuf [], length-preset);
  ring = λ r lt. get_or-zeros rtf_prebuf (4096 - length rtf_prebuf) r ∙ first r lt;
  output = sym (nil-onto (onto rtf_prebuf []));
  same_src = refl;
  same_flag = refl;
  is_bytes = b;
}
  where
    first :
        (r : ℕ)
        → r < 4096
        → get_or rtf_prebuf r 0 ≡ get_or (onto rtf_prebuf []) (distance_of (onto rtf_prebuf []) r) 0
    first r lt = elim (Bool-cases (ltb r 207)) [
      | inl inside ↦
          let d : distance_of (onto rtf_prebuf []) r ≡ 206 - r =
            ground (arith, length-onto rtf_prebuf [], length-preset) in
          preset r (ground arith) ∙ ap (λ i. get_or (onto rtf_prebuf []) i 0) (sym d)
      | inr outside ↦
          get_or_outside rtf_prebuf r (ground (arith, length-preset))
          ∙ sym (
              get_or_outside (onto rtf_prebuf []) _
                (ground (arith, length-onto rtf_prebuf [], length-preset)))
    ]

pub decompress-Shows :
    (src : Bytes) (lenu : ℕ) → All IsByte src → Shows (decompress src lenu) (lz77 src lenu)
unfolding decompress lz77
decompress-Shows src lenu b =
    process-Shows lenu (suc (length src)) running src _ _ b (start-Shows src b)

-- The output of the ring and of the whole past are the same, for every compressed stream of bytes
-- and every size: the past is the output, its latest byte first, and behind it the preset text. Both
-- end in the same way.
pub decompress-lz77 :
    (src : Bytes) (lenu : ℕ)
    → All IsByte src
    → ((lz77 src lenu).past ≡ onto (decompress src lenu).dest (onto rtf_prebuf []))
      × ((decompress src lenu).endflag ≡ (lz77 src lenu).endflag)
decompress-lz77 src lenu b = let h = decompress-Shows src lenu b in (h.output, h.same_flag)
