-- ===== src/Rtf/Shows.antt =====
-- The ring of `decompress_rtf_data` in src/rtf.c shows the whole past of LZ77, and each byte keeps it so.
use tnef.Prelude.{
  ℕ, zero, suc, ◌+◌, ◌%◌, ◌^◌, ◌<◌, ◌≡◌, refl, sym, ap, ◌∙◌, arith, [], ◌∷◌, length, length-set,
  get_or, set, All, ◌==◌, Bool-cases, ==_iff, inl, inr,
}
use tnef.Util.{Bytes, IsByte}
use tnef.Rtf.Table.{rtf_prebuf}
use tnef.Rtf.Lz77.{Lz77, onto, copy, distance_of, stop}
use tnef.Rtf.{Machine, EndFlag, accessed, emit, copy_run, end_with}
use tnef.Rtf.Past.{get_or-set_self, get_or-set_ne, onto-snoc}

-- The ring holds what the past says: `woff` is where it goes on, and an offset finds the byte at its
-- distance.
pub record Shows (s : Machine) (z : Lz77) : Type 0 where
  pub window : length s.dict ≡ 4096
  pub behind : s.woff ≡ length z.past % 4096
  pub ring : (r : ℕ) → r < 4096 → get_or s.dict r 0 ≡ get_or z.past (distance_of z.past r) 0
  pub output : z.past ≡ onto s.dest (onto rtf_prebuf [])
  pub same_src : s.src ≡ z.src
  pub same_flag : s.endflag ≡ z.endflag
  pub is_bytes : All IsByte s.src

accessed-inside : (dict : Bytes) (i : ℕ) → i < length dict → accessed dict i ≡ dict
accessed-inside dict i h = ground arith

pub emit-Shows :
    (s : Machine) (z : Lz77) (b : ℕ) → Shows s z → Shows (emit s b) (record z { past = b ∷ z.past })
unfolding emit
emit-Shows s z b h = rw (accessed-inside s.dict s.woff (omega (arith, h.window, h.behind))) record {
  window = length-set s.dict s.woff b ∙ h.window;
  behind = omega (arith, h.behind);
  ring = ring';
  output = ap (◌∷◌ b) h.output ∙ sym (onto-snoc s.dest b (onto rtf_prebuf []));
  same_src = h.same_src;
  same_flag = h.same_flag;
  is_bytes = h.is_bytes;
}
  where
    ring' :
        (r : ℕ)
        → r < 4096
        → get_or (set s.dict s.woff b) r 0 ≡ get_or (b ∷ z.past) (distance_of (b ∷ z.past) r) 0
    ring' r lt = elim (Bool-cases (s.woff == r)) [
      | inl here ↦
          let e : s.woff ≡ r = (==_iff s.woff r).0 here in
          let d : distance_of (b ∷ z.past) r ≡ 0 = omega (arith, h.behind) in
          ap (λ i. get_or (set s.dict s.woff b) i 0) (sym e)
          ∙ get_or-set_self s.dict s.woff b (omega (arith, h.window))
          ∙ ap (λ i. get_or (b ∷ z.past) i 0) (sym d)
      | inr there ↦
          let d : distance_of (b ∷ z.past) r ≡ suc (distance_of z.past r) =
            ground (arith, h.behind) in
          get_or-set_ne s.dict s.woff r b (ground (arith, there))
          ∙ h.ring r lt
          ∙ ap (λ i. get_or (b ∷ z.past) i 0) (sym d)
    ]

pub copy_run-Shows :
    (s : Machine) (z : Lz77) (roff rlen distance : ℕ)
    → roff < 4096
    → distance_of z.past roff ≡ distance
    → Shows s z
    → Shows (copy_run s roff rlen) (record z { past = copy z.past distance rlen })
unfolding copy_run copy
copy_run-Shows s z roff zero distance lt e h = h
copy_run-Shows s z roff (suc rlen) distance lt e h =
    let b = get_or z.past distance 0 in
    rw (h.ring roff lt, e, accessed-inside s.dict roff (omega (arith, h.window)))
      (copy_run-Shows (emit s b) (record z { past = b ∷ z.past }) ((roff + 1) % 2 ^ 12) rlen
        distance (omega arith) (omega arith) (emit-Shows s z b h))

pub stop-Shows :
    (s : Machine) (z : Lz77) (flag : EndFlag) → Shows s z → Shows (end_with s flag) (stop z flag)
stop-Shows s z flag h = record {
  window = h.window;
  behind = h.behind;
  ring = h.ring;
  output = h.output;
  same_src = h.same_src;
  same_flag = refl;
  is_bytes = h.is_bytes;
}

pub src-Shows :
    (s : Machine) (z : Lz77) (src : Bytes)
    → All IsByte src
    → Shows s z
    → Shows (record s { src = src }) (record z { src = src })
src-Shows s z src b h = record {
  window = h.window;
  behind = h.behind;
  ring = h.ring;
  output = h.output;
  same_src = refl;
  same_flag = h.same_flag;
  is_bytes = b;
}
