-- ===== src/Rtf/Window.antt =====
-- `decompress_rtf_data` of src/rtf.c: its dictionary, its output, and its end.
use tnef.Prelude.{
  ℕ, suc, ◌-◌, ◌^◌, ◌<◌, ◌≤◌, ◌≡◌, ◌≢◌, refl, arith, true, false, [], ◌++◌, length, replicate, ltb,
  ◌==◌, All, ◌∙◌,
}
use tnef.Outcome.{ok}
use tnef.Env.{Env}
use tnef.Alloc.{access}
use tnef.Alloc.Limit.{Serves, Serves-le, checked_xcalloc-Serves}
use tnef.Util.{Bytes, IsByte}
use tnef.Rtf.Table.{rtf_prebuf}
use tnef.Rtf.Lz77.{lz77, onto}
use tnef.Rtf.Refine.{decompress-Shows, decompress-lz77}
use tnef.Rtf.{Machine, running, start, decompress, decompress_rtf_data}
use tnef.Rtf.Room.{process-Room, process_ends}

-- The dictionary has its 4096 bytes, which an access outside of it would have ended, `woff` points
-- into it, and `dest` fits its `lenu` bytes.
pub record Fits (lenu : ℕ) (s : Machine) : Type 0 where
  pub window : length s.dict ≡ 4096
  pub offset : s.woff < 4096
  pub room : length s.dest ≤ lenu

ends_inside :
    (src : Bytes) (lenu : ℕ)
    → All IsByte src
    → Fits lenu (decompress src lenu) × ((decompress src lenu).endflag ≢ running)
unfolding decompress
ends_inside src lenu b =
    let h = decompress-Shows src lenu b in
    (
      record {
        window = h.window;
        offset = omega (arith, h.behind);
        room =
            process-Room lenu (suc (length src)) running src (start src)
              (unfold start in omega arith);
      },
      process_ends lenu (suc (length src)) running src (start src) (omega arith)
          (unfold start in refl),
    )

-- For every stream of bytes and every size, both below 2 ^ 30 so that the `int`s hold: no access was
-- outside of the dictionary's 4096 bytes, `woff` is an index into it, `dest` has at most `lenu` bytes,
-- and the loop has ended by one of its exits, so the rounds given are enough.
pub decompress-Fits :
    (src : Bytes) (lenu : ℕ)
    → All IsByte src
    → length src < 2 ^ 30
    → lenu < 2 ^ 30
    → Fits lenu (decompress src lenu) × ((decompress src lenu).endflag ≢ running)
decompress-Fits src lenu b small_src small = ends_inside src lenu b

pub window_kept :
    (src : Bytes) (lenu : ℕ) → All IsByte src → (length (decompress src lenu).dict == 0) ≡ false
window_kept src lenu b = ground (arith, (ends_inside src lenu b).0.window)

-- Decompression of any bytes, not none, to any size but 0, both sizes below 2 ^ 30 and within the
-- limit, comes to an end, and returns what LZ77 on the whole past gives up to its own end, and 0s up
-- to the size asked for. (`malloc` is taken to succeed.)
pub decompress_rtf_data-lz77 :
    (env : Env) (src : Bytes) (lenu : ℕ)
    → Serves env lenu
    → 0 < lenu
    → lenu < 2 ^ 30
    → 0 < length src
    → length src < 2 ^ 30
    → All IsByte src
    → (out : Bytes) × (decompress_rtf_data env src lenu
        ≡ ok (out ++ replicate (lenu - length out) 0))
      × (length out ≤ lenu)
      × ((lz77 src lenu).past ≡ onto out (onto rtf_prebuf []))
      × ((lz77 src lenu).endflag ≢ running)
unfolding decompress_rtf_data access
decompress_rtf_data-lz77 env src lenu s pos w some_src small b =
    let (past, flag) = decompress-lz77 src lenu b in
    let (f, ended) = ends_inside src lenu b in
    (
      (decompress src lenu).dest,
      rw (
        positive lenu pos,
        checked_xcalloc-Serves lenu 1 0 (Serves-le _ s (omega arith)) (omega arith),
        positive (length src) some_src,
        window_kept src lenu b,
      ),
      f.room,
      past,
      λ e. ended (flag ∙ e),
    )
  where
    positive : (n : ℕ) → 0 < n → ltb 0 n ≡ true
    positive n h = ground arith
