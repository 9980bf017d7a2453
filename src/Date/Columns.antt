-- ===== src/Date/Columns.antt =====
-- The columns of a date that `date_to_str` of src/date.c prints.
use native.Mathlib.Nat.{le_trans}
use tnef.Prelude.{
  ℕ, zero, suc, ◌+◌, ◌≡◌, ◌≤◌, ◌<◌, refl, ap, arith, [], ◌∷◌, ◌++◌, length, take, drop, ascii, ◌*◌,
}
use tnef.Outcome.{ok}
use tnef.Util.{Bytes}
use tnef.Print.Numbers.{Field, field}
use tnef.Date.{Date, dow_str, dow_str_assert, date_text, date_to_str}

take_all : (n : ℕ) (s : Bytes) → length s ≤ n → take n s ≡ s
take_all zero [] h = refl
take_all zero (c ∷ s) h = absurd (omega arith)
take_all (suc n) [] h = refl
take_all (suc n) (c ∷ s) h = ap (λ t. c ∷ t) (take_all n s (omega arith))

length-column : (s t : Bytes) (c : ℕ) → length (s ++ c ∷ t) ≡ length s + suc (length t)
length-column [] t c = omega arith
length-column (a ∷ s) t c = omega (arith, length-column s t c)

le_of : {n m : ℕ} → n ≡ m → n ≤ m
le_of h = omega arith

-- One column more, and what stands behind it.
column :
    (s : Bytes) (c : ℕ) (t : Bytes) {n m : ℕ}
    → length s ≤ n
    → length t ≡ m
    → length (s ++ c ∷ t) ≤ n + suc m
column s c t h l = omega (arith, length-column s t c)

width :
    (dow year month day hour min sec : Bytes)
    → length dow ≡ 3
    → length year ≡ 4
    → length month ≡ 2
    → length day ≡ 2
    → length hour ≡ 2
    → length min ≡ 2
    → length sec ≡ 2
    → length (
        dow ++ b' ' ∷ year ++ b'/' ∷ month ++ b'/' ∷ day ++ b' ' ∷ hour ++ b':' ∷ min ++ b':' ∷ sec)
      ≤ 31
width dow year month day hour min sec w y mo d h mi s =
    le_trans
      (column _ b':' sec
        (column _ b':' min
          (column _ b' ' hour
            (column _ b'/' day (column _ b'/' month (column dow b' ' year (le_of w) y) mo) d) h)
          mi)
        s)
      (omega arith)

-- The three letters of a day, the days from Sunday on.
abbrev pub letters_of_day : ℕ → Bytes
letters_of_day dow = take 3 (drop (3 * dow) (ascii "SunMonTueWedThuFriSat"))

named :
    (dow : ℕ)
    → dow ≤ 6
    → (dow_str dow ≡ ok (letters_of_day dow)) × (length (letters_of_day dow) ≡ 3)
unfolding dow_str dow_str_assert
named zero h = (refl, refl)
named (suc zero) h = (refl, refl)
named (suc (suc zero)) h = (refl, refl)
named (suc (suc (suc zero))) h = (refl, refl)
named (suc (suc (suc (suc zero)))) h = (refl, refl)
named (suc (suc (suc (suc (suc zero))))) h = (refl, refl)
named (suc (suc (suc (suc (suc (suc zero)))))) h = (refl, refl)
named (suc (suc (suc (suc (suc (suc (suc n))))))) h = absurd (omega arith)

-- A date whose year has four digits at most, the other numbers two, and whose day of the week is one,
-- is printed in full: the three letters of the day, 0 for Sunday, and the six numbers in columns of four and two digits
-- that read back as the fields of the date.
pub date_to_str_columns :
    (dt : Date)
    → dt.dow ≤ 6
    → dt.year < 10000
    → dt.month < 100
    → dt.day < 100
    → dt.hour < 100
    → dt.min < 100
    → dt.sec < 100
    → (year month day hour min sec : Bytes) × (date_to_str dt
        ≡ ok (
            letters_of_day dt.dow
            ++ b' ' ∷ year
            ++ b'/' ∷ month
            ++ b'/' ∷ day
            ++ b' ' ∷ hour
            ++ b':' ∷ min
            ++ b':' ∷ sec))
      × Field 4 dt.year year
      × Field 2 dt.month month
      × Field 2 dt.day day
      × Field 2 dt.hour hour
      × Field 2 dt.min min
      × Field 2 dt.sec sec
unfolding date_to_str
date_to_str_columns dt w y mo d h mi s =
    let (is, three) = named dt.dow w in
    let year = field 3 dt.year y (omega arith) in
    let month = field 1 dt.month mo (omega arith) in
    let day = field 1 dt.day d (omega arith) in
    let hour = field 1 dt.hour h (omega arith) in
    let min = field 1 dt.min mi (omega arith) in
    let sec = field 1 dt.sec s (omega arith) in
    let fits =
      width (letters_of_day dt.dow) _ _ _ _ _ _ three year.0 month.0 day.0 hour.0 min.0 sec.0 in
    (
      _,
      _,
      _,
      _,
      _,
      _,
      rw is (ap ok (take_all 31 (date_text (letters_of_day dt.dow) dt) fits)),
      year,
      month,
      day,
      hour,
      min,
      sec,
    )
