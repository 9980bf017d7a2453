-- ===== src/Date.antt =====
-- src/date.c: `struct date`, read from 14 bytes, and how it is printed.
pub mod Columns
use tnef.Prelude.{ℕ, List, [], ◌∷◌, ◌++◌, leb, take, drop, ascii}
use tnef.Outcome.{Result, ok, assert, ◌>>=◌, ◌>>◌}
use tnef.Print.{decimal, padded}
use tnef.Util.{Bytes, getint16}

pub record Date : Type 0 where
  pub year : ℕ
  pub month : ℕ
  pub day : ℕ
  pub hour : ℕ
  pub min : ℕ
  pub sec : ℕ
  pub dow : ℕ

unfoldable pub date_read : Bytes → Result Date
date_read tmp = do
  year ← getint16 tmp
  month ← getint16 (drop 2 tmp)
  day ← getint16 (drop 4 tmp)
  hour ← getint16 (drop 6 tmp)
  min ← getint16 (drop 8 tmp)
  sec ← getint16 (drop 10 tmp)
  dow ← getint16 (drop 12 tmp)
  ok (record {
    year = year;
    month = month;
    day = day;
    hour = hour;
    min = min;
    sec = sec;
    dow = dow;
  })

-- The assertion of `dow_str`; `dow` is unsigned here.
unfoldable pub dow_str_assert : ℕ → Result (Unit {0})
dow_str_assert dow = assert (leb dow 6)

abbrev day_of_week : List Bytes
day_of_week =
    ascii "Sun"
    ∷ ascii "Mon"
    ∷ ascii "Tue"
    ∷ ascii "Wed"
    ∷ ascii "Thu"
    ∷ ascii "Fri"
    ∷ ascii "Sat"
    ∷ []

abbrev first : List Bytes → Bytes
first [] = []
first (s ∷ strings) = s

unfoldable pub dow_str : ℕ → Result Bytes
dow_str dow = do dow_str_assert dow; ok (first (drop dow day_of_week))

-- The format string.
abbrev pub date_text : Bytes → Date → Bytes
date_text day dt =
    day
    ++ b' ' ∷ padded 4 (decimal dt.year)
    ++ b'/' ∷ padded 2 (decimal dt.month)
    ++ b'/' ∷ padded 2 (decimal dt.day)
    ++ b' ' ∷ padded 2 (decimal dt.hour)
    ++ b':' ∷ padded 2 (decimal dt.min)
    ++ b':' ∷ padded 2 (decimal dt.sec)

-- The buffer has 32 bytes, with the terminating 0.
unfoldable pub date_to_str : Date → Result Bytes
date_to_str dt = do day ← dow_str dt.dow; ok (take 31 (date_text day dt))
