-- ===== src/Sync/DateTime/Laws.antt =====
-- What the reader of date-times accepts, and the time that it reads.
use mathlib.Core.Path.{ap₂, refl, ◌≡◌}
use native.Mathlib.Omega.{arith}
use pomodorough_server.Js.Text.{codes}
use pomodorough_server.Js.Value.{str}
use pomodorough_server.Prelude.{
  Bool-cases, List, Option, String, [], ==_iff, ap, false, false≢true, if◌then◌else◌, inl, inr,
  none, some, suc, subst, sym, true, zero, ℕ, ◌∙◌, ◌*◌, ◌+◌, ◌++◌, ◌==◌, ◌∷◌, ◌≤◌,
}
use pomodorough_server.Prelude.Int.{pos, ℤ, ◌+ℤ◌}
use pomodorough_server.Sync.DateTime.{
  DateTime, at_offset, in_range, instant, local_seconds, offset_seconds, parse_codes,
  parse_date_time, trim_zeros,
}
use pomodorough_server.Sync.DateTime.Calendar.{
  day_number, Date, days_in_month, IsDate, day_number-next_date, next_date,
}
use pomodorough_server.Sync.DateTime.Print.{IsPrintable, print_fields, read_fields-print_fields}
use pomodorough_server.Sync.DateTime.Read.{Fields, Sign, read_fields}

parse_codes_of :
    (cs : List ℕ) (m : Fields)
    → read_fields cs ≡ some m
    → parse_codes cs ≡ (
        if in_range m
        then some (record { seconds = instant m; fraction = trim_zeros m.fraction })
        else none)
unfolding parse_codes
parse_codes_of cs m e = rw (e, parse_codes)

-- A list of zeros as they are written.
abbrev pub zeros : ℕ → List ℕ
zeros zero = []
zeros (suc k) = b'0' ∷ zeros k

-- The last of the digits, if there is one, is no zero.
abbrev pub EndsWell : List ℕ → Type 0
EndsWell [] = Unit
EndsWell (c ∷ []) = (c == b'0') ≡ false
EndsWell (c ∷ d ∷ ds) = EndsWell (d ∷ ds)

trim_zeros-zeros :
    (cs : List ℕ) → ((k : ℕ) × (cs ≡ trim_zeros cs ++ zeros k)) × EndsWell (trim_zeros cs)
trim_zeros-zeros [] = ((0, refl), tt)
trim_zeros-zeros (c ∷ cs) = trimmed c cs (trim_zeros cs) (trim_zeros-zeros cs)
  where
    trimmed :
        (c : ℕ) (cs ts : List ℕ)
        → ((k : ℕ) × (cs ≡ ts ++ zeros k)) × EndsWell ts
        → ((k : ℕ) × ((c ∷ cs)
              ≡ elim ts as (λ _. List ℕ) [
                | [] ↦ if c == b'0' then [] else c ∷ []
                | d ∷ ds ↦ c ∷ d ∷ ds
              ]
                ++ zeros k))
          × EndsWell (elim ts as (λ _. List ℕ) [
            | [] ↦ if c == b'0' then [] else c ∷ []
            | d ∷ ds ↦ c ∷ d ∷ ds
          ])
    trimmed c cs [] ((k, e), w) = elim (Bool-cases (c == b'0')) [
      | inl nought ↦ rw nought ((suc k, ap₂ ◌∷◌ ((==_iff c b'0').0 nought) e), tt)
      | inr digit ↦ rw digit ((k, ap (λ xs. c ∷ xs) e), digit)
    ]
    trimmed c cs (d ∷ ds) ((k, e), w) = ((k, ap (λ xs. c ∷ xs) e), w)

-- The fields are in the ranges of the calendar and of the clock.
pub record IsInRange (m : Fields) : Type 0 where
  pub month_from : 1 ≤ m.month
  pub month_to : m.month ≤ 12
  pub day_from : 1 ≤ m.day
  pub day_to : m.day ≤ days_in_month m.year m.month
  pub hour : m.hour ≤ 23
  pub minute : m.minute ≤ 59
  pub second : m.second ≤ 59
  pub offset_hour : m.offset_hour ≤ 23
  pub offset_minute : m.offset_minute ≤ 59

in_range-IsInRange : (m : Fields) → in_range m ≡ true → IsInRange m
in_range-IsInRange m h = ground arith

IsInRange-in_range : (m : Fields) → IsInRange m → in_range m ≡ true
IsInRange-in_range m v = ground arith

-- The seconds since the start of 1970 of a time of day at an offset: with the seconds from the start
-- of the year 0 to 1970 they make up the days and seconds of the fields, less what the clock is ahead.
abbrev pub IsSecondsOf : Sign → (offset local : ℕ) → ℤ → Type 0
IsSecondsOf Sign.plus offset local t = t +ℤ pos (62167219200 + offset) ≡ pos local
IsSecondsOf Sign.minus offset local t = t +ℤ pos 62167219200 ≡ pos (local + offset)
IsSecondsOf Sign.zulu offset local t = t +ℤ pos 62167219200 ≡ pos local

at_offset-IsSecondsOf :
    (s : Sign) (offset local : ℕ) → IsSecondsOf s offset local (at_offset s offset local)
unfolding ◌+ℤ◌
at_offset-IsSecondsOf Sign.plus offset local = ground arith
at_offset-IsSecondsOf Sign.minus offset local = ground arith
at_offset-IsSecondsOf Sign.zulu offset local = ground arith

-- What was read of the fields: their instant, and the digits of their fraction up to zeros at its
-- end, of which none is left.
pub record IsReadOf (m : Fields) (d : DateTime) : Type 0 where
  pub seconds : d.seconds ≡ instant m
  pub counted :
      IsSecondsOf m.sign
        ((m.offset_hour * 60 + m.offset_minute) * 60)
        (day_number m.year m.month m.day * 86400 + m.hour * 3600 + m.minute * 60 + m.second)
        d.seconds
  pub zeros_cut : (k : ℕ) × (m.fraction ≡ d.fraction ++ zeros k)
  pub none_left : EndsWell d.fraction

read_of :
    (m : Fields) → IsReadOf m (record { seconds = instant m; fraction = trim_zeros m.fraction })
read_of m = record {
  seconds = refl;
  counted = at_offset-IsSecondsOf m.sign (offset_seconds m) (local_seconds m);
  zeros_cut = (trim_zeros-zeros m.fraction).0;
  none_left = (trim_zeros-zeros m.fraction).1;
}

parse_printed :
    (s : String) (m : Fields)
    → codes s ≡ print_fields m
    → IsPrintable m
    → parse_date_time (str s) ≡ (
        if in_range m
        then some (record { seconds = instant m; fraction = trim_zeros m.fraction })
        else none)
unfolding parse_date_time
parse_printed s m e v = rw e (parse_codes_of (print_fields m) m (read_fields-print_fields m v))

-- A text that is written from printable fields is accepted exactly when the month is between 1 and
-- 12, the day is one of that month, the hours, of the offset too, are at most 23 and the minutes and
-- seconds at most 59; then it is read as the instant of the fields, the seconds since the start of
-- 1970 at their offset, and as their fraction without the zeros at its end.
pub parse_date_time-print_fields :
    (s : String) (m : Fields)
    → codes s ≡ print_fields m
    → IsPrintable m
    → (IsInRange m → (d : DateTime) × (parse_date_time (str s) ≡ some d) × IsReadOf m d)
      × ((d : DateTime) → parse_date_time (str s) ≡ some d → IsInRange m × IsReadOf m d)
parse_date_time-print_fields s m e v = elim (Bool-cases (in_range m)) [
  | inl good ↦
      let whole : DateTime = record { seconds = instant m; fraction = trim_zeros m.fraction } in
      let read : parse_date_time (str s) ≡ some whole = parse_printed s m e v ∙ rw good refl in
      (
        λ _. (whole, read, read_of m),
        λ d there. (
          in_range-IsInRange m good,
          subst (IsReadOf m) (some-injective (sym read ∙ there)) (read_of m),
        ),
      )
  | inr bad ↦
      let refused : parse_date_time (str s) ≡ none = parse_printed s m e v ∙ rw bad refl in
      (
        λ inside. absurd (false≢true (sym bad ∙ IsInRange-in_range m inside)),
        λ d there. absurd (none≢some (sym refused ∙ there)),
      )
]
  where
    some-injective : {a b : DateTime} → some a ≡ some b → a ≡ b
    some-injective h = cc

    none≢some : {d : DateTime} → ◌≡◌ {A = Option DateTime} none (some d) → ⊥
    none≢some h = cc

abbrev pub date_of : Fields → Date
date_of m = record { year = m.year; month = m.month; day = m.day }

in_range-IsDate : (m : Fields) → in_range m ≡ true → IsDate (date_of m)
in_range-IsDate m h = ground arith

at_offset_suc : (s : Sign) (o n : ℕ) → at_offset s o (n + 1) ≡ at_offset s o n +ℤ pos 1
unfolding ◌+ℤ◌
at_offset_suc Sign.plus o n = ground arith
at_offset_suc Sign.minus o n = ground arith
at_offset_suc Sign.zulu o n = ground arith

-- the first second of the next date, at the same offset
abbrev pub next_day : Fields → Fields
next_day m = record m {
  year = (next_date (date_of m)).year;
  month = (next_date (date_of m)).month;
  day = (next_date (date_of m)).day;
  hour = 0;
  minute = 0;
  second = 0;
}

local_seconds-next_day :
    (m : Fields)
    → in_range m ≡ true
    → m.hour ≡ 23
    → m.minute ≡ 59
    → m.second ≡ 59
    → local_seconds (next_day m) ≡ local_seconds m + 1
local_seconds-next_day m v h mi s =
    let next = day_number-next_date (date_of m) (in_range-IsDate m v) in
    omega (arith, next, h, mi, s)

-- The last second of a date in range is followed by the first second of the date after it, through
-- the ends of months, of years and of leap Februaries, at every offset.
pub instant-next_day :
    (m : Fields)
    → in_range m ≡ true
    → m.hour ≡ 23
    → m.minute ≡ 59
    → m.second ≡ 59
    → instant (next_day m) ≡ instant m +ℤ pos 1
instant-next_day m v h mi s =
    rw (local_seconds-next_day m v h mi s)
      (at_offset_suc m.sign (offset_seconds m) (local_seconds m))
