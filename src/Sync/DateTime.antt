-- ===== src/Sync/DateTime.antt =====
-- `parseDateTime`, `validDateTime` and `dateTimeMs` of web/sync-core.js. The pattern is read by
-- hand, one function to each part of it; the days of the calendar are counted as `Date` counts.
pub mod Calendar
pub mod Read
pub mod Print
pub mod Laws
use pomodorough_server.Js.Num.{is_safe}
use pomodorough_server.Js.Text.{codes}
use pomodorough_server.Js.Value.{Value, str}
use pomodorough_server.Prelude.{
  Bool, List, Option, [], false, if◌then◌else◌, leb, none, some, true, ℕ, ◌&&◌, ◌*◌, ◌+◌, ◌-◌, ◌==◌,
  ◌∷◌,
}
use pomodorough_server.Prelude.Int.{neg_part, pos_part, sub_ℕ, ℤ}
use pomodorough_server.Sync.Account.{text}
use Read.{Sign, Fields, read_fields, reader}
use Calendar.{days_in_month, day_number, days_before_year, days_before_month}

pub record DateTime : Type 0 where
  pub seconds : ℤ
  pub fraction : List ℕ

abbrev pub in_range : Fields → Bool
in_range m =
    leb 1 m.month
    && leb m.month 12
    && leb 1 m.day
    && leb m.day (days_in_month m.year m.month)
    && leb m.hour 23
    && leb m.minute 59
    && leb m.second 59
    && leb m.offset_hour 23
    && leb m.offset_minute 59

-- `fraction.replace(/0+$/, "")`
abbrev pub trim_zeros : List ℕ → List ℕ
trim_zeros [] = []
trim_zeros (c ∷ cs) = elim (trim_zeros cs) [
  | [] ↦ if c == b'0' then [] else c ∷ []
  | d ∷ ds ↦ c ∷ d ∷ ds
]

-- the seconds from 0000-01-01 to the fields, and the seconds of the offset
abbrev pub local_seconds : Fields → ℕ
local_seconds m = day_number m.year m.month m.day * 86400 + m.hour * 3600 + m.minute * 60 + m.second

abbrev pub offset_seconds : Fields → ℕ
offset_seconds m = (m.offset_hour * 60 + m.offset_minute) * 60

abbrev pub at_offset : Sign → ℕ → ℕ → ℤ
at_offset Sign.plus offset local = sub_ℕ local (719528 * 86400 + offset)
at_offset Sign.minus offset local = sub_ℕ (local + offset) (719528 * 86400)
at_offset Sign.zulu offset local = sub_ℕ local (719528 * 86400)

-- the seconds since the epoch of the fields read at offset zero, less the signed offset
abbrev pub instant : Fields → ℤ
instant m = at_offset m.sign (offset_seconds m) (local_seconds m)

unfoldable pub parse_codes : List ℕ → Option DateTime
parse_codes text = elim (read_fields text) [
  | none ↦ none
  | some m ↦
      if in_range m
      then some (record { seconds = instant m; fraction = trim_zeros m.fraction })
      else none
]

unfoldable pub parse_date_time : Value → Option DateTime
parse_date_time (str s) = parse_codes (codes s)
parse_date_time v = none

unfoldable pub valid_date_time : Value → Bool
valid_date_time value = elim (parse_date_time value) [ some d ↦ true | none ↦ false ]

-- `Number(fraction.padEnd(3, "0").slice(0, 3))`
abbrev pub milliseconds : List ℕ → ℕ
milliseconds [] = 0
milliseconds (a ∷ []) = (a - b'0') * 100
milliseconds (a ∷ b ∷ []) = (a - b'0') * 100 + (b - b'0') * 10
milliseconds (a ∷ b ∷ c ∷ _) = (a - b'0') * 100 + (b - b'0') * 10 + (c - b'0')

-- a thousand times an integer, plus a number
abbrev pub scaled : ℤ → ℕ → ℤ
scaled i n = sub_ℕ (pos_part i * 1000 + n) (neg_part i * 1000)

unfoldable pub date_time_ms : Value → Option ℤ
date_time_ms value = elim (parse_date_time value) [
  | none ↦ none
  | some d ↦
      let result = scaled d.seconds (milliseconds d.fraction) in
      if is_safe result then some result else none
]

-- all that reads a date-time, for a line that runs it
unfoldable pub date_reader : Unit {0}
unfolding reader parse_codes parse_date_time valid_date_time date_time_ms day_number
    days_before_year days_before_month days_in_month
date_reader = tt
