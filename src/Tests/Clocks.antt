-- ===== src/Tests/Clocks.antt =====
-- Date-times and clock samples at concrete inputs.
use mathlib.Core.Path.{refl, ◌≡◌}
use native.Mathlib.Omega.{arith}
use pomodorough_server.Js.Result.{ok}
use pomodorough_server.Js.Value.{Value, end, int, obj, prop, str}
use pomodorough_server.Prelude.{[], some, true, ℕ, ◌∷◌, ◌⊎◌}
use pomodorough_server.Prelude.Int.{pos, ◌+ℤ◌}
use pomodorough_server.Sync.Clock.{latest_clock_offset, outranks, ranks, valid_clock_sample}
use pomodorough_server.Sync.Clock.Latest.{IsAsNew, latest_clock_offset-IsAsNew}
use pomodorough_server.Sync.DateTime.{DateTime, date_reader, in_range, instant, parse_date_time}
use pomodorough_server.Sync.DateTime.Laws.{
  IsInRange, IsReadOf, instant-next_day, next_day, parse_date_time-print_fields,
}
use pomodorough_server.Sync.DateTime.Print.{IsPrintable}
use pomodorough_server.Sync.DateTime.Read.{Fields, Sign}

abbrev leap_evening : Fields
leap_evening = record {
  year = 2024;
  month = 2;
  day = 29;
  hour = 23;
  minute = 59;
  second = 59;
  fraction = b'5' ∷ b'0' ∷ [];
  sign = Sign.plus;
  offset_hour = 2;
  offset_minute = 0;
}

leap_evening-IsPrintable : IsPrintable leap_evening
leap_evening-IsPrintable = record {
  year = omega arith;
  month = omega arith;
  day = omega arith;
  hour = omega arith;
  minute = omega arith;
  second = omega arith;
  fraction = (refl, (refl, tt));
  zone = (omega arith, omega arith);
}

parse_date_time-print_fields_example :
    (IsInRange leap_evening
      → (d : DateTime) × (parse_date_time (str "2024-02-29T23:59:59.50+02:00") ≡ some d)
        × IsReadOf leap_evening d)
    × ((d : DateTime)
        → parse_date_time (str "2024-02-29T23:59:59.50+02:00") ≡ some d
        → IsInRange leap_evening × IsReadOf leap_evening d)
unfolding date_reader
parse_date_time-print_fields_example =
    parse_date_time-print_fields "2024-02-29T23:59:59.50+02:00" leap_evening refl
      leap_evening-IsPrintable

read_evening :
    parse_date_time (str "2024-02-29T23:59:59.50+02:00")
    ≡ some (record { seconds = pos 1709243999; fraction = b'5' ∷ [] })
unfolding date_reader
read_evening = refl

leap_evening-in_range : in_range leap_evening ≡ true
unfolding date_reader
leap_evening-in_range = refl

instant-next_day_example : instant (next_day leap_evening) ≡ instant leap_evening +ℤ pos 1
instant-next_day_example = instant-next_day leap_evening leap_evening-in_range refl refl refl

abbrev sample : ℕ → ℕ → Value
sample sequence received = obj (
    prop "offsetMs" (int (pos 20)) (
      prop "uncertaintyMs" (int (pos 5)) (
        prop "sampledAtWallMs" (int (pos 1000)) (
          prop "requestSequence" (int (pos sequence))
            (prop "receivedAtWallMs" (int (pos received)) end)))))

late_arrival : latest_clock_offset (sample 4 1200) (sample 3 1300) ≡ ok (sample 4 1200)
unfolding latest_clock_offset valid_clock_sample outranks ranks ◌+ℤ◌
late_arrival = refl

latest_clock_offset-IsAsNew_example :
    ((sample 4 1200 ≡ sample 4 1200) ⊎ (sample 4 1200 ≡ sample 3 1300))
    × IsAsNew (sample 4 1200) (sample 3 1300)
    × (valid_clock_sample (sample 4 1200) ≡ true → IsAsNew (sample 4 1200) (sample 4 1200))
    × (valid_clock_sample (sample 4 1200) ≡ true)
latest_clock_offset-IsAsNew_example =
    latest_clock_offset-IsAsNew (sample 4 1200) (sample 3 1300) (sample 4 1200) refl late_arrival
