-- ===== src/Sync/DateTime/Calendar.antt =====
-- The calendar: the lengths of months as `parseDateTime` of web/sync-core.js lists them, and the
-- number of days before a date, which `Date` counts from the same rule.
use mathlib.Core.Path.{refl, ◌≡◌}
use native.Mathlib.Omega.{arith}
use pomodorough_server.Prelude.{
  Bool, Bool-cases, false, if◌then◌else◌, inl, inr, ltb, not, subst, suc, sym, zero, ℕ, ◌%◌, ◌&&◌,
  ◌*◌, ◌+◌, ◌-◌, ◌/◌, ◌==◌, ◌||◌, ◌≤◌,
}
use native.Mathlib.Numerals.{add-one}

unfoldable pub leap_year : ℕ → Bool
leap_year year = year % 4 == 0 && (not (year % 100 == 0) || year % 400 == 0)

-- `daysInMonth[month - 1]`, which is undefined outside the year
unfoldable pub days_in_month : ℕ → ℕ → ℕ
unfolding leap_year
days_in_month year month =
    if month == 2
    then (if leap_year year then 29 else 28)
    else if month == 4 || month == 6 || month == 9 || month == 11
    then 30
    else 31

-- the days of a year before a month
unfoldable pub days_before_month : ℕ → ℕ → ℕ
unfolding days_in_month
days_before_month year zero = 0
days_before_month year (suc zero) = 0
days_before_month year (suc (suc m)) = days_before_month year (suc m) + days_in_month year (suc m)

-- the days from 0000-01-01 to the first day of a year
unfoldable pub days_before_year : ℕ → ℕ
days_before_year y = 365 * y + (y + 3) / 4 + (y + 399) / 400 - (y + 99) / 100

-- the days from 0000-01-01 to a date
unfoldable pub day_number : ℕ → ℕ → ℕ → ℕ
day_number year month day = days_before_year year + days_before_month year month + (day - 1)

epoch_day : day_number 1970 1 1 ≡ 719528
unfolding day_number days_before_year days_before_month
epoch_day = refl

leap_day : day_number 2024 3 1 ≡ day_number 2024 2 28 + 2
unfolding day_number days_before_year days_before_month
leap_day = refl

-- A year has 366 days if it is a leap year, and 365 if not.
days_before_year_suc :
    (y : ℕ) → days_before_year (y + 1) ≡ days_before_year y + (if leap_year y then 366 else 365)
unfolding days_before_year leap_year
days_before_year_suc y = ground arith

-- The months of a year make up its days.
days_before_month_total :
    (y : ℕ) → days_before_month y 12 + days_in_month y 12 ≡ (if leap_year y then 366 else 365)
unfolding days_before_month
days_before_month_total y = ground arith

pub record Date : Type 0 where
  pub year : ℕ
  pub month : ℕ
  pub day : ℕ

-- The date after a date: the next day of the month, the first of the next month, or New Year.
unfoldable pub next_date : Date → Date
next_date d =
    if ltb d.day (days_in_month d.year d.month)
    then record d { day = d.day + 1 }
    else if ltb d.month 12
    then record d { month = d.month + 1; day = 1 }
    else record { year = d.year + 1; month = 1; day = 1 }

pub record IsDate (d : Date) : Type 0 where
  pub month_from : 1 ≤ d.month
  pub month_to : d.month ≤ 12
  pub day_from : 1 ≤ d.day
  pub day_to : d.day ≤ days_in_month d.year d.month

days_before_month_suc :
    (y m : ℕ) → 1 ≤ m → days_before_month y (m + 1) ≡ days_before_month y m + days_in_month y m
unfolding days_before_month
days_before_month_suc y zero h = absurd (omega arith)
days_before_month_suc y (suc m) h = simp add-one

days_before_january : (y : ℕ) → days_before_month y 1 ≡ 0
unfolding days_before_month
days_before_january y = refl

last_day : (a b : ℕ) → a ≤ b → ltb a b ≡ false → a ≡ b
last_day a b h n = ground arith

-- The number of a date from the two sums that make it, with the sums shut.
number_early :
    (y m d : ℕ)
    → 1 ≤ m
    → 1 ≤ d
    → d ≡ days_in_month y m
    → day_number y (m + 1) 1 ≡ day_number y m d + 1
unfolding day_number
number_early y m d h k e =
    let month = days_before_month_suc y m h in
    let b = days_before_month y m in
    let n = days_in_month y m in let year = days_before_year y in omega (arith, month)

number_inside : (y m d : ℕ) → 1 ≤ d → day_number y m (d + 1) ≡ day_number y m d + 1
unfolding day_number
number_inside y m d k = let a = days_before_year y in let b = days_before_month y m in omega arith

add_year :
    (y d : ℕ)
    → 1 ≤ d
    → days_before_month y 12 + d ≡ (if leap_year y then 366 else 365)
    → day_number (y + 1) 1 1 ≡ day_number y 12 d + 1
unfolding day_number
add_year y d k e =
    let year = days_before_year_suc y in
    let first = days_before_january (y + 1) in omega (arith, year, first)

number_december :
    (y d : ℕ) → 1 ≤ d → d ≡ days_in_month y 12 → day_number (y + 1) 1 1 ≡ day_number y 12 d + 1
number_december y d k e = add_year y d k (rw e (days_before_month_total y))

-- The date after a date has the next number.
pub day_number-next_date :
    (d : Date)
    → IsDate d
    → day_number (next_date d).year (next_date d).month (next_date d).day
      ≡ day_number d.year d.month d.day + 1
unfolding next_date
day_number-next_date d v = elim (Bool-cases (ltb d.day (days_in_month d.year d.month))) [
  | inl inside ↦ rw inside (number_inside d.year d.month d.day v.day_from)
  | inr last ↦
      let end_of_month = last_day d.day (days_in_month d.year d.month) v.day_to last in
      elim (Bool-cases (ltb d.month 12)) [
        | inl early ↦
            rw (last, early)
              (number_early d.year d.month d.day v.month_from v.day_from end_of_month)
        | inr december ↦
            let twelve = last_day d.month 12 v.month_to december in
            rw (last, december)
              (subst (λ m. day_number (d.year + 1) 1 1 ≡ day_number d.year m d.day + 1) (sym twelve)
                (number_december d.year d.day v.day_from
                  (subst (λ m. d.day ≡ days_in_month d.year m) twelve end_of_month)))
      ]
]

IsDate-next_date : (d : Date) → IsDate d → IsDate (next_date d)
unfolding next_date days_in_month
IsDate-next_date d v = ground arith
