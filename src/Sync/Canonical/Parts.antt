-- ===== src/Sync/Canonical/Parts.antt =====
-- What the accepted parts of the account's state hold.
use mathlib.Core.Path.{refl, ◌≡◌}
use native.Mathlib.Omega.{arith}
use pomodorough_server.Js.IdSet.{Distinct}
use pomodorough_server.Js.Num.{is_between}
use pomodorough_server.Js.Result.{ok}
use pomodorough_server.Js.Value.{
  Elems, Value, arr, elems, get, int, is_full_text, is_null, is_object, is_string, null,
}
use pomodorough_server.Prelude.{
  All, Bool, Bool-cases, List, String, [], ap, eq_iff, false, inl, inr, member, not, true, ℕ, ◌%◌,
  ◌&&◌, ◌*◌, ◌/◌, ◌||◌, ◌∷◌, ◌≤◌, ◌⊎◌,
}
use pomodorough_server.Prelude.Int.{negsuc, pos}
use pomodorough_server.Sync.Canonical.{
  absent_or, check_history, is_device_text, is_phase, is_timer_status, limit_of, text_at,
  valid_duration, valid_history_item, valid_timer_fields, validate_canonical_timer,
  validate_durations, validate_history,
}
use pomodorough_server.Sync.DateTime.{valid_date_time}
use text.Mathlib.TextPositions.{eq_refl}

-- the texts of one field of the rows
abbrev pub texts_at : String → List Value → List String
texts_at k [] = []
texts_at k (row ∷ rows) = text_at k row ∷ texts_at k rows

-- texts that are distinct from each other and from those seen
abbrev pub DistinctFrom : List String → List String → Type 0
DistinctFrom seen [] = Unit
DistinctFrom seen (x ∷ xs) = (member x seen ≡ false) × DistinctFrom (x ∷ seen) xs

pub record IsHistory (rows : List Value) : Type 0 where
  pub rows_valid : All (λ row. valid_history_item row ≡ true) rows
  pub ids : Distinct (texts_at "id" rows)
  pub timer_ids : Distinct (texts_at "timerId" rows)

check_history_sound :
    (seen timer_seen : List String) (rows : List Value)
    → check_history seen timer_seen rows ≡ ok tt
    → All (λ row. valid_history_item row ≡ true) rows
      × DistinctFrom seen (texts_at "id" rows)
      × DistinctFrom timer_seen (texts_at "timerId" rows)
unfolding check_history
check_history_sound seen timer_seen [] h = (tt, tt, tt)
check_history_sound seen timer_seen (row ∷ rows) h =
    let i = text_at "id" row in
    let t = text_at "timerId" row in
    elim (Bool-cases (not (valid_history_item row) || member i seen || member t timer_seen)) [
      | inl bad ↦ cc (rw bad at h)
      | inr good ↦
          let (a, b, c) = check_history_sound (i ∷ seen) (t ∷ timer_seen) rows (rw good at h) in
          ((ground (arith, good), a), (ground (arith, good), b), (ground (arith, good), c))
    ]

DistinctFrom-fresh :
    (seen xs : List String) (z : String)
    → DistinctFrom seen xs
    → member z seen ≡ true
    → member z xs ≡ false
DistinctFrom-fresh seen [] z d m = refl
DistinctFrom-fresh seen (x ∷ xs) z (f, d) m =
    let rest = DistinctFrom-fresh (x ∷ seen) xs z d (ground (arith, m)) in
    ground (arith, f, m, rest, eq_iff z x)

DistinctFrom-Distinct : (seen xs : List String) → DistinctFrom seen xs → Distinct xs
DistinctFrom-Distinct seen [] d = tt
DistinctFrom-Distinct seen (x ∷ xs) (f, d) =
    let here : member x (x ∷ seen) ≡ true = ground (arith, eq_refl x) in
    (DistinctFrom-fresh (x ∷ seen) xs x d here, DistinctFrom-Distinct (x ∷ seen) xs d)

-- An accepted history is an array of valid rows, no two of the same row or the same timer.
pub validate_history-IsHistory :
    (history : Value)
    → validate_history history ≡ ok tt
    → (es : Elems) × (history ≡ arr es) × IsHistory (elems es)
unfolding validate_history
validate_history-IsHistory (arr es) h =
    let (a, b, c) = check_history_sound [] [] (elems es) h in
    (
      es,
      refl,
      record {
        rows_valid = a;
        ids = DistinctFrom-Distinct [] _ b;
        timer_ids = DistinctFrom-Distinct [] _ c;
      },
    )
validate_history-IsHistory _ h = cc

-- A whole number of minutes from one minute to three hours.
abbrev pub IsDuration : Value → Type 0
IsDuration v = (n : ℕ) × (v ≡ int (pos (n * 60000))) × (1 ≤ n) × (n ≤ 180)

valid_duration-IsDuration : (v : Value) → valid_duration v ≡ true → IsDuration v
unfolding valid_duration
valid_duration-IsDuration (int (pos n)) h =
    let even : n % 60000 ≡ 0 = ground arith in
    let lo : 60000 ≤ n = ground arith in
    let hi : n ≤ 10800000 = ground arith in
    let same : n ≡ n / 60000 * 60000 = omega arith in
    (n / 60000, ap (λ (k : ℕ). int (pos k)) same, omega arith, omega arith)
valid_duration-IsDuration (int (negsuc n)) h = cc
valid_duration-IsDuration _ h = cc

pub record IsDurations (durations : Value) : Type 0 where
  pub focus : IsDuration (get "focus" durations)
  pub short_break : IsDuration (get "short_break" durations)
  pub long_break : IsDuration (get "long_break" durations)

-- Accepted durations give each phase a whole number of minutes from one minute to three hours.
pub validate_durations-IsDurations :
    (durations : Value) → validate_durations durations ≡ ok tt → IsDurations durations
unfolding validate_durations
validate_durations-IsDurations durations h = record {
  focus = valid_duration-IsDuration (get "focus" durations) (ground arith);
  short_break = valid_duration-IsDuration (get "short_break" durations) (ground arith);
  long_break = valid_duration-IsDuration (get "long_break" durations) (ground arith);
}

-- The numbers of a timer: its planned duration, and the elapsed time within it.
pub record IsTimer (timer : Value) : Type 0 where
  pub planned : ℕ
  pub elapsed : ℕ
  pub planned_is : get "plannedDurationMs" timer ≡ int (pos planned)
  pub elapsed_is : get "elapsedAtAnchorMs" timer ≡ int (pos elapsed)
  pub planned_from : 60000 ≤ planned
  pub planned_to : planned ≤ 14400000
  pub elapsed_to : elapsed ≤ planned
  pub phase : is_phase (get "phase" timer) ≡ true
  pub status : is_timer_status (get "status" timer) ≡ true
  pub anchor : valid_date_time (get "anchorAt" timer) ≡ true

pub is_between-natural :
    (lo hi : ℕ) (v : Value)
    → is_between lo hi v ≡ true
    → (n : ℕ) × (v ≡ int (pos n)) × (lo ≤ n) × (n ≤ hi)
is_between-natural lo hi (int (pos n)) h = (n, refl, ground arith, ground arith)
is_between-natural lo hi (int (negsuc n)) h = cc
is_between-natural lo hi _ h = cc

all_nine :
    (a b c d e f g h i : Bool)
    → (a && b && c && d && e && f && g && h && i) ≡ true
    → (c ≡ true) × (d ≡ true) × (e ≡ true) × (f ≡ true) × (g ≡ true)
all_nine a b c d e f g h i p = ground arith

valid_timer_fields-IsTimer : (t : Value) → valid_timer_fields t ≡ true → IsTimer t
unfolding valid_timer_fields
valid_timer_fields-IsTimer t h =
    let (phase, status, planned_ok, elapsed_ok, anchor) =
      all_nine (is_object t) (is_full_text (get "id" t)) (is_phase (get "phase" t))
        (is_timer_status (get "status" t)) (is_between 60000 14400000 (get "plannedDurationMs" t))
        (is_between 0 (limit_of (get "plannedDurationMs" t)) (get "elapsedAtAnchorMs" t))
        (valid_date_time (get "anchorAt" t)) (absent_or is_device_text (get "startedByDeviceId" t))
        (absent_or is_string (get "taskId" t)) h in
    let (n, planned, lo, hi) =
      is_between-natural 60000 14400000 (get "plannedDurationMs" t) planned_ok in
    let (m, elapsed, _, within) =
      is_between-natural 0 (limit_of (get "plannedDurationMs" t)) (get "elapsedAtAnchorMs" t)
        elapsed_ok in
    let limit : limit_of (get "plannedDurationMs" t) ≡ n = ap limit_of planned in
    record {
      planned = n;
      elapsed = m;
      planned_is = planned;
      elapsed_is = elapsed;
      planned_from = lo;
      planned_to = hi;
      elapsed_to = omega (arith, within, limit);
      phase = phase;
      status = status;
      anchor = anchor;
    }

is_null-eq : (v : Value) → is_null v ≡ true → v ≡ null
is_null-eq v h = ground arith

-- An accepted timer is null, or has a known phase and status, a plan of one minute to four hours, an
-- elapsed time that the plan holds, and a date-time for an anchor.
pub validate_canonical_timer-IsTimer :
    (t : Value) → validate_canonical_timer t ≡ ok tt → (t ≡ null) ⊎ IsTimer t
unfolding validate_canonical_timer
validate_canonical_timer-IsTimer t h = elim (Bool-cases (is_null t)) [
  | inl idle ↦ inl (is_null-eq t idle)
  | inr live ↦ elim (Bool-cases (valid_timer_fields t)) [
    | inl valid ↦ inr (valid_timer_fields-IsTimer t valid)
    | inr bad ↦ absurd (ground (arith, live, bad, h))
  ]
]
