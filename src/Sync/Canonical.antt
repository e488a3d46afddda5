-- ===== src/Sync/Canonical.antt =====
-- The validation of the account's state in a response: `validateCanonicalTimer`,
-- `validateHistory`, `validateTasks` and `validateDurations` of web/sync-core.js.
pub mod Parts
use pomodorough_server.Js.Num.{is_between}
use pomodorough_server.Js.Result.{Result, Thrown, err, ok, plain, throw_if, thrown}
use pomodorough_server.Js.Text.{codes}
use pomodorough_server.Js.Value.{
  Value, arr, elems, get, int, is_full_text, is_null, is_object, is_string, is_text, is_undefined,
  str, text_of,
}
use pomodorough_server.Prelude.{
  Bool, List, String, [], all, false, if◌then◌else◌, leb, length, member, none, not, some, ℕ, ◌%◌,
  ◌&&◌, ◌==◌, ◌||◌, ◌∷◌,
}
use pomodorough_server.Prelude.Int.{pos}
use pomodorough_server.Queue.{ids}
use pomodorough_server.Sync.DateTime.{valid_date_time}

-- `PHASES.has(v)`
unfoldable pub is_phase : Value → Bool
is_phase (str s) = member s ("focus" ∷ "short_break" ∷ "long_break" ∷ [])
is_phase v = false

-- `TIMER_STATUSES.has(v)`
unfoldable pub is_timer_status : Value → Bool
is_timer_status (str s) =
    member s ("running" ∷ "paused" ∷ "completed" ∷ "cancelled" ∷ "superseded" ∷ [])
is_timer_status v = false

-- `HISTORY_STATUSES.has(v)`
unfoldable pub is_history_status : Value → Bool
is_history_status (str s) = member s ("completed" ∷ "cancelled" ∷ "superseded" ∷ [])
is_history_status v = false

abbrev is_letter_or_digit : ℕ → Bool
is_letter_or_digit c =
    leb b'A' c && leb c b'Z' || leb b'a' c && leb c b'z' || leb b'0' c && leb c b'9'

abbrev is_identifier_part : ℕ → Bool
is_identifier_part c = is_letter_or_digit c || c == b'.' || c == b'_' || c == b':' || c == b'-'

-- `/^[A-Za-z0-9][A-Za-z0-9._:-]{7,127}$/`
unfoldable pub is_device_id : List ℕ → Bool
is_device_id [] = false
is_device_id (c ∷ cs) =
    is_letter_or_digit c && all is_identifier_part cs && leb 7 (length cs) && leb (length cs) 127

abbrev pub is_device_text : Value → Bool
is_device_text (str s) = is_device_id (codes s)
is_device_text v = false

-- the largest value that `validInteger` lets a field take, of a field that is a number
abbrev pub limit_of : Value → ℕ
limit_of (int (pos n)) = n
limit_of v = 0

-- `v !== undefined && !test(v)` does not hold
abbrev pub absent_or : (Value → Bool) → Value → Bool
absent_or test v = is_undefined v || test v

unfoldable pub valid_last_intent : Value → Bool
valid_last_intent intent =
    is_object intent
    && is_string (get "type" intent)
    && is_string (get "commandId" intent)
    && valid_date_time (get "occurredAt" intent)

unfoldable pub valid_timer_fields : Value → Bool
valid_timer_fields value =
    is_object value
    && is_full_text (get "id" value)
    && is_phase (get "phase" value)
    && is_timer_status (get "status" value)
    && is_between 60000 14400000 (get "plannedDurationMs" value)
    && is_between 0 (limit_of (get "plannedDurationMs" value)) (get "elapsedAtAnchorMs" value)
    && valid_date_time (get "anchorAt" value)
    && absent_or is_device_text (get "startedByDeviceId" value)
    && absent_or is_string (get "taskId" value)

abbrev invalid_timer : Thrown
invalid_timer = thrown plain "Bootstrap response returned an invalid canonicalTimer."

unfoldable pub validate_canonical_timer : Value → Result (Unit {0})
validate_canonical_timer value =
    if is_null value
    then ok tt
    else if not (valid_timer_fields value)
    then err invalid_timer
    else if not (absent_or valid_last_intent (get "lastIntent" value))
    then err invalid_timer
    else ok tt

-- the tests of one row of the history, but for the identifiers that came before
unfoldable pub valid_history_item : Value → Bool
unfolding is_phase is_history_status
valid_history_item item =
    is_object item
    && is_full_text (get "id" item)
    && is_full_text (get "timerId" item)
    && is_phase (get "phase" item)
    && is_history_status (get "status" item)
    && is_between 60000 14400000 (get "plannedDurationMs" item)
    && (not (is_text "completed" (get "status" item)) || valid_date_time (get "completedAt" item))
    && (is_text "completed" (get "status" item) || valid_date_time (get "endedAt" item))
    && absent_or is_string (get "taskId" item)
    && absent_or is_string (get "commandId" item)
    && absent_or valid_date_time (get "completedAt" item)
    && absent_or valid_date_time (get "endedAt" item)

-- the text of a field that has passed `typeof v === "string"`
abbrev pub text_at : String → Value → String
text_at k v = elim (text_of (get k v)) [ some s ↦ s | none ↦ "" ]

abbrev invalid_history : Thrown
invalid_history = thrown plain "Bootstrap response returned invalid history."

-- the loop over the rows, with the identifiers seen
unfoldable pub check_history : List String → List String → List Value → Result (Unit {0})
unfolding valid_history_item
check_history ids timer_ids [] = ok tt
check_history ids timer_ids (item ∷ rows) =
    if not (valid_history_item item)
      || member (text_at "id" item) ids
      || member (text_at "timerId" item) timer_ids
    then err invalid_history
    else check_history (text_at "id" item ∷ ids) (text_at "timerId" item ∷ timer_ids) rows

unfoldable pub validate_history : Value → Result (Unit {0})
unfolding check_history
validate_history (arr rows) = check_history [] [] (elems rows)
validate_history v = err (thrown plain "Bootstrap response omitted history.")

unfoldable pub valid_task : Value → Bool
valid_task value = is_object value && is_full_text (get "id" value) && is_string (get "title" value)

unfoldable pub validate_tasks : Value → Result (Unit {0})
unfolding valid_task
validate_tasks (arr tasks) =
    throw_if (not (all valid_task (elems tasks))) "Bootstrap response returned invalid tasks."
validate_tasks v = err (thrown plain "Bootstrap response omitted tasks.")

-- `validInteger(v, 60_000, 10_800_000) && v % 60_000 === 0`
unfoldable pub valid_duration : Value → Bool
valid_duration v = is_between 60000 10800000 v && limit_of v % 60000 == 0

unfoldable pub validate_durations : Value → Result (Unit {0})
unfolding valid_duration
validate_durations durations =
    if not (is_object durations)
    then err (thrown plain "Bootstrap response omitted durationsMs.")
    else throw_if
        (not (
          all (λ phase. valid_duration (get phase durations))
            ("focus" ∷ "short_break" ∷ "long_break" ∷ [])))
        "Bootstrap response returned invalid durationsMs."
