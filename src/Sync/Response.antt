-- ===== src/Sync/Response.antt =====
-- `validateCanonicalResponse` of web/sync-core.js: a whole response of the server.
pub mod Accepted
use pomodorough_server.Js.Num.{is_between, max_safe}
use pomodorough_server.Js.Result.{Result, each, err, ok, plain, throw_if, thrown, ◌>>=◌}
use pomodorough_server.Js.Value.{Value, get, has_own, is_boolean, is_full_text, is_null, is_object}
use pomodorough_server.Prelude.{
  Bool, List, Option, [], if◌then◌else◌, none, not, some, ℕ, ◌&&◌, ◌||◌, ◌∷◌,
}
use pomodorough_server.Prelude.Int.{ltb_ℤ, pos, ℤ, ◌+ℤ◌}
use pomodorough_server.Queue.{Operation, Queues}
use pomodorough_server.Sync.Acks.{Acknowledged, validate_acknowledgements}
use pomodorough_server.Sync.Canonical.{
  validate_canonical_timer, validate_durations, validate_history, validate_tasks,
}
use pomodorough_server.Sync.Clock.{natural}
use pomodorough_server.Sync.DateTime.{date_time_ms, valid_date_time}

abbrev pub max_clock_skew_ms : ℕ
max_clock_skew_ms = 300000

-- the server's time in milliseconds as it is compared with a number; null counts as zero
abbrev pub server_ms : Value → ℤ
server_ms v = elim (date_time_ms v) [ some t ↦ t | none ↦ pos 0 ]

-- `selectedTaskId` is present, and null or a text that is not empty
unfoldable pub valid_selected_task : Value → Bool
valid_selected_task payload =
    has_own "selectedTaskId" payload
    && (is_null (get "selectedTaskId" payload) || is_full_text (get "selectedTaskId" payload))

-- the clock of the server is not behind its time, nor ahead of it by more than the skew
unfoldable pub consistent_hlc : Value → Bool
consistent_hlc payload =
    let wall : ℤ = pos (natural (get "serverHlcWallMs" payload)) in
    let time = server_ms (get "serverTime" payload) in
    not (ltb_ℤ wall time) && not (ltb_ℤ (time +ℤ pos max_clock_skew_ms) wall)

-- the checks behind the acknowledgements, in order
abbrev pub state_checks : Value → List (Result (Unit {0}))
state_checks payload =
    throw_if (not (is_between 0 max_safe (get "revision" payload)))
      "Bootstrap response omitted revision."
    ∷ throw_if (not (has_own "canonicalTimer" payload)) "Bootstrap response omitted canonicalTimer."
    ∷ validate_canonical_timer (get "canonicalTimer" payload)
    ∷ validate_history (get "history" payload)
    ∷ validate_tasks (get "tasks" payload)
    ∷ validate_durations (get "durationsMs" payload)
    ∷ throw_if (not (is_boolean (get "autoStartBreaks" payload)))
        "Bootstrap response omitted autoStartBreaks."
    ∷ throw_if (not (valid_selected_task payload))
        "Bootstrap response returned an invalid selectedTaskId."
    ∷ throw_if (not (valid_date_time (get "serverTime" payload)))
        "Bootstrap response omitted serverTime."
    ∷ throw_if
        (not (is_between 1 max_safe (get "serverHlcWallMs" payload))
          || not (is_between 0 max_safe (get "serverHlcCounter" payload)))
        "Bootstrap response returned an invalid server HLC."
    ∷ throw_if (not (consistent_hlc payload))
        "Bootstrap response returned a server HLC inconsistent with serverTime."
    ∷ []

unfoldable pub check_state : Value → Result (Unit {0})
check_state payload = each (state_checks payload)

unfoldable pub validate_canonical_response :
    Value → Queues (Option (List Operation)) → Result (Queues Acknowledged)
validate_canonical_response payload sent =
    if not (is_object payload)
    then err (thrown plain "Bootstrap response was not an object.")
    else (validate_acknowledgements payload sent >>= λ acknowledgements.
        check_state payload >>= λ _. ok acknowledgements)
