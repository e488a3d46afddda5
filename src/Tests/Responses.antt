-- ===== src/Tests/Responses.antt =====
-- A response of the server and its parts at concrete inputs.
use mathlib.Core.Path.{refl, ◌≡◌}
use pomodorough_server.Js.Result.{ok}
use pomodorough_server.Js.Value.{
  Elems, Props, Value, arr, bool, cons, elems, end, field, int, nil, null, obj, prop, str,
}
use pomodorough_server.Prelude.{List, [], some, true, ◌↔◌, ◌∷◌, ◌⊎◌}
use pomodorough_server.Prelude.Int.{pos, ◌+ℤ◌}
use pomodorough_server.Queue.{Operation, Queues, ids, no_operations}
use pomodorough_server.Sync.Acks.{Acknowledged, exact_acknowledgements, validate_acknowledgements}
use pomodorough_server.Sync.Acks.Exact.{IsExact, exact_acknowledgements_iff}
use pomodorough_server.Sync.Canonical.{
  is_phase, is_timer_status, valid_duration, valid_timer_fields, validate_canonical_timer,
  validate_durations, validate_history, validate_tasks,
}
use pomodorough_server.Sync.Canonical.Parts.{
  IsDurations, IsHistory, IsTimer, validate_canonical_timer-IsTimer, validate_durations-IsDurations,
  validate_history-IsHistory,
}
use pomodorough_server.Sync.DateTime.{date_reader}
use pomodorough_server.Sync.Response.{
  check_state, consistent_hlc, valid_selected_task, validate_canonical_response,
}
use pomodorough_server.Sync.Response.Accepted.{
  IsAnswered, IsCanonical, all_sent, validate_canonical_response_sound,
}

abbrev ack : Value
ack =
    obj (prop "commandId" (str "c1") (prop "outcome" (str "applied") (prop "reason" (str "") end)))

abbrev completed : Value
completed = obj (
    prop "id" (str "h1") (
      prop "timerId" (str "m1") (
        prop "phase" (str "focus") (
          prop "status" (str "completed") (
            prop "plannedDurationMs" (int (pos 1500000))
              (prop "completedAt" (str "2024-02-29T10:25:00Z") end))))))

abbrev running : Value
running = obj (
    prop "id" (str "m2") (
      prop "phase" (str "short_break") (
        prop "status" (str "running") (
          prop "plannedDurationMs" (int (pos 300000)) (
            prop "elapsedAtAnchorMs" (int (pos 0))
              (prop "anchorAt" (str "2024-02-29T10:25:00Z") end))))))

abbrev durations : Value
durations = obj (
    prop "focus" (int (pos 1500000))
      (prop "short_break" (int (pos 300000)) (prop "long_break" (int (pos 900000)) end)))

abbrev payload_props : Props
payload_props = prop "acknowledgements" (arr (cons ack nil)) (
    prop "taskAcknowledgements" (arr nil) (
      prop "durationAcknowledgements" (arr nil) (
        prop "autoStartAcknowledgements" (arr nil) (
          prop "selectedTaskAcknowledgements" (arr nil) (
            prop "revision" (int (pos 7)) (
              prop "canonicalTimer" running (
                prop "history" (arr (cons completed nil)) (
                  prop "tasks" (arr nil) (
                    prop "durationsMs" durations (
                      prop "autoStartBreaks" (bool true) (
                        prop "selectedTaskId" null (
                          prop "serverTime" (str "1970-01-01T00:00:10Z") (
                            prop "serverHlcWallMs" (int (pos 10500))
                              (prop "serverHlcCounter" (int (pos 0)) end))))))))))))))

abbrev sent : Queues (List Operation)
sent = record no_operations { commands = record { id = "c1"; props = end } ∷ [] }

abbrev no_acks : Acknowledged
no_acks = record { acknowledgements = []; acknowledged_ids = [] }

abbrev one_ack : Acknowledged
one_ack = record { acknowledgements = ack ∷ []; acknowledged_ids = "c1" ∷ [] }

abbrev acks : Queues Acknowledged
acks = record {
  commands = one_ack;
  task_operations = no_acks;
  duration_operations = no_acks;
  auto_start_operations = no_acks;
  selected_task_operations = no_acks;
}

accepted : validate_canonical_response (obj payload_props) (all_sent sent) ≡ ok acks
unfolding validate_canonical_response validate_acknowledgements exact_acknowledgements check_state
    validate_canonical_timer valid_timer_fields is_phase is_timer_status validate_history
    validate_tasks validate_durations valid_duration valid_selected_task consistent_hlc date_reader
    ◌+ℤ◌
accepted = refl

validate_canonical_response_sound_example : IsAnswered sent acks × IsCanonical (obj payload_props)
validate_canonical_response_sound_example =
    validate_canonical_response_sound (obj payload_props) sent acks accepted

exact_acknowledgements_iff_example :
    (exact_acknowledgements (obj payload_props) "acknowledgements" (some sent.commands) "commandId"
      ≡ ok one_ack)
    ↔ (((es : Elems) × (field "acknowledgements" payload_props ≡ arr es)
          × (one_ack.acknowledgements ≡ elems es))
        × IsExact "commandId" (ids sent.commands) one_ack)
exact_acknowledgements_iff_example =
    exact_acknowledgements_iff payload_props "acknowledgements" sent.commands "commandId" one_ack

accepted_history : validate_history (arr (cons completed nil)) ≡ ok tt
unfolding validate_history date_reader
accepted_history = refl

validate_history-IsHistory_example :
    (es : Elems) × (◌≡◌ {A = Value} (arr (cons completed nil)) (arr es)) × IsHistory (elems es)
validate_history-IsHistory_example =
    validate_history-IsHistory (arr (cons completed nil)) accepted_history

accepted_durations : validate_durations durations ≡ ok tt
unfolding validate_durations
accepted_durations = refl

validate_durations-IsDurations_example : IsDurations durations
validate_durations-IsDurations_example = validate_durations-IsDurations durations accepted_durations

accepted_timer : validate_canonical_timer running ≡ ok tt
unfolding validate_canonical_timer valid_timer_fields is_phase is_timer_status date_reader
accepted_timer = refl

validate_canonical_timer-IsTimer_example : (running ≡ null) ⊎ IsTimer running
validate_canonical_timer-IsTimer_example = validate_canonical_timer-IsTimer running accepted_timer
