-- ===== src/Sync/Acks.antt =====
-- `exactAcknowledgements` and `validateAcknowledgements` of web/sync-core.js.
pub mod Exact
use mathlib.Core.Path.{◌≡◌}
use pomodorough_server.Prelude.{
  ℕ, Bool, true, false, ◌&&◌, ◌||◌, not, String, List, [], ◌∷◌, Option, none, some, ◌==◌, length,
  member, join, if◌then◌else◌,
}
use pomodorough_server.Js.Value.{Value, str, arr, Elems, elems, get, text_of, is_string, is_nullish}
use pomodorough_server.Js.Result.{Result, ok, err, Thrown, thrown, plain, ◌>>=◌, dot}
use pomodorough_server.Js.IdSet.{to_set}
use pomodorough_server.Queue.{Operation, ids, Queues}

pub record Acknowledged : Type 0 where
  pub acknowledgements : List Value
  pub acknowledged_ids : List String

-- `ACK_OUTCOMES.has(v)`
unfoldable pub is_ack_outcome : Value → Bool
is_ack_outcome (str s) = member s ("applied" ∷ "ignored" ∷ "rejected" ∷ [])
is_ack_outcome v = false

abbrev pub omitted : String → Thrown
omitted name = thrown plain (join ("Sync response omitted " ∷ name ∷ "." ∷ []))

abbrev pub invalid_set : String → Thrown
invalid_set name = thrown plain (join ("Sync response returned an invalid " ∷ name ∷ " set." ∷ []))

-- the test of one acknowledgement, whose identifier is a text
unfoldable pub refused : List String → List String → String → Value → Bool
unfolding is_ack_outcome
refused expected seen id ack =
    not (member id expected)
    || member id seen
    || not (is_ack_outcome (get "outcome" ack))
    || not (is_string (get "reason" ack))

-- the loop over the acknowledgements; the `Set` has its last member at the head
unfoldable pub collect :
    String → String → List String → List String → List Value → Result (List String)
unfolding refused
collect name id_field expected seen [] = ok seen
collect name id_field expected seen (ack ∷ acks) = elim (text_of (get id_field ack)) [
  | some id ↦
      if refused expected seen id ack
      then err (invalid_set name)
      else collect name id_field expected (id ∷ seen) acks
  | none ↦ err (invalid_set name)
]

abbrev pub checked : String → String → List String → List Value → Result Acknowledged
checked name id_field sent acks =
    let expected = to_set sent in
    if not (length expected == length sent) || not (length acks == length expected)
    then err (invalid_set name)
    else (collect name id_field expected [] acks >>= λ seen.
        ok (record { acknowledgements = acks; acknowledged_ids = seen }))

abbrev pub sent_ids : Option (List Operation) → List String
sent_ids none = []
sent_ids (some ops) = ids ops

abbrev pub is_absent {ℓ} : {A : Type ℓ} → Option A → Bool
is_absent none = true
is_absent (some a) = false

abbrev pub of_list : String → String → Option (List Operation) → Value → Result Acknowledged
of_list name id_field sent (arr acks) = checked name id_field (sent_ids sent) (elems acks)
of_list name id_field sent v = err (omitted name)

unfoldable pub exact_acknowledgements :
    Value → String → Option (List Operation) → String → Result Acknowledged
unfolding collect
exact_acknowledgements payload name sent id_field = dot name payload >>= λ acks.
    if is_absent sent && is_nullish acks
    then ok (record { acknowledgements = []; acknowledged_ids = [] })
    else of_list name id_field sent acks

unfoldable pub validate_acknowledgements :
    Value → Queues (Option (List Operation)) → Result (Queues Acknowledged)
validate_acknowledgements payload sent =
    exact_acknowledgements payload "acknowledgements" sent.commands "commandId" >>= λ commands.
    exact_acknowledgements payload "taskAcknowledgements" sent.task_operations "operationId"
    >>= λ tasks.
        exact_acknowledgements payload "durationAcknowledgements" sent.duration_operations
          "operationId"
        >>= λ durations.
            exact_acknowledgements payload "autoStartAcknowledgements" sent.auto_start_operations
              "operationId"
            >>= λ auto_start.
                exact_acknowledgements payload "selectedTaskAcknowledgements"
                  sent.selected_task_operations "operationId"
                >>= λ selected_task. ok (record {
                  commands = commands;
                  task_operations = tasks;
                  duration_operations = durations;
                  auto_start_operations = auto_start;
                  selected_task_operations = selected_task;
                })
