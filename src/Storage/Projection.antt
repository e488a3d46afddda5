-- ===== src/Storage/Projection.antt =====
-- The checks of web/sync-storage.js on the projection that the shared core gives:
-- `validateProjectedTasks`, `validateTimerOutcomes` and `validateOperationWinners`. Two texts of
-- JSON that are lists of texts are the same exactly when the lists are.
pub mod Winners
use pomodorough_server.Js.Result.{Result, Thrown, err, ok, plain, thrown}
use pomodorough_server.Js.Text.{sort_texts}
use pomodorough_server.Js.Value.{
  Props, Value, end, get, is_full_text, is_null, is_object, is_string, keys, obj, prop, str,
  strict_eq, undefined, values,
}
use pomodorough_server.Prelude.{
  Bool, List, Option, String, [], all, any, false, if◌then◌else◌, member, none, not, some, str_eq,
  true, ◌&&◌, ◌||◌, ◌∷◌,
}
use pomodorough_server.Queue.{Operation, Queues, attr, ids}
use pomodorough_server.Sync.Acks.{is_ack_outcome}
use pomodorough_server.Workspace.{record_of}

abbrev pub same_texts : List String → List String → Bool
same_texts [] [] = true
same_texts (s ∷ ss) (t ∷ ts) = str_eq s t && same_texts ss ts
same_texts ss ts = false

abbrev pub sorted_names : Value → List String
sorted_names (obj ps) = sort_texts (keys ps)
sorted_names v = []

-- the loop over the tasks, whose identifiers are texts
unfoldable pub check_projected_tasks : List Value → List Value → Result (Unit {0})
check_projected_tasks seen [] = ok tt
check_projected_tasks seen (task ∷ tasks) =
    if any (strict_eq (get "id" task)) seen
    then err (thrown plain "Shared core returned duplicate projected tasks.")
    else check_projected_tasks (get "id" task ∷ seen) tasks

unfoldable pub validate_projected_tasks : List Value → Result (Unit {0})
unfolding check_projected_tasks
validate_projected_tasks tasks = check_projected_tasks [] tasks

unfoldable pub valid_timer_outcome : Value → Bool
unfolding is_ack_outcome
valid_timer_outcome outcome =
    is_object outcome && is_ack_outcome (get "outcome" outcome) && is_string (get "reason" outcome)

abbrev pub entry_values : Value → List Value
entry_values (obj ps) = values ps
entry_values v = []

unfoldable pub validate_timer_outcomes : Value → List Operation → Result (Unit {0})
unfolding valid_timer_outcome
validate_timer_outcomes outcomes commands =
    if not (same_texts (sorted_names outcomes) (sort_texts (ids commands)))
    then err (thrown plain "Shared core returned incomplete timer outcomes.")
    else if not (all valid_timer_outcome (entry_values outcomes))
    then err (thrown plain "Shared core returned an invalid timer outcome.")
    else ok tt

abbrev pub invalid_winners : Thrown
invalid_winners = thrown plain "Shared core returned invalid operation winners."

-- null, or a text that is not empty
abbrev pub null_or_full : Value → Bool
null_or_full v = is_null v || is_full_text v

unfoldable pub valid_winners_shape : Value → Bool
valid_winners_shape winners =
    same_texts (sorted_names winners) ("autoStart" ∷ "durations" ∷ "selectedTask" ∷ "tasks" ∷ [])
    && is_object (get "tasks" winners)
    && is_object (get "durations" winners)
    && null_or_full (get "autoStart" winners)
    && null_or_full (get "selectedTask" winners)

-- `operations.get(operationId)?.[k]` for the last operation of the identifier
abbrev pub attr_of : String → Option Operation → Value
attr_of k none = undefined
attr_of k (some op) = attr k op

-- the entry of a winner names an operation whose `k` is the entry's name
abbrev pub valid_winner : String → List Operation → String → Value → Bool
valid_winner k ops name (str id) = strict_eq (attr_of k (record_of id ops)) (str name)
valid_winner k ops name v = false

abbrev pub valid_winners : String → List Operation → Props → Bool
valid_winners k ops end = true
valid_winners k ops (prop name v ps) = valid_winner k ops name v && valid_winners k ops ps

abbrev pub winner_props : Value → Props
winner_props (obj ps) = ps
winner_props v = end

abbrev pub default_phase : String → Bool
default_phase s = member s ("focus" ∷ "short_break" ∷ "long_break" ∷ [])

-- null, or the identifier of one of the operations
abbrev pub null_or_queued : Value → List Operation → Bool
null_or_queued (str id) ops = member id (ids ops)
null_or_queued v ops = is_null v

unfoldable pub validate_operation_winners : Value → Queues (List Operation) → Result (Unit {0})
unfolding valid_winners_shape record_of
validate_operation_winners winners pending =
    if not (valid_winners_shape winners)
    then err invalid_winners
    else if not
        (valid_winners "taskId" pending.task_operations (winner_props (get "tasks" winners)))
    then err (thrown plain "Shared core returned an invalid task winner.")
    else if not (all default_phase (keys (winner_props (get "durations" winners))))
        || not (
            valid_winners "phase" pending.duration_operations
              (winner_props (get "durations" winners)))
    then err (thrown plain "Shared core returned an invalid duration winner.")
    else if not (null_or_queued (get "autoStart" winners) pending.auto_start_operations)
    then err (thrown plain "Shared core returned an invalid auto-start winner.")
    else if not (null_or_queued (get "selectedTask" winners) pending.selected_task_operations)
    then err (thrown plain "Shared core returned an invalid selected-task winner.")
    else ok tt
