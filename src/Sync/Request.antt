-- ===== src/Sync/Request.antt =====
-- The request forms of web/sync-core.js: what of a queued operation is sent to the server.
pub mod Encoding
use pomodorough_server.Js.Result.{Result, err, ok, plain, thrown}
use pomodorough_server.Js.Value.{
  Props, Value, bool, end, float, int, is_full_text, is_null, is_text, nan, null, or_nullish, prop,
  put, str, strict_eq, truthy, undefined,
}
use pomodorough_server.Prelude.{Bool, List, if◌then◌else◌, map, not, ◌&&◌, ◌||◌}
use pomodorough_server.Prelude.Int.{pos}
use pomodorough_server.Queue.{Operation, Queues, attr}

-- The conversion `Number(v)` of a text, an array or an object, which the language defines by its
-- own grammar of numerals, is the parameter `coerce`.
unfoldable pub to_number : (Value → Value) → Value → Value
to_number coerce undefined = nan
to_number coerce null = int (pos 0)
to_number coerce (bool b) = if b then int (pos 1) else int (pos 0)
to_number coerce (int i) = int i
to_number coerce (float n) = float n
to_number coerce nan = nan
to_number coerce v = coerce v

abbrev pub legacy_epoch : Value
legacy_epoch = str "1970-01-01T00:00:00.000Z"

unfoldable pub duration_request_operation : (Value → Value) → Operation → Operation
unfolding to_number
duration_request_operation coerce op =
    let occurred_at =
      if strict_eq (to_number coerce (attr "hlcWallMs" op)) (int (pos 0))
        && strict_eq (to_number coerce (attr "hlcCounter" op)) (int (pos 0))
      then legacy_epoch
      else attr "occurredAt" op in
    record {
      id = op.id;
      props = prop "phase" (attr "phase" op) (
          prop "durationMs" (attr "durationMs" op) (
            prop "occurredAt" occurred_at (
              prop "hlcWallMs" (attr "hlcWallMs" op)
                (prop "hlcCounter" (attr "hlcCounter" op) end))));
    }

unfoldable pub task_request_operation : Operation → Operation
task_request_operation op =
    let sent = prop "taskId" (attr "taskId" op) (
      prop "type" (attr "type" op) (
        prop "occurredAt" (attr "occurredAt" op) (
          prop "hlcWallMs" (attr "hlcWallMs" op)
            (prop "hlcCounter" (attr "hlcCounter" op) end)))) in
    record {
      id = op.id;
      props =
          if is_text "upsert" (attr "type" op) then put "title" (attr "title" op) sent else sent;
    }

unfoldable pub timer_request_command : Operation → Operation
timer_request_command op =
    let sent = prop "deviceSequence" (attr "deviceSequence" op) (
      prop "timerId" (attr "timerId" op) (
        prop "type" (attr "type" op) (
          prop "phase" (attr "phase" op) (
            prop "plannedDurationMs" (attr "plannedDurationMs" op) (
              prop "occurredAt" (attr "occurredAt" op) (
                prop "hlcWallMs" (attr "hlcWallMs" op) (
                  prop "hlcCounter" (attr "hlcCounter" op)
                    (prop "observedElapsedMs" (attr "observedElapsedMs" op) end)))))))) in
    let task_id = attr "taskId" op in
    record {
      id = op.id;
      props =
          if is_text "retarget" (attr "type" op)
          then put "taskId" (if is_null task_id then null else task_id) sent
          else if truthy task_id
          then put "taskId" task_id sent
          else sent;
    }

unfoldable pub auto_start_request_operation : Operation → Operation
auto_start_request_operation op = record {
  id = op.id;
  props = prop "enabled" (attr "enabled" op) (
      prop "occurredAt" (attr "occurredAt" op)
        (prop "hlcWallMs" (attr "hlcWallMs" op) (prop "hlcCounter" (attr "hlcCounter" op) end)));
}

unfoldable pub selected_task_request_operation : Operation → Operation
selected_task_request_operation op = record {
  id = op.id;
  props = prop "taskId" (or_nullish (attr "taskId" op) null) (
      prop "occurredAt" (attr "occurredAt" op)
        (prop "hlcWallMs" (attr "hlcWallMs" op) (prop "hlcCounter" (attr "hlcCounter" op) end)));
}

unfoldable pub valid_retarget_task_id : Value → Bool
valid_retarget_task_id task_id = is_null task_id || is_full_text task_id

unfoldable pub retarget_request_fields : Value → Result Props
unfolding valid_retarget_task_id
retarget_request_fields task_id =
    if not (valid_retarget_task_id task_id)
    then err (thrown plain "Retarget requires an explicit taskId or null.")
    else ok (prop "taskId" (if is_null task_id then null else task_id) end)

-- `encodeSelectedBatch` of web/sync-storage.js: each operation of a batch in its request form
unfoldable pub encode_selected_batch :
    (Value → Value) → Queues (List Operation) → Queues (List Operation)
unfolding duration_request_operation task_request_operation timer_request_command
    auto_start_request_operation selected_task_request_operation
encode_selected_batch coerce selected = record {
  commands = map timer_request_command selected.commands;
  task_operations = map task_request_operation selected.task_operations;
  duration_operations = map (duration_request_operation coerce) selected.duration_operations;
  auto_start_operations = map auto_start_request_operation selected.auto_start_operations;
  selected_task_operations = map selected_task_request_operation selected.selected_task_operations;
}
