-- ===== src/Workspace.antt =====
-- Batches of web/workspace-core.js: the request to the shared core for a batch, and the records that
-- its plan selects.
pub mod Canonical
pub mod Selected
pub mod Requests
pub mod Transaction
use pomodorough_server.Js.Result.{
  Result, dot, err, ok, plain, thrown, traverse, type_error, ◌>>=◌, ◌>>◌,
}
use pomodorough_server.Js.Value.{
  Props, Value, arr, elems, end, int, is_text, obj, or_falsy, or_nullish, prop, str,
}
use pomodorough_server.Prelude.{
  List, Option, String, [], if◌then◌else◌, map, none, some, str_eq, ℕ, ◌∷◌,
}
use pomodorough_server.Prelude.Int.{pos}
use pomodorough_server.Queue.{Domain, Operation, Queues, at, attr, ids, tabulate}

abbrev pub limits_of : ℕ → ℕ → Value
limits_of per_domain total =
    obj (prop "perDomain" (int (pos per_domain)) (prop "total" (int (pos total)) end))

-- the limits of a synchronization, and of anything else
abbrev pub default_limits : Value → Value
default_limits mode = if is_text "sync" mode then limits_of 256 512 else limits_of 4096 8192

abbrev pub device_sequence : Domain → Operation → Props
device_sequence Domain.timer op = prop "deviceSequence" (attr "deviceSequence" op) end
device_sequence domain op = end

unfoldable pub request_item : Value → Domain → Operation → Value
request_item device_id domain op = obj (
    prop "id" (str op.id) (
      prop "deviceId" (or_falsy (attr "deviceId" op) device_id) (
        prop "hlcWallMs" (attr "hlcWallMs" op)
          (prop "hlcCounter" (attr "hlcCounter" op) (device_sequence domain op)))))

-- `({ operationId, dependsOnOperationId }) => ({ operationId, dependsOnOperationId })`
unfoldable pub dependency_item : Value → Result Value
dependency_item dependency = do
  operation_id ← dot "operationId" dependency
  depends_on ← dot "dependsOnOperationId" dependency
  ok (obj (prop "operationId" operation_id (prop "dependsOnOperationId" depends_on end)))

-- the items of `dependencies.map(…)`, which throws of what is no array
abbrev pub mapped_items : Value → Result (List Value)
mapped_items (arr vs) = ok (elems vs)
mapped_items v = err (thrown type_error "dependencies.map is not a function")

pub record BatchRequest : Type 0 where
  pub mode : Value
  pub limits : Value
  pub next_domain : Value
  pub queues : Queues (List Value)
  pub timer_dependencies : List Value

unfoldable pub batch_request :
    Queues (List Operation) → Value → Value → Value → Value → Value → Result BatchRequest
unfolding request_item dependency_item
batch_request queues device_id dependencies cursor mode limits =
    mapped_items dependencies >>= λ each. traverse dependency_item each >>= λ timer_dependencies.
    ok (record {
      mode = mode;
      limits = or_falsy limits (default_limits mode);
      next_domain = or_nullish cursor (str "commands");
      queues = tabulate (λ d. map (request_item device_id d) (at d queues));
      timer_dependencies = timer_dependencies;
    })

pub record SavedBatchRequest : Type 0 where
  pub mode : Value
  pub limits : Value
  pub queues : Queues (List String)

unfoldable pub saved_batch_request : Queues (List Operation) → Value → SavedBatchRequest
saved_batch_request sent mode = record {
  mode = mode;
  limits = default_limits mode;
  queues = tabulate (λ d. ids (at d sent));
}

abbrev pub or_earlier : Option Operation → Option Operation → Option Operation
or_earlier none earlier = earlier
or_earlier (some later) earlier = some later

-- `new Map(items.map((item) => [item.id, item])).get(id)`: the last item of an identifier
unfoldable pub record_of : String → List Operation → Option Operation
record_of id [] = none
record_of id (op ∷ ops) = or_earlier (record_of id ops) (if str_eq op.id id then some op else none)

abbrev pub retained : Option Operation → Result Operation
retained none = err (thrown plain "Core selected an unknown retained operation.")
retained (some op) = ok op

-- the records of one queue
unfoldable pub pick : List Operation → List String → Result (List Operation)
unfolding record_of
pick ops [] = ok []
pick ops (id ∷ rest) = do op ← retained (record_of id ops); picked ← pick ops rest; ok (op ∷ picked)

unfoldable pub selected_records :
    Queues (List String) → Queues (List Operation) → Result (Queues (List Operation))
unfolding pick
selected_records selected queues = do
  commands ← pick queues.commands selected.commands
  tasks ← pick queues.task_operations selected.task_operations
  durations ← pick queues.duration_operations selected.duration_operations
  auto_starts ← pick queues.auto_start_operations selected.auto_start_operations
  selected_tasks ← pick queues.selected_task_operations selected.selected_task_operations
  ok (record {
    commands = commands;
    task_operations = tasks;
    duration_operations = durations;
    auto_start_operations = auto_starts;
    selected_task_operations = selected_tasks;
  })
