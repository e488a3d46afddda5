-- ===== src/Workspace/Transaction.antt =====
-- How a plan of the shared core is written to the object stores: `writePlan` and `writeOwnership`
-- of web/workspace-transaction.js, with `persistedProjection` of web/workspace-core.js. The plan is
-- the shared core's; a transaction gives its answer with the stores afterwards, or an error, with
-- which it is aborted.
pub mod Queued
use pomodorough_server.Js.Fields.{assign}
use pomodorough_server.Js.Result.{
  Result, Thrown, dot, err, ok, plain, thrown, traverse, ◌>>=◌, ◌>>◌,
}
use pomodorough_server.Js.Value.{
  Props, Value, arr, elems, end, field, get, has, int, is_text, items, nil, null, obj, of_list,
  or_nullish, prop, put, str, without,
}
use pomodorough_server.Prelude.{
  List, Option, String, [], if◌then◌else◌, none, not, some, str_eq, ℕ, ◌++◌, ◌+◌, ◌∷◌,
}
use pomodorough_server.Prelude.Int.{pos}
use pomodorough_server.Queue.{
  Domain, Operation, Queues, at, domain_name, domains, no_operations, tabulate,
}
use pomodorough_server.Storage.Database.{Database, add_items, delete_items}
use pomodorough_server.Workspace.{record_of}

pub record WorkspacePlan : Type 0 where
  pub outcome : String
  pub durable_operations : Option (Queues (List Operation))
  pub durable_commands : Option (List Operation)
  pub commands : List Operation
  pub retired_duration_operation_ids : List String
  pub selection : Value
  pub lifecycle : Option Value
  pub allocation : Value
  pub workspace : Value
  pub observation : Value
  pub history : Value
  pub completion_records : Value
  pub atomic_command_ids : Value
  pub atomic_operation_ids : Value
  pub command_outcomes : Value
  pub group_outcomes : Value
  pub ownership_writes : List Value

-- the lease of a timer that a tab takes
pub record Lease : Type 0 where
  pub tab_id : Value
  pub now_ms : ℕ
  pub duration_ms : ℕ

-- `{ kind, ...owner }` without the kind
abbrev pub without_kind : Value → Value
without_kind (obj ps) = obj (without "kind" ps)
without_kind v = v

unfoldable pub leased_owner : Lease → Value → Value
leased_owner lease write = obj (
    prop "timerId" (get "timerId" write) (
      prop "deviceId" (get "deviceId" write) (
        prop "tabId" lease.tab_id
          (prop "leaseExpiresAtMs" (int (pos (lease.now_ms + lease.duration_ms))) end))))

unfoldable pub write_ownership : List Value → Lease → Props → Result Props
unfolding leased_owner
write_ownership [] lease meta = ok meta
write_ownership (w ∷ ws) lease meta =
    if is_text "removeTimerOwner" (get "kind" w)
    then write_ownership ws lease (without "timerOwner" meta)
    else if is_text "recordTimerOwner" (get "kind" w)
    then write_ownership ws lease (put "timerOwner" (without_kind w) meta)
    else if not (is_text "recordStart" (get "kind" w))
    then err (thrown plain "Unsupported PWA ownership effect.")
    else write_ownership ws lease (put "timerOwner" (leased_owner lease w) meta)

abbrev pub or_commands : Option (List Operation) → List Operation → List Operation
or_commands none commands = commands
or_commands (some durable) commands = durable

-- `plan.durableOperations || { commands: plan.durableCommands || plan.commands }`
abbrev pub planned_or : Option (Queues (List Operation)) → WorkspacePlan → Queues (List Operation)
planned_or (some operations) plan = operations
planned_or none plan = record no_operations {
  commands = or_commands plan.durable_commands plan.commands;
}

unfoldable pub planned_operations : WorkspacePlan → Queues (List Operation)
planned_operations plan = planned_or plan.durable_operations plan

-- each operation added to its queue, then the retired durations deleted
unfoldable pub write_operations :
    Queues (List Operation)
    → List String
    → Queues (List Operation)
    → Result (Queues (List Operation))
write_operations new retired queues = do
  commands ← add_items new.commands queues.commands
  tasks ← add_items new.task_operations queues.task_operations
  durations ← add_items new.duration_operations queues.duration_operations
  auto_starts ← add_items new.auto_start_operations queues.auto_start_operations
  selected_tasks ← add_items new.selected_task_operations queues.selected_task_operations
  ok (record {
    commands = commands;
    task_operations = tasks;
    duration_operations = delete_items retired durations;
    auto_start_operations = auto_starts;
    selected_task_operations = selected_tasks;
  })

abbrev pub unknown_identity : Thrown
unknown_identity = thrown plain "Core display context references an unknown retained identity."

abbrev without_device : Value → Value
without_device (obj ps) = obj (without "deviceId" ps)
without_device v = v

abbrev pub local_item : Option Operation → Value → Result Value
local_item none item = err unknown_identity
local_item (some original) item =
    ok (if has "deviceId" original.props then item else without_device item)

-- the operation of an identifier that is a text
abbrev pub original_of : Value → List Operation → Option Operation
original_of (str id) ops = record_of id ops
original_of v ops = none

unfoldable pub persisted_item : List Operation → Value → Result Value
unfolding record_of
persisted_item ops item = dot "id" item >>= λ id. local_item (original_of id ops) item

-- the queue that a property names, if it names one
abbrev pub queue_named : List Domain → String → Queues (List Operation) → Option (List Operation)
queue_named [] k queues = none
queue_named (d ∷ ds) k queues =
    let rest = queue_named ds k queues in
    if str_eq (domain_name d) k then some (at d queues) else rest

abbrev pub persisted_items : Option (List Operation) → Value → Result Value
persisted_items (some ops) (arr items) =
    traverse (persisted_item ops) (elems items) >>= λ kept. ok (arr (of_list kept))
persisted_items ops v = ok v

abbrev pub persisted_props : Queues (List Operation) → Props → Result Props
persisted_props queues end = ok end
persisted_props queues (prop k v ps) = persisted_items (queue_named domains k queues) v >>= λ kept.
    persisted_props queues ps >>= λ rest. ok (prop k kept rest)

unfoldable pub persisted_projection : Value → Queues (List Operation) → Result Value
unfolding persisted_item
persisted_projection (obj context) queues = persisted_props queues context >>= λ kept. ok (obj kept)
persisted_projection v queues = ok v

-- `{ ...(a || {}), ...(b || {}) }`
abbrev pub own_props : Value → Props
own_props (obj ps) = ps
own_props v = end

abbrev pub joined : Queues (List Operation) → Queues (List Operation) → Queues (List Operation)
joined first more = tabulate (λ d. at d first ++ at d more)

unfoldable pub workspace_group : WorkspacePlan → Value
workspace_group plan = obj (
    prop "atomicCommandIds" plan.atomic_command_ids (
      prop "atomicOperationIds" (or_nullish plan.atomic_operation_ids null) (
        prop "commandOutcomes" (or_nullish plan.command_outcomes (arr nil))
          (prop "groupOutcomes" (or_nullish plan.group_outcomes null) end))))

abbrev pub with_lifecycle : Value → Option Value → Props → Props
with_lifecycle selection none meta = meta
with_lifecycle selection (some lifecycle) meta =
    put "completionState" (obj (prop "selection" selection (prop "lifecycle" lifecycle end))) meta

-- the values of the plan that are written as they are
unfoldable pub write_metadata : WorkspacePlan → Props → Props
write_metadata plan meta =
    let settings =
      put "selectedPhase" (get "phase" plan.selection) (own_props (field "settings" meta)) in
    let with_settings =
      with_lifecycle plan.selection plan.lifecycle (put "settings" (obj settings) meta) in
    let with_clock = put "uuidV7" (get "lastUuid" plan.allocation) (
      put "deviceSequence" (get "deviceSequence" plan.allocation)
        (put "hlc" (get "hlc" plan.allocation) with_settings)) in
    put "workspaceObservation" plan.observation (
      put "timerDependencies" (get "timerDependencies" plan.workspace)
        (put "deliveryProof" (get "neverSent" plan.workspace) with_clock))

-- what the caller is told
pub record WrittenPlan : Type 0 where
  pub completion_records : Value
  pub workspace_groups : Value

abbrev pub written_plan : WorkspacePlan → Props → WrittenPlan
written_plan plan meta = record {
  completion_records =
      obj (assign (own_props plan.completion_records) (own_props (field "completionRecords" meta)));
  workspace_groups =
      arr (of_list (items (field "workspaceGroups" meta) ++ workspace_group plan ∷ []));
}

unfoldable pub write_planned : WorkspacePlan → Lease → Database → Result (WrittenPlan × Database)
unfolding planned_operations write_operations persisted_projection write_metadata write_ownership
    workspace_group
write_planned plan lease database =
    let operations = planned_operations plan in
    let written = written_plan plan database.meta in
    write_operations operations plan.retired_duration_operation_ids database.queues >>= λ queues.
    persisted_projection (get "projectionPending" (get "displayContext" plan.workspace))
      (joined database.queues operations)
    >>= λ projection.
        let shown =
          put "displayHistory" plan.history
            (put "projectionPending" projection (write_metadata plan database.meta)) in
        write_ownership plan.ownership_writes lease (
          put "workspaceGroups" written.workspace_groups
            (put "completionRecords" written.completion_records shown))
        >>= λ meta. ok (written, record { meta = meta; queues = queues })

-- `writePlan`, none where it writes nothing
unfoldable pub write_plan :
    WorkspacePlan → Lease → Database → Result (Option WrittenPlan × Database)
unfolding write_planned
write_plan plan lease database =
    if str_eq plan.outcome "noop"
    then ok (none, database)
    else if not (str_eq plan.outcome "planned")
    then err (thrown plain "Invalid workspace mutation outcome.")
    else write_planned plan lease database >>= λ done. ok (some done.0, done.1)
