-- ===== src/Workspace/Requests.antt =====
-- The workspace that web/workspace-core.js gives to the shared core: its base, the operations with
-- their device, the context of a completion and the identity of the displayed queues.
use mathlib.Core.Path.{refl, ◌≡◌}
use pomodorough_server.App.{default_durations_ms}
use pomodorough_server.Js.Value.{
  Props, Value, arr, bool, elems, end, get, has, has_own, is_nullish, nil, null, obj, of_list,
  or_nullish, prop, put, str, truthy,
}
use pomodorough_server.Prelude.{
  Bool, List, String, [], any, ap, false, if-cases, if◌then◌else◌, map, not, str_eq, ◌∷◌,
}
use pomodorough_server.Queue.{Operation, Queues, at, domain_name, domains, ids, tabulate}
use pomodorough_server.Storage.Claims.{queue_props}

-- what the records hold that a workspace is made of
pub record WorkspaceRecords : Type 0 where
  pub snapshot : Value
  pub queues : Queues (List Operation)
  pub canonical_head : Value
  pub delivery_proof : Value
  pub timer_dependencies : Value
  pub projection_pending : Value
  pub completion_state : Value
  pub settings : Value
  pub selected_phase : Value

abbrev new_base : Value
new_base = obj (
    prop "canonicalTimer" null (
      prop "history" (arr nil) (
        prop "tasks" (arr nil) (
          prop "durationsMs" default_durations_ms
            (prop "autoStartBreaks" (bool false) (prop "selectedTaskId" null end))))))

unfoldable pub base : Value → Value
base snapshot =
    if not (truthy snapshot)
    then new_base
    else let timer = get "canonicalTimer" snapshot in
      obj (
        prop "canonicalTimer" (if truthy (get "id" timer) then timer else null) (
          prop "history" (get "history" snapshot) (
            prop "tasks" (get "tasks" snapshot) (
              prop "durationsMs" (get "durationsMs" snapshot) (
                prop "autoStartBreaks" (get "autoStartBreaks" snapshot)
                  (prop "selectedTaskId" (get "selectedTaskId" snapshot) end))))))

-- `Object.hasOwn(item, "deviceId") ? item : { ...item, deviceId }`
abbrev pub with_device : Value → Operation → Operation
with_device device_id op =
    if has "deviceId" op.props then op else record op { props = put "deviceId" device_id op.props }

unfoldable pub local_queues : Value → Queues (List Operation) → Queues (List Operation)
local_queues device_id queues = tabulate (λ d. map (with_device device_id) (at d queues))

abbrev item_with_device : Value → Value → Value
item_with_device device_id (obj ps) =
    if has "deviceId" ps then obj ps else obj (put "deviceId" device_id ps)
item_with_device device_id v = v

abbrev is_queue_name : String → Bool
is_queue_name k = any (λ d. str_eq (domain_name d) k) domains

abbrev identified_queue : Value → String → Value → Value
identified_queue device_id k (arr vs) =
    if is_queue_name k then arr (of_list (map (item_with_device device_id) (elems vs))) else arr vs
identified_queue device_id k v = v

abbrev identified_props : Value → Props → Props
identified_props device_id end = end
identified_props device_id (prop k v ps) =
    prop k (identified_queue device_id k v) (identified_props device_id ps)

unfoldable pub projection_identity : Value → Value → Value
projection_identity device_id (obj context) = obj (identified_props device_id context)
projection_identity device_id v = or_nullish v null

-- the object of the five queues
abbrev queues_value : Queues (List Operation) → Value
queues_value queues = obj (queue_props queues end)

unfoldable pub workspace : Value → Value → WorkspaceRecords → Value
unfolding base local_queues projection_identity
workspace device_id dependencies records = obj (
    prop "base" (base records.snapshot) (
      prop "local" (queues_value (local_queues device_id records.queues)) (
        prop "canonicalHead" (or_nullish records.canonical_head null) (
          prop "neverSent" (or_nullish records.delivery_proof (obj end)) (
            prop "timerDependencies" (or_nullish records.timer_dependencies dependencies) (
              prop "displayContext"
                (obj (
                  prop "profile" (str "pwaStorage") (
                    prop "projectionPending"
                      (projection_identity device_id records.projection_pending) end)))
                end))))))

abbrev initial_lifecycle : Value
initial_lifecycle = obj (
    prop "consumedCompletions" (arr nil)
      (prop "pendingBreaks" (arr nil) (prop "finishEvidence" (arr nil) end)))

-- the selection and the lifecycle of `completionContext(records)`
unfoldable pub completion_context : WorkspaceRecords → Value × Value
completion_context records =
    let stored = records.completion_state in
    if is_nullish stored
    then (
      obj (
          prop "phase"
            (or_nullish (get "selectedPhase" records.settings)
              (or_nullish records.selected_phase (str "focus")))
            (prop "generation" (str "0") (prop "explicit" (bool false) end))),
      initial_lifecycle,
    )
    else (
      get "selection" stored,
      if has_own "lifecycle" stored then get "lifecycle" stored else initial_lifecycle,
    )

-- Completing the operations of a queue keeps their identifiers, so that the names of a plan find them.
ids-with_device :
    (device_id : Value) (ops : List Operation) → ids (map (with_device device_id) ops) ≡ ids ops
ids-with_device device_id [] = refl
ids-with_device device_id (op ∷ ops) =
    if-cases (λ (o : Operation). o.id ∷ ids (map (with_device device_id) ops) ≡ ids (op ∷ ops))
      (has "deviceId" op.props) (λ _. ap (λ xs. op.id ∷ xs) (ids-with_device device_id ops))
      (λ _. ap (λ xs. op.id ∷ xs) (ids-with_device device_id ops))
