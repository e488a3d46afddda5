-- ===== src/Storage/Shape.antt =====
-- The forms that web/sync-storage.js gives to the shared core's requests and demands of its answers:
-- the queues and the base of a projection, the shape of a projection, and the plan of a bootstrap.
use mathlib.Core.Path.{refl, ◌≡◌}
use pomodorough_server.App.{default_durations_ms}
use pomodorough_server.Js.Fields.{field-put}
use pomodorough_server.Js.Num.{is_between, is_safe_integer, max_safe}
use pomodorough_server.Js.Result.{Result, Thrown, err, ok, plain, thrown, ◌>>=◌}
use pomodorough_server.Js.Value.{
  Value, arr, bool, end, field, float, get, int, is_array, is_boolean, is_full_text, is_null,
  is_nullish, is_object, is_string, is_text, is_true, items, nan, nil, null, obj, of_list, or_falsy,
  prop, put, str, strict_eq, truthy, undefined,
}
use pomodorough_server.Prelude.{
  Bool, Bool-cases, List, String, [], all, any, false, if◌then◌else◌, inl, inr, leb, map, member,
  not, true, ◌&&◌, ◌||◌, ◌∷◌,
}
use pomodorough_server.Prelude.Int.{pos}
use pomodorough_server.Storage.Projection.{entry_values, same_texts, sorted_names}

-- a text that is not empty, as the code tests it after `typeof v === "string"`
abbrev pub device_or : Value → Value
device_or fallback = if truthy fallback then fallback else str "legacy-web"

unfoldable pub projected_operation : Value → Value → Value
projected_operation (obj ps) fallback =
    if is_full_text (field "deviceId" ps)
    then obj ps
    else obj (put "deviceId" (device_or fallback) ps)
projected_operation v fallback = v

-- `(queue || []).map((item) => projectedOperation(item, fallbackDeviceId))`
abbrev pub projected_queue : Value → Value → Value
projected_queue queue fallback =
    arr (of_list (map (λ item. projected_operation item fallback) (items queue)))

unfoldable pub projection_queues : Value → Value → Value
unfolding projected_operation
projection_queues queues fallback = obj (
    prop "commands" (projected_queue (get "commands" queues) fallback) (
      prop "taskOperations" (projected_queue (get "taskOperations" queues) fallback) (
        prop "durationOperations" (projected_queue (get "durationOperations" queues) fallback) (
          prop "autoStartOperations" (projected_queue (get "autoStartOperations" queues) fallback) (
            prop "selectedTaskOperations"
              (projected_queue (get "selectedTaskOperations" queues) fallback) end)))))

abbrev array_or_empty : Value → Value
array_or_empty v = if is_array v then v else arr nil

unfoldable pub projection_base : Value → Value
projection_base snapshot =
    let timer = get "canonicalTimer" snapshot in
    let durations = get "durationsMs" snapshot in
    let selected = get "selectedTaskId" snapshot in
    obj (
      prop "canonicalTimer" (if is_object timer && truthy (get "id" timer) then timer else null) (
        prop "history" (array_or_empty (get "history" snapshot)) (
          prop "tasks" (array_or_empty (get "tasks" snapshot)) (
            prop "durationsMs" (if is_object durations then durations else default_durations_ms) (
              prop "autoStartBreaks" (bool (is_true (get "autoStartBreaks" snapshot)))
                (prop "selectedTaskId" (if is_full_text selected then selected else null) end))))))

abbrev pub is_one_of : List String → Value → Bool
is_one_of texts (str s) = member s texts
is_one_of texts v = false

unfoldable pub valid_projected_timer : Value → Bool
valid_projected_timer timer =
    is_null timer
    || is_object timer
      && is_full_text (get "id" timer)
      && is_one_of ("focus" ∷ "short_break" ∷ "long_break" ∷ []) (get "phase" timer)
      && is_one_of ("running" ∷ "paused" ∷ "completed" ∷ "cancelled" ∷ "superseded" ∷ [])
          (get "status" timer)
      && is_safe_integer (get "plannedDurationMs" timer)
      && is_safe_integer (get "elapsedAtAnchorMs" timer)
      && is_string (get "anchorAt" timer)

abbrev pub expected_keys : List String
expected_keys =
    "autoStartBreaks" ∷ "canonicalTimer" ∷ "durationsMs" ∷ "history" ∷ "selectedTaskId" ∷ "tasks"
    ∷ "timerOutcomes" ∷ "winningOperationIds" ∷ []

abbrev pub valid_task : Value → Bool
valid_task item = is_object item && is_full_text (get "id" item) && is_full_text (get "title" item)

-- one of the tasks has the identifier
abbrev pub has_task : Value → List Value → Bool
has_task id tasks = any (λ task. strict_eq (get "id" task) id) tasks

unfoldable pub valid_projection_parts : Value → Bool
valid_projection_parts value =
    let selected = get "selectedTaskId" value in
    is_array (get "history" value)
    && all is_object (items (get "history" value))
    && is_array (get "tasks" value)
    && all valid_task (items (get "tasks" value))
    && is_object (get "durationsMs" value)
    && same_texts (sorted_names (get "durationsMs" value))
        ("focus" ∷ "long_break" ∷ "short_break" ∷ [])
    && all (is_between 60000 14400000) (entry_values (get "durationsMs" value))
    && is_boolean (get "autoStartBreaks" value)
    && (is_null selected || is_full_text selected)
    && (is_null selected || has_task selected (items (get "tasks" value)))
    && is_object (get "timerOutcomes" value)
    && is_object (get "winningOperationIds" value)

abbrev pub invalid_projection : Thrown
invalid_projection = thrown plain "Shared core returned an invalid synchronized projection."

unfoldable pub validate_projection_shape : Value → Result (Unit {0})
unfolding valid_projected_timer valid_projection_parts
validate_projection_shape value =
    if not (is_object value) || not (same_texts (sorted_names value) expected_keys)
    then err invalid_projection
    else if not (valid_projected_timer (get "canonicalTimer" value))
    then err (thrown plain "Shared core returned an invalid canonical timer.")
    else if not (valid_projection_parts value)
    then err invalid_projection
    else ok tt

abbrev pub bootstrap_keys : Value → List String
bootstrap_keys value =
    if is_text "choose" (get "mode" value)
    then "localHistoryCount" ∷ "mode" ∷ "remoteHistoryCount" ∷ []
    else if is_nullish (get "strategy" value)
    then "mode" ∷ "reason" ∷ []
    else "mode" ∷ "reason" ∷ "strategy" ∷ []

abbrev pub is_count : Value → Bool
is_count (int (pos n)) = leb n max_safe
is_count v = false

abbrev pub invalid_bootstrap_plan : Thrown
invalid_bootstrap_plan = thrown plain "Shared core returned an invalid bootstrap plan."

unfoldable pub validate_bootstrap_plan : Value → Result Value
validate_bootstrap_plan value =
    if not (is_object value)
      || not (is_one_of ("auto" ∷ "choose" ∷ "normal_sync" ∷ []) (get "mode" value))
    then err invalid_bootstrap_plan
    else let choose = is_text "choose" (get "mode" value) in
      if not (same_texts (sorted_names value) (bootstrap_keys value))
        || choose
          && (not (is_count (get "localHistoryCount" value))
              || not (is_count (get "remoteHistoryCount" value)))
        || not choose && not (is_full_text (get "reason" value))
        || not (is_nullish (get "strategy" value))
          && not
              (is_one_of ("keep_remote" ∷ "replace_remote" ∷ "merge" ∷ []) (get "strategy" value))
      then err invalid_bootstrap_plan
      else ok value

-- the request for the plan of a bootstrap
unfoldable pub bootstrap_plan_request : Value → Value
bootstrap_plan_request input = obj (
    prop "localOwnerId" (or_falsy (get "localOwnerId" input) null) (
      prop "currentUserId" (or_falsy (get "currentUserId" input) null) (
        prop "localHistory" (array_or_empty (get "localHistory" input)) (
          prop "remoteHistory" (array_or_empty (get "remoteHistory" input)) (
            prop "hasLocalState" (bool (is_true (get "hasLocalState" input)))
              (prop "hasRemoteState" (bool (is_true (get "hasRemoteState" input))) end))))))

-- `bootstrapPlan(input)` with the `planBootstrap` of the shared core
unfoldable pub bootstrap_plan : (Value → Result Value) → Value → Result Value
unfolding validate_bootstrap_plan bootstrap_plan_request
bootstrap_plan plan_bootstrap input =
    plan_bootstrap (bootstrap_plan_request input) >>= validate_bootstrap_plan

-- An operation that has its device is left as it is, so that completing a queue twice is completing
-- it once.
projected_operation_idempotent :
    (v fallback other : Value)
    → is_full_text (device_or fallback) ≡ true
    → projected_operation (projected_operation v fallback) other ≡ projected_operation v fallback
unfolding projected_operation
projected_operation_idempotent (obj ps) fallback other h =
    elim (Bool-cases (is_full_text (field "deviceId" ps))) [
      | inl there ↦ rw (there, there) refl
      | inr missing ↦ rw (missing, field-put "deviceId" "deviceId" (device_or fallback) ps, h) refl
    ]
projected_operation_idempotent undefined fallback other h = refl
projected_operation_idempotent null fallback other h = refl
projected_operation_idempotent (bool b) fallback other h = refl
projected_operation_idempotent (int i) fallback other h = refl
projected_operation_idempotent (float n) fallback other h = refl
projected_operation_idempotent nan fallback other h = refl
projected_operation_idempotent (str s) fallback other h = refl
projected_operation_idempotent (arr vs) fallback other h = refl
