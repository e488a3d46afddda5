-- ===== src/Authority.antt =====
-- web/sync-authority.js: what the client asks of the shared core, and the checks on its answers. The
-- methods of the core are parameters, functions from a request to an answer or an error.
pub mod Batches
pub mod Plans
use pomodorough_server.Js.Num.{is_between, max_safe}
use pomodorough_server.Js.Result.{Result, err, ok, plain, range_error, thrown, ◌>>=◌}
use pomodorough_server.Js.Text.{join_with, sort_texts}
use pomodorough_server.Js.Value.{
  Value, bool, end, get, is_array, is_boolean, is_null, is_nullish, is_object, is_string, is_text,
  is_true, items, keys, obj, prop, put, strict_eq, truthy, undefined,
}
use pomodorough_server.Prelude.{
  Bool, List, String, [], all, any, false, if◌then◌else◌, not, str_eq, suc, true, zero, ℕ, ◌&&◌,
  ◌-◌, ◌||◌, ◌∷◌,
}
use pomodorough_server.Sync.Canonical.{is_phase}
use pomodorough_server.Sync.Clock.{natural}

abbrev pub completion_keys : List String
completion_keys =
    "commandEligible" ∷ "expired" ∷ "generatedBreakEligible" ∷ "generatedBreakPhase"
    ∷ "queueAutoBreak" ∷ "reserveGeneratedBreak" ∷ "selectedPhase" ∷ "sourceAlreadyAccepted" ∷ []

abbrev pub completion_flags : List String
completion_flags =
    "expired" ∷ "commandEligible" ∷ "reserveGeneratedBreak" ∷ "queueAutoBreak"
    ∷ "generatedBreakEligible" ∷ "sourceAlreadyAccepted" ∷ []

unfoldable pub valid_phase : Value → Bool
unfolding is_phase
valid_phase value = is_null value || is_phase value

-- a row of the history that is the completed focus of a source
unfoldable pub is_completed_source : Value → Value → Bool
is_completed_source source item =
    strict_eq (get "timerId" item) (get "timerId" source)
    && strict_eq (get "commandId" item) (get "commandId" source)
    && is_text "focus" (get "phase" item)
    && is_text "completed" (get "status" item)

unfoldable pub projection_has_exact_source : Value → Value → Bool
unfolding is_completed_source
projection_has_exact_source projection source =
    let timer = get "canonicalTimer" projection in
    let history = get "history" projection in
    is_string (get "timerId" source)
    && is_string (get "commandId" source)
    && strict_eq (get "id" timer) (get "timerId" source)
    && is_text "focus" (get "phase" timer)
    && is_text "completed" (get "status" timer)
    && is_array history
    && any (is_completed_source source) (items history)

abbrev pub flag : String → Value → Bool
flag k value = truthy (get k value)

abbrev pub no_phase : String → Value → Bool
no_phase k value = is_null (get k value)

abbrev pub is_false : Value → Bool
is_false (bool b) = not b
is_false v = false

abbrev pub source_accepted : Value → Bool
source_accepted input =
    is_false (get "sourceFinishPending" input)
    && projection_has_exact_source (get "canonical" input) (get "source" input)

-- the projection that a generated break goes by
abbrev pub selected_projection : Value → Value
selected_projection input =
    if is_true (get "requireCanonical" input) || source_accepted input
    then get "canonical" input
    else get "optimistic" input

unfoldable pub valid_command_request : Value → Bool
valid_command_request value =
    not (flag "expired" value)
    && no_phase "selectedPhase" value
    && not (flag "queueAutoBreak" value)
    && not (flag "generatedBreakEligible" value)
    && no_phase "generatedBreakPhase" value
    && not (flag "sourceAlreadyAccepted" value)

unfoldable pub valid_finish_applied : Value → Bool
valid_finish_applied value =
    not (flag "expired" value)
    && not (flag "commandEligible" value)
    && not (flag "reserveGeneratedBreak" value)
    && not (no_phase "selectedPhase" value)
    && not (flag "generatedBreakEligible" value)
    && no_phase "generatedBreakPhase" value
    && not (flag "sourceAlreadyAccepted" value)

unfoldable pub valid_generated_break : Value → Value → Bool
valid_generated_break value input =
    not (flag "expired" value)
    && not (flag "commandEligible" value)
    && not (flag "reserveGeneratedBreak" value)
    && no_phase "selectedPhase" value
    && not (flag "queueAutoBreak" value)
    && strict_eq (get "generatedBreakEligible" value)
        (bool (not (no_phase "generatedBreakPhase" value)))
    && strict_eq (get "generatedBreakEligible" value)
        (bool (projection_has_exact_source (selected_projection input) (get "source" input)))
    && strict_eq (get "sourceAlreadyAccepted" value) (bool (source_accepted input))

unfoldable pub valid_expiry : Value → Bool
valid_expiry value =
    not (flag "commandEligible" value)
    && not (flag "reserveGeneratedBreak" value)
    && not (flag "queueAutoBreak" value)
    && not (flag "generatedBreakEligible" value)
    && not (flag "sourceAlreadyAccepted" value)
    && (flag "expired" value
        || no_phase "selectedPhase" value && no_phase "generatedBreakPhase" value)

unfoldable pub valid_completion_relationships : Value → Value → Bool
valid_completion_relationships value input =
    if flag "reserveGeneratedBreak" value && not (flag "commandEligible" value)
    then false
    else if flag "queueAutoBreak" value && no_phase "selectedPhase" value
    then false
    else if is_text "commandRequest" (get "kind" input)
    then valid_command_request value
    else if is_text "finishApplied" (get "kind" input)
    then valid_finish_applied value
    else if is_text "generatedBreak" (get "kind" input)
    then valid_generated_break value input
    else if is_text "expiry" (get "kind" input)
    then valid_expiry value
    else true

-- `Object.keys(value).sort().join(",")`
abbrev pub sorted_keys : Value → String
sorted_keys (obj ps) = join_with "," (sort_texts (keys ps))
sorted_keys v = ""

abbrev pub has_flags : Value → Bool
has_flags value = all (λ k. is_boolean (get k value)) completion_flags

unfoldable pub validate_completion_plan : Value → Value → Result Value
validate_completion_plan value input =
    if not (is_object value)
      || not (str_eq (sorted_keys value) (join_with "," completion_keys))
      || not (has_flags value)
      || not (valid_phase (get "selectedPhase" value))
      || not (valid_phase (get "generatedBreakPhase" value))
      || not (valid_completion_relationships value input)
    then err (thrown plain "Shared core returned an invalid completion plan.")
    else ok value

unfoldable pub validate_hlc_tick : Value → Result Value
validate_hlc_tick value =
    if not (is_object value)
      || not (str_eq (sorted_keys value) "counter,wallMs")
      || not (is_between 0 max_safe (get "wallMs" value))
      || not (is_between 0 max_safe (get "counter" value))
    then err (thrown plain "Shared core returned an invalid HLC tick.")
    else ok value

unfoldable pub completion_plan : (Value → Result Value) → Value → Result Value
completion_plan plan_timer_completion input =
    plan_timer_completion input >>= λ value. validate_completion_plan value input

abbrev pub tick_input : Value → Value → Value → Value
tick_input local physical_now_ms remote =
    let base = prop "local" local (prop "physicalNowMs" physical_now_ms end) in
    if is_nullish remote then obj base else obj (put "remote" remote base)

unfoldable pub tick_hlc : (Value → Result Value) → Value → Value → Value → Result Value
tick_hlc core local physical_now_ms remote =
    core (tick_input local physical_now_ms remote) >>= λ value. validate_hlc_tick value

-- the loop of `allocateHlcBatch`, with what is left of the count
unfoldable pub ticks : (Value → Result Value) → Value → Value → ℕ → Result Value
ticks core current physical_now_ms zero = ok current
ticks core current physical_now_ms (suc n) =
    tick_hlc core current physical_now_ms undefined >>= λ next. ticks core next physical_now_ms n

pub record HlcBatch : Type 0 where
  pub wall_ms : Value
  pub first_counter : Value
  pub counter : Value

unfoldable pub allocate_hlc_batch : (Value → Result Value) → Value → Value → Value → Result HlcBatch
allocate_hlc_batch core local physical_now_ms count =
    if not (is_between 1 max_safe count)
    then err (thrown range_error "HLC batch count is invalid.")
    else tick_hlc core local physical_now_ms undefined >>= λ first.
        ticks core first physical_now_ms (natural count - 1) >>= λ current. ok (record {
          wall_ms = get "wallMs" current;
          first_counter = get "counter" first;
          counter = get "counter" current;
        })
