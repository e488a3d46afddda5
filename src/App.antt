-- ===== src/App.antt =====
-- The state of the web application in web/app-state.js: an object whose properties are the fields
-- of the state.
pub mod Owner
pub mod Scope
pub mod Version
use pomodorough_server.Js.Fields.{assign}
use pomodorough_server.Js.Json.{json_of}
use pomodorough_server.Js.Value.{
  Props, Value, arr, bool, end, get, int, is_nullish, nil, null, obj, prop, str,
}
use pomodorough_server.Prelude.{List, String, [], false, if◌then◌else◌, true, ℕ, ◌∷◌}
use pomodorough_server.Prelude.Int.{pos}

unfoldable pub clone : Value → Value
clone v = if is_nullish v then v else json_of v

abbrev pub number : ℕ → Value
number n = int (pos n)

-- `DEFAULT_DURATIONS_MS`
abbrev pub default_durations_ms : Value
default_durations_ms = obj (
    prop "focus" (number 1500000)
      (prop "short_break" (number 300000) (prop "long_break" (number 900000) end)))

unfoldable pub empty_timer_value : Value → Value → Value
empty_timer_value phase planned = obj (
    prop "id" null (
      prop "phase" phase (
        prop "status" (str "idle") (
          prop "plannedDurationMs" planned (
            prop "elapsedAtAnchorMs" (number 0) (
              prop "anchorAt" null (
                prop "lastIntent" null
                  (prop "taskId" null (prop "dependsOnCommandId" null end)))))))))

-- the same value under several names
abbrev all_to : Value → List String → Props → Props
all_to v [] rest = rest
all_to v (k ∷ ks) rest = prop k v (all_to v ks rest)

unfoldable pub initial_ownership_state : Props
unfolding empty_timer_value clone
initial_ownership_state =
    let empty = arr nil in
    let idle = empty_timer_value (str "focus") (get "focus" default_durations_ms) in
    prop "revision" (number 0) (
      prop "selectedPhase" (str "focus") (
        prop "baseSelectedTaskId" null (
          prop "selectedTaskId" null (
            prop "baseAutoStartBreaks" (bool false) (
              prop "autoStartBreaks" (bool false) (
                prop "baseDurationsMs" (clone default_durations_ms) (
                  prop "durationsMs" (clone default_durations_ms) (
                    prop "baseTimer" idle (
                      prop "timer" idle (
                        all_to empty
                          ("baseHistory" ∷ "history" ∷ "baseTasks" ∷ "tasks" ∷ "pending"
                            ∷ "pendingTaskOperations" ∷ "pendingDurationOperations"
                            ∷ "pendingAutoStartOperations" ∷ "pendingSelectedTaskOperations" ∷ [])
                          (all_to null
                            ("deliveryProof" ∷ "canonicalHead" ∷ "projectionPending"
                              ∷ "outgoingSync" ∷ "timerDependencies" ∷ "workspaceObservation" ∷ [])
                            (prop "workspaceBlocked" (bool false)
                              (prop "readModel" null (prop "completionState" null end))))))))))))))

unfoldable pub initial_bootstrap_state : Props
initial_bootstrap_state = prop "bootstrapBlocked" (bool true) (
    all_to null ("bootstrapPreview" ∷ "bootstrapPlan" ∷ []) (
      all_to (bool false) ("bootstrapOwnershipConfirmation" ∷ "bootstrapOwnershipApproved" ∷ []) (
        all_to null ("bootstrapStrategy" ∷ "bootstrapPending" ∷ []) (
          all_to (bool false) ("bootstrapSubmitting" ∷ "bootstrapConflict" ∷ []) (
            all_to null ("bootstrapError" ∷ "bootstrapLimitError" ∷ "bootstrapSignOutError" ∷ []) (
              all_to (bool false) ("bootstrapGatePersisted" ∷ "bootstrapGateOwned" ∷ [])
                (prop "bootstrapFocusTarget" null end)))))))

-- the fields of a new state before those of an account, in the tab of this name
abbrev pub initial_session_state : Value → Props
initial_session_state tab =
    all_to (bool false)
      ("ready" ∷ "authenticated" ∷ "sessionIdentityValidated" ∷ "logoutRecoveryRequired"
        ∷ "logoutRecoveryBusy" ∷ "offlineOwnerMode" ∷ [])
      (all_to null ("user" ∷ "csrfToken" ∷ "deviceId" ∷ []) (
        all_to (number 0) ("deviceSequence" ∷ "hlcWallMs" ∷ "hlcCounter" ∷ []) (
          prop "clockOffset" null (
            prop "activeScreen" (str "timer") (
              all_to (bool false) ("syncing" ∷ "retrying" ∷ []) (
                all_to null ("conflict" ∷ "savedClaimRecovery" ∷ []) (
                  all_to (bool false)
                    ("durationSyncBootstrapped" ∷ "autoStartSyncBootstrapped"
                      ∷ "selectedTaskSyncBootstrapped" ∷ "actionLocked" ∷ [])
                    (prop "coreCapabilities" null (prop "tabId" tab end)))))))))

-- `createState(host)`
unfoldable pub create_state : Value → Props
unfolding initial_ownership_state initial_bootstrap_state
create_state tab =
    let aside = prop "localOwnerId" null (prop "quarantinedLocal" null end) in
    assign initial_bootstrap_state
      (assign aside (assign initial_ownership_state (initial_session_state tab)))
