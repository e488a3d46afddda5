-- ===== src/App/Owner.antt =====
-- The part of the state of web/app-state.js that belongs to an account: how it is put aside when
-- the account turns out to be another one, and restored.
pub mod Restored
use pomodorough_server.App.{clone, initial_ownership_state}
use pomodorough_server.Js.Fields.{assign}
use pomodorough_server.Js.Result.{Result, ok, ◌>>=◌}
use pomodorough_server.Js.Value.{
  Props, Value, bool, end, field, get, items, null, obj, or_falsy, prop, put, strict_eq, truthy,
}
use pomodorough_server.Prelude.{
  Bool, List, String, [], any, false, if◌then◌else◌, member, not, true, ◌||◌, ◌∷◌,
}
use pomodorough_server.Sync.Account.{account_owner_id, name_or_null}
use pomodorough_server.Sync.Bootstrap.{requires_bootstrap_resolution}

-- what `ownerStateValue` takes as it is, and what it clones
unfoldable pub copied_fields : List String
copied_fields =
    "revision" ∷ "selectedPhase" ∷ "baseSelectedTaskId" ∷ "selectedTaskId" ∷ "baseAutoStartBreaks"
    ∷ "autoStartBreaks" ∷ "workspaceBlocked" ∷ []

unfoldable pub saved_fields : List String
saved_fields =
    "revision" ∷ "selectedPhase" ∷ "baseSelectedTaskId" ∷ "selectedTaskId" ∷ "baseAutoStartBreaks"
    ∷ "autoStartBreaks" ∷ "baseDurationsMs" ∷ "durationsMs" ∷ "baseTimer" ∷ "timer" ∷ "baseHistory"
    ∷ "history" ∷ "baseTasks" ∷ "tasks" ∷ "pending" ∷ "pendingTaskOperations"
    ∷ "pendingDurationOperations" ∷ "pendingAutoStartOperations" ∷ "pendingSelectedTaskOperations"
    ∷ "user" ∷ "deliveryProof" ∷ "canonicalHead" ∷ "projectionPending" ∷ "outgoingSync"
    ∷ "timerDependencies" ∷ "workspaceObservation" ∷ "workspaceBlocked" ∷ "completionState" ∷ []

abbrev pub saved_field : String → Props → Value
saved_field k state = if member k copied_fields then field k state else clone (field k state)

abbrev pub saved : List String → Props → Props
saved [] state = end
saved (k ∷ ks) state = prop k (saved_field k state) (saved ks state)

unfoldable pub owner_state_value : Props → Value
unfolding clone
owner_state_value state = obj (saved saved_fields state)

unfoldable pub reset_owner_state : Props → Props
reset_owner_state state = assign initial_ownership_state state

-- `fields` of `restoreOwnerState`
unfoldable pub restored_fields : List String
restored_fields =
    "revision" ∷ "selectedPhase" ∷ "baseSelectedTaskId" ∷ "selectedTaskId" ∷ "baseAutoStartBreaks"
    ∷ "autoStartBreaks" ∷ "baseDurationsMs" ∷ "durationsMs" ∷ "baseTimer" ∷ "timer" ∷ "baseHistory"
    ∷ "history" ∷ "baseTasks" ∷ "tasks" ∷ "pending" ∷ "pendingTaskOperations"
    ∷ "pendingDurationOperations" ∷ "pendingAutoStartOperations" ∷ "pendingSelectedTaskOperations"
    ∷ "user" ∷ "deliveryProof" ∷ "canonicalHead" ∷ "projectionPending" ∷ "outgoingSync"
    ∷ "timerDependencies" ∷ "workspaceObservation" ∷ "workspaceBlocked" ∷ "completionState" ∷ []

-- `for (const field of fields) this.state[field] = local[field]`
abbrev pub copy_fields : List String → Value → Props → Props
copy_fields [] local state = state
copy_fields (k ∷ ks) local state = copy_fields ks local (put k (get k local) state)

unfoldable pub restore_owner_state : Value → Props → Props
restore_owner_state local state = copy_fields restored_fields local state

unfoldable pub keep_user : Bool → Props → Props → Props
keep_user preserve before state =
    let user = if preserve then field "user" before else null in
    if truthy user then put "user" user state else state

unfoldable pub put_aside : Props → Props
unfolding owner_state_value
put_aside state =
    if truthy (field "quarantinedLocal" state)
    then state
    else put "quarantinedLocal" (owner_state_value state) state

unfoldable pub quarantine_owner_state : Bool → Props → Props
unfolding reset_owner_state put_aside keep_user
quarantine_owner_state preserve state =
    keep_user preserve state (reset_owner_state (put_aside state))

-- `quarantineAccountMismatch`, without the calls that stop an alert and ask for the session
unfoldable pub quarantine_account_mismatch : Props → Props
unfolding quarantine_owner_state
quarantine_account_mismatch state =
    let blocked = put "bootstrapBlocked" (bool true) state in
    let unvalidated = put "sessionIdentityValidated" (bool false) blocked in
    let offline = put "offlineOwnerMode" (bool false) unvalidated in
    quarantine_owner_state true (put "bootstrapGateOwned" (bool false) offline)

-- `accountOwnerId(user) || state.localOwnerId || null`
unfoldable pub owner_of : Props → Result Value
unfolding account_owner_id
owner_of state = account_owner_id (field "user" state) >>= λ owner.
    ok (or_falsy (or_falsy (name_or_null owner) (field "localOwnerId" state)) null)

-- `assertExpectedAccount`: the state afterwards, and whether the ownership error is thrown; an
-- identity that is not valid is an error of its own, before the state changes
unfoldable pub assert_expected_account : Value → Props → Result (Props × Bool)
unfolding owner_of quarantine_account_mismatch
assert_expected_account expected state = owner_of state >>= λ owner.
    ok (
      if strict_eq owner expected
      then (state, false)
      else (quarantine_account_mismatch state, true))

-- `controlsBlocked` and `needsBootstrap`
unfoldable pub needs_bootstrap : Props → Result Bool
unfolding requires_bootstrap_resolution
needs_bootstrap state = account_owner_id (field "user" state) >>= λ owner. ok (
    requires_bootstrap_resolution (record {
      blocked = field "bootstrapBlocked" state;
      persisted_gate = field "bootstrapGatePersisted" state;
      pending = field "bootstrapPending" state;
      current_user_id = name_or_null owner;
      local_owner_id = field "localOwnerId" state;
    }))

unfoldable pub controls_blocked : Props → Result Bool
unfolding needs_bootstrap
controls_blocked state =
    if not (truthy (field "ready" state)) || truthy (field "logoutRecoveryRequired" state)
    then ok true
    else needs_bootstrap state

unfoldable pub selected_task_id_for_next_focus : Props → Value
selected_task_id_for_next_focus state =
    if any (λ task. strict_eq (get "id" task) (field "selectedTaskId" state))
      (items (field "tasks" state))
    then field "selectedTaskId" state
    else null
