-- ===== src/Sync/Bootstrap.antt =====
-- The decisions of web/sync-core.js before local and account state are joined: whether a
-- resolution is needed, whether local state may be shown, and what the dialog shows.
pub mod Exposure
use pomodorough_server.Js.Result.{Result, err, ok, plain, thrown}
use pomodorough_server.Js.Value.{Value, get, is_text, is_true, str, strict_eq, truthy}
use pomodorough_server.Prelude.{
  Bool, String, [], false, if◌then◌else◌, join, member, not, str_eq, ◌&&◌, ◌||◌, ◌∷◌,
}

pub record Confirmation : Type 0 where
  pub title : String
  pub message : String
  pub confirm_label : String

unfoldable pub confirmation_for : String → Result Confirmation
confirmation_for strategy =
    if str_eq strategy "replace_remote"
    then ok (record {
      title = "Confirm Keep Local";
      message =
          "Account timer, history, tasks, settings, and queued changes will be replaced by this device's data.";
      confirm_label = "Keep Local";
    })
    else if str_eq strategy "keep_remote"
    then ok (record {
      title = "Confirm Keep Remote";
      message =
          "This device's timer, history, tasks, settings, and queued changes will be replaced by account data.";
      confirm_label = "Keep Remote";
    })
    else if str_eq strategy "merge"
    then ok (record {
      title = "Confirm Keep Both";
      message =
          "Queued local changes will be merged into account data. Conflicts or rejected changes are possible.";
      confirm_label = "Keep Both";
    })
    else err (thrown plain (join ("Unknown bootstrap strategy: " ∷ strategy ∷ [])))

-- `STRATEGIES.has(v)`
unfoldable pub is_resolution_strategy : Value → Bool
is_resolution_strategy (str s) = member s ("keep_remote" ∷ "replace_remote" ∷ "merge" ∷ [])
is_resolution_strategy v = false

unfoldable pub can_submit_resolution : Value → Value → Bool
can_submit_resolution mode confirmed =
    is_text "auto" mode || is_text "choose" mode && is_true confirmed

pub record ResolutionInput : Type 0 where
  pub blocked : Value
  pub persisted_gate : Value
  pub pending : Value
  pub current_user_id : Value
  pub local_owner_id : Value

unfoldable pub requires_bootstrap_resolution : ResolutionInput → Bool
requires_bootstrap_resolution input =
    is_true input.blocked
    || is_true input.persisted_gate
    || truthy input.pending
    || truthy input.current_user_id && not (strict_eq input.local_owner_id input.current_user_id)

pub record OwnerInput : Type 0 where
  pub session_validated : Value
  pub local_owner_id : Value
  pub current_user_id : Value
  pub cached_user_id : Value
  pub gate_owned : Value
  pub pending : Value

unfoldable pub can_expose_owner_state : OwnerInput → Bool
can_expose_owner_state input =
    is_true input.session_validated
    && truthy input.local_owner_id
    && strict_eq input.local_owner_id input.current_user_id

unfoldable pub can_use_cached_owner_offline : OwnerInput → Bool
can_use_cached_owner_offline input =
    not (is_true input.session_validated)
    && truthy input.cached_user_id
    && strict_eq input.cached_user_id input.local_owner_id
    && is_true input.gate_owned
    && not (truthy input.pending)

unfoldable pub pending_matches_user : Value → Value → Bool
pending_matches_user pending user_id =
    truthy pending && truthy user_id && strict_eq (get "userId" pending) user_id

unfoldable pub pending_resolution_can_submit : Value → Value → Bool
unfolding pending_matches_user is_resolution_strategy
pending_resolution_can_submit pending user_id =
    pending_matches_user pending user_id
    && is_resolution_strategy (get "strategy" (get "payload" pending))

pub record DialogInput : Type 0 where
  pub plan_mode : Value
  pub error : Value
  pub strategy : Value
  pub pending : Value
  pub blocked : Value
  pub authenticated : Value
  pub submitting : Value

pub record DialogView : Type 0 where
  pub shown : Bool
  pub choosing : Bool
  pub confirming : Bool
  pub failed : Bool
  pub busy : Bool

unfoldable pub bootstrap_dialog_view : DialogInput → DialogView
bootstrap_dialog_view input =
    let chooser = is_text "choose" input.plan_mode in
    let failed = truthy input.error in
    let choosing =
      chooser && not (truthy input.strategy) && not (truthy input.pending) && not failed in
    let confirming = chooser && truthy input.strategy && not failed in
    record {
      shown =
          is_true input.blocked
          && is_true input.authenticated
          && (choosing || confirming || failed);
      choosing = choosing;
      confirming = confirming;
      failed = failed;
      busy = is_true input.submitting;
    }
