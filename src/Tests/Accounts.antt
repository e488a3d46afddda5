-- ===== src/Tests/Accounts.antt =====
-- Account names, the bootstrap dialog, and request forms, at concrete inputs.
use mathlib.Core.Path.{refl, ◌≡◌}
use pomodorough_server.Js.Result.{ok}
use pomodorough_server.Js.Value.{
  Value, bool, end, get, int, is_true, nan, null, obj, prop, str, undefined,
}
use pomodorough_server.Prelude.{List, String, [], false, some, true, ◌↔◌, ◌∷◌}
use pomodorough_server.Prelude.Int.{pos, ◌+ℤ◌, ◌≤ℤ◌}
use pomodorough_server.Js.Text.{codes, utf16}
use pomodorough_server.Queue.{Domain, Operation, Queues, at, attr, ids, no_operations}
use pomodorough_server.Sync.Account.{
  account_headers, assert_response_account, authenticated_owner_id,
}
use pomodorough_server.Sync.Account.Identity.{
  account_headers-authenticated_owner_id, assert_response_account_iff,
}
use pomodorough_server.Sync.Bootstrap.{
  DialogInput, OwnerInput, ResolutionInput, bootstrap_dialog_view, can_expose_owner_state,
  can_use_cached_owner_offline, requires_bootstrap_resolution,
}
use pomodorough_server.Sync.Bootstrap.Exposure.{
  ExactlyOne, bootstrap_dialog_view_modes, can_expose_owner_state-exclusive,
}
use pomodorough_server.Sync.Order.{compare_timer_commands}
use pomodorough_server.Sync.Order.Laws.{
  Before, compare_timer_commands_lem, counter, neg, units, wall,
}
use pomodorough_server.Sync.Request.{encode_selected_batch}
use pomodorough_server.Sync.Request.Encoding.{encode_selected_batch_lem}

abbrev incarnation : String
incarnation = "0123456789abcdef0123456789abcdef0123456789abcdef0123456789abcdef"

abbrev user : Value
user = obj (prop "id" (str "u1") (prop "accountIncarnation" (str incarnation) end))

abbrev owner : String
owner = "account:v1:0123456789abcdef0123456789abcdef0123456789abcdef0123456789abcdef"

authenticated_owner_id_run : authenticated_owner_id user ≡ ok (some owner)
unfolding authenticated_owner_id
authenticated_owner_id_run = refl

account_headers-authenticated_owner_id_example :
    account_headers (str owner)
    ≡ ok (prop "X-Pomodorough-Account-Incarnation" (get "accountIncarnation" user) end)
account_headers-authenticated_owner_id_example =
    account_headers-authenticated_owner_id user owner authenticated_owner_id_run

abbrev response : Value
response = obj (prop "accountIncarnation" (str incarnation) (prop "revision" (int (pos 3)) end))

assert_response_account_iff_example :
    (assert_response_account response (str owner) ≡ ok tt)
    ↔ (get "accountIncarnation" response ≡ get "accountIncarnation" user)
assert_response_account_iff_example =
    assert_response_account_iff user response owner authenticated_owner_id_run

abbrev choosing_input : DialogInput
choosing_input = record {
  plan_mode = str "choose";
  error = undefined;
  strategy = undefined;
  pending = null;
  blocked = bool true;
  authenticated = bool true;
  submitting = bool false;
}

choosing_shown : (bootstrap_dialog_view choosing_input).shown ≡ true
unfolding bootstrap_dialog_view
choosing_shown = refl

bootstrap_dialog_view_modes_example :
    ExactlyOne
      (bootstrap_dialog_view choosing_input).choosing
      (bootstrap_dialog_view choosing_input).confirming
      (bootstrap_dialog_view choosing_input).failed
    × (is_true (bool true) ≡ true)
    × (is_true (bool true) ≡ true)
bootstrap_dialog_view_modes_example = bootstrap_dialog_view_modes choosing_input choosing_shown

abbrev owner_input : OwnerInput
owner_input = record {
  session_validated = bool true;
  local_owner_id = str owner;
  current_user_id = str owner;
  cached_user_id = null;
  gate_owned = bool false;
  pending = null;
}

abbrev gated_input : ResolutionInput
gated_input = record {
  blocked = bool false;
  persisted_gate = bool true;
  pending = null;
  current_user_id = str owner;
  local_owner_id = str owner;
}

owner_exposed : can_expose_owner_state owner_input ≡ true
unfolding can_expose_owner_state
owner_exposed = refl

can_expose_owner_state-exclusive_example :
    (can_use_cached_owner_offline owner_input ≡ false)
    × (requires_bootstrap_resolution gated_input ≡ true)
can_expose_owner_state-exclusive_example =
    can_expose_owner_state-exclusive owner_input gated_input refl refl owner_exposed

abbrev upsert : Operation
upsert = record {
  id = "t1";
  props =
      prop "taskId" (str "a") (
        prop "type" (str "upsert")
          (prop "title" (str "Write") (prop "note" (str "kept here") end)));
}

abbrev batch : Queues (List Operation)
batch = record no_operations { task_operations = upsert ∷ [] }

encode_selected_batch_lem_example :
    (encode_selected_batch (λ v. nan) (encode_selected_batch (λ v. nan) batch)
      ≡ encode_selected_batch (λ v. nan) batch)
    × ((d : Domain) → ids (at d (encode_selected_batch (λ v. nan) batch)) ≡ ids (at d batch))
encode_selected_batch_lem_example = encode_selected_batch_lem (λ v. nan) batch

abbrev start : Operation
start = record {
  id = "c1";
  props = prop "hlcWallMs" (int (pos 5)) (prop "hlcCounter" (int (pos 0)) end);
}

abbrev pause : Operation
pause = record {
  id = "c2";
  props = prop "hlcWallMs" (int (pos 5)) (prop "hlcCounter" (int (pos 1)) end);
}

abbrev no_name : Value → String
no_name v = "?"

compare_timer_commands_lem_example :
    (wall start +ℤ pos 1 ≤ℤ wall pause → Before no_name start pause)
    × (wall start ≡ wall pause
        → counter start +ℤ pos 1 ≤ℤ counter pause
        → Before no_name start pause)
    × (compare_timer_commands no_name start pause ≡ pos 0
        → (wall start ≡ wall pause)
          × (counter start ≡ counter pause)
          × (units no_name (attr "deviceId" start) ≡ units no_name (attr "deviceId" pause))
          × (utf16 (codes "c1") ≡ utf16 (codes "c2")))
    × (compare_timer_commands no_name pause start
        ≡ neg (compare_timer_commands no_name start pause))
    × (compare_timer_commands no_name start pause ≤ℤ pos 0
        → compare_timer_commands no_name pause upsert ≤ℤ pos 0
        → compare_timer_commands no_name start upsert ≤ℤ pos 0)
compare_timer_commands_lem_example = compare_timer_commands_lem no_name start pause upsert
