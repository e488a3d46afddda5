-- ===== src/Storage/Capture.antt =====
-- The claim that a network response answers, in web/sync-storage.js: what is captured before the
-- request is sent, and when a response may be applied. `JSON.parse` is an argument.
pub mod Whole
pub mod Exact
use pomodorough_server.App.{number}
use pomodorough_server.App.Owner.{saved}
use pomodorough_server.Js.Equal.{beq}
use pomodorough_server.Js.Json.{json_of}
use pomodorough_server.Js.Num.{is_between, max_safe}
use pomodorough_server.Js.Result.{Result, Thrown, err, ok, plain, thrown, type_error, ◌>>=◌, ◌>>◌}
use pomodorough_server.Js.Value.{
  Value, end, get, is_array, is_full_text, is_nullish, is_object, is_string, is_undefined, items,
  null, obj, or_falsy, prop, strict_eq, truthy, undefined,
}
use pomodorough_server.Prelude.{
  Bool, List, [], all, any, false, if◌then◌else◌, not, ◌&&◌, ◌||◌, ◌∷◌,
}
use pomodorough_server.Queue.{domain_name, domains}
use pomodorough_server.Storage.Records.{canonical_changed}
use pomodorough_server.Sync.Account.{account_owner_id, name_or_null}
use pomodorough_server.Sync.DateTime.{valid_date_time}
use pomodorough_server.Workspace.Canonical.{records_equal}
use pomodorough_server.Js.Result.{bootstrap_gate as gate_error}

unfoldable pub sanitize_canonical_head : (Value → Value) → Value → Value
sanitize_canonical_head number head =
    let wall_ms = number (get "wallMs" head) in
    let counter = number (get "counter" head) in
    if not (is_object head)
    then null
    else if not (is_between 1 max_safe wall_ms)
    then null
    else if not (is_between 0 max_safe counter)
    then null
    else obj (prop "wallMs" wall_ms (prop "counter" counter end))

-- the last item of an identifier, as JSON
abbrev pub item_of : Value → List Value → Value
item_of id [] = undefined
item_of id (v ∷ vs) =
    let rest = item_of id vs in
    if any (λ w. strict_eq (get "id" w) id) vs
    then rest
    else if strict_eq (get "id" v) id
    then v
    else undefined

-- `JSON.stringify(a) === JSON.stringify(b)` of two items, of which the first may be missing
abbrev pub same_json : Value → Value → Bool
same_json a b = not (is_undefined a) && beq (json_of a) (json_of b)

abbrev pub same_items : Value → Value → Bool
same_items previous current =
    all (λ item. same_json (item_of (get "id" item) (items current)) item) (items previous)

-- of identifiers that are texts
unfoldable pub outgoing_matches_stored : Value → Value → Bool
unfolding beq
outgoing_matches_stored outgoing sent =
    not (truthy (get "sent" outgoing))
    || all (λ d. same_items (get (domain_name d) (get "sent" outgoing)) (get (domain_name d) sent))
        domains

abbrev pub inexact_claim : Thrown
inexact_claim = thrown type_error "An exact captured sync claim is required."

-- the tests on the claim before its request is read
unfoldable pub is_inexact : Value → Value → Bool
is_inexact claim sent =
    not (is_object claim)
    || not (is_string (get "body" claim))
    || not (valid_date_time (get "retiredAt" claim))
    || not (is_nullish (get "claimId" claim)) && not (is_full_text (get "claimId" claim))
    || not (is_object (get "sent" claim))
    || not (records_equal (get "sent" claim) sent)

unfoldable pub is_other_request : Value → Value → Value → Bool
unfolding records_equal
is_other_request body device_id sent =
    not (strict_eq (get "deviceId" body) device_id)
    || not (is_between 0 max_safe (get "lastRevision" body))
    || any
        (λ d.
          not (is_array (get (domain_name d) body))
          || not (records_equal (get (domain_name d) body) (get (domain_name d) sent)))
        domains

unfoldable pub capture_sync_claim :
    (Value → Result Value) → Value → Value → Value → Value → Result Value
unfolding is_inexact is_other_request
capture_sync_claim parse claim sent owner_id device_id =
    if is_inexact claim sent
    then err inexact_claim
    else if not (strict_eq (get "ownerId" claim) owner_id)
    then err canonical_changed
    else parse (get "body" claim) >>= λ body.
        if is_other_request body device_id sent
        then err (thrown plain "Captured request bytes disagree with the acknowledged sync claim.")
        else ok (json_of claim)

-- whether a response may be applied, and whether the saved claim goes with it
pub record ClaimUse : Type 0 where
  pub applicable : Bool
  pub clear_claim : Bool

pub record Reconciled : Type 0 where
  pub sent : Value
  pub device_id : Value

unfoldable pub response_claim_plan :
    (Value → Result Value) → Value → Value → Value → Reconciled → Result ClaimUse
unfolding capture_sync_claim
response_claim_plan parse stored captured_claim expected_user_id reconciled =
    let saved = or_falsy stored null in
    if is_nullish captured_claim
    then ok (record { applicable = not (truthy saved); clear_claim = false })
    else capture_sync_claim parse captured_claim reconciled.sent expected_user_id
        reconciled.device_id
      >>= λ captured.
          let matches = records_equal saved captured in
          ok (record { applicable = matches; clear_claim = matches })

-- what the start of applying a response looks at
pub record ResponseApply : Type 0 where
  pub current : Result (Unit {0})
  pub expected_user_id : Value
  pub incoming_snapshot : Value
  pub stored_snapshot : Value
  pub gate : Value
  pub resolution : Value

unfoldable pub validate_sync_response_apply : ResponseApply → Result (Unit {0})
unfolding account_owner_id valid_date_time
validate_sync_response_apply input =
    input.current
    >> (account_owner_id (get "user" input.stored_snapshot) >>= λ stored.
        account_owner_id (get "user" input.incoming_snapshot) >>= λ incoming.
        if not (truthy input.expected_user_id)
          || not (strict_eq (name_or_null stored) input.expected_user_id)
          || not (strict_eq (name_or_null incoming) input.expected_user_id)
        then err canonical_changed
        else if truthy input.gate || truthy input.resolution
        then err (thrown gate_error "History resolution blocks local changes.")
        else if not (valid_date_time (get "serverTime" input.incoming_snapshot))
        then err (thrown plain "Sync response returned an invalid serverTime.")
        else ok tt)
