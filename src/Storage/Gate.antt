-- ===== src/Storage/Gate.antt =====
-- The bootstrap gate of web/sync-storage.js: a lease on the account's history that one tab holds,
-- and the saved resolution that the holder completes. The checks of the caller's context that stand
-- before a transaction (`assertStorageContext`) can only refuse it, and are not modelled. A name of
-- an account is none where the code's is missing or empty.
pub mod Exclusion
use pomodorough_server.Js.Result.{Result, bootstrap_gate, err, ok, thrown}
use pomodorough_server.Js.Value.{Value}
use pomodorough_server.Prelude.{
  Bool, Option, String, false, if◌then◌else◌, ltb, none, not, some, str_eq, true, ℕ, ◌&&◌, ◌+◌,
}

pub record Gate : Type 0 where
  pub token : String
  pub acquired_at_ms : ℕ
  pub expires_at_ms : ℕ
  pub account_owner_id : Option String

-- a saved resolution; what else it holds stays as it is
pub record Resolution : Type 0 where
  pub gate_token : String
  pub content : Value

-- what the object store `meta` holds of the gate
pub record GateStore : Type 0 where
  pub gate : Option Gate
  pub resolution : Option Resolution

pub record LeaseInput : Type 0 where
  pub token : String
  pub now_ms : ℕ
  pub lease_ms : ℕ
  pub current_user_id : Option String

-- `Boolean(gate?.token && Number(gate.expiresAtMs) > nowMs)`
unfoldable pub lease_is_live : Option Gate → ℕ → Bool
lease_is_live none now = false
lease_is_live (some gate) now = not (str_eq gate.token "") && ltb now gate.expires_at_ms

-- `leaseValue` with the account that it is bound to
unfoldable pub bound_bootstrap_lease : LeaseInput → Gate
bound_bootstrap_lease input = record {
  token = input.token;
  acquired_at_ms = input.now_ms;
  expires_at_ms = input.now_ms + input.lease_ms;
  account_owner_id = input.current_user_id;
}

-- `a && b && a !== b` of two names that may be missing
abbrev pub differs : Option String → Option String → Bool
differs (some a) (some b) = not (str_eq a b)
differs _ _ = false

abbrev pub bound_to : Option Gate → Option String
bound_to none = none
bound_to (some gate) = gate.account_owner_id

abbrev pub held_by : String → Option Gate → Bool
held_by token none = false
held_by token (some gate) = str_eq gate.token token

pub record Acquisition : Type 0 where
  pub acquired : Bool
  pub taken_over : Bool
  pub gate : Option Gate
  pub resolution : Option Resolution

abbrev pub rebound : String → Option Resolution → Option Resolution
rebound token none = none
rebound token (some r) =
    some (if str_eq r.gate_token token then r else record r { gate_token = token })

abbrev refused_lease : GateStore → Acquisition × GateStore
refused_lease store = (
  record { acquired = false; taken_over = false; gate = store.gate; resolution = store.resolution },
  store,
)

abbrev pub is_held {ℓ} : {A : Type ℓ} → Option A → Bool
is_held none = false
is_held (some a) = true

unfoldable pub acquire_bootstrap_gate : LeaseInput → GateStore → Acquisition × GateStore
acquire_bootstrap_gate input store =
    if differs (bound_to store.gate) input.current_user_id
    then refused_lease store
    else if not (held_by input.token store.gate) && lease_is_live store.gate input.now_ms
    then refused_lease store
    else let gate = bound_bootstrap_lease input in
      let resolution = rebound input.token store.resolution in
      (
        record {
          acquired = true;
          taken_over = is_held store.gate && not (held_by input.token store.gate);
          gate = some gate;
          resolution = resolution;
        },
        record { gate = some gate; resolution = resolution },
      )

unfoldable pub clear_bootstrap_gate : String → GateStore → Result GateStore
clear_bootstrap_gate token store =
    if is_held store.resolution
    then err (thrown bootstrap_gate "Saved history resolution still requires completion.")
    else if not (held_by token store.gate)
    then err (thrown bootstrap_gate "Bootstrap gate is owned by another tab.")
    else ok (record store { gate = none })
