-- ===== src/Storage/Records.antt =====
-- The records that a transaction of web/sync-storage.js reads at its start (`run` of
-- web/workspace-transaction.js), as far as the claims of batches use them, and the checks that stand
-- at the start of a transaction. A transaction gives its answer with the records as they are stored
-- afterwards, or an error, with which it is aborted and the store stays as it was. What the shared
-- core answers is an argument.
use pomodorough_server.Js.Result.{
  Result, Thrown, account_ownership, err, ok, plain, thrown, ◌>>=◌, ◌>>◌,
}
use pomodorough_server.Js.Value.{
  Value, get, is_full_text, is_null, is_nullish, is_undefined, null, or_falsy, or_nullish,
  strict_eq, truthy,
}
use pomodorough_server.Prelude.{
  Bool, List, Option, String, [], if◌then◌else◌, none, not, some, str_eq, ◌&&◌, ◌||◌, ◌∷◌,
}
use pomodorough_server.Queue.{Operation, Queues}
use pomodorough_server.Sync.Account.{account_owner_id, name_or_null}
use pomodorough_server.Workspace.{BatchRequest, SavedBatchRequest}
use pomodorough_server.Js.Result.{bootstrap_gate as gate_error}

-- A claim of operations that are sent. A stored claim that has no `sent` counts as none. The text
-- of a request is known by the value that it is read as.
pub record Claim : Type 0 where
  pub claim_id : String
  pub sent : Queues (List Operation)
  pub owner_id : Value
  pub retired_at : String
  pub body : Option Value

pub record Records : Type 0 where
  pub queues : Queues (List Operation)
  pub snapshot : Value
  pub device_id : Value
  pub delivery_proof : Value
  pub outgoing_sync : Option Claim
  pub timer_dependencies : Value
  pub batch_next_domain : Value
  pub bootstrap_gate : Value
  pub bootstrap_resolution : Value

-- What the caller of a transaction gives: its device; its `ownerId`, undefined where it has none, and
-- whether it has an own one; its own `expectedUserId`, if it has one; and what the calls of
-- `assertCurrent` come to at the start, before a migration and at the end.
pub record Caller : Type 0 where
  pub device_id : Value
  pub owner_id : Value
  pub has_owner_id : Bool
  pub expected_user_id : Option Value
  pub at_start : Result (Unit {0})
  pub at_migration : Result (Unit {0})
  pub at_end : Result (Unit {0})

pub record DependencyWrite : Type 0 where
  pub kind : String
  pub value : Value

pub record DependencyPlan : Type 0 where
  pub blocked : Bool
  pub writes : List DependencyWrite
  pub dependencies : Value

pub record BatchPlan : Type 0 where
  pub status : String
  pub next_domain : Value
  pub selected : Queues (List String)

-- The operations of the shared core and of the language that the transactions use: the plan of a
-- batch, that of a saved batch, the migration of dependencies, the check of a persisted display
-- context, and `Number(v)`.
pub record Core : Type 0 where
  pub batch_plan : BatchRequest → Result BatchPlan
  pub saved_plan : SavedBatchRequest → Result BatchPlan
  pub dependency_plan : Records → Value → Value → Result DependencyPlan
  pub display_context : Records → Value → Result (Unit {0})
  pub number : Value → Value

abbrev pub changed_account : Thrown
changed_account =
    thrown account_ownership "Local account changed. Revalidate the session before making changes."

abbrev pub canonical_changed : Thrown
canonical_changed = thrown account_ownership "Canonical account changed before sync apply."

-- the owner that is expected, null where none is given
unfoldable pub assert_account_ownership : Value → Value → Result (Unit {0})
unfolding account_owner_id
assert_account_ownership snapshot given = account_owner_id (get "user" snapshot) >>= λ owner.
    let expected = if is_undefined given then null else given in
    if not (is_null expected) && not (is_full_text expected)
      || not (strict_eq (name_or_null owner) expected)
    then err changed_account
    else ok tt

-- `input.expectedUserId ?? null`
abbrev pub expected_or_null : Option Value → Value
expected_or_null none = null
expected_or_null (some expected) = or_nullish expected null

abbrev pub expected_owner_id : Caller → Value
expected_owner_id caller =
    if caller.has_owner_id then caller.owner_id else expected_or_null caller.expected_user_id

unfoldable pub assert_workspace_context : Caller → Records → Result (Unit {0})
unfolding assert_account_ownership
assert_workspace_context caller records =
    caller.at_start
    >> (assert_account_ownership records.snapshot (expected_owner_id caller)
        >> (if truthy records.bootstrap_gate || truthy records.bootstrap_resolution
            then err (thrown gate_error "History resolution blocks local changes.")
            else if not (is_nullish records.device_id)
                && not (strict_eq records.device_id caller.device_id)
            then err canonical_changed
            else if not (is_full_text caller.device_id)
            then err canonical_changed
            else ok tt))

-- `plan.metadataWrites`, of which the last one stays
abbrev pub write_dependencies : List DependencyWrite → Records → Result Records
write_dependencies [] records = ok records
write_dependencies (w ∷ ws) records =
    if not (str_eq w.kind "recordTimerDependencies")
    then err (thrown plain "Unsupported legacy dependency write.")
    else write_dependencies ws (record records { timer_dependencies = w.value })

abbrev pub legacy_recovery : Thrown
legacy_recovery =
    thrown plain
      "Legacy timer dependencies need recovery. Retained operations and saved requests remain unchanged."

abbrev pub migration_owner : Caller → Value
migration_owner caller = elim caller.expected_user_id [
  | some expected ↦ expected
  | none ↦ or_nullish caller.owner_id null
]

unfoldable pub write_dependency_migration : Core → Caller → Records → Result (Value × Records)
write_dependency_migration shared caller records =
    shared.dependency_plan records (or_falsy records.device_id caller.device_id)
      (migration_owner caller)
    >>= λ plan.
        if plan.blocked
        then err legacy_recovery
        else caller.at_migration
          >> (write_dependencies plan.writes records >>= λ stored. ok (plan.dependencies, stored))

-- the dependencies, and the records as they are stored afterwards
unfoldable pub migrate_dependency_metadata : Core → Caller → Records → Result (Value × Records)
unfolding write_dependency_migration
migrate_dependency_metadata shared caller records =
    if not (is_nullish records.timer_dependencies)
    then ok (records.timer_dependencies, records)
    else write_dependency_migration shared caller records
