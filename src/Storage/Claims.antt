-- ===== src/Storage/Claims.antt =====
-- The claim of a batch of operations in web/sync-storage.js: `claimWorkspaceBatch`,
-- `discardUnrecoverableSavedClaim` and the message about a claim that cannot be recovered.
pub mod Apart
pub mod Replay
use pomodorough_server.App.{number}
use pomodorough_server.App.Owner.{saved}
use pomodorough_server.Js.Json.{json_of}
use pomodorough_server.Js.Result.{Result, dot, err, ok, plain, thrown, ◌>>=◌, ◌>>◌}
use pomodorough_server.Js.Text.{join_with}
use pomodorough_server.Js.Value.{
  Props, Value, arr, cons, end, get, is_nullish, is_true, items, obj, of_list, prop, str, strict_eq,
  undefined,
}
use pomodorough_server.Prelude.{
  Bool, List, Option, String, [], any, false, if◌then◌else◌, join, length, map, none, not, some,
  str_eq, true, ◌&&◌, ◌==◌, ◌||◌, ◌∷◌,
}
use pomodorough_server.Queue.{Domain, Operation, Queues, as_value, at, domain_name, domains}
use pomodorough_server.Storage.Gate.{is_held}
use pomodorough_server.Storage.Proof.{remove_proof_ids}
use pomodorough_server.Storage.Records.{
  BatchPlan, Caller, Claim, Core, Records, assert_workspace_context, canonical_changed,
  migrate_dependency_metadata,
}
use pomodorough_server.Sync.Request.{encode_selected_batch}
use pomodorough_server.Workspace.{batch_request, saved_batch_request, selected_records}
use pomodorough_server.Workspace.Canonical.{records_equal}

abbrev pub queue_value : List Operation → Value
queue_value ops = arr (of_list (map as_value ops))

-- `{ deviceId, lastRevision, ...sent }`, written as JSON and read again
abbrev pub queue_props : Queues (List Operation) → Props → Props
queue_props sent rest = prop "commands" (queue_value sent.commands) (
    prop "taskOperations" (queue_value sent.task_operations) (
      prop "durationOperations" (queue_value sent.duration_operations) (
        prop "autoStartOperations" (queue_value sent.auto_start_operations)
          (prop "selectedTaskOperations" (queue_value sent.selected_task_operations) rest))))

unfoldable pub request_body : Value → Value → Queues (List Operation) → Value
request_body device_id revision sent =
    json_of (obj (prop "deviceId" device_id (prop "lastRevision" revision (queue_props sent end))))

-- a proof as a value
abbrev pub text_array : List String → Value
text_array xs = arr (of_list (map str xs))

unfoldable pub proof_value : Queues (List String) → Value
proof_value proof = obj (
    prop "commands" (text_array proof.commands) (
      prop "taskOperations" (text_array proof.task_operations) (
        prop "durationOperations" (text_array proof.duration_operations) (
          prop "autoStartOperations" (text_array proof.auto_start_operations)
            (prop "selectedTaskOperations" (text_array proof.selected_task_operations) end)))))

-- what the caller is told of a claim
pub record Claimed : Type 0 where
  pub plan : BatchPlan
  pub claim : Option Claim
  pub proof : Value

-- The name and the time of a new claim.
pub record Stamp : Type 0 where
  pub claim_id : String
  pub retired_at : String

-- `saved.ownerId != null && saved.ownerId !== input.ownerId`
abbrev pub is_foreign : Claim → Caller → Bool
is_foreign saved caller =
    not (is_nullish saved.owner_id) && not (strict_eq saved.owner_id caller.owner_id)

-- the bytes of a saved request against the records of the claim
unfoldable pub disagrees : Value → Claim → Value → Bool
disagrees device_id saved body =
    not (strict_eq (get "deviceId" body) device_id)
    || any (λ d. not (records_equal (get (domain_name d) body) (queue_value (at d saved.sent))))
        domains

abbrev pub is_damaged : Value → Claim → Option Value → Bool
is_damaged device_id saved none = false
is_damaged device_id saved (some body) = disagrees device_id saved body

unfoldable pub replay_saved : Core → Caller → Claim → Records → Result (Claimed × Records)
unfolding disagrees
replay_saved shared caller saved records =
    if is_foreign saved caller
    then err canonical_changed
    else shared.saved_plan (saved_batch_request saved.sent (str "sync")) >>= λ plan.
        let answer : Claimed = record {
          plan = plan;
          claim = some saved;
          proof = records.delivery_proof;
        } in
        if not (str_eq plan.status "replay_saved")
        then ok (answer, records)
        else if is_damaged records.device_id saved saved.body
        then err (
            thrown plain
              "Saved request bytes disagree with retained claim metadata. Recovery is required.")
        else ok (answer, records)

abbrev pub new_claim : Core → Caller → Stamp → Records → Value → Queues (List Operation) → Claim
new_claim shared caller stamp records revision selected =
    let sent = encode_selected_batch shared.number selected in
    record {
      claim_id = stamp.claim_id;
      sent = sent;
      owner_id = caller.owner_id;
      retired_at = stamp.retired_at;
      body = some (request_body records.device_id revision sent);
    }

-- what is written with a claim; a migration before it leaves the proof as it was read
abbrev pub claim_written : Claim → BatchPlan → Records → Records
claim_written claim plan stored = record stored {
  delivery_proof = proof_value (remove_proof_ids stored.delivery_proof claim.sent);
  outgoing_sync = some claim;
  batch_next_domain = plan.next_domain;
}

-- The claim of the operations that a plan selects, after the dependencies are there.
unfoldable pub write_claim :
    Core → Caller → Stamp → BatchPlan → Records → Records → Result (Claimed × Records)
unfolding request_body proof_value
write_claim shared caller stamp plan records stored =
    selected_records plan.selected records.queues >>= λ selected.
    dot "revision" records.snapshot >>= λ revision.
    let claim = new_claim shared caller stamp records revision selected in
    let after_it = claim_written claim plan stored in
    caller.at_end
    >> ok (record { plan = plan; claim = some claim; proof = after_it.delivery_proof }, after_it)

-- a claim of a new batch, when none is saved
unfoldable pub claim_new : Core → Caller → Stamp → Records → Result (Claimed × Records)
unfolding migrate_dependency_metadata write_claim
claim_new shared caller stamp records =
    migrate_dependency_metadata shared caller records >>= λ migrated.
    batch_request records.queues records.device_id migrated.0 records.batch_next_domain (str "sync")
      undefined
    >>= λ request. shared.batch_plan request >>= λ plan.
        if not (str_eq plan.status "planned")
        then ok (record { plan = plan; claim = none; proof = records.delivery_proof }, migrated.1)
        else write_claim shared caller stamp plan records migrated.1

-- by the claim that is saved
abbrev pub claim_or_replay :
    Option Claim → Core → Caller → Stamp → Records → Result (Claimed × Records)
claim_or_replay (some saved) shared caller stamp records = replay_saved shared caller saved records
claim_or_replay none shared caller stamp records = claim_new shared caller stamp records

unfoldable pub claim_workspace_batch : Core → Caller → Stamp → Records → Result (Claimed × Records)
unfolding assert_workspace_context replay_saved claim_new
claim_workspace_batch shared caller stamp records =
    assert_workspace_context caller records
    >> (shared.display_context records caller.device_id
        >> claim_or_replay records.outgoing_sync shared caller stamp records)

abbrev pub discard_saved :
    Option Claim → Core → Caller → Stamp → Records → Result (Claimed × Records)
discard_saved none shared caller stamp records =
    err (thrown plain "No unrecoverable saved sync claim is retained.")
discard_saved (some saved) shared caller stamp records =
    if is_held saved.body
    then err
        (thrown plain "Saved sync claim retains its original request body and must replay exactly.")
    else if is_foreign saved caller
    then err canonical_changed
    else claim_new shared caller stamp (record records { outgoing_sync = none })

-- `discardUnrecoverableSavedClaim`, with whether the user has confirmed it
unfoldable pub discard_unrecoverable_saved_claim :
    Core → Caller → Stamp → Value → Records → Result (Claimed × Records)
unfolding assert_workspace_context claim_new
discard_unrecoverable_saved_claim shared caller stamp confirmed records =
    assert_workspace_context caller records
    >> (shared.display_context records caller.device_id
        >> (if not (is_true confirmed)
            then err (
                thrown plain
                  "Discarding the unrecoverable saved claim requires explicit confirmation.")
            else discard_saved records.outgoing_sync shared caller stamp records))

abbrev pub is_filled : Value → Bool
is_filled (arr (cons v vs)) = true
is_filled v = false

abbrev pub keep_domains : (Domain → Bool) → List Domain → List String
keep_domains p [] = []
keep_domains p (d ∷ ds) = let rest = keep_domains p ds in if p d then domain_name d ∷ rest else rest

-- `savedClaimRecoveryQueues(saved, queues)`
unfoldable pub saved_claim_recovery_queues : Value → Value → List String
saved_claim_recovery_queues saved queues =
    keep_domains
      (λ d.
        is_filled (get (domain_name d) (get "sent" saved))
        || is_filled (get (domain_name d) queues))
      domains

abbrev or_fallback : String → Result String → String
or_fallback otherwise (ok message) = message
or_fallback otherwise (err e) = otherwise

-- `savedClaimRecoveryMessage`: the translation that is given the names of the queues and a message
-- to fall back to, which stands where the translation fails
unfoldable pub saved_claim_recovery_message :
    (String → String → Result String) → Value → Value → String
unfolding saved_claim_recovery_queues
saved_claim_recovery_message translate saved queues =
    let names = saved_claim_recovery_queues saved queues in
    let listed = if length names == 0 then "sync queue" else join_with ", " names in
    let otherwise = join (
      "Saved sync request lacks original request bytes. Sync of " ∷ listed
      ∷ " remains blocked. Queued work is intact." ∷ []) in
    or_fallback otherwise (translate listed otherwise)
