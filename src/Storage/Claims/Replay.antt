-- ===== src/Storage/Claims/Replay.antt =====
-- A claim that was made is the one that the next attempt sends again.
use mathlib.Core.Path.{refl, ◌≡◌}
use pomodorough_server.App.Owner.{saved}
use pomodorough_server.Js.Json.{IsJson, json_of, json_of_lem, json_props}
use pomodorough_server.Js.Result.{bind-eq-ok, dot, ok, ok-injective}
use pomodorough_server.Js.Value.{Props, Value, end, field, get, is_undefined, prop, str, undefined}
use pomodorough_server.Prelude.{
  Bool-cases, List, Option, String, ap, false, inl, inr, none, not, some, str_eq, subst, sym, true,
  ◌∙◌,
}
use pomodorough_server.Queue.{Domain, Operation, Queues, at, domain_name}
use pomodorough_server.Storage.Claims.{
  Claimed, Stamp, claim_new, claim_or_replay, claim_workspace_batch, claim_written, disagrees,
  is_damaged, is_foreign, new_claim, queue_props, queue_value, replay_saved, request_body,
  write_claim,
}
use pomodorough_server.Storage.Claims.Apart.{
  IsMigrated, migrate_dependency_metadata-IsMigrated, some-injective, some-ne-none,
}
use pomodorough_server.Storage.Records.{
  BatchPlan, Caller, Claim, Core, Records, assert_workspace_context, migrate_dependency_metadata,
}
use pomodorough_server.Workspace.{batch_request, saved_batch_request, selected_records}
use pomodorough_server.Workspace.Canonical.{records_equal, records_equal_refl}
use text.Mathlib.TextPositions.{eq_refl}

module _ (caller : Caller) (records : Records) where
  -- What is stored of a claim that was just made.
  abbrev IsFreshClaim : Records → Claim → Type 0
  IsFreshClaim after_it claim =
      (after_it.outgoing_sync ≡ some claim)
      × ((claim.owner_id ≡ caller.owner_id)
          × (((revision : Value) × (claim.body
                  ≡ some (request_body records.device_id revision claim.sent)))
              × ((after_it.device_id ≡ records.device_id)
                  × (assert_workspace_context caller after_it
                      ≡ assert_workspace_context caller records))))

  abbrev IsFresh : Claimed × Records → Type 0
  IsFresh p = (claim : Claim) → p.0.claim ≡ some claim → IsFreshClaim p.1 claim

  same_context :
      (stored : Records)
      → IsMigrated records stored
      → (stored.device_id ≡ records.device_id)
        × (assert_workspace_context caller stored ≡ assert_workspace_context caller records)
  unfolding assert_workspace_context
  same_context stored same =
      (ap (λ r. r.device_id) same, ap (λ r. assert_workspace_context caller r) same)

  module _ (shared : Core) (stamp : Stamp) where
    write_claim-IsFresh :
        (plan : BatchPlan) (stored : Records) (p : Claimed × Records)
        → IsMigrated records stored
        → write_claim shared caller stamp plan records stored ≡ ok p
        → IsFresh p
    unfolding write_claim assert_workspace_context
    write_claim-IsFresh plan stored p same h =
        let (selected, found, h1) =
          bind-eq-ok (selected_records plan.selected records.queues) _ h in
        let (revision, read, h2) = bind-eq-ok (dot "revision" records.snapshot) _ h1 in
        let (_, current, h3) = bind-eq-ok caller.at_end _ h2 in
        let (device, context) = same_context stored same in
        subst IsFresh (ok-injective h3) (λ claim e.
          subst
            (IsFreshClaim
              (claim_written (new_claim shared caller stamp records revision selected) plan stored))
            (some-injective e) (refl, (refl, ((revision, refl), (device, context)))))

    claim_new-IsFresh :
        (p : Claimed × Records) → claim_new shared caller stamp records ≡ ok p → IsFresh p
    unfolding claim_new
    claim_new-IsFresh p h =
        let ((v, stored), migrated, h1) =
          bind-eq-ok (migrate_dependency_metadata shared caller records) _ h in
        let (request, made, h2) =
          bind-eq-ok
            (batch_request records.queues records.device_id v records.batch_next_domain (str "sync")
              undefined)
            _ h1 in
        let (plan, planned, h3) = bind-eq-ok (shared.batch_plan request) _ h2 in
        let same = migrate_dependency_metadata-IsMigrated shared caller records stored v migrated in
        elim (Bool-cases (not (str_eq plan.status "planned"))) [
          | inl idle ↦
              subst IsFresh (ok-injective (rw idle at h3))
                (λ claim e. absurd (some-ne-none (sym e)))
          | inr ready ↦ write_claim-IsFresh plan stored p same (rw ready at h3)
        ]

skip_revision :
    (k : String) (revision : Value) (rest : Props)
    → str_eq "lastRevision" k ≡ false
    → field k (json_props (prop "lastRevision" revision rest)) ≡ field k (json_props rest)
skip_revision k revision rest h = elim (Bool-cases (is_undefined revision)) [
  | inl missing ↦ rw missing refl
  | inr present ↦ rw (present, h) refl
]

body_queue :
    (device : String) (revision : Value) (sent : Queues (List Operation)) (d : Domain)
    → get (domain_name d) (request_body (str device) revision sent)
      ≡ json_of (queue_value (at d sent))
unfolding request_body
body_queue device revision sent Domain.timer =
    skip_revision "commands" revision (queue_props sent end) refl
body_queue device revision sent Domain.task =
    skip_revision "taskOperations" revision (queue_props sent end) refl
body_queue device revision sent Domain.duration =
    skip_revision "durationOperations" revision (queue_props sent end) refl
body_queue device revision sent Domain.auto_start =
    skip_revision "autoStartOperations" revision (queue_props sent end) refl
body_queue device revision sent Domain.selected_task =
    skip_revision "selectedTaskOperations" revision (queue_props sent end) refl

-- Operations that JSON can hold.
abbrev pub SentJson : Queues (List Operation) → Type 0
SentJson sent = (d : Domain) → IsJson (queue_value (at d sent))

module _ (device : String) (claim : Claim) (revision : Value) (json : SentJson claim.sent) where
  queue_agrees :
      (d : Domain)
      → not (
          records_equal
            (get (domain_name d) (request_body (str device) revision claim.sent))
            (queue_value (at d claim.sent)))
        ≡ false
  queue_agrees d =
      rw
        (
          body_queue device revision claim.sent d,
          json_of_lem (queue_value (at d claim.sent)) (json d),
          records_equal_refl (queue_value (at d claim.sent)),
        )
        refl

  -- The bytes of a claim that was just made agree with what the claim holds.
  disagrees-request_body :
      disagrees (str device) claim (request_body (str device) revision claim.sent) ≡ false
  unfolding disagrees request_body
  disagrees-request_body =
      rw
        (
          eq_refl device,
          queue_agrees Domain.timer,
          queue_agrees Domain.task,
          queue_agrees Domain.duration,
          queue_agrees Domain.auto_start,
          queue_agrees Domain.selected_task,
        )
        refl

own_claim :
    (claim : Claim) (caller : Caller) (owner : String)
    → claim.owner_id ≡ str owner
    → caller.owner_id ≡ str owner
    → is_foreign claim caller ≡ false
own_claim claim caller owner h k = rw (h, k, eq_refl owner) refl

undamaged :
    (device : String) (claim : Claim) (revision : Value) (device_id : Value) (body : Option Value)
    → SentJson claim.sent
    → device_id ≡ str device
    → body ≡ some (request_body (str device) revision claim.sent)
    → is_damaged device_id claim body ≡ false
undamaged device claim revision device_id body json h b =
    rw (h, b) (disagrees-request_body device claim revision json)

replay_saved_lem :
    (shared : Core) (caller : Caller) (claim : Claim) (records : Records) (replay : BatchPlan)
    → is_foreign claim caller ≡ false
    → shared.saved_plan (saved_batch_request claim.sent (str "sync")) ≡ ok replay
    → str_eq replay.status "replay_saved" ≡ true
    → is_damaged records.device_id claim claim.body ≡ false
    → replay_saved shared caller claim records
      ≡ ok (record { plan = replay; claim = some claim; proof = records.delivery_proof }, records)
unfolding replay_saved
replay_saved_lem shared caller claim records replay own planned again whole =
    rw (own, planned, again, whole) refl

-- After a batch was claimed, the next attempt to claim is given the same claim to send again and
-- leaves the store as it is: for a named account and device, operations that JSON can hold, and a
-- shared core that accepts the stored display context and replays the saved claim.
pub claim_workspace_batch-again :
    (shared : Core) (caller : Caller) (stamp later : Stamp) (owner device : String)
    (records after_it : Records) (answer : Claimed) (claim : Claim) (replay : BatchPlan)
    → caller.owner_id ≡ str owner
    → records.device_id ≡ str device
    → records.outgoing_sync ≡ none
    → claim_workspace_batch shared caller stamp records ≡ ok (answer, after_it)
    → answer.claim ≡ some claim
    → SentJson claim.sent
    → shared.display_context after_it caller.device_id ≡ ok tt
    → shared.saved_plan (saved_batch_request claim.sent (str "sync")) ≡ ok replay
    → str_eq replay.status "replay_saved" ≡ true
    → claim_workspace_batch shared caller later after_it
      ≡ ok (record { plan = replay; claim = some claim; proof = after_it.delivery_proof }, after_it)
unfolding claim_workspace_batch
claim_workspace_batch-again shared caller stamp later owner device records after_it answer claim
      replay by on_device free h made json shown planned again =
    let (_, context, h1) = bind-eq-ok (assert_workspace_context caller records) _ h in
    let (_, _, h2) = bind-eq-ok (shared.display_context records caller.device_id) _ h1 in
    let new =
      subst (λ o. claim_or_replay o shared caller stamp records ≡ ok (answer, after_it)) free h2 in
    let fresh = claim_new-IsFresh caller records shared stamp (answer, after_it) new in
    let (saved, (owned, ((revision, body), (same_device, same)))) = fresh claim made in
    let own = own_claim claim caller owner (owned ∙ by) by in
    let bytes : claim.body ≡ some (request_body (str device) revision claim.sent) =
      subst (λ v. claim.body ≡ some (request_body v revision claim.sent)) on_device body in
    let whole =
      undamaged device claim revision after_it.device_id claim.body json (same_device ∙ on_device)
        bytes in
    let answered_again : Claimed × Records =
      (record { plan = replay; claim = some claim; proof = after_it.delivery_proof }, after_it) in
    rw (same, context, shown)
      (subst (λ o. claim_or_replay o shared caller later after_it ≡ ok answered_again) (sym saved)
        (replay_saved_lem shared caller claim after_it replay own planned again whole))
