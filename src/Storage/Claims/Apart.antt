-- ===== src/Storage/Claims/Apart.antt =====
-- The operations of a claim are not among those that were certainly never sent.
use mathlib.Core.Path.{refl, ◌≡◌}
use native.Mathlib.Omega.{arith}
use pomodorough_server.App.Owner.{saved}
use pomodorough_server.Js.IdSet.{member-to_set, to_set}
use pomodorough_server.Js.Result.{bind-eq-ok, dot, if-eq-ok, ok, ok-injective, second}
use pomodorough_server.Js.Value.{
  Value, elems, is_nullish, is_true, items, of_list, or_falsy, str, undefined,
}
use pomodorough_server.Prelude.{
  Bool-cases, List, Option, String, [], ap, eq_iff, false, inl, inr, map, member, none, not, some,
  str_eq, subst, sym, true, ◌&&◌, ◌∙◌, ◌∷◌,
}
use pomodorough_server.Queue.{Domain, Operation, Queues, at, ids}
use pomodorough_server.Storage.Claims.{
  Claimed, Stamp, claim_new, claim_or_replay, claim_workspace_batch, discard_saved,
  discard_unrecoverable_saved_claim, is_damaged, is_foreign, proof_value, replay_saved, text_array,
  write_claim,
}
use pomodorough_server.Storage.Gate.{is_held}
use pomodorough_server.Storage.Proof.{
  full_texts, remove_proof_ids, sanitize_delivery_proof, sanitize_queue,
}
use pomodorough_server.Storage.Proof.Laws.{member-remove_proof_ids}
use pomodorough_server.Storage.Records.{
  BatchPlan, Caller, Claim, Core, DependencyWrite, Records, assert_workspace_context,
  canonical_changed, legacy_recovery, migrate_dependency_metadata, migration_owner,
  write_dependencies, write_dependency_migration,
}
use pomodorough_server.Sync.Request.{encode_selected_batch}
use pomodorough_server.Workspace.{batch_request, saved_batch_request, selected_records}

-- No operation of the saved claim counts as never sent.
unfoldable pub IsApart : Records → Type 0
IsApart records =
    (claim : Claim)
    → records.outgoing_sync ≡ some claim
    → (d : Domain) (id : String) → member id (ids (at d claim.sent)) ≡ true
    → member id (at d (sanitize_delivery_proof records.delivery_proof)) ≡ false

pub some-injective {ℓ} : {A : Type ℓ} {a b : A} → some a ≡ some b → a ≡ b
some-injective h = cc

pub some-ne-none {ℓ} : {A : Type ℓ} {a : A} → ¬ (some a ≡ none)
some-ne-none h = cc

is_held-eq-false {ℓ} : {A : Type ℓ} (o : Option A) → is_held o ≡ false → o ≡ none
is_held-eq-false none h = refl
is_held-eq-false (some a) h = cc

member-full_texts :
    (id : String) (xs : List String)
    → member id (full_texts (map str xs)) ≡ (member id xs && not (str_eq id ""))
member-full_texts id [] = refl
member-full_texts id (x ∷ xs) =
    ground (arith, member-full_texts id xs, eq_iff id x, eq_iff x "", eq_iff id "")

elems-of_list : (vs : List Value) → elems (of_list vs) ≡ vs
elems-of_list [] = refl
elems-of_list (v ∷ vs) = ap (λ ws. v ∷ ws) (elems-of_list vs)

member-text_array :
    (id : String) (xs : List String)
    → member id (to_set (full_texts (items (text_array xs)))) ≡ (member id xs && not (str_eq id ""))
member-text_array id xs =
    rw (elems-of_list (map str xs), member-to_set id (full_texts (map str xs)))
      (member-full_texts id xs)

-- A proof that was written is read as it was, without the empty text.
member-proof_value :
    (proof : Queues (List String)) (d : Domain) (id : String)
    → member id (at d (sanitize_delivery_proof (proof_value proof)))
      ≡ (member id (at d proof) && not (str_eq id ""))
unfolding sanitize_delivery_proof sanitize_queue proof_value
member-proof_value proof Domain.timer id = member-text_array id proof.commands
member-proof_value proof Domain.task id = member-text_array id proof.task_operations
member-proof_value proof Domain.duration id = member-text_array id proof.duration_operations
member-proof_value proof Domain.auto_start id = member-text_array id proof.auto_start_operations
member-proof_value proof Domain.selected_task id =
    member-text_array id proof.selected_task_operations

-- what a new claim leaves in the proof
removed_apart :
    (proof : Value) (sent : Queues (List Operation)) (d : Domain) (id : String)
    → member id (ids (at d sent)) ≡ true
    → member id (at d (sanitize_delivery_proof (proof_value (remove_proof_ids proof sent)))) ≡ false
removed_apart proof sent d id h =
    member-proof_value (remove_proof_ids proof sent) d id
    ∙ rw (member-remove_proof_ids proof sent d id, h) (ground arith)

-- nothing but the dependencies has changed
abbrev pub IsMigrated : Records → Records → Type 0
IsMigrated records after_it =
    after_it ≡ record records { timer_dependencies = after_it.timer_dependencies }

write_dependencies-IsMigrated :
    (ws : List DependencyWrite) (records after_it : Records)
    → write_dependencies ws records ≡ ok after_it
    → IsMigrated records after_it
write_dependencies-IsMigrated [] records after_it h =
    subst (IsMigrated records) (ok-injective h) refl
write_dependencies-IsMigrated (w ∷ ws) records after_it h =
    let (_, rest) = if-eq-ok (not (str_eq w.kind "recordTimerDependencies")) _ _ h in
    write_dependencies-IsMigrated ws (record records { timer_dependencies = w.value }) after_it rest

module _ (shared : Core) (caller : Caller) where
  pub migrate_dependency_metadata-IsMigrated :
      (records after_it : Records) (v : Value)
      → migrate_dependency_metadata shared caller records ≡ ok (v, after_it)
      → IsMigrated records after_it
  unfolding migrate_dependency_metadata write_dependency_migration
  migrate_dependency_metadata-IsMigrated records after_it v h =
      elim (Bool-cases (not (is_nullish records.timer_dependencies))) [
        | inl there ↦ subst (IsMigrated records) (second (rw there at h)) refl
        | inr missing ↦
            let device = or_falsy records.device_id caller.device_id in
            let (plan, planned, h1) =
              bind-eq-ok (shared.dependency_plan records device (migration_owner caller)) _
                (rw missing at h) in
            let (_, h2) = if-eq-ok plan.blocked legacy_recovery _ h1 in
            let (_, current, h3) = bind-eq-ok caller.at_migration _ h2 in
            let (stored, written, h4) = bind-eq-ok (write_dependencies plan.writes records) _ h3 in
            subst (IsMigrated records) (second h4)
              (write_dependencies-IsMigrated plan.writes records stored written)
      ]

  abbrev pub IsClaimed : Records → Records → Type 0
  IsClaimed records after_it = IsApart after_it × (after_it.queues ≡ records.queues)

  migrated-IsClaimed :
      (records after_it : Records)
      → IsApart records
      → IsMigrated records after_it
      → IsClaimed records after_it
  unfolding IsApart
  migrated-IsClaimed records after_it apart same =
      (subst IsApart (sym same) apart, ap (λ r. r.queues) same)

  write_claim-IsClaimed :
      (stamp : Stamp) (plan : BatchPlan) (records stored after_it : Records) (answer : Claimed)
      → stored.queues ≡ records.queues
      → write_claim shared caller stamp plan records stored ≡ ok (answer, after_it)
      → IsClaimed records after_it
  unfolding write_claim IsApart
  write_claim-IsClaimed stamp plan records stored after_it answer same h =
      let (selected, found, h1) = bind-eq-ok (selected_records plan.selected records.queues) _ h in
      let (revision, read, h2) = bind-eq-ok (dot "revision" records.snapshot) _ h1 in
      let (_, current, h3) = bind-eq-ok caller.at_end _ h2 in
      let sent = encode_selected_batch shared.number selected in
      subst (IsClaimed records) (second h3) (
        λ claim e d id named. removed_apart stored.delivery_proof sent d id (
            subst (λ (c : Claim). member id (ids (at d c.sent)) ≡ true) (sym (some-injective e))
              named),
        same,
      )

  claim_new-IsClaimed :
      (stamp : Stamp) (records after_it : Records) (answer : Claimed)
      → IsApart records
      → claim_new shared caller stamp records ≡ ok (answer, after_it)
      → IsClaimed records after_it
  unfolding claim_new
  claim_new-IsClaimed stamp records after_it answer apart h =
      let ((v, stored), migrated, h1) =
        bind-eq-ok (migrate_dependency_metadata shared caller records) _ h in
      let (request, made, h2) =
        bind-eq-ok
          (batch_request records.queues records.device_id v records.batch_next_domain (str "sync")
            undefined)
          _ h1 in
      let (plan, planned, h3) = bind-eq-ok (shared.batch_plan request) _ h2 in
      let same = migrate_dependency_metadata-IsMigrated records stored v migrated in
      elim (Bool-cases (not (str_eq plan.status "planned"))) [
        | inl idle ↦
            subst (IsClaimed records) (second (rw idle at h3))
              (migrated-IsClaimed records stored apart same)
        | inr ready ↦
            write_claim-IsClaimed stamp plan records stored after_it answer
              (ap (λ r. r.queues) same) (rw ready at h3)
      ]

  replay_saved-IsClaimed :
      (saved : Claim) (records after_it : Records) (answer : Claimed)
      → IsApart records
      → replay_saved shared caller saved records ≡ ok (answer, after_it)
      → IsClaimed records after_it
  unfolding replay_saved
  replay_saved-IsClaimed saved records after_it answer apart h =
      let (_, h1) = if-eq-ok (is_foreign saved caller) canonical_changed _ h in
      let (plan, planned, h2) =
        bind-eq-ok (shared.saved_plan (saved_batch_request saved.sent (str "sync"))) _ h1 in
      elim (Bool-cases (not (str_eq plan.status "replay_saved"))) [
        | inl other ↦ subst (IsClaimed records) (second (rw other at h2)) (apart, refl)
        | inr again ↦
            let (_, h3) =
              if-eq-ok (is_damaged records.device_id saved saved.body) _ _ (rw again at h2) in
            subst (IsClaimed records) (second h3) (apart, refl)
      ]

  claim_or_replay-IsClaimed :
      (saved : Option Claim) (stamp : Stamp) (records after_it : Records) (answer : Claimed)
      → IsApart records
      → claim_or_replay saved shared caller stamp records ≡ ok (answer, after_it)
      → IsClaimed records after_it
  claim_or_replay-IsClaimed (some saved) stamp records after_it answer apart h =
      replay_saved-IsClaimed saved records after_it answer apart h
  claim_or_replay-IsClaimed none stamp records after_it answer apart h =
      claim_new-IsClaimed stamp records after_it answer apart h

  -- Claiming a batch keeps the operations of the saved claim apart from those that were certainly
  -- never sent, and leaves the queues as they are, whatever the shared core plans.
  pub claim_workspace_batch-IsClaimed :
      (stamp : Stamp) (records after_it : Records) (answer : Claimed)
      → IsApart records
      → claim_workspace_batch shared caller stamp records ≡ ok (answer, after_it)
      → IsClaimed records after_it
  unfolding claim_workspace_batch
  claim_workspace_batch-IsClaimed stamp records after_it answer apart h =
      let (_, context, h1) = bind-eq-ok (assert_workspace_context caller records) _ h in
      let (_, shown, h2) = bind-eq-ok (shared.display_context records caller.device_id) _ h1 in
      claim_or_replay-IsClaimed records.outgoing_sync stamp records after_it answer apart h2

  discard_saved-IsClaimed :
      (saved : Option Claim) (stamp : Stamp) (records after_it : Records) (answer : Claimed)
      → discard_saved saved shared caller stamp records ≡ ok (answer, after_it)
      → (IsClaimed records after_it)
        × ((claim : Claim) × (saved ≡ some claim)
            × (claim.body ≡ none)
            × (is_foreign claim caller ≡ false))
  unfolding IsApart
  discard_saved-IsClaimed none stamp records after_it answer h = cc
  discard_saved-IsClaimed (some saved) stamp records after_it answer h =
      let (bodiless, h1) = if-eq-ok (is_held saved.body) _ _ h in
      let (own, h2) = if-eq-ok (is_foreign saved caller) canonical_changed _ h1 in
      (
        claim_new-IsClaimed stamp (record records { outgoing_sync = none }) after_it answer
            (λ claim e. absurd (some-ne-none (sym e))) h2,
        (saved, refl, is_held-eq-false saved.body bodiless, own),
      )

  -- A saved claim is discarded only if the user has confirmed it, if it is not another account's
  -- and if its request is lost: a claim that still has its request is never discarded. The queues
  -- stay as they are, and the operations of the claim that takes its place, if there is one, are
  -- apart from those that were certainly never sent.
  pub discard_unrecoverable_saved_claim_lem :
      (stamp : Stamp) (confirmed : Value) (records after_it : Records) (answer : Claimed)
      → discard_unrecoverable_saved_claim shared caller stamp confirmed records
        ≡ ok (answer, after_it)
      → (is_true confirmed ≡ true)
        × (IsClaimed records after_it
            × ((claim : Claim) × (records.outgoing_sync ≡ some claim)
                × (claim.body ≡ none)
                × (is_foreign claim caller ≡ false)))
  unfolding discard_unrecoverable_saved_claim
  discard_unrecoverable_saved_claim_lem stamp confirmed records after_it answer h =
      let (_, context, h1) = bind-eq-ok (assert_workspace_context caller records) _ h in
      let (_, shown, h2) = bind-eq-ok (shared.display_context records caller.device_id) _ h1 in
      let (asked, h3) = if-eq-ok (not (is_true confirmed)) _ _ h2 in
      (ground arith, discard_saved-IsClaimed records.outgoing_sync stamp records after_it answer h3)
