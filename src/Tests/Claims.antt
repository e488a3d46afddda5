-- ===== src/Tests/Claims.antt =====
-- Claims of batches at concrete inputs.
use mathlib.Core.Path.{refl, ◌≡◌}
use pomodorough_server.Js.Result.{ok}
use pomodorough_server.Js.Value.{
  arr, bool, cons, end, int, is_true, nil, null, obj, prop, str, undefined,
}
use pomodorough_server.Prelude.{List, String, [], false, none, some, sym, true, ◌∷◌}
use pomodorough_server.Prelude.Int.{pos}
use pomodorough_server.Queue.{Domain, Operation, Queues, no_operations, tabulate}
use pomodorough_server.Storage.Claims.{
  Claimed, Stamp, claim_workspace_batch, claim_written, discard_unrecoverable_saved_claim,
  is_foreign, new_claim,
}
use pomodorough_server.Storage.Claims.Apart.{
  IsApart, IsClaimed, claim_workspace_batch-IsClaimed, discard_unrecoverable_saved_claim_lem,
  some-ne-none,
}
use pomodorough_server.Storage.Claims.Replay.{SentJson, claim_workspace_batch-again}
use pomodorough_server.Storage.Records.{BatchPlan, Caller, Claim, Core, Records}
use pomodorough_server.Sync.Request.{encode_selected_batch}
use pomodorough_server.Workspace.{batch_request, selected_records}

abbrev starts : Operation
starts = record {
  id = "a1";
  props = prop "enabled" (bool true) (
      prop "occurredAt" (str "2026-01-01T00:00:00Z")
        (prop "hlcWallMs" (int (pos 5)) (prop "hlcCounter" (int (pos 0)) end)));
}

abbrev names : Queues (List String)
names = record (tabulate (λ d. [])) { auto_start_operations = "a1" ∷ [] }

abbrev planned : BatchPlan
planned = record { status = "planned"; next_domain = str "taskOperations"; selected = names }

abbrev replayed : BatchPlan
replayed = record { status = "replay_saved"; next_domain = null; selected = names }

abbrev shared : Core
shared = record {
  batch_plan = λ request. ok planned;
  saved_plan = λ request. ok replayed;
  dependency_plan =
      λ records device owner. ok (record { blocked = false; writes = []; dependencies = arr nil });
  display_context = λ records device. ok tt;
  number = λ v. v;
}

abbrev caller : Caller
caller = record {
  device_id = str "d";
  owner_id = str "u";
  has_owner_id = true;
  expected_user_id = none;
  at_start = ok tt;
  at_migration = ok tt;
  at_end = ok tt;
}

abbrev store : Records
store = record {
  queues = record no_operations { auto_start_operations = starts ∷ [] };
  snapshot = obj (prop "user" (obj (prop "id" (str "u") end)) (prop "revision" (int (pos 4)) end));
  device_id = str "d";
  delivery_proof =
      obj (prop "autoStartOperations" (arr (cons (str "a1") (cons (str "a0") nil))) end);
  outgoing_sync = none;
  timer_dependencies = arr nil;
  batch_next_domain = null;
  bootstrap_gate = undefined;
  bootstrap_resolution = undefined;
}

abbrev stamp : Stamp
stamp = record { claim_id = "c"; retired_at = "2026-01-01T00:00:00.000Z" }

abbrev claim : Claim
claim =
    new_claim shared caller stamp store (int (pos 4))
      (record no_operations { auto_start_operations = starts ∷ [] })

abbrev after_it : Records
after_it = claim_written claim planned store

abbrev answer : Claimed
answer = record { plan = planned; claim = some claim; proof = after_it.delivery_proof }

claimed : claim_workspace_batch shared caller stamp store ≡ ok (answer, after_it)
unfolding claim_workspace_batch batch_request selected_records
claimed = refl

unclaimed : IsApart store
unfolding IsApart
unclaimed = λ c e. absurd (some-ne-none (sym e))

claim_workspace_batch-IsClaimed_example : IsClaimed shared caller store after_it
claim_workspace_batch-IsClaimed_example =
    claim_workspace_batch-IsClaimed shared caller stamp store after_it answer unclaimed claimed

sent_json : SentJson claim.sent
unfolding encode_selected_batch
sent_json Domain.timer = tt
sent_json Domain.task = tt
sent_json Domain.duration = tt
sent_json Domain.auto_start = ((tt, (tt, (tt, (tt, (tt, tt))))), tt)
sent_json Domain.selected_task = tt

claim_workspace_batch-again_example :
    claim_workspace_batch shared caller stamp after_it
    ≡ ok (record { plan = replayed; claim = some claim; proof = after_it.delivery_proof }, after_it)
claim_workspace_batch-again_example =
    claim_workspace_batch-again shared caller stamp stamp "u" "d" store after_it answer claim
      replayed refl refl refl claimed refl sent_json refl refl refl

abbrev lost : Records
lost = record store { outgoing_sync = some (record claim { body = none }) }

abbrev remade : Records
remade = claim_written claim planned (record lost { outgoing_sync = none })

discarded :
    discard_unrecoverable_saved_claim shared caller stamp (bool true) lost ≡ ok (answer, remade)
unfolding discard_unrecoverable_saved_claim batch_request selected_records
discarded = refl

discard_unrecoverable_saved_claim_lem_example :
    (is_true (bool true) ≡ true)
    × (IsClaimed shared caller lost remade
        × ((c : Claim) × (lost.outgoing_sync ≡ some c)
            × (c.body ≡ none)
            × (is_foreign c caller ≡ false)))
discard_unrecoverable_saved_claim_lem_example =
    discard_unrecoverable_saved_claim_lem shared caller stamp (bool true) lost remade answer
      discarded
