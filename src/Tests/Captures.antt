-- ===== src/Tests/Captures.antt =====
-- The claim that a response answers at concrete inputs.
use mathlib.Core.Path.{refl, ◌≡◌}
use pomodorough_server.Js.Result.{ok}
use pomodorough_server.Js.Value.{
  Props, Value, arr, end, int, is_nullish, nil, obj, prop, str, truthy,
}
use pomodorough_server.Prelude.{false, true}
use pomodorough_server.Prelude.Int.{pos}
use pomodorough_server.Storage.Capture.{ClaimUse, Reconciled, is_inexact, response_claim_plan}
use pomodorough_server.Storage.Capture.Exact.{IsAnswer, response_claim_plan_lem}
use pomodorough_server.Sync.DateTime.{date_reader}
use pomodorough_server.Workspace.Canonical.{records_equal}

abbrev no_queues : Props
no_queues = prop "commands" (arr nil) (
    prop "taskOperations" (arr nil) (
      prop "durationOperations" (arr nil)
        (prop "autoStartOperations" (arr nil) (prop "selectedTaskOperations" (arr nil) end))))

abbrev body : Value
body = obj (prop "deviceId" (str "d") (prop "lastRevision" (int (pos 4)) no_queues))

abbrev claim : Value
claim = obj (
    prop "claimId" (str "c") (
      prop "sent" (obj no_queues) (
        prop "ownerId" (str "u")
          (prop "retiredAt" (str "2026-01-01T00:00:00Z") (prop "body" (str "{}") end)))))

abbrev reconciled : Reconciled
reconciled = record { sent = obj no_queues; device_id = str "d" }

abbrev used : ClaimUse
used = record { applicable = true; clear_claim = true }

answered_claim : response_claim_plan (λ v. ok body) claim claim (str "u") reconciled ≡ ok used
unfolding response_claim_plan records_equal date_reader is_inexact
answered_claim = refl

response_claim_plan_lem_example :
    (true ≡ true → (true ≡ true) × IsAnswer (λ v. ok body) claim claim (str "u") reconciled)
    × (true ≡ false → true ≡ true → (is_nullish claim ≡ true) × (truthy claim ≡ false))
response_claim_plan_lem_example =
    response_claim_plan_lem (λ v. ok body) claim claim (str "u") reconciled used answered_claim
