-- ===== src/Storage/Capture/Exact.antt =====
-- A response releases the saved claim only if it answers exactly that claim.
use mathlib.Core.Path.{refl, ◌≡◌}
use native.Mathlib.Omega.{arith}
use pomodorough_server.Js.Equal.{beq}
use pomodorough_server.Js.Json.{json_of}
use pomodorough_server.Js.Result.{Result, bind-eq-ok, if-eq-ok, ok, ok-injective}
use pomodorough_server.Js.Value.{
  Value, get, is_nullish, is_object, null, obj, or_falsy, strict_eq, truthy,
}
use pomodorough_server.Prelude.{
  Bool-cases, ap, false, false≢true, inl, inr, not, not-eq-false, sym, true, ◌∙◌,
}
use pomodorough_server.Storage.Capture.{
  ClaimUse, Reconciled, capture_sync_claim, inexact_claim, is_inexact, is_other_request,
  response_claim_plan,
}
use pomodorough_server.Storage.Capture.Whole.{
  IsRequestOf, IsWhole, is_inexact-IsWhole, is_other_request-IsRequestOf,
}
use pomodorough_server.Storage.Records.{canonical_changed}
use pomodorough_server.Uuid.Reserve.{parsed}
use pomodorough_server.Workspace.Canonical.{records_equal}

-- The response answers the saved claim: the captured claim is whole, its request names this device
-- and the operations that were sent, and there is a saved claim, which is the same record.
pub record IsAnswer (parse : Value → Result Value) (stored claim owner_id : Value)
    (reconciled : Reconciled) : Type 0 where
  pub whole : IsWhole claim reconciled.sent owner_id
  pub request :
      (body : Value) × (parse (get "body" claim) ≡ ok body)
      × IsRequestOf body reconciled.device_id reconciled.sent
  pub is_there : truthy stored ≡ true
  pub same : records_equal stored (json_of claim) ≡ true

-- What a captured claim is known to be.
abbrev IsCaptured : (Value → Result Value) → Value → Value → Value → Value → Value → Type 0
IsCaptured parse claim sent owner_id device_id captured =
    (captured ≡ json_of claim)
    × IsWhole claim sent owner_id
    × ((body : Value) × (parse (get "body" claim) ≡ ok body) × IsRequestOf body device_id sent)

capture_sync_claim-IsCaptured :
    (parse : Value → Result Value) (claim sent owner_id device_id captured : Value)
    → capture_sync_claim parse claim sent owner_id device_id ≡ ok captured
    → IsCaptured parse claim sent owner_id device_id captured
unfolding capture_sync_claim
capture_sync_claim-IsCaptured parse claim sent owner_id device_id captured h =
    let (exact, h1) = if-eq-ok (is_inexact claim sent) inexact_claim _ h in
    let (own, h2) =
      if-eq-ok (not (strict_eq (get "ownerId" claim) owner_id)) canonical_changed _ h1 in
    let (body, parsed, h3) = bind-eq-ok (parse (get "body" claim)) _ h2 in
    let (same, h4) = if-eq-ok (is_other_request body device_id sent) _ _ h3 in
    (
      sym (ok-injective h4),
      is_inexact-IsWhole claim sent owner_id exact
          (not-eq-false (strict_eq (get "ownerId" claim) owner_id) own),
      (body, parsed, is_other_request-IsRequestOf body device_id sent same),
    )

-- null is no object
null-records_equal :
    (claim : Value) → is_object claim ≡ true → records_equal null (json_of claim) ≡ false
unfolding records_equal beq
null-records_equal (obj ps) h = refl
null-records_equal _ h = cc

saved_there :
    (stored claim : Value)
    → is_object claim ≡ true
    → records_equal (or_falsy stored null) (json_of claim) ≡ true
    → (truthy stored ≡ true) × (records_equal stored (json_of claim) ≡ true)
saved_there stored claim object h = elim (Bool-cases (truthy stored)) [
  | inl there ↦ (there, rw there at h)
  | inr missing ↦
      let other : records_equal null (json_of claim) ≡ true = rw missing at h in
      absurd (false≢true (sym (null-records_equal claim object) ∙ other))
]

null_is_falsy :
    (stored : Value) → not (truthy (or_falsy stored null)) ≡ true → truthy stored ≡ false
null_is_falsy stored h = elim (Bool-cases (truthy stored)) [
  | inl there ↦ absurd (ground (arith, h, there))
  | inr missing ↦ missing
]

with_capture :
    (parse : Value → Result Value) (stored claim owner : Value) (reconciled : Reconciled)
    (use_of : ClaimUse)
    → is_nullish claim ≡ false
    → response_claim_plan parse stored claim owner reconciled ≡ ok use_of
    → (use_of.applicable ≡ use_of.clear_claim)
      × (use_of.clear_claim ≡ true → IsAnswer parse stored claim owner reconciled)
unfolding response_claim_plan
with_capture parse stored claim owner reconciled use_of present h =
    let (captured, e, h1) =
      bind-eq-ok (capture_sync_claim parse claim reconciled.sent owner reconciled.device_id) _
        (rw present at h) in
    let (copied, whole, request) =
      capture_sync_claim-IsCaptured parse claim reconciled.sent owner reconciled.device_id captured
        e in
    let plan = ok-injective h1 in
    let clears : use_of.clear_claim ≡ records_equal (or_falsy stored null) (json_of claim) =
      sym (ap (λ u. u.clear_claim) plan)
      ∙ ap (λ v. records_equal (or_falsy stored null) v) copied in
    (
      sym (ap (λ u. u.applicable) plan) ∙ ap (λ u. u.clear_claim) plan,
      λ cleared.
          let (there, same) = saved_there stored claim whole.object (sym clears ∙ cleared) in
          record { whole = whole; request = request; is_there = there; same = same },
    )

without_capture :
    (parse : Value → Result Value) (stored claim owner : Value) (reconciled : Reconciled)
    (use_of : ClaimUse)
    → is_nullish claim ≡ true
    → response_claim_plan parse stored claim owner reconciled ≡ ok use_of
    → (use_of.clear_claim ≡ false) × (use_of.applicable ≡ true → truthy stored ≡ false)
unfolding response_claim_plan
without_capture parse stored claim owner reconciled use_of missing h =
    let plan = ok-injective (rw missing at h) in
    (
      sym (ap (λ u. u.clear_claim) plan),
      λ applied. null_is_falsy stored (ap (λ u. u.applicable) plan ∙ applied),
    )

-- A response clears the saved claim only when it answers it: it is applied too, the captured claim
-- is whole, of this account and of the operations that were sent, its request names this device and
-- holds those operations in every queue, and the saved claim is the same record. A response that is
-- applied and clears nothing comes without a captured claim, while no claim is saved.
pub response_claim_plan_lem :
    (parse : Value → Result Value) (stored claim owner : Value) (reconciled : Reconciled)
    (use_of : ClaimUse)
    → response_claim_plan parse stored claim owner reconciled ≡ ok use_of
    → (use_of.clear_claim ≡ true
        → (use_of.applicable ≡ true) × IsAnswer parse stored claim owner reconciled)
      × (use_of.clear_claim ≡ false
          → use_of.applicable ≡ true
          → (is_nullish claim ≡ true) × (truthy stored ≡ false))
response_claim_plan_lem parse stored claim owner reconciled use_of h =
    elim (Bool-cases (is_nullish claim)) [
      | inl missing ↦
          let (keeps, applies) =
            without_capture parse stored claim owner reconciled use_of missing h in
          (λ c. absurd (false≢true (sym keeps ∙ c)), λ c applied. (missing, applies applied))
      | inr present ↦
          let (same, answers) = with_capture parse stored claim owner reconciled use_of present h in
          (
            λ c. (same ∙ c, answers c),
            λ c applied. absurd (false≢true (sym c ∙ sym same ∙ applied)),
          )
    ]
