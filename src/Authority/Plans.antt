-- ===== src/Authority/Plans.antt =====
-- What an accepted plan of a completion may say.
use mathlib.Core.Path.{◌≡◌}
use native.Mathlib.Omega.{arith}
use pomodorough_server.Authority.{
  completion_plan, flag, has_flags, no_phase, projection_has_exact_source, selected_projection,
  source_accepted, valid_completion_relationships, valid_generated_break, validate_completion_plan,
}
use pomodorough_server.Js.Result.{Result, bind-eq-ok, ok}
use pomodorough_server.Js.Value.{
  Value, arr, bool, float, get, int, is_text, nan, null, obj, str, strict_eq, undefined,
}
use pomodorough_server.Prelude.{Bool, String, ap, eq_iff, false, not, subst, sym, true, ◌&&◌, ◌∙◌}
use pomodorough_server.Sync.Acks.{checked}

plan-eq-ok :
    (value input plan : Value)
    → validate_completion_plan value input ≡ ok plan
    → (plan ≡ value)
      × (has_flags value ≡ true)
      × (valid_completion_relationships value input ≡ true)
unfolding validate_completion_plan
plan-eq-ok value input plan h = ground (arith, h)

-- a text that passed its test
is_text-str : (s : String) (v : Value) → is_text s v ≡ true → v ≡ str s
is_text-str s (str t) h = ap str ((eq_iff t s).0 h)
is_text-str s undefined h = cc
is_text-str s null h = cc
is_text-str s (bool b) h = cc
is_text-str s (int i) h = cc
is_text-str s (float n) h = cc
is_text-str s nan h = cc
is_text-str s (arr vs) h = cc
is_text-str s (obj ps) h = cc

strict_eq-bool : (v : Value) (b : Bool) → strict_eq v (bool b) ≡ true → v ≡ bool b
strict_eq-bool v b h = ground (arith, h)

relationships-guards :
    (value input : Value)
    → valid_completion_relationships value input ≡ true
    → (flag "reserveGeneratedBreak" value ≡ true → flag "commandEligible" value ≡ true)
      × (flag "queueAutoBreak" value ≡ true → no_phase "selectedPhase" value ≡ false)
unfolding valid_completion_relationships
relationships-guards value input h =
    (λ reserves. ground (arith, h, reserves), λ queues. ground (arith, h, queues))

relationships-generated :
    (value input : Value)
    → valid_completion_relationships value input ≡ true
    → get "kind" input ≡ str "generatedBreak"
    → valid_generated_break value input ≡ true
unfolding valid_completion_relationships
relationships-generated value input h k = ground (arith, h, k)

last_three : (x a b c : Bool) → (x && a && b && c) ≡ true → (b ≡ true) × (a ≡ true)
last_three x a b c h = ground arith

generated-equations :
    (value input : Value)
    → valid_generated_break value input ≡ true
    → (strict_eq
          (get "generatedBreakEligible" value)
          (bool (projection_has_exact_source (selected_projection input) (get "source" input)))
        ≡ true)
      × (strict_eq
            (get "generatedBreakEligible" value)
            (bool (not (no_phase "generatedBreakPhase" value)))
          ≡ true)
unfolding valid_generated_break
generated-equations value input h =
    last_three
      (not (flag "expired" value)
        && not (flag "commandEligible" value)
        && not (flag "reserveGeneratedBreak" value)
        && no_phase "selectedPhase" value
        && not (flag "queueAutoBreak" value))
      (strict_eq (get "generatedBreakEligible" value)
        (bool (not (no_phase "generatedBreakPhase" value))))
      (strict_eq (get "generatedBreakEligible" value)
        (bool (projection_has_exact_source (selected_projection input) (get "source" input))))
      (strict_eq (get "sourceAlreadyAccepted" value) (bool (source_accepted input))) h

-- An accepted plan is the one that the shared core gave. It reserves a break only with a command,
-- and queues a break only with a selected phase; and the plan of a generated break is eligible
-- exactly when the projection that the input selects holds the completed source, which is also
-- exactly when it names the phase of the break.
pub completion_plan_lem :
    (core : Value → Result Value) (input plan : Value)
    → completion_plan core input ≡ ok plan
    → (core input ≡ ok plan)
      × (flag "reserveGeneratedBreak" plan ≡ true → flag "commandEligible" plan ≡ true)
      × (flag "queueAutoBreak" plan ≡ true → no_phase "selectedPhase" plan ≡ false)
      × (is_text "generatedBreak" (get "kind" input) ≡ true
          → (get "generatedBreakEligible" plan
              ≡ bool (projection_has_exact_source (selected_projection input) (get "source" input)))
            × (get "generatedBreakEligible" plan
                ≡ bool (not (no_phase "generatedBreakPhase" plan))))
unfolding completion_plan
completion_plan_lem core input plan h =
    let (value, given, checked) =
      bind-eq-ok (core input) (λ value. validate_completion_plan value input) h in
    let (same, flags, valid) = plan-eq-ok value input plan checked in
    let valid_plan = subst (λ v. valid_completion_relationships v input ≡ true) (sym same) valid in
    let (reserves, queues) = relationships-guards plan input valid_plan in
    (
      given ∙ ap ok (sym same),
      reserves,
      queues,
      λ kind.
          let (by_source, by_phase) = generated-equations plan input (
            relationships-generated plan input valid_plan
              (is_text-str "generatedBreak" (get "kind" input) kind)) in
          (
            strict_eq-bool (get "generatedBreakEligible" plan) _ by_source,
            strict_eq-bool (get "generatedBreakEligible" plan) _ by_phase,
          ),
    )
