-- ===== src/Tests/Authorities.antt =====
-- Answers of the shared core at concrete inputs.
use mathlib.Core.Path.{refl, ◌≡◌}
use native.Mathlib.Omega.{arith}
use pomodorough_server.Authority.{
  allocate_hlc_batch, completion_plan, projection_has_exact_source, valid_completion_relationships,
  valid_generated_break, valid_phase, validate_completion_plan,
}
use pomodorough_server.Authority.Batches.{Counts, allocate_hlc_batch_lem, clock}
use pomodorough_server.Authority.Plans.{completion_plan_lem}
use pomodorough_server.Js.Result.{Result, ok}
use pomodorough_server.Js.Text.{sort_texts}
use pomodorough_server.Js.Value.{Value, arr, bool, cons, end, get, int, nil, null, obj, prop, str}
use pomodorough_server.Prelude.{false, if◌then◌else◌, leb, le→leb, true, ℕ, ◌+◌}
use pomodorough_server.Prelude.Int.{pos}
use pomodorough_server.Sync.Clock.{natural}

-- a clock that counts on while it is not behind the physical time, and else takes it
abbrev counting : Value → Result Value
counting v =
    let wall = natural (get "wallMs" (get "local" v)) in
    let now = natural (get "physicalNowMs" v) in
    if leb now wall
    then ok (clock wall (natural (get "counter" (get "local" v)) + 1))
    else ok (clock now 0)

counting-Counts : (now : ℕ) → Counts counting now
counting-Counts now w c h k = rw (le→leb now w h) refl

allocate_hlc_batch_lem_example :
    allocate_hlc_batch counting (clock 3 7) (int (pos 10)) (int (pos 3))
    ≡ ok (record { wall_ms = int (pos 10); first_counter = int (pos 0); counter = int (pos 2) })
allocate_hlc_batch_lem_example =
    allocate_hlc_batch_lem counting (clock 3 7) 10 10 0 2 (counting-Counts 10) refl (omega arith)
      (omega arith) (omega arith) (omega arith)

abbrev focus_source : Value
focus_source = obj (prop "timerId" (str "m1") (prop "commandId" (str "c9") end))

abbrev finished : Value
finished = obj (
    prop "canonicalTimer"
      (obj
        (prop "id" (str "m1") (prop "phase" (str "focus") (prop "status" (str "completed") end))))
      (prop "history"
        (arr (
          cons
            (obj (
              prop "timerId" (str "m1") (
                prop "commandId" (str "c9")
                  (prop "phase" (str "focus") (prop "status" (str "completed") end)))))
            nil))
        end))

abbrev break_input : Value
break_input = obj (
    prop "kind" (str "generatedBreak") (
      prop "source" focus_source (
        prop "sourceFinishPending" (bool true)
          (prop "canonical" null (prop "optimistic" finished end)))))

abbrev break_plan : Value
break_plan = obj (
    prop "expired" (bool false) (
      prop "commandEligible" (bool false) (
        prop "reserveGeneratedBreak" (bool false) (
          prop "queueAutoBreak" (bool false) (
            prop "generatedBreakEligible" (bool true) (
              prop "sourceAlreadyAccepted" (bool false) (
                prop "selectedPhase" null
                  (prop "generatedBreakPhase" (str "short_break") end))))))))

break_planned : completion_plan (λ v. ok break_plan) break_input ≡ ok break_plan
unfolding completion_plan validate_completion_plan valid_phase valid_completion_relationships
    valid_generated_break projection_has_exact_source sort_texts
break_planned = refl

completion_plan_lem_example :
    (◌≡◌ {A = Result Value} (ok break_plan) (ok break_plan))
    × (false ≡ true → false ≡ true)
    × (false ≡ true → true ≡ false)
    × (true ≡ true
        → (bool true ≡ bool (projection_has_exact_source finished focus_source))
          × (bool true ≡ bool true))
unfolding projection_has_exact_source
completion_plan_lem_example =
    completion_plan_lem (λ v. ok break_plan) break_input break_plan break_planned
