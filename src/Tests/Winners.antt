-- ===== src/Tests/Winners.antt =====
-- The winners of a projection at concrete inputs.
use mathlib.Core.Path.{refl, ◌≡◌}
use pomodorough_server.Js.Result.{ok}
use pomodorough_server.Js.Text.{sort_texts}
use pomodorough_server.Js.Value.{Value, end, null, obj, prop, str, is_object}
use pomodorough_server.Prelude.{All, List, [], true, ◌∷◌}
use pomodorough_server.Queue.{Operation, Queues, no_operations}
use pomodorough_server.Storage.Projection.{validate_operation_winners}
use pomodorough_server.Storage.Projection.Winners.{
  Entries, IsDefaultPhase, IsNullOrQueued, IsWinner, validate_operation_winners_lem,
}

abbrev rename : Operation
rename = record { id = "o1"; props = prop "taskId" (str "t1") end }

abbrev pending : Queues (List Operation)
pending = record no_operations { task_operations = rename ∷ [] }

abbrev winners : Value
winners = obj (
    prop "tasks" (obj (prop "t1" (str "o1") end))
      (prop "durations" (obj end) (prop "autoStart" null (prop "selectedTask" null end))))

winners_accepted : validate_operation_winners winners pending ≡ ok tt
unfolding validate_operation_winners sort_texts
winners_accepted = refl

validate_operation_winners_lem_example :
    (is_object (obj (prop "t1" (str "o1") end)) ≡ true)
    × (is_object (obj end) ≡ true)
    × Entries (IsWinner "taskId" (rename ∷ [])) (prop "t1" (str "o1") end)
    × Entries (IsWinner "phase" []) end
    × All IsDefaultPhase []
    × IsNullOrQueued [] null
    × IsNullOrQueued [] null
validate_operation_winners_lem_example =
    validate_operation_winners_lem winners pending winners_accepted
