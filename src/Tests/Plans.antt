-- ===== src/Tests/Plans.antt =====
-- Writing a plan at concrete inputs.
use mathlib.Core.Path.{refl, ◌≡◌}
use pomodorough_server.Js.Result.{Result, err, ok}
use pomodorough_server.Js.Value.{arr, cons, end, nil, null, obj, prop, str, undefined}
use pomodorough_server.Prelude.{
  Option, String, [], false, member, none, not, str_eq, true, ◌&&◌, ◌||◌, ◌∷◌,
}
use pomodorough_server.Queue.{Domain, Operation, as_value, at, ids, no_operations, same_domain}
use pomodorough_server.Storage.Database.{Database, add_item}
use pomodorough_server.Workspace.{record_of}
use pomodorough_server.Workspace.Transaction.{
  Lease, WorkspacePlan, WrittenPlan, planned_operations, write_plan,
}
use pomodorough_server.Workspace.Transaction.Queued.{write_plan_lem}

abbrev operation : String → Operation
operation name = record { id = name; props = prop "deviceId" (str "d") end }

abbrev plan : WorkspacePlan
plan = record {
  outcome = "planned";
  durable_operations = none;
  durable_commands = none;
  commands = operation "c2" ∷ [];
  retired_duration_operation_ids = "d1" ∷ [];
  selection = obj (prop "phase" (str "focus") end);
  lifecycle = none;
  allocation = obj end;
  workspace = obj (
      prop "displayContext"
        (obj (
          prop "projectionPending"
            (obj (prop "commands" (arr (cons (as_value (operation "c2")) nil)) end)) end))
        end);
  observation = null;
  history = arr nil;
  completion_records = undefined;
  atomic_command_ids = arr nil;
  atomic_operation_ids = undefined;
  command_outcomes = undefined;
  group_outcomes = undefined;
  ownership_writes = obj (prop "kind" (str "removeTimerOwner") end) ∷ [];
}

abbrev lease : Lease
lease = record { tab_id = str "t"; now_ms = 5; duration_ms = 10 }

abbrev before : Database
before = record {
  meta = prop "timerOwner" (str "o") end;
  queues = record no_operations {
    commands = operation "c1" ∷ [];
    duration_operations = operation "d1" ∷ operation "d2" ∷ [];
  };
}

abbrev of_result : Result (Option WrittenPlan × Database) → Option WrittenPlan × Database
of_result (ok done) = done
of_result (err e) = (none, before)

abbrev after_it : Option WrittenPlan × Database
after_it = of_result (write_plan plan lease before)

written : write_plan plan lease before ≡ ok after_it
unfolding write_plan add_item record_of
written = refl

write_plan_lem_example :
    (str_eq "planned" "noop" ≡ true → after_it.1 ≡ before)
    × (str_eq "planned" "noop" ≡ false
        → (d : Domain) (id : String)
        → member id (ids (at d after_it.1.queues)) ≡ (
            (member id (ids (at d (planned_operations plan)))
              || member id (ids (at d before.queues)))
            && not (same_domain d Domain.duration && member id ("d1" ∷ []))))
write_plan_lem_example = write_plan_lem plan lease before after_it.1 after_it.0 written
