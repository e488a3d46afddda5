-- ===== src/Workspace/Transaction/Queued.antt =====
-- What a written plan leaves in the queues.
use mathlib.Core.Path.{◌≡◌}
use native.Mathlib.Omega.{arith}
use pomodorough_server.Js.Result.{bind-eq-ok, if-eq-ok, ok, ok-injective, second}
use pomodorough_server.Js.Value.{get}
use pomodorough_server.Prelude.{
  List, Option, String, ap, false, member, not, str_eq, subst, sym, true, ◌&&◌, ◌||◌, ◌∙◌,
}
use pomodorough_server.Queue.{Domain, Operation, Queues, at, ids, same_domain}
use pomodorough_server.Storage.Database.{
  Database, add_items, delete_items, member-add_items, member-delete_items,
}
use pomodorough_server.Workspace.Transaction.{
  Lease, WorkspacePlan, WrittenPlan, joined, persisted_projection, planned_operations,
  write_operations, write_ownership, write_plan, write_planned,
}

module _ (new : Queues (List Operation)) (retired : List String)
    (queues : Queues (List Operation)) where
  -- in the queue of a domain: what is new or was there, without the retired durations
  abbrev IsWritten : Queues (List Operation) → Domain → String → Type 0
  IsWritten q d id = member id (ids (at d q)) ≡ (
      (member id (ids (at d new)) || member id (ids (at d queues)))
      && not (same_domain d Domain.duration && member id retired))

  added-IsWritten :
      (commands tasks durations auto_starts selected_tasks : List Operation)
      → add_items new.commands queues.commands ≡ ok commands
      → add_items new.task_operations queues.task_operations ≡ ok tasks
      → add_items new.duration_operations queues.duration_operations ≡ ok durations
      → add_items new.auto_start_operations queues.auto_start_operations ≡ ok auto_starts
      → add_items new.selected_task_operations queues.selected_task_operations ≡ ok selected_tasks
      → (d : Domain) (id : String)
      → IsWritten
          (record {
            commands = commands;
            task_operations = tasks;
            duration_operations = delete_items retired durations;
            auto_start_operations = auto_starts;
            selected_task_operations = selected_tasks;
          })
          d
          id
  added-IsWritten c t du a s e1 e2 e3 e4 e5 Domain.timer id =
      rw (member-add_items id new.commands queues.commands c e1) (ground arith)
  added-IsWritten c t du a s e1 e2 e3 e4 e5 Domain.task id =
      rw (member-add_items id new.task_operations queues.task_operations t e2) (ground arith)
  added-IsWritten c t du a s e1 e2 e3 e4 e5 Domain.duration id =
      rw
        (
          member-delete_items id retired du,
          member-add_items id new.duration_operations queues.duration_operations du e3,
        )
        (ground arith)
  added-IsWritten c t du a s e1 e2 e3 e4 e5 Domain.auto_start id =
      rw (member-add_items id new.auto_start_operations queues.auto_start_operations a e4)
        (ground arith)
  added-IsWritten c t du a s e1 e2 e3 e4 e5 Domain.selected_task id =
      rw (member-add_items id new.selected_task_operations queues.selected_task_operations s e5)
        (ground arith)

  write_operations-IsWritten :
      (after_it : Queues (List Operation))
      → write_operations new retired queues ≡ ok after_it
      → (d : Domain) (id : String) → IsWritten after_it d id
  unfolding write_operations
  write_operations-IsWritten after_it h d id =
      let (c, e1, h1) = bind-eq-ok (add_items new.commands queues.commands) _ h in
      let (t, e2, h2) = bind-eq-ok (add_items new.task_operations queues.task_operations) _ h1 in
      let (du, e3, h3) =
        bind-eq-ok (add_items new.duration_operations queues.duration_operations) _ h2 in
      let (a, e4, h4) =
        bind-eq-ok (add_items new.auto_start_operations queues.auto_start_operations) _ h3 in
      let (s, e5, h5) =
        bind-eq-ok (add_items new.selected_task_operations queues.selected_task_operations) _ h4 in
      subst (λ q. IsWritten q d id) (ok-injective h5)
        (added-IsWritten c t du a s e1 e2 e3 e4 e5 d id)

-- Writing a plan that has nothing to do leaves the stores as they are. Writing any other adds
-- exactly the plan's operations to the queues and takes away exactly the retired durations: no other
-- operation that was queued is lost.
pub write_plan_lem :
    (plan : WorkspacePlan) (lease : Lease) (database after_it : Database)
    (answer : Option WrittenPlan)
    → write_plan plan lease database ≡ ok (answer, after_it)
    → (str_eq plan.outcome "noop" ≡ true → after_it ≡ database)
      × (str_eq plan.outcome "noop" ≡ false
          → (d : Domain) (id : String)
          → member id (ids (at d after_it.queues)) ≡ (
              (member id (ids (at d (planned_operations plan)))
                || member id (ids (at d database.queues)))
              && not
                  (same_domain d Domain.duration && member id plan.retired_duration_operation_ids)))
unfolding write_plan write_planned
write_plan_lem plan lease database after_it answer h = (
  λ idle. sym (second (rw idle at h)),
  λ busy d id.
      let (_, h1) = if-eq-ok (not (str_eq plan.outcome "planned")) _ _ (rw busy at h) in
      let ((told, stored), written, h2) = bind-eq-ok (write_planned plan lease database) _ h1 in
      let (queues, e1, h3) =
        bind-eq-ok
          (write_operations (planned_operations plan) plan.retired_duration_operation_ids
            database.queues)
          _ written in
      let (projection, e2, h4) =
        bind-eq-ok
          (persisted_projection (get "projectionPending" (get "displayContext" plan.workspace))
            (joined database.queues (planned_operations plan)))
          _ h3 in
      let (meta, e3, h5) = bind-eq-ok (write_ownership plan.ownership_writes lease _) _ h4 in
      let same : queues ≡ after_it.queues =
        ap (λ r. r.queues) (second h5) ∙ ap (λ r. r.queues) (second h2) in
      let ops = planned_operations plan in
      let gone = plan.retired_duration_operation_ids in
      subst (λ q. IsWritten ops gone database.queues q d id) same
        (write_operations-IsWritten ops gone database.queues queues e1 d id),
)
