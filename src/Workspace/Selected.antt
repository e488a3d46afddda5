-- ===== src/Workspace/Selected.antt =====
-- The records that a plan selects.
use mathlib.Core.Path.{refl, ◌≡◌}
use pomodorough_server.Js.Result.{bind-eq-ok, ok, ◌>>=◌}
use pomodorough_server.Js.Value.{Value}
use pomodorough_server.Prelude.{
  All, Bool, List, Option, String, [], ap, eq_iff, false, if◌then◌else◌, none, some, str_eq, subst,
  sym, true, ◌∙◌, ◌∷◌,
}
use pomodorough_server.Queue.{Domain, Operation, Queues, at, ids}
use pomodorough_server.Sync.Request.{encode_selected_batch}
use pomodorough_server.Sync.Request.Encoding.{encode_selected_batch_lem}
use pomodorough_server.Workspace.{or_earlier, pick, record_of, retained, selected_records}

-- The picked records have the identifiers of the plan, in order, and are the queue's own.
pub record IsPicked (ops : List Operation) (selected : List String) (picked : List Operation)
    : Type 0 where
  pub same_ids : ids picked ≡ selected
  pub queued : All (λ op. record_of op.id ops ≡ some op) picked

only-id :
    (b : Bool) (x op : Operation) (id : String)
    → (b ≡ true → x.id ≡ id)
    → (if b then some x else none) ≡ some op
    → op.id ≡ id
only-id true x op id h e = let same : x ≡ op = cc in subst (λ o. o.id ≡ id) same (h refl)
only-id false x op id h e = cc

or_earlier-id :
    (later : Option Operation) (x op : Operation) (id : String)
    → (later ≡ some op → op.id ≡ id)
    → or_earlier later (if str_eq x.id id then some x else none) ≡ some op
    → op.id ≡ id
or_earlier-id (some y) x op id h e = h e
or_earlier-id none x op id h e =
    only-id (str_eq x.id id) x op id (λ same. (eq_iff x.id id).0 same) e

record_of-id :
    (id : String) (ops : List Operation) (op : Operation) → record_of id ops ≡ some op → op.id ≡ id
unfolding record_of
record_of-id id [] op h = cc
record_of-id id (x ∷ xs) op h = or_earlier-id (record_of id xs) x op id (record_of-id id xs op) h

retained-eq-ok : (o : Option Operation) (op : Operation) → retained o ≡ ok op → o ≡ some op
retained-eq-ok none op h = cc
retained-eq-ok (some x) op h = cc

pick-IsPicked :
    (ops : List Operation) (selected : List String) (picked : List Operation)
    → pick ops selected ≡ ok picked
    → IsPicked ops selected picked
unfolding pick
pick-IsPicked ops [] picked h =
    let same : [] ≡ picked = cc in
    subst (IsPicked ops []) same (record { same_ids = refl; queued = tt })
pick-IsPicked ops (id ∷ rest) picked h =
    let (op, found, h1) =
      bind-eq-ok (retained (record_of id ops)) (λ op. pick ops rest >>= λ more. ok (op ∷ more)) h in
    let (more, picked_rest, made) = bind-eq-ok (pick ops rest) (λ more. ok (op ∷ more)) h1 in
    let is_op = retained-eq-ok (record_of id ops) op found in
    let same = record_of-id id ops op is_op in
    let later = pick-IsPicked ops rest more picked_rest in
    let all_same : op ∷ more ≡ picked = cc in
    subst (IsPicked ops (id ∷ rest)) all_same (record {
      same_ids = rw (same, later.same_ids) refl;
      queued = (subst (λ s. record_of s ops ≡ some op) (sym same) is_op, later.queued);
    })

queues_eq : (a b : Queues (List Operation)) → ok a ≡ ok b → a ≡ b
queues_eq a b h = cc

selected_records-eq-ok :
    (selected : Queues (List String)) (queues records : Queues (List Operation))
    → selected_records selected queues ≡ ok records
    → (pick queues.commands selected.commands ≡ ok records.commands)
      × (pick queues.task_operations selected.task_operations ≡ ok records.task_operations)
      × (pick queues.duration_operations selected.duration_operations
          ≡ ok records.duration_operations)
      × (pick queues.auto_start_operations selected.auto_start_operations
          ≡ ok records.auto_start_operations)
      × (pick queues.selected_task_operations selected.selected_task_operations
          ≡ ok records.selected_task_operations)
unfolding selected_records
selected_records-eq-ok selected queues records h =
    let (a, pa, ha) = bind-eq-ok (pick queues.commands selected.commands) _ h in
    let (b, pb, hb) = bind-eq-ok (pick queues.task_operations selected.task_operations) _ ha in
    let (c, pc, hc) =
      bind-eq-ok (pick queues.duration_operations selected.duration_operations) _ hb in
    let (d, pd, hd) =
      bind-eq-ok (pick queues.auto_start_operations selected.auto_start_operations) _ hc in
    let (e, pe, he) =
      bind-eq-ok (pick queues.selected_task_operations selected.selected_task_operations) _ hd in
    let same = queues_eq _ records he in
    (
      pa ∙ ap (λ q. ok q.commands) same,
      pb ∙ ap (λ q. ok q.task_operations) same,
      pc ∙ ap (λ q. ok q.duration_operations) same,
      pd ∙ ap (λ q. ok q.auto_start_operations) same,
      pe ∙ ap (λ q. ok q.selected_task_operations) same,
    )

pick_of-IsPicked :
    (d : Domain) (selected : Queues (List String)) (queues records : Queues (List Operation))
    → pick queues.commands selected.commands ≡ ok records.commands
    → pick queues.task_operations selected.task_operations ≡ ok records.task_operations
    → pick queues.duration_operations selected.duration_operations ≡ ok records.duration_operations
    → pick queues.auto_start_operations selected.auto_start_operations
      ≡ ok records.auto_start_operations
    → pick queues.selected_task_operations selected.selected_task_operations
      ≡ ok records.selected_task_operations
    → IsPicked (at d queues) (at d selected) (at d records)
pick_of-IsPicked Domain.timer s q r a b c e f = pick-IsPicked q.commands s.commands r.commands a
pick_of-IsPicked Domain.task s q r a b c e f =
    pick-IsPicked q.task_operations s.task_operations r.task_operations b
pick_of-IsPicked Domain.duration s q r a b c e f =
    pick-IsPicked q.duration_operations s.duration_operations r.duration_operations c
pick_of-IsPicked Domain.auto_start s q r a b c e f =
    pick-IsPicked q.auto_start_operations s.auto_start_operations r.auto_start_operations e
pick_of-IsPicked Domain.selected_task s q r a b c e f =
    pick-IsPicked q.selected_task_operations s.selected_task_operations r.selected_task_operations f

at-IsPicked :
    (selected : Queues (List String)) (queues records : Queues (List Operation))
    → selected_records selected queues ≡ ok records
    → (d : Domain) → IsPicked (at d queues) (at d selected) (at d records)
at-IsPicked selected queues records h d =
    let (a, b, c, e, f) = selected_records-eq-ok selected queues records h in
    pick_of-IsPicked d selected queues records a b c e f

-- The records of a plan are, in every queue, those that the plan names, in its order, each the
-- record that the queue holds under that name; and their request forms have the plan's names too.
pub selected_records_lem :
    (coerce : Value → Value) (selected : Queues (List String))
    (queues records : Queues (List Operation))
    → selected_records selected queues ≡ ok records
    → (d : Domain)
    → IsPicked (at d queues) (at d selected) (at d records)
      × (ids (at d (encode_selected_batch coerce records)) ≡ at d selected)
selected_records_lem coerce selected queues records h d =
    let picked = at-IsPicked selected queues records h d in
    (picked, (encode_selected_batch_lem coerce records).1 d ∙ picked.same_ids)
