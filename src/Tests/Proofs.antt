-- ===== src/Tests/Proofs.antt =====
-- Delivery proofs at concrete inputs.
use mathlib.Core.Path.{refl, ◌≡◌}
use pomodorough_server.Js.Value.{Value, arr, cons, end, nil, obj, prop, str}
use pomodorough_server.Prelude.{List, String, [], member, str_eq, ◌&&◌, ◌||◌, ◌∷◌}
use pomodorough_server.Queue.{Domain, Operation, Queues, at, no_operations, same_domain}
use pomodorough_server.Storage.Proof.{add_proof_id, never_sent_from_proof, sanitize_delivery_proof}
use pomodorough_server.Storage.Proof.Laws.{member-add_proof_id}

abbrev operation : String → Operation
operation id = record { id = id; props = end }

abbrev proof : Value
proof =
    obj (prop "taskOperations" (arr (cons (str "t1") (cons (str "t2") (cons (str "t1") nil)))) end)

abbrev local : Queues (List Operation)
local = record no_operations { task_operations = operation "t1" ∷ operation "t2" ∷ [] }

abbrev sent : Queues (List Operation)
sent = record no_operations { task_operations = operation "t2" ∷ [] }

never_sent_run : at Domain.task (never_sent_from_proof proof local sent) ≡ "t1" ∷ []
unfolding never_sent_from_proof sanitize_delivery_proof
never_sent_run = refl

member-add_proof_id_example :
    member "t3" (at Domain.task (add_proof_id proof Domain.task (str "t3"))) ≡ (
      member "t3" (at Domain.task (sanitize_delivery_proof proof))
      || (str_eq "t3" "t3" && same_domain Domain.task Domain.task))
member-add_proof_id_example = member-add_proof_id proof Domain.task Domain.task "t3" "t3" refl
