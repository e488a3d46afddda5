-- ===== src/Storage/Proof.antt =====
-- The delivery proof of web/sync-storage.js: for each queue the operations that were certainly
-- never sent, and `neverSentForQueues` of web/sync-core.js.
pub mod Laws
use pomodorough_server.Js.IdSet.{to_set}
use pomodorough_server.Js.Value.{Value, get, is_object, items, text_of}
use pomodorough_server.Prelude.{
  List, String, [], if◌then◌else◌, keep, member, none, not, some, str_eq, ◌&&◌, ◌++◌, ◌∷◌,
}
use pomodorough_server.Queue.{Domain, Operation, Queues, at, domain_name, ids, tabulate}

-- the texts among values that are not empty
abbrev pub full_texts : List Value → List String
full_texts [] = []
full_texts (v ∷ vs) =
    let rest = full_texts vs in
    elim (text_of v) [ some s ↦ if not (str_eq s "") then s ∷ rest else rest | none ↦ rest ]

unfoldable pub sanitize_queue : Value → List String
sanitize_queue v = to_set (full_texts (items v))

abbrev pub empty_delivery_proof : Queues (List String)
empty_delivery_proof = tabulate (λ d. [])

unfoldable pub sanitize_delivery_proof : Value → Queues (List String)
unfolding sanitize_queue
sanitize_delivery_proof proof =
    if not (is_object proof)
    then empty_delivery_proof
    else tabulate (λ d. sanitize_queue (get (domain_name d) proof))

-- the queue of one domain replaced
abbrev pub replace_queue {ℓ} : {A : Type ℓ} → Domain → A → Queues A → Queues A
replace_queue Domain.timer a q = record q { commands = a }
replace_queue Domain.task a q = record q { task_operations = a }
replace_queue Domain.duration a q = record q { duration_operations = a }
replace_queue Domain.auto_start a q = record q { auto_start_operations = a }
replace_queue Domain.selected_task a q = record q { selected_task_operations = a }

unfoldable pub add_proof_id : Value → Domain → Value → Queues (List String)
add_proof_id proof queue id =
    let clean = sanitize_delivery_proof proof in
    elim (text_of id) [
      | some s ↦
          if not (str_eq s "") && not (member s (at queue clean))
          then replace_queue queue (at queue clean ++ s ∷ []) clean
          else clean
      | none ↦ clean
    ]

unfoldable pub remove_proof_ids : Value → Queues (List Operation) → Queues (List String)
remove_proof_ids proof sent =
    let clean = sanitize_delivery_proof proof in
    tabulate (λ d. keep (λ id. not (member id (ids (at d sent)))) (at d clean))

unfoldable pub never_sent_from_proof :
    Value → Queues (List Operation) → Queues (List Operation) → Queues (List String)
never_sent_from_proof proof local sent =
    let clean = sanitize_delivery_proof proof in
    tabulate (λ d.
      keep (λ id. member id (ids (at d local)) && not (member id (ids (at d sent)))) (at d clean))

-- `neverSentForQueues`, over a proof that is not cleaned
unfoldable pub never_sent_for_queues :
    Queues (List String) → Queues (List Operation) → Queues (List Operation) → Queues (List String)
never_sent_for_queues proof local sent = tabulate (λ d.
    keep (λ id. member id (ids (at d local)) && not (member id (ids (at d sent)))) (at d proof))
