-- ===== src/Sync/Request/Encoding.antt =====
-- Encoding a batch keeps the identity of its operations, and encoding it twice changes nothing.
use mathlib.Core.Path.{refl, ◌≡◌}
use native.Mathlib.Omega.{arith}
use pomodorough_server.Js.Value.{Value}
use pomodorough_server.Prelude.{List, [], map, ◌∷◌}
use pomodorough_server.Queue.{Domain, Operation, Queues, at, ids}
use pomodorough_server.Sync.Request.{
  auto_start_request_operation, duration_request_operation, encode_selected_batch,
  selected_task_request_operation, task_request_operation, timer_request_command,
}

duration_twice :
    (coerce : Value → Value) (op : Operation)
    → duration_request_operation coerce (duration_request_operation coerce op)
      ≡ duration_request_operation coerce op
unfolding duration_request_operation
duration_twice coerce op = ground arith

task_twice :
    (op : Operation)
    → task_request_operation (task_request_operation op) ≡ task_request_operation op
unfolding task_request_operation
task_twice op = ground arith

timer_twice :
    (op : Operation) → timer_request_command (timer_request_command op) ≡ timer_request_command op
unfolding timer_request_command
timer_twice op = ground arith

auto_start_twice :
    (op : Operation)
    → auto_start_request_operation (auto_start_request_operation op)
      ≡ auto_start_request_operation op
unfolding auto_start_request_operation
auto_start_twice op = ground arith

selected_task_twice :
    (op : Operation)
    → selected_task_request_operation (selected_task_request_operation op)
      ≡ selected_task_request_operation op
unfolding selected_task_request_operation
selected_task_twice op = ground arith

map-twice :
    (f : Operation → Operation) (xs : List Operation)
    → ((x : Operation) → f (f x) ≡ f x)
    → map f (map f xs) ≡ map f xs
map-twice f [] h = refl
map-twice f (x ∷ xs) h = rw (h x, map-twice f xs h) refl

ids-map :
    (f : Operation → Operation) (xs : List Operation)
    → ((x : Operation) → (f x).id ≡ x.id)
    → ids (map f xs) ≡ ids xs
ids-map f [] h = refl
ids-map f (x ∷ xs) h = rw (h x, ids-map f xs h) refl

batch_ids :
    (coerce : Value → Value) (selected : Queues (List Operation)) (d : Domain)
    → ids (at d (encode_selected_batch coerce selected)) ≡ ids (at d selected)
unfolding encode_selected_batch task_request_operation timer_request_command
    auto_start_request_operation selected_task_request_operation duration_request_operation
batch_ids coerce selected Domain.timer = ids-map timer_request_command selected.commands (λ x. refl)
batch_ids coerce selected Domain.task =
    ids-map task_request_operation selected.task_operations (λ x. refl)
batch_ids coerce selected Domain.duration =
    ids-map (duration_request_operation coerce) selected.duration_operations (λ x. refl)
batch_ids coerce selected Domain.auto_start =
    ids-map auto_start_request_operation selected.auto_start_operations (λ x. refl)
batch_ids coerce selected Domain.selected_task =
    ids-map selected_task_request_operation selected.selected_task_operations (λ x. refl)

-- A batch in its request form is its own request form, so that a batch may be encoded again when it
-- is sent again, and each queue has the identifiers of the operations that were selected, in order,
-- by which the server's acknowledgements are matched.
pub encode_selected_batch_lem :
    (coerce : Value → Value) (selected : Queues (List Operation))
    → (encode_selected_batch coerce (encode_selected_batch coerce selected)
        ≡ encode_selected_batch coerce selected)
      × ((d : Domain) → ids (at d (encode_selected_batch coerce selected)) ≡ ids (at d selected))
unfolding encode_selected_batch
encode_selected_batch_lem coerce selected = (
  rw
      (
        map-twice timer_request_command selected.commands timer_twice,
        map-twice task_request_operation selected.task_operations task_twice,
        map-twice (duration_request_operation coerce) selected.duration_operations
            (duration_twice coerce),
        map-twice auto_start_request_operation selected.auto_start_operations auto_start_twice,
        map-twice selected_task_request_operation selected.selected_task_operations
            selected_task_twice,
      )
      refl,
  λ d. batch_ids coerce selected d,
)
