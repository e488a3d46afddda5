-- ===== src/Tests/Batches.antt =====
-- The records of a plan at concrete inputs: a queue that holds an identifier twice gives the last.
use mathlib.Core.Path.{refl, ◌≡◌}
use pomodorough_server.Js.Result.{ok}
use pomodorough_server.Js.Value.{end, nan, prop, str}
use pomodorough_server.Prelude.{List, String, [], ◌∷◌}
use pomodorough_server.Queue.{Domain, Operation, Queues, at, ids, no_operations, tabulate}
use pomodorough_server.Sync.Request.{encode_selected_batch}
use pomodorough_server.Workspace.{selected_records}
use pomodorough_server.Workspace.Selected.{IsPicked, selected_records_lem}

abbrev early : Operation
early = record { id = "c1"; props = prop "phase" (str "focus") end }

abbrev late : Operation
late = record { id = "c1"; props = prop "phase" (str "long_break") end }

abbrev other : Operation
other = record { id = "c2"; props = end }

abbrev queues : Queues (List Operation)
queues = record no_operations { commands = early ∷ other ∷ late ∷ [] }

abbrev no_names : Queues (List String)
no_names = tabulate (λ d. [])

abbrev planned : Queues (List String)
planned = record no_names { commands = "c2" ∷ "c1" ∷ [] }

abbrev chosen : Queues (List Operation)
chosen = record no_operations { commands = other ∷ late ∷ [] }

selected_run : selected_records planned queues ≡ ok chosen
unfolding selected_records
selected_run = refl

selected_records_lem_example :
    IsPicked (at Domain.timer queues) (at Domain.timer planned) (at Domain.timer chosen)
    × (ids (at Domain.timer (encode_selected_batch (λ v. nan) chosen)) ≡ at Domain.timer planned)
selected_records_lem_example =
    selected_records_lem (λ v. nan) planned queues chosen selected_run Domain.timer
