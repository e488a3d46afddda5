-- ===== src/Queue.antt =====
-- The five operation queues of the client (`DOMAINS` of web/workspace-core.js) and what they hold.
use pomodorough_server.Js.Value.{Props, Value, field, obj, prop, str}
use pomodorough_server.Prelude.{Bool, List, String, [], false, true, ◌∷◌}

-- An operation is an object with a text `id`, which is the key of its object store.
pub record Operation : Type 0 where
  pub id : String
  pub props : Props

abbrev pub as_value : Operation → Value
as_value op = obj (prop "id" (str op.id) op.props)

-- `operation.k`
abbrev pub attr : String → Operation → Value
attr k op = field k op.props

-- `items.map((item) => item.id)`
abbrev pub ids : List Operation → List String
ids [] = []
ids (op ∷ ops) = op.id ∷ ids ops

pub data Domain : Type 0 where
  timer task duration auto_start selected_task : Domain

abbrev pub domains : List Domain
domains = timer ∷ task ∷ duration ∷ auto_start ∷ selected_task ∷ []

-- the property that holds the queue of a domain
abbrev pub domain_name : Domain → String
domain_name timer = "commands"
domain_name task = "taskOperations"
domain_name duration = "durationOperations"
domain_name auto_start = "autoStartOperations"
domain_name selected_task = "selectedTaskOperations"

-- One value for each domain.
pub record Queues {ℓ} (A : Type ℓ) : Type ℓ where
  pub commands : A
  pub task_operations : A
  pub duration_operations : A
  pub auto_start_operations : A
  pub selected_task_operations : A

module _ {ℓ} {A : Type ℓ} where
  abbrev pub at : Domain → Queues A → A
  at timer q = q.commands
  at task q = q.task_operations
  at duration q = q.duration_operations
  at auto_start q = q.auto_start_operations
  at selected_task q = q.selected_task_operations

  -- `Object.fromEntries(DOMAINS.map((domain) => [domain, f(domain)]))`
  abbrev pub tabulate : (Domain → A) → Queues A
  tabulate f = record {
    commands = f timer;
    task_operations = f task;
    duration_operations = f duration;
    auto_start_operations = f auto_start;
    selected_task_operations = f selected_task;
  }

-- `a || b` of a queue that may be missing, where the other is empty
abbrev pub no_operations : Queues (List Operation)
no_operations = tabulate (λ _. [])

abbrev pub same_domain : Domain → Domain → Bool
same_domain timer timer = true
same_domain task task = true
same_domain duration duration = true
same_domain auto_start auto_start = true
same_domain selected_task selected_task = true
same_domain d e = false
