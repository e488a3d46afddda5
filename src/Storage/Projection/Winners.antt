-- ===== src/Storage/Projection/Winners.antt =====
-- What accepted winners name.
use mathlib.Core.Path.{refl, ◌≡◌}
use native.Mathlib.Omega.{arith}
use pomodorough_server.Js.Result.{if-eq-ok, ok, plain, thrown}
use pomodorough_server.Js.Value.{
  Props, Value, is_object, arr, bool, end, float, get, int, keys, nan, null, obj, prop, str,
  strict_eq, undefined,
}
use pomodorough_server.Prelude.{
  All, ◌&&◌, Bool-cases, [], inl, inr, member, str_eq, ◌∷◌, ◌⊎◌, Bool, List, Option, String, all,
  and-eq-true, ap, eq_iff, false, none, not, some, true, ◌||◌,
}
use pomodorough_server.Prelude.Int.{negsuc, pos}
use pomodorough_server.Queue.{Operation, Queues, attr, ids}
use pomodorough_server.Storage.Projection.{
  null_or_full, same_texts, sorted_names, attr_of, default_phase, invalid_winners, null_or_queued,
  valid_winner, valid_winners, valid_winners_shape, validate_operation_winners, winner_props,
}
use pomodorough_server.Workspace.{record_of}

-- An entry's value names an operation that is queued under that identifier, and whose `k` is the
-- entry's name.
abbrev pub IsWinner : String → List Operation → String → Value → Type 0
IsWinner k ops name v =
    (id : String) × (op : Operation) × (v ≡ str id)
    × (record_of id ops ≡ some op)
    × (attr k op ≡ str name)

-- A predicate of every entry of an object.
abbrev pub Entries : (String → Value → Type 0) → Props → Type 0
Entries P end = Unit
Entries P (prop name v ps) = P name v × Entries P ps

strict_eq-str : (v : Value) (s : String) → strict_eq v (str s) ≡ true → v ≡ str s
strict_eq-str (str t) s h = ap str ((eq_iff t s).0 h)
strict_eq-str undefined s h = cc
strict_eq-str null s h = cc
strict_eq-str (bool true) s h = cc
strict_eq-str (bool false) s h = cc
strict_eq-str (int (pos n)) s h = cc
strict_eq-str (int (negsuc n)) s h = cc
strict_eq-str (float n) s h = cc
strict_eq-str nan s h = cc
strict_eq-str (arr vs) s h = cc
strict_eq-str (obj ps) s h = cc

attr_of-eq-str :
    (k : String) (name : String) (o : Option Operation)
    → strict_eq (attr_of k o) (str name) ≡ true
    → (op : Operation) × (o ≡ some op) × (attr k op ≡ str name)
attr_of-eq-str k name none h = cc
attr_of-eq-str k name (some op) h = (op, refl, strict_eq-str (attr k op) name h)

valid_winner-IsWinner :
    (k : String) (ops : List Operation) (name : String) (v : Value)
    → valid_winner k ops name v ≡ true
    → IsWinner k ops name v
valid_winner-IsWinner k ops name (str id) h =
    let (op, held, same) = attr_of-eq-str k name (record_of id ops) h in (id, op, refl, held, same)
valid_winner-IsWinner k ops name undefined h = cc
valid_winner-IsWinner k ops name null h = cc
valid_winner-IsWinner k ops name (bool b) h = cc
valid_winner-IsWinner k ops name (int i) h = cc
valid_winner-IsWinner k ops name (float n) h = cc
valid_winner-IsWinner k ops name nan h = cc
valid_winner-IsWinner k ops name (arr vs) h = cc
valid_winner-IsWinner k ops name (obj ps) h = cc

valid_winners-Entries :
    (k : String) (ops : List Operation) (ps : Props)
    → valid_winners k ops ps ≡ true
    → Entries (IsWinner k ops) ps
valid_winners-Entries k ops end h = tt
valid_winners-Entries k ops (prop name v ps) h =
    let (first, rest) = and-eq-true (valid_winner k ops name v) (valid_winners k ops ps) h in
    (valid_winner-IsWinner k ops name v first, valid_winners-Entries k ops ps rest)

not-eq-false : (b : Bool) → not b ≡ false → b ≡ true
not-eq-false true h = refl
not-eq-false false h = cc

or-eq-false : (a b : Bool) → (a || b) ≡ false → b ≡ false
or-eq-false true b h = cc
or-eq-false false b h = h

shape_objects :
    (winners : Value)
    → valid_winners_shape winners ≡ true
    → (is_object (get "tasks" winners) ≡ true) × (is_object (get "durations" winners) ≡ true)
unfolding valid_winners_shape
shape_objects winners h =
    objects (same_texts (sorted_names winners) names) (is_object (get "tasks" winners))
      (is_object (get "durations" winners)) (null_or_full (get "autoStart" winners))
      (null_or_full (get "selectedTask" winners)) h
  where
    names : List String
    names = "autoStart" ∷ "durations" ∷ "selectedTask" ∷ "tasks" ∷ []

    objects : (a b c d e : Bool) → (a && b && c && d && e) ≡ true → (b ≡ true) × (c ≡ true)
    objects a b c d e h = ground arith

first_of : (a b : Bool) → (not a || not b) ≡ false → a ≡ true
first_of a b h = ground arith

-- Null, or the identifier of one of the operations.
abbrev pub IsNullOrQueued : List Operation → Value → Type 0
IsNullOrQueued ops v = (v ≡ null) ⊎ ((id : String) × (v ≡ str id) × (member id (ids ops) ≡ true))

-- One of the three phases.
abbrev pub IsDefaultPhase : String → Type 0
IsDefaultPhase s = (s ≡ "focus") ⊎ ((s ≡ "short_break") ⊎ (s ≡ "long_break"))

null_or_queued-IsNullOrQueued :
    (v : Value) (ops : List Operation) → null_or_queued v ops ≡ true → IsNullOrQueued ops v
null_or_queued-IsNullOrQueued (str id) ops h = inr (id, refl, h)
null_or_queued-IsNullOrQueued null ops h = inl refl
null_or_queued-IsNullOrQueued _ ops h = cc

default_phase-IsDefaultPhase : (s : String) → default_phase s ≡ true → IsDefaultPhase s
default_phase-IsDefaultPhase s h = elim (Bool-cases (str_eq s "focus")) [
  | inl focus ↦ inl ((eq_iff s "focus").0 focus)
  | inr other ↦ elim (Bool-cases (str_eq s "short_break")) [
    | inl short ↦ inr (inl ((eq_iff s "short_break").0 short))
    | inr rest ↦ inr (inr ((eq_iff s "long_break").0 (ground (arith, h, other, rest))))
  ]
]

all-default_phase :
    (names : List String) → all default_phase names ≡ true → All IsDefaultPhase names
all-default_phase [] h = tt
all-default_phase (s ∷ ss) h =
    let (first, rest) = and-eq-true (default_phase s) (all default_phase ss) h in
    (default_phase-IsDefaultPhase s first, all-default_phase ss rest)

-- In accepted winners, those of tasks and of durations are objects, and all name only what is queued:
-- the winner of each task is the queued operation of that
-- name, and is about that task; each duration with a winner is one of the three phases, and its
-- winner likewise is about that phase; the winners of the automatic start and of the selected task
-- are null or the identifier of an operation in their queue.
pub validate_operation_winners_lem :
    (winners : Value) (pending : Queues (List Operation))
    → validate_operation_winners winners pending ≡ ok tt
    → (is_object (get "tasks" winners) ≡ true)
      × (is_object (get "durations" winners) ≡ true)
      × Entries (IsWinner "taskId" pending.task_operations) (winner_props (get "tasks" winners))
      × Entries
          (IsWinner "phase" pending.duration_operations)
          (winner_props (get "durations" winners))
      × All IsDefaultPhase (keys (winner_props (get "durations" winners)))
      × IsNullOrQueued pending.auto_start_operations (get "autoStart" winners)
      × IsNullOrQueued pending.selected_task_operations (get "selectedTask" winners)
unfolding validate_operation_winners
validate_operation_winners_lem winners pending h =
    let (a, h1) = if-eq-ok (not (valid_winners_shape winners)) invalid_winners _ h in
    let tasks =
      valid_winners "taskId" pending.task_operations (winner_props (get "tasks" winners)) in
    let phases = all default_phase (keys (winner_props (get "durations" winners))) in
    let durations =
      valid_winners "phase" pending.duration_operations (winner_props (get "durations" winners)) in
    let (b, h2) =
      if-eq-ok (not tasks) (thrown plain "Shared core returned an invalid task winner.") _ h1 in
    let (c, h3) =
      if-eq-ok (not phases || not durations)
        (thrown plain "Shared core returned an invalid duration winner.") _ h2 in
    let (d, h4) =
      if-eq-ok (not (null_or_queued (get "autoStart" winners) pending.auto_start_operations))
        (thrown plain "Shared core returned an invalid auto-start winner.") _ h3 in
    let (e, h5) =
      if-eq-ok (not (null_or_queued (get "selectedTask" winners) pending.selected_task_operations))
        (thrown plain "Shared core returned an invalid selected-task winner.") _ h4 in
    let (both_tasks, both_durations) =
      shape_objects winners (not-eq-false (valid_winners_shape winners) a) in
    (
      both_tasks,
      both_durations,
      valid_winners-Entries "taskId" pending.task_operations (winner_props (get "tasks" winners))
          (not-eq-false tasks b),
      valid_winners-Entries "phase" pending.duration_operations
          (winner_props (get "durations" winners))
          (not-eq-false durations (or-eq-false (not phases) (not durations) c)),
      all-default_phase (keys (winner_props (get "durations" winners)))
          (first_of phases durations c),
      null_or_queued-IsNullOrQueued (get "autoStart" winners) pending.auto_start_operations
          (not-eq-false (null_or_queued (get "autoStart" winners) pending.auto_start_operations) d),
      null_or_queued-IsNullOrQueued (get "selectedTask" winners) pending.selected_task_operations (
          not-eq-false
            (null_or_queued (get "selectedTask" winners) pending.selected_task_operations) e),
    )
