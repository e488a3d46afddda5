-- ===== src/Sync/Response/Accepted.antt =====
-- What an accepted response holds.
use mathlib.Core.Path.{refl, ◌≡◌}
use native.Mathlib.Omega.{arith}
use pomodorough_server.Js.Num.{is_between, max_safe}
use pomodorough_server.Js.Result.{bind-eq-ok, each-eq-ok, ok, throw_if-eq-ok}
use pomodorough_server.Js.Value.{
  Elems, Value, arr, bool, elems, get, has_own, int, is_boolean, is_full_text, is_null, is_object,
  is_string, null, obj, str,
}
use pomodorough_server.Prelude.{
  All, ◌||◌, [], Option-cases, all, and-eq-true, not-eq-false, str_eq, ◌∷◌, ◌≤◌, Bool, Bool-cases,
  List, Option, String, ap, false, inl, inr, not, or-eq-false, some, true, ℕ, ◌&&◌, ◌∙◌, ◌⊎◌,
}
use pomodorough_server.Prelude.Int.{ltb_ℤ, pos, ℤ, ◌+ℤ◌, ◌≤ℤ◌}
use pomodorough_server.Queue.{Operation, Queues, ids}
use pomodorough_server.Sync.Acks.{Acknowledged, exact_acknowledgements, validate_acknowledgements}
use pomodorough_server.Sync.Acks.Exact.{IsExact, exact_acknowledgements_iff}
use pomodorough_server.Sync.Canonical.Parts.{
  IsDurations, IsHistory, IsTimer, is_between-natural, validate_canonical_timer-IsTimer,
  validate_durations-IsDurations, validate_history-IsHistory,
}
use pomodorough_server.Sync.Clock.{natural}
use pomodorough_server.Sync.DateTime.{DateTime, parse_date_time, valid_date_time}
use pomodorough_server.Sync.Canonical.{valid_task, validate_tasks}
use pomodorough_server.Sync.Response.{
  valid_selected_task, check_state, consistent_hlc, server_ms, state_checks,
  validate_canonical_response,
}

-- A text that is not empty.
abbrev pub IsName : Value → Type 0
IsName v = (s : String) × (v ≡ str s) × (str_eq s "" ≡ false)

-- A task has a name that is not empty, and a text for a title.
abbrev pub IsTask : Value → Type 0
IsTask task = IsName (get "id" task) × ((title : String) × (get "title" task ≡ str title))

-- An integer of the language from a bound on.
abbrev pub IsFrom : ℕ → Value → Type 0
IsFrom lo v = (n : ℕ) × (v ≡ int (pos n)) × (lo ≤ n) × (n ≤ 9007199254740991)

pub record IsCanonical (payload : Value) : Type 0 where
  pub timer_there : has_own "canonicalTimer" payload ≡ true
  pub timer_part : (get "canonicalTimer" payload ≡ null) ⊎ IsTimer (get "canonicalTimer" payload)
  pub tasks : (es : Elems) × (get "tasks" payload ≡ arr es) × All IsTask (elems es)
  pub auto_start : (b : Bool) × (get "autoStartBreaks" payload ≡ bool b)
  pub selected_there : has_own "selectedTaskId" payload ≡ true
  pub selected : (get "selectedTaskId" payload ≡ null) ⊎ IsName (get "selectedTaskId" payload)
  pub server_time : (d : DateTime) × (parse_date_time (get "serverTime" payload) ≡ some d)
  pub hlc_counter : IsFrom 0 (get "serverHlcCounter" payload)
  pub history : (es : Elems) × (get "history" payload ≡ arr es) × IsHistory (elems es)
  pub durations : IsDurations (get "durationsMs" payload)
  pub revision : IsFrom 0 (get "revision" payload)
  pub hlc_wall : ℕ
  pub hlc_wall_is : get "serverHlcWallMs" payload ≡ int (pos hlc_wall)
  pub not_behind : server_ms (get "serverTime" payload) ≤ℤ pos hlc_wall
  pub not_ahead : pos hlc_wall ≤ℤ server_ms (get "serverTime" payload) +ℤ pos 300000

is_full_text-IsName : (v : Value) → is_full_text v ≡ true → IsName v
is_full_text-IsName (str s) h = (s, refl, ground (arith, h))
is_full_text-IsName _ h = cc

is_string-str : (v : Value) → is_string v ≡ true → (s : String) × (v ≡ str s)
is_string-str (str s) h = (s, refl)
is_string-str _ h = cc

is_boolean-bool : (v : Value) → is_boolean v ≡ true → (b : Bool) × (v ≡ bool b)
is_boolean-bool (bool b) h = (b, refl)
is_boolean-bool _ h = cc

is_null-null : (v : Value) → is_null v ≡ true → v ≡ null
is_null-null null h = refl
is_null-null _ h = cc

valid_task-IsTask : (task : Value) → valid_task task ≡ true → IsTask task
unfolding valid_task
valid_task-IsTask task h =
    let (h1, title) =
      and-eq-true (is_object task && is_full_text (get "id" task)) (is_string (get "title" task))
        h in
    let (_, name) = and-eq-true (is_object task) (is_full_text (get "id" task)) h1 in
    (is_full_text-IsName _ name, is_string-str _ title)

all-All : (tasks : List Value) → all valid_task tasks ≡ true → All IsTask tasks
all-All [] h = tt
all-All (task ∷ tasks) h =
    let (first, rest) = and-eq-true (valid_task task) (all valid_task tasks) h in
    (valid_task-IsTask task first, all-All tasks rest)

validate_tasks-IsTask :
    (v : Value) → validate_tasks v ≡ ok tt → (es : Elems) × (v ≡ arr es) × All IsTask (elems es)
unfolding validate_tasks
validate_tasks-IsTask (arr es) h =
    (es, refl, all-All (elems es) (not-eq-false _ (throw_if-eq-ok _ _ h)))
validate_tasks-IsTask _ h = cc

valid_selected_task-selected :
    (payload : Value)
    → valid_selected_task payload ≡ true
    → (has_own "selectedTaskId" payload ≡ true)
      × ((get "selectedTaskId" payload ≡ null) ⊎ IsName (get "selectedTaskId" payload))
unfolding valid_selected_task
valid_selected_task-selected payload h =
    let v = get "selectedTaskId" payload in
    let (there, choice) =
      and-eq-true (has_own "selectedTaskId" payload) (is_null v || is_full_text v) h in
    (
      there,
      elim (Bool-cases (is_null v)) [
        | inl none_chosen ↦ inl (is_null-null v none_chosen)
        | inr other ↦ inr (is_full_text-IsName v (ground (arith, choice, other)))
      ],
    )

valid_date_time-parsed :
    (v : Value) → valid_date_time v ≡ true → (d : DateTime) × (parse_date_time v ≡ some d)
unfolding valid_date_time
valid_date_time-parsed v h = elim (Option-cases (parse_date_time v)) [
  | inl unread ↦ ground (arith, h, unread)
  | inr found ↦ found
]

is_between-IsFrom : (lo : ℕ) (v : Value) → is_between lo max_safe v ≡ true → IsFrom lo v
is_between-IsFrom lo v h = is_between-natural lo max_safe v h

not-false : (b : Bool) → not b ≡ false → b ≡ true
not-false true h = refl
not-false false h = cc

consistent_hlc-bounds :
    (payload : Value) (w : ℕ)
    → get "serverHlcWallMs" payload ≡ int (pos w)
    → consistent_hlc payload ≡ true
    → (server_ms (get "serverTime" payload) ≤ℤ pos w)
      × (pos w ≤ℤ server_ms (get "serverTime" payload) +ℤ pos 300000)
unfolding consistent_hlc
consistent_hlc-bounds payload w e h =
    let n : natural (get "serverHlcWallMs" payload) ≡ w = ap natural e in
    bounds (natural (get "serverHlcWallMs" payload)) w n (server_ms (get "serverTime" payload)) h
  where
    bounds :
        (k w : ℕ)
        → k ≡ w
        → (t : ℤ) → (not (ltb_ℤ (pos k) t) && not (ltb_ℤ (t +ℤ pos 300000) (pos k))) ≡ true
        → (t ≤ℤ pos w) × (pos w ≤ℤ t +ℤ pos 300000)
    bounds k w e t h = (ground (arith, e), ground (arith, e))

pub check_state-IsCanonical : (payload : Value) → check_state payload ≡ ok tt → IsCanonical payload
unfolding check_state
check_state-IsCanonical payload h =
    let c = each-eq-ok (state_checks payload) h in
    let d = c.1.1.1.1.1.1.1.1.1 in
    let (w, wall, _, _) =
      is_between-natural 1 max_safe (get "serverHlcWallMs" payload)
        (not-false _ (or-eq-false _ _ (throw_if-eq-ok _ _ d.0)).0) in
    let (behind, ahead) =
      consistent_hlc-bounds payload w wall (not-false _ (throw_if-eq-ok _ _ d.1.0)) in
    let selection =
      valid_selected_task-selected payload (not-false _ (throw_if-eq-ok _ _ c.1.1.1.1.1.1.1.0)) in
    record {
      timer_part = validate_canonical_timer-IsTimer (get "canonicalTimer" payload) c.1.1.0;
      timer_there = not-false _ (throw_if-eq-ok _ _ c.1.0);
      tasks = validate_tasks-IsTask (get "tasks" payload) c.1.1.1.1.0;
      auto_start = is_boolean-bool _ (not-false _ (throw_if-eq-ok _ _ c.1.1.1.1.1.1.0));
      selected_there = selection.0;
      selected = selection.1;
      server_time = valid_date_time-parsed _ (not-false _ (throw_if-eq-ok _ _ c.1.1.1.1.1.1.1.1.0));
      hlc_counter =
          is_between-IsFrom 0 _ (not-false _ (or-eq-false _ _ (throw_if-eq-ok _ _ d.0)).1);
      history = validate_history-IsHistory (get "history" payload) c.1.1.1.0;
      durations = validate_durations-IsDurations (get "durationsMs" payload) c.1.1.1.1.1.0;
      revision = is_between-IsFrom 0 _ (not-false _ (throw_if-eq-ok _ _ c.0));
      hlc_wall = w;
      hlc_wall_is = wall;
      not_behind = behind;
      not_ahead = ahead;
    }

-- the sent queues, none of them missing
abbrev pub all_sent : Queues (List Operation) → Queues (Option (List Operation))
all_sent sent = record {
  commands = some sent.commands;
  task_operations = some sent.task_operations;
  duration_operations = some sent.duration_operations;
  auto_start_operations = some sent.auto_start_operations;
  selected_task_operations = some sent.selected_task_operations;
}

-- Each queue that was sent is answered exactly.
pub record IsAnswered (sent : Queues (List Operation)) (acks : Queues Acknowledged) : Type 0 where
  pub commands : IsExact "commandId" (ids sent.commands) acks.commands
  pub tasks : IsExact "operationId" (ids sent.task_operations) acks.task_operations
  pub durations : IsExact "operationId" (ids sent.duration_operations) acks.duration_operations
  pub auto_starts :
      IsExact "operationId" (ids sent.auto_start_operations) acks.auto_start_operations
  pub selected_tasks :
      IsExact "operationId" (ids sent.selected_task_operations) acks.selected_task_operations

exact_of :
    (payload : Value) (name : String) (sent : List Operation) (f : String) {r : Acknowledged}
    → is_object payload ≡ true
    → exact_acknowledgements payload name (some sent) f ≡ ok r
    → IsExact f (ids sent) r
exact_of (obj ps) name sent f {r} o h = ((exact_acknowledgements_iff ps name sent f r).0 h).1
exact_of _ name sent f o h = cc

validate_acknowledgements-IsAnswered :
    (payload : Value) (sent : Queues (List Operation)) (acks : Queues Acknowledged)
    → is_object payload ≡ true
    → validate_acknowledgements payload (all_sent sent) ≡ ok acks
    → IsAnswered sent acks
unfolding validate_acknowledgements
validate_acknowledgements-IsAnswered payload sent acks o h =
    let (a, pa, ha) = bind-eq-ok _ _ h in
    let (b, pb, hb) = bind-eq-ok _ _ ha in
    let (c, pc, hc) = bind-eq-ok _ _ hb in
    let (d, pd, hd) = bind-eq-ok _ _ hc in
    let (e, pe, he) = bind-eq-ok _ _ hd in
    let whole : acks ≡ record {
      commands = a;
      task_operations = b;
      duration_operations = c;
      auto_start_operations = d;
      selected_task_operations = e;
    } =
      cc he in
    rw whole (record {
      commands = exact_of payload _ sent.commands _ o pa;
      tasks = exact_of payload _ sent.task_operations _ o pb;
      durations = exact_of payload _ sent.duration_operations _ o pc;
      auto_starts = exact_of payload _ sent.auto_start_operations _ o pd;
      selected_tasks = exact_of payload _ sent.selected_task_operations _ o pe;
    })

-- An accepted response is an object whose acknowledgements answer every operation of the five sent
-- queues exactly once. Its revision and the parts of the server's clock are integers in range, the
-- clock is not behind the server's time nor more than five minutes ahead of it; its timer is null or
-- valid, the rows of its history are valid and distinct, each task has a name and a title, each
-- duration is a whole number of minutes in range, the automatic start of breaks is a Boolean, and
-- the selected task is there and null or a name.
pub validate_canonical_response_sound :
    (payload : Value) (sent : Queues (List Operation)) (acks : Queues Acknowledged)
    → validate_canonical_response payload (all_sent sent) ≡ ok acks
    → IsAnswered sent acks × IsCanonical payload
unfolding validate_canonical_response
validate_canonical_response_sound payload sent acks h = elim (Bool-cases (is_object payload)) [
  | inl o ↦
      let (r, pr, hr) =
        bind-eq-ok (validate_acknowledgements payload (all_sent sent)) _ (rw o at h) in
      let (u, pu, hu) = bind-eq-ok (check_state payload) _ hr in
      let same : r ≡ acks = cc hu in
      (
        validate_acknowledgements-IsAnswered payload sent acks o (pr ∙ ap ok same),
        check_state-IsCanonical payload pu,
      )
  | inr bad ↦ cc (rw bad at h)
]
