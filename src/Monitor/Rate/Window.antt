-- ===== src/Monitor/Rate/Window.antt =====
-- However many errors come in, no window of time sees more than ten reports.
use mathlib.Core.Path.{refl, ◌≡◌}
use native.Mathlib.Omega.{arith}
use pomodorough_server.Js.Value.{Value, get, is_full_text, is_nullish}
use pomodorough_server.Monitor.{safe_error_name}
use pomodorough_server.Monitor.Rate.{
  operation_text, Moment, Monitor, Report, evict, frontend_error_rate_limited,
  frontend_error_suppressed, max_per_window, report_frontend_error, report_named, window_ms,
}
use pomodorough_server.Prelude.{
  Bool, Bool-cases, List, String, [], false, if◌then◌else◌, inl, inr, join, leb, leb→le, length,
  length-append, ltb, not, suc, true, ℕ, ◌&&◌, ◌++◌, ◌+◌, ◌<◌, ◌||◌, ◌∷◌, ◌≤◌,
}

-- an error that the program reports
pub record Failure : Type 0 where
  pub moment : Moment
  pub error : Value
  pub operation : Value

abbrev pub outcome : Failure → Monitor → Report
outcome f monitor = report_frontend_error f.moment f.error f.operation monitor

-- one error after another, and the times of those that were reported
abbrev pub reported_times : List Failure → Monitor → List ℕ
reported_times [] monitor = []
reported_times (f ∷ fs) monitor =
    let rest = reported_times fs (outcome f monitor).monitor in
    if (outcome f monitor).reported then f.moment.now ∷ rest else rest

-- how many of the times lie in the window that starts at `w`
abbrev pub count_in : ℕ → List ℕ → ℕ
count_in w [] = 0
count_in w (t ∷ ts) =
    let rest = count_in w ts in if leb w t && ltb t (w + window_ms) then suc rest else rest

-- the clock does not go back
abbrev pub Ascending : ℕ → List Failure → Type 0
Ascending earliest [] = Unit
Ascending earliest (f ∷ fs) = (earliest ≤ f.moment.now) × Ascending f.moment.now fs

-- What a report does to the times: nothing, or what the limit does with its answer.
data Step (now : ℕ) (times : List ℕ) : Bool → List ℕ → Type 0 where
  quiet : Step now times false times
  refused : Step now times false (evict now times)
  admitted :
      length (evict now times) < max_per_window → Step now times true (evict now times ++ now ∷ [])

count_in-evict :
    (w now : ℕ) (times : List ℕ)
    → now < w + window_ms
    → count_in w (evict now times) ≡ count_in w times
unfolding evict
count_in-evict w now [] h = refl
count_in-evict w now (t ∷ ts) h = ground (arith, count_in-evict w now ts h)

length-evict : (now : ℕ) (times : List ℕ) → length (evict now times) ≤ length times
unfolding evict
length-evict now [] = omega arith
length-evict now (t ∷ ts) = ground (arith, length-evict now ts)

count_in-append : (w : ℕ) (xs ys : List ℕ) → count_in w (xs ++ ys) ≡ count_in w xs + count_in w ys
count_in-append w [] ys = omega arith
count_in-append w (x ∷ xs) ys = ground (arith, count_in-append w xs ys)

count_in-le : (w : ℕ) (times : List ℕ) → count_in w times ≤ length times
count_in-le w [] = omega arith
count_in-le w (t ∷ ts) = ground (arith, count_in-le w ts)

report_named-Step :
    (m : Moment) (operation name : String) (monitor : Monitor)
    → let r = report_named m operation name monitor in
      Step m.now monitor.times r.reported r.monitor.times
unfolding report_named frontend_error_rate_limited
report_named-Step m operation name monitor =
    let key = join (operation ∷ "\n" ∷ name ∷ []) in
    let suppressed = (frontend_error_suppressed key m.now m.random monitor.samples).0 in
    elim (Bool-cases suppressed) [
      | inl repeats ↦ rw repeats quiet
      | inr unsuppressed ↦
          elim (Bool-cases (leb max_per_window (length (evict m.now monitor.times)))) [
            | inl full ↦ rw (unsuppressed, full) refused
            | inr room ↦ rw (unsuppressed, room) (admitted (ground arith))
          ]
    ]

outcome-Step :
    (f : Failure) (monitor : Monitor)
    → Step f.moment.now monitor.times (outcome f monitor).reported (outcome f monitor).monitor.times
unfolding report_frontend_error
outcome-Step f monitor =
    elim (Bool-cases
      (not (is_full_text f.operation) || is_nullish f.error || not f.moment.available)) [
        | inl ignored ↦ rw ignored quiet
        | inr taken ↦ rw taken (
            report_named-Step f.moment (operation_text f.operation)
              (safe_error_name (get "name" f.error)) monitor)
      ]

-- after the window nothing that is reported lies in it
none_after :
    (w earliest : ℕ) (fs : List Failure) (monitor : Monitor)
    → w + window_ms ≤ earliest
    → Ascending earliest fs
    → count_in w (reported_times fs monitor) ≡ 0
none_after w earliest [] monitor past up = refl
none_after w earliest (f ∷ fs) monitor past (le, up) =
    ground (arith, none_after w f.moment.now fs (outcome f monitor).monitor (omega arith) up)

-- one report, and those after it, by what the report did to the times
counted_step :
    (w now : ℕ) (times : List ℕ) (reported : Bool) (after_times : List ℕ) (later : ℕ)
    → Step now times reported after_times
    → now < w + window_ms
    → length times ≤ max_per_window
    → (length after_times ≤ max_per_window → count_in w after_times + later ≤ max_per_window)
    → count_in w times + (if reported then count_in w (now ∷ []) + later else later)
      ≤ max_per_window
counted_step w now times reported after_times later quiet within short h = h short
counted_step w now times reported after_times later refused within short h =
    let n = length-evict now times in
    omega (arith, count_in-evict w now times within, h (omega arith))
counted_step w now times reported after_times later (admitted room) within short h =
    let n = length-append (evict now times) (now ∷ []) in
    let c = count_in-append w (evict now times) (now ∷ []) in
    let e = count_in-evict w now times within in let whole = h (ground arith) in ground arith

count_in-if :
    (w now : ℕ) (reported : Bool) (rest : List ℕ)
    → count_in w (if reported then now ∷ rest else rest)
      ≡ (if reported then count_in w (now ∷ []) + count_in w rest else count_in w rest)
count_in-if w now true rest = ground arith
count_in-if w now false rest = refl

count_in-reported :
    (w earliest : ℕ) (fs : List Failure) (monitor : Monitor)
    → Ascending earliest fs
    → length monitor.times ≤ max_per_window
    → count_in w monitor.times + count_in w (reported_times fs monitor) ≤ max_per_window
count_in-reported w earliest [] monitor up short = ground (arith, count_in-le w monitor.times)
count_in-reported w earliest (f ∷ fs) monitor (le, up) short =
    elim (Bool-cases (leb (w + window_ms) f.moment.now)) [
      | inl past ↦
          let none_left =
            none_after w f.moment.now (f ∷ fs) monitor (leb→le _ _ past) (omega arith, up) in
          omega (arith, none_left, count_in-le w monitor.times)
      | inr within ↦
          let later = reported_times fs (outcome f monitor).monitor in
          rw (count_in-if w f.moment.now (outcome f monitor).reported later) (
            counted_step w f.moment.now monitor.times (outcome f monitor).reported
              (outcome f monitor).monitor.times (count_in w later) (outcome-Step f monitor)
              (ground arith) short
              (count_in-reported w f.moment.now fs (outcome f monitor).monitor up))
    ]

-- However many errors come in and whatever they are, at most ten are reported in any window of 60
-- seconds, as long as the clock does not go back.
pub report_frontend_error-AtMost :
    (w earliest : ℕ) (fs : List Failure)
    → Ascending earliest fs
    → count_in w (reported_times fs (record { times = []; samples = [] })) ≤ max_per_window
report_frontend_error-AtMost w earliest fs up =
    omega (
      arith,
      count_in-reported w earliest fs (record { times = []; samples = [] }) up (omega arith),
    )
