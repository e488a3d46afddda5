-- ===== src/Monitor.antt =====
-- Error monitoring of web/sentry-client.js: what is left of an event and of a breadcrumb before it
-- is sent. An event is a value of the monitoring library; a property that throws when it is read
-- is not modelled.
pub mod Rate
pub mod Privacy
use pomodorough_server.Js.Result.{Result, dot, err, ok, traverse, ◌>>=◌}
use pomodorough_server.Js.Text.{codes, is_lower_hex}
use pomodorough_server.Js.Value.{
  Props, Value, arr, cons, elems, end, get, is_finite, is_nullish, items, obj, of_list, prop, str,
}
use pomodorough_server.Prelude.{
  Bool, List, Option, String, [], all, drop, if◌then◌else◌, length, member, none, some, str_eq,
  take, ℕ, ◌&&◌, ◌-◌, ◌==◌, ◌∷◌,
}

abbrev environment : String
environment = "production"

-- `SAFE_ERROR_NAMES`
abbrev pub safe_error_names : List String
safe_error_names =
    "Error" ∷ "TypeError" ∷ "RangeError" ∷ "ReferenceError" ∷ "SyntaxError" ∷ "URIError"
    ∷ "EvalError" ∷ "AggregateError" ∷ "AbortError" ∷ "TimeoutError" ∷ "AccountOwnershipError"
    ∷ "QuotaExceededError" ∷ "SecurityError" ∷ "StorageError" ∷ []

-- `SAFE_OPERATIONS`
abbrev pub safe_operations : List String
safe_operations =
    "sync.preflight.bootstrap-gate" ∷ "sync.preflight.pending-queues" ∷ "sync.deferred"
    ∷ "sync.immutable.recovery" ∷ "session.stream.error" ∷ "session.restore.offline"
    ∷ "session.logout.marker-write-failed" ∷ "session.delete-account.marker-write-failed"
    ∷ "session.delete-account.cleanup-retry" ∷ "session.logout-recovery.cleanup-failed"
    ∷ "session.initialize.deferred" ∷ "session.delete-account.request-failed"
    ∷ "session.logout.revocation-deferred" ∷ "session.logout.pending-queues"
    ∷ "session.logout.cleanup-incomplete" ∷ "bootstrap.restart.deferred"
    ∷ "bootstrap.resolution.deferred" ∷ "bootstrap.retry.deferred" ∷ "bootstrap.choice.deferred"
    ∷ "view.cross-tab-logout.cleanup-incomplete" ∷ "view.timer-ownership.release-failed"
    ∷ "view.phase.save-failed" ∷ "actions.timer-ownership.renewal-failed"
    ∷ "actions.duration.save-failed" ∷ "actions.auto-start.save-failed"
    ∷ "actions.selected-task.save-failed" ∷ "actions.selected-task.retarget-missing"
    ∷ "actions.task.save-failed" ∷ "actions.task.identity-failed" ∷ "actions.timer.save-failed"
    ∷ "actions.timer.clear-failed" ∷ "actions.timer.finish-failed"
    ∷ "actions.completion.notification-failed" ∷ "actions.completion.audio-init-failed"
    ∷ "actions.completion.audio-resume-failed" ∷ "actions.completion.permission-failed"
    ∷ "storage.failure" ∷ "i18n.locale.fallback" ∷ "startup.localization.unavailable"
    ∷ "startup.storage.unavailable" ∷ "startup.offline-shell.unavailable" ∷ []

-- `texts.includes(v) ? v : otherwise`
unfoldable pub known_or : List String → String → Value → String
known_or texts otherwise (str s) = if member s texts then s else otherwise
known_or texts otherwise v = otherwise

unfoldable pub safe_error_name : Value → String
safe_error_name v = known_or safe_error_names "Error" v

abbrev pub categories : List String
categories = "fetch" ∷ "xhr" ∷ "navigation" ∷ "console" ∷ "error.repeat" ∷ []

unfoldable pub clean_breadcrumb : Value → Value → Value
clean_breadcrumb category message =
    let kept = known_or categories "diagnostic" category in
    obj (
      prop "category" (str kept) (
        prop "message"
          (str (
            if str_eq kept "error.repeat"
            then known_or safe_operations "[redacted]" message
            else "[redacted]"))
          end))

-- none where the code gives null
unfoldable pub scrub_breadcrumb : Value → Option Value
unfolding clean_breadcrumb
scrub_breadcrumb crumb =
    if is_nullish crumb
    then none
    else some (clean_breadcrumb (get "category" crumb) (get "message" crumb))

-- `crumbs.map(scrubBreadcrumb).filter(Boolean)`
unfoldable pub scrub_breadcrumbs : List Value → List Value
unfolding scrub_breadcrumb
scrub_breadcrumbs [] = []
scrub_breadcrumbs (c ∷ cs) = elim (scrub_breadcrumb c) [
  | some clean ↦ clean ∷ scrub_breadcrumbs cs
  | none ↦ scrub_breadcrumbs cs
]

-- `slice(-count)`
abbrev pub take_last {ℓ} : {A : Type ℓ} → ℕ → List A → List A
take_last count xs = drop (length xs - count) xs

unfoldable pub safe_exception : String → Value → Result Value
safe_exception operation value = dot "type" value >>= λ type.
    ok (obj (prop "type" (str (safe_error_name type)) (prop "value" (str operation) end)))

-- `Array.isArray(values) && values.length ? values.slice(0, 5) : [{}]`
abbrev pub first_exceptions : Value → List Value
first_exceptions (arr (cons v vs)) = take 5 (v ∷ elems vs)
first_exceptions v = obj end ∷ []

-- `/^[a-f0-9]{32}$/`
unfoldable pub is_event_id : String → Bool
is_event_id s = length (codes s) == 32 && all is_lower_hex (codes s)

abbrev pub levels : List String
levels = "fatal" ∷ "error" ∷ "warning" ∷ "info" ∷ "debug" ∷ []

abbrev pub event_id_of : Value → Props → Props
event_id_of (str s) rest = if is_event_id s then prop "event_id" (str s) rest else rest
event_id_of v rest = rest

abbrev pub timestamp_of : Value → Props
timestamp_of v = if is_finite v then prop "timestamp" v end else end

abbrev pub clean_exceptions : String → List Value → Value
clean_exceptions operation exceptions = obj (prop "values" (arr (of_list exceptions)) end)

abbrev pub clean_props : Value → String → String → List Value → Props
clean_props event release operation exceptions = prop "platform" (str "javascript") (
    prop "environment" (str environment) (
      prop "release" (str release) (
        prop "level" (str (known_or levels "error" (get "level" event))) (
          prop "tags" (obj (prop "error.operation" (str operation) end)) (
            prop "exception" (clean_exceptions operation exceptions) (
              prop "breadcrumbs"
                (arr
                  (of_list (scrub_breadcrumbs (take_last 100 (items (get "breadcrumbs" event))))))
                (event_id_of (get "event_id" event) (timestamp_of (get "timestamp" event)))))))))

-- The event, or the error of a read that the code catches.
unfoldable pub clean_event : Value → String → Result Value
unfolding known_or safe_exception scrub_breadcrumbs
clean_event event release = dot "tags" event >>= λ tags.
    let operation = known_or safe_operations "browser.automatic" (get "error.operation" tags) in
    traverse (safe_exception operation) (first_exceptions (get "values" (get "exception" event)))
    >>= λ exceptions. ok (obj (clean_props event release operation exceptions))

-- `try { return … } catch { return null; }`
abbrev pub caught {ℓ} : {A : Type ℓ} → Result A → Option A
caught (ok a) = some a
caught (err e) = none

-- none where the code gives null
unfoldable pub scrub_final_event : Value → String → Option Value
unfolding clean_event
scrub_final_event event release = caught (clean_event event release)
