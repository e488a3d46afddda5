-- ===== src/Monitor/Rate.antt =====
-- How often web/sentry-client.js reports an error: `reportFrontendError` with the limit of reports
-- in a window of time and the back-off for errors that repeat. A time is a number of milliseconds.
-- `Math.random()` is an argument, a fraction; products with fractions are exact here, where the
-- code rounds them to floating-point numbers.
pub mod Window
pub mod Backoff
use pomodorough_server.Js.Value.{Value, get, is_full_text, is_nullish, str}
use pomodorough_server.Monitor.{safe_error_name}
use pomodorough_server.Prelude.{
  Bool, List, Option, String, [], false, if◌then◌else◌, join, leb, length, ltb, none, not, some,
  str_eq, true, ℕ, ◌*◌, ◌++◌, ◌+◌, ◌-◌, ◌^◌, ◌||◌, ◌∷◌,
}

pub record Fraction : Type 0 where
  pub above : ℕ
  pub below : ℕ

-- `FRONTEND_ERROR_WINDOW_MS`
abbrev pub window_ms : ℕ
window_ms = 60000

-- `FRONTEND_ERROR_MAX_PER_WINDOW`
abbrev pub max_per_window : ℕ
max_per_window = 10

-- The `while` loop: times at the front that are out of the window are dropped.
unfoldable pub evict : ℕ → List ℕ → List ℕ
evict now [] = []
evict now (t ∷ ts) = let rest = evict now ts in if leb (t + window_ms) now then rest else t ∷ ts

-- the answer, and the times afterwards
unfoldable pub frontend_error_rate_limited : ℕ → List ℕ → Bool × List ℕ
unfolding evict
frontend_error_rate_limited now times =
    let kept = evict now times in
    if leb max_per_window (length kept) then (true, kept) else (false, kept ++ now ∷ [])

-- `min(FRONTEND_ERROR_DEDUP_MS * (2 ** min(max(repeats, 0), 4)), FRONTEND_ERROR_DEDUP_MAX_MS)`
unfoldable pub backoff_base : ℕ → ℕ
backoff_base repeats =
    let shift = if ltb repeats 4 then repeats else 4 in
    let doubled = 30000 * 2 ^ shift in if ltb doubled 300000 then doubled else 300000

-- `max(base * (1 + (random * 2 - 1) * 0.2), FRONTEND_ERROR_DEDUP_MS * 0.5)`: with k / m for the
-- random value, base * (4 m + 2 k) / (5 m) or 15000. A value that is not finite counts as a half.
abbrev pub scaled : ℕ → Fraction → Fraction
scaled base random =
    let above = base * (4 * random.below + 2 * random.above) in
    let below = 5 * random.below in
    if ltb above (15000 * below)
    then record { above = 15000; below = 1 }
    else record { above = above; below = below }

unfoldable pub frontend_error_backoff : ℕ → Option Fraction → Fraction
unfolding backoff_base
frontend_error_backoff repeats (some random) = scaled (backoff_base repeats) random
frontend_error_backoff repeats none =
    scaled (backoff_base repeats) (record { above = 1; below = 2 })

pub record Sample : Type 0 where
  pub key : String
  pub last : ℕ
  pub repeats : ℕ

-- `frontendErrorSamples.get(key)`
abbrev pub sample_of : String → List Sample → Option Sample
sample_of key [] = none
sample_of key (s ∷ ss) = let rest = sample_of key ss in if str_eq s.key key then some s else rest

-- `frontendErrorSamples.set(key, …)`
abbrev pub set_sample : Sample → List Sample → List Sample
set_sample new [] = new ∷ []
set_sample new (s ∷ ss) =
    let rest = set_sample new ss in if str_eq s.key new.key then new ∷ ss else s ∷ rest

-- `elapsed < backoff`; a clock that went back counts no time
abbrev pub is_before : ℕ → Fraction → Bool
is_before elapsed backoff = ltb (elapsed * backoff.below) backoff.above

-- `frontendErrorSuppressed` with the sample that the map has of the key
unfoldable pub suppressed_by :
    Option Sample → String → ℕ → Option Fraction → List Sample → Bool × List Sample
unfolding frontend_error_backoff
suppressed_by none key now random samples =
    (false, set_sample (record { key = key; last = now; repeats = 0 }) samples)
suppressed_by (some sample) key now random samples =
    if is_before (now - sample.last) (frontend_error_backoff sample.repeats random)
    then (true, set_sample (record sample { repeats = sample.repeats + 1 }) samples)
    else (false, set_sample (record { key = key; last = now; repeats = 0 }) samples)

unfoldable pub frontend_error_suppressed :
    String → ℕ → Option Fraction → List Sample → Bool × List Sample
unfolding suppressed_by
frontend_error_suppressed key now random samples =
    suppressed_by (sample_of key samples) key now random samples

pub record Monitor : Type 0 where
  pub times : List ℕ
  pub samples : List Sample

-- what the monitoring library is given: an exception, or a breadcrumb for one that repeats
pub data Sent : Type 0 where
  nothing : Sent
  exception : String → String → Sent
  repeated : String → Sent

-- whether the library is there (`canReportFrontendError`), the time and the random value
pub record Moment : Type 0 where
  pub available : Bool
  pub now : ℕ
  pub random : Option Fraction

pub record Report : Type 0 where
  pub reported : Bool
  pub sent : Sent
  pub monitor : Monitor

abbrev unreported : Monitor → Sent → Report
unreported monitor sent = record { reported = false; sent = sent; monitor = monitor }

unfoldable pub report_named : Moment → String → String → Monitor → Report
unfolding frontend_error_suppressed frontend_error_rate_limited
report_named at_moment operation name monitor =
    let (suppressed, samples) =
      frontend_error_suppressed (join (operation ∷ "\n" ∷ name ∷ [])) at_moment.now at_moment.random
        monitor.samples in
    let (limited, times) = frontend_error_rate_limited at_moment.now monitor.times in
    if suppressed
    then unreported (record monitor { samples = samples }) (repeated operation)
    else if limited
    then unreported (record { times = times; samples = samples }) nothing
    else record {
      reported = true;
      sent = exception operation name;
      monitor = record { times = times; samples = samples };
    }

-- the text of an operation that has passed `typeof operation === "string"`
abbrev pub operation_text : Value → String
operation_text (str s) = s
operation_text v = ""

-- `reportFrontendError(error, operation)`. A name of `SAFE_ERROR_NAMES` has fewer than 100
-- characters, so cutting it there leaves it as it is.
unfoldable pub report_frontend_error : Moment → Value → Value → Monitor → Report
unfolding report_named
report_frontend_error at_moment error operation monitor =
    if not (is_full_text operation) || is_nullish error || not at_moment.available
    then unreported monitor nothing
    else report_named at_moment (operation_text operation) (safe_error_name (get "name" error))
        monitor
