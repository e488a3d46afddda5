-- ===== src/Monitor/Rate/Backoff.antt =====
-- The time for which an error that repeats is kept back.
use mathlib.Core.Path.{refl, ◌≡◌}
use native.Mathlib.Omega.{arith}
use pomodorough_server.Js.Value.{Value, get, is_full_text, is_nullish}
use pomodorough_server.Monitor.{safe_error_name}
use pomodorough_server.Monitor.Rate.{
  Monitor, evict, exception, frontend_error_rate_limited, operation_text, report_frontend_error,
  report_named, Fraction, Sample, backoff_base, frontend_error_backoff, frontend_error_suppressed,
  is_before, sample_of, scaled, set_sample, suppressed_by,
}
use pomodorough_server.Prelude.{
  All, [], join, true, ◌∷◌, List, String, ap, false, inl, inr, ltb, some, suc, zero, ℕ, ◌*◌, ◌+◌,
  ◌-◌, ◌<◌, ◌≤◌, ◌⊎◌,
}

at_least_four : (n : ℕ) → ltb (suc (suc (suc (suc n)))) 4 ≡ false
at_least_four n = ground arith

backoff_base-cases :
    (repeats : ℕ)
    → (backoff_base repeats ≡ 30000)
      ⊎ ((backoff_base repeats ≡ 60000)
          ⊎ ((backoff_base repeats ≡ 120000)
              ⊎ ((backoff_base repeats ≡ 240000) ⊎ (backoff_base repeats ≡ 300000))))
unfolding backoff_base
backoff_base-cases zero = inl refl
backoff_base-cases (suc zero) = inr (inl refl)
backoff_base-cases (suc (suc zero)) = inr (inr (inl refl))
backoff_base-cases (suc (suc (suc zero))) = inr (inr (inr (inl refl)))
backoff_base-cases (suc (suc (suc (suc n)))) = inr (inr (inr (inr (rw (at_least_four n)))))

scaled-Bounded :
    (base : ℕ) (random : Fraction)
    → (base ≡ 30000) ⊎ ((base ≡ 60000) ⊎ ((base ≡ 120000) ⊎ ((base ≡ 240000) ⊎ (base ≡ 300000))))
    → 0 < random.below
    → random.above ≤ random.below
    → (24000 * (scaled base random).below ≤ (scaled base random).above)
      × ((scaled base random).above ≤ 360000 * (scaled base random).below)
scaled-Bounded base random (inl e) p h = rw e (ground arith)
scaled-Bounded base random (inr (inl e)) p h = rw e (ground arith)
scaled-Bounded base random (inr (inr (inl e))) p h = rw e (ground arith)
scaled-Bounded base random (inr (inr (inr (inl e)))) p h = rw e (ground arith)
scaled-Bounded base random (inr (inr (inr (inr e)))) p h = rw e (ground arith)

-- Of a random value of at most one: a back-off lies between 24 and 360 seconds.
frontend_error_backoff-bounds :
    (repeats : ℕ) (random : Fraction)
    → 0 < random.below
    → random.above ≤ random.below
    → (24000 * (frontend_error_backoff repeats (some random)).below
        ≤ (frontend_error_backoff repeats (some random)).above)
      × ((frontend_error_backoff repeats (some random)).above
          ≤ 360000 * (frontend_error_backoff repeats (some random)).below)
unfolding frontend_error_backoff
frontend_error_backoff-bounds repeats random p h =
    scaled-Bounded (backoff_base repeats) random (backoff_base-cases repeats) p h

mul_mono : (a b c : ℕ) → a ≤ b → a * c ≤ b * c
mul_mono a b c h =
    let split : b ≡ a + (b - a) = omega arith in
    let product : b * c ≡ (a + (b - a)) * c = ap (λ x. x * c) split in omega (arith, product)

suppressed-again :
    (key : String) (now : ℕ) (random : Fraction) (samples : List Sample) (sample : Sample)
    → 0 < random.below
    → random.above ≤ random.below
    → sample_of key samples ≡ some sample
    → sample.last + 360000 ≤ now
    → frontend_error_suppressed key now (some random) samples
      ≡ (false, set_sample (record { key = key; last = now; repeats = 0 }) samples)
unfolding frontend_error_suppressed suppressed_by
suppressed-again key now random samples sample p h found late =
    let b = frontend_error_backoff sample.repeats (some random) in
    let (_, high) = frontend_error_backoff-bounds sample.repeats random p h in
    let passed : is_before (now - sample.last) b ≡ false =
      ground (arith, mul_mono 360000 (now - sample.last) b.below, high) in
    rw (found, passed) refl

-- times of which none lies in the minute before `now`
abbrev pub AreOld : ℕ → List ℕ → Type 0
AreOld now times = All (λ t. t + 60000 ≤ now) times

evict-AreOld : (now : ℕ) (times : List ℕ) → AreOld now times → evict now times ≡ []
unfolding evict
evict-AreOld now [] h = refl
evict-AreOld now (t ∷ ts) (old, rest) = rw (evict-AreOld now ts rest) (ground (arith, old))

admitted_after :
    (now : ℕ) (times : List ℕ)
    → AreOld now times
    → frontend_error_rate_limited now times ≡ (false, now ∷ [])
unfolding frontend_error_rate_limited
admitted_after now times old = rw (evict-AreOld now times old) refl

-- An error that repeats does not stay unreported: when it comes in six minutes or more after its
-- sample was last set, and no report was made in the minute before, it is reported with its operation
-- and name, however often it was suppressed since; its count of repeats starts anew, and it is the
-- only report that the limit counts.
pub report_frontend_error-again :
    (now : ℕ) (random : Fraction) (error operation : Value) (monitor : Monitor) (sample : Sample)
    → 0 < random.below
    → random.above ≤ random.below
    → is_full_text operation ≡ true
    → is_nullish error ≡ false
    → let name = safe_error_name (get "name" error) in
      let key = join (operation_text operation ∷ "\n" ∷ name ∷ []) in
      sample_of key monitor.samples ≡ some sample
      → sample.last + 360000 ≤ now
      → AreOld now monitor.times
      → report_frontend_error
          (record { available = true; now = now; random = some random })
          error
          operation
          monitor
        ≡ record {
          reported = true;
          sent = exception (operation_text operation) name;
          monitor = record {
            times = now ∷ [];
            samples = set_sample (record { key = key; last = now; repeats = 0 }) monitor.samples;
          };
        }
unfolding report_frontend_error report_named
report_frontend_error-again now random error operation monitor sample p h full there found late
      old =
    let name = safe_error_name (get "name" error) in
    let key = join (operation_text operation ∷ "\n" ∷ name ∷ []) in
    rw
      (
        full,
        there,
        suppressed-again key now random monitor.samples sample p h found late,
        admitted_after now monitor.times old,
      )
      refl
