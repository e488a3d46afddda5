-- ===== src/Tests/Monitors.antt =====
-- Error monitoring at concrete inputs.
use mathlib.Core.Path.{refl, ◌≡◌}
use native.Mathlib.Omega.{arith}
use pomodorough_server.Js.Value.{Value, arr, end, null, obj, of_list, prop, str}
use pomodorough_server.Monitor.{
  clean_breadcrumb, is_event_id, known_or, safe_error_name, scrub_final_event,
}
use pomodorough_server.Monitor.Privacy.{IsPublic, TextsAre, scrub_final_event-TextsAre}
use pomodorough_server.Monitor.Rate.{
  Fraction, Monitor, exception, report_frontend_error, set_sample,
}
use pomodorough_server.Monitor.Rate.Backoff.{report_frontend_error-again}
use pomodorough_server.Monitor.Rate.Window.{
  Failure, count_in, report_frontend_error-AtMost, reported_times,
}
use pomodorough_server.Prelude.{List, String, [], some, true, ℕ, ◌∷◌, ◌≤◌}

abbrev private_event : Value
private_event = obj (
    prop "message" (str "secret") (
      prop "tags" (obj (prop "error.operation" (str "storage.failure") end)) (
        prop "exception"
          (obj (
            prop "values"
              (arr (
                of_list
                  (obj (prop "type" (str "TypeError") (prop "value" (str "secret") end)) ∷ [])))
              end))
          (prop "breadcrumbs"
            (arr (
              of_list (
                null
                ∷ obj (prop "category" (str "fetch") (prop "message" (str "secret") end))
                ∷ [])))
            end))))

abbrev public_event : Value
public_event = obj (
    prop "platform" (str "javascript") (
      prop "environment" (str "production") (
        prop "release" (str "web@1") (
          prop "level" (str "error") (
            prop "tags" (obj (prop "error.operation" (str "storage.failure") end)) (
              prop "exception"
                (obj (
                  prop "values"
                    (arr (
                      of_list (
                        obj
                          (prop "type" (str "TypeError") (prop "value" (str "storage.failure") end))
                        ∷ [])))
                    end))
                (prop "breadcrumbs"
                  (arr (
                    of_list (
                      obj (prop "category" (str "fetch") (prop "message" (str "[redacted]") end))
                      ∷ [])))
                  end)))))))

scrubbed : scrub_final_event private_event "web@1" ≡ some public_event
unfolding scrub_final_event safe_error_name clean_breadcrumb is_event_id
scrubbed = refl

scrub_final_event-TextsAre_example : TextsAre (IsPublic "web@1") public_event
scrub_final_event-TextsAre_example =
    scrub_final_event-TextsAre private_event "web@1" public_event scrubbed

abbrev failure_at : ℕ → String → Failure
failure_at now operation = record {
  moment = record { available = true; now = now; random = some (record { above = 1; below = 2 }) };
  error = obj (prop "name" (str "TypeError") end);
  operation = str operation;
}

abbrev failures : List Failure
failures = failure_at 5 "a" ∷ failure_at 7 "a" ∷ failure_at 7 "b" ∷ failure_at 90000 "a" ∷ []

reported : reported_times failures (record { times = []; samples = [] }) ≡ 5 ∷ 7 ∷ 90000 ∷ []
unfolding report_frontend_error safe_error_name known_or
reported = refl

report_frontend_error-AtMost_example :
    count_in 0 (reported_times failures (record { times = []; samples = [] })) ≤ 10
report_frontend_error-AtMost_example =
    report_frontend_error-AtMost 0 0 failures
      (omega arith, (omega arith, (omega arith, (omega arith, tt))))

abbrev often : Monitor
often = record {
  times = 1000 ∷ 2000 ∷ [];
  samples = record { key = "a\nTypeError"; last = 1000; repeats = 9 } ∷ [];
}

abbrev half : Fraction
half = record { above = 1; below = 2 }

report_frontend_error-again_example :
    report_frontend_error
      (record { available = true; now = 361000; random = some half })
      (obj (prop "name" (str "TypeError") end))
      (str "a")
      often
    ≡ record {
      reported = true;
      sent = exception "a" "TypeError";
      monitor = record {
        times = 361000 ∷ [];
        samples =
            set_sample (record { key = "a\nTypeError"; last = 361000; repeats = 0 }) often.samples;
      };
    }
unfolding safe_error_name known_or
report_frontend_error-again_example =
    report_frontend_error-again 361000 half (obj (prop "name" (str "TypeError") end)) (str "a")
      often (record { key = "a\nTypeError"; last = 1000; repeats = 9 }) (omega arith) (omega arith)
      refl refl refl (omega arith) (omega arith, (omega arith, tt))
