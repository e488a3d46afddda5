-- ===== src/Tests/Retries.antt =====
-- The retry of a request at a concrete transport: the first token is refused.
use mathlib.Core.Path.{refl, ◌≡◌}
use native.Mathlib.Omega.{arith}
use pomodorough_server.Js.Result.{ok}
use pomodorough_server.Js.Value.{null, str}
use pomodorough_server.Prelude.{List, String, [], if◌then◌else◌, length, str_eq, ◌∷◌, ◌≤◌}
use pomodorough_server.Sync.Post.{Transport, post_json_with_csrf_retry, retry, return, send}
use pomodorough_server.Sync.Post.Retry.{
  IsCounted, post_json_with_csrf_retry-AtMost, post_json_with_csrf_retry-IsChecked,
}

-- the tokens that were sent are the world
abbrev refusing : Transport (List String)
refusing = record {
  assert_current = return tt;
  next_request_sequence = return 1;
  now = return 1000;
  fetcher = λ token log. (
    ok (record { status = if str_eq token "old" then 403 else 200; content = null }),
    token ∷ log,
  );
  on_timing = λ a b c. return tt;
  refresh_csrf = return (str "new");
}

refusing-IsCounted : IsCounted (length {A = String}) refusing
refusing-IsCounted = record {
  checks = λ w. omega arith;
  sequence = λ w. omega arith;
  time = λ w. omega arith;
  fetch = λ token w. omega arith;
  timing = λ a b c w. omega arith;
  refresh = λ w. omega arith;
}

post_json_with_csrf_retry-AtMost_example :
    length (post_json_with_csrf_retry refusing "old" []).1 ≤ 2
post_json_with_csrf_retry-AtMost_example =
    post_json_with_csrf_retry-AtMost (length {A = String}) refusing "old" refusing-IsCounted []

retried :
    post_json_with_csrf_retry refusing "old" []
    ≡ (ok (record { status = 200; content = null }), "new" ∷ "old" ∷ [])
unfolding post_json_with_csrf_retry send retry
retried = refl

post_json_with_csrf_retry-IsChecked_example :
    (u : List String) × ((refusing.assert_current) u ≡ (ok tt, "new" ∷ "old" ∷ []))
post_json_with_csrf_retry-IsChecked_example =
    post_json_with_csrf_retry-IsChecked refusing "old" [] ("new" ∷ "old" ∷ [])
      (record { status = 200; content = null }) retried
