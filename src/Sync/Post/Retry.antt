-- ===== src/Sync/Post/Retry.antt =====
-- How often a request is sent, and when its answer is given.
use mathlib.Core.Path.{◌≡◌}
use native.Mathlib.Omega.{arith}
use pomodorough_server.Js.Result.{Result, Thrown, err, ok}
use pomodorough_server.Js.Value.{Value, is_full_text}
use pomodorough_server.Prelude.{
  Bool, String, ap, false, if◌then◌else◌, not, true, ℕ, ◌+◌, ◌==◌, ◌≤◌,
}
use pomodorough_server.Sync.Account.{text}
use pomodorough_server.Sync.Post.{
  Effect, Transport, after_effect, csrf_failed, post_json_with_csrf_retry, retry, return, send,
}
use pomodorough_server.Sync.Post.{◌>>=◌}

module _ {W : Type 0} (count : W → ℕ) where
  -- An effect adds no more than a number to what is counted.
  abbrev pub AtMost : {A : Type 0} → ℕ → Effect W A → Type 0
  AtMost n m = (w : W) → count (m w).1 ≤ count w + n

  after-AtMost :
      {A B : Type 0} (a b : ℕ) (w : W) (f : A → Effect W B) (q : Result A × W)
      → ((x : A) → AtMost b (f x))
      → count q.1 ≤ count w + a
      → count (after_effect f q).1 ≤ count w + (a + b)
  after-AtMost a b w f (ok x, v) h k = omega (arith, h x v, k)
  after-AtMost a b w f (err e, v) h k = omega (arith, k)

  bind-AtMost :
      {A B : Type 0} (a b : ℕ) (m : Effect W A) (f : A → Effect W B)
      → AtMost a m
      → ((x : A) → AtMost b (f x))
      → AtMost (a + b) (m >>= f)
  bind-AtMost a b m f h k w = after-AtMost a b w f (m w) k (h w)

  if-AtMost :
      {A : Type 0} (n : ℕ) (b : Bool) (m k : Effect W A)
      → AtMost n m
      → AtMost n k
      → AtMost n (if b then m else k)
  if-AtMost n true m k h l = h
  if-AtMost n false m k h l = l

  -- Of what the caller passes in, only the fetcher sends a request, and it sends one.
  pub record IsCounted (t : Transport W) : Type 0 where
    pub checks : AtMost 0 t.assert_current
    pub sequence : AtMost 0 t.next_request_sequence
    pub time : AtMost 0 t.now
    pub fetch : (token : String) → AtMost 1 (t.fetcher token)
    pub timing : (a b c : ℕ) → AtMost 0 (t.on_timing a b c)
    pub refresh : AtMost 0 t.refresh_csrf

  send-AtMost : (t : Transport W) (token : String) → IsCounted t → AtMost 1 (send t token)
  unfolding send
  send-AtMost t token h = bind-AtMost 0 1 t.assert_current _ h.checks (λ _.
      bind-AtMost 0 1 t.next_request_sequence _ h.sequence (λ s.
        bind-AtMost 0 1 t.assert_current _ h.checks (λ _. bind-AtMost 0 1 t.now _ h.time (λ a.
          bind-AtMost 0 1 t.assert_current _ h.checks (λ _.
            bind-AtMost 1 0 (t.fetcher token) _ (h.fetch token) (λ r.
              bind-AtMost 0 0 t.assert_current _ h.checks (λ _. bind-AtMost 0 0 t.now _ h.time (λ b.
                bind-AtMost 0 0 t.assert_current _ h.checks (λ _.
                  bind-AtMost 0 0 (t.on_timing a b s) _ (h.timing a b s)
                    (λ _. (λ w. omega arith)))))))))))

  retry-AtMost : (t : Transport W) (v : Value) → IsCounted t → AtMost 1 (retry t v)
  unfolding retry
  retry-AtMost t v h =
      if-AtMost 1 (not (is_full_text v)) (λ w. (err csrf_failed, w)) _ (λ w. omega arith)
        (bind-AtMost 1 0 (send t (text v)) _ (send-AtMost t (text v) h)
          (λ r. bind-AtMost 0 0 t.assert_current _ h.checks (λ _. (λ w. omega arith))))

  -- However the answers and the checks come out, a request is sent at most twice.
  pub post_json_with_csrf_retry-AtMost :
      (t : Transport W) (csrf_token : String)
      → IsCounted t
      → AtMost 2 (post_json_with_csrf_retry t csrf_token)
  unfolding post_json_with_csrf_retry
  post_json_with_csrf_retry-AtMost t csrf_token h =
      bind-AtMost 1 1 (send t csrf_token) _ (send-AtMost t csrf_token h) (λ r.
        bind-AtMost 0 1 t.assert_current _ h.checks (λ _.
          if-AtMost 1 (not (r.status == 403)) (return r) _ (λ w. omega arith)
            (bind-AtMost 0 1 t.assert_current _ h.checks (λ _.
              bind-AtMost 0 1 t.refresh_csrf _ h.refresh
                (λ v. bind-AtMost 0 1 t.assert_current _ h.checks (λ _. retry-AtMost t v h))))))

module _ {W : Type 0} (t : Transport W) where
  -- An answer of an effect is given in a world that the caller's check has just passed.
  abbrev pub IsChecked : {A : Type 0} → Effect W A → Type 0
  IsChecked {A} m =
      (w v : W) (a : A) → m w ≡ (ok a, v) → (u : W) × (t.assert_current u ≡ (ok tt, v))

  after-IsChecked :
      {A B : Type 0} (f : A → Effect W B) (q : Result A × W) (v : W) (b : B)
      → ((x : A) → IsChecked (f x))
      → after_effect f q ≡ (ok b, v)
      → (u : W) × (t.assert_current u ≡ (ok tt, v))
  after-IsChecked f (ok x, w) v b h e = h x w v b e
  after-IsChecked f (err x, w) v b h e = cc

  bind-IsChecked :
      {A B : Type 0} (m : Effect W A) (f : A → Effect W B)
      → ((x : A) → IsChecked (f x))
      → IsChecked (m >>= f)
  bind-IsChecked m f h w v b e = after-IsChecked f (m w) v b h e

  after-return :
      {A : Type 0} (q : Result (Unit {0}) × W) (a b : A) (v : W)
      → after_effect (λ _. return a) q ≡ (ok b, v)
      → q ≡ (ok tt, v)
  after-return (ok tt, w) a b v e = ap (λ (r : Result _ × W). (ok tt, r.1)) e
  after-return (err x, w) a b v e = cc

  return-IsChecked : {A : Type 0} (a : A) → IsChecked (t.assert_current >>= λ _. return a)
  return-IsChecked a w v b e = (w, after-return (t.assert_current w) a b v e)

  if_return-IsChecked :
      {A : Type 0} (b : Bool) (a : A) (m : Effect W A)
      → IsChecked m
      → IsChecked (t.assert_current >>= λ _. if b then return a else m)
  if_return-IsChecked true a m h = return-IsChecked a
  if_return-IsChecked false a m h = bind-IsChecked t.assert_current (λ _. m) (λ _. h)

  if-IsChecked :
      {A : Type 0} (b : Bool) (e : Thrown) (m : Effect W A)
      → IsChecked m
      → IsChecked (if b then (λ w. (err e, w)) else m)
  if-IsChecked true e m h = λ w v a k. cc
  if-IsChecked false e m h = h

  retry-IsChecked : (v : Value) → IsChecked (retry t v)
  unfolding retry
  retry-IsChecked v =
      if-IsChecked (not (is_full_text v)) csrf_failed _
        (bind-IsChecked (send t (text v)) _ (λ r. return-IsChecked r))

  -- An answer is given only when the caller's check has just passed: after a first answer that is
  -- not a refusal, and after a second one.
  pub post_json_with_csrf_retry-IsChecked :
      (csrf_token : String) → IsChecked (post_json_with_csrf_retry t csrf_token)
  unfolding post_json_with_csrf_retry
  post_json_with_csrf_retry-IsChecked csrf_token = bind-IsChecked (send t csrf_token) _ (λ r.
      if_return-IsChecked (not (r.status == 403)) r _ (
        bind-IsChecked t.assert_current _ (λ _.
          bind-IsChecked t.refresh_csrf _
            (λ v. bind-IsChecked t.assert_current _ (λ _. retry-IsChecked v)))))
