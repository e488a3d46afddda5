-- ===== src/Sync/Post.antt =====
-- `postJSONWithCsrfRetry` of web/sync-core.js. What the caller passes in (`fetcher`, `now`,
-- `refreshCsrf` and so on) is a parameter: each is an effect, from a world to a result and a world.
pub mod Retry
use pomodorough_server.Js.Result.{Result, Thrown, err, ok, plain, thrown}
use pomodorough_server.Js.Value.{Value, is_full_text}
use pomodorough_server.Prelude.{String, if◌then◌else◌, not, ℕ, ◌==◌}
use pomodorough_server.Sync.Account.{text}

abbrev pub Effect : Type 0 → Type 0 → Type 0
Effect W A = W → Result A × W

abbrev pub after_effect : {W A B : Type 0} → (A → Effect W B) → Result A × W → Result B × W
after_effect f (ok a, w) = f a w
after_effect f (err e, w) = (err e, w)

infixl 5 ◌>>=◌
abbrev pub ◌>>=◌ : {W A B : Type 0} → Effect W A → (A → Effect W B) → Effect W B
m >>= f = λ w. after_effect f (m w)

abbrev pub return : {W A : Type 0} → A → Effect W A
return a w = (ok a, w)

pub record Answer : Type 0 where
  pub status : ℕ
  pub content : Value

-- the token is the one part of a request that differs between its two sendings
pub record Transport (W : Type 0) : Type 0 where
  pub assert_current : Effect W (Unit {0})
  pub next_request_sequence : Effect W ℕ
  pub now : Effect W ℕ
  pub fetcher : String → Effect W Answer
  pub on_timing : ℕ → ℕ → ℕ → Effect W (Unit {0})
  pub refresh_csrf : Effect W Value

abbrev pub csrf_failed : Thrown
csrf_failed = thrown plain "CSRF refresh failed."

module _ {W : Type 0} (t : Transport W) where
  unfoldable pub send : String → Effect W Answer
  send csrf_token = t.assert_current >>= λ _. t.next_request_sequence >>= λ request_sequence.
      t.assert_current >>= λ _. t.now >>= λ request_at_ms. t.assert_current >>= λ _.
      t.fetcher csrf_token >>= λ response. t.assert_current >>= λ _. t.now >>= λ received_at_ms.
      t.assert_current >>= λ _.
      t.on_timing request_at_ms received_at_ms request_sequence >>= λ _. return response

  -- what follows the first answer
  unfoldable pub retry : Value → Effect W Answer
  retry token =
      if not (is_full_text token)
      then (λ w. (err csrf_failed, w))
      else (send (text token) >>= λ response. t.assert_current >>= λ _. return response)

  unfoldable pub post_json_with_csrf_retry : String → Effect W Answer
  post_json_with_csrf_retry csrf_token = send csrf_token >>= λ response. t.assert_current >>= λ _.
      if not (response.status == 403)
      then return response
      else (t.assert_current >>= λ _.
          t.refresh_csrf >>= λ refreshed_token. t.assert_current >>= λ _. retry refreshed_token)
