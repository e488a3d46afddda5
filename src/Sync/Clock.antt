-- ===== src/Sync/Clock.antt =====
-- `validClockSample` of web/sync-core.js and `latestClockOffset` of web/sync-storage.js: the
-- samples of the server's clock, and which of two is kept.
pub mod Latest
use pomodorough_server.Js.Num.{is_between, is_safe, is_safe_integer, max_safe}
use pomodorough_server.Js.Result.{Result, clock_range, err, ok, thrown}
use pomodorough_server.Js.Value.{Value, get, int, is_nullish, is_object, null}
use pomodorough_server.Prelude.{Bool, false, if◌then◌else◌, leb, ltb, not, ℕ, ◌&&◌, ◌==◌, ◌||◌}
use pomodorough_server.Prelude.Int.{ltb_ℤ, pos, ℤ, ◌+ℤ◌}

-- a number of the value, if it is an integer that is safe and not negative
abbrev pub natural : Value → ℕ
natural (int (pos n)) = n
natural v = 0

abbrev pub integer : Value → ℤ
integer (int i) = i
integer v = pos 0

abbrev pub max_clock_uncertainty_ms : ℕ
max_clock_uncertainty_ms = 30000

unfoldable pub valid_clock_sample : Value → Bool
valid_clock_sample sample =
    if not (is_object sample)
      || not (is_safe_integer (get "offsetMs" sample))
      || not (is_between 0 max_clock_uncertainty_ms (get "uncertaintyMs" sample))
      || not (is_between 1 max_safe (get "sampledAtWallMs" sample))
      || not (is_between 1 max_safe (get "requestSequence" sample))
      || not (is_between 1 max_safe (get "receivedAtWallMs" sample))
    then false
    else if ltb (natural (get "receivedAtWallMs" sample)) (natural (get "sampledAtWallMs" sample))
    then false
    else let server_time =
        integer (get "sampledAtWallMs" sample) +ℤ integer (get "offsetMs" sample) in
      is_safe server_time && ltb_ℤ (pos 0) server_time

-- sequence, time of receipt and uncertainty of a sample, and those of another: the first is kept
unfoldable pub ranks : ℕ → ℕ → ℕ → ℕ → ℕ → ℕ → Bool
ranks sequence received uncertainty sequence' received' uncertainty' =
    ltb sequence' sequence
    || sequence == sequence'
      && (ltb received' received || received == received' && leb uncertainty uncertainty')

-- a stored sample is kept against an incoming one
unfoldable pub outranks : Value → Value → Bool
outranks stored incoming =
    ranks (natural (get "requestSequence" stored)) (natural (get "receivedAtWallMs" stored))
      (natural (get "uncertaintyMs" stored)) (natural (get "requestSequence" incoming))
      (natural (get "receivedAtWallMs" incoming)) (natural (get "uncertaintyMs" incoming))

unfoldable pub latest_clock_offset : Value → Value → Result Value
latest_clock_offset stored incoming =
    if is_nullish incoming
    then ok (if valid_clock_sample stored then stored else null)
    else if not (valid_clock_sample incoming)
    then err (thrown clock_range "Local clock or sequence is outside the synchronization range.")
    else if valid_clock_sample stored && outranks stored incoming
    then ok stored
    else ok incoming
