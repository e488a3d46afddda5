-- ===== src/Uuid/Reserve.antt =====
-- The reservation of identifiers: `latestPending`, `sequential`, `randomBatch` and `reserve`. The
-- source of random bytes is a parameter, the bytes that it gives at each attempt.
pub mod Known
pub mod Batches
pub mod After
use pomodorough_server.Js.Num.{max_safe}
use pomodorough_server.Js.Result.{Kind, Result, Thrown, err, ok, thrown, uuid_range, ◌>>=◌, ◌>>◌}
use pomodorough_server.Js.Value.{items}
use pomodorough_server.Prelude.{
  Bool, List, Option, [], false, if◌then◌else◌, leb, length, ltb, none, not, some, suc, zero, ℕ,
  ◌%◌, ◌*◌, ◌+◌, ◌-◌, ◌==◌, ◌^◌, ◌||◌, ◌∷◌,
}
use pomodorough_server.Queue.{ids}
use pomodorough_server.Sync.Account.{text}
use pomodorough_server.Sync.Clock.{integer}
use pomodorough_server.Uuid.Parts.{
  UuidParts, from_parts, max_timestamp_ms, out_of_range, parts, random_max,
}

abbrev pub found : Result UuidParts → List UuidParts → List UuidParts
found (ok p) rest = p ∷ rest
found (err e) rest = rest

-- the identifiers among the texts; others are left out
unfoldable pub parsed : List (List ℕ) → List UuidParts
parsed [] = []
parsed (text ∷ texts) = found (parts text) (parsed texts)

abbrev pub newer : Option UuidParts → UuidParts → UuidParts
newer none item = item
newer (some latest) item = if ltb latest.integer item.integer then item else latest

abbrev pub newest : Option UuidParts → List UuidParts → Option UuidParts
newest latest [] = latest
newest latest (item ∷ items) = newest (some (newer latest item)) items

unfoldable pub latest_pending : List (List ℕ) → Option UuidParts
latest_pending pending_ids = newest none (parsed pending_ids)

-- `Array.from({ length: count }, (_, index) => fromParts(timestampMs, randomValue + index))`
unfoldable pub consecutive : ℕ → ℕ → ℕ → Result (List (List ℕ))
consecutive timestamp_ms random_value zero = ok []
consecutive timestamp_ms random_value (suc count) = do
  id ← from_parts timestamp_ms random_value
  ids ← consecutive timestamp_ms (random_value + 1) count
  ok (id ∷ ids)

-- `null` is none
unfoldable pub sequential : Option UuidParts → ℕ → ℕ → Result (Option (List (List ℕ)))
sequential none timestamp_ms count = ok none
sequential (some previous) timestamp_ms count =
    if ltb previous.timestamp_ms timestamp_ms
    then ok none
    else if ltb random_max (previous.random_value + count)
    then err (thrown Kind.uuid_range "UUIDv7 random value has no headroom.")
    else consecutive previous.timestamp_ms (previous.random_value + 1) count >>= λ ids.
        ok (some ids)

-- the number that bytes spell
abbrev pub of_bytes : ℕ → List ℕ → ℕ
of_bytes value [] = value
of_bytes value (byte ∷ bytes) = of_bytes (value * 256 + byte % 256) bytes

-- the attempts from a first one on, `attempts` of them
unfoldable pub attempt_batch : (ℕ → List ℕ) → ℕ → ℕ → ℕ → ℕ → Result (List (List ℕ))
attempt_batch entropy zero attempt timestamp_ms count =
    err (thrown Kind.uuid_range "UUIDv7 entropy lacks reservation headroom.")
attempt_batch entropy (suc attempts) attempt timestamp_ms count =
    let rest = attempt_batch entropy attempts (suc attempt) timestamp_ms count in
    let random_value = of_bytes 0 (entropy attempt) % 2 ^ 74 in
    if not (length (entropy attempt) == 10)
    then err (thrown Kind.uuid_range "UUIDv7 entropy source returned invalid data.")
    else if leb random_value (random_max - (count - 1))
    then consecutive timestamp_ms random_value count
    else rest

-- `ENTROPY_ATTEMPTS` is 16
unfoldable pub random_batch : (ℕ → List ℕ) → ℕ → ℕ → Result (List (List ℕ))
random_batch entropy timestamp_ms count = attempt_batch entropy 16 0 timestamp_ms count

abbrev pub stored_parts : Option (List ℕ) → Result (Option UuidParts)
stored_parts none = ok none
stored_parts (some text) = parts text >>= λ p. ok (some p)

-- `storedParts && pendingParts && pendingParts.integer > storedParts.integer`
abbrev pub predates : Option UuidParts → Option UuidParts → Bool
predates (some stored) (some pending) = ltb stored.integer pending.integer
predates _ _ = false

-- `storedParts || pendingParts`
abbrev pub or_pending : Option UuidParts → Option UuidParts → Option UuidParts
or_pending none pending = pending
or_pending (some stored) pending = some stored

abbrev pub predates_pending : Thrown
predates_pending = thrown Kind.uuid_range "Persisted UUIDv7 state predates a pending identifier."

-- what `reserve` goes on from
unfoldable pub previous_parts : Option (List ℕ) → List (List ℕ) → Result (Option UuidParts)
previous_parts stored pending_ids = do
  stored ← stored_parts stored
  if predates stored (latest_pending pending_ids)
      then err predates_pending
      else ok (or_pending stored (latest_pending pending_ids))

abbrev pub or_random : Option (List (List ℕ)) → Result (List (List ℕ)) → Result (List (List ℕ))
or_random none fresh = fresh
or_random (some ids) fresh = ok ids

unfoldable pub reserve :
    (ℕ → List ℕ) → ℕ → ℕ → Option (List ℕ) → List (List ℕ) → Result (List (List ℕ))
reserve entropy timestamp_ms count stored pending_ids =
    if timestamp_ms == 0 || ltb max_timestamp_ms timestamp_ms || count == 0 || ltb max_safe count
    then err out_of_range
    else previous_parts stored pending_ids >>= λ previous.
        sequential previous timestamp_ms count >>= λ ids.
        or_random ids (random_batch entropy timestamp_ms count)
