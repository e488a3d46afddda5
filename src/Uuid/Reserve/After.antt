-- ===== src/Uuid/Reserve/After.antt =====
-- The identifiers that `reserve` gives: as many as asked for, one after the other, and after every
-- one that is known.
use mathlib.Core.Path.{◌≡◌}
use native.Mathlib.Omega.{arith}
use pomodorough_server.Js.Num.{max_safe}
use pomodorough_server.Js.Result.{bind-eq-ok, if-eq-ok, ok, ◌>>=◌}
use pomodorough_server.Prelude.{
  All, List, Option, false, ltb, none, some, subst, suc, sym, ℕ, ◌+◌, ◌==◌, ◌||◌, ◌≤◌,
}
use pomodorough_server.Sync.DateTime.{in_range}
use pomodorough_server.Uuid.Parts.{UuidParts, assemble, max_timestamp_ms, out_of_range, random_max}
use pomodorough_server.Uuid.Reserve.{
  latest_pending, or_pending, or_random, parsed, predates, previous_parts, random_batch, reserve,
  sequential, stored_parts,
}
use pomodorough_server.Uuid.Reserve.Batches.{
  IsBatch, IsEarlier-IsBefore, after_none, after_sequential, attempt-eq-ok, run,
}
use pomodorough_server.Uuid.Reserve.Known.{
  IsRead, ReadsBefore, latest-ReadsBefore, newest-IsRead, or_pending-IsBefore, or_pending-IsRead,
  parsed-IsRead, previous-eq-ok, stored-IsRead, stored-ReadsBefore,
}

-- one of the two ways that `reserve` goes
IsBatch-eq-ok :
    (entropy : ℕ → List ℕ) (previous : Option UuidParts) (t count : ℕ)
    (made : Option (List (List ℕ))) {ids : List (List ℕ)}
    → 1 ≤ count
    → IsRead previous
    → sequential previous t count ≡ ok made
    → or_random made (random_batch entropy t count) ≡ ok ids
    → IsBatch previous t count ids
unfolding random_batch
IsBatch-eq-ok entropy previous t count (some made) positive read h e =
    let same : made ≡ _ = cc in
    subst (IsBatch previous t count) same (after_sequential previous t count positive read h)
IsBatch-eq-ok entropy previous t count none positive read h e =
    let (r, same, in_time, in_range) = attempt-eq-ok entropy 16 0 t count positive e in
    record {
      time = t;
      random = r;
      is_run = same;
      later = omega arith;
      in_time = in_time;
      in_range = in_range;
      after_previous =
          IsEarlier-IsBefore previous t r read (omega (arith, in_range, positive))
            (after_none previous t count h);
    }

-- a reservation goes on from the previous identifier
reserve-IsBatch :
    (entropy : ℕ → List ℕ) (t count : ℕ) (stored : Option (List ℕ)) (pending : List (List ℕ))
    {ids : List (List ℕ)}
    → reserve entropy t count stored pending ≡ ok ids
    → (s : Option UuidParts) × (stored_parts stored ≡ ok s)
      × (predates s (latest_pending pending) ≡ false)
      × IsBatch (or_pending s (latest_pending pending)) t count ids
unfolding reserve latest_pending
reserve-IsBatch entropy t count stored pending {ids} h =
    let (in_range, going) =
      if-eq-ok (t == 0 || ltb max_timestamp_ms t || count == 0 || ltb max_safe count) out_of_range
        (previous_parts stored pending >>= λ previous.
          sequential previous t count >>= λ ids. or_random ids (random_batch entropy t count))
        h in
    let (previous, found_parts, h1) =
      bind-eq-ok (previous_parts stored pending)
        (λ previous.
          sequential previous t count >>= λ ids. or_random ids (random_batch entropy t count))
        going in
    let (made, went, h2) =
      bind-eq-ok (sequential previous t count) (λ ids. or_random ids (random_batch entropy t count))
        h1 in
    let (s, read, newer_stored, same) = previous-eq-ok stored pending found_parts in
    let read_previous : IsRead previous = subst IsRead same (
      or_pending-IsRead s (latest_pending pending) (stored-IsRead stored read)
        (newest-IsRead none (parsed pending) tt (parsed-IsRead pending))) in
    (
      s,
      read,
      newer_stored,
      subst (λ o. IsBatch o t count ids) (sym same)
          (IsBatch-eq-ok entropy previous t count made (ground (arith, in_range)) read_previous went
            h2),
    )

-- The identifiers that a reservation gives, however the entropy comes out, are as many as asked
-- for: they are of one time, not before the time asked for, with consecutive random numbers in
-- range; and the first comes after the stored identifier and after every pending one that is a
-- version 7 identifier.
pub reserve-after :
    (entropy : ℕ → List ℕ) (t count : ℕ) (stored : Option (List ℕ)) (pending : List (List ℕ))
    {ids : List (List ℕ)}
    → reserve entropy t count stored pending ≡ ok ids
    → (time : ℕ) × (random : ℕ) × (ids ≡ run time random count)
      × (t ≤ time)
      × (time ≤ max_timestamp_ms)
      × (random + count ≤ suc random_max)
      × All (ReadsBefore (assemble time random)) pending
      × ((text : List ℕ) → stored ≡ some text → ReadsBefore (assemble time random) text)
reserve-after entropy t count stored pending {ids} h =
    let (s, read, newer_stored, batch) = reserve-IsBatch entropy t count stored pending h in
    let first = assemble batch.time batch.random in
    let (stored_before, pending_before) =
      or_pending-IsBefore s (latest_pending pending) first newer_stored batch.after_previous in
    (
      batch.time,
      batch.random,
      batch.is_run,
      batch.later,
      batch.in_time,
      batch.in_range,
      latest-ReadsBefore pending first pending_before,
      λ text e.
          stored-ReadsBefore text s first (subst (λ o. stored_parts o ≡ ok s) e read) stored_before,
    )
