-- ===== src/Uuid/Reserve/Known.antt =====
-- What is known when identifiers are reserved: the stored identifier and the pending ones, and which
-- of them the previous one is.
use mathlib.Core.Path.{refl, ◌≡◌}
use native.Mathlib.Omega.{arith}
use pomodorough_server.Js.Result.{Result, bind-eq-ok, err, if-eq-ok, ok}
use pomodorough_server.Prelude.{
  All, Bool-cases, List, Option, [], false, if◌then◌else◌, inl, inr, ltb, none, some, subst, ℕ, ◌<◌,
  ◌∷◌, ◌≤◌,
}
use pomodorough_server.Sync.Account.{text}
use pomodorough_server.Uuid.Parts.{UuidParts, assemble, parts, random_max}
use pomodorough_server.Uuid.Parts.Roundtrip.{parts-integer}
use pomodorough_server.Uuid.Reserve.{
  found, latest_pending, newer, newest, or_pending, parsed, predates, predates_pending,
  previous_parts, stored_parts,
}

-- The identifier, if there is one, is before an integer.
abbrev pub IsBefore : ℕ → Option UuidParts → Type 0
IsBefore first none = Unit
IsBefore first (some p) = p.integer < first

-- A text that is an identifier is one before an integer.
abbrev pub ReadsBefore : ℕ → List ℕ → Type 0
ReadsBefore first text = (p : UuidParts) → parts text ≡ ok p → p.integer < first

pub newest-IsBefore :
    (latest : Option UuidParts) (items : List UuidParts) (first : ℕ)
    → IsBefore first (newest latest items)
    → IsBefore first latest × All (λ p. p.integer < first) items
newest-IsBefore latest [] first h = (h, tt)
newest-IsBefore none (x ∷ xs) first h =
    let (before, rest) = newest-IsBefore (some x) xs first h in (tt, (before, rest))
newest-IsBefore (some l) (x ∷ xs) first h =
    let (before, rest) = newest-IsBefore (some (newer (some l) x)) xs first h in
    (ground (arith, before), (ground (arith, before), rest))

pub found-ReadsBefore :
    (r : Result UuidParts) (rest : List UuidParts) (first : ℕ)
    → All (λ p. p.integer < first) (found r rest)
    → ((p : UuidParts) → r ≡ ok p → p.integer < first) × All (λ p. p.integer < first) rest
found-ReadsBefore (ok x) rest first (before, others) =
    (λ p e. let same : x ≡ p = cc in subst (λ q. q.integer < first) same before, others)
found-ReadsBefore (err x) rest first h = (λ p e. cc, h)

pub parsed-ReadsBefore :
    (texts : List (List ℕ)) (first : ℕ)
    → All (λ p. p.integer < first) (parsed texts)
    → All (ReadsBefore first) texts
unfolding parsed
parsed-ReadsBefore [] first h = tt
parsed-ReadsBefore (text ∷ texts) first h =
    let (before, rest) = found-ReadsBefore (parts text) (parsed texts) first h in
    (before, parsed-ReadsBefore texts first rest)

abbrev pub IsRead : Option UuidParts → Type 0
IsRead none = Unit
IsRead (some p) =
    (p.integer ≡ assemble p.timestamp_ms p.random_value) × (p.random_value ≤ random_max)

pub found-IsRead :
    (r : Result UuidParts) (rest : List UuidParts)
    → ((p : UuidParts) → r ≡ ok p → IsRead (some p))
    → All (λ p. IsRead (some p)) rest
    → All (λ p. IsRead (some p)) (found r rest)
found-IsRead (ok x) rest h k = (h x refl, k)
found-IsRead (err e) rest h k = k

pub parsed-IsRead : (texts : List (List ℕ)) → All (λ p. IsRead (some p)) (parsed texts)
unfolding parsed
parsed-IsRead [] = tt
parsed-IsRead (text ∷ texts) =
    found-IsRead (parts text) (parsed texts) (parts-integer text) (parsed-IsRead texts)

pub newer-IsRead :
    (latest : Option UuidParts) (x : UuidParts)
    → IsRead latest
    → IsRead (some x)
    → IsRead (some (newer latest x))
newer-IsRead none x h k = k
newer-IsRead (some l) x h k = elim (Bool-cases (ltb l.integer x.integer)) [
  | inl e ↦ rw e k
  | inr e ↦ rw e h
]

pub newest-IsRead :
    (latest : Option UuidParts) (items : List UuidParts)
    → IsRead latest
    → All (λ p. IsRead (some p)) items
    → IsRead (newest latest items)
newest-IsRead latest [] h k = h
newest-IsRead latest (x ∷ xs) h (k, ks) =
    newest-IsRead (some (newer latest x)) xs (newer-IsRead latest x h k) ks

pub previous-eq-ok :
    (stored : Option (List ℕ)) (pending : List (List ℕ)) {previous : Option UuidParts}
    → previous_parts stored pending ≡ ok previous
    → (s : Option UuidParts) × (stored_parts stored ≡ ok s)
      × (predates s (latest_pending pending) ≡ false)
      × (or_pending s (latest_pending pending) ≡ previous)
unfolding previous_parts
previous-eq-ok stored pending h =
    let (s, read, rest) =
      bind-eq-ok (stored_parts stored)
        (λ s.
          if predates s (latest_pending pending)
          then err predates_pending
          else ok (or_pending s (latest_pending pending)))
        h in
    let (newer_stored, same) =
      if-eq-ok (predates s (latest_pending pending)) predates_pending
        (ok (or_pending s (latest_pending pending))) rest in
    (s, read, newer_stored, cc)

pub stored-IsRead :
    (stored : Option (List ℕ)) {s : Option UuidParts} → stored_parts stored ≡ ok s → IsRead s
stored-IsRead none {s} h = let same : none ≡ s = cc in subst IsRead same tt
stored-IsRead (some text) {s} h =
    let (p, read, made) = bind-eq-ok (parts text) (λ p. ok (some p)) h in
    let same : some p ≡ s = cc in subst IsRead same (parts-integer text p read)

pub or_pending-IsRead :
    (s pending : Option UuidParts) → IsRead s → IsRead pending → IsRead (or_pending s pending)
or_pending-IsRead none pending h k = k
or_pending-IsRead (some p) pending h k = h

pub or_pending-IsBefore :
    (s pending : Option UuidParts) (first : ℕ)
    → predates s pending ≡ false
    → IsBefore first (or_pending s pending)
    → IsBefore first s × IsBefore first pending
or_pending-IsBefore none pending first h k = (tt, k)
or_pending-IsBefore (some p) none first h k = (k, tt)
or_pending-IsBefore (some p) (some q) first h k = (k, ground (arith, h, k))

pub latest-ReadsBefore :
    (pending : List (List ℕ)) (first : ℕ)
    → IsBefore first (latest_pending pending)
    → All (ReadsBefore first) pending
unfolding latest_pending
latest-ReadsBefore pending first h =
    parsed-ReadsBefore pending first (newest-IsBefore none (parsed pending) first h).1

pub stored-ReadsBefore :
    (text : List ℕ) (s : Option UuidParts) (first : ℕ)
    → stored_parts (some text) ≡ ok s
    → IsBefore first s
    → ReadsBefore first text
stored-ReadsBefore text s first h k p e =
    let (q, read, made) = bind-eq-ok (parts text) (λ p. ok (some p)) h in
    let same : s ≡ some p = cc in subst (IsBefore first) same k
