-- ===== src/Uuid/Reserve/Batches.antt =====
-- The batches of `sequential` and `randomBatch`: runs of consecutive identifiers.
use mathlib.Core.Path.{refl, ◌≡◌}
use native.Mathlib.Omega.{arith}
use pomodorough_server.Js.Result.{Result, bind-eq-ok, err, ok, ◌>>=◌}
use pomodorough_server.Prelude.{
  Bool-cases, List, Option, [], false, inl, inr, leb, length, ltb, none, not, some, suc, sym, true,
  zero, ℕ, ◌%◌, ◌+◌, ◌-◌, ◌<◌, ◌==◌, ◌^◌, ◌∙◌, ◌∷◌, ◌≤◌, ◌⊎◌,
}
use pomodorough_server.Queue.{ids}
use pomodorough_server.Sync.Account.{text}
use pomodorough_server.Sync.Clock.{integer}
use pomodorough_server.Uuid.Parts.{
  UuidParts, assemble, from_parts, max_timestamp_ms, random_max, uuid_text,
}
use pomodorough_server.Uuid.Parts.Roundtrip.{assemble-lt, assemble-lt_time, from_parts-eq-ok}
use pomodorough_server.Uuid.Reserve.{attempt_batch, consecutive, of_bytes, sequential}
use pomodorough_server.Uuid.Reserve.Known.{IsBefore, IsRead}

-- `count` identifiers of one time, with consecutive random numbers
unfoldable pub run : ℕ → ℕ → ℕ → List (List ℕ)
run timestamp_ms random_value zero = []
run timestamp_ms random_value (suc count) =
    uuid_text (assemble timestamp_ms random_value) ∷ run timestamp_ms (random_value + 1) count

pub consecutive-eq-ok :
    (t r n : ℕ) {ids : List (List ℕ)}
    → consecutive t r n ≡ ok ids
    → (ids ≡ run t r n) × ((n ≡ 0) ⊎ ((t ≤ max_timestamp_ms) × (r + n ≤ suc random_max)))
unfolding consecutive run
consecutive-eq-ok t r zero h = (cc, inl refl)
consecutive-eq-ok t r (suc n) {ids} h =
    let (id, made, h1) =
      bind-eq-ok (from_parts t r) (λ id. consecutive t (r + 1) n >>= λ ids. ok (id ∷ ids)) h in
    let (rest, tail, h2) = bind-eq-ok (consecutive t (r + 1) n) (λ ids. ok (id ∷ ids)) h1 in
    let (t_le, r_le, text) = from_parts-eq-ok t r made in
    let (same, bound) = consecutive-eq-ok t (r + 1) n tail in
    (
      rw (sym text, sym same) cc,
      inr (t_le, elim bound [ inl z ↦ omega (arith, z, r_le) | inr b ↦ omega (arith, b.1) ]),
    )

-- Identifiers that go on from a previous one: a run of as many as asked for, at a time not before
-- the one asked for, in range and after the previous one.
pub record IsBatch (previous : Option UuidParts) (t count : ℕ) (ids : List (List ℕ)) : Type 0 where
  pub time : ℕ
  pub random : ℕ
  pub is_run : ids ≡ run time random count
  pub later : t ≤ time
  pub in_time : time ≤ max_timestamp_ms
  pub in_range : random + count ≤ suc random_max
  pub after_previous : IsBefore (assemble time random) previous

pub is_positive {ℓ} : {A : Type ℓ} {n : ℕ} → 1 ≤ n → (n ≡ 0) ⊎ A → A
is_positive h (inl z) = absurd (omega (arith, h, z))
is_positive h (inr a) = a

pub some_ids-eq-some :
    (m : Result (List (List ℕ))) (ids : List (List ℕ))
    → (m >>= λ made. ok (some made)) ≡ ok (some ids)
    → m ≡ ok ids
some_ids-eq-some (ok made) ids h = cc
some_ids-eq-some (err e) ids h = cc

pub some_ids-eq-none : (m : Result (List (List ℕ))) → (m >>= λ made. ok (some made)) ≡ ok none → ⊥
some_ids-eq-none (ok made) h = cc
some_ids-eq-none (err e) h = cc

pub sequential-goes_on :
    (p : UuidParts) (t count : ℕ)
    → ltb p.timestamp_ms t ≡ false
    → ltb random_max (p.random_value + count) ≡ false
    → sequential (some p) t count
      ≡ (consecutive p.timestamp_ms (p.random_value + 1) count >>= λ ids. ok (some ids))
unfolding sequential
sequential-goes_on p t count older room = rw (older, room) refl

pub after_sequential :
    (previous : Option UuidParts) (t count : ℕ) {ids : List (List ℕ)}
    → 1 ≤ count
    → IsRead previous
    → sequential previous t count ≡ ok (some ids)
    → IsBatch previous t count ids
unfolding sequential
after_sequential none t count positive h e = cc
after_sequential (some p) t count {ids} positive h e = elim (Bool-cases (ltb p.timestamp_ms t)) [
  | inl fresh ↦ ground (arith, fresh, e)
  | inr older ↦ elim (Bool-cases (ltb random_max (p.random_value + count))) [
    | inl over ↦ ground (arith, over, older, e)
    | inr room ↦
        let made : consecutive p.timestamp_ms (p.random_value + 1) count ≡ ok ids =
          some_ids-eq-some (consecutive p.timestamp_ms (p.random_value + 1) count) ids
            (sym (sequential-goes_on p t count older room) ∙ e) in
        let (same, bound) = consecutive-eq-ok p.timestamp_ms (p.random_value + 1) count made in
        let (in_time, in_range) = is_positive positive bound in
        let (integer, within) = h in
        record {
          time = p.timestamp_ms;
          random = p.random_value + 1;
          is_run = same;
          later = ground (arith, older);
          in_time = in_time;
          in_range = in_range;
          after_previous = rw integer (
              assemble-lt p.timestamp_ms p.random_value (p.random_value + 1)
                (omega (arith, in_range, positive)) (omega arith));
        }
  ]
]

-- The time of the parts, if there are any, is before a time.
abbrev pub IsEarlier : ℕ → Option UuidParts → Type 0
IsEarlier t none = Unit
IsEarlier t (some p) = p.timestamp_ms < t

pub after_none :
    (previous : Option UuidParts) (t count : ℕ)
    → sequential previous t count ≡ ok none
    → IsEarlier t previous
unfolding sequential
after_none none t count e = tt
after_none (some p) t count e = elim (Bool-cases (ltb p.timestamp_ms t)) [
  | inl fresh ↦ ground (arith, fresh)
  | inr older ↦ elim (Bool-cases (ltb random_max (p.random_value + count))) [
    | inl over ↦ ground (arith, over, older, e)
    | inr room ↦ absurd (
        some_ids-eq-none (consecutive p.timestamp_ms (p.random_value + 1) count)
          (sym (sequential-goes_on p t count older room) ∙ e))
  ]
]

pub attempt-fits :
    (entropy : ℕ → List ℕ) (attempts attempt t count : ℕ)
    → not (length (entropy attempt) == 10) ≡ false
    → leb (of_bytes 0 (entropy attempt) % 2 ^ 74) (random_max - (count - 1)) ≡ true
    → attempt_batch entropy (suc attempts) attempt t count
      ≡ consecutive t (of_bytes 0 (entropy attempt) % 2 ^ 74) count
unfolding attempt_batch
attempt-fits entropy attempts attempt t count ten fits = rw (ten, fits) refl

pub attempt-full :
    (entropy : ℕ → List ℕ) (attempts attempt t count : ℕ)
    → not (length (entropy attempt) == 10) ≡ false
    → leb (of_bytes 0 (entropy attempt) % 2 ^ 74) (random_max - (count - 1)) ≡ false
    → attempt_batch entropy (suc attempts) attempt t count
      ≡ attempt_batch entropy attempts (suc attempt) t count
unfolding attempt_batch
attempt-full entropy attempts attempt t count ten full = rw (ten, full) refl

pub attempt-eq-ok :
    (entropy : ℕ → List ℕ) (attempts attempt t count : ℕ) {ids : List (List ℕ)}
    → 1 ≤ count
    → attempt_batch entropy attempts attempt t count ≡ ok ids
    → (r : ℕ) × (ids ≡ run t r count) × (t ≤ max_timestamp_ms) × (r + count ≤ suc random_max)
unfolding attempt_batch
attempt-eq-ok entropy zero attempt t count positive h = cc
attempt-eq-ok entropy (suc attempts) attempt t count {ids} positive h =
    let r = of_bytes 0 (entropy attempt) % 2 ^ 74 in
    elim (Bool-cases (not (length (entropy attempt) == 10))) [
      | inl other ↦ absurd (ground (arith, other, h))
      | inr ten ↦ elim (Bool-cases (leb r (random_max - (count - 1)))) [
        | inl fits ↦
            let made : consecutive t r count ≡ ok ids =
              sym (attempt-fits entropy attempts attempt t count ten fits) ∙ h in
            let (same, bound) = consecutive-eq-ok t r count made in
            let (in_time, in_range) = is_positive positive bound in (r, same, in_time, in_range)
        | inr full ↦
            attempt-eq-ok entropy attempts (suc attempt) t count positive
              (sym (attempt-full entropy attempts attempt t count ten full) ∙ h)
      ]
    ]

pub IsEarlier-IsBefore :
    (previous : Option UuidParts) (t r : ℕ)
    → IsRead previous
    → r ≤ random_max
    → IsEarlier t previous
    → IsBefore (assemble t r) previous
IsEarlier-IsBefore none t r h within earlier = tt
IsEarlier-IsBefore (some p) t r (integer, p_within) within earlier =
    rw integer (assemble-lt_time p.timestamp_ms t p.random_value r p_within within earlier)
