-- ===== src/Sync/Clock/Latest.antt =====
-- The sample that is kept: valid, one of the two, and at least as new as each.
use mathlib.Core.Path.{◌≡◌}
use native.Mathlib.Omega.{arith}
use pomodorough_server.Js.Result.{ok}
use pomodorough_server.Js.Value.{Value, get, is_nullish, null}
use pomodorough_server.Prelude.{
  Bool-cases, inl, inr, ltb, ltb→lt, ◌&&◌, ◌<◌, ◌≤◌, false, true, ℕ, ◌⊎◌,
}
use pomodorough_server.Sync.Clock.{
  natural, latest_clock_offset, outranks, ranks, valid_clock_sample,
}

-- sequence, time of receipt and uncertainty of a sample that is at least as new as another
abbrev pub NewerOf : (a b c d e f : ℕ) → Type 0
NewerOf a b c d e f = (d < a) ⊎ ((a ≡ d) × ((e < b) ⊎ ((b ≡ e) × (c ≤ f))))

-- What is kept is nothing or a valid sample.
latest_clock_offset-valid :
    (stored incoming : Value) {kept : Value}
    → latest_clock_offset stored incoming ≡ ok kept
    → (kept ≡ null) ⊎ (valid_clock_sample kept ≡ true)
unfolding latest_clock_offset
latest_clock_offset-valid stored incoming h = ground arith

ranks_refl : (a b c : ℕ) → ranks a b c a b c ≡ true
unfolding ranks
ranks_refl a b c = ground arith

ranks-total : (a b c d e f : ℕ) → ranks a b c d e f ≡ false → ranks d e f a b c ≡ true
unfolding ranks
ranks-total a b c d e f h = ground arith

outranks_refl : (a : Value) → outranks a a ≡ true
unfolding outranks
outranks_refl a = ranks_refl _ _ _

outranks-total : (a b : Value) → outranks a b ≡ false → outranks b a ≡ true
unfolding outranks
outranks-total a b h = ranks-total _ _ _ _ _ _ h

-- Of two samples, the first is at least as new: it answers a later request, or the same request and
-- was received later, or at the same time and is no less certain.
abbrev pub IsAsNew : Value → Value → Type 0
IsAsNew a b =
    NewerOf (natural (get "requestSequence" a)) (natural (get "receivedAtWallMs" a))
      (natural (get "uncertaintyMs" a)) (natural (get "requestSequence" b))
      (natural (get "receivedAtWallMs" b)) (natural (get "uncertaintyMs" b))

ranks-NewerOf : (a b c d e f : ℕ) → ranks a b c d e f ≡ true → NewerOf a b c d e f
unfolding ranks
ranks-NewerOf a b c d e f h = elim (Bool-cases (ltb d a)) [
  | inl later ↦ inl (ltb→lt d a later)
  | inr same ↦ elim (Bool-cases (ltb e b)) [
    | inl received ↦ inr (ground (arith, h, same), inl (ltb→lt e b received))
    | inr at_once ↦ inr (
      ground (arith, h, same),
      inr (ground (arith, h, same, at_once), ground (arith, h, same, at_once)),
    )
  ]
]

outranks-IsAsNew : (a b : Value) → outranks a b ≡ true → IsAsNew a b
unfolding outranks
outranks-IsAsNew a b h = ranks-NewerOf _ _ _ _ _ _ h

chosen :
    (stored incoming kept : Value)
    → is_nullish incoming ≡ false
    → latest_clock_offset stored incoming ≡ ok kept
    → (outranks kept incoming ≡ true)
      × (valid_clock_sample stored ≡ true → outranks kept stored ≡ true)
      × (valid_clock_sample kept ≡ true)
unfolding latest_clock_offset
chosen stored incoming kept n h =
    ground (arith, outranks_refl stored, outranks_refl incoming, outranks-total stored incoming)

one_of :
    (stored incoming kept : Value)
    → is_nullish incoming ≡ false
    → latest_clock_offset stored incoming ≡ ok kept
    → (kept ≡ stored) ⊎ (kept ≡ incoming)
unfolding latest_clock_offset
one_of stored incoming kept n h =
    elim (Bool-cases (valid_clock_sample stored && outranks stored incoming)) [
      | inl stays ↦ inl (ground (arith, n, h, stays))
      | inr goes ↦ inr (ground (arith, n, h, goes))
    ]

-- When an incoming sample is accepted, what is kept is a valid sample, the stored or the incoming
-- one, and at least as new as the incoming one and as a stored one that is valid: it answers a later
-- request, or the same one and was received later, or at the same time and is no less certain.
pub latest_clock_offset-IsAsNew :
    (stored incoming kept : Value)
    → is_nullish incoming ≡ false
    → latest_clock_offset stored incoming ≡ ok kept
    → ((kept ≡ stored) ⊎ (kept ≡ incoming))
      × IsAsNew kept incoming
      × (valid_clock_sample stored ≡ true → IsAsNew kept stored)
      × (valid_clock_sample kept ≡ true)
latest_clock_offset-IsAsNew stored incoming kept n h =
    let (incoming_older, stored_older, valid) = chosen stored incoming kept n h in
    (
      one_of stored incoming kept n h,
      outranks-IsAsNew kept incoming incoming_older,
      λ there. outranks-IsAsNew kept stored (stored_older there),
      valid,
    )
