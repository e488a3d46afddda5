-- ===== src/App/Scope/Handoff.antt =====
-- When a context of an account is current, and what a handed-over account does to it.
use mathlib.Core.Path.{refl, ◌≡◌}
use native.Mathlib.Omega.{arith}
use pomodorough_server.App.Scope.{
  AccountIdentity, Marker, Published, Scope, Surroundings, account_identity, adopt,
  assert_connection, assert_current, assert_identity, bind_context, current_owner, is_current,
  is_named, markers, not_owner, publish_identity, same_connection, same_marker, same_name,
  unavailable,
}
use pomodorough_server.Js.Result.{Result, bind-eq-ok, err, ok, ok-injective}
use pomodorough_server.Prelude.{
  Bool, Bool-cases, Option, String, false, false≢true, inl, inr, none, not, some, subst, sym, true,
  ℕ, ◌&&◌, ◌∙◌,
}
use text.Mathlib.TextPositions.{eq_refl}

same_name_refl : (a : Option String) → same_name a a ≡ true
same_name_refl none = refl
same_name_refl (some s) = eq_refl s

same_marker_refl : (m : Marker) → same_marker m m ≡ true
same_marker_refl unavailable = refl
same_marker_refl (markers a b) = rw (same_name_refl a, same_name_refl b) refl

same_connection_refl : (a : Option ℕ) → same_connection a a ≡ true
same_connection_refl none = refl
same_connection_refl (some n) = ground arith

connection_of_bind :
    (identity : AccountIdentity) (world : Surroundings)
    → assert_connection (bind_context identity world) world ≡ ok tt
unfolding assert_connection bind_context
connection_of_bind identity world = rw (same_connection_refl world.database) refl

-- An identity that was just taken is current.
assert_identity-account_identity :
    (world : Surroundings) (identity : AccountIdentity)
    → account_identity world ≡ ok identity
    → assert_identity identity world ≡ ok tt
unfolding account_identity assert_identity
assert_identity-account_identity world identity h =
    let (owner, now, made) = bind-eq-ok (current_owner world) _ h in
    let taken : record { owner = owner; local_owner = world.local_owner; marker = world.marker }
        ≡ identity =
      cc in
    rw (← taken, now)
      (rw (same_name_refl owner, same_name_refl world.local_owner, same_marker_refl world.marker)
        refl)

-- Another owner than that of the identity.
assert_identity-other :
    (world : Surroundings) (identity next : AccountIdentity)
    → account_identity world ≡ ok next
    → same_name next.owner identity.owner ≡ false
    → assert_identity identity world ≡ err not_owner
unfolding account_identity assert_identity
assert_identity-other world identity next h other =
    let (owner, now, made) = bind-eq-ok (current_owner world) _ h in
    let taken : owner ≡ next.owner = cc in rw (now, taken, other) refl

-- whether a published identity is that of another account than the asking context's
abbrev pub is_handed_over : Scope → Published → Bool
is_handed_over scope p =
    is_named scope.identity.owner
    && not (same_name p.given_scope.identity.owner scope.identity.owner)

abbrev pub IsSettled : Scope → Published → Type 0
IsSettled scope p =
    (assert_current p.given_scope p.world ≡ ok tt)
    × (is_handed_over scope p ≡ true → is_current p.asked p.world ≡ ok false)

module _ (scope : Scope) (next : AccountIdentity) (world : Surroundings) where
  handed_over-IsSettled :
      account_identity world ≡ ok next
      → assert_connection scope world ≡ ok tt
      → (is_named scope.identity.owner && not (same_name next.owner scope.identity.owner)) ≡ true
      → IsSettled scope
          (record { asked = scope; given_scope = bind_context next world; world = world })
  unfolding assert_current bind_context is_current
  handed_over-IsSettled taken connected other =
      let foreign : same_name next.owner scope.identity.owner ≡ false = ground arith in
      (
        rw (connection_of_bind next world, assert_identity-account_identity world next taken) refl,
        λ _. rw (connected, assert_identity-other world scope.identity next taken foreign) refl,
      )

  renewed-IsSettled :
      (is_named scope.identity.owner && not (same_name next.owner scope.identity.owner)) ≡ false
      → assert_current (record scope { identity = next }) world ≡ ok tt
      → IsSettled scope (record {
        asked = record scope { identity = next };
        given_scope = record scope { identity = next };
        world = world;
      })
  renewed-IsSettled same current = (current, λ other. absurd (false≢true (sym same ∙ other)))

  adopt-IsSettled :
      (p : Published)
      → account_identity world ≡ ok next
      → assert_connection scope world ≡ ok tt
      → adopt scope next world ≡ ok p
      → IsSettled scope p
  unfolding adopt
  adopt-IsSettled p taken connected h =
      let other =
        is_named scope.identity.owner && not (same_name next.owner scope.identity.owner) in
      elim (Bool-cases other) [
        | inl foreign ↦
            subst (IsSettled scope) (ok-injective (rw foreign at h))
              (handed_over-IsSettled taken connected foreign)
        | inr own ↦
            let renewed : Scope = record scope { identity = next } in
            let (_, current, made) = bind-eq-ok (assert_current renewed world) _ (rw own at h) in
            subst (IsSettled scope) (ok-injective made) (renewed-IsSettled own current)
      ]

-- A context that is given when an identity is published is current in the world as it then is. If
-- the account is another one than that of the context that asked, the latter is no longer current:
-- it cannot be used to go on with the old account's work.
pub publish_identity-IsSettled :
    (publish : Surroundings → Result Surroundings) (scope : Scope) (world : Surroundings)
    (p : Published)
    → publish_identity publish scope world ≡ ok p
    → IsSettled scope p
unfolding publish_identity
publish_identity-IsSettled publish scope world p h =
    let (_, before, h1) = bind-eq-ok (assert_current scope world) _ h in
    let (after_it, published, h2) = bind-eq-ok (publish world) _ h1 in
    let (_, connected, h3) = bind-eq-ok (assert_connection scope after_it) _ h2 in
    let (next, taken, h4) = bind-eq-ok (account_identity after_it) _ h3 in
    adopt-IsSettled scope next after_it p taken connected h4
