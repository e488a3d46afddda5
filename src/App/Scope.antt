-- ===== src/App/Scope.antt =====
-- The context of an account under which an operation runs: `accountIdentity` of web/app-state.js
-- and web/account-operation.js. A database connection is known by a number; a name of an account
-- that is missing is none. Only `bind` makes contexts, so the test that a context was made there is
-- not modelled.
pub mod Handoff
use pomodorough_server.Js.Result.{Result, Thrown, account_ownership, err, ok, thrown, ◌>>=◌, ◌>>◌}
use pomodorough_server.Js.Value.{Value}
use pomodorough_server.Prelude.{
  Bool, Option, String, false, if◌then◌else◌, none, not, some, str_eq, true, ℕ, ◌&&◌, ◌==◌, ◌||◌,
}
use pomodorough_server.Sync.Account.{account_owner_id}

-- what the two markers of a pending logout read as
pub data Marker : Type 0 where
  unavailable : Marker
  markers : Option String → Option String → Marker

-- what the program's state, the connection and the browser's storage say now
pub record Surroundings : Type 0 where
  pub user : Value
  pub local_owner : Option String
  pub database : Option ℕ
  pub marker : Marker

pub record AccountIdentity : Type 0 where
  pub owner : Option String
  pub local_owner : Option String
  pub marker : Marker

-- `a || b` of names
abbrev pub or_name : Option String → Option String → Option String
or_name none b = b
or_name (some s) b = if str_eq s "" then b else some s

-- `accountOwnerId(state.user) || state.localOwnerId || null`
unfoldable pub current_owner : Surroundings → Result (Option String)
unfolding account_owner_id
current_owner world =
    account_owner_id world.user >>= λ owner. ok (or_name owner (or_name world.local_owner none))

unfoldable pub account_identity : Surroundings → Result AccountIdentity
unfolding current_owner
account_identity world = current_owner world >>= λ owner.
    ok (record { owner = owner; local_owner = world.local_owner; marker = world.marker })

abbrev pub same_name : Option String → Option String → Bool
same_name none none = true
same_name (some s) (some t) = str_eq s t
same_name a b = false

abbrev pub same_marker : Marker → Marker → Bool
same_marker unavailable unavailable = true
same_marker (markers a b) (markers c d) = same_name a c && same_name b d
same_marker m n = false

abbrev pub same_connection : Option ℕ → Option ℕ → Bool
same_connection none none = true
same_connection (some m) (some n) = m == n
same_connection a b = false

abbrev pub not_owner : Thrown
not_owner = thrown account_ownership "Canonical account changed before sync apply."

-- `identity.assertCurrent()`
unfoldable pub assert_identity : AccountIdentity → Surroundings → Result (Unit {0})
unfolding current_owner
assert_identity identity world = current_owner world >>= λ owner.
    if not (same_name owner identity.owner)
      || not (same_name world.local_owner identity.local_owner)
      || not (same_marker world.marker identity.marker)
    then err not_owner
    else ok tt

pub record Scope : Type 0 where
  pub connection : Option ℕ
  pub identity : AccountIdentity

unfoldable pub assert_connection : Scope → Surroundings → Result (Unit {0})
assert_connection scope world =
    if not (same_connection world.database scope.connection) then err not_owner else ok tt

unfoldable pub assert_current : Scope → Surroundings → Result (Unit {0})
unfolding assert_connection assert_identity
assert_current scope world = assert_connection scope world >> assert_identity scope.identity world

-- `bind(identity, getDatabase, …)`
unfoldable pub bind_context : AccountIdentity → Surroundings → Scope
bind_context identity world = record { connection = world.database; identity = identity }

-- the context that asked, the one that it is given, and the world afterwards
pub record Published : Type 0 where
  pub asked : Scope
  pub given_scope : Scope
  pub world : Surroundings

abbrev pub is_named : Option String → Bool
is_named none = false
is_named (some s) = not (str_eq s "")

unfoldable pub adopt : Scope → AccountIdentity → Surroundings → Result Published
unfolding bind_context assert_current
adopt scope next world =
    if is_named scope.identity.owner && not (same_name next.owner scope.identity.owner)
    then ok (record { asked = scope; given_scope = bind_context next world; world = world })
    else let renewed : Scope = record scope { identity = next } in
      assert_current renewed world
      >> ok (record { asked = renewed; given_scope = renewed; world = world })

-- `publishIdentity(publish)`
unfoldable pub publish_identity :
    (Surroundings → Result Surroundings) → Scope → Surroundings → Result Published
unfolding adopt account_identity
publish_identity publish scope world =
    assert_current scope world
    >> (publish world >>= λ after_it.
        assert_connection scope after_it
        >> (account_identity after_it >>= λ next. adopt scope next after_it))

-- `isCurrent(context)`
abbrev pub current_or_not : Result (Unit {0}) → Result Bool
current_or_not (ok done) = ok true
current_or_not (err (thrown account_ownership message)) = ok false
current_or_not (err e) = err e

unfoldable pub is_current : Scope → Surroundings → Result Bool
unfolding assert_current
is_current scope world = current_or_not (assert_current scope world)
