-- ===== src/Tests/Apps.antt =====
-- The state of the application and the contexts of accounts at concrete inputs.
use mathlib.Core.Path.{refl, ◌≡◌}
use pomodorough_server.App.{initial_ownership_state}
use pomodorough_server.App.Owner.{quarantine_owner_state, restore_owner_state, saved_fields}
use pomodorough_server.App.Owner.Restored.{
  quarantine_owner_state-initial, restore_owner_state-quarantine_owner_state,
}
use pomodorough_server.App.Scope.{
  AccountIdentity, Published, Scope, Surroundings, markers, publish_identity,
}
use pomodorough_server.App.Scope.Handoff.{IsSettled, publish_identity-IsSettled}
use pomodorough_server.App.Version.{core_version_at_least, parse_core_version}
use pomodorough_server.Js.Result.{ok}
use pomodorough_server.Js.Value.{Props, Value, arr, bool, end, field, obj, of_list, prop, str}
use pomodorough_server.Prelude.{
  String, [], false, if◌then◌else◌, member, none, some, str_eq, true, ◌∷◌,
}

abbrev signed_in : Props
signed_in =
    prop "tasks" (arr (of_list (str "secret" ∷ [])))
      (prop "user" (obj (prop "id" (str "u") end)) (prop "ready" (bool true) end))

quarantine_owner_state-initial_example :
    ((k : String)
      → member k saved_fields ≡ true
      → str_eq "user" k ≡ false
      → (field k (quarantine_owner_state true signed_in) ≡ field k initial_ownership_state)
        × (field k (quarantine_owner_state true signed_in)
            ≡ field k (quarantine_owner_state false end)))
    × (field "user" (quarantine_owner_state true signed_in) ≡ obj (prop "id" (str "u") end))
quarantine_owner_state-initial_example = quarantine_owner_state-initial true false signed_in end

restore_owner_state-quarantine_owner_state_example :
    let aside = quarantine_owner_state false signed_in in
    field "tasks" (restore_owner_state (field "quarantinedLocal" aside) aside)
    ≡ (if member "tasks" saved_fields then field "tasks" signed_in else field "tasks" aside)
restore_owner_state-quarantine_owner_state_example =
    restore_owner_state-quarantine_owner_state false signed_in "tasks" refl (tt, tt)

abbrev account : String → Value
account name = obj (prop "id" (str name) end)

abbrev of_account : String → Surroundings
of_account name = record {
  user = account name;
  local_owner = some name;
  database = some 1;
  marker = markers none none;
}

abbrev identity_of : String → AccountIdentity
identity_of name = record { owner = some name; local_owner = some name; marker = markers none none }

abbrev scope_of : String → Scope
scope_of name = record { connection = some 1; identity = identity_of name }

abbrev handed : Published
handed = record { asked = scope_of "a"; given_scope = scope_of "b"; world = of_account "b" }

handing : publish_identity (λ _. ok (of_account "b")) (scope_of "a") (of_account "a") ≡ ok handed
unfolding publish_identity
handing = refl

publish_identity-IsSettled_example : IsSettled (scope_of "a") handed
publish_identity-IsSettled_example =
    publish_identity-IsSettled (λ _. ok (of_account "b")) (scope_of "a") (of_account "a") handed
      handing

read_core : parse_core_version (str "0.54.12-rc1") ≡ some (0 ∷ 54 ∷ 12 ∷ [])
unfolding parse_core_version
read_core = refl

compared : core_version_at_least (some (0 ∷ 54 ∷ 12 ∷ [])) (0 ∷ 55 ∷ 0 ∷ []) ≡ false
unfolding core_version_at_least
compared = refl
