-- ===== src/App/Owner/Restored.antt =====
-- What is put aside is what comes back.
use mathlib.Core.Path.{refl, ◌≡◌}
use native.Mathlib.Omega.{arith}
use pomodorough_server.App.{clone, initial_ownership_state}
use pomodorough_server.App.Owner.{
  copy_fields, keep_user, owner_state_value, put_aside, quarantine_owner_state, reset_owner_state,
  restore_owner_state, restored_fields, saved, saved_field, saved_fields,
}
use pomodorough_server.Js.Fields.{assign, field-assign, field-assign_other, field-put}
use pomodorough_server.Js.Json.{IsJson, json_of_lem}
use pomodorough_server.Js.Value.{
  Props, Value, end, field, get, has, is_nullish, null, put, truthy, undefined,
}
use pomodorough_server.Prelude.{
  all, and-eq-true, Bool, Bool-cases, List, String, [], ap, eq_iff, false, false≢true,
  if◌then◌else◌, inl, inr, member, str_eq, subst, sym, true, ◌||◌, ◌∙◌, ◌∷◌,
}
use text.Mathlib.TextPositions.{eq_refl}

clone_lem : (v : Value) → IsJson v → clone v ≡ v
unfolding clone
clone_lem v h = elim (Bool-cases (is_nullish v)) [
  | inl nothing_there ↦ rw nothing_there refl
  | inr present ↦ rw present (json_of_lem v h)
]

str_eq_sym : (k j : String) → str_eq j k ≡ false → str_eq k j ≡ false
str_eq_sym k j h = ground (arith, eq_iff j k, eq_iff k j)

field-saved :
    (k : String) (ks : List String) (state : Props)
    → field k (saved ks state) ≡ (if member k ks then saved_field k state else undefined)
field-saved k [] state = refl
field-saved k (j ∷ ks) state = elim (Bool-cases (str_eq j k)) [
  | inl same ↦ rw ((eq_iff j k).0 same, eq_refl k) refl
  | inr other ↦ rw (other, field-saved k ks state, str_eq_sym k j other) refl
]

copied :
    (k j : String) (later : Bool) (local : Value) (state : Props)
    → (if later then get k local else if str_eq j k then get j local else field k state)
      ≡ (if str_eq k j || later then get k local else field k state)
copied k j later local state = elim (Bool-cases (str_eq j k)) [
  | inl same ↦ rw ((eq_iff j k).0 same, eq_refl k) (ground arith)
  | inr other ↦ rw (other, str_eq_sym k j other) refl
]

field-copy_fields :
    (k : String) (ks : List String) (local : Value) (state : Props)
    → field k (copy_fields ks local state) ≡ (if member k ks then get k local else field k state)
field-copy_fields k [] local state = refl
field-copy_fields k (j ∷ ks) local state =
    rw (field-copy_fields k ks local (put j (get j local) state))
      (rw (field-put k j (get j local) state) (copied k j (member k ks) local state))

assign_initial :
    (k : String) → field k (assign initial_ownership_state end) ≡ field k initial_ownership_state
unfolding initial_ownership_state
assign_initial k = refl

user_apart : has "user" initial_ownership_state ≡ false
unfolding initial_ownership_state
user_apart = refl

aside_apart : has "quarantinedLocal" initial_ownership_state ≡ false
unfolding initial_ownership_state
aside_apart = refl

-- setting the user touches no other field
field-keep_user :
    (preserve : Bool) (before state : Props) (k : String)
    → str_eq "user" k ≡ false
    → field k (keep_user preserve before state) ≡ field k state
unfolding keep_user
field-keep_user preserve before state k h =
    let user = if preserve then field "user" before else null in
    elim (Bool-cases (truthy user)) [
      | inl there ↦ rw there (rw (field-put k "user" user state, h) refl)
      | inr missing ↦ rw missing refl
    ]

owned_apart :
    (k name : String)
    → has k initial_ownership_state ≡ true
    → has name initial_ownership_state ≡ false
    → str_eq name k ≡ false
owned_apart k name h apart = elim (Bool-cases (str_eq name k)) [
  | inl same ↦
      let twice : has name initial_ownership_state ≡ true =
        subst (λ x. has x initial_ownership_state ≡ true) (sym ((eq_iff name k).0 same)) h in
      absurd (false≢true (sym apart ∙ twice))
  | inr other ↦ other
]

initial_of :
    (preserve : Bool) (state : Props) (k : String)
    → has k initial_ownership_state ≡ true
    → field k (quarantine_owner_state preserve state) ≡ field k initial_ownership_state
unfolding quarantine_owner_state reset_owner_state
initial_of preserve state k h =
    field-keep_user preserve state (reset_owner_state (put_aside state)) k
      (owned_apart k "user" h user_apart)
    ∙ (field-assign k initial_ownership_state (put_aside state) end h ∙ assign_initial k)

-- every saved field but the user is one of a new account
all_saved : all (λ k. str_eq "user" k || has k initial_ownership_state) saved_fields ≡ true
unfolding saved_fields initial_ownership_state
all_saved = refl

listed :
    (p : String → Bool) (ks : List String) (k : String)
    → all p ks ≡ true
    → member k ks ≡ true
    → p k ≡ true
listed p [] k h m = cc
listed p (j ∷ ks) k h m = elim (Bool-cases (str_eq k j)) [
  | inl same ↦ rw ((eq_iff k j).0 same) (and-eq-true (p j) (all p ks) h).0
  | inr other ↦ listed p ks k (and-eq-true (p j) (all p ks) h).1 (ground (arith, m, other))
]

is_initial :
    (k : String)
    → member k saved_fields ≡ true
    → str_eq "user" k ≡ false
    → has k initial_ownership_state ≡ true
is_initial k m other =
    let either =
      listed (λ j. str_eq "user" j || has j initial_ownership_state) saved_fields k all_saved m in
    ground (arith, either, other)

put_aside-user : (state : Props) → field "user" (put_aside state) ≡ field "user" state
unfolding put_aside
put_aside-user state = elim (Bool-cases (truthy (field "quarantinedLocal" state))) [
  | inl there ↦ rw there refl
  | inr missing ↦ rw missing (field-put "user" "quarantinedLocal" (owner_state_value state) state)
]

reset-user :
    (state : Props) → field "user" (reset_owner_state (put_aside state)) ≡ field "user" state
unfolding reset_owner_state
reset-user state =
    field-assign_other "user" initial_ownership_state (put_aside state) user_apart
    ∙ put_aside-user state

quarantine_owner_state-user :
    (preserve : Bool) (state : Props)
    → field "user" (quarantine_owner_state preserve state) ≡ field "user" state
unfolding quarantine_owner_state keep_user
quarantine_owner_state-user preserve state =
    let user = if preserve then field "user" state else null in
    let shown = reset_owner_state (put_aside state) in
    elim (Bool-cases (truthy user)) [
      | inl there ↦
          rw there (field-put "user" "user" user shown ∙ kept preserve (field "user" state) there)
      | inr missing ↦ rw missing (reset-user state)
    ]
  where
    kept :
        (b : Bool) (v : Value) → truthy (if b then v else null) ≡ true → (if b then v else null) ≡ v
    kept true v h = refl
    kept false v h = cc

-- While an account's part of the state is put aside, the state shows nothing of it but the user: each
-- other field that is saved with the account has the value of a new account, and so the same
-- whatever the state held and whether the user was to be preserved. The user stays in either case.
pub quarantine_owner_state-initial :
    (preserve preserve' : Bool) (state state' : Props)
    → ((k : String)
        → member k saved_fields ≡ true
        → str_eq "user" k ≡ false
        → (field k (quarantine_owner_state preserve state) ≡ field k initial_ownership_state)
          × (field k (quarantine_owner_state preserve state)
              ≡ field k (quarantine_owner_state preserve' state')))
      × (field "user" (quarantine_owner_state preserve state) ≡ field "user" state)
quarantine_owner_state-initial preserve preserve' state state' = (
  λ k saved_one other.
      let owned = is_initial k saved_one other in
      let here = initial_of preserve state k owned in
      (here, here ∙ sym (initial_of preserve' state' k owned)),
  quarantine_owner_state-user preserve state,
)

-- what was put aside, from a state that had nothing aside
aside_of :
    (preserve : Bool) (state : Props)
    → truthy (field "quarantinedLocal" state) ≡ false
    → field "quarantinedLocal" (quarantine_owner_state preserve state) ≡ owner_state_value state
unfolding quarantine_owner_state reset_owner_state put_aside
aside_of preserve state h =
    field-keep_user preserve state (reset_owner_state (put_aside state)) "quarantinedLocal" refl
    ∙ (field-assign_other "quarantinedLocal" initial_ownership_state (put_aside state) aside_apart
        ∙ rw h (field-put "quarantinedLocal" "quarantinedLocal" (owner_state_value state) state))

-- Every field that is put aside is one that is restored.
same_fields : restored_fields ≡ saved_fields
unfolding restored_fields saved_fields
same_fields = refl

restore_owner_state_lem :
    (k : String) (local : Value) (state : Props)
    → field k (restore_owner_state local state)
      ≡ (if member k saved_fields then get k local else field k state)
unfolding restore_owner_state
restore_owner_state_lem k local state =
    ap (λ ks. field k (copy_fields ks local state)) same_fields
    ∙ field-copy_fields k saved_fields local state

owner_state_value_lem :
    (k : String) (state : Props)
    → get k (owner_state_value state)
      ≡ (if member k saved_fields then saved_field k state else undefined)
unfolding owner_state_value
owner_state_value_lem k state = field-saved k saved_fields state

saved_field_lem :
    (k : String) (state : Props) → IsJson (field k state) → saved_field k state ≡ field k state
saved_field_lem k state h = rw (clone_lem (field k state) h) (ground arith)

-- What is put aside is what comes back: from a state that had nothing aside, each field of the
-- account that holds a value of JSON has the same value again after the account's part was put
-- aside and restored, and no field other than those is touched by restoring.
pub restore_owner_state-quarantine_owner_state :
    (preserve : Bool) (state : Props) (k : String)
    → truthy (field "quarantinedLocal" state) ≡ false
    → IsJson (field k state)
    → let aside = quarantine_owner_state preserve state in
      field k (restore_owner_state (field "quarantinedLocal" aside) aside)
      ≡ (if member k saved_fields then field k state else field k aside)
restore_owner_state-quarantine_owner_state preserve state k h json =
    let aside = quarantine_owner_state preserve state in
    restore_owner_state_lem k (field "quarantinedLocal" aside) aside
    ∙ elim (Bool-cases (member k saved_fields)) [
      | inl listed ↦
          rw
            (
              listed,
              aside_of preserve state h,
              owner_state_value_lem k state,
              listed,
              saved_field_lem k state json,
            )
            refl
      | inr other ↦ rw other refl
    ]
