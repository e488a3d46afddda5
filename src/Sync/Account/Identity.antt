-- ===== src/Sync/Account/Identity.antt =====
-- An owner's name and the incarnation in it determine each other.
use mathlib.Core.Path.{refl, ◌≡◌}
use native.Mathlib.Omega.{arith}
use pomodorough_server.Js.Result.{ok}
use pomodorough_server.Js.Text.{after}
use pomodorough_server.Js.Value.{
  Props, Value, end, field, get, has, has_own, is_nullish, obj, prop, str,
}
use pomodorough_server.Prelude.{
  Bool-cases, Option, String, ap, eq_iff, false, inl, inr, some, subst, sym, true, ◌↔◌, ◌∙◌,
}
use pomodorough_server.Sync.Account.{
  account_headers, account_owner_id, assert_response_account, authenticated_owner_id, owner_prefix,
  valid_account_incarnation,
}
use text.Mathlib.TextPositions.{eq_refl}
use Prim.Native.String
use text.Mathlib.TextLemmas.{nil-append, cons-append}

after-append : (p s : String) → after p (String.◌++◌ p s) ≡ some s
after-append String.[] s = rw nil-append
after-append (String.◌∷◌ c p) s = rw cons-append (ground (arith, after-append p s))

valid-text : (v : Value) → valid_account_incarnation v ≡ true → (s : String) × (v ≡ str s)
unfolding valid_account_incarnation
valid-text (str s) h = (s, refl)
valid-text _ h = cc

has-field : (k s : String) (ps : Props) → field k ps ≡ str s → has k ps ≡ true
has-field k s end h = cc
has-field k s (prop j v ps) h = ground (arith, has-field k s ps)

has_own-get : (k s : String) (v : Value) → get k v ≡ str s → has_own k v ≡ true
has_own-get k s (obj ps) h = has-field k s ps h
has_own-get k s _ h = cc

is_nullish-get : (k s : String) (v : Value) → get k v ≡ str s → is_nullish v ≡ false
is_nullish-get k s (obj ps) h = refl
is_nullish-get k s _ h = cc

-- the owner of a user whose incarnation is a text that passes the test
account_owner_id_of_valid :
    (user : Value) (s : String) {o : Option String}
    → get "accountIncarnation" user ≡ str s
    → valid_account_incarnation (str s) ≡ true
    → account_owner_id user ≡ ok o
    → o ≡ some (String.◌++◌ owner_prefix s)
unfolding account_owner_id
account_owner_id_of_valid user s named valid h = ground (
  arith,
  named,
  valid,
  has_own-get "accountIncarnation" s user named,
  is_nullish-get "accountIncarnation" s user named,
)

authenticated_parts :
    (user : Value) (owner : String)
    → authenticated_owner_id user ≡ ok (some owner)
    → (s : String) × (get "accountIncarnation" user ≡ str s)
      × (valid_account_incarnation (str s) ≡ true)
      × (owner ≡ String.◌++◌ owner_prefix s)
unfolding authenticated_owner_id
authenticated_parts user owner h =
    elim (Bool-cases (valid_account_incarnation (get "accountIncarnation" user))) [
      | inl valid ↦
          let (s, named) = valid-text (get "accountIncarnation" user) valid in
          let valid' : valid_account_incarnation (str s) ≡ true =
            subst (λ v. valid_account_incarnation v ≡ true) named valid in
          let same : account_owner_id user ≡ ok (some owner) = ground (arith, valid, h) in
          (s, named, valid', cc (account_owner_id_of_valid user s named valid' same))
      | inr bad ↦ cc (rw bad at h)
    ]

headers_of_prefixed :
    (s : String)
    → valid_account_incarnation (str s) ≡ true
    → account_headers (str (String.◌++◌ owner_prefix s))
      ≡ ok (prop "X-Pomodorough-Account-Incarnation" (str s) end)
unfolding account_headers
headers_of_prefixed s valid = ground (arith, after-append owner_prefix s, valid)

-- For a user with a validated account, the owner's name gives the request header that carries the
-- incarnation of that user.
pub account_headers-authenticated_owner_id :
    (user : Value) (owner : String)
    → authenticated_owner_id user ≡ ok (some owner)
    → account_headers (str owner)
      ≡ ok (prop "X-Pomodorough-Account-Incarnation" (get "accountIncarnation" user) end)
account_headers-authenticated_owner_id user owner h =
    let (s, named, valid, same) = authenticated_parts user owner h in
    rw same (rw named (headers_of_prefixed s valid))

after-injective : (p t s : String) → String.◌++◌ p t ≡ String.◌++◌ p s → t ≡ s
after-injective p t s h = cc (after-append p t, after-append p s, ap (after p) h)

assert_parts :
    (payload : Value) (owner : String)
    → assert_response_account payload (str owner) ≡ ok tt
    → (t : String) × (get "accountIncarnation" payload ≡ str t)
      × (owner ≡ String.◌++◌ owner_prefix t)
unfolding assert_response_account
assert_parts payload owner e =
    elim (Bool-cases (valid_account_incarnation (get "accountIncarnation" payload))) [
      | inl valid ↦
          let (t, named) = valid-text (get "accountIncarnation" payload) valid in
          (t, named, ground (arith, e, valid, named, eq_iff (String.◌++◌ owner_prefix t) owner))
      | inr bad ↦ ground (arith, bad, e)
    ]

assert_of_text :
    (payload : Value) (s : String)
    → get "accountIncarnation" payload ≡ str s
    → valid_account_incarnation (str s) ≡ true
    → assert_response_account payload (str (String.◌++◌ owner_prefix s)) ≡ ok tt
unfolding assert_response_account
assert_of_text payload s named valid =
    rw named (ground (arith, valid, eq_refl (String.◌++◌ owner_prefix s)))

-- A response is accepted for a validated owner exactly when it carries the incarnation of the user
-- whose name the owner has.
pub assert_response_account_iff :
    (user payload : Value) (owner : String)
    → authenticated_owner_id user ≡ ok (some owner)
    → (assert_response_account payload (str owner) ≡ ok tt)
      ↔ (get "accountIncarnation" payload ≡ get "accountIncarnation" user)
assert_response_account_iff user payload owner h =
    let (s, named, valid, same) = authenticated_parts user owner h in
    (
      λ e.
          let (t, carried, there) = assert_parts payload owner e in
          carried ∙ ap str (after-injective owner_prefix t s (sym there ∙ same)) ∙ sym named,
      λ e. rw same (assert_of_text payload s (e ∙ named) valid),
    )
