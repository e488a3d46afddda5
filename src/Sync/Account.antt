-- ===== src/Sync/Account.antt =====
-- The account identities of web/sync-core.js: the owner of local state, and the request header
-- that binds a request to the incarnation of an account.
pub mod Identity
use pomodorough_server.Js.Result.{
  Result, Thrown, err, ok, plain, throw_if, thrown, type_error, ◌>>=◌,
}
use pomodorough_server.Js.Text.{after, codes, is_lower_hex}
use pomodorough_server.Js.Value.{
  Props, Value, end, get, has_own, is_full_text, is_nullish, null, obj, prop, str, strict_eq,
}
use pomodorough_server.Prelude.{
  Bool, Option, String, all, false, if◌then◌else◌, length, none, not, some, ◌&&◌, ◌++◌, ◌==◌,
}
use Prim.Native.String

-- `/^[a-f0-9]{64}$/`
unfoldable pub valid_account_incarnation : Value → Bool
valid_account_incarnation (str s) = length (codes s) == 64 && all is_lower_hex (codes s)
valid_account_incarnation v = false

abbrev pub owner_prefix : String
owner_prefix = "account:v1:"

-- the text of a value that has passed `typeof v === "string"`
abbrev pub text : Value → String
text (str s) = s
text v = ""

abbrev pub invalid_identity : Thrown
invalid_identity = thrown type_error "Invalid account identity."

abbrev pub invalid_incarnation : Thrown
invalid_incarnation = thrown type_error "Invalid account incarnation."

abbrev pub name_or_null : Option String → Value
name_or_null none = null
name_or_null (some s) = str s

unfoldable pub account_owner_id : Value → Result (Option String)
unfolding valid_account_incarnation
account_owner_id user =
    if is_nullish user
    then ok none
    else if not (is_full_text (get "id" user))
    then err invalid_identity
    else if not (has_own "accountIncarnation" user)
    then ok (some (text (get "id" user)))
    else if not (valid_account_incarnation (get "accountIncarnation" user))
    then err invalid_incarnation
    else ok (some (String.◌++◌ owner_prefix (text (get "accountIncarnation" user))))

unfoldable pub authenticated_owner_id : Value → Result (Option String)
unfolding account_owner_id
authenticated_owner_id user =
    if not (valid_account_incarnation (get "accountIncarnation" user))
    then err (
        thrown plain
          "Account incarnation unavailable. Reconnect before reconciling retained local work.")
    else account_owner_id user

abbrev header_missing : Thrown
header_missing = thrown plain "Validated account incarnation required."

-- the incarnation in an owner's name, if it has one
unfoldable pub owner_incarnation : Value → Option String
unfolding valid_account_incarnation
owner_incarnation (str s) = elim (after owner_prefix s) [
  | some rest ↦ if valid_account_incarnation (str rest) then some rest else none
  | none ↦ none
]
owner_incarnation v = none

unfoldable pub account_headers : Value → Result Props
unfolding owner_incarnation
account_headers owner_id = elim (owner_incarnation owner_id) [
  | some rest ↦ ok (prop "X-Pomodorough-Account-Incarnation" (str rest) end)
  | none ↦ err header_missing
]

abbrev owner_value : Option String → Value
owner_value none = null
owner_value (some s) = str s

unfoldable pub assert_response_account : Value → Value → Result (Unit {0})
unfolding account_owner_id
assert_response_account payload expected =
    account_owner_id (
      obj (
        prop "id" (str "response")
          (prop "accountIncarnation" (get "accountIncarnation" payload) end)))
    >>= λ owner.
        throw_if (not (strict_eq (owner_value owner) expected))
          "Response account incarnation changed. Retained local work was not applied."
