-- ===== src/App/Version.antt =====
-- Which operations the shared core knows: the reading and comparing of its version in
-- web/app-state.js. A call of the shared core is an argument. Numbers of a version are exact.
use pomodorough_server.Js.Result.{Result, err, ok, thrown}
use pomodorough_server.Js.Text.{codes, is_digit}
use pomodorough_server.Js.Value.{Value, get, str}
use pomodorough_server.Prelude.{
  Bool, List, Option, String, [], false, if◌then◌else◌, ltb, none, some, str_eq, true, ℕ, ◌*◌, ◌+◌,
  ◌-◌, ◌==◌, ◌||◌, ◌∷◌,
}
use pomodorough_server.Worker.{starts_with}
use pomodorough_server.Prelude.Options.{◌>>=◌}

-- `\d+` at the front, with the number that it reads as
abbrev digits_from : ℕ → List ℕ → ℕ × List ℕ
digits_from n [] = (n, [])
digits_from n (c ∷ cs) =
    let further = digits_from (n * 10 + (c - b'0')) cs in
    if is_digit c then further else (n, c ∷ cs)

abbrev read_number : List ℕ → Option (ℕ × List ℕ)
read_number [] = none
read_number (c ∷ cs) = if is_digit c then some (digits_from 0 (c ∷ cs)) else none

abbrev read_dot : List ℕ → Option (List ℕ)
read_dot [] = none
read_dot (c ∷ cs) = if c == b'.' then some cs else none

unfoldable pub read_version : List ℕ → Option (List ℕ)
read_version cs = do
  (major, rest) ← read_number cs
  rest ← read_dot rest
  (minor, rest) ← read_number rest
  rest ← read_dot rest
  (patch, rest) ← read_number rest
  some (major ∷ minor ∷ patch ∷ [])

-- `parseCoreVersion(version)` of a text; anything else reads as no version here
unfoldable pub parse_core_version : Value → Option (List ℕ)
unfolding read_version
parse_core_version (str s) = read_version (codes s)
parse_core_version v = none

-- the loop over the indices of `floor`
unfoldable pub at_least : List ℕ → List ℕ → Bool
at_least version [] = true
at_least [] (f ∷ fs) = false
at_least (v ∷ vs) (f ∷ fs) = let rest = at_least vs fs in if v == f then rest else ltb f v

unfoldable pub core_version_at_least : Option (List ℕ) → List ℕ → Bool
unfolding at_least
core_version_at_least none least = false
core_version_at_least (some version) least = at_least version least

abbrev pub rename_task_core_version : List ℕ
rename_task_core_version = 0 ∷ 54 ∷ 0 ∷ []

-- `/…/.test(s)` of a plain text
abbrev pub contains : String → String → Bool
contains needle String.[] = str_eq needle ""
contains needle (String.◌∷◌ c s) = starts_with needle (String.◌∷◌ c s) || contains needle s

pub record Capabilities : Type 0 where
  pub core_version : Option (List ℕ)
  pub rename_task : Bool

abbrev pub capabilities_of : Option (List ℕ) → Capabilities
capabilities_of version = record {
  core_version = version;
  rename_task = core_version_at_least version rename_task_core_version;
}

-- `coreCapabilities(core)`, given what `core.call("core.version", {})` comes to, none where the
-- shared core has no `call`
unfoldable pub core_capabilities : Option (Result Value) → Result Capabilities
unfolding parse_core_version core_version_at_least
core_capabilities none = ok (capabilities_of none)
core_capabilities (some (ok answer)) =
    ok (capabilities_of (parse_core_version (get "coreVersion" answer)))
core_capabilities (some (err (thrown kind message))) =
    if contains "unsupported shared-core operation" message
    then ok (capabilities_of none)
    else err (thrown kind message)
