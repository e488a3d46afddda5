-- ===== src/Sync/Order.antt =====
-- `compareTimerCommands` of web/sync-core.js: the order of timer commands by their clocks, and by
-- device and identifier where the clocks agree. What `String` makes of a value that is no text is an
-- argument.
pub mod Laws
use pomodorough_server.Js.Num.{is_between, max_safe}
use pomodorough_server.Js.Text.{codes, compare_units, utf16}
use pomodorough_server.Js.Value.{Value, str, truthy}
use pomodorough_server.Prelude.{String, if◌then◌else◌, zero}
use pomodorough_server.Prelude.Int.{negsuc, pos, ℤ, ◌-ℤ◌}
use pomodorough_server.Queue.{Operation, attr}
use pomodorough_server.Sync.Clock.{natural}

-- `String(value || "")`, for `String` of a value that is neither a text nor falsy
abbrev pub string_or_empty : (Value → String) → Value → String
string_or_empty string_of (str s) = s
string_or_empty string_of v = if truthy v then string_of v else ""

unfoldable pub compare_strings : (Value → String) → Value → Value → ℤ
compare_strings string_of left right =
    compare_units (utf16 (codes (string_or_empty string_of left)))
      (utf16 (codes (string_or_empty string_of right)))

-- `Number.isSafeInteger(value) && value >= 0 ? value : -1`
unfoldable pub clock_component : Value → ℤ
clock_component v = if is_between 0 max_safe v then pos (natural v) else negsuc 0

-- `a || b` of two numbers
abbrev pub or_zero : ℤ → ℤ → ℤ
or_zero (pos zero) b = b
or_zero a b = a

unfoldable pub compare_timer_commands : (Value → String) → Operation → Operation → ℤ
compare_timer_commands string_of left right =
    or_zero (clock_component (attr "hlcWallMs" left) -ℤ clock_component (attr "hlcWallMs" right)) (
      or_zero
        (clock_component (attr "hlcCounter" left) -ℤ clock_component (attr "hlcCounter" right))
        (or_zero (compare_strings string_of (attr "deviceId" left) (attr "deviceId" right))
          (compare_strings string_of (str left.id) (str right.id))))
