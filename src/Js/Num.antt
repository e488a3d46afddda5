-- ===== src/Js/Num.antt =====
-- Integer tests on numbers.
use mathlib.Core.Bool.{Bool, false, ◌&&◌}
use pomodorough_server.Prelude.{ℕ, ltb, leb}
use pomodorough_server.Prelude.Int.{ℤ, pos, negsuc}
use pomodorough_server.Js.Value.{Value, int}

-- `Number.MAX_SAFE_INTEGER`
abbrev pub max_safe : ℕ
max_safe = 9007199254740991

abbrev pub is_safe : ℤ → Bool
is_safe (pos n) = leb n max_safe
is_safe (negsuc n) = ltb n max_safe

-- `Number.isSafeInteger(v)`
abbrev pub is_safe_integer : Value → Bool
is_safe_integer (int i) = is_safe i
is_safe_integer v = false

-- `Number.isSafeInteger(v) && v >= minimum && v <= maximum` for bounds that are not negative
abbrev pub is_between : ℕ → ℕ → Value → Bool
is_between lo hi (int (pos n)) = leb n max_safe && leb lo n && leb n hi
is_between lo hi v = false
