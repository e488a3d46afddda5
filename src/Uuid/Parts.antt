-- ===== src/Uuid/Parts.antt =====
-- `uuidText`, `fromParts` and `parts`: an identifier is 128 bits, the time in the upper 48, then the
-- version, the upper 12 random bits, the variant and the lower 62 random bits. The shifts and
-- disjunctions of the source are of fields that do not overlap, and are sums here.
pub mod Roundtrip
use pomodorough_server.Js.Result.{Kind, Result, Thrown, err, ok, thrown, uuid_range, ◌>>◌}
use pomodorough_server.Prelude.{
  List, Option, [], if◌then◌else◌, leb, ltb, none, some, suc, zero, ℕ, ◌%◌, ◌&&◌, ◌*◌, ◌+◌, ◌-◌,
  ◌/◌, ◌==◌, ◌^◌, ◌||◌, ◌∷◌,
}
use pomodorough_server.Sync.Account.{text}
use pomodorough_server.Prelude.Options.{◌>>=◌}

abbrev pub max_timestamp_ms : ℕ
max_timestamp_ms = 281474976710655

-- `(1n << 74n) - 1n`
abbrev pub random_max : ℕ
random_max = 18889465931478580854783

abbrev pub out_of_range : Thrown
out_of_range = thrown Kind.uuid_range "UUIDv7 generator state is outside the supported range."

abbrev pub hex_digit : ℕ → ℕ
hex_digit d = if ltb d 10 then d + b'0' else d - 10 + b'a'

-- `n` hexadecimal digits of a number, the last first given
unfoldable pub hex : ℕ → ℕ → List ℕ → List ℕ
hex zero value rest = rest
hex (suc n) value rest = hex n (value / 16) (hex_digit (value % 16) ∷ rest)

-- `uuidText`, as the codes of its characters
unfoldable pub uuid_text : ℕ → List ℕ
uuid_text integer = hex 8 (integer / 2 ^ 96) (
    b'-'
    ∷ hex 4 (integer / 2 ^ 80 % 2 ^ 16) (
        b'-'
        ∷ hex 4 (integer / 2 ^ 64 % 2 ^ 16)
            (b'-' ∷ hex 4 (integer / 2 ^ 48 % 2 ^ 16) (b'-' ∷ hex 12 (integer % 2 ^ 48) []))))

-- the integer of `fromParts`
unfoldable pub assemble : ℕ → ℕ → ℕ
assemble timestamp_ms random_value =
    timestamp_ms * 2 ^ 80
    + 7 * 2 ^ 76
    + random_value / 2 ^ 62 * 2 ^ 64
    + 2 * 2 ^ 62
    + random_value % 2 ^ 62

unfoldable pub from_parts : ℕ → ℕ → Result (List ℕ)
from_parts timestamp_ms random_value =
    if ltb max_timestamp_ms timestamp_ms || ltb random_max random_value
    then err out_of_range
    else ok (uuid_text (assemble timestamp_ms random_value))

pub record UuidParts : Type 0 where
  pub integer : ℕ
  pub timestamp_ms : ℕ
  pub random_value : ℕ

unfoldable pub split : ℕ → UuidParts
split integer = record {
  integer = integer;
  timestamp_ms = integer / 2 ^ 80;
  random_value = integer / 2 ^ 64 % 4096 * 2 ^ 62 + integer % 2 ^ 62;
}

-- a hexadecimal digit of either case
abbrev pub hex_value : ℕ → Option ℕ
hex_value c =
    if leb b'0' c && leb c b'9'
    then some (c - b'0')
    else if leb b'a' c && leb c b'f'
    then some (c - b'a' + 10)
    else if leb b'A' c && leb c b'F'
    then some (c - b'A' + 10)
    else none

-- `[0-9a-f]{n}`, read on from a value
unfoldable pub read_hex : ℕ → ℕ → List ℕ → Option (ℕ × List ℕ)
read_hex zero value cs = some (value, cs)
read_hex (suc n) value [] = none
read_hex (suc n) value (c ∷ cs) = elim (hex_value c) [
  | some d ↦ read_hex n (value * 16 + d) cs
  | none ↦ none
]

abbrev pub read_dash : List ℕ → Option (List ℕ)
read_dash [] = none
read_dash (c ∷ cs) = if c == b'-' then some cs else none

-- the whole text is read, the thirteenth digit is 7 and the seventeenth is 8, 9, a or b
abbrev pub checked_uuid : ℕ → List ℕ → Option ℕ
checked_uuid integer [] =
    if integer / 2 ^ 76 % 16 == 7 && integer / 2 ^ 62 % 4 == 2 then some integer else none
checked_uuid integer (c ∷ cs) = none

-- the digits and dashes of an identifier, and what follows
unfoldable pub read_form : List ℕ → Option (ℕ × List ℕ)
read_form text = do
  (a, t1) ← read_hex 8 0 text
  t2 ← read_dash t1
  (b, t3) ← read_hex 4 a t2
  t4 ← read_dash t3
  (c, t5) ← read_hex 4 b t4
  t6 ← read_dash t5
  (d, t7) ← read_hex 4 c t6
  t8 ← read_dash t7
  read_hex 12 d t8

-- the integer of a text that has the form of an identifier with the version and the variant
unfoldable pub read_uuid : List ℕ → Option ℕ
read_uuid text = read_form text >>= λ (i, rest). checked_uuid i rest

abbrev pub or_invalid : Option ℕ → Result UuidParts
or_invalid (some integer) = ok (split integer)
or_invalid none = err (thrown Kind.uuid_range "Persisted UUIDv7 state is invalid.")

unfoldable pub parts : List ℕ → Result UuidParts
parts text = or_invalid (read_uuid text)
