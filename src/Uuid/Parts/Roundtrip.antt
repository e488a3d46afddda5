-- ===== src/Uuid/Parts/Roundtrip.antt =====
-- The parts of an identifier give it back, and identifiers are ordered as their parts.
use mathlib.Core.Path.{refl, ◌≡◌}
use native.Mathlib.Omega.{arith}
use pomodorough_server.Js.Result.{ok}
use pomodorough_server.Js.Value.{is_text}
use pomodorough_server.Prelude.{
  List, Option, [], ap, none, some, suc, sym, zero, ℕ, ◌%◌, ◌*◌, ◌+◌, ◌/◌, ◌<◌, ◌^◌, ◌∙◌, ◌∷◌, ◌≤◌,
}
use pomodorough_server.Sync.Account.{text}
use pomodorough_server.Uuid.Parts.{
  UuidParts, assemble, checked_uuid, from_parts, hex, hex_digit, hex_value, max_timestamp_ms,
  or_invalid, parts, random_max, read_form, read_hex, read_uuid, split, uuid_text,
}
use pomodorough_server.Uuid.Reserve.{found}
use pomodorough_server.Prelude.Options.{◌>>=◌}
use native.Mathlib.Nat.{zero-add}

split-assemble :
    (t r : ℕ)
    → t ≤ max_timestamp_ms
    → r ≤ random_max
    → ((split (assemble t r)).timestamp_ms ≡ t) × ((split (assemble t r)).random_value ≡ r)
unfolding split assemble
split-assemble t r h k = omega arith

assemble-split :
    (i : ℕ)
    → i / 2 ^ 76 % 16 ≡ 7
    → i / 2 ^ 62 % 4 ≡ 2
    → assemble (split i).timestamp_ms (split i).random_value ≡ i
unfolding split assemble
assemble-split i v w = omega arith

pub assemble-lt : (t r s : ℕ) → s ≤ random_max → r < s → assemble t r < assemble t s
unfolding assemble
assemble-lt t r s k h = omega arith

pub assemble-lt_time :
    (t u r s : ℕ) → r ≤ random_max → s ≤ random_max → t < u → assemble t r < assemble u s
unfolding assemble
assemble-lt_time t u r s k l h = omega arith

-- the value that `n` digits of `x` add to `v`
digits_value : ℕ → ℕ → ℕ → ℕ
digits_value zero v x = v
digits_value (suc n) v x = digits_value n v (x / 16) * 16 + x % 16

hex_value-hex_digit : (d : ℕ) → d < 16 → hex_value (hex_digit d) ≡ some d
hex_value-hex_digit d h = ground arith

read_one :
    (k v d : ℕ) (rest : List ℕ)
    → d < 16
    → read_hex (suc k) v (hex_digit d ∷ rest) ≡ read_hex k (v * 16 + d) rest
unfolding read_hex
read_one k v d rest h = rw (read_hex, hex_value-hex_digit d h) refl

read_hex-hex :
    (n k v x : ℕ) (rest : List ℕ)
    → read_hex (n + k) v (hex n x rest) ≡ read_hex k (digits_value n v x) rest
unfolding hex digits_value
read_hex-hex zero k v x rest = rw (zero-add k)
read_hex-hex (suc n) k v x rest =
    let shift : suc n + k ≡ n + suc k = omega arith in
    rw (shift, read_hex-hex n (suc k) v (x / 16) (hex_digit (x % 16) ∷ rest))
      (read_one k (digits_value n v (x / 16)) (x % 16) rest (omega arith))

digits_8 : (x : ℕ) → x < 2 ^ 32 → digits_value 8 0 x ≡ x
unfolding digits_value
digits_8 x h = omega arith

digits_4 : (v x : ℕ) → x < 2 ^ 16 → digits_value 4 v x ≡ v * 2 ^ 16 + x
unfolding digits_value
digits_4 v x h = omega arith

digits_12 : (v x : ℕ) → x < 2 ^ 48 → digits_value 12 v x ≡ v * 2 ^ 48 + x
unfolding digits_value
digits_12 v x h = omega arith

read_hex_8 : (x : ℕ) (rest : List ℕ) → x < 2 ^ 32 → read_hex 8 0 (hex 8 x rest) ≡ some (x, rest)
unfolding read_hex
read_hex_8 x rest h = read_hex-hex 8 0 0 x rest ∙ ap (λ v. some (v, rest)) (digits_8 x h)

read_hex_4 :
    (v x : ℕ) (rest : List ℕ)
    → x < 2 ^ 16
    → read_hex 4 v (hex 4 x rest) ≡ some (v * 2 ^ 16 + x, rest)
unfolding read_hex
read_hex_4 v x rest h = read_hex-hex 4 0 v x rest ∙ ap (λ v. some (v, rest)) (digits_4 v x h)

read_hex_12 :
    (v x : ℕ) (rest : List ℕ)
    → x < 2 ^ 48
    → read_hex 12 v (hex 12 x rest) ≡ some (v * 2 ^ 48 + x, rest)
unfolding read_hex
read_hex_12 v x rest h = read_hex-hex 12 0 v x rest ∙ ap (λ v. some (v, rest)) (digits_12 v x h)

checked-eq-some :
    (i j : ℕ) → j ≡ i → i / 2 ^ 76 % 16 ≡ 7 → i / 2 ^ 62 % 4 ≡ 2 → checked_uuid j [] ≡ some i
checked-eq-some i j e v w = ground (arith, e, v, w)

-- the digits of an identifier's integer, read as they were written
read_uuid-uuid_text :
    (i : ℕ)
    → i < 2 ^ 128
    → i / 2 ^ 76 % 16 ≡ 7
    → i / 2 ^ 62 % 4 ≡ 2
    → read_uuid (uuid_text i) ≡ some i
unfolding read_uuid read_form uuid_text
read_uuid-uuid_text i h v w =
    let a = i / 2 ^ 96 in
    let b = i / 2 ^ 80 % 2 ^ 16 in
    let c = i / 2 ^ 64 % 2 ^ 16 in
    let d = i / 2 ^ 48 % 2 ^ 16 in
    let e = i % 2 ^ 48 in
    let ab = a * 2 ^ 16 + b in
    let abc = ab * 2 ^ 16 + c in
    let abcd = abc * 2 ^ 16 + d in
    let t4 = b'-' ∷ hex 12 e [] in
    let t3 = b'-' ∷ hex 4 d t4 in
    let t2 = b'-' ∷ hex 4 c t3 in
    let t1 = b'-' ∷ hex 4 b t2 in
    rw
      (
        read_hex_8 a t1 (omega arith),
        read_hex_4 a b t2 (omega arith),
        read_hex_4 ab c t3 (omega arith),
        read_hex_4 abc d t4 (omega arith),
        read_hex_12 abcd e [] (omega arith),
      )
      (checked-eq-some i (abcd * 2 ^ 48 + e) (omega arith) v w)

pub from_parts-eq-ok :
    (t r : ℕ) {text : List ℕ}
    → from_parts t r ≡ ok text
    → (t ≤ max_timestamp_ms) × (r ≤ random_max) × (text ≡ uuid_text (assemble t r))
unfolding from_parts
from_parts-eq-ok t r h = ground (arith, h)

assemble-lt_max : (t r : ℕ) → t ≤ max_timestamp_ms → r ≤ random_max → assemble t r < 2 ^ 128
unfolding assemble
assemble-lt_max t r h k = omega arith

assemble-version :
    (t r : ℕ)
    → t ≤ max_timestamp_ms
    → r ≤ random_max
    → (assemble t r / 2 ^ 76 % 16 ≡ 7) × (assemble t r / 2 ^ 62 % 4 ≡ 2)
unfolding assemble
assemble-version t r h k = omega arith

split-eq :
    (i : ℕ) {t r : ℕ}
    → (split i).timestamp_ms ≡ t
    → (split i).random_value ≡ r
    → split i ≡ record { integer = i; timestamp_ms = t; random_value = r }
unfolding split
split-eq i h k = cc

or_invalid-eq-ok :
    (m : Option ℕ) (p : UuidParts) → or_invalid m ≡ ok p → (i : ℕ) × (m ≡ some i) × (split i ≡ p)
or_invalid-eq-ok none p h = cc
or_invalid-eq-ok (some i) p h = (i, refl, cc)

form-eq-some :
    (m : Option (ℕ × List ℕ)) (i : ℕ)
    → (m >>= λ (j, rest). checked_uuid j rest) ≡ some i
    → (i / 2 ^ 76 % 16 ≡ 7) × (i / 2 ^ 62 % 4 ≡ 2)
form-eq-some none i h = cc
form-eq-some (some (j, c ∷ cs)) i h = cc
form-eq-some (some (j, [])) i h = ground (arith, h)

split-random_value : (i : ℕ) → (split i).random_value ≤ random_max
unfolding split
split-random_value i = omega arith

split-integer : (i : ℕ) → (split i).integer ≡ i
unfolding split
split-integer i = refl

-- what a readable identifier's parts are
pub parts-integer :
    (text : List ℕ) (p : UuidParts)
    → parts text ≡ ok p
    → (p.integer ≡ assemble p.timestamp_ms p.random_value) × (p.random_value ≤ random_max)
unfolding parts read_uuid
parts-integer text p h =
    let (i, found, same) = or_invalid-eq-ok (read_uuid text) p h in
    let (version, variant) = form-eq-some (read_form text) i found in
    rw (sym same) (split-integer i ∙ sym (assemble-split i version variant), split-random_value i)

-- An identifier made from a time and a random number in range is read back as its integer, that
-- time and that number.
pub parts-from_parts :
    (t r : ℕ) {text : List ℕ}
    → from_parts t r ≡ ok text
    → parts text ≡ ok (record { integer = assemble t r; timestamp_ms = t; random_value = r })
unfolding parts
parts-from_parts t r {text} h =
    let (t_le, r_le, is_text) = from_parts-eq-ok t r h in
    let (version, variant) = assemble-version t r t_le r_le in
    let (same_t, same_r) = split-assemble t r t_le r_le in
    let found : read_uuid text ≡ some (assemble t r) =
      rw is_text
        (read_uuid-uuid_text (assemble t r) (assemble-lt_max t r t_le r_le) version variant) in
    let same : split (assemble t r)
        ≡ record { integer = assemble t r; timestamp_ms = t; random_value = r } =
      split-eq (assemble t r) same_t same_r in
    rw (parts, found) (ap ok same)
