-- ===== src/Sync/DateTime/Print.antt =====
-- The texts of RFC 3339, written from their fields, and that the reader gets the fields back.
use mathlib.Core.Path.{refl, ◌≡◌}
use native.Mathlib.Omega.{arith}
use pomodorough_server.Js.Text.{is_digit}
use pomodorough_server.Prelude.{
  All, List, [], false, some, true, ℕ, ◌%◌, ◌++◌, ◌+◌, ◌/◌, ◌<◌, ◌==◌, ◌∷◌,
}
use pomodorough_server.Sync.DateTime.Read.{
  Fields, Sign, digit_run, digits, fraction_part, offset, one_of, read_fields, zone_part,
}

-- two digits
abbrev pub two : ℕ → List ℕ → List ℕ
two n rest = (n / 10 + b'0') ∷ (n % 10 + b'0') ∷ rest

abbrev pub four : ℕ → List ℕ → List ℕ
four n rest =
    (n / 1000 + b'0') ∷ (n / 100 % 10 + b'0') ∷ (n / 10 % 10 + b'0') ∷ (n % 10 + b'0') ∷ rest

abbrev pub print_fraction : List ℕ → List ℕ → List ℕ
print_fraction [] rest = rest
print_fraction (c ∷ cs) rest = b'.' ∷ c ∷ (cs ++ rest)

abbrev pub print_zone : Sign → ℕ → ℕ → List ℕ
print_zone Sign.zulu h m = b'Z' ∷ []
print_zone Sign.plus h m = b'+' ∷ two h (b':' ∷ two m [])
print_zone Sign.minus h m = b'-' ∷ two h (b':' ∷ two m [])

-- `yyyy-mm-ddThh:mm:ss`, a fraction and a zone
abbrev pub print_fields : Fields → List ℕ
print_fields m = four m.year (
    b'-'
    ∷ two m.month (
        b'-'
        ∷ two m.day (
            b'T'
            ∷ two m.hour (
                b':'
                ∷ two m.minute (
                    b':'
                    ∷ two m.second (
                        print_fraction m.fraction
                          (print_zone m.sign m.offset_hour m.offset_minute)))))))

abbrev pub ZoneFits : Sign → ℕ → ℕ → Type 0
ZoneFits Sign.zulu h m = (h ≡ 0) × (m ≡ 0)
ZoneFits sign h m = (h < 100) × (m < 100)

-- Fields that have as many digits as the pattern.
pub record IsPrintable (m : Fields) : Type 0 where
  pub year : m.year < 10000
  pub month : m.month < 100
  pub day : m.day < 100
  pub hour : m.hour < 100
  pub minute : m.minute < 100
  pub second : m.second < 100
  pub fraction : All (λ c. is_digit c ≡ true) m.fraction
  pub zone : ZoneFits m.sign m.offset_hour m.offset_minute

digits-two : (n : ℕ) (rest : List ℕ) → n < 100 → digits 2 0 (two n rest) ≡ some (n, rest)
unfolding digits
digits-two n rest h = ground arith

digits-four : (n : ℕ) (rest : List ℕ) → n < 10000 → digits 4 0 (four n rest) ≡ some (n, rest)
unfolding digits
digits-four n rest h = ground arith

digit_run-stop :
    (cs : List ℕ) (c : ℕ) (rest : List ℕ)
    → All (λ d. is_digit d ≡ true) cs
    → is_digit c ≡ false
    → digit_run (cs ++ c ∷ rest) ≡ (cs, c ∷ rest)
unfolding digit_run
digit_run-stop [] c rest a h = ground (arith, h)
digit_run-stop (d ∷ cs) c rest (p, a) h = ground (arith, p, digit_run-stop cs c rest a h)

fraction_part-print :
    (cs : List ℕ) (c : ℕ) (rest : List ℕ)
    → All (λ d. is_digit d ≡ true) cs
    → is_digit c ≡ false
    → (c == b'.') ≡ false
    → fraction_part (print_fraction cs (c ∷ rest)) ≡ some (cs, c ∷ rest)
unfolding fraction_part
fraction_part-print [] c rest a h n = ground (arith, n)
fraction_part-print (d ∷ cs) c rest (p, a) h n =
    let run = digit_run-stop (d ∷ cs) c rest (p, a) h in ground (arith, run)

one_of-hit : (a b : ℕ) (rest : List ℕ) → one_of a b (a ∷ rest) ≡ some rest
unfolding one_of
one_of-hit a b rest = ground arith

offset-print :
    (sign : Sign) (h m : ℕ)
    → h < 100
    → m < 100
    → offset sign (two h (b':' ∷ two m []))
      ≡ some (record { sign = sign; offset_hour = h; offset_minute = m })
unfolding offset
offset-print sign h m p q =
    rw (digits-two h _ p, one_of-hit b':' b':' (two m []), digits-two m [] q)

zone_part-print :
    (sign : Sign) (h m : ℕ)
    → ZoneFits sign h m
    → zone_part (print_zone sign h m)
      ≡ some (record { sign = sign; offset_hour = h; offset_minute = m })
unfolding zone_part
zone_part-print Sign.zulu h m (p, q) = cc
zone_part-print Sign.plus h m (p, q) = rw (offset-print Sign.plus h m p q)
zone_part-print Sign.minus h m (p, q) = rw (offset-print Sign.minus h m p q)

fraction_zone :
    (cs : List ℕ) (sign : Sign) (h m : ℕ)
    → All (λ d. is_digit d ≡ true) cs
    → fraction_part (print_fraction cs (print_zone sign h m)) ≡ some (cs, print_zone sign h m)
fraction_zone cs Sign.zulu h m a = fraction_part-print cs b'Z' [] a refl refl
fraction_zone cs Sign.plus h m a = fraction_part-print cs b'+' (two h (b':' ∷ two m [])) a refl refl
fraction_zone cs Sign.minus h m a =
    fraction_part-print cs b'-' (two h (b':' ∷ two m [])) a refl refl

-- Reading what was written from printable fields gives the fields.
pub read_fields-print_fields : (m : Fields) → IsPrintable m → read_fields (print_fields m) ≡ some m
unfolding read_fields
read_fields-print_fields m v = rw (
  digits-four m.year _ v.year,
  one_of-hit b'-' b'-' _,
  digits-two m.month _ v.month,
  one_of-hit b'-' b'-' _,
  digits-two m.day _ v.day,
  one_of-hit b'T' b't' _,
  digits-two m.hour _ v.hour,
  one_of-hit b':' b':' _,
  digits-two m.minute _ v.minute,
  one_of-hit b':' b':' _,
  digits-two m.second _ v.second,
  fraction_zone m.fraction m.sign m.offset_hour m.offset_minute v.fraction,
  zone_part-print m.sign m.offset_hour m.offset_minute v.zone,
)
