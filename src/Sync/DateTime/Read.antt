-- ===== src/Sync/DateTime/Read.antt =====
-- The pattern of `parseDateTime` in web/sync-core.js,
-- `\d{4}-\d{2}-\d{2}[Tt]\d{2}:\d{2}:\d{2}(\.\d+)?([Zz]|[+-]\d{2}:\d{2})` over a whole text.
use pomodorough_server.Js.Text.{is_digit}
use pomodorough_server.Prelude.{
  List, Option, [], if◌then◌else◌, none, some, suc, zero, ℕ, ◌*◌, ◌+◌, ◌-◌, ◌==◌, ◌||◌, ◌∷◌,
}
use pomodorough_server.Prelude.Options.{◌>>=◌}

pub data Sign : Type 0 where
  zulu plus minus : Sign

pub record Fields : Type 0 where
  pub year : ℕ
  pub month : ℕ
  pub day : ℕ
  pub hour : ℕ
  pub minute : ℕ
  pub second : ℕ
  pub fraction : List ℕ
  pub sign : Sign
  pub offset_hour : ℕ
  pub offset_minute : ℕ

-- `(\d{n})` as a number, from a value read so far
unfoldable pub digits : ℕ → ℕ → List ℕ → Option (ℕ × List ℕ)
digits zero n cs = some (n, cs)
digits (suc k) n [] = none
digits (suc k) n (c ∷ cs) =
    let rest = digits k (n * 10 + (c - b'0')) cs in if is_digit c then rest else none

-- one character that is one of two
unfoldable pub one_of : ℕ → ℕ → List ℕ → Option (List ℕ)
one_of a b [] = none
one_of a b (c ∷ cs) = if c == a || c == b then some cs else none

-- the longest run of digits, and what follows
unfoldable pub digit_run : List ℕ → List ℕ × List ℕ
digit_run [] = ([], [])
digit_run (c ∷ cs) =
    let (run, rest) = digit_run cs in if is_digit c then (c ∷ run, rest) else ([], c ∷ cs)

-- a run that is not empty
abbrev pub some_run : List ℕ × List ℕ → Option (List ℕ × List ℕ)
some_run ([], rest) = none
some_run (c ∷ run, rest) = some (c ∷ run, rest)

-- `(?:\.(\d+))?`
unfoldable pub fraction_part : List ℕ → Option (List ℕ × List ℕ)
unfolding digit_run
fraction_part [] = some ([], [])
fraction_part (c ∷ cs) = if c == b'.' then some_run (digit_run cs) else some ([], c ∷ cs)

-- the end of the text
abbrev pub at_end {ℓ} : {A : Type ℓ} → A → List ℕ → Option A
at_end a [] = some a
at_end a (c ∷ cs) = none

pub record Zone : Type 0 where
  pub sign : Sign
  pub offset_hour : ℕ
  pub offset_minute : ℕ

abbrev pub utc : Zone
utc = record { sign = zulu; offset_hour = 0; offset_minute = 0 }

-- `(\d{2}):(\d{2})$` behind a sign
unfoldable pub offset : Sign → List ℕ → Option Zone
offset sign cs = do
  (h, cs1) ← digits 2 0 cs
  cs2 ← one_of b':' b':' cs1
  (m, cs3) ← digits 2 0 cs2
  at_end (record { sign = sign; offset_hour = h; offset_minute = m }) cs3

-- `([Zz]|([+-])(\d{2}):(\d{2}))$`
unfoldable pub zone_part : List ℕ → Option Zone
zone_part [] = none
zone_part (c ∷ cs) =
    if c == b'Z' || c == b'z'
    then at_end utc cs
    else if c == b'+'
    then offset plus cs
    else if c == b'-'
    then offset minus cs
    else none

unfoldable pub read_fields : List ℕ → Option Fields
read_fields cs = do
  (year, cs1) ← digits 4 0 cs
  cs2 ← one_of b'-' b'-' cs1
  (month, cs3) ← digits 2 0 cs2
  cs4 ← one_of b'-' b'-' cs3
  (day, cs5) ← digits 2 0 cs4
  cs6 ← one_of b'T' b't' cs5
  (hour, cs7) ← digits 2 0 cs6
  cs8 ← one_of b':' b':' cs7
  (minute, cs9) ← digits 2 0 cs8
  cs10 ← one_of b':' b':' cs9
  (second, cs11) ← digits 2 0 cs10
  (run, cs12) ← fraction_part cs11
  z ← zone_part cs12
  some (record {
    year = year;
    month = month;
    day = day;
    hour = hour;
    minute = minute;
    second = second;
    fraction = run;
    sign = z.sign;
    offset_hour = z.offset_hour;
    offset_minute = z.offset_minute;
  })

-- the parts of the reader, for a line that runs it
unfoldable pub reader : Unit {0}
unfolding digits one_of digit_run fraction_part offset zone_part read_fields
reader = tt
