-- ===== src/Sync/Order/Laws.antt =====
-- The order of timer commands: by wall time, then counter, then device, then identifier.
use mathlib.Core.Path.{refl, ap₂, ◌≡◌}
use native.Mathlib.Omega.{arith}
use pomodorough_server.Js.Text.{codes, compare_units, utf16}
use pomodorough_server.Js.Value.{Value}
use pomodorough_server.Prelude.{
  List, String, ap, sym, ◌∙◌, [], if◌then◌else◌, ltb, suc, zero, ℕ, ◌∷◌,
}
use pomodorough_server.Prelude.Int.{negsuc, pos_part, ◌+ℤ◌, pos, ℤ, ◌-ℤ◌, ◌≤ℤ◌}
use pomodorough_server.Queue.{Operation, attr}
use pomodorough_server.Sync.Order.{
  clock_component, string_or_empty, compare_strings, compare_timer_commands, or_zero,
}

abbrev pub neg : ℤ → ℤ
neg (pos zero) = pos zero
neg (pos (suc n)) = negsuc n
neg (negsuc n) = pos (suc n)

neg-or_zero : (a b : ℤ) → neg (or_zero a b) ≡ or_zero (neg a) (neg b)
neg-or_zero (pos zero) b = refl
neg-or_zero (pos (suc n)) b = refl
neg-or_zero (negsuc n) b = refl

neg-sub : (a b : ℤ) → b -ℤ a ≡ neg (a -ℤ b)
unfolding ◌-ℤ◌
neg-sub a b = ground arith

compare_units-swap : (xs ys : List ℕ) → compare_units ys xs ≡ neg (compare_units xs ys)
unfolding compare_units
compare_units-swap [] [] = refl
compare_units-swap [] (y ∷ ys) = refl
compare_units-swap (x ∷ xs) [] = refl
compare_units-swap (x ∷ xs) (y ∷ ys) = ground (arith, compare_units-swap xs ys)

-- at most as late
abbrev pub NotLater : ℤ → Type 0
NotLater a = a ≤ℤ pos 0

-- The three comparisons of three values agree: the first is a comparison whose signs compose.
abbrev pub Composes : ℤ → ℤ → ℤ → Type 0
Composes ab bc ac =
    (NotLater ab → NotLater bc → NotLater ac)
    × (NotLater ab → NotLater bc → ac ≡ pos 0 → (ab ≡ pos 0) × (bc ≡ pos 0))

zero-or_zero : (a b : ℤ) → or_zero a b ≡ pos 0 → (a ≡ pos 0) × (b ≡ pos 0)
zero-or_zero (pos zero) b h = (refl, h)
zero-or_zero (pos (suc n)) b h = cc
zero-or_zero (negsuc n) b h = cc

first-NotLater : (a b : ℤ) → NotLater (or_zero a b) → NotLater a
first-NotLater (pos zero) b h = omega arith
first-NotLater (pos (suc n)) b h = h
first-NotLater (negsuc n) b h = h

second-NotLater : (a b : ℤ) → NotLater (or_zero a b) → a ≡ pos 0 → NotLater b
second-NotLater (pos zero) b h e = h
second-NotLater (pos (suc n)) b h e = cc
second-NotLater (negsuc n) b h e = cc

or_zero-NotLater : (a b : ℤ) → NotLater a → (a ≡ pos 0 → NotLater b) → NotLater (or_zero a b)
or_zero-NotLater (pos zero) b h k = k refl
or_zero-NotLater (pos (suc n)) b h k = h
or_zero-NotLater (negsuc n) b h k = h

Composes-or_zero :
    (a b c d e f : ℤ)
    → Composes a b c
    → Composes d e f
    → Composes (or_zero a d) (or_zero b e) (or_zero c f)
Composes-or_zero a b c d e f p q = (
  λ h k.
      let ha = first-NotLater a d h in
      let hb = first-NotLater b e k in
      or_zero-NotLater c f (p.0 ha hb) (λ zero_c.
        let (za, zb) = p.1 ha hb zero_c in
        q.0 (second-NotLater a d h za) (second-NotLater b e k zb)),
  λ h k z.
      let (zc, zf) = zero-or_zero c f z in
      let (za, zb) = p.1 (first-NotLater a d h) (first-NotLater b e k) zc in
      let (zd, ze) = q.1 (second-NotLater a d h za) (second-NotLater b e k zb) zf in
      (rw za zd, rw zb ze),
)

Composes-sub : (x y z : ℤ) → Composes (x -ℤ y) (y -ℤ z) (x -ℤ z)
unfolding ◌-ℤ◌
Composes-sub x y z =
    (λ h k. ground (arith, h, k), λ h k e. (ground (arith, h, k, e), ground (arith, h, k, e)))

-- the comparison of two code units
unit_order : ℕ → ℕ → ℤ
unit_order x y = if ltb x y then negsuc 0 else if ltb y x then pos 1 else pos 0

unit_order-zero : (x y : ℕ) → unit_order x y ≡ pos 0 → x ≡ y
unfolding unit_order
unit_order-zero x y h = ground arith

compare_units-cons :
    (x y : ℕ) (xs ys : List ℕ)
    → compare_units (x ∷ xs) (y ∷ ys) ≡ or_zero (unit_order x y) (compare_units xs ys)
unfolding compare_units unit_order
compare_units-cons x y xs ys = ground arith

Composes-unit_order : (x y z : ℕ) → Composes (unit_order x y) (unit_order y z) (unit_order x z)
unfolding unit_order
Composes-unit_order x y z = (λ h k. ground (arith, h, k), λ h k e. ground (arith, h, k, e))

Composes-compare_units :
    (xs ys zs : List ℕ) → Composes (compare_units xs ys) (compare_units ys zs) (compare_units xs zs)
unfolding compare_units
Composes-compare_units [] [] [] = (λ h k. omega arith, λ h k e. (refl, refl))
Composes-compare_units [] [] (z ∷ zs) = (λ h k. omega arith, λ h k e. cc)
Composes-compare_units [] (y ∷ ys) [] = (λ h k. omega arith, λ h k e. absurd (omega arith))
Composes-compare_units [] (y ∷ ys) (z ∷ zs) = (λ h k. omega arith, λ h k e. cc)
Composes-compare_units (x ∷ xs) [] zs = (λ h k. absurd (omega arith), λ h k e. absurd (omega arith))
Composes-compare_units (x ∷ xs) (y ∷ ys) [] =
    (λ h k. absurd (omega arith), λ h k e. absurd (omega arith))
Composes-compare_units (x ∷ xs) (y ∷ ys) (z ∷ zs) = simp compare_units-cons (
    Composes-or_zero (unit_order x y) (unit_order y z) (unit_order x z) (compare_units xs ys)
      (compare_units ys zs) (compare_units xs zs) (Composes-unit_order x y z)
      (Composes-compare_units xs ys zs))

-- Exchanging two commands negates their comparison.
pub compare_timer_commands-swap :
    (string_of : Value → String) (l r : Operation)
    → compare_timer_commands string_of r l ≡ neg (compare_timer_commands string_of l r)
unfolding compare_timer_commands compare_strings
compare_timer_commands-swap string_of l r = simp (neg-or_zero, ← neg-sub, ← compare_units-swap)

Composes-compare_timer_commands :
    (string_of : Value → String) (a b c : Operation)
    → Composes
        (compare_timer_commands string_of a b)
        (compare_timer_commands string_of b c)
        (compare_timer_commands string_of a c)
unfolding compare_timer_commands compare_strings
Composes-compare_timer_commands string_of a b c =
    Composes-or_zero _ _ _ _ _ _ (Composes-sub _ _ _) (
      Composes-or_zero _ _ _ _ _ _ (Composes-sub _ _ _) (
        Composes-or_zero _ _ _ _ _ _ (Composes-compare_units _ _ _) (Composes-compare_units _ _ _)))

-- the clock of a command: its wall time, then its counter
abbrev pub wall : Operation → ℤ
wall op = clock_component (attr "hlcWallMs" op)

abbrev pub counter : Operation → ℤ
counter op = clock_component (attr "hlcCounter" op)

-- One command is before the other.
abbrev pub Before : (Value → String) → Operation → Operation → Type 0
Before string_of a b = compare_timer_commands string_of a b +ℤ pos 1 ≤ℤ pos 0

-- the code units by which a value of a command is compared
abbrev pub units : (Value → String) → Value → List ℕ
units string_of v = utf16 (codes (string_or_empty string_of v))

or_zero-negative : (a b : ℤ) → a +ℤ pos 1 ≤ℤ pos 0 → or_zero a b +ℤ pos 1 ≤ℤ pos 0
unfolding ◌+ℤ◌
or_zero-negative (pos zero) b h = absurd (ground arith)
or_zero-negative (pos (suc n)) b h = h
or_zero-negative (negsuc n) b h = h

sub-negative : (x y : ℤ) → x +ℤ pos 1 ≤ℤ y → (x -ℤ y) +ℤ pos 1 ≤ℤ pos 0
unfolding ◌+ℤ◌ ◌-ℤ◌
sub-negative x y h = ground arith

sub-same : (x y : ℤ) → x ≡ y → x -ℤ y ≡ pos 0
unfolding ◌-ℤ◌
sub-same x y e = ground (arith, e)

sub-zero : (x y : ℤ) → x -ℤ y ≡ pos 0 → x ≡ y
unfolding ◌-ℤ◌
sub-zero x y h = ground (arith, h)

compare_units-zero : (xs ys : List ℕ) → compare_units xs ys ≡ pos 0 → xs ≡ ys
unfolding compare_units
compare_units-zero [] [] h = refl
compare_units-zero [] (y ∷ ys) h = cc
compare_units-zero (x ∷ xs) [] h = absurd (omega (arith, ap pos_part h))
compare_units-zero (x ∷ xs) (y ∷ ys) h =
    let (first, rest) =
      zero-or_zero (unit_order x y) (compare_units xs ys)
        (sym (compare_units-cons x y xs ys) ∙ h) in
    ap₂ ◌∷◌ (unit_order-zero x y first) (compare_units-zero xs ys rest)

earlier_wall :
    (string_of : Value → String) (a b : Operation)
    → wall a +ℤ pos 1 ≤ℤ wall b
    → Before string_of a b
unfolding compare_timer_commands
earlier_wall string_of a b h = or_zero-negative _ _ (sub-negative (wall a) (wall b) h)

earlier_counter :
    (string_of : Value → String) (a b : Operation)
    → wall a ≡ wall b
    → counter a +ℤ pos 1 ≤ℤ counter b
    → Before string_of a b
unfolding compare_timer_commands
earlier_counter string_of a b same h =
    rw (sub-same (wall a) (wall b) same)
      (or_zero-negative _ _ (sub-negative (counter a) (counter b) h))

tied :
    (string_of : Value → String) (a b : Operation)
    → compare_timer_commands string_of a b ≡ pos 0
    → (wall a ≡ wall b)
      × (counter a ≡ counter b)
      × (units string_of (attr "deviceId" a) ≡ units string_of (attr "deviceId" b))
      × (utf16 (codes a.id) ≡ utf16 (codes b.id))
unfolding compare_timer_commands compare_strings
tied string_of a b h =
    let (walls, h1) = zero-or_zero _ _ h in
    let (counters, h2) = zero-or_zero _ _ h1 in
    let (devices, names) = zero-or_zero _ _ h2 in
    (
      sub-zero (wall a) (wall b) walls,
      sub-zero (counter a) (counter b) counters,
      compare_units-zero _ _ devices,
      compare_units-zero _ _ names,
    )

-- Timer commands are ordered by their clocks: one with an earlier wall time is before the other, and
-- of the same wall time one with a lower counter is, whatever their devices and identifiers; a part
-- of a clock that is no safe integer from zero on counts as -1. Only commands that agree in wall
-- time, in counter and, as texts, in device and identifier tie. Exchanging two commands negates
-- their comparison, and one that is not later than a second, which is not later than a third, is
-- not later than the third.
pub compare_timer_commands_lem :
    (string_of : Value → String) (a b c : Operation)
    → (wall a +ℤ pos 1 ≤ℤ wall b → Before string_of a b)
      × (wall a ≡ wall b → counter a +ℤ pos 1 ≤ℤ counter b → Before string_of a b)
      × (compare_timer_commands string_of a b ≡ pos 0
          → (wall a ≡ wall b)
            × (counter a ≡ counter b)
            × (units string_of (attr "deviceId" a) ≡ units string_of (attr "deviceId" b))
            × (utf16 (codes a.id) ≡ utf16 (codes b.id)))
      × (compare_timer_commands string_of b a ≡ neg (compare_timer_commands string_of a b))
      × (compare_timer_commands string_of a b ≤ℤ pos 0
          → compare_timer_commands string_of b c ≤ℤ pos 0
          → compare_timer_commands string_of a c ≤ℤ pos 0)
compare_timer_commands_lem string_of a b c = (
  earlier_wall string_of a b,
  earlier_counter string_of a b,
  tied string_of a b,
  compare_timer_commands-swap string_of a b,
  (Composes-compare_timer_commands string_of a b c).0,
)
