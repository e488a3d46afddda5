-- ===== src/Js/Equal.antt =====
-- Structural equality of values, as two JSON texts are equal.
use Prim.Native.String.{String}
use mathlib.Core.Path.{◌≡◌, refl, ap, ap₂}
use mathlib.Core.Logic.{◌↔◌}
use text.Mathlib.TextPositions.{eq_refl}
use mathlib.Core.Bool.{Bool, true, false, ◌&&◌}
use native.Mathlib.Omega.{arith}
use pomodorough_server.Prelude.{ℕ, str_eq, eq_iff, ◌==◌, and-eq-true}
use pomodorough_server.Prelude.Int.{ℤ, pos, negsuc}
use pomodorough_server.Js.Value.{
  Value, undefined, null, bool, int, float, nan, str, arr, obj, Elems, nil, cons, Props, end, prop,
}

abbrev bool_eq : Bool → Bool → Bool
bool_eq true b = b
bool_eq false true = false
bool_eq false false = true

abbrev int_eq : ℤ → ℤ → Bool
int_eq (pos a) (pos b) = a == b
int_eq (negsuc a) (negsuc b) = a == b
int_eq a b = false

unfoldable mutual
  pub beq : Value → Value → Bool
  beq undefined undefined = true
  beq null null = true
  beq (bool a) (bool b) = bool_eq a b
  beq (int a) (int b) = int_eq a b
  beq (float a) (float b) = a == b
  beq nan nan = true
  beq (str a) (str b) = str_eq a b
  beq (arr a) (arr b) = beq_elems a b
  beq (obj a) (obj b) = beq_props a b
  beq a b = false

  pub beq_elems : Elems → Elems → Bool
  beq_elems nil nil = true
  beq_elems (cons v vs) (cons w ws) = beq v w && beq_elems vs ws
  beq_elems a b = false

  pub beq_props : Props → Props → Bool
  beq_props end end = true
  beq_props (prop k v ps) (prop j w qs) = str_eq k j && beq v w && beq_props ps qs
  beq_props a b = false

int_eq_sound : (a b : ℤ) → int_eq a b ≡ true → a ≡ b
int_eq_sound a b h = ground arith

prop_path :
    {k j : String} {v w : Value} {ps qs : Props}
    → k ≡ j
    → v ≡ w
    → ps ≡ qs
    → prop k v ps ≡ prop j w qs
prop_path p q r = cc

int_eq_refl : (a : ℤ) → int_eq a a ≡ true
int_eq_refl a = ground arith

bool_eq_refl : (a : Bool) → bool_eq a a ≡ true
bool_eq_refl a = ground arith

nat_eq_refl : (a : ℕ) → (a == a) ≡ true
nat_eq_refl a = ground arith

mutual
  unfolding beq beq_elems beq_props

  beq_sound : (a b : Value) → beq a b ≡ true → a ≡ b
  beq_sound undefined undefined h = refl
  beq_sound null null h = refl
  beq_sound (bool a) (bool b) h = ground arith
  beq_sound (int a) (int b) h = ap int (int_eq_sound a b h)
  beq_sound (float a) (float b) h = ground arith
  beq_sound nan nan h = refl
  beq_sound (str a) (str b) h = ap str ((eq_iff a b).0 h)
  beq_sound (arr a) (arr b) h = ap arr (beq_elems_sound a b h)
  beq_sound (obj a) (obj b) h = ap obj (beq_props_sound a b h)
  beq_sound a b h = cc

  beq_elems_sound : (a b : Elems) → beq_elems a b ≡ true → a ≡ b
  beq_elems_sound nil nil h = refl
  beq_elems_sound (cons v vs) (cons w ws) h =
      let (p, q) = and-eq-true (beq v w) (beq_elems vs ws) h in
      ap₂ cons (beq_sound v w p) (beq_elems_sound vs ws q)
  beq_elems_sound a b h = cc

  beq_props_sound : (a b : Props) → beq_props a b ≡ true → a ≡ b
  beq_props_sound end end h = refl
  beq_props_sound (prop k v ps) (prop j w qs) h =
      let (pq, r) = and-eq-true (str_eq k j && beq v w) (beq_props ps qs) h in
      let (p, q) = and-eq-true (str_eq k j) (beq v w) pq in
      prop_path ((eq_iff k j).0 p) (beq_sound v w q) (beq_props_sound ps qs r)
  beq_props_sound a b h = cc

mutual
  unfolding beq beq_elems beq_props

  pub beq_refl : (a : Value) → beq a a ≡ true
  beq_refl undefined = refl
  beq_refl null = refl
  beq_refl (bool a) = bool_eq_refl a
  beq_refl (int a) = int_eq_refl a
  beq_refl (float a) = nat_eq_refl a
  beq_refl nan = refl
  beq_refl (str a) = eq_refl a
  beq_refl (arr a) = beq_elems_refl a
  beq_refl (obj a) = beq_props_refl a

  beq_elems_refl : (a : Elems) → beq_elems a a ≡ true
  beq_elems_refl nil = refl
  beq_elems_refl (cons v vs) = simp (beq_refl v, beq_elems_refl vs)

  beq_props_refl : (a : Props) → beq_props a a ≡ true
  beq_props_refl end = refl
  beq_props_refl (prop k v ps) = simp (eq_refl, beq_refl v, beq_props_refl ps)

-- Structural equality decides equality.
pub beq_iff : (a b : Value) → (beq a b ≡ true) ↔ (a ≡ b)
beq_iff a b = (beq_sound a b, λ e. rw (← e) (beq_refl a))
