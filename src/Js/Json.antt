-- ===== src/Js/Json.antt =====
-- What a value becomes when it is written as JSON and read again.
use mathlib.Core.Path.{refl, ◌≡◌}
use pomodorough_server.Js.Value.{
  Elems, Props, Value, arr, bool, cons, end, float, int, is_undefined, nan, nil, null, obj, prop,
  str, undefined,
}
use pomodorough_server.Prelude.{ap, false, if◌then◌else◌, ltb, true}

abbrev mutual
  -- `JSON.parse(JSON.stringify(v))` of a value inside of another one
  pub json_of : Value → Value
  json_of undefined = null
  json_of null = null
  json_of (bool b) = bool b
  json_of (int i) = int i
  json_of (float n) = if ltb 1 n then float n else null
  json_of nan = null
  json_of (str s) = str s
  json_of (arr vs) = arr (json_elems vs)
  json_of (obj ps) = obj (json_props ps)

  pub json_elems : Elems → Elems
  json_elems nil = nil
  json_elems (cons v vs) = cons (json_of v) (json_elems vs)

  pub json_props : Props → Props
  json_props end = end
  json_props (prop k v ps) =
      if is_undefined v then json_props ps else prop k (json_of v) (json_props ps)

abbrev mutual
  -- A value that JSON can hold.
  pub IsJson : Value → Type 0
  IsJson undefined = ⊥
  IsJson null = Unit
  IsJson (bool b) = Unit
  IsJson (int i) = Unit
  IsJson (float n) = ltb 1 n ≡ true
  IsJson nan = ⊥
  IsJson (str s) = Unit
  IsJson (arr vs) = AreJson vs
  IsJson (obj ps) = HoldJson ps

  pub AreJson : Elems → Type 0
  AreJson nil = Unit
  AreJson (cons v vs) = IsJson v × AreJson vs

  pub HoldJson : Props → Type 0
  HoldJson end = Unit
  HoldJson (prop k v ps) = IsJson v × HoldJson ps

mutual
  pub json_of_lem : (v : Value) → IsJson v → json_of v ≡ v
  json_of_lem undefined h = elim h [ ]
  json_of_lem nan h = elim h [ ]
  json_of_lem null h = refl
  json_of_lem (bool b) h = refl
  json_of_lem (int i) h = refl
  json_of_lem (float n) h = rw h refl
  json_of_lem (str s) h = refl
  json_of_lem (arr vs) h = ap arr (json_elems_lem vs h)
  json_of_lem (obj ps) h = ap obj (json_props_lem ps h)

  pub json_elems_lem : (vs : Elems) → AreJson vs → json_elems vs ≡ vs
  json_elems_lem nil h = refl
  json_elems_lem (cons v vs) (h, hs) = rw (json_of_lem v h, json_elems_lem vs hs) refl

  pub json_props_lem : (ps : Props) → HoldJson ps → json_props ps ≡ ps
  json_props_lem end h = refl
  json_props_lem (prop k v ps) (h, hs) =
      rw (defined v h, json_of_lem v h, json_props_lem ps hs) refl

  defined : (v : Value) → IsJson v → is_undefined v ≡ false
  defined undefined h = elim h [ ]
  defined nan h = elim h [ ]
  defined null h = refl
  defined (bool b) h = refl
  defined (int i) h = refl
  defined (float n) h = refl
  defined (str s) h = refl
  defined (arr vs) h = refl
  defined (obj ps) h = refl
