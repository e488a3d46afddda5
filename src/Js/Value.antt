-- ===== src/Js/Value.antt =====
-- Values of the language. An object is its list of own properties in order; a number is a
-- mathematical integer, any other number by an index (0 and 1 for the infinities, the others for
-- fractions), or NaN.
use mathlib.Core.Path.{◌≡◌}
use native.Mathlib.Omega.{arith}
use pomodorough_server.Prelude.{if◌then◌else◌, ltb, str_eq, ℕ, ◌==◌}
use pomodorough_server.Prelude.Int.{negsuc, pos, ℤ}
use Prim.Native.String.{String}
use mathlib.Core.Bool.{Bool, true, false, not, ◌||◌}
use mathlib.Core.Option.{Option, none, some}
use mathlib.Core.List.{List, [], ◌∷◌}

mutual
  pub data Value : Type 0 where
    undefined : Value
    null : Value
    bool : Bool → Value
    int : ℤ → Value
    float : ℕ → Value
    nan : Value
    str : String → Value
    arr : Elems → Value
    obj : Props → Value

  pub data Elems : Type 0 where
    nil : Elems
    cons : Value → Elems → Elems

  pub data Props : Type 0 where
    end : Props
    prop : String → Value → Props → Props

abbrev pub elems : Elems → List Value
elems nil = []
elems (cons v vs) = v ∷ elems vs

abbrev pub of_list : List Value → Elems
of_list [] = nil
of_list (v ∷ vs) = cons v (of_list vs)

-- `Object.keys`
abbrev pub keys : Props → List String
keys end = []
keys (prop k v ps) = k ∷ keys ps

-- `Object.values`
abbrev pub values : Props → List Value
values end = []
values (prop k v ps) = v ∷ values ps

-- `o.k` of an object's own properties
abbrev pub field : String → Props → Value
field k end = undefined
field k (prop j v ps) = if str_eq j k then v else field k ps

-- `Object.hasOwn(o, k)`
abbrev pub has : String → Props → Bool
has k end = false
has k (prop j v ps) = str_eq j k || has k ps

-- `{ ...o, k: v }`, and `o.k = v`: a property keeps its place, a new one goes last
abbrev pub put : String → Value → Props → Props
put k v end = prop k v end
put k v (prop j w ps) = if str_eq j k then prop j v ps else prop j w (put k v ps)

-- `delete o.k`
abbrev pub without : String → Props → Props
without k end = end
without k (prop j w ps) = if str_eq j k then ps else prop j w (without k ps)

-- `v?.k`
abbrev pub get : String → Value → Value
get k (obj ps) = field k ps
get k v = undefined

-- `Object.hasOwn(v, k)` of a value that need not be an object
abbrev pub has_own : String → Value → Bool
has_own k (obj ps) = has k ps
has_own k v = false

-- `typeof v === "string"`
abbrev pub is_string : Value → Bool
is_string (str s) = true
is_string v = false

-- `Number.isFinite(v)`
abbrev pub is_finite : Value → Bool
is_finite (int i) = true
is_finite (float n) = ltb 1 n
is_finite v = false

-- `typeof v === "boolean"`
abbrev pub is_boolean : Value → Bool
is_boolean (bool b) = true
is_boolean v = false

abbrev pub is_null : Value → Bool
is_null null = true
is_null v = false

abbrev pub is_undefined : Value → Bool
is_undefined undefined = true
is_undefined v = false

-- `v == null`
abbrev pub is_nullish : Value → Bool
is_nullish undefined = true
is_nullish null = true
is_nullish v = false

-- `v === true`
abbrev pub is_true : Value → Bool
is_true (bool b) = b
is_true v = false

-- `Boolean(v)`
abbrev pub truthy : Value → Bool
truthy undefined = false
truthy null = false
truthy (bool b) = b
truthy (int (pos n)) = not (n == 0)
truthy (int (negsuc n)) = true
truthy (float n) = true
truthy nan = false
truthy (str s) = not (str_eq s "")
truthy (arr vs) = true
truthy (obj ps) = true

-- `Array.isArray(v)`
abbrev pub is_array : Value → Bool
is_array (arr vs) = true
is_array v = false

-- `v !== null && typeof v === "object" && !Array.isArray(v)`
abbrev pub is_object : Value → Bool
is_object (obj ps) = true
is_object v = false

-- the items of `Array.isArray(v) ? v : []`
abbrev pub items : Value → List Value
items (arr vs) = elems vs
items v = []

-- `a ?? b`
abbrev pub or_nullish : Value → Value → Value
or_nullish undefined b = b
or_nullish null b = b
or_nullish a b = a

-- `a || b`
abbrev pub or_falsy : Value → Value → Value
or_falsy a b = if truthy a then a else b

-- the text of `v`, if `typeof v === "string"`
abbrev pub text_of : Value → Option String
text_of (str s) = some s
text_of v = none

-- `v === s` for a text `s`
abbrev pub is_text : String → Value → Bool
is_text s (str t) = str_eq t s
is_text s v = false

-- `typeof v === "string" && v.length > 0`
abbrev pub is_full_text : Value → Bool
is_full_text (str s) = not (str_eq s "")
is_full_text v = false

pub text_of-eq-some : (v : Value) (s : String) → text_of v ≡ some s → v ≡ str s
text_of-eq-some v s h = ground arith

-- `a === b`. An object equals itself alone, and the model holds values and not references: two
-- objects are never the same here.
abbrev pub strict_eq : Value → Value → Bool
strict_eq undefined undefined = true
strict_eq null null = true
strict_eq (bool true) (bool b) = b
strict_eq (bool false) (bool b) = not b
strict_eq (int (pos m)) (int (pos n)) = m == n
strict_eq (int (negsuc m)) (int (negsuc n)) = m == n
strict_eq (float m) (float n) = m == n
strict_eq (str s) (str t) = str_eq s t
strict_eq a b = false
