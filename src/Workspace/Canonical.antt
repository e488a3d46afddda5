-- ===== src/Workspace/Canonical.antt =====
-- The comparison of records in web/workspace-core.js: as JSON with the properties of each object
-- sorted by their names.
use mathlib.Core.Path.{refl, ◌≡◌}
use pomodorough_server.Js.Equal.{beq, beq_refl}
use pomodorough_server.Js.Json.{json_of}
use pomodorough_server.Js.Text.{codes, compare_units, utf16}
use pomodorough_server.Js.Value.{
  Elems, Props, Value, arr, bool, cons, end, float, int, is_undefined, nan, nil, null, obj, prop,
  str, undefined,
}
use pomodorough_server.Prelude.{Bool, Bool-cases, String, if◌then◌else◌, inl, inr, true, ◌&&◌, ◌||◌}
use pomodorough_server.Prelude.Int.{leb_ℤ, pos}

-- a property among sorted ones
abbrev insert_prop : String → Value → Props → Props
insert_prop k v end = prop k v end
insert_prop k v (prop j w ps) =
    let further = insert_prop k v ps in
    if leb_ℤ (compare_units (utf16 (codes k)) (utf16 (codes j))) (pos 0)
    then prop k v (prop j w ps)
    else prop j w further

abbrev mutual
  pub canonical_json : Value → Value
  canonical_json undefined = undefined
  canonical_json null = null
  canonical_json (bool b) = bool b
  canonical_json (int i) = int i
  canonical_json (float n) = float n
  canonical_json nan = nan
  canonical_json (str s) = str s
  canonical_json (arr vs) = arr (canonical_elems vs)
  canonical_json (obj ps) = obj (canonical_props ps)

  pub canonical_elems : Elems → Elems
  canonical_elems nil = nil
  canonical_elems (cons v vs) = cons (canonical_json v) (canonical_elems vs)

  pub canonical_props : Props → Props
  canonical_props end = end
  canonical_props (prop k v ps) = insert_prop k (canonical_json v) (canonical_props ps)

-- Two texts of JSON are the same exactly when they are read as the same value; only `undefined` has
-- no text.
unfoldable pub records_equal : Value → Value → Bool
unfolding compare_units beq
records_equal left right =
    if is_undefined left || is_undefined right
    then is_undefined left && is_undefined right
    else beq (json_of (canonical_json left)) (json_of (canonical_json right))

pub records_equal_refl : (v : Value) → records_equal v v ≡ true
unfolding records_equal
records_equal_refl v = elim (Bool-cases (is_undefined v)) [
  | inl missing ↦ rw missing refl
  | inr present ↦ rw present (beq_refl (json_of (canonical_json v)))
]
