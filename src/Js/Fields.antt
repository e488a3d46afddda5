-- ===== src/Js/Fields.antt =====
-- What an object holds after a property was set.
use mathlib.Core.Path.{refl, ◌≡◌}
use native.Mathlib.Omega.{arith}
use pomodorough_server.Js.Value.{Props, Value, end, field, has, prop, put}
use pomodorough_server.Prelude.{
  Bool-cases, String, eq_iff, false, if◌then◌else◌, inl, inr, or-eq-false, str_eq, true, ◌∙◌,
}

pub field-put :
    (k j : String) (v : Value) (ps : Props)
    → field k (put j v ps) ≡ (if str_eq j k then v else field k ps)
field-put k j v end = refl
field-put k j v (prop i w ps) =
    ground (arith, field-put k j v ps, eq_iff i j, eq_iff j k, eq_iff i k)

-- `Object.assign(o, new)`
abbrev pub assign : Props → Props → Props
assign end o = o
assign (prop k v ps) o = assign ps (put k v o)

pub field-assign_other :
    (k : String) (new o : Props) → has k new ≡ false → field k (assign new o) ≡ field k o
field-assign_other k end o h = refl
field-assign_other k (prop j v ps) o h =
    let (other, none_left) = or-eq-false (str_eq j k) (has k ps) h in
    field-assign_other k ps (put j v o) none_left ∙ (field-put k j v o ∙ rw other refl)

-- What is assigned does not depend on what was there.
pub field-assign :
    (k : String) (new o p : Props)
    → has k new ≡ true
    → field k (assign new o) ≡ field k (assign new p)
field-assign k end o p h = cc
field-assign k (prop j v ps) o p h = elim (Bool-cases (has k ps)) [
  | inl later ↦ field-assign k ps (put j v o) (put j v p) later
  | inr last ↦
      let first : str_eq j k ≡ true = ground arith in
      rw (field-assign_other k ps (put j v o) last, field-assign_other k ps (put j v p) last)
        (rw (field-put k j v o, field-put k j v p, first) refl)
]
