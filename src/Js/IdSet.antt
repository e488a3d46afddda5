-- ===== src/Js/IdSet.antt =====
-- A `Set` of texts as the list of its members in the order of insertion.
use mathlib.Core.Path.{◌≡◌, refl}
use native.Mathlib.Omega.{arith}
use text.Mathlib.TextPositions.{eq_refl}
use pomodorough_server.Prelude.{
  suc, ◌≤◌, ◌<◌, Bool, true, false, not, String, List, [], ◌∷◌, length, member, str_eq, eq_iff,
  keep, if◌then◌else◌, Bool-cases, inl, inr,
}

-- `new Set(xs)`: the first occurrence of each text
abbrev pub to_set : List String → List String
to_set [] = []
to_set (x ∷ xs) = x ∷ keep (λ y. not (str_eq y x)) (to_set xs)

abbrev pub Distinct : List String → Type 0
Distinct [] = Unit
Distinct (x ∷ xs) = (member x xs ≡ false) × Distinct xs

abbrev pub Within : List String → List String → Type 0
Within xs ys = (x : String) → member x xs ≡ true → member x ys ≡ true

-- the list with the first occurrence of `x` taken out
remove : String → List String → List String
remove x [] = []
remove x (y ∷ ys) = if str_eq x y then ys else y ∷ remove x ys

length-remove :
    (x : String) (ys : List String) → member x ys ≡ true → suc (length (remove x ys)) ≡ length ys
unfolding remove
length-remove x [] h = cc
length-remove x (y ∷ ys) h = ground (arith, length-remove x ys)

member-remove :
    (x z : String) (ys : List String)
    → str_eq z x ≡ false
    → member z ys ≡ true
    → member z (remove x ys) ≡ true
unfolding remove
member-remove x z [] n h = cc
member-remove x z (y ∷ ys) n h =
    ground (arith, member-remove x z ys n, eq_iff x y, eq_iff z y, eq_iff z x)

-- what is in a list differs from what is not
member-ne :
    (x z : String) (xs : List String)
    → member x xs ≡ false
    → member z xs ≡ true
    → str_eq z x ≡ false
member-ne x z [] n h = cc
member-ne x z (y ∷ ys) n h = ground (arith, member-ne x z ys, eq_iff x y, eq_iff z y, eq_iff z x)

-- Distinct texts of a list are no more than the list is long.
pub length-le_of_Within : (xs ys : List String) → Distinct xs → Within xs ys → length xs ≤ length ys
length-le_of_Within [] ys d w = omega arith
length-le_of_Within (x ∷ xs) ys (fresh, d) w =
    let here : member x ys ≡ true = w x (ground (arith, eq_refl x)) in
    let there : Within xs (remove x ys) =
      λ z m. member-remove x z ys (member-ne x z xs fresh m) (w z (ground (arith, m))) in
    omega (arith, length-remove x ys here, length-le_of_Within xs (remove x ys) d there)

-- Distinct texts of a list, as many as the list is long, are all of it.
pub Within-of_length :
    (xs ys : List String) → Distinct xs → Within xs ys → length ys ≤ length xs → Within ys xs
Within-of_length xs ys d w len z m = elim (Bool-cases (member z xs)) [
  | inl found ↦ found
  | inr missing ↦
      let there : Within xs (remove z ys) =
        λ x mx. member-remove z x ys (member-ne z x xs missing mx) (w x mx) in
      absurd (omega (arith, length-remove z ys m, length-le_of_Within xs (remove z ys) d there))
]

length-keep : (p : String → Bool) (xs : List String) → length (keep p xs) ≤ length xs
length-keep p [] = omega arith
length-keep p (x ∷ xs) = ground (arith, length-keep p xs)

pub member-keep :
    (p : String → Bool) (z : String) (xs : List String)
    → member z (keep p xs) ≡ (if member z xs then p z else false)
member-keep p z [] = refl
member-keep p z (x ∷ xs) = ground (arith, member-keep p z xs, eq_iff z x)

pub member-to_set : (z : String) (xs : List String) → member z (to_set xs) ≡ member z xs
member-to_set z [] = refl
member-to_set z (x ∷ xs) =
    ground
      (arith, member-to_set z xs, member-keep (λ y. not (str_eq y x)) z (to_set xs), eq_iff z x)

length-to_set : (xs : List String) → length (to_set xs) ≤ length xs
length-to_set [] = omega arith
length-to_set (x ∷ xs) =
    omega (arith, length-to_set xs, length-keep (λ y. not (str_eq y x)) (to_set xs))

length-keep_ne :
    (x : String) (xs : List String)
    → member x xs ≡ true
    → length (keep (λ y. not (str_eq y x)) xs) < length xs
length-keep_ne x [] h = cc
length-keep_ne x (y ∷ ys) h =
    ground
      (arith, length-keep_ne x ys, length-keep (λ z. not (str_eq z x)) ys, eq_iff x y, eq_iff y x)

-- A list as long as its set has no text twice.
pub Distinct_of_length : (xs : List String) → length xs ≤ length (to_set xs) → Distinct xs
Distinct_of_length [] h = tt
Distinct_of_length (x ∷ xs) h = elim (Bool-cases (member x xs)) [
  | inl twice ↦ absurd (
      omega (arith, length-to_set xs, length-keep_ne x (to_set xs) (rw (member-to_set x xs) twice)))
  | inr fresh ↦ (
    fresh,
    Distinct_of_length xs (omega (arith, length-keep (λ y. not (str_eq y x)) (to_set xs))),
  )
]

Distinct-keep : (p : String → Bool) (xs : List String) → Distinct xs → Distinct (keep p xs)
Distinct-keep p [] d = tt
Distinct-keep p (x ∷ xs) (fresh, d) = ground (arith, Distinct-keep p xs d, member-keep p x xs)

-- The members of a set are distinct.
pub Distinct-to_set : (xs : List String) → Distinct (to_set xs)
Distinct-to_set [] = tt
Distinct-to_set (x ∷ xs) =
    let p : String → Bool = λ y. not (str_eq y x) in
    (
      ground (arith, member-keep p x (to_set xs), eq_refl x),
      Distinct-keep p (to_set xs) (Distinct-to_set xs),
    )

-- `new Set(xs).size === xs.length` exactly when no text is there twice.
keep_all :
    (p : String → Bool) (xs : List String)
    → ((x : String) → member x xs ≡ true → p x ≡ true)
    → keep p xs ≡ xs
keep_all p [] h = refl
keep_all p (x ∷ xs) h =
    rw (h x (ground (arith, eq_refl x)), keep_all p xs (λ z m. h z (ground (arith, m))))

pub to_set_of_Distinct : (xs : List String) → Distinct xs → to_set xs ≡ xs
to_set_of_Distinct [] d = refl
to_set_of_Distinct (x ∷ xs) (fresh, d) =
    rw (to_set_of_Distinct xs d)
      (rw (keep_all (λ y. not (str_eq y x)) xs (λ z m. rw (member-ne x z xs fresh m))))
