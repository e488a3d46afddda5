-- ===== src/Texts/Whole.antt =====
-- A message keeps its characters when it is taken apart, and a resolved locale is a supported one.
use mathlib.Core.Path.{refl, ◌≡◌}
use native.Mathlib.Omega.{arith}
use pomodorough_server.Js.Text.{codes}
use pomodorough_server.Js.Value.{values}
use pomodorough_server.Prelude.{
  ==_iff, Bool, Bool-cases, inl, inr, subst, List, Option, [], and-eq-true, any, ap, false,
  if-cases, none, not, some, sym, true, ℕ, ◌&&◌, ◌++◌, ◌==◌, ◌∙◌, ◌∷◌,
}
use pomodorough_server.Texts.{
  Part, back, continues, dashed, default_locale, filled, find_locale, first_of, format, is_full,
  language_of, or_else, parts, placeholder, plain_code, plain_codes, resolve_locale, same_codes,
}

filled-plain_codes :
    (values : List ℕ → Option (List ℕ)) (cs : List ℕ) (ps : List Part)
    → filled values (plain_codes cs ps) ≡ cs ++ filled values ps
filled-plain_codes values [] ps = refl
filled-plain_codes values (c ∷ cs) ps = ap (λ xs. c ∷ xs) (filled-plain_codes values cs ps)

back_append : (ps cs ds : List ℕ) → back ps cs ++ ds ≡ back ps (cs ++ ds)
back_append [] cs ds = refl
back_append (p ∷ ps) cs ds = back_append ps (p ∷ cs) ds

-- a message up to where a name was begun
abbrev begun : Option (List ℕ) → List ℕ → List ℕ
begun none cs = cs
begun (some name) cs = b'{' ∷ back name cs

-- no values at all
abbrev no_values : List ℕ → Option (List ℕ)
no_values name = none

flushed :
    (name ds : List ℕ) (rest : List Part)
    → filled no_values rest ≡ ds
    → filled no_values (plain_code b'{' ∷ plain_codes (back name []) rest) ≡ b'{' ∷ back name ds
flushed name ds rest h =
    ap (λ xs. b'{' ∷ xs)
      (filled-plain_codes no_values (back name []) rest
        ∙ (ap (λ xs. back name [] ++ xs) h ∙ back_append name [] ds))

kept_placeholder :
    (name cs : List ℕ) (rest : List Part)
    → filled no_values rest ≡ cs
    → filled no_values (placeholder (back name []) ∷ rest) ≡ b'{' ∷ back name (b'}' ∷ cs)
kept_placeholder name cs rest h =
    ap (λ xs. b'{' ∷ xs)
      (ap (λ xs. (back name [] ++ b'}' ∷ []) ++ xs) h
        ∙ (ap (λ xs. xs ++ cs) (back_append name [] (b'}' ∷ [])) ∙ back_append name (b'}' ∷ []) cs))

either_filled :
    (b : Bool) (x y : List Part) (cs : List ℕ)
    → (b ≡ true → filled no_values x ≡ cs)
    → (b ≡ false → filled no_values y ≡ cs)
    → filled no_values (elim b [ true ↦ x | false ↦ y ]) ≡ cs
either_filled true x y cs h k = h refl
either_filled false x y cs h k = k refl

none_filled :
    (name : Option (List ℕ)) (cs : List ℕ) → filled no_values (parts name cs) ≡ begun name cs
unfolding parts
none_filled none [] = refl
none_filled none (c ∷ cs) =
    either_filled (c == b'{') _ _ (c ∷ cs)
      (λ e. none_filled (some []) cs ∙ ap (λ x. x ∷ cs) (sym ((==_iff c b'{').0 e)))
      (λ _. ap (λ xs. c ∷ xs) (none_filled none cs))
none_filled (some name) [] = flushed name [] [] refl
none_filled (some name) (c ∷ cs) =
    either_filled (c == b'}' && is_full name) _ _ (b'{' ∷ back name (c ∷ cs))
      (λ e.
        kept_placeholder name cs (parts none cs) (none_filled none cs)
        ∙ ap (λ x. b'{' ∷ back name (x ∷ cs))
            (sym ((==_iff c b'}').0 ((and-eq-true (c == b'}') (is_full name) e).0))))
      (λ _.
        either_filled (continues name c) _ _ (b'{' ∷ back name (c ∷ cs))
          (λ _. none_filled (some (c ∷ name)) cs)
          (λ _.
            either_filled (c == b'{') _ _ (b'{' ∷ back name (c ∷ cs))
              (λ e.
                flushed name (b'{' ∷ cs) (parts (some []) cs) (none_filled (some []) cs)
                ∙ ap (λ x. b'{' ∷ back name (x ∷ cs)) (sym ((==_iff c b'{').0 e)))
              (λ _.
                flushed name (c ∷ cs) (plain_code c ∷ parts none cs)
                  (ap (λ xs. c ∷ xs) (none_filled none cs)))))

-- A message that is filled without any value is the message itself.
format_unfilled : (message : List ℕ) → format message no_values ≡ message
unfolding format
format_unfilled message = none_filled none message

abbrev IsSupported : List (List ℕ) → Option (List ℕ) → Type 0
IsSupported supported none = Unit
IsSupported supported (some locale) = any (same_codes locale) supported ≡ true

same_codes_refl : (cs : List ℕ) → same_codes cs cs ≡ true
same_codes_refl [] = refl
same_codes_refl (c ∷ cs) = ground (arith, same_codes_refl cs)

later-IsSupported :
    (s : List ℕ) (ss : List (List ℕ)) (found : Option (List ℕ))
    → IsSupported ss found
    → IsSupported (s ∷ ss) found
later-IsSupported s ss none h = tt
later-IsSupported s ss (some locale) h = rw h (ground arith)

find_locale-IsSupported :
    (lower : List ℕ → List ℕ) (name : List ℕ) (ss : List (List ℕ))
    → IsSupported ss (find_locale lower name ss)
find_locale-IsSupported lower name [] = tt
find_locale-IsSupported lower name (s ∷ ss) =
    if-cases (IsSupported (s ∷ ss)) (same_codes (lower s) name) (λ _. rw (same_codes_refl s) refl)
      (λ _.
        later-IsSupported s ss (find_locale lower name ss) (find_locale-IsSupported lower name ss))

first_of-IsSupported : (supported : List (List ℕ)) → IsSupported supported (first_of supported)
first_of-IsSupported [] = tt
first_of-IsSupported (s ∷ ss) = rw (same_codes_refl s) refl

default_locale-IsSupported :
    (supported : List (List ℕ)) → IsSupported supported (default_locale supported)
default_locale-IsSupported supported =
    if-cases (IsSupported supported) (any (same_codes (codes "en")) supported) (λ h. h)
      (λ _. first_of-IsSupported supported)

or_else-IsSupported :
    (supported : List (List ℕ)) (a b : Option (List ℕ))
    → IsSupported supported a
    → IsSupported supported b
    → IsSupported supported (or_else a b)
or_else-IsSupported supported none b h k = k
or_else-IsSupported supported (some a) b h k = h

-- Whatever locales are requested, the one that is chosen is a supported one, if there is any.
resolve_locale-IsSupported :
    (lower : List ℕ → List ℕ) (requested supported : List (List ℕ))
    → IsSupported supported (resolve_locale lower requested supported)
unfolding resolve_locale
resolve_locale-IsSupported lower [] supported = default_locale-IsSupported supported
resolve_locale-IsSupported lower (r ∷ rs) supported =
    let rest = resolve_locale-IsSupported lower rs supported in
    if-cases (IsSupported supported) (not (is_full r)) (λ _. rest)
      (λ _.
        or_else-IsSupported supported (find_locale lower (lower (dashed r)) supported) _
          (find_locale-IsSupported lower (lower (dashed r)) supported)
          (or_else-IsSupported supported
            (find_locale lower (lower (language_of (dashed r))) supported) _
            (find_locale-IsSupported lower (lower (language_of (dashed r))) supported) rest))

or_else-some :
    (a b : Option (List ℕ)) → (l : List ℕ) × (b ≡ some l) → (l : List ℕ) × (or_else a b ≡ some l)
or_else-some none b found = found
or_else-some (some a) b found = (a, refl)

IsFound : Option (List ℕ) → Type 0
IsFound o = (l : List ℕ) × (o ≡ some l)

resolve_locale-IsFound :
    (lower : List ℕ → List ℕ) (requested : List (List ℕ)) (s : List ℕ) (ss : List (List ℕ))
    → IsFound (resolve_locale lower requested (s ∷ ss))
unfolding resolve_locale IsFound
resolve_locale-IsFound lower [] s ss =
    if-cases IsFound (any (same_codes (codes "en")) (s ∷ ss)) (λ _. (codes "en", refl))
      (λ _. (s, refl))
resolve_locale-IsFound lower (r ∷ rs) s ss =
    let rest = resolve_locale-IsFound lower rs s ss in
    if-cases IsFound (not (is_full r)) (λ _. rest)
      (λ _.
        or_else-some (find_locale lower (lower (dashed r)) (s ∷ ss)) _
          (or_else-some (find_locale lower (lower (language_of (dashed r))) (s ∷ ss)) _ rest))

find_locale-same :
    (lower : List ℕ → List ℕ) (name : List ℕ) (ss : List (List ℕ))
    → any (λ c. same_codes (lower c) name) ss ≡ true
    → (l : List ℕ) × (find_locale lower name ss ≡ some l) × (same_codes (lower l) name ≡ true)
find_locale-same lower name [] h = cc
find_locale-same lower name (s ∷ ss) h = elim (Bool-cases (same_codes (lower s) name)) [
  | inl same ↦ (s, rw same refl, same)
  | inr other ↦
      let (l, found, same) = find_locale-same lower name ss (ground (arith, h, other)) in
      (l, rw other found, same)
]

wanted :
    (lower : List ℕ → List ℕ) (r : List ℕ) (rs supported : List (List ℕ)) (l : List ℕ)
    → is_full r ≡ true
    → find_locale lower (lower (dashed r)) supported ≡ some l
    → resolve_locale lower (r ∷ rs) supported ≡ some l
unfolding resolve_locale
wanted lower r rs supported l full found = rw (full, found) refl

-- Where any locale is supported, one is chosen whatever locales are requested, and it is a supported
-- one; and if the first requested locale, not empty and with its first underscore as a dash, is
-- supported but for upper and lower case, a locale of that name is chosen.
pub resolve_locale_lem :
    (lower : List ℕ → List ℕ) (requested : List (List ℕ)) (r s : List ℕ) (ss : List (List ℕ))
    → ((l : List ℕ) × (resolve_locale lower requested (s ∷ ss) ≡ some l)
        × (any (same_codes l) (s ∷ ss) ≡ true))
      × (is_full r ≡ true
          → any (λ c. same_codes (lower c) (lower (dashed r))) (s ∷ ss) ≡ true
          → (l : List ℕ) × (resolve_locale lower (r ∷ requested) (s ∷ ss) ≡ some l)
            × (same_codes (lower l) (lower (dashed r)) ≡ true))
unfolding IsFound
resolve_locale_lem lower requested r s ss =
    let (chosen, found) = resolve_locale-IsFound lower requested s ss in
    (
      (
        chosen,
        found,
        subst (IsSupported (s ∷ ss)) found (resolve_locale-IsSupported lower requested (s ∷ ss)),
      ),
      λ full listed.
          let (l, there, same) = find_locale-same lower (lower (dashed r)) (s ∷ ss) listed in
          (l, wanted lower r requested (s ∷ ss) l full there, same),
    )
