-- ===== src/Monitor/Privacy.antt =====
-- What a scrubbed event can hold of the event that it was made from.
use mathlib.Core.Path.{refl, ◌≡◌}
use pomodorough_server.Js.Result.{Result, bind-eq-ok, dot, err, ok, ok-injective, traverse}
use pomodorough_server.Js.Value.{
  Elems, Props, Value, arr, bool, cons, end, float, get, int, is_nullish, items, nan, nil, null,
  obj, of_list, prop, str, undefined,
}
use pomodorough_server.Monitor.{
  categories, caught, clean_breadcrumb, clean_event, clean_props, event_id_of, first_exceptions,
  is_event_id, known_or, levels, safe_error_name, safe_error_names, safe_exception, safe_operations,
  scrub_breadcrumb, scrub_breadcrumbs, scrub_final_event, take_last, timestamp_of,
}
use pomodorough_server.Prelude.{
  All, Bool, Bool-cases, List, String, [], false, if◌then◌else◌, inl, inr, ltb, member, none, some,
  str_eq, subst, true, ◌∷◌,
}

abbrev mutual
  -- Every text inside of a value, its property names aside, is as asked.
  pub TextsAre : (String → Type 0) → Value → Type 0
  TextsAre P (str s) = P s
  TextsAre P (arr vs) = TextsAreElems P vs
  TextsAre P (obj ps) = TextsAreProps P ps
  TextsAre P undefined = Unit
  TextsAre P null = Unit
  TextsAre P (bool b) = Unit
  TextsAre P (int i) = Unit
  TextsAre P (float n) = Unit
  TextsAre P nan = Unit

  pub TextsAreElems : (String → Type 0) → Elems → Type 0
  TextsAreElems P nil = Unit
  TextsAreElems P (cons v vs) = TextsAre P v × TextsAreElems P vs

  pub TextsAreProps : (String → Type 0) → Props → Type 0
  TextsAreProps P end = Unit
  TextsAreProps P (prop k v ps) = TextsAre P v × TextsAreProps P ps

abbrev fixed_texts : List String
fixed_texts = "javascript" ∷ "production" ∷ "browser.automatic" ∷ "diagnostic" ∷ "[redacted]" ∷ []

-- The texts that may leave the browser: words that the code holds, the release of the program, and
-- a hexadecimal identifier.
pub data IsPublic (release : String) : String → Type 0 where
  an_error : {s : String} → member s safe_error_names ≡ true → IsPublic release s
  an_operation : {s : String} → member s safe_operations ≡ true → IsPublic release s
  a_level : {s : String} → member s levels ≡ true → IsPublic release s
  a_category : {s : String} → member s categories ≡ true → IsPublic release s
  a_fixed : {s : String} → member s fixed_texts ≡ true → IsPublic release s
  the_release : IsPublic release release
  an_identifier : {s : String} → is_event_id s ≡ true → IsPublic release s

known_or-IsPublic :
    (P : String → Type 0) (texts : List String) (otherwise : String) (v : Value)
    → P otherwise
    → ((s : String) → member s texts ≡ true → P s)
    → P (known_or texts otherwise v)
unfolding known_or
known_or-IsPublic P texts otherwise (str s) o h = elim (Bool-cases (member s texts)) [
  | inl known ↦ rw known (h s known)
  | inr other ↦ rw other o
]
known_or-IsPublic P texts otherwise undefined o h = o
known_or-IsPublic P texts otherwise null o h = o
known_or-IsPublic P texts otherwise (bool b) o h = o
known_or-IsPublic P texts otherwise (int i) o h = o
known_or-IsPublic P texts otherwise (float n) o h = o
known_or-IsPublic P texts otherwise nan o h = o
known_or-IsPublic P texts otherwise (arr vs) o h = o
known_or-IsPublic P texts otherwise (obj ps) o h = o

TextsAreElems-of_list :
    (P : String → Type 0) (vs : List Value) → All (TextsAre P) vs → TextsAreElems P (of_list vs)
TextsAreElems-of_list P [] h = tt
TextsAreElems-of_list P (v ∷ vs) (h, hs) = (h, TextsAreElems-of_list P vs hs)

caught-eq-some {ℓ} : {A : Type ℓ} {a : A} (r : Result A) → caught r ≡ some a → r ≡ ok a
caught-eq-some (ok b) h = cc
caught-eq-some (err e) h = cc

traverse-All {ℓ κ ι} :
    {A : Type ℓ} {B : Type κ} {P : B → Type ι} (f : A → Result B) (xs : List A)
    → ((x : A) (y : B) → f x ≡ ok y → P y)
    → {ys : List B} → traverse f xs ≡ ok ys
    → All P ys
traverse-All {P = P} f [] h e = subst (All P) (ok-injective e) tt
traverse-All {P = P} f (x ∷ xs) h e =
    let (y, e1, e2) = bind-eq-ok (f x) _ e in
    let (ys, e3, e4) = bind-eq-ok (traverse f xs) _ e2 in
    subst (All P) (ok-injective e4) (h x y e1, traverse-All f xs h e3)

module _ (release : String) where
  operation_of-IsPublic :
      (v : Value) → IsPublic release (known_or safe_operations "browser.automatic" v)
  operation_of-IsPublic v =
      known_or-IsPublic (IsPublic release) safe_operations "browser.automatic" v (a_fixed refl)
        (λ s h. an_operation h)

  clean_breadcrumb-TextsAre :
      (category message : Value) → TextsAre (IsPublic release) (clean_breadcrumb category message)
  unfolding clean_breadcrumb
  clean_breadcrumb-TextsAre category message =
      let kept = known_or categories "diagnostic" category in
      let shown = known_or safe_operations "[redacted]" message in
      (
        known_or-IsPublic (IsPublic release) categories "diagnostic" category (a_fixed refl)
            (λ s h. a_category h),
        (
          elim (Bool-cases (str_eq kept "error.repeat")) [
            | inl repeat ↦ rw repeat (
                known_or-IsPublic (IsPublic release) safe_operations "[redacted]" message
                  (a_fixed refl) (λ s h. an_operation h))
            | inr other ↦ rw other (a_fixed refl)
          ],
          tt,
        ),
      )

  crumb_or_none :
      (missing : Bool) (clean : Value) (rest : List Value)
      → TextsAre (IsPublic release) clean
      → All (TextsAre (IsPublic release)) rest
      → All
          (TextsAre (IsPublic release))
          (elim (if missing then none else some clean) [ some kept ↦ kept ∷ rest | none ↦ rest ])
  crumb_or_none true clean rest h hs = hs
  crumb_or_none false clean rest h hs = (h, hs)

  scrub_breadcrumbs-TextsAre :
      (cs : List Value) → All (TextsAre (IsPublic release)) (scrub_breadcrumbs cs)
  unfolding scrub_breadcrumbs scrub_breadcrumb
  scrub_breadcrumbs-TextsAre [] = tt
  scrub_breadcrumbs-TextsAre (c ∷ cs) =
      crumb_or_none (is_nullish c) (clean_breadcrumb (get "category" c) (get "message" c))
        (scrub_breadcrumbs cs) (clean_breadcrumb-TextsAre (get "category" c) (get "message" c))
        (scrub_breadcrumbs-TextsAre cs)

  safe_error_name-IsPublic : (v : Value) → IsPublic release (safe_error_name v)
  unfolding safe_error_name
  safe_error_name-IsPublic v =
      known_or-IsPublic (IsPublic release) safe_error_names "Error" v (an_error refl)
        (λ s h. an_error h)

  safe_exception-TextsAre :
      (operation : String)
      → IsPublic release operation
      → (v clean : Value) → safe_exception operation v ≡ ok clean
      → TextsAre (IsPublic release) clean
  unfolding safe_exception
  safe_exception-TextsAre operation public v clean h =
      let (type, e, clean_eq) = bind-eq-ok (dot "type" v) _ h in
      subst (TextsAre (IsPublic release)) (ok-injective clean_eq)
        (safe_error_name-IsPublic type, (public, tt))

  event_id_of-TextsAre :
      (v : Value) (rest : Props)
      → TextsAreProps (IsPublic release) rest
      → TextsAreProps (IsPublic release) (event_id_of v rest)
  event_id_of-TextsAre (str s) rest h = elim (Bool-cases (is_event_id s)) [
    | inl matches ↦ rw matches (an_identifier matches, h)
    | inr other ↦ rw other h
  ]
  event_id_of-TextsAre undefined rest h = h
  event_id_of-TextsAre null rest h = h
  event_id_of-TextsAre (bool b) rest h = h
  event_id_of-TextsAre (int i) rest h = h
  event_id_of-TextsAre (float n) rest h = h
  event_id_of-TextsAre nan rest h = h
  event_id_of-TextsAre (arr vs) rest h = h
  event_id_of-TextsAre (obj ps) rest h = h

  timestamp_of-TextsAre : (v : Value) → TextsAreProps (IsPublic release) (timestamp_of v)
  timestamp_of-TextsAre (int i) = (tt, tt)
  timestamp_of-TextsAre (float n) = elim (Bool-cases (ltb 1 n)) [
    | inl finite ↦ rw finite (tt, tt)
    | inr infinite ↦ rw infinite tt
  ]
  timestamp_of-TextsAre undefined = tt
  timestamp_of-TextsAre null = tt
  timestamp_of-TextsAre (bool b) = tt
  timestamp_of-TextsAre nan = tt
  timestamp_of-TextsAre (str s) = tt
  timestamp_of-TextsAre (arr vs) = tt
  timestamp_of-TextsAre (obj ps) = tt

  clean_props-TextsAre :
      (event : Value) (operation : String) (exceptions : List Value)
      → IsPublic release operation
      → All (TextsAre (IsPublic release)) exceptions
      → TextsAreProps (IsPublic release) (clean_props event release operation exceptions)
  clean_props-TextsAre event operation exceptions public found =
      let level =
        known_or-IsPublic (IsPublic release) levels "error" (get "level" event) (a_level refl)
          (λ s m. a_level m) in
      let values = TextsAreElems-of_list (IsPublic release) exceptions found in
      let crumbs =
        TextsAreElems-of_list (IsPublic release) _
          (scrub_breadcrumbs-TextsAre (take_last 100 (items (get "breadcrumbs" event)))) in
      let rest =
        event_id_of-TextsAre (get "event_id" event) _
          (timestamp_of-TextsAre (get "timestamp" event)) in
      (
        a_fixed refl,
        (a_fixed refl, (the_release, (level, ((public, tt), ((values, tt), (crumbs, rest)))))),
      )

  clean_event-TextsAre :
      (event clean : Value)
      → clean_event event release ≡ ok clean
      → TextsAre (IsPublic release) clean
  unfolding clean_event
  clean_event-TextsAre event clean h =
      let (tags, _, with_tags) = bind-eq-ok (dot "tags" event) _ h in
      let operation = known_or safe_operations "browser.automatic" (get "error.operation" tags) in
      let listed = first_exceptions (get "values" (get "exception" event)) in
      let (exceptions, found, clean_eq) =
        bind-eq-ok (traverse (safe_exception operation) listed) _ with_tags in
      let public = operation_of-IsPublic (get "error.operation" tags) in
      let kept : TextsAre (IsPublic release)
          (obj (clean_props event release operation exceptions)) =
        clean_props-TextsAre event operation exceptions public (
          traverse-All (safe_exception operation) listed (safe_exception-TextsAre operation public)
            found) in
      subst (TextsAre (IsPublic release)) (ok-injective clean_eq) kept

-- An event that is sent holds no text but the words of the code, the release and a hexadecimal
-- identifier, whatever the monitoring library put into it.
pub scrub_final_event-TextsAre :
    (event : Value) (release : String) (clean : Value)
    → scrub_final_event event release ≡ some clean
    → TextsAre (IsPublic release) clean
unfolding scrub_final_event
scrub_final_event-TextsAre event release clean h =
    clean_event-TextsAre release event clean (caught-eq-some (clean_event event release) h)
