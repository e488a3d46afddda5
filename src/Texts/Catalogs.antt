-- ===== src/Texts/Catalogs.antt =====
-- The comparison of the catalogs of messages in web/i18n.js with that of the base locale. The text of
-- an error is a constructor with what the text names.
use mathlib.Core.Path.{refl, ◌≡◌}
use pomodorough_server.Js.Text.{codes, sort_texts}
use pomodorough_server.Js.Value.{
  Props, Value, end, field, get, has, is_object, is_string, is_text, keys, obj, prop, str, truthy,
}
use pomodorough_server.Prelude.{
  Bool, Bool-cases, List, String, [], eq_iff, false, if◌then◌else◌, inl, inr, keep, member, not,
  not-eq-false, str_eq, true, ℕ, ◌&&◌, ◌++◌, ◌||◌, ◌∷◌,
}
use pomodorough_server.Texts.{placeholders, same_codes}

pub data CatalogError : Type 0 where
  missing_base : String → CatalogError
  invalid_meta : String → CatalogError
  missing_key : String → String → CatalogError
  type_differs : String → String → CatalogError
  missing_branch : String → String → String → CatalogError
  placeholder_mismatch : String → String → String → List (List ℕ) → CatalogError
  unexpected_branch : String → String → String → CatalogError
  unexpected_key : String → String → CatalogError

-- `messageBranches(message)`
abbrev message_branches : Value → Props
message_branches (str s) = prop "value" (str s) end
message_branches (obj ps) = ps
message_branches v = end

-- the code points of a text
abbrev text_codes : Value → List ℕ
text_codes (str s) = codes s
text_codes v = []

abbrev same_names : List (List ℕ) → List (List ℕ) → Bool
same_names [] [] = true
same_names (a ∷ xs) (b ∷ ys) = same_codes a b && same_names xs ys
same_names xs ys = false

abbrev flat_map {ℓ κ} : {A : Type ℓ} {B : Type κ} → (A → List B) → List A → List B
flat_map f [] = []
flat_map f (x ∷ xs) = f x ++ flat_map f xs

-- Object.keys without the entry that describes the catalog, sorted
abbrev message_keys : Value → List String
message_keys (obj ps) = sort_texts (keep (λ k. not (str_eq k "$meta")) (keys ps))
message_keys v = []

unfoldable branch_errors : String → String → Props → Props → String → List CatalogError
unfolding placeholders
branch_errors locale key base translated branch =
    let expected = placeholders (text_codes (field branch base)) in
    if not (is_string (field branch translated))
    then missing_branch locale key branch ∷ []
    else if not (same_names expected (placeholders (text_codes (field branch translated))))
    then placeholder_mismatch locale key branch expected ∷ []
    else []

abbrev unexpected_branches : String → String → Props → Props → List CatalogError
unexpected_branches locale key base translated =
    flat_map (λ branch. if has branch base then [] else unexpected_branch locale key branch ∷ [])
      (keys translated)

unfoldable message_errors : String → String → Value → Value → List CatalogError
unfolding branch_errors
message_errors locale key base translated =
    if is_string base && not (is_string translated) || not (is_string base) && is_string translated
    then type_differs locale key ∷ []
    else flat_map (branch_errors locale key (message_branches base) (message_branches translated))
        (keys (message_branches base))
      ++ unexpected_branches locale key (message_branches base) (message_branches translated)

unfoldable key_errors : Value → String → Value → String → List CatalogError
unfolding message_errors
key_errors base locale catalog key =
    if not (member key (message_keys catalog))
    then missing_key locale key ∷ []
    else message_errors locale key (get key base) (get key catalog)

unfoldable catalog_errors : Value → String → Value → List CatalogError
unfolding key_errors
catalog_errors base locale catalog =
    let meta = get "$meta" catalog in
    if not (truthy meta)
      || not (is_text locale (get "locale" meta))
      || not (is_text "ltr" (get "dir" meta)) && not (is_text "rtl" (get "dir" meta))
    then invalid_meta locale ∷ []
    else flat_map (key_errors base locale catalog) (message_keys base)
      ++ flat_map
          (λ key. if member key (message_keys base) then [] else unexpected_key locale key ∷ [])
          (message_keys catalog)

abbrev all_errors : Value → Props → List CatalogError
all_errors base end = []
all_errors base (prop locale catalog rest) =
    catalog_errors base locale catalog ++ all_errors base rest

-- `validateCatalogs(catalogs, baseLocale)`
unfoldable pub validate_catalogs : Props → String → List CatalogError
unfolding catalog_errors
validate_catalogs catalogs base_locale =
    let base = field base_locale catalogs in
    if not (is_object base) then missing_base base_locale ∷ [] else all_errors base catalogs

if_nil :
    {A : Type 0} (test : Bool) (x : A) (ys : List A)
    → (if test then x ∷ [] else ys) ≡ []
    → (test ≡ false) × (ys ≡ [])
if_nil true x ys h = cc
if_nil false x ys h = (refl, h)

append_nil : {A : Type 0} (xs ys : List A) → xs ++ ys ≡ [] → (xs ≡ []) × (ys ≡ [])
append_nil [] ys h = (refl, h)
append_nil (x ∷ xs) ys h = cc

flat_map_nil :
    {A : Type 0} (f : String → List A) (k : String) (ks : List String)
    → flat_map f ks ≡ []
    → member k ks ≡ true
    → f k ≡ []
flat_map_nil f k [] h m = cc
flat_map_nil f k (j ∷ ks) h m =
    let (first, rest) = append_nil (f j) (flat_map f ks) h in
    elim (Bool-cases (str_eq k j)) [
      | inl same ↦ rw ((eq_iff k j).0 same) first
      | inr other ↦ flat_map_nil f k ks rest (rw other at m)
    ]

-- A catalog without errors has every message of the base, with the same placeholders.
catalog_errors-nil :
    (base : Value) (locale : String) (catalog : Value) (key : String)
    → catalog_errors base locale catalog ≡ []
    → member key (message_keys base) ≡ true
    → (member key (message_keys catalog) ≡ true)
      × (message_errors locale key (get key base) (get key catalog) ≡ [])
unfolding catalog_errors key_errors
catalog_errors-nil base locale catalog key h listed =
    let (_, errors) = if_nil _ (invalid_meta locale) _ h in
    let (missing, _) =
      append_nil (flat_map (key_errors base locale catalog) (message_keys base)) _ errors in
    let none_here =
      flat_map_nil (key_errors base locale catalog) key (message_keys base) missing listed in
    let (there, same) =
      if_nil (not (member key (message_keys catalog))) (missing_key locale key) _ none_here in
    (not-eq-false (member key (message_keys catalog)) there, same)
