-- ===== src/Tests/Messages.antt =====
-- Messages, locales and catalogs at concrete inputs.
use mathlib.Core.Path.{refl, ◌≡◌}
use pomodorough_server.Js.Text.{codes, sort_texts}
use pomodorough_server.Js.Value.{Value, end, obj, prop, str}
use pomodorough_server.Prelude.{List, String, [], any, true, ℕ, some, ◌∷◌}
use pomodorough_server.Texts.{dashed, format, is_full, resolve_locale, same_codes}
use pomodorough_server.Texts.Whole.{resolve_locale_lem}
use pomodorough_server.Texts.Catalogs.{placeholder_mismatch, validate_catalogs}

filled_in : format (codes "a {name} {b") (λ n. some (codes "x")) ≡ codes "a x {b"
unfolding format
filled_in = refl

chosen :
    resolve_locale (λ cs. cs) (codes "en_US" ∷ []) (codes "ar-XB" ∷ codes "en" ∷ [])
    ≡ some (codes "en")
unfolding resolve_locale
chosen = refl

resolve_locale_lem_example :
    ((l : List ℕ) × (resolve_locale (λ cs. cs) [] (codes "ar-XB" ∷ codes "en" ∷ []) ≡ some l)
      × (any (same_codes l) (codes "ar-XB" ∷ codes "en" ∷ []) ≡ true))
    × (is_full (codes "ar_XB") ≡ true
        → any (λ c. same_codes c (dashed (codes "ar_XB"))) (codes "ar-XB" ∷ codes "en" ∷ []) ≡ true
        → (l : List ℕ) × (resolve_locale
              (λ cs. cs)
              (codes "ar_XB" ∷ [])
              (codes "ar-XB" ∷ codes "en" ∷ [])
            ≡ some l)
          × (same_codes l (dashed (codes "ar_XB")) ≡ true))
resolve_locale_lem_example =
    resolve_locale_lem (λ cs. cs) [] (codes "ar_XB") (codes "ar-XB") (codes "en" ∷ [])

abbrev catalog : String → String → Value
catalog locale message = obj (
    prop "$meta" (obj (prop "locale" (str locale) (prop "dir" (str "ltr") end)))
      (prop "hello" (str message) end))

compared :
    validate_catalogs
      (prop "en" (catalog "en" "Hi {name}") (prop "de" (catalog "de" "Hallo {nam}") end))
      "en"
    ≡ placeholder_mismatch "de" "hello" "value" (codes "name" ∷ []) ∷ []
unfolding validate_catalogs sort_texts
compared = refl
