-- ===== src/Texts.antt =====
-- The texts of web/i18n.js: placeholders in messages, the choice of a locale and the comparison of
-- catalogs. A message is the list of its code points. `toLowerCase` is an argument.
pub mod Whole
pub mod Catalogs
use pomodorough_server.Js.Text.{codes, compare_units, is_digit}
use pomodorough_server.Js.Value.{values}
use pomodorough_server.Prelude.{
  Bool, List, Option, [], any, false, if◌then◌else◌, leb, none, not, some, true, ℕ, ◌&&◌, ◌++◌,
  ◌==◌, ◌||◌, ◌∷◌,
}
use pomodorough_server.Prelude.Int.{leb_ℤ, pos}
use pomodorough_server.Sync.Account.{text}

-- a piece of a message: a character, or the name of a placeholder
pub data Part : Type 0 where
  plain_code : ℕ → Part
  placeholder : List ℕ → Part

abbrev pub is_letter : ℕ → Bool
is_letter c = leb b'A' c && leb c b'Z' || leb b'a' c && leb c b'z'

-- a character that continues a name; the first one is a letter
abbrev pub continues : List ℕ → ℕ → Bool
continues [] c = is_letter c
continues (p ∷ ps) c = is_letter c || is_digit c || c == b'_'

abbrev pub back : List ℕ → List ℕ → List ℕ
back [] cs = cs
back (p ∷ ps) cs = back ps (p ∷ cs)

abbrev pub plain_codes : List ℕ → List Part → List Part
plain_codes [] rest = rest
plain_codes (c ∷ cs) rest = plain_code c ∷ plain_codes cs rest

abbrev pub is_full {ℓ} : {A : Type ℓ} → List A → Bool
is_full [] = false
is_full (x ∷ xs) = true

-- The matches of `/\{([A-Za-z][A-Za-z0-9_]*)\}/g` and what is between them, with the name that was
-- begun, backwards.
unfoldable pub parts : Option (List ℕ) → List ℕ → List Part
parts none [] = []
parts none (c ∷ cs) = elim (c == b'{') [
  | true ↦ parts (some []) cs
  | false ↦ plain_code c ∷ parts none cs
]
parts (some name) [] = plain_code b'{' ∷ plain_codes (back name []) []
parts (some name) (c ∷ cs) = elim (c == b'}' && is_full name) [
  | true ↦ placeholder (back name []) ∷ parts none cs
  | false ↦ elim (continues name c) [
    | true ↦ parts (some (c ∷ name)) cs
    | false ↦ elim (c == b'{') [
      | true ↦ plain_code b'{' ∷ plain_codes (back name []) (parts (some []) cs)
      | false ↦ plain_code b'{' ∷ plain_codes (back name []) (plain_code c ∷ parts none cs)
    ]
  ]
]

-- the text of a value, or else the placeholder itself
abbrev pub shown : Option (List ℕ) → List ℕ → List ℕ
shown (some text) name = text
shown none name = b'{' ∷ name ++ b'}' ∷ []

-- `format(message, values)` with the texts of the values' own properties
abbrev pub filled : (List ℕ → Option (List ℕ)) → List Part → List ℕ
filled values [] = []
filled values (plain_code c ∷ ps) = c ∷ filled values ps
filled values (placeholder name ∷ ps) = shown (values name) name ++ filled values ps

unfoldable pub format : List ℕ → (List ℕ → Option (List ℕ)) → List ℕ
unfolding parts
format message values = filled values (parts none message)

abbrev names_of : List Part → List (List ℕ)
names_of [] = []
names_of (plain_code c ∷ ps) = names_of ps
names_of (placeholder name ∷ ps) = name ∷ names_of ps

abbrev insert_name : List ℕ → List (List ℕ) → List (List ℕ)
insert_name x [] = x ∷ []
insert_name x (y ∷ ys) =
    let rest = insert_name x ys in
    if leb_ℤ (compare_units x y) (pos 0) then x ∷ y ∷ ys else y ∷ rest

abbrev sort_names : List (List ℕ) → List (List ℕ)
sort_names [] = []
sort_names (x ∷ xs) = insert_name x (sort_names xs)

-- `placeholders(message)`
unfoldable pub placeholders : List ℕ → List (List ℕ)
unfolding parts compare_units
placeholders message = sort_names (names_of (parts none message))

abbrev pub same_codes : List ℕ → List ℕ → Bool
same_codes [] [] = true
same_codes (a ∷ xs) (b ∷ ys) = a == b && same_codes xs ys
same_codes xs ys = false

-- `locale.replace("_", "-")`: the first one
abbrev pub dashed : List ℕ → List ℕ
dashed [] = []
dashed (c ∷ cs) = let rest = dashed cs in if c == b'_' then b'-' ∷ cs else c ∷ rest

-- `locale.split("-")[0]`
abbrev pub language_of : List ℕ → List ℕ
language_of [] = []
language_of (c ∷ cs) = let rest = language_of cs in if c == b'-' then [] else c ∷ rest

-- `supported.find((candidate) => candidate.toLowerCase() === name)`
abbrev pub find_locale : (List ℕ → List ℕ) → List ℕ → List (List ℕ) → Option (List ℕ)
find_locale lower name [] = none
find_locale lower name (s ∷ ss) =
    let rest = find_locale lower name ss in if same_codes (lower s) name then some s else rest

abbrev pub or_else {ℓ} : {A : Type ℓ} → Option A → Option A → Option A
or_else (some a) b = some a
or_else none b = b

abbrev pub first_of {ℓ} : {A : Type ℓ} → List A → Option A
first_of [] = none
first_of (x ∷ xs) = some x

-- `supported.includes("en") ? "en" : supported[0]`
abbrev pub default_locale : List (List ℕ) → Option (List ℕ)
default_locale supported =
    if any (same_codes (codes "en")) supported then some (codes "en") else first_of supported

-- `resolveLocale(requested, supported)`: of what is requested, the empty texts are left out
unfoldable pub resolve_locale : (List ℕ → List ℕ) → List (List ℕ) → List (List ℕ) → Option (List ℕ)
resolve_locale lower [] supported = default_locale supported
resolve_locale lower (r ∷ rs) supported =
    let rest = resolve_locale lower rs supported in
    let locale = dashed r in
    if not (is_full r)
    then rest
    else or_else (find_locale lower (lower locale) supported)
        (or_else (find_locale lower (lower (language_of locale)) supported) rest)
