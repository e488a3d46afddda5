-- ===== src/Js/Text.antt =====
-- Texts as lists of character codes, and the prefixes of texts.
use pomodorough_server.Prelude.{
  Bool, List, Option, String, [], if◌then◌else◌, join, leb, ltb, none, some, ℕ, ◌%◌, ◌&&◌, ◌+◌, ◌-◌,
  ◌/◌, ◌==◌, ◌||◌, ◌∷◌,
}
use pomodorough_server.Prelude.Int.{leb_ℤ, negsuc, pos, ℤ}
use Prim.Native.Char.{code}

-- The code points of a text.
abbrev pub codes : String → List ℕ
codes String.[] = []
codes (String.◌∷◌ c s) = code c ∷ codes s

-- what follows the prefix, if `s.startsWith(prefix)`
abbrev pub after : String → String → Option String
after String.[] s = some s
after (String.◌∷◌ c p) String.[] = none
after (String.◌∷◌ c p) (String.◌∷◌ d s) = if code c == code d then after p s else none

-- `/^[a-f0-9]$/` of one character
abbrev pub is_lower_hex : ℕ → Bool
is_lower_hex c = leb b'0' c && leb c b'9' || leb b'a' c && leb c b'f'

-- `/^[0-9]$/` of one character
abbrev pub is_digit : ℕ → Bool
is_digit c = leb b'0' c && leb c b'9'

-- the code units of a text in UTF-16, by which the language compares texts
abbrev pub utf16 : List ℕ → List ℕ
utf16 [] = []
utf16 (c ∷ cs) =
    let rest = utf16 cs in
    if ltb c 65536
    then c ∷ rest
    else ((c - 65536) / 1024 + 55296) ∷ ((c - 65536) % 1024 + 56320) ∷ rest

-- -1, 0 or 1, as `left < right ? -1 : left > right ? 1 : 0` of two lists of code units
unfoldable pub compare_units : List ℕ → List ℕ → ℤ
compare_units [] [] = pos 0
compare_units [] (b ∷ bs) = negsuc 0
compare_units (a ∷ cs) [] = pos 1
compare_units (a ∷ cs) (b ∷ bs) =
    let rest = compare_units cs bs in if ltb a b then negsuc 0 else if ltb b a then pos 1 else rest

-- `xs.sort()`: by code units, equal texts in their order
insert_text : String → List String → List String
insert_text x [] = x ∷ []
insert_text x (y ∷ ys) =
    if leb_ℤ (compare_units (utf16 (codes x)) (utf16 (codes y))) (pos 0)
    then x ∷ y ∷ ys
    else y ∷ insert_text x ys

unfoldable pub sort_texts : List String → List String
unfolding insert_text compare_units
sort_texts [] = []
sort_texts (x ∷ xs) = insert_text x (sort_texts xs)

-- `xs.join(separator)`
abbrev pub join_with : String → List String → String
join_with separator [] = ""
join_with separator (x ∷ []) = x
join_with separator (x ∷ y ∷ ys) = join (x ∷ separator ∷ join_with separator (y ∷ ys) ∷ [])
