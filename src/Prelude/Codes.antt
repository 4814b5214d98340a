-- ===== src/Prelude/Codes.antt =====
-- Texts as lists of code points, for the code that looks inside them: case, words, search, escapes.
use Prim.Native.Char.{code}
use mytrackr_backend.Prelude.{
  ℕ, ◌+◌, Bool, true, false, ◌&&◌, ◌||◌, Option, none, some, String, List, [], ◌∷◌, ◌++◌, ◌==◌, leb,
  if◌then◌else◌,
}

abbrev pub Codes : Type 0
Codes = List ℕ

-- The code points of a text. `String` has its own `[]` and `∷`.
abbrev pub codes : String → Codes
codes String.[] = []
codes (String.◌∷◌ c s) = code c ∷ codes s

abbrev pub codes_or_empty : Option String → Codes
codes_or_empty none = []
codes_or_empty (some s) = codes s

abbrev pub is_upper : ℕ → Bool
is_upper c = leb 65 c && leb c 90

-- A lower-case ASCII letter or a digit
abbrev pub is_word : ℕ → Bool
is_word c = (leb 97 c && leb c 122) || (leb 48 c && leb c 57)

-- What a character gives to toLowerCase(), as far as ASCII: two others, the Kelvin sign and the
-- dotted capital I, become ASCII letters; no other character does.
unfoldable pub lower_one : ℕ → Codes
lower_one c =
    if is_upper c
    then (c + 32) ∷ []
    else if c == 8490
    then 107 ∷ []
    else if c == 304
    then 105 ∷ 775 ∷ []
    else c ∷ []

unfoldable pub to_lower_case : Codes → Codes
to_lower_case [] = []
to_lower_case (c ∷ cs) = lower_one c ++ to_lower_case cs

-- One text starts another.
unfoldable pub starts_with : (prefix text : Codes) → Bool
starts_with [] text = true
starts_with (p ∷ ps) [] = false
starts_with (p ∷ ps) (c ∷ cs) = let rest = starts_with ps cs in p == c && rest

-- text.includes(part)
unfoldable pub includes : (text part : Codes) → Bool
includes [] part = starts_with part []
includes (c ∷ cs) part = let later = includes cs part in starts_with part (c ∷ cs) || later

-- /\s/
unfoldable pub is_space : ℕ → Bool
is_space c =
    (leb 9 c && leb c 13)
    || (c == 32
        || (c == 160
            || (c == 5760
                || ((leb 8192 c && leb c 8202)
                    || (c == 8232
                        || (c == 8233
                            || (c == 8239 || (c == 8287 || (c == 12288 || c == 65279)))))))))

unfoldable pub codes_eq : Codes → Codes → Bool
codes_eq [] [] = true
codes_eq [] (d ∷ ds) = false
codes_eq (c ∷ cs) [] = false
codes_eq (c ∷ cs) (d ∷ ds) = let rest = codes_eq cs ds in c == d && rest
