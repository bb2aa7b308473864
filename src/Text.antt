-- ===== src/Text.antt =====
-- Texts as lists of code points, and the operations of Go's `strings` and `regexp` packages that
-- api/v1/postgres_types.go applies to names and label values.
pub mod Classes
pub mod Trimming
pub mod Decimal
use Prim.Native.Char.{code}
use postgreslet.Prelude.{
  ℕ, ◌+◌, String, Bool, true, false, ◌||◌, ◌&&◌, List, [], ◌∷◌, map, leb, ◌==◌, if◌then◌else◌,
}

abbrev pub Text : Type 0
Text = List ℕ

-- The code points of a literal.
abbrev pub codes : String → Text
codes String.[] = []
codes (String.◌∷◌ c s) = code c ∷ codes s

abbrev pub is_upper : ℕ → Bool
is_upper c = leb b'A' c && leb c b'Z'

abbrev pub is_lower : ℕ → Bool
is_lower c = leb b'a' c && leb c b'z'

abbrev pub is_digit : ℕ → Bool
is_digit c = leb b'0' c && leb c b'9'

-- `[a-zA-Z0-9]`
pub is_alnum : ℕ → Bool
is_alnum c = is_lower c || is_upper c || is_digit c

-- `[a-zA-Z0-9._-]`
pub is_label_char : ℕ → Bool
unfolding is_alnum
is_label_char c = is_alnum c || c == b'.' || c == b'_' || c == b'-'

-- `alphaNumericRegExp.ReplaceAllString(s, "")`: each run of other characters is taken out.
unfoldable pub keep_alnum : Text → Text
unfolding is_alnum
keep_alnum [] = []
keep_alnum (c ∷ s) = let rest = keep_alnum s in if is_alnum c then c ∷ rest else rest

-- `strings.ToLower`, on ASCII.
pub lower_char : ℕ → ℕ
lower_char c = if is_upper c then c + 32 else c

unfoldable pub to_lower : Text → Text
unfolding lower_char
to_lower = map lower_char

-- `invalidLabelValueChars.ReplaceAllString(v, "_")`
unfoldable pub replace_invalid : Text → Text
unfolding is_label_char
replace_invalid = map (λ c. if is_label_char c then c else b'_')

-- `multipleUnderscores.ReplaceAllString(v, "_")`; the flag says that the text stands behind a `_`.
unfoldable pub collapse_run : Bool → Text → Text
collapse_run behind [] = []
collapse_run behind (c ∷ s) =
    let rest = collapse_run (c == b'_') s in if behind && c == b'_' then rest else c ∷ rest

abbrev pub collapse_underscores : Text → Text
collapse_underscores v = collapse_run false v

-- The cutset `"._-"`.
abbrev pub in_cutset : ℕ → Bool
in_cutset c = c == b'.' || c == b'_' || c == b'-'

unfoldable pub trim_left : Text → Text
trim_left [] = []
trim_left (c ∷ s) = let rest = trim_left s in if in_cutset c then rest else c ∷ s

-- `c` before what is left of the text behind it.
abbrev cut_before : ℕ → Text → Text
cut_before c [] = if in_cutset c then [] else c ∷ []
cut_before c (d ∷ s) = c ∷ d ∷ s

-- `strings.TrimRight(v, "._-")`
unfoldable pub trim_right : Text → Text
trim_right [] = []
trim_right (c ∷ s) = cut_before c (trim_right s)

-- `strings.Trim(v, "._-")`
abbrev pub trim : Text → Text
trim v = trim_right (trim_left v)
