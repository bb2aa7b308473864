-- ===== src/Text/Classes.antt =====
-- Which characters a text is made of, and that the operations on texts keep to them.
use postgreslet.Prelude.{ℕ, ◌≡◌, Bool, true, ◌||◌, [], ◌∷◌, arith, ◌==◌, All, if◌then◌else◌}
use postgreslet.Text.{
  Text, is_lower, is_digit, is_alnum, is_label_char, keep_alnum, lower_char, to_lower,
  replace_invalid, collapse_run,
}

abbrev pub IsAlnum : ℕ → Type 0
IsAlnum c = is_alnum c ≡ true

abbrev pub IsLabelChar : ℕ → Type 0
IsLabelChar c = is_label_char c ≡ true

-- `[a-z0-9]`
abbrev pub IsLowerAlnum : ℕ → Type 0
IsLowerAlnum c = (is_lower c || is_digit c) ≡ true

pub keep_alnum-All : (s : Text) → All IsAlnum (keep_alnum s)
unfolding keep_alnum
keep_alnum-All [] = tt
keep_alnum-All (c ∷ s) = ground (arith, keep_alnum-All s)

pub lower_char-IsLowerAlnum : (c : ℕ) → IsAlnum c → IsLowerAlnum (lower_char c)
unfolding is_alnum lower_char
lower_char-IsLowerAlnum c h = ground arith

pub to_lower-All : (s : Text) → All IsAlnum s → All IsLowerAlnum (to_lower s)
unfolding to_lower
to_lower-All [] h = tt
to_lower-All (c ∷ s) (p, ps) = (lower_char-IsLowerAlnum c p, to_lower-All s ps)

-- Where the characters satisfy a predicate, so do those that are kept.
pub keep_alnum-All_of {ℓ} :
    (P : ℕ → Type ℓ) (Q : ℕ → Type 0) (s : Text)
    → ((c : ℕ) → P c → IsAlnum c → Q c)
    → All P s
    → All Q (keep_alnum s)
unfolding keep_alnum
keep_alnum-All_of P Q [] f h = tt
keep_alnum-All_of P Q (c ∷ s) f (p, ps) = ground (arith, f c, keep_alnum-All_of P Q s f ps)

replace_char-IsLabelChar : (c : ℕ) → IsLabelChar (if is_label_char c then c else b'_')
unfolding is_label_char
replace_char-IsLabelChar c = ground arith

pub replace_invalid-All : (v : Text) → All IsLabelChar (replace_invalid v)
unfolding replace_invalid
replace_invalid-All [] = tt
replace_invalid-All (c ∷ v) = (replace_char-IsLabelChar c, replace_invalid-All v)

pub collapse_run-All :
    (b : Bool) (v : Text) → All IsLabelChar v → All IsLabelChar (collapse_run b v)
unfolding collapse_run
collapse_run-All b [] h = tt
collapse_run-All b (c ∷ v) (p, ps) = ground (arith, collapse_run-All (c == b'_') v ps)

-- `[-a-z0-9.]`, the characters of the name of a resource.
abbrev pub IsNameChar : ℕ → Type 0
IsNameChar c = (is_lower c || is_digit c || c == b'-' || c == b'.') ≡ true

pub name_char-IsLowerAlnum : (c : ℕ) → IsNameChar c → IsAlnum c → IsLowerAlnum c
unfolding is_alnum
name_char-IsLowerAlnum c h k = ground arith

pub IsLowerAlnum-IsAlnum : (c : ℕ) → IsLowerAlnum c → IsAlnum c
unfolding is_alnum
IsLowerAlnum-IsAlnum c h = ground arith
