-- ===== src/Text/Trimming.antt =====
-- What trimming leaves: a text that starts and ends with a character outside the cutset.
use postgreslet.Prelude.{
  ℕ, suc, ◌≤◌, ◌≡◌, false, [], ◌∷◌, arith, length, take, All, zero, Bool-cases, inl, inr,
}
use postgreslet.Text.{Text, is_alnum, is_label_char, in_cutset, trim_left, cut_before, trim_right}
use postgreslet.Text.Classes.{IsAlnum, IsLabelChar}

abbrev pub StartsAlnum : Text → Type 0
StartsAlnum [] = Unit
StartsAlnum (c ∷ _) = IsAlnum c

abbrev pub EndsAlnum : Text → Type 0
EndsAlnum [] = Unit
EndsAlnum (c ∷ []) = IsAlnum c
EndsAlnum (c ∷ d ∷ s) = EndsAlnum (d ∷ s)

-- A label character outside the cutset is a letter or a digit, and a letter or digit is outside.
pub uncut-IsAlnum : (c : ℕ) → IsLabelChar c → in_cutset c ≡ false → IsAlnum c
unfolding is_label_char
uncut-IsAlnum c h k = ground arith

alnum_uncut : (c : ℕ) → IsAlnum c → in_cutset c ≡ false
unfolding is_alnum
alnum_uncut c h = ground arith

module _ {ℓ} (P : ℕ → Type ℓ) where
  pub trim_left-All : (s : Text) → All P s → All P (trim_left s)
  unfolding trim_left
  trim_left-All [] h = tt
  trim_left-All (c ∷ s) (p, ps) = ground (arith, trim_left-All s ps)

  cut_before-All : (c : ℕ) (s : Text) → P c → All P s → All P (cut_before c s)
  cut_before-All c [] p ps = elim (Bool-cases (in_cutset c)) [
    | inl e ↦ rw e tt
    | inr e ↦ rw e (p, tt)
  ]
  cut_before-All c (d ∷ s) p ps = (p, ps)

  pub trim_right-All : (s : Text) → All P s → All P (trim_right s)
  unfolding trim_right
  trim_right-All [] h = tt
  trim_right-All (c ∷ s) (p, ps) = cut_before-All c (trim_right s) p (trim_right-All s ps)

pub trim_left-StartsAlnum : (s : Text) → All IsLabelChar s → StartsAlnum (trim_left s)
unfolding trim_left
trim_left-StartsAlnum [] h = tt
trim_left-StartsAlnum (c ∷ s) (p, ps) = elim (Bool-cases (in_cutset c)) [
  | inl e ↦ rw e (trim_left-StartsAlnum s ps)
  | inr e ↦ rw e (uncut-IsAlnum c p e)
]

cut_before-StartsAlnum : (c : ℕ) (s : Text) → IsAlnum c → StartsAlnum (cut_before c s)
cut_before-StartsAlnum c [] h = rw (alnum_uncut c h) h
cut_before-StartsAlnum c (d ∷ s) h = h

pub trim_right-StartsAlnum : (s : Text) → StartsAlnum s → StartsAlnum (trim_right s)
unfolding trim_right
trim_right-StartsAlnum [] h = tt
trim_right-StartsAlnum (c ∷ s) h = cut_before-StartsAlnum c (trim_right s) h

cut_before-EndsAlnum : (c : ℕ) (s : Text) → IsLabelChar c → EndsAlnum s → EndsAlnum (cut_before c s)
cut_before-EndsAlnum c [] p h = elim (Bool-cases (in_cutset c)) [
  | inl e ↦ rw e tt
  | inr e ↦ rw e (uncut-IsAlnum c p e)
]
cut_before-EndsAlnum c (d ∷ s) p h = h

pub trim_right-EndsAlnum : (s : Text) → All IsLabelChar s → EndsAlnum (trim_right s)
unfolding trim_right
trim_right-EndsAlnum [] h = tt
trim_right-EndsAlnum (c ∷ s) (p, ps) =
    cut_before-EndsAlnum c (trim_right s) p (trim_right-EndsAlnum s ps)

length-cut_before : (c : ℕ) (s : Text) → length (cut_before c s) ≤ suc (length s)
length-cut_before c [] = ground arith
length-cut_before c (d ∷ s) = omega arith

pub length-trim_right : (s : Text) → length (trim_right s) ≤ length s
unfolding trim_right
length-trim_right [] = omega arith
length-trim_right (c ∷ s) = omega (arith, length-cut_before c (trim_right s), length-trim_right s)

pub take-StartsAlnum : (n : ℕ) (s : Text) → StartsAlnum s → StartsAlnum (take n s)
take-StartsAlnum zero s h = tt
take-StartsAlnum (suc n) [] h = tt
take-StartsAlnum (suc n) (c ∷ s) h = h
