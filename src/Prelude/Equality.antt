-- ===== src/Prelude/Equality.antt =====
-- Go's `==`, for every type whose equality can be decided.
use Prim.Native.Nat.{ℕ}
use mathlib.Core.Path.{◌≡◌, refl}
use mathlib.Core.Logic.{ite, dite}
use mathlib.Core.Bool.{Bool, true, false, ◌||◌, Bool-discrete}
use mathlib.Core.List.{List, [], ◌∷◌}
use native.Mathlib.Omega.{arith}
use native.Mathlib.Decide.{ℕ_discrete}
use postgreslet.Prelude.Tests.{◌==◌ as nat_beq, if◌then◌else◌}

pub record Eq {ℓ} (A : Type ℓ) : Type ℓ where
  pub dec : Discrete A

module _ {ℓ} {A : Type ℓ} ⦃e : Eq A⦄ where
  infix 50 ◌=?◌
  abbrev pub ◌=?◌ : A → A → Bool
  a =? b = ite (e.dec a b) true false

  abbrev pub contains : List A → A → Bool
  contains [] a = false
  contains (x ∷ xs) a = (x =? a) || contains xs a

instance unfoldable pub nat_eq : Eq ℕ
unfolding ℕ_discrete
nat_eq = record { dec = ℕ_discrete }

-- Equality of texts, character by character.
abbrev text_beq : List ℕ → List ℕ → Bool
text_beq [] [] = true
text_beq (x ∷ xs) (y ∷ ys) = if nat_beq x y then text_beq xs ys else false
text_beq _ _ = false

pub text_beq_sound : (s t : List ℕ) → text_beq s t ≡ true → s ≡ t
text_beq_sound [] [] h = refl
text_beq_sound [] (y ∷ ys) h = ground arith
text_beq_sound (x ∷ xs) [] h = ground arith
text_beq_sound (x ∷ xs) (y ∷ ys) h = ground (arith, text_beq_sound xs ys)

text_beq_self : (s : List ℕ) → text_beq s s ≡ true
text_beq_self [] = refl
text_beq_self (x ∷ xs) = ground (arith, text_beq_self xs)

pub text_beq_complete : (s t : List ℕ) → s ≡ t → text_beq s t ≡ true
text_beq_complete s t p = rw p (text_beq_self t)

-- Shut in proofs, where a split on `s =? t` yields the equation or its negation.
instance unfoldable pub text_eq : Eq (List ℕ)
text_eq = record {
  dec = λ s t.
      dite (Bool-discrete (text_beq s t) true) (λ same. yes (text_beq_sound s t same))
        (λ differ. no (λ p. differ (text_beq_complete s t p)));
}
