-- ===== src/Cluster/Actions.antt =====
-- Chains of actions: how a success of a chain is taken apart, and what a chain keeps.
use postgreslet.Prelude.{◌≡◌, refl, ap, Bool, true, false, if◌then◌else◌, arith}
use postgreslet.Cluster.{
  Result, ok, err, Action, pure, fail, continue, ◌>>=◌, or_else_fail, wrap_error,
}

-- What an action of the client returns, as a value: the program goes on whatever it is.
abbrev pub attempt : {W E F A : Type 0} → Action W E A → Action W F (Result E A)
attempt m w = let (r, w') = m w in (ok r, w')

-- A reading of the state.
abbrev pub reading : {W E A : Type 0} → (W → Result E A) → Action W E A
reading f w = (f w, w)

abbrev at_world : {W E A : Type 0} → Result E A → W → Result E A × W
at_world r w = (r, w)

-- The state of a result.
pub world :
    {W E A : Type 0} {r s : Result E A} {w w' : W}
    → ◌≡◌ {A = Result E A × W} (r, w) (s, w')
    → w ≡ w'
world {W} {E} {A} h = ap (λ (t : Result E A × W). t.1) h

module _ {W E A B : Type 0} where
  continued :
      (r : Result E A) (f : A → Action W E B) (v w' : W) (b : B)
      → continue r f v ≡ (ok b, w')
      → (a : A) × (r ≡ ok a) × (f a v ≡ (ok b, w'))
  continued (ok a) f v w' b h = (a, refl, h)
  continued (err e) f v w' b h = ground arith

  -- A chain that succeeds is one success after the other.
  pub bind-ok :
      (m : Action W E A) (f : A → Action W E B) (w w' : W) (b : B)
      → (m >>= f) w ≡ (ok b, w')
      → (a : A) × (v : W) × (m w ≡ (ok a, v)) × (f a v ≡ (ok b, w'))
  bind-ok m f w w' b h =
      let r = m w in
      let (a, e, later) = continued r.0 f r.1 w' b h in
      (a, r.1, ap (λ (t : Result E A). at_world t r.1) e, later)

module _ {W E F A : Type 0} where
  wrapped :
      (g : E → F) (r : Result E A) (v w' : W) (a : A)
      → ◌≡◌ {A = Result F A × W} (wrap_error g r, v) (ok a, w')
      → ◌≡◌ {A = Result E A × W} (r, v) (ok a, w')
  wrapped g (ok a) v w' b h = ground arith
  wrapped g (err e) v w' b h = ground arith

  pub or_else_fail-success :
      (g : E → F) (m : Action W E A) (w w' : W) (a : A)
      → or_else_fail m g w ≡ (ok a, w')
      → m w ≡ (ok a, w')
  or_else_fail-success g m w w' a h = let r = m w in wrapped g r.0 r.1 w' a h

-- An action that succeeds keeps what `P` says of the state.
abbrev pub Keeps {ℓ} : {W E A : Type 0} → (W → Type ℓ) → Action W E A → Type ℓ
Keeps {W} {E} {A} P m = (w w' : W) (a : A) → m w ≡ (ok a, w') → P w → P w'

module _ {ℓ} {W E : Type 0} (P : W → Type ℓ) where
  pub Keeps-pure : {A : Type 0} (a : A) → Keeps {E = E} P (pure a)
  Keeps-pure {A} a w w' b h p = subst_world P w w' (ap (λ (t : Result E A × W). t.1) h) p
    where
      subst_world : (Q : W → Type ℓ) (u v : W) → u ≡ v → Q u → Q v
      subst_world Q u v e q = rw e at q

  pub Keeps-fail : {A : Type 0} (e : E) → Keeps {A = A} P (fail e)
  Keeps-fail e w w' b h p = ground arith

  pub Keeps-bind :
      {A B : Type 0} (m : Action W E A) (f : A → Action W E B)
      → Keeps P m
      → ((a : A) → Keeps P (f a))
      → Keeps P (m >>= f)
  Keeps-bind m f keeps later w w' b h p =
      let (a, v, first, second) = bind-ok m f w w' b h in
      later a v w' b second (keeps w v a first p)

  pub Keeps-if :
      {A : Type 0} (test : Bool) (m n : Action W E A)
      → Keeps P m
      → Keeps P n
      → Keeps P (if test then m else n)
  Keeps-if true m n first second = first
  Keeps-if false m n first second = second

module _ {ℓ} {W E F : Type 0} (P : W → Type ℓ) where
  pub Keeps-or_else_fail :
      {A : Type 0} (m : Action W E A) (g : E → F) → Keeps P m → Keeps P (or_else_fail m g)
  Keeps-or_else_fail m g keeps w w' a h p = keeps w w' a (or_else_fail-success g m w w' a h) p

  -- A reading whose failure is a value.
  pub Keeps-attempt : {A : Type 0} (f : W → Result E A) → Keeps {E = F} P (attempt (reading f))
  Keeps-attempt {A} f w w' a h p = rw (ap (λ (t : Result F (Result E A) × W). t.1) h) at p

module _ {ℓ} {W E : Type 0} (P : W → Type ℓ) where
  pub Keeps-reading : {A : Type 0} (f : W → Result E A) → Keeps P (reading f)
  Keeps-reading {A} f w w' a h p = rw (ap (λ (t : Result E A × W). t.1) h) at p
