-- ===== src/Cluster.antt =====
-- The Kubernetes clusters, as `client.Client` of controller-runtime shows them to the program: an
-- unknown state, read and written object by object. The client is no code of the repository; it is
-- a parameter of everything that uses it, with the laws of `IsLawful` where a theorem needs them.

pub mod Actions
pub mod Memory
use postgreslet.Prelude.{ℕ, ◌≡◌, ◌≢◌, ◌⊎◌, inl, inr, refl, Bool, true, false, List, Eq}
use postgreslet.Text.{Text}
use postgreslet.Dict.{Dict}
use native.Mathlib.Decide.{ℕ_discrete}
use mathlib.Core.List.{Memᴰ}

pub data Result {ℓ κ} (E : Type ℓ) (A : Type κ) : Type (ℓ ⊔ κ) where
  ok : A → Result E A
  err : E → Result E A

pub Result-cases {ℓ κ} :
    {E : Type ℓ} {A : Type κ} (r : Result E A) → ((a : A) × (r ≡ ok a)) ⊎ ((e : E) × (r ≡ err e))
Result-cases (ok a) = inl (a, refl)
Result-cases (err e) = inr (e, refl)

-- A method that reads and writes the state and may fail. What it wrote before a failure stays.
abbrev pub Action : Type 0 → Type 0 → Type 0 → Type 0
Action W E A = W → Result E A × W

module _ {W E A : Type 0} where
  abbrev pub pure : A → Action W E A
  pure a w = (ok a, w)

  abbrev pub fail : E → Action W E A
  fail e w = (err e, w)

module _ {W E A B : Type 0} where
  abbrev pub continue : Result E A → (A → Action W E B) → Action W E B
  continue (ok a) f w = f a w
  continue (err e) f w = (err e, w)

  infixl 10 ◌>>=◌ ◌>>◌
  abbrev pub ◌>>=◌ : Action W E A → (A → Action W E B) → Action W E B
  ◌>>=◌ m f w = let (r, w') = m w in continue r f w'

  abbrev pub ◌>>◌ : Action W E A → Action W E B → Action W E B
  m >> n = m >>= λ _. n

-- `fmt.Errorf("…: %w", err)`
abbrev pub wrap_error {ℓ} : {E F : Type 0} {A : Type ℓ} → (E → F) → Result E A → Result F A
wrap_error f (ok a) = ok a
wrap_error f (err e) = err (f e)

-- `if err := m; err != nil { return wrapped }`
abbrev pub or_else_fail : {W E F A : Type 0} → Action W E A → (E → F) → Action W F A
or_else_fail m f w = let (r, w') = m w in (wrap_error f r, w')

-- A namespace and a name.
pub record NamespacedName : Type 0 where
  pub namespace : Text
  pub name : Text

pub NamespacedName-discrete : Discrete NamespacedName
NamespacedName-discrete = hlevel ℕ_discrete

-- The methods that the program calls for objects of one kind.
pub record Client (W E Obj : Type 0) : Type 0 where
  pub key_of : Obj → NamespacedName
  pub labels_of : Obj → Dict Text Text
  pub get : NamespacedName → W → Result E Obj
  -- The objects with these labels, in any namespace.
  pub list_all : Dict Text Text → W → Result E (List Obj)
  pub create : Obj → Action W E (Unit {0})
  pub update : Obj → Action W E (Unit {0})
  pub delete : NamespacedName → Action W E (Unit {0})
  pub is_not_found : E → Bool

-- What the API documents of calls that succeed. Nothing is assumed of a call that fails.
pub record IsLawful {W E Obj : Type 0} (c : Client W E Obj) : Type 0 where
  pub get-create_self :
      (o : Obj) {w w' : W} → c.create o w ≡ (ok tt, w') → c.get (c.key_of o) w' ≡ ok o
  pub get-create_ne :
      (o : Obj) (k : NamespacedName) {w w' : W}
      → c.create o w ≡ (ok tt, w')
      → c.key_of o ≢ k
      → c.get k w' ≡ c.get k w
  pub get-update_self :
      (o : Obj) {w w' : W} → c.update o w ≡ (ok tt, w') → c.get (c.key_of o) w' ≡ ok o
  pub get-update_ne :
      (o : Obj) (k : NamespacedName) {w w' : W}
      → c.update o w ≡ (ok tt, w')
      → c.key_of o ≢ k
      → c.get k w' ≡ c.get k w
  pub get-delete_ne : (j k : NamespacedName) (w : W) → j ≢ k → c.get k (c.delete j w).1 ≡ c.get k w
  -- An object that can be read is found under its key, and is listed under the labels it has.
  pub key_of-get : (k : NamespacedName) (o : Obj) (w : W) → c.get k w ≡ ok o → c.key_of o ≡ k
  pub get-list_all :
      (k : NamespacedName) (o : Obj) (labels : Dict Text Text) (w : W) (found : List Obj)
      → c.list_all labels w ≡ ok found
      → c.get k w ≡ ok o
      → c.labels_of o ≡ labels
      → Memᴰ o found
