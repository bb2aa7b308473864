-- ===== src/Operator/Install/Namespaces.antt =====
-- The theorems about an installation: other namespaces, and what is in the namespace already.
use native.Mathlib.Decide.{ℕ_discrete}
use postgreslet.Prelude.{◌≡◌, ◌≢◌, refl, ap, ◌∙◌, sym, [], ◌⊎◌, inl, inr}
use postgreslet.Text.{Text}
use postgreslet.Cluster.{ok}
use postgreslet.Kube.{
  Body, Object, Key, key_of, scope_of, Objects, service_account, namespace_body, config_map, secret,
  service, cluster_role, cluster_role_binding, deployment, postgresql, stateful_set, network_policy,
  cluster_network_policy, other,
}
use postgreslet.Kube.Laws.{IsObjects}
use postgreslet.Operator.Objects.{OperatorOptions}
use postgreslet.Operator.Install.{
  Documents, namespace_object, pod_env_config_map, pod_env_secret, install_or_update_operator,
}
use postgreslet.Operator.Install.Writes.{key_in, sidecars_key}
use postgreslet.Operator.Install.Frame.{InDocuments, install-Keeps}

pub Key-discrete : Discrete Key
Key-discrete = hlevel ℕ_discrete

-- A key of the namespace or of no namespace.
abbrev pub InScope : Text → Key → Type 0
InScope namespace j = (j.namespace ≡ namespace) ⊎ (j.namespace ≡ [])

pub scope_of-cases :
    (b : Body) (namespace : Text) → (scope_of b namespace ≡ namespace) ⊎ (scope_of b namespace ≡ [])
scope_of-cases namespace_body namespace = inr refl
scope_of-cases (cluster_role _) namespace = inr refl
scope_of-cases (cluster_role_binding _) namespace = inr refl
scope_of-cases service_account namespace = inl refl
scope_of-cases postgresql namespace = inl refl
scope_of-cases stateful_set namespace = inl refl
scope_of-cases (config_map _) namespace = inl refl
scope_of-cases (secret _) namespace = inl refl
scope_of-cases (service _) namespace = inl refl
scope_of-cases (deployment _) namespace = inl refl
scope_of-cases (network_policy _) namespace = inl refl
scope_of-cases (cluster_network_policy _) namespace = inl refl
scope_of-cases (other _) namespace = inl refl

-- A key of an object for this namespace is none of another namespace.
pub elsewhere :
    (namespace : Text) (k j : Key)
    → k.namespace ≢ namespace
    → k.namespace ≢ []
    → InScope namespace j
    → j ≢ k
elsewhere namespace k j apart scoped (inl here) same =
    apart (sym (ap (λ (x : Key). x.namespace) same) ∙ here)
elsewhere namespace k j apart scoped (inr none) same =
    scoped (sym (ap (λ (x : Key). x.namespace) same) ∙ none)

pub document_elsewhere :
    (namespace : Text) (k : Key) (o : Object)
    → k.namespace ≢ namespace
    → k.namespace ≢ []
    → key_in namespace o o.body ≢ k
document_elsewhere namespace k o apart scoped =
    elsewhere namespace k (key_in namespace o o.body) apart scoped (scope_of-cases o.body namespace)

module _ {W E : Type 0} (objects : Objects W E) {Doomed : Key → W → Type 0}
    (laws : IsObjects objects Doomed) where
  -- A creation succeeds only where nothing is there.
  create-there :
      (k : Key) (o p : Object) (w w' : W) (done : Unit {0})
      → objects.create o w ≡ (ok done, w')
      → objects.get k w ≡ ok p
      → objects.get k w' ≡ ok p
  create-there k o p w w' done made there = elim (Key-discrete (key_of o) k) [
    | yes same ↦ absurd (laws.create-absent o p made (rw same there))
    | no ne ↦ laws.get-create_ne o k made ne ∙ there
  ]

module _ {W E : Type 0} (objects : Objects W E) (options : OperatorOptions) (documents : Documents)
    {Doomed : Key → W → Type 0} (laws : IsObjects objects Doomed) where
  -- Over a client that meets the laws: an installation or update of the operator that succeeds
  -- leaves every object alone that is in another namespace: what is read under its key stays the
  -- same, also that nothing is read.
  pub install_or_update_operator-frame :
      (namespace : Text) (k : Key) (w w' : W) (done : Unit {0})
      → k.namespace ≢ namespace
      → k.namespace ≢ []
      → install_or_update_operator objects options documents namespace w ≡ (ok done, w')
      → objects.get k w' ≡ objects.get k w
  unfolding key_of
  install_or_update_operator-frame namespace k w w' done apart scoped installed =
      let away = λ (j : Key). elsewhere namespace k j apart scoped in
      install-Keeps objects options documents namespace (λ v. objects.get k v ≡ objects.get k w)
        (λ j. j ≢ k) (λ j. j ≢ k) laws.key_of-get
        (λ o ne v v' _ e same. laws.get-create_ne o k e ne ∙ same)
        (λ o ne v v' _ e same. laws.get-update_ne o k e ne ∙ same)
        (λ base o ne v v' _ e same. laws.get-patch_ne base o k e ne ∙ same)
        (
          away (key_of (namespace_object namespace)) (inr refl),
          away (key_of (namespace_object namespace)) (inr refl),
        )
        (
          away (key_of (pod_env_config_map namespace)) (inl refl),
          away (key_of (pod_env_secret namespace)) (inl refl),
        )
        (away (sidecars_key namespace) (inl refl), away (sidecars_key namespace) (inl refl))
        (λ item o _ _. (
          document_elsewhere namespace k o apart scoped,
          document_elsewhere namespace k o apart scoped,
        ))
        w w' done installed refl

  -- Over a client that meets the laws: an installation or update of the operator that succeeds
  -- leaves an object in the cluster as it is, unless it is the namespace itself, the config map of
  -- the sidecars, or an object that the documents name.
  pub install_or_update_operator-there :
      (namespace : Text) (k : Key) (p : Object) (w w' : W) (done : Unit {0})
      → key_of (namespace_object namespace) ≢ k
      → sidecars_key namespace ≢ k
      → InDocuments documents (λ o. key_in namespace o o.body ≢ k)
      → objects.get k w ≡ ok p
      → install_or_update_operator objects options documents namespace w ≡ (ok done, w')
      → objects.get k w' ≡ ok p
  install_or_update_operator-there namespace k p w w' done not_namespace not_sidecars not_document
        there installed =
      install-Keeps objects options documents namespace (λ v. objects.get k v ≡ ok p) (λ j. Unit)
        (λ j. j ≢ k) laws.key_of-get
        (λ o _ v v' d e same. create-there objects laws k o p v v' d e same)
        (λ o ne v v' _ e same. laws.get-update_ne o k e ne ∙ same)
        (λ base o ne v v' _ e same. laws.get-patch_ne base o k e ne ∙ same) (tt, not_namespace)
        (tt, tt) (tt, not_sidecars) (λ item o m d. (tt, not_document item o m d)) w w' done
        installed there
