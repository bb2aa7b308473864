-- ===== src/Webhook/Mutation.antt =====
-- What the webhook makes of a pod.
use postgreslet.Prelude.{
  ℕ, ◌≡◌, ◌≢◌, ◌⊎◌, inl, inr, refl, ap, true, Option, none, some, List, [], ◌∷◌, text_eq, arith,
  Bool-cases,
}
use postgreslet.Prelude.Int32.{lt_int32}
use postgreslet.Text.{Text, codes}
use postgreslet.Dict.{Dict, lookup}
use postgreslet.Webhook.{
  PodSecurityContext, TopologySpreadConstraint, Pod, SpiloPodMutator, label_of, spread_labels,
  set_policy, set_optional_policy, spread_constraint, change_fs_group_policy, constrain_spread,
  mutate,
}

-- A selector matches the labels of a pod.
abbrev pub Matches : Dict Text Text → Dict Text Text → Type 0
Matches [] labels = Unit
Matches ((k, v) ∷ selector) labels = (lookup k labels ≡ some v) × Matches selector labels

-- A pod of a database: the operator sets the application and these labels.
abbrev pub HasLabels : List Text → Dict Text Text → Type 0
HasLabels [] labels = Unit
HasLabels (k ∷ ks) labels = (lookup k labels ≢ none) × HasLabels ks labels

abbrev pub spread_keys : List Text
spread_keys =
    codes "cluster-name"
    ∷ codes "postgres.database.fits.cloud/name"
    ∷ codes "postgres.database.fits.cloud/partition-id"
    ∷ codes "postgres.database.fits.cloud/project-id"
    ∷ codes "postgres.database.fits.cloud/tenant"
    ∷ codes "postgres.database.fits.cloud/uid"
    ∷ codes "team"
    ∷ []

-- What Kubernetes demands of a number of domains: it is positive, and stands only with
-- `DoNotSchedule`.
abbrev pub ValidDomains : TopologySpreadConstraint → Type 0
ValidDomains tsc =
    (tsc.min_domains ≡ none)
    ⊎ ((tsc.when_unsatisfiable ≡ codes "DoNotSchedule")
        × ((n : ℕ) × (tsc.min_domains ≡ some n) × (lt_int32 0 n ≡ true)))

label_of-lookup :
    (k : Text) (labels : Dict Text Text)
    → lookup k labels ≢ none
    → lookup k labels ≡ some (label_of k labels)
unfolding label_of
label_of-lookup k labels there = ground arith

spread_labels-Matches :
    (labels : Dict Text Text)
    → lookup (codes "application") labels ≡ some (codes "spilo")
    → HasLabels spread_keys labels
    → Matches (spread_labels labels) labels
unfolding spread_labels
spread_labels-Matches labels application (h0, (h1, (h2, (h3, (h4, (h5, (h6, _))))))) = (
  application,
  (
    label_of-lookup _ labels h0,
    (
      label_of-lookup _ labels h1,
      (
        label_of-lookup _ labels h2,
        (
          label_of-lookup _ labels h3,
          (
            label_of-lookup _ labels h4,
            (label_of-lookup _ labels h5, (label_of-lookup _ labels h6, tt)),
          ),
        ),
      ),
    ),
  ),
)

module _ (a : SpiloPodMutator) where
  spread_constraint-ValidDomains :
      (labels : Dict Text Text)
      → ValidDomains (spread_constraint a labels)
        × ((spread_constraint a labels).match_labels ≡ spread_labels labels)
  unfolding spread_constraint
  spread_constraint-ValidDomains labels = elim (Bool-cases (lt_int32 0 a.min_domains)) [
    | inl more ↦ rw more (inr (refl, (a.min_domains, refl, more)), refl)
    | inr zero_domains ↦ rw zero_domains (inl refl, refl)
  ]

  set_policy_idempotent :
      (fs_group : Option ℕ) (policy : Option Text)
      → set_policy a
          (set_policy a (record { fs_group = fs_group; fs_group_change_policy = policy }))
        ≡ set_policy a (record { fs_group = fs_group; fs_group_change_policy = policy })
  unfolding set_policy
  set_policy_idempotent none policy = refl
  set_policy_idempotent (some g) policy = refl

  set_optional_policy_idempotent :
      (o : Option PodSecurityContext)
      → set_optional_policy a (set_optional_policy a o) ≡ set_optional_policy a o
  unfolding set_optional_policy
  set_optional_policy_idempotent none = refl
  set_optional_policy_idempotent (some context) =
      ap (λ (c : PodSecurityContext). some c)
        (set_policy_idempotent context.fs_group context.fs_group_change_policy)

module _ (a : SpiloPodMutator) {Others : Type 0} (pod : Pod Others) where
  change-labels : (change_fs_group_policy a pod).labels ≡ pod.labels
  unfolding change_fs_group_policy
  change-labels = elim (Bool-cases a.enable_fs_group_change_policy_webhook) [
    | inl on ↦ rw on refl
    | inr off ↦ rw off refl
  ]

  constrained :
      a.enable_pod_topology_spread_constraint_webhook ≡ true
      → (mutate a pod).topology_spread_constraints ≡ spread_constraint a pod.labels ∷ []
  unfolding mutate constrain_spread
  constrained enabled =
      rw enabled (ap (λ (l : Dict Text Text). spread_constraint a l ∷ []) change-labels)

  -- Changing a pod a second time changes nothing.
  pub mutate_idempotent : mutate a (mutate a pod) ≡ mutate a pod
  unfolding mutate constrain_spread change_fs_group_policy
  mutate_idempotent = elim (Bool-cases a.enable_fs_group_change_policy_webhook) [
    | inr off ↦ elim (Bool-cases a.enable_pod_topology_spread_constraint_webhook) [
      | inr apart ↦ rw (off, apart) refl
      | inl spread ↦ rw (off, spread) refl
    ]
    | inl on ↦ elim (Bool-cases a.enable_pod_topology_spread_constraint_webhook) [
      | inr apart ↦
          rw (on, apart)
            (ap (λ (o : Option PodSecurityContext). record pod { security_context = o })
              (set_optional_policy_idempotent a pod.security_context))
      | inl spread ↦
          rw (on, spread)
            (ap
              (λ (o : Option PodSecurityContext). record pod {
                security_context = o;
                topology_spread_constraints = spread_constraint a pod.labels ∷ [];
              })
              (set_optional_policy_idempotent a pod.security_context))
    ]
  ]

  -- Where the constraint is switched on, a pod with the labels of a database gets one constraint:
  -- it has a number of domains only if this is positive and stands with `DoNotSchedule`, as
  -- Kubernetes demands, and its selector matches the pod itself.
  pub mutate-ValidDomains :
      a.enable_pod_topology_spread_constraint_webhook ≡ true
      → lookup (codes "application") pod.labels ≡ some (codes "spilo")
      → HasLabels spread_keys pod.labels
      → (tsc : TopologySpreadConstraint) × ((mutate a pod).topology_spread_constraints ≡ tsc ∷ [])
        × ValidDomains tsc
        × Matches tsc.match_labels pod.labels
  mutate-ValidDomains enabled application labelled =
      let (valid, selector) = spread_constraint-ValidDomains a pod.labels in
      (
        spread_constraint a pod.labels,
        constrained enabled,
        valid,
        rw selector (spread_labels-Matches pod.labels application labelled),
      )
