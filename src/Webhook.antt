-- ===== src/Webhook.antt =====
-- The webhook that changes the pods of a database when they are created
-- (pkg/webhooks/spiloPodMutator.go). Decoding, encoding and the patch belong to libraries and are
-- the interface `Admission`; logging is left out.
pub mod Mutation
use postgreslet.Prelude.{
  ℕ, ◌<◌, ◌≤◌, ◌≡◌, refl, ◌^◌, Bool, true, false, ◌&&◌, not, ltb, leb, Option, none, some, List, [],
  ◌∷◌, text_eq, arith, if◌then◌else◌, Bool-cases, inl, inr,
}
use postgreslet.Prelude.Int32.{lt_int32}
use postgreslet.Text.{Text, codes}
use postgreslet.Dict.{Dict, lookup}
use postgreslet.Cluster.{Result, ok, err}

pub record PodSecurityContext : Type 0 where
  pub fs_group : Option ℕ
  pub fs_group_change_policy : Option Text

pub record TopologySpreadConstraint : Type 0 where
  -- `int32`, as bit patterns.
  pub max_skew : ℕ
  pub min_domains : Option ℕ
  pub when_unsatisfiable : Text
  pub topology_key : Text
  pub match_labels : Dict Text Text

-- The fields of a pod that the webhook reads or writes; the others stay in `others`.
pub record Pod (Others : Type 0) : Type 0 where
  pub labels : Dict Text Text
  pub security_context : Option PodSecurityContext
  pub topology_spread_constraints : List TopologySpreadConstraint
  pub others : Others

pub record SpiloPodMutator : Type 0 where
  pub enable_fs_group_change_policy_webhook : Bool
  pub enable_pod_topology_spread_constraint_webhook : Bool
  pub topology_key : Text
  -- `int32`, as bit patterns.
  pub max_skew : ℕ
  pub min_domains : ℕ

-- What the libraries do with a request of type `Req`.
pub record Admission (Req Others Response : Type 0) : Type 0 where
  pub decode : Req → Option (Pod Others)
  pub marshal : Pod Others → Option Text
  pub errored : ℕ → Response
  pub patch_response_from_raw : Req → Text → Response

-- The value of a label; a missing one is the empty text.
unfoldable pub label_of : Text → Dict Text Text → Text
label_of k labels = elim (lookup k labels) [ none ↦ [] | some v ↦ v ]

abbrev copied : Dict Text Text → Text → Text × Text
copied labels k = (k, label_of k labels)

unfoldable pub spread_labels : Dict Text Text → Dict Text Text
unfolding label_of
spread_labels labels =
    (codes "application", codes "spilo")
    ∷ copied labels (codes "cluster-name")
    ∷ copied labels (codes "postgres.database.fits.cloud/name")
    ∷ copied labels (codes "postgres.database.fits.cloud/partition-id")
    ∷ copied labels (codes "postgres.database.fits.cloud/project-id")
    ∷ copied labels (codes "postgres.database.fits.cloud/tenant")
    ∷ copied labels (codes "postgres.database.fits.cloud/uid")
    ∷ copied labels (codes "team")
    ∷ []

module _ (a : SpiloPodMutator) where
  set_policy : PodSecurityContext → PodSecurityContext
  set_policy context = elim context.fs_group [
    | none ↦ context
    | some _ ↦ record context { fs_group_change_policy = some (codes "OnRootMismatch") }
  ]

  set_optional_policy : Option PodSecurityContext → Option PodSecurityContext
  set_optional_policy none = none
  set_optional_policy (some context) = some (set_policy context)

  spread_constraint : Dict Text Text → TopologySpreadConstraint
  spread_constraint labels =
      let tsc : TopologySpreadConstraint = record {
        max_skew = a.max_skew;
        min_domains = none;
        when_unsatisfiable = codes "ScheduleAnyway";
        topology_key = a.topology_key;
        match_labels = spread_labels labels;
      } in
      if lt_int32 0 a.min_domains
      then record tsc {
        min_domains = some a.min_domains;
        when_unsatisfiable = codes "DoNotSchedule";
      }
      else tsc

  module _ {Others : Type 0} where
    change_fs_group_policy : Pod Others → Pod Others
    change_fs_group_policy pod =
        if a.enable_fs_group_change_policy_webhook
        then record pod { security_context = set_optional_policy pod.security_context }
        else pod

    constrain_spread : Pod Others → Pod Others
    constrain_spread pod =
        if a.enable_pod_topology_spread_constraint_webhook
        then record pod { topology_spread_constraints = spread_constraint pod.labels ∷ [] }
        else pod

    unfoldable pub mutate : Pod Others → Pod Others
    unfolding change_fs_group_policy constrain_spread set_policy set_optional_policy
        spread_constraint
    mutate pod = constrain_spread (change_fs_group_policy pod)

  module _ {Req Others Response : Type 0} (admission : Admission Req Others Response) where
    respond : Req → Option Text → Response
    respond req none = admission.errored 500
    respond req (some text) = admission.patch_response_from_raw req text

    unfoldable pub handle : Req → Response
    unfolding respond
    handle req = elim (admission.decode req) [
      | none ↦ admission.errored 400
      | some pod ↦ respond req (admission.marshal (mutate pod))
    ]
