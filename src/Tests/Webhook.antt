-- ===== src/Tests/Webhook.antt =====
-- A pod of a database.
use postgreslet.Prelude.{◌≡◌, ◌≢◌, refl, true, none, some, [], ◌∷◌, text_eq, arith}
use postgreslet.Text.{Text, codes}
use postgreslet.Dict.{Dict, lookup}
use postgreslet.Webhook.{Pod, TopologySpreadConstraint, SpiloPodMutator, mutate}
use postgreslet.Webhook.Mutation.{Matches, ValidDomains, mutate_idempotent, mutate-ValidDomains}

abbrev mutator : SpiloPodMutator
mutator = record {
  enable_fs_group_change_policy_webhook = true;
  enable_pod_topology_spread_constraint_webhook = true;
  topology_key = codes "machine";
  max_skew = 1;
  min_domains = 2;
}

abbrev pod_labels : Dict Text Text
pod_labels =
    (codes "application", codes "spilo")
    ∷ (codes "cluster-name", codes "pgacme-shop")
    ∷ (codes "postgres.database.fits.cloud/name", codes "3f9c")
    ∷ (codes "postgres.database.fits.cloud/partition-id", codes "fra")
    ∷ (codes "postgres.database.fits.cloud/project-id", codes "b621")
    ∷ (codes "postgres.database.fits.cloud/tenant", codes "acme")
    ∷ (codes "postgres.database.fits.cloud/uid", codes "u1")
    ∷ (codes "team", codes "pgacme")
    ∷ []

abbrev pod : Pod (Unit {0})
pod = record {
  labels = pod_labels;
  security_context = some (record { fs_group = some 103; fs_group_change_policy = none });
  topology_spread_constraints = [];
  others = tt;
}

mutate_idempotent_example : mutate mutator (mutate mutator pod) ≡ mutate mutator pod
mutate_idempotent_example = mutate_idempotent mutator pod

is_some : {v : Text} → some v ≢ none
is_some e = ground arith

mutate-ValidDomains_example :
    (tsc : TopologySpreadConstraint) × ((mutate mutator pod).topology_spread_constraints ≡ tsc ∷ [])
    × ValidDomains tsc
    × Matches tsc.match_labels pod_labels
unfolding lookup text_eq
mutate-ValidDomains_example =
    mutate-ValidDomains mutator pod refl refl
      (is_some, (is_some, (is_some, (is_some, (is_some, (is_some, (is_some, tt)))))))
