-- ===== src/Policies/Pods.antt =====
-- The policy for the pods of a database: where they may connect to.
pub mod Opening
pub mod Egress
use postgreslet.Prelude.{
  ℕ, Bool, true, false, Option, none, some, List, [], ◌∷◌, ◌++◌, ◌=?◌, text_eq, not, if◌then◌else◌,
}
use postgreslet.Text.{Text, codes}
use postgreslet.Dict.{Dict, insert}
use postgreslet.Cluster.{Action}
use postgreslet.Kube.{
  blank, Peer, pods, pods_of, block, PolicyPort, PortRef, number, named, TrafficRule, PolicySpec,
  network_policy,
}
use postgreslet.Postgres.Model.{Postgres, PostgresSpec, PostgresConnection}
use postgreslet.Postgres.Names.{to_peripheral_resource_name, to_peripheral_resource_namespace}
use postgreslet.Postgres.Secrets.{to_zalando_postgresql_matching_labels}
use postgreslet.Postgres.Services.{application_label_name}
use postgreslet.Policies.{Upsert, tcp, no_policy, set_spec}

unfoldable pub pod_labels : Postgres → Dict Text Text
pod_labels p =
    insert application_label_name (codes "spilo") (to_zalando_postgresql_matching_labels p)

abbrev pub anywhere : Text
anywhere = codes "0.0.0.0/0"

abbrev pub to_block : Text → PortRef → TrafficRule
to_block cidr port = record { ports = tcp port ∷ []; peers = block cidr ∷ [] }

abbrev pub to_pods : Peer → TrafficRule
to_pods peer = record { ports = []; peers = peer ∷ [] }

-- `net.SplitHostPort`; where it fails, the port it returns is empty.
module _ (split_host_port : Text → Option (Text × Text)) where
  unfoldable pub etcd_port : Text → PortRef
  etcd_port etcd_host = elim (split_host_port etcd_host) [ none ↦ named [] | some _ ↦ number 2379 ]

  etcd_egress : Text → List TrafficRule
  etcd_egress etcd_host =
      if etcd_host =? [] then [] else to_block anywhere (etcd_port etcd_host) ∷ []

  primary_egress : Option PostgresConnection → List TrafficRule
  primary_egress none = []
  primary_egress (some c) =
      if not c.replication_primary
      then to_block (c.connection_ip ++ codes "/32") (number c.connection_port) ∷ []
      else []

  unfoldable pub net_pol_spec : Postgres → Text → PolicySpec
  unfolding etcd_egress primary_egress
  net_pol_spec p etcd_host = record no_policy {
    pod_selector = pod_labels p;
    egress =
        (to_pods (pods (pod_labels p))
          ∷ to_pods (
              pods_of ((codes "gardener.cloud/purpose", codes "kube-system") ∷ [])
                ((codes "k8s-app", codes "kube-dns") ∷ []))
          ∷ [])
        ++ (etcd_egress etcd_host
            ++ (to_block anywhere (number 443) ∷ primary_egress p.spec.postgres_connection));
    policy_types = codes "Egress" ∷ [];
  }

  unfoldable pub create_or_update_net_pol :
      {W E : Type 0} → Upsert W E → Postgres → Text → Action W E (Unit {0})
  create_or_update_net_pol create_or_update p etcd_host =
      create_or_update
        (blank (to_peripheral_resource_namespace p)
          (to_peripheral_resource_name p ++ codes "-egress") (network_policy no_policy))
        (set_spec (net_pol_spec p etcd_host))
