-- ===== src/Policies/Pods/Egress.antt =====
-- Where the pods of a database may connect to, by the documented reading of a network policy.
use postgreslet.Prelude.{◌≡◌, ◌≢◌, false, Option, none, some, List, [], ◌∷◌, ◌++◌, text_eq}
use postgreslet.Text.{Text, codes}
use postgreslet.Kube.{Peer, pods, pods_of, block, PolicyPort, number, named, TrafficRule}
use postgreslet.Postgres.Model.{Postgres, PostgresConnection}
use postgreslet.Policies.{tcp}
use postgreslet.Policies.Pods.{pod_labels, anywhere, to_block, to_pods, etcd_egress, primary_egress}

abbrev pub dns : Peer
dns =
    pods_of ((codes "gardener.cloud/purpose", codes "kube-system") ∷ [])
      ((codes "k8s-app", codes "kube-dns") ∷ [])

module _ (split_host_port : Text → Option (Text × Text)) (p : Postgres) (etcd_host : Text) where
  -- A connection that the pods of the database may open.
  pub data IsAllowed : Peer → PolicyPort → Type 0 where
    to_own_pods : (port : PolicyPort) → IsAllowed (pods (pod_labels p)) port
    to_dns : (port : PolicyPort) → IsAllowed dns port
    -- Port 443 of any host, for the backups.
    to_s3 : IsAllowed (block anywhere) (tcp (number 443))
    -- Port 2379 of any host, if an etcd host is configured that has a port, whatever this is.
    to_etcd :
        (host port : Text)
        → etcd_host ≢ []
        → split_host_port etcd_host ≡ some (host, port)
        → IsAllowed (block anywhere) (tcp (number 2379))
    -- A port with an empty name, if one is configured that has none.
    to_no_port :
        etcd_host ≢ []
        → split_host_port etcd_host ≡ none
        → IsAllowed (block anywhere) (tcp (named []))
    -- From a standby to its primary.
    to_primary :
        (c : PostgresConnection)
        → p.spec.postgres_connection ≡ some c
        → c.replication_primary ≡ false
        → IsAllowed (block (c.connection_ip ++ codes "/32")) (tcp (number c.connection_port))

  abbrev s3_and_primary : List TrafficRule
  s3_and_primary =
      to_block anywhere (number 443) ∷ primary_egress split_host_port p.spec.postgres_connection

  abbrev rules : List TrafficRule
  rules =
      (to_pods (pods (pod_labels p)) ∷ to_pods dns ∷ [])
      ++ (etcd_egress split_host_port etcd_host ++ s3_and_primary)
