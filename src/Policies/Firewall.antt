-- ===== src/Policies/Firewall.antt =====
-- The policies on the firewall: who may connect to a database from outside, and where a standby may
-- connect to.
pub mod Access
pub mod Ranges
use postgreslet.Prelude.{
  ℕ, Bool, true, false, Option, none, some, List, [], ◌∷◌, ◌++◌, ◌=?◌, ◌==◌, text_eq, if◌then◌else◌,
}
use postgreslet.Text.{Text, codes}
use postgreslet.Cluster.{Result, ok, err, Action, pure, fail, ◌>>=◌, ◌>>◌, or_else_fail}
use postgreslet.Kube.{
  Body, Object, Key, key_of, blank, Objects, Peer, block, PolicyPort, PortRef, number, TrafficRule,
  cluster_network_policy,
}
use postgreslet.Postgres.Model.{
  Postgres, PostgresSpec, AccessList, PostgresConnection, source_ranges,
}
use postgreslet.Postgres.Names.{
  to_peripheral_resource_name, to_standby_cluster_ingress_cwnp_name,
  to_standby_cluster_egress_cwnp_name,
}
use postgreslet.Policies.{Upsert, tcp, no_policy, set_ingress, set_egress}

pub data PolicyError (E : Type 0) : Type 0 where
  unparsed : Text → PolicyError E
  not_deployed : E → PolicyError E

-- A policy with a name and the rules of one direction.
pub record FirewallPolicy : Type 0 where
  pub name : Text
  pub rules : List TrafficRule

abbrev pub one_rule : Text → List PolicyPort → List Peer → FirewallPolicy
one_rule name ports peers = record {
  name = name;
  rules = record { ports = ports; peers = peers } ∷ [];
}

-- `if port != 0 { ports = append(ports, …) }`
abbrev pub port_if_known : ℕ → List PolicyPort
port_if_known port = if port == 0 then [] else tcp (number port) ∷ []

-- `netip.ParsePrefix(s)` and the `String` of what it returns.
module _ {E : Type 0} (parse_prefix : Text → Option Text) where
  -- The loop over the ranges: it ends at the first one that is no prefix.
  to_blocks : List Peer → List Text → Result (PolicyError E) (List Peer)
  to_blocks blocks [] = ok blocks
  to_blocks blocks (src ∷ rest) = elim (parse_prefix src) [
    | none ↦ err (unparsed src)
    | some cidr ↦ to_blocks (blocks ++ block cidr ∷ []) rest
  ]

  abbrev pub with_blocks :
      Text
      → List PolicyPort
      → Result (PolicyError E) (List Peer)
      → Result (PolicyError E) FirewallPolicy
  with_blocks name ports (ok blocks) = ok (one_rule name ports blocks)
  with_blocks name ports (err e) = err e

  module _ (p : Postgres) where
    unfoldable pub to_cwnp : ℕ → Result (PolicyError E) FirewallPolicy
    unfolding to_blocks
    to_cwnp port =
        with_blocks (to_peripheral_resource_name p) (tcp (number port) ∷ [])
          (elim (source_ranges p) [ some ranges ↦ to_blocks [] ranges | none ↦ ok (block [] ∷ []) ])

    -- The error for a range names the address of the connection.
    unfoldable pub to_standby_cluster_ingress_cwnp :
        PostgresConnection → List Text → Result (PolicyError E) FirewallPolicy
    unfolding to_blocks
    to_standby_cluster_ingress_cwnp c source_cidrs = elim (to_blocks [] source_cidrs) [
      | ok blocks ↦ ok (
          one_rule (to_standby_cluster_ingress_cwnp_name p) (port_if_known p.status.socket.port)
            blocks)
      | err _ ↦ err (unparsed c.connection_ip)
    ]

    unfoldable pub to_standby_cluster_egress_cwnp :
        PostgresConnection → Result (PolicyError E) FirewallPolicy
    to_standby_cluster_egress_cwnp c =
        if c.connection_ip =? []
        then ok
            (one_rule (to_standby_cluster_egress_cwnp_name p) (port_if_known c.connection_port) [])
        else elim (parse_prefix (c.connection_ip ++ codes "/32")) [
          | none ↦ err (unparsed c.connection_ip)
          | some cidr ↦ ok (
              one_rule (to_standby_cluster_egress_cwnp_name p) (port_if_known c.connection_port)
                (block cidr ∷ []))
        ]

  -- `firewall.ClusterwideNetworkPolicyNamespace`
  module _ {W : Type 0} (create_or_update : Upsert W E) (cwnp_namespace : Text) where
    abbrev pub policy_object : Text → Object
    policy_object name = blank cwnp_namespace name (cluster_network_policy no_policy)

    deploy_ingress : Result (PolicyError E) FirewallPolicy → Action W (PolicyError E) (Unit {0})
    deploy_ingress (err e) = fail e
    deploy_ingress (ok policy) =
        or_else_fail (create_or_update (policy_object policy.name) (set_ingress policy.rules))
          not_deployed

    deploy_egress : Result (PolicyError E) FirewallPolicy → Action W (PolicyError E) (Unit {0})
    deploy_egress (err e) = fail e
    deploy_egress (ok policy) =
        or_else_fail (create_or_update (policy_object policy.name) (set_egress policy.rules))
          not_deployed

    -- Independent of the current role.
    deploy_standby_ingress :
        List Text → Postgres → Option PostgresConnection → Action W (PolicyError E) (Unit {0})
    deploy_standby_ingress standby_ranges p none = pure tt
    deploy_standby_ingress standby_ranges p (some c) =
        deploy_ingress (to_standby_cluster_ingress_cwnp p c standby_ranges)

    -- `standby_ranges` are the configured ranges of the other clusters.
    unfoldable pub create_or_update_ingress_cwnp :
        List Text → Postgres → ℕ → Action W (PolicyError E) (Unit {0})
    unfolding deploy_ingress deploy_standby_ingress
    create_or_update_ingress_cwnp standby_ranges p port =
        deploy_ingress (to_cwnp p port)
        >> deploy_standby_ingress standby_ranges p p.spec.postgres_connection

    unfoldable pub create_or_update_egress_cwnp : Postgres → Action W (PolicyError E) (Unit {0})
    unfolding deploy_egress
    create_or_update_egress_cwnp p = elim p.spec.postgres_connection [
      | none ↦ pure tt
      | some c ↦ deploy_egress (to_standby_cluster_egress_cwnp p c)
    ]

-- The errors of the first two deletions are only logged.
module _ {W E : Type 0} (objects : Objects W E) (cwnp_namespace : Text) where
  abbrev pub policy_key : Text → Key
  policy_key name = record {
    kind = codes "ClusterwideNetworkPolicy";
    namespace = cwnp_namespace;
    name = name;
  }

  unfoldable pub delete_cwnp : Postgres → Action W E (Unit {0})
  delete_cwnp p w =
      let (_, w1) = objects.delete (policy_key (to_standby_cluster_ingress_cwnp_name p)) w in
      let (_, w2) = objects.delete (policy_key (to_standby_cluster_egress_cwnp_name p)) w1 in
      objects.delete (policy_key (to_peripheral_resource_name p)) w2
