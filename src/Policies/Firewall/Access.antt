-- ===== src/Policies/Firewall/Access.antt =====
-- Who is let in: the rule of the firewall for a database, once its policy is deployed.
use mathlib.Core.List.{Memᴰ}
use postgreslet.Prelude.{
  ◌≡◌, ◌≢◌, refl, sym, ap, ◌∙◌, ℕ, Option, none, some, List, [], ◌∷◌, ◌++◌, inl, inr, arith,
}
use postgreslet.Text.{Text, codes}
use postgreslet.Cluster.{Result, ok, err, Result-cases}
use postgreslet.Cluster.Actions.{world, bind-ok, or_else_fail-success}
use postgreslet.Kube.{
  Body, Object, Key, key_of, Objects, Peer, PolicyPort, number, PolicySpec, TrafficRule,
  cluster_network_policy,
}
use postgreslet.Postgres.Model.{Postgres, PostgresConnection, source_ranges}
use postgreslet.Postgres.Names.{to_peripheral_resource_name, to_standby_cluster_ingress_cwnp_name}
use postgreslet.Policies.{Upsert, IsUpsert, tcp, set_ingress}
use postgreslet.Policies.Firewall.{
  PolicyError, unparsed, not_deployed, FirewallPolicy, one_rule, to_blocks, to_cwnp,
  to_standby_cluster_ingress_cwnp, policy_object, deploy_ingress, deploy_standby_ingress,
  port_if_known, create_or_update_ingress_cwnp,
}
use postgreslet.Policies.Firewall.Ranges.{
  ok_injective, sources_of, Admits, to_cwnp-Admits, to_cwnp-unparsed,
}

abbrev pub ingress_of : Body → List TrafficRule
ingress_of b = elim b [ cluster_network_policy spec ↦ spec.ingress | _ ↦ [] ]

append_ne : (xs : Text) (y : ℕ) (ys : Text) → xs ≢ xs ++ y ∷ ys
append_ne [] y ys h = ground arith
append_ne (x ∷ xs) y ys h = append_ne xs y ys (tail_of h)
  where
    tail_of : {a b : ℕ} {l m : Text} → a ∷ l ≡ b ∷ m → l ≡ m
    tail_of e = cc

standby_name :
    (p : Postgres) → to_standby_cluster_ingress_cwnp_name p ≢ to_peripheral_resource_name p
unfolding to_standby_cluster_ingress_cwnp_name
standby_name p h = append_ne (to_peripheral_resource_name p) 45 (codes "standby-ingress") (sym h)

module _ {W E : Type 0} (objects : Objects W E) (create_or_update : Upsert W E)
    (laws : IsUpsert objects create_or_update) (parse_prefix : Text → Option Text)
    (cwnp_namespace : Text) where
  -- What is stored under the name of a policy is a policy.
  abbrev pub IsTyped : Text → W → Type 0
  IsTyped name w =
      (o : Object)
      → objects.get (key_of (policy_object parse_prefix create_or_update cwnp_namespace name)) w
        ≡ ok o
      → (spec : PolicySpec) × (o.body ≡ cluster_network_policy spec)

  -- The policy of this name has these rules.
  abbrev pub HasIngress : Text → List TrafficRule → W → Type 0
  HasIngress name rules w =
      (o : Object) × (objects.get
          (key_of (policy_object parse_prefix create_or_update cwnp_namespace name)) w
        ≡ ok o)
      × (ingress_of o.body ≡ rules)

  deploy_ingress-HasIngress :
      (policy : FirewallPolicy) (w w' : W) (a : Unit {0})
      → IsTyped policy.name w
      → deploy_ingress parse_prefix create_or_update cwnp_namespace (ok policy) w ≡ (ok a, w')
      → HasIngress policy.name policy.rules w'
  unfolding deploy_ingress
  deploy_ingress-HasIngress policy w w' a typed h =
      let blank_policy = policy_object parse_prefix create_or_update cwnp_namespace policy.name in
      let done =
        or_else_fail-success not_deployed (create_or_update blank_policy (set_ingress policy.rules))
          w w' a h in
      elim (Result-cases (objects.get (key_of blank_policy) w)) [
        | inl (o, there) ↦
            let (spec, body) = typed o there in
            let (o', there', body') =
              laws.update-there blank_policy o (set_ingress policy.rules) done there in
            (o', there', ap ingress_of (body' ∙ ap (set_ingress policy.rules) body))
        | inr (e, missing) ↦
            let (o', there', body') =
              laws.create-missing blank_policy (set_ingress policy.rules) done missing in
            (o', there', ap ingress_of body')
      ]

  deployed :
      (policy : FirewallPolicy) (name : Text) (ports : List PolicyPort) (peers : List Peer)
      (w w' : W) (a : Unit {0})
      → policy ≡ one_rule name ports peers
      → IsTyped name w
      → deploy_ingress parse_prefix create_or_update cwnp_namespace (ok policy) w ≡ (ok a, w')
      → HasIngress name (record { ports = ports; peers = peers } ∷ []) w'
  deployed policy name ports peers w w' a same typed h =
      deploy_ingress-HasIngress (one_rule name ports peers) w w' a typed (rw same at h)

  deploy_ingress-ok :
      (r : Result (PolicyError E) FirewallPolicy) (w w' : W) (a : Unit {0})
      → deploy_ingress parse_prefix create_or_update cwnp_namespace r w ≡ (ok a, w')
      → (policy : FirewallPolicy) × (r ≡ ok policy)
  unfolding deploy_ingress
  deploy_ingress-ok (ok policy) w w' a h = (policy, refl)
  deploy_ingress-ok (err e) w w' a h = ground arith

  deploy_ingress-other :
      (policy : FirewallPolicy) (name : Text) (rules : List TrafficRule) (w w' : W) (a : Unit {0})
      → policy.name ≢ name
      → deploy_ingress parse_prefix create_or_update cwnp_namespace (ok policy) w ≡ (ok a, w')
      → HasIngress name rules w
      → HasIngress name rules w'
  unfolding deploy_ingress key_of
  deploy_ingress-other policy name rules w w' a apart h (o, there, body) =
      let blank_policy = policy_object parse_prefix create_or_update cwnp_namespace in
      let done =
        or_else_fail-success not_deployed
          (create_or_update (blank_policy policy.name) (set_ingress policy.rules)) w w' a h in
      (
        o,
        laws.get-other (blank_policy policy.name) (set_ingress policy.rules)
              (key_of (blank_policy name)) done (λ same. apart (ap (λ (k : Key). k.name) same))
            ∙ there,
        body,
      )

  standby_policy-name :
      (p : Postgres) (c : PostgresConnection) (ranges : List Text) (policy : FirewallPolicy)
      → to_standby_cluster_ingress_cwnp {E = E} parse_prefix p c ranges ≡ ok policy
      → policy.name ≢ to_peripheral_resource_name p
  unfolding to_standby_cluster_ingress_cwnp
  standby_policy-name p c ranges policy h same = go (to_blocks {E = E} parse_prefix [] ranges) h
    where
      go :
          (r : Result (PolicyError E) (List Peer))
          → ◌≡◌ {A = Result (PolicyError E) FirewallPolicy}
              (elim r [
                | ok blocks ↦ ok (
                    one_rule
                      (to_standby_cluster_ingress_cwnp_name p)
                      (port_if_known p.status.socket.port)
                      blocks)
                | err _ ↦ err (unparsed c.connection_ip)
              ])
              (ok policy)
          → ⊥
      go (ok blocks) e =
          standby_name p (ap (λ (x : FirewallPolicy). x.name) (ok_injective e) ∙ same)
      go (err _) e = ground arith

  deploy_standby-other :
      (p : Postgres) (standby_ranges : List Text) (rules : List TrafficRule)
      (connection : Option PostgresConnection) (w w' : W) (a : Unit {0})
      → deploy_standby_ingress parse_prefix create_or_update cwnp_namespace standby_ranges p
          connection w
        ≡ (ok a, w')
      → HasIngress (to_peripheral_resource_name p) rules w
      → HasIngress (to_peripheral_resource_name p) rules w'
  unfolding deploy_standby_ingress
  deploy_standby-other p standby_ranges rules none w w' a h has = rw (world h) at has
  deploy_standby-other p standby_ranges rules (some c) w w' a h has =
      let (policy, e) =
        deploy_ingress-ok (to_standby_cluster_ingress_cwnp parse_prefix p c standby_ranges) w w' a
          h in
      deploy_ingress-other policy (to_peripheral_resource_name p) rules w w' a
        (standby_policy-name p c standby_ranges policy e) (rw e at h) has

  -- Over calls that meet the laws, where nothing but a policy is stored under the name: after a
  -- deployment of the ingress rules that succeeds, the policy of the database on the firewall has
  -- one rule, for the port that was given, over TCP. By the documented reading of such a rule it is
  -- for the empty block alone, if there is no access list; for all sources, if the access list is
  -- set and empty; and otherwise for exactly the ranges of the access list, each of which is a
  -- prefix, in their order.
  pub create_or_update_ingress_cwnp-Admits :
      (standby_ranges : List Text) (p : Postgres) (port : ℕ) (w w' : W) (a : Unit {0})
      → IsTyped (to_peripheral_resource_name p) w
      → create_or_update_ingress_cwnp parse_prefix create_or_update cwnp_namespace standby_ranges p
          port w
        ≡ (ok a, w')
      → (peers : List Peer) × Admits parse_prefix (source_ranges p) (sources_of peers)
        × HasIngress
            (to_peripheral_resource_name p)
            (record { ports = tcp (number port) ∷ []; peers = peers } ∷ [])
            w'
  unfolding create_or_update_ingress_cwnp
  create_or_update_ingress_cwnp-Admits standby_ranges p port w w' a typed h =
      let (b, v, first, later) =
        bind-ok
          (deploy_ingress parse_prefix create_or_update cwnp_namespace
            (to_cwnp parse_prefix p port))
          (λ _.
            deploy_standby_ingress parse_prefix create_or_update cwnp_namespace standby_ranges p
              p.spec.postgres_connection)
          w w' a h in
      let (policy, e) = deploy_ingress-ok (to_cwnp parse_prefix p port) w v b first in
      let (peers, same, admits) = to_cwnp-Admits parse_prefix p port policy e in
      (
        peers,
        admits,
        deploy_standby-other p standby_ranges
            (record { ports = tcp (number port) ∷ []; peers = peers } ∷ [])
            p.spec.postgres_connection v w' a later
            (deployed policy (to_peripheral_resource_name p) (tcp (number port) ∷ []) peers w v b
              same typed (rw e at first)),
      )

  -- A range of the access list that is no prefix is an error, and nothing is written: the rules that
  -- were deployed before stay.
  pub create_or_update_ingress_cwnp-unparsed :
      (standby_ranges : List Text) (p : Postgres) (port : ℕ) (w : W) (ranges : List Text)
      (src : Text)
      → source_ranges p ≡ some ranges
      → Memᴰ src ranges
      → parse_prefix src ≡ none
      → (first : Text) × Memᴰ first ranges
        × (parse_prefix first ≡ none)
        × (create_or_update_ingress_cwnp parse_prefix create_or_update cwnp_namespace standby_ranges
              p port w
            ≡ (err (unparsed first), w))
  unfolding create_or_update_ingress_cwnp
  create_or_update_ingress_cwnp-unparsed standby_ranges p port w ranges src given there bad =
      let (first, member, wrong, e) =
        to_cwnp-unparsed parse_prefix {E = E} p port ranges src given there bad in
      (first, member, wrong, rw e refl)
