-- ===== src/Policies.antt =====
-- The network policies of a database: the rules on the firewall in front of the cluster
-- (`ToCWNP` and its standbys in api/v1/postgres_types.go, `createOrUpdateIngressCWNP` and
-- `createOrUpdateEgressCWNP` in controllers/postgres_controller.go) and the policy for its pods
-- (`createOrUpdateNetPol`). Parsing and printing of prefixes, the splitting of an address, the
-- namespace of the firewall's policies and `controllerutil.CreateOrUpdate` belong to libraries: they
-- are parameters.
pub mod Firewall
pub mod Pods
use postgreslet.Prelude.{◌≡◌, ◌≢◌, true, List, [], ◌∷◌}
use postgreslet.Text.{Text, codes}
use postgreslet.Cluster.{ok, err, Action}
use postgreslet.Kube.{
  Body, Object, Key, key_of, Objects, PolicySpec, PolicyPort, PortRef, TrafficRule, number,
  cluster_network_policy, network_policy,
}

-- The blank object, and what the callback of the program does to the body.
abbrev pub Upsert : Type 0 → Type 0 → Type 0
Upsert W E = Object → (Body → Body) → Action W E (Unit {0})

-- What is documented of a call that succeeds: the object is the one that was there, or the blank
-- one, with the changes of the callback; every other object stays.
pub record IsUpsert {W E : Type 0} (c : Objects W E) (create_or_update : Upsert W E) : Type 0 where
  pub update-there :
      (o p : Object) (f : Body → Body) {w w' : W}
      → create_or_update o f w ≡ (ok tt, w')
      → c.get (key_of o) w ≡ ok p
      → (o' : Object) × (c.get (key_of o) w' ≡ ok o') × (o'.body ≡ f p.body)
  pub create-missing :
      (o : Object) (f : Body → Body) {e : E} {w w' : W}
      → create_or_update o f w ≡ (ok tt, w')
      → c.get (key_of o) w ≡ err e
      → (o' : Object) × (c.get (key_of o) w' ≡ ok o') × (o'.body ≡ f o.body)
  pub get-other :
      (o : Object) (f : Body → Body) (k : Key) {w w' : W}
      → create_or_update o f w ≡ (ok tt, w')
      → key_of o ≢ k
      → c.get k w' ≡ c.get k w

abbrev pub tcp : PortRef → PolicyPort
tcp port = record { port = port; protocol = codes "TCP" }

abbrev pub no_policy : PolicySpec
no_policy = record { pod_selector = []; ingress = []; egress = []; policy_types = [] }

-- `policy.Spec.Ingress = …`
abbrev pub set_ingress : List TrafficRule → Body → Body
set_ingress rules (cluster_network_policy spec) =
    cluster_network_policy (record spec { ingress = rules })
set_ingress rules body = body

-- `policy.Spec.Egress = …`
abbrev pub set_egress : List TrafficRule → Body → Body
set_egress rules (cluster_network_policy spec) =
    cluster_network_policy (record spec { egress = rules })
set_egress rules body = body

-- `np.Spec = …`
abbrev pub set_spec : PolicySpec → Body → Body
set_spec spec (network_policy _) = network_policy spec
set_spec spec body = body
