-- ===== src/Kube.antt =====
-- The objects of the service cluster that the postgres controller and the operator manager read and
-- write (pkg/operatormanager/operatormanager.go, controllers/postgres_controller.go): their
-- metadata, and of each kind the fields that the program touches. The client of the cluster is no
-- code of the repository; it is the parameter `Objects`.
pub mod Laws
pub mod Memory
use postgreslet.Prelude.{
  ℕ, Bool, true, false, Option, none, some, List, [], ◌∷◌, text_eq, ◌=?◌, ◌&&◌, if◌then◌else◌,
}
use postgreslet.Text.{Text, codes}
use postgreslet.Dict.{Dict}
use postgreslet.Cluster.{Result, ok, err, Action, NamespacedName}

pub record Metadata : Type 0 where
  pub namespace : Text
  pub name : Text
  pub labels : Dict Text Text
  pub annotations : Dict Text Text
  pub uid : Text
  pub finalizers : List Text

pub record PolicyRule : Type 0 where
  pub api_groups : List Text
  pub verbs : List Text
  pub resources : List Text
  pub resource_names : List Text

pub record Subject : Type 0 where
  pub kind : Text
  pub namespace : Text
  pub name : Text

-- `IntOrString`
pub data PortRef : Type 0 where
  number : ℕ → PortRef
  named : Text → PortRef

pub record PolicyPort : Type 0 where
  pub port : PortRef
  pub protocol : Text

-- Who a rule of a policy is about: pods, pods of some namespaces, or the addresses of a block.
pub data Peer : Type 0 where
  pods : Dict Text Text → Peer
  pods_of : Dict Text Text → Dict Text Text → Peer
  block : Text → Peer

-- A rule for one direction.
pub record TrafficRule : Type 0 where
  pub ports : List PolicyPort
  pub peers : List Peer

-- `NetworkPolicySpec` and the spec of a `ClusterwideNetworkPolicy`, which has no selector.
pub record PolicySpec : Type 0 where
  pub pod_selector : Dict Text Text
  pub ingress : List TrafficRule
  pub egress : List TrafficRule
  pub policy_types : List Text

pub data Body : Type 0 where
  service_account namespace_body postgresql stateful_set : Body
  cluster_role : List PolicyRule → Body
  cluster_role_binding : List Subject → Body
  config_map secret : Dict Text Text → Body
  -- The cluster ip of the service.
  service : Text → Body
  -- The images of the containers.
  deployment : List Text → Body
  network_policy cluster_network_policy : PolicySpec → Body
  -- An object of a kind that the program does not know.
  other : Text → Body

pub record Object : Type 0 where
  pub meta : Metadata
  pub body : Body

pub record Key : Type 0 where
  pub kind : Text
  pub namespace : Text
  pub name : Text

abbrev pub kind_of : Body → Text
kind_of service_account = codes "ServiceAccount"
kind_of namespace_body = codes "Namespace"
kind_of postgresql = codes "postgresql"
kind_of stateful_set = codes "StatefulSet"
kind_of (cluster_role _) = codes "ClusterRole"
kind_of (cluster_role_binding _) = codes "ClusterRoleBinding"
kind_of (config_map _) = codes "ConfigMap"
kind_of (secret _) = codes "Secret"
kind_of (service _) = codes "Service"
kind_of (deployment _) = codes "Deployment"
kind_of (network_policy _) = codes "NetworkPolicy"
kind_of (cluster_network_policy _) = codes "ClusterwideNetworkPolicy"
kind_of (other kind) = kind

-- The kinds whose objects belong to no namespace; a namespace in their metadata is left out of the
-- address.
abbrev pub scope_of : Body → Text → Text
scope_of namespace_body namespace = []
scope_of (cluster_role _) namespace = []
scope_of (cluster_role_binding _) namespace = []
scope_of _ namespace = namespace

unfoldable pub key_of : Object → Key
key_of o = record {
  kind = kind_of o.body;
  namespace = scope_of o.body o.meta.namespace;
  name = o.meta.name;
}

-- An object with only a name, as the program makes it before a call.
abbrev pub blank : Text → Text → Body → Object
blank namespace name body = record {
  meta = record {
    namespace = namespace;
    name = name;
    labels = [];
    annotations = [];
    uid = [];
    finalizers = [];
  };
  body = body;
}

-- The methods of the client that the program calls. A patch names the object that it was made from.
pub record Objects (W E : Type 0) : Type 0 where
  pub get : Key → W → Result E Object
  -- The objects of a kind in a namespace (none: in all) with these labels.
  pub list_all : Text → Option Text → Dict Text Text → W → Result E (List Object)
  pub create : Object → Action W E (Unit {0})
  pub update : Object → Action W E (Unit {0})
  pub patch : Object → Object → Action W E (Unit {0})
  pub delete : Key → Action W E (Unit {0})
  pub is_not_found : E → Bool
