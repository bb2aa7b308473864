-- ===== src/Postgres/Services.antt =====
-- The services of type LoadBalancer that api/v1/postgres_types.go derives from a database.
pub mod Selection
use postgreslet.Prelude.{
  ℕ, Bool, true, false, Option, none, some, List, [], ◌∷◌, ◌++◌, text_eq, if◌then◌else◌,
}
use postgreslet.Text.{Text, codes}
use postgreslet.Dict.{Dict, insert}
use postgreslet.Postgres.Model.{
  Postgres, source_ranges, is_replication_primary_or_standalone, disable_load_balancers,
}
use postgreslet.Postgres.Names.{
  generate_team_id, to_peripheral_resource_name, to_peripheral_resource_namespace,
  to_shared_svc_lb_name, to_dedicated_svc_lb_name,
}

pub record ServicePort : Type 0 where
  pub name : Text
  -- An `int32`, as its bit pattern.
  pub port : ℕ
  pub protocol : Text
  pub target_port : ℕ

-- The fields of a `corev1.ServiceSpec` that the program reads or writes.
pub record ServiceSpec : Type 0 where
  pub service_type : Text
  pub external_traffic_policy : Text
  pub load_balancer_source_ranges : List Text
  pub ports : List ServicePort
  pub selector : Dict Text Text
  pub load_balancer_ip : Text

pub record Service : Type 0 where
  pub namespace : Text
  pub name : Text
  pub labels : Dict Text Text
  pub annotations : Dict Text Text
  pub spec : ServiceSpec
  -- `Status.LoadBalancer.Ingress`; a nil slice is `none`.
  pub ingress : Option (List Text)

abbrev pub application_label_name : Text
application_label_name = codes "application"

abbrev pub cluster_name_label_name : Text
cluster_name_label_name = codes "cluster-name"

abbrev pub team_label_name : Text
team_label_name = codes "team"

abbrev pub spilo_role_label_name : Text
spilo_role_label_name = codes "spilo-role"

abbrev pub statefulset_pod_name_label_name : Text
statefulset_pod_name_label_name = codes "statefulset.kubernetes.io/pod-name"

abbrev pub selector_disable_value : Text
selector_disable_value = codes "selector-disabled"

abbrev pub svc_load_balancer_label : Dict Text Text
svc_load_balancer_label =
    (codes "postgres.database.fits.cloud/managed-by", codes "postgreslet") ∷ []

-- The ranges that may reach the database; none at all are written as a range that blocks.
abbrev pub or_block : List Text → List Text
or_block [] = codes "255.255.255.255/32" ∷ []
or_block (r ∷ rs) = r ∷ rs

unfoldable pub allowed_source_ranges : Postgres → List Text → List Text
allowed_source_ranges p standby =
    or_block (elim (source_ranges p) [ none ↦ [] | some rs ↦ rs ] ++ standby)

postgresql_port : ℕ → ServicePort
postgresql_port lb_port = record {
  name = codes "postgresql";
  port = lb_port;
  protocol = codes "TCP";
  target_port = 5432;
}

-- The three entries that both selectors start from, and the switch that takes the service off.
base_selector : Postgres → Dict Text Text
base_selector p =
    (application_label_name, codes "spilo")
    ∷ (cluster_name_label_name, to_peripheral_resource_name p)
    ∷ (team_label_name, generate_team_id p)
    ∷ []

disable_selector : Postgres → Dict Text Text → Dict Text Text
disable_selector p selector =
    if disable_load_balancers p
    then insert cluster_name_label_name selector_disable_value selector
    else selector

select_role : Text → Dict Text Text → Dict Text Text
select_role role = insert spilo_role_label_name role

select_first_pod : Postgres → Dict Text Text → Dict Text Text
select_first_pod p =
    insert statefulset_pod_name_label_name (to_peripheral_resource_name p ++ codes "-0")

shared_selector : Postgres → Bool → Bool → Dict Text Text
unfolding base_selector disable_selector select_role select_first_pod
shared_selector p enable_standby_leader_selector enable_legacy_standby_selector =
    disable_selector p (
      if is_replication_primary_or_standalone p
      then select_role (codes "master") (base_selector p)
      else if enable_standby_leader_selector
      then select_role (codes "standby_leader") (base_selector p)
      else if enable_legacy_standby_selector
      then select_role (codes "master") (base_selector p)
      else select_first_pod p (base_selector p))

dedicated_selector : Postgres → Dict Text Text
unfolding base_selector disable_selector select_role select_first_pod
dedicated_selector p = disable_selector p (
    if is_replication_primary_or_standalone p
    then select_role (codes "master") (base_selector p)
    else select_first_pod p (base_selector p))

unfoldable pub to_shared_svc_lb : Postgres → Text → ℕ → Bool → Bool → List Text → Service
unfolding postgresql_port shared_selector
to_shared_svc_lb p lb_ip lb_port standby_leader legacy_standby standby_ranges = record {
  namespace = to_peripheral_resource_namespace p;
  name = to_shared_svc_lb_name p;
  labels = svc_load_balancer_label;
  annotations = (codes "metallb.universe.tf/allow-shared-ip", codes "spilo") ∷ [];
  spec = record {
    service_type = codes "LoadBalancer";
    external_traffic_policy = [];
    load_balancer_source_ranges = allowed_source_ranges p standby_ranges;
    ports = postgresql_port lb_port ∷ [];
    selector = shared_selector p standby_leader legacy_standby;
    load_balancer_ip = lb_ip;
  };
  ingress = none;
}

unfoldable pub to_dedicated_svc_lb : Postgres → Text → ℕ → List Text → Bool → Service
unfolding postgresql_port dedicated_selector
to_dedicated_svc_lb p lb_ip lb_port standby_ranges shared_svc_lb_also_enabled = record {
  namespace = to_peripheral_resource_namespace p;
  name = to_dedicated_svc_lb_name p;
  labels = svc_load_balancer_label;
  annotations = [];
  spec = record {
    service_type = codes "LoadBalancer";
    external_traffic_policy = codes "Local";
    load_balancer_source_ranges = allowed_source_ranges p standby_ranges;
    ports = postgresql_port lb_port ∷ [];
    selector = dedicated_selector p;
    load_balancer_ip = lb_ip;
  };
  ingress = none;
}
