-- ===== src/Tests/Balancing.antt =====
-- The manager over a cluster in memory.
use postgreslet.Prelude.{
  ◌+◌, ◌<◌, ◌≤◌, ◌≡◌, ◌≢◌, refl, ap, true, false, none, List, [], ◌∷◌, arith, text_eq, nat_eq,
  length, ◌⊎◌, ◌↔◌,
}
use postgreslet.Text.{Text, codes, keep_alnum, to_lower}
use postgreslet.Dict.{insert}
use postgreslet.Cluster.{Result, ok, err, NamespacedName, Client}
use postgreslet.Cluster.Memory.{MemoryError, not_found, memory, memory-IsLawful}
use postgreslet.Postgres.Model.{
  Postgres, enable_shared_svc_lb, enable_dedicated_svc_lb, disable_load_balancers,
  is_replication_primary_or_standalone,
}
use postgreslet.Postgres.Names.{
  to_shared_svc_lb_namespaced_name, to_dedicated_svc_lb_namespaced_name, generate_team_id,
  generate_database_name, to_peripheral_resource_name, to_peripheral_resource_namespace,
  to_shared_svc_lb_name, to_dedicated_svc_lb_name,
}
use postgreslet.Postgres.Services.{
  Service, ServicePort, svc_load_balancer_label, to_shared_svc_lb, to_dedicated_svc_lb,
  allowed_source_ranges,
}
use postgreslet.Balancer.Socket.{
  Options, BalancerError, next_free_socket, free_port, found, out_of_fuel,
}
use postgreslet.Balancer.Search.{IsSmallestFree, free_port-IsSmallestFree, free_port-ends}
use postgreslet.Balancer.{
  create_or_update_shared_svc_lb, create_or_update_dedicated_svc_lb, dedicated_port,
  reconcile_svc_lbs, delete_dedicated_svc_lb, delete_shared_svc_lb,
}
use postgreslet.Balancer.Reconciling.{IsServiceClient}
use postgreslet.Balancer.Reconciling.Shared.{
  shared_svc_lb-keeps_socket, shared_svc_lb-in_range, shared_svc_lb-fresh_port,
}
use postgreslet.Balancer.Reconciling.Shared.Ranges.{LetsIn, IsGuest, shared_svc_lb-LetsIn}
use postgreslet.Balancer.Reconciling.Both.{
  reconcile_svc_lbs-some, reconcile_svc_lbs-shared, reconcile_svc_lbs-frame,
}
use postgreslet.Tests.Data.{shop, dedicated_shop}

free_port-ends_example : free_port 32000 2147483647 (32000 ∷ []) ≢ out_of_fuel
free_port-ends_example = free_port-ends 32000 2147483647 (32000 ∷ [])

second_port : free_port 32000 8000 (32001 ∷ 32000 ∷ []) ≡ found 32002
unfolding free_port nat_eq
second_port = refl

free_port-IsSmallestFree_example :
    IsSmallestFree 32000 (32000 + 8000) (32000 ∷ []) (free_port 32000 8000 (32000 ∷ []))
free_port-IsSmallestFree_example = free_port-IsSmallestFree 32000 8000 (32000 ∷ []) (omega arith)

abbrev options : Options
options = record {
  lb_ip = [];
  port_range_start = 32000;
  port_range_size = 8000;
  enable_standby_leader_selector = true;
  enable_legacy_standby_selector = false;
  standby_clusters_source_ranges = [];
  enable_lb_source_ranges = true;
  enable_force_shared_ip = false;
}

abbrev client : Client (List Service) MemoryError Service
client = memory (λ svc. record { namespace = svc.namespace; name = svc.name }) (λ svc. svc.labels)

client-IsServiceClient : IsServiceClient client
unfolding memory
client-IsServiceClient = record {
  laws = memory-IsLawful _ _;
  key_of_lem = λ svc. refl;
  labels_of_lem = λ svc. refl;
}

-- A service of another database that is managed and uses the first port.
abbrev neighbour : Service
neighbour = record {
  namespace = codes "a-b";
  name = codes "pgx-external";
  labels = svc_load_balancer_label;
  annotations = [];
  spec = record {
    service_type = codes "LoadBalancer";
    external_traffic_policy = [];
    load_balancer_source_ranges = [];
    ports =
        record {
          name = codes "postgresql";
          port = 32000;
          protocol = codes "TCP";
          target_port = 5432;
        }
        ∷ [];
    selector = [];
    load_balancer_ip = codes "10.0.0.1";
  };
  ingress = none;
}

abbrev neighbour_key : NamespacedName
neighbour_key = record { namespace = codes "a-b"; name = codes "pgx-external" }

-- All that a run of the two steps computes with.
run : Postgres → List Service → Result (BalancerError MemoryError) (Unit {0}) × List Service
unfolding reconcile_svc_lbs create_or_update_shared_svc_lb create_or_update_dedicated_svc_lb
    delete_shared_svc_lb delete_dedicated_svc_lb dedicated_port next_free_socket memory
    enable_shared_svc_lb enable_dedicated_svc_lb to_shared_svc_lb_namespaced_name
    to_shared_svc_lb_name to_dedicated_svc_lb_namespaced_name to_dedicated_svc_lb_name
    to_peripheral_resource_namespace to_peripheral_resource_name generate_team_id
    generate_database_name keep_alnum to_lower to_shared_svc_lb to_dedicated_svc_lb
    allowed_source_ranges disable_load_balancers is_replication_primary_or_standalone insert text_eq
    nat_eq
run p w = reconcile_svc_lbs client options p w

abbrev before : List Service
before = neighbour ∷ []

abbrev after_shared : List Service
after_shared = (create_or_update_shared_svc_lb client options shop before).1

abbrev after_both : List Service
after_both = (run shop before).1

abbrev after_dedicated : List Service
after_dedicated = (create_or_update_dedicated_svc_lb client options dedicated_shop before).1

abbrev shop_service : Service
shop_service = elim (client.get (to_shared_svc_lb_namespaced_name shop) after_shared) [
  | ok svc ↦ svc
  | err _ ↦ neighbour
]

abbrev first_of : Service → ServicePort
first_of svc = elim svc.spec.ports [
  | [] ↦ record { name = []; port = 0; protocol = []; target_port = 0 }
  | port ∷ _ ↦ port
]

runs_of_shop :
    (create_or_update_shared_svc_lb client options shop before ≡ (ok tt, after_shared))
    × (run shop before ≡ (ok tt, after_shared))
    × ((first_of shop_service).port ≡ 32001)
    × (shop_service.spec.load_balancer_ip ≡ codes "10.0.0.1")
    × (length after_shared ≡ 2)
unfolding run
runs_of_shop = (refl, refl, refl, refl, refl)

-- The socket of the shop stays when it is reconciled again.
shared_svc_lb-keeps_socket_example :
    (svc : Service) × (client.get
        (to_shared_svc_lb_namespaced_name shop)
        (create_or_update_shared_svc_lb client options shop after_shared).1
      ≡ ok svc)
    × (svc.spec.ports ≡ shop_service.spec.ports)
    × (svc.spec.load_balancer_ip ≡ shop_service.spec.load_balancer_ip)
    × (svc.spec.service_type ≡ shop_service.spec.service_type)
    × (svc.labels ≡ shop_service.labels)
unfolding run
shared_svc_lb-keeps_socket_example =
    shared_svc_lb-keeps_socket client client-IsServiceClient options shop shop_service after_shared
      refl refl refl

shared_svc_lb-LetsIn_example :
    (svc : Service) × (client.get (to_shared_svc_lb_namespaced_name shop) after_shared ≡ ok svc)
    × ((range : Text) → LetsIn svc range ↔ IsGuest options shop range)
unfolding run
shared_svc_lb-LetsIn_example =
    shared_svc_lb-LetsIn client client-IsServiceClient options shop before refl refl

shared_svc_lb-in_range_example :
    (svc : Service) × (port : ServicePort) × (client.get
        (to_shared_svc_lb_namespaced_name shop)
        after_shared
      ≡ ok svc)
    × (svc.spec.ports ≡ port ∷ [])
    × (32000 ≤ port.port)
    × (port.port < 32000 + 8000)
unfolding run
shared_svc_lb-in_range_example =
    shared_svc_lb-in_range client client-IsServiceClient options shop before not_found before refl
      refl refl (omega arith) (omega arith) refl refl

other_key : to_shared_svc_lb_namespaced_name shop ≢ neighbour_key
unfolding to_shared_svc_lb_namespaced_name to_shared_svc_lb_name to_peripheral_resource_namespace
    to_peripheral_resource_name generate_team_id generate_database_name keep_alnum to_lower
other_key e = ground (arith, ap (λ (k : NamespacedName). length k.name) e)

shared_svc_lb-fresh_port_example : 32000 ≢ (first_of shop_service).port
unfolding run
shared_svc_lb-fresh_port_example =
    shared_svc_lb-fresh_port client client-IsServiceClient options shop before not_found before refl
      refl refl (omega arith) (omega arith) refl refl neighbour_key shop_service neighbour
      (first_of shop_service) (first_of neighbour) [] [] refl refl other_key refl refl refl

reconcile_svc_lbs-shared_example :
    (svc : Service) × (client.get (to_shared_svc_lb_namespaced_name shop) after_both ≡ ok svc)
unfolding run
reconcile_svc_lbs-shared_example =
    reconcile_svc_lbs-shared client client-IsServiceClient options shop before refl refl

other_dedicated_key : to_dedicated_svc_lb_namespaced_name shop ≢ neighbour_key
unfolding to_dedicated_svc_lb_namespaced_name to_dedicated_svc_lb_name
    to_peripheral_resource_namespace to_peripheral_resource_name generate_team_id
    generate_database_name keep_alnum to_lower
other_dedicated_key e = ground (arith, ap (λ (k : NamespacedName). length k.name) e)

reconcile_svc_lbs-frame_example :
    client.get neighbour_key after_both ≡ client.get neighbour_key before
unfolding run
reconcile_svc_lbs-frame_example =
    reconcile_svc_lbs-frame client client-IsServiceClient options shop neighbour_key before
      other_key other_dedicated_key refl

reconcile_svc_lbs-some_example :
    (svc : Service) × ((client.get (to_shared_svc_lb_namespaced_name shop) after_both ≡ ok svc)
      ⊎ (client.get (to_dedicated_svc_lb_namespaced_name shop) after_both ≡ ok svc))
unfolding run
reconcile_svc_lbs-some_example =
    reconcile_svc_lbs-some client client-IsServiceClient options shop before refl
