-- ===== src/Tests/Status.antt =====
-- A reconciliation of the status over clusters in memory.
use postgreslet.Prelude.{◌≡◌, refl, ap, ◌∙◌, false, Option, none, some, List, [], ◌∷◌, text_eq}
use postgreslet.Text.{Text, codes, keep_alnum, to_lower}
use postgreslet.Dict.{lookup, insert}
use postgreslet.Cluster.{Result, ok, err, Action, NamespacedName, Client}
use postgreslet.Cluster.Memory.{MemoryError, memory, memory-IsLawful}
use postgreslet.Postgres.Model.{Postgres, Socket, enable_dedicated_svc_lb}
use postgreslet.Postgres.Names.{
  to_key, to_shared_svc_lb_namespaced_name, to_shared_svc_lb_name,
  to_dedicated_svc_lb_namespaced_name, to_dedicated_svc_lb_name, to_peripheral_resource_name,
  to_peripheral_resource_namespace, generate_team_id, generate_database_name,
}
use postgreslet.Postgres.Services.{Service, svc_load_balancer_label}
use postgreslet.Postgres.Secrets.{
  Secret, value_of, name_label_name, to_user_passwords_secret, last_password,
  lookup-to_user_passwords_secret, add_passwords,
}
use postgreslet.Status.Sockets.{main_service, published, status_of, first_socket, usable}
use postgreslet.Status.{
  Postgresql, StatusCluster, StatusReconciler, StatusError, Outcome, finished, derive_owner_name,
  refresh_status, publish_sockets, reconcile_status,
}
use postgreslet.Status.Refreshing.{IsStatusCluster}
use postgreslet.Status.Reconciling.{reconcile_status-UpToDate}
use postgreslet.Tests.Data.{shop}

record World : Type 0 where
  source : Postgresql
  services : List Service
  owners : List Postgres
  copied : List Secret

service_client : Client (List Service) MemoryError Service
unfolding memory
service_client = memory (λ svc. record { namespace = svc.namespace; name = svc.name }) (λ svc. [])

owner_client : Client (List Postgres) MemoryError Postgres
unfolding memory
owner_client = memory (λ o. record { namespace = o.namespace; name = o.name }) (λ o. [])

-- At most one more call.
again :
    Action (World × Postgres) MemoryError (Unit {0})
    → Result MemoryError (Unit {0})
    → Action (World × Postgres) MemoryError (Unit {0})
again f (ok _) s = (ok tt, s)
again f (err e) s = f s

again-ok :
    (f : Action (World × Postgres) MemoryError (Unit {0})) (kept : World × Postgres → Type 0)
    (result : Result MemoryError (Unit {0})) (s t : World × Postgres) {s' : World × Postgres}
    → f s ≡ (result, t)
    → kept s
    → kept t
    → again f result t ≡ (ok tt, s')
    → (u : World × Postgres) × kept u × (f u ≡ (ok tt, s'))
unfolding again
again-ok f kept (ok tt) s t first before after done = (s, before, first ∙ done)
again-ok f kept (err e) s t first before after done = (t, after, done)

abbrev passwords : List Secret
passwords =
    record {
      namespace = [];
      name = codes "a";
      labels = [];
      data_of = (codes "username", codes "postgres") ∷ (codes "password", codes "p1") ∷ [];
    }
    ∷ record {
      namespace = [];
      name = codes "b";
      labels = [];
      data_of = (codes "username", codes "standby") ∷ (codes "password", codes "p2") ∷ [];
    }
    ∷ []

cluster : StatusCluster World MemoryError
unfolding service_client owner_client again
cluster = record {
  get_postgresql = λ _ w. ok w.source;
  get_service = λ k w. service_client.get k w.services;
  list_secrets = λ _ _ _. ok passwords;
  get_owner = λ k w. owner_client.get k w.owners;
  update_status =
      λ o w. let (r, owners) = owner_client.update o w.owners in (r, record w { owners = owners });
  create_or_update_secret = λ s w. (ok tt, record w { copied = s ∷ w.copied });
  is_not_found = owner_client.is_not_found;
  retry_on_conflict = λ f s. let (r, t) = f s in again f r t;
}

abbrev updated :
    Result MemoryError (Unit {0}) → List Postgres → Result MemoryError (Unit {0}) × List Postgres
updated r owners = (r, owners)

cluster-IsStatusCluster : IsStatusCluster cluster
unfolding cluster owner_client to_key
cluster-IsStatusCluster = record {
  get-update = λ o {w} {w'} done.
      (memory-IsLawful _ (λ _. [])).get-update_self o
        (ap (λ (t : Result MemoryError (Unit {0}) × World). updated t.0 t.1.owners) done);
  service-update = λ o k w. refl;
  get-secret = λ s k w. refl;
  service-secret = λ s k w. refl;
  key-get = λ k o w there. (memory-IsLawful _ (λ _. [])).key_of-get k o w.owners there;
  retry-ok = λ f kept s before keeps done.
      again-ok f kept (f s).0 s (f s).1 refl before (keeps s before) done;
}

abbrev reconciler : StatusReconciler
reconciler = record { control_plane_namespace = codes "metal"; enable_force_shared_ip = false }

abbrev source_of_shop : Postgresql
source_of_shop = record {
  name = codes "pg-shop";
  labels = (name_label_name, codes "3f9c-77ab") ∷ [];
  cluster_status = codes "Running";
}

abbrev shop_service : Service
shop_service = record {
  namespace = to_peripheral_resource_namespace shop;
  name = to_shared_svc_lb_name shop;
  labels = svc_load_balancer_label;
  annotations = [];
  spec = record {
    service_type = codes "LoadBalancer";
    external_traffic_policy = [];
    load_balancer_source_ranges = [];
    ports =
        record {
          name = codes "postgresql";
          port = 32007;
          protocol = codes "TCP";
          target_port = 5432;
        }
        ∷ [];
    selector = [];
    load_balancer_ip = codes "10.0.0.1";
  };
  ingress = none;
}

abbrev world : World
world = record {
  source = source_of_shop;
  services = shop_service ∷ [];
  owners = shop ∷ [];
  copied = [];
}

abbrev any_key : NamespacedName
any_key = record { namespace = []; name = [] }

run : World → Result (StatusError MemoryError) Outcome × World
unfolding cluster reconcile_status refresh_status publish_sockets derive_owner_name status_of
    first_socket usable enable_dedicated_svc_lb lookup insert text_eq to_key
    to_shared_svc_lb_namespaced_name to_shared_svc_lb_name to_dedicated_svc_lb_namespaced_name
    to_dedicated_svc_lb_name to_peripheral_resource_name to_peripheral_resource_namespace
    generate_team_id generate_database_name keep_alnum to_lower to_user_passwords_secret
    add_passwords
run w = reconcile_status cluster reconciler any_key w

abbrev after : World
after = (run world).1

abbrev socket_of : List Postgres → Option Socket
socket_of [] = none
socket_of (o ∷ _) = some o.status.socket

runs :
    (run world ≡ (ok finished, after))
    × (socket_of after.owners ≡ some (record { ip = codes "10.0.0.1"; port = 32007 }))
unfolding run
runs = (refl, refl)

abbrev shop_key : NamespacedName
shop_key = record { namespace = codes "metal"; name = codes "3f9c-77ab" }

-- What the theorem says of an owner.
abbrev IsPublished : Text → Postgres → Type 0
IsPublished name o =
    (cluster.get_owner (record { namespace = codes "metal"; name = name }) after ≡ ok o)
    × (o.status.description ≡ codes "Running")
    × (o.status.child_name ≡ codes "pg-shop")
    × (published (
          main_service false o (cluster.get_service (to_shared_svc_lb_namespaced_name o) after)
            (cluster.get_service (to_dedicated_svc_lb_namespaced_name o) after))
        ≡ some o.status.socket)

reconcile_status-UpToDate_example :
    (name : Text) × (derive_owner_name source_of_shop ≡ some name)
    × ((o : Postgres) × IsPublished name o)
unfolding run
reconcile_status-UpToDate_example =
    reconcile_status-UpToDate cluster cluster-IsStatusCluster reconciler any_key source_of_shop
      finished world refl refl

lookup-to_user_passwords_secret_example :
    lookup (codes "standby") (to_user_passwords_secret shop passwords).data_of ≡ some (codes "p2")
unfolding last_password value_of text_eq lookup
lookup-to_user_passwords_secret_example =
    lookup-to_user_passwords_secret shop passwords (codes "standby")
