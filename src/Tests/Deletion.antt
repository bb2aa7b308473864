-- ===== src/Tests/Deletion.antt =====
-- The deletion of a database over clusters in memory.
use postgreslet.Prelude.{
  ◌≡◌, ◌⊎◌, refl, true, false, Option, none, some, List, [], ◌∷◌, text_eq, nat_eq,
}
use postgreslet.Text.{Text, codes, keep_alnum, to_lower}
use postgreslet.Cluster.{ok, err, Client}
use postgreslet.Cluster.Memory.{MemoryError, not_found}
use postgreslet.Kube.{
  Object, key_of, blank, namespace_body, stateful_set, deployment, cluster_role_binding, service,
}
use postgreslet.Kube.Memory.{memory, memory-IsObjects}
use postgreslet.Postgres.Model.{Postgres, remove_finalizer}
use postgreslet.Postgres.Names.{
  generate_team_id, generate_database_name, to_peripheral_resource_name,
  to_peripheral_resource_namespace, to_user_passwords_secret_name,
  to_standby_cluster_ingress_cwnp_name, to_standby_cluster_egress_cwnp_name, to_shared_svc_lb_name,
  to_dedicated_svc_lb_name, to_shared_svc_lb_namespaced_name, to_dedicated_svc_lb_namespaced_name,
}
use postgreslet.Postgres.Secrets.{to_zalando_postgresql_matching_labels}
use postgreslet.Postgres.Services.{Service}
use postgreslet.Balancer.{delete_shared_svc_lb, delete_dedicated_svc_lb}
use postgreslet.Balancer.Socket.{Options}
use postgreslet.Policies.Firewall.{delete_cwnp}
use postgreslet.Operator.Uninstall.{
  is_operator_deletable, uninstall_operator, uninstall_object, remove_subjects,
}
use postgreslet.Controller.{
  done, requeue, Control, delete_z_postgresql_by_labels, delete_net_pol,
  remove_storage_encryption_secret_finalizer, delete_peripherals, delete_in_service_cluster,
  reconcile_deletion,
}
use postgreslet.Controller.Deletion.{IsOneClient, service_key}
use postgreslet.Controller.Completion.{IsUnreachable, IsUninstalled}
use postgreslet.Controller.Finalizer.{terminating, reconcile_deletion-requeue}
use postgreslet.Controller.Ending.{Stops, Finishes, reconcile_deletion-order}
use postgreslet.Tests.Data.{shop}
use postgreslet.Tests.Operator.{documents}

abbrev services : Client (List Object) MemoryError Service
services = record {
  key_of = λ svc. record { namespace = svc.namespace; name = svc.name };
  labels_of = λ svc. svc.labels;
  get = λ _ _. err not_found;
  list_all = λ _ _. ok [];
  create = λ _ w. (ok tt, w);
  update = λ _ w. (ok tt, w);
  delete = λ n. memory.delete (service_key n);
  is_not_found = memory.is_not_found;
}

one_client : IsOneClient memory services
one_client = record { delete_lem = λ n w. refl; is_not_found_lem = λ e. refl }

-- The resource as it was last written.
abbrev control : Control (Option Postgres) MemoryError
control = record {
  get = λ _ c. elim c [ none ↦ err not_found | some p ↦ ok p ];
  update_status = λ p _. (ok tt, some p);
  update = λ p _. (ok tt, some p);
  delete_secret = λ _ c. (ok tt, c);
  is_not_found = memory.is_not_found;
}

abbrev options : Options
options = record {
  lb_ip = [];
  port_range_start = 32000;
  port_range_size = 8000;
  enable_standby_leader_selector = true;
  enable_legacy_standby_selector = false;
  standby_clusters_source_ranges = [];
  enable_lb_source_ranges = true;
  enable_force_shared_ip = false;
}

abbrev namespace : Text
namespace = codes "b621eb994888-3f9c77ab"

abbrev idle : List Object
idle =
    blank [] namespace namespace_body
    ∷ blank namespace (codes "op") (deployment [])
    ∷ blank [] (codes "op") (cluster_role_binding [])
    ∷ blank namespace (codes "postgres-exporter") (service [])
    ∷ []

abbrev after_deletion : Option Postgres × List Object
after_deletion =
    (reconcile_deletion memory services options (codes "firewall") control documents shop
      (some shop, idle)).1

deletion_done :
    reconcile_deletion memory services options
      (codes "firewall")
      control
      documents
      shop
      (some shop, idle)
    ≡ (ok done, after_deletion)
unfolding reconcile_deletion delete_in_service_cluster delete_peripherals
    remove_storage_encryption_secret_finalizer delete_net_pol delete_z_postgresql_by_labels
    is_operator_deletable uninstall_operator uninstall_object remove_subjects delete_cwnp
    delete_shared_svc_lb delete_dedicated_svc_lb memory key_of text_eq nat_eq remove_finalizer
    to_user_passwords_secret_name to_standby_cluster_ingress_cwnp_name
    to_standby_cluster_egress_cwnp_name to_shared_svc_lb_name to_dedicated_svc_lb_name
    to_shared_svc_lb_namespaced_name to_dedicated_svc_lb_namespaced_name generate_team_id
    generate_database_name to_peripheral_resource_name to_peripheral_resource_namespace keep_alnum
    to_lower to_zalando_postgresql_matching_labels
deletion_done = refl

reconcile_deletion-order_example :
    Stops memory memory-IsObjects services one_client options
      (codes "firewall")
      documents
      control
      (some (terminating shop))
      after_deletion.0
      (ok done)
    ⊎ (IsUnreachable memory memory-IsObjects services one_client options
          (codes "firewall")
          (terminating shop)
          after_deletion.1
        × IsUninstalled memory memory-IsObjects services one_client options
            (codes "firewall")
            documents
            (to_peripheral_resource_namespace (terminating shop))
            after_deletion.1
        × Finishes memory memory-IsObjects services one_client options
            (codes "firewall")
            documents
            control
            (terminating shop)
            (some (terminating shop))
            after_deletion.0
            (ok done))
reconcile_deletion-order_example =
    reconcile_deletion-order memory memory-IsObjects services one_client options (codes "firewall")
      documents control shop (some shop) after_deletion.0 idle after_deletion.1 (ok done)
      deletion_done

abbrev busy : List Object
busy = blank namespace (codes "pg") stateful_set ∷ idle

abbrev postponed : Option Postgres × List Object
postponed =
    (reconcile_deletion memory services options (codes "firewall") control documents shop
      (some shop, busy)).1

deletion_postponed :
    reconcile_deletion memory services options
      (codes "firewall")
      control
      documents
      shop
      (some shop, busy)
    ≡ (ok requeue, postponed)
unfolding reconcile_deletion delete_in_service_cluster delete_peripherals
    remove_storage_encryption_secret_finalizer delete_net_pol delete_z_postgresql_by_labels
    is_operator_deletable uninstall_operator uninstall_object remove_subjects delete_cwnp
    delete_shared_svc_lb delete_dedicated_svc_lb memory key_of text_eq nat_eq remove_finalizer
    to_user_passwords_secret_name to_standby_cluster_ingress_cwnp_name
    to_standby_cluster_egress_cwnp_name to_shared_svc_lb_name to_dedicated_svc_lb_name
    to_shared_svc_lb_namespaced_name to_dedicated_svc_lb_namespaced_name generate_team_id
    generate_database_name to_peripheral_resource_name to_peripheral_resource_namespace keep_alnum
    to_lower to_zalando_postgresql_matching_labels
deletion_postponed = refl

reconcile_deletion-requeue_example :
    control.update_status (terminating shop) (some shop) ≡ (ok tt, postponed.0)
reconcile_deletion-requeue_example =
    reconcile_deletion-requeue memory memory-IsObjects services one_client options
      (codes "firewall") documents control shop (some shop) postponed.0 busy postponed.1
      deletion_postponed
