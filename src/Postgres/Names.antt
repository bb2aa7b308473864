-- ===== src/Postgres/Names.antt =====
-- The names that api/v1/postgres_types.go derives for the peripheral resources of a database.
pub mod Bounds
use postgreslet.Prelude.{ℕ, [], ◌∷◌, ◌++◌, take}
use postgreslet.Text.{Text, codes, keep_alnum, to_lower}
use postgreslet.Cluster.{NamespacedName}
use postgreslet.Postgres.Model.{Postgres}

abbrev pub team_id_prefix : Text
team_id_prefix = codes "pg"

module _ (p : Postgres) where
  unfoldable pub to_key : NamespacedName
  to_key = record { namespace = p.namespace; name = p.name }

  unfoldable pub generate_team_id : Text
  generate_team_id = take 16 (to_lower (team_id_prefix ++ keep_alnum p.spec.tenant))

  unfoldable pub generate_database_name : Text
  generate_database_name =
      take 20 (take 15 (to_lower (keep_alnum p.spec.description)) ++ keep_alnum p.name)

  unfoldable pub to_peripheral_resource_name : Text
  to_peripheral_resource_name = generate_team_id ++ (codes "-" ++ generate_database_name)

  unfoldable pub to_peripheral_resource_namespace : Text
  to_peripheral_resource_namespace =
      take 16 (keep_alnum p.spec.project_id) ++ (codes "-" ++ take 20 (keep_alnum p.name))

  unfoldable pub to_shared_svc_lb_name : Text
  to_shared_svc_lb_name = to_peripheral_resource_name ++ codes "-external"

  unfoldable pub to_dedicated_svc_lb_name : Text
  to_dedicated_svc_lb_name = to_peripheral_resource_name ++ codes "-dedicated"

  unfoldable pub to_shared_svc_lb_namespaced_name : NamespacedName
  to_shared_svc_lb_namespaced_name = record {
    namespace = to_peripheral_resource_namespace;
    name = to_shared_svc_lb_name;
  }

  unfoldable pub to_dedicated_svc_lb_namespaced_name : NamespacedName
  to_dedicated_svc_lb_namespaced_name = record {
    namespace = to_peripheral_resource_namespace;
    name = to_dedicated_svc_lb_name;
  }

  unfoldable pub to_peripheral_resource_lookup_key : NamespacedName
  to_peripheral_resource_lookup_key = record {
    namespace = to_peripheral_resource_namespace;
    name = to_peripheral_resource_name;
  }

  unfoldable pub to_user_passwords_secret_name : Text
  to_user_passwords_secret_name = p.name ++ codes "-passwords"

  unfoldable pub to_backup_secret_name : Text
  to_backup_secret_name = p.spec.project_id ++ codes "-backup"

  unfoldable pub to_dns_name : Text → Text
  to_dns_name tls_sub_domain = take 12 (keep_alnum p.name) ++ (codes "." ++ tls_sub_domain)

  unfoldable pub to_standby_cluster_ingress_cwnp_name : Text
  to_standby_cluster_ingress_cwnp_name = to_peripheral_resource_name ++ codes "-standby-ingress"

  unfoldable pub to_standby_cluster_egress_cwnp_name : Text
  to_standby_cluster_egress_cwnp_name = to_peripheral_resource_name ++ codes "-standby-egress"
