-- ===== src/Controller/Completion.antt =====
-- The deletion of a database as a whole: what is reached when its finalizer goes.
use postgreslet.Prelude.{◌≡◌, Bool, true, false, [], ◌∷◌, ◌⊎◌, arith}
use postgreslet.Text.{Text}
use postgreslet.Cluster.{ok, pure, ◌>>=◌, or_else_fail, Client}
use postgreslet.Cluster.Actions.{world, bind-ok, or_else_fail-success, Keeps, Keeps-or_else_fail}
use postgreslet.Kube.{Key, key_of, Objects}
use postgreslet.Kube.Laws.{IsObjects}
use postgreslet.Postgres.Model.{Postgres}
use postgreslet.Postgres.Names.{
  to_peripheral_resource_name, to_peripheral_resource_namespace, to_shared_svc_lb_namespaced_name,
  to_standby_cluster_ingress_cwnp_name, to_standby_cluster_egress_cwnp_name,
  to_dedicated_svc_lb_namespaced_name,
}
use postgreslet.Postgres.Secrets.{to_zalando_postgresql_matching_labels}
use postgreslet.Postgres.Services.{Service}
use postgreslet.Balancer.{delete_shared_svc_lb, delete_dedicated_svc_lb}
use postgreslet.Balancer.Deleting.{
  delete_shared_svc_lb-IsDeleted, delete_dedicated_svc_lb-IsDeleted,
}
use postgreslet.Balancer.Socket.{Options}
use postgreslet.Policies.Firewall.{delete_cwnp, policy_key}
use postgreslet.Operator.Install.{Documents, namespace_object, pod_env_config_map}
use postgreslet.Operator.Uninstall.{is_operator_deletable, uninstall_operator}
use postgreslet.Operator.Install.Frame.{InDocuments}
use postgreslet.Operator.Install.Writes.{key_in}
use postgreslet.Operator.Uninstall.Completeness.{Stopped, uninstall_operator_reaches}
use postgreslet.Operator.Uninstall.Deletions.{is_shared}
use postgreslet.Operator.Uninstall.Writes.{uninstall-Keeps, is_operator_deletable-Keeps}
use postgreslet.Controller.{
  api, operator, done, ignoring_not_found, delete_z_postgresql_by_labels, delete_net_pol,
  remove_storage_encryption_secret_finalizer, delete_peripherals, exporter_service_key,
  uninstall_if, delete_in_service_cluster,
}
use postgreslet.Controller.Deletion.{
  service_key, IsOneClient, Makes, Makes-run_all, ignoring-Makes, balancer-Makes, later-Keeps,
}

module _ {W E : Type 0} (objects : Objects W E) {Doomed : Key → W → Type 0}
    (laws : IsObjects objects Doomed) (services : Client W E Service)
    (one : IsOneClient objects services) (options : Options) (cwnp_namespace : Text) where
  -- What makes a database reachable from outside is gone or going.
  abbrev pub IsUnreachable : Postgres → W → Type 0
  IsUnreachable p w =
      Doomed (policy_key objects cwnp_namespace (to_peripheral_resource_name p)) w
      × Doomed (service_key (to_shared_svc_lb_namespaced_name p)) w
      × Doomed (service_key (to_dedicated_svc_lb_namespaced_name p)) w
      × Doomed (exporter_service_key (to_peripheral_resource_namespace p)) w

  cwnp-Makes :
      (p : Postgres)
      → Makes
          (Doomed (policy_key objects cwnp_namespace (to_peripheral_resource_name p)))
          (ignoring_not_found objects.is_not_found (delete_cwnp objects cwnp_namespace p))
  unfolding delete_cwnp
  cwnp-Makes p w w' a h =
      let w1 =
        (objects.delete (policy_key objects cwnp_namespace (to_standby_cluster_ingress_cwnp_name p))
          w).1 in
      let w2 =
        (objects.delete (policy_key objects cwnp_namespace (to_standby_cluster_egress_cwnp_name p))
          w1).1 in
      ignoring-Makes objects laws
        (policy_key objects cwnp_namespace (to_peripheral_resource_name p)) w2 w' a h

  peripherals-Doomed :
      (p : Postgres)
      → Makes (IsUnreachable p) (delete_peripherals objects services options cwnp_namespace p)
  unfolding delete_peripherals
  peripherals-Doomed p w w' a h =
      let later = λ (k : Key). later-Keeps objects laws services one options cwnp_namespace k p in
      let namespace = to_peripheral_resource_namespace p in
      let policy = policy_key objects cwnp_namespace (to_peripheral_resource_name p) in
      let shared = service_key (to_shared_svc_lb_namespaced_name p) in
      let dedicated = service_key (to_dedicated_svc_lb_namespaced_name p) in
      let exporter = exporter_service_key namespace in
      let cwnp = ignoring_not_found objects.is_not_found (delete_cwnp objects cwnp_namespace p) in
      let first = delete_shared_svc_lb services options p in
      let second = delete_dedicated_svc_lb services options p in
      let third = ignoring_not_found objects.is_not_found (objects.delete exporter) in
      let rest =
        delete_z_postgresql_by_labels objects services options cwnp_namespace
          (to_zalando_postgresql_matching_labels p) namespace
        ∷ delete_net_pol objects services options cwnp_namespace p
        ∷ remove_storage_encryption_secret_finalizer objects services options cwnp_namespace p
        ∷ [] in
      (
        Makes-run_all (Doomed policy) [] cwnp (first ∷ second ∷ third ∷ rest) (cwnp-Makes p)
            (later policy) w w' a h,
        Makes-run_all (Doomed shared) (cwnp ∷ []) first (second ∷ third ∷ rest)
            (λ u u' b e.
              balancer-Makes objects laws services one options cwnp_namespace shared
                (to_shared_svc_lb_namespaced_name p) u u'
                (delete_shared_svc_lb-IsDeleted services options p u u' b e))
            (later shared).1 w w' a h,
        Makes-run_all (Doomed dedicated) (cwnp ∷ first ∷ []) second (third ∷ rest)
            (λ u u' b e.
              balancer-Makes objects laws services one options cwnp_namespace dedicated
                (to_dedicated_svc_lb_namespaced_name p) u u'
                (delete_dedicated_svc_lb-IsDeleted services options p u u' b e))
            (later dedicated).1.1 w w' a h,
        Makes-run_all (Doomed exporter) (cwnp ∷ first ∷ second ∷ []) third rest
            (ignoring-Makes objects laws exporter) (later exporter).1.1.1 w w' a h,
      )

  deletable-Keeps :
      (P : W → Type 0) (namespace name : Text)
      → Keeps P (or_else_fail (is_operator_deletable objects namespace name) operator)
  deletable-Keeps P namespace name =
      Keeps-or_else_fail P (is_operator_deletable objects namespace name) operator
        (is_operator_deletable-Keeps objects P namespace name)

  module _ (documents : Documents) where
    -- The operator and its namespace are gone or going, or the removal has met a document whose object
    -- was not there.
    abbrev pub IsUninstalled : Text → W → Type 0
    IsUninstalled namespace w =
        (Doomed (key_of (namespace_object namespace)) w
          × Doomed (key_of (pod_env_config_map namespace)) w
          × InDocuments documents
              (λ o. is_shared o.body ≡ false → Doomed (key_in namespace o o.body) w))
        ⊎ Stopped objects documents namespace documents.items w

    uninstall-stays_doomed :
        (k : Key) (namespace : Text)
        → Keeps (Doomed k) (uninstall_operator objects documents namespace)
    uninstall-stays_doomed k namespace =
        uninstall-Keeps objects namespace (Doomed k)
          (λ j e u u' failed missing. (laws.delete-missing j e failed missing).0)
          (λ j _ u u' _ d p. laws.Doomed-delete j k d p)
          (λ base o _ u u' _ d p. laws.Doomed-patch base o k d p) documents

    uninstalled :
        (p : Postgres) (namespace : Text) (deletable : Bool) (w w' : W)
        → uninstall_if objects services options cwnp_namespace documents namespace deletable w
          ≡ (ok done, w')
        → IsUnreachable p w
        → IsUnreachable p w' × IsUninstalled namespace w'
    unfolding uninstall_if
    uninstalled p namespace false w w' h before = ground arith
    uninstalled p namespace true w w' h (policy, shared, dedicated, exporter) =
        let (a, v, first, last) =
          bind-ok (or_else_fail (uninstall_operator objects documents namespace) operator)
            (λ _. pure done) w w' done h in
        let same = world last in
        let gone =
          or_else_fail-success operator (uninstall_operator objects documents namespace) w v a
            first in
        let keep = λ (k : Key) (d : Doomed k w). uninstall-stays_doomed k namespace w v a gone d in
        (
          (
            rw same at
                (keep (policy_key objects cwnp_namespace (to_peripheral_resource_name p)) policy),
            rw same at (keep (service_key (to_shared_svc_lb_namespaced_name p)) shared),
            rw same at (keep (service_key (to_dedicated_svc_lb_namespaced_name p)) dedicated),
            rw same at (keep (exporter_service_key (to_peripheral_resource_namespace p)) exporter),
          ),
          rw same at (uninstall_operator_reaches objects laws documents namespace w v a gone),
        )

    pub deleted_in_service_cluster :
        (p : Postgres) (w w' : W)
        → delete_in_service_cluster objects services options cwnp_namespace documents p w
          ≡ (ok done, w')
        → IsUnreachable p w' × IsUninstalled (to_peripheral_resource_namespace p) w'
    unfolding delete_in_service_cluster
    deleted_in_service_cluster p w w' h =
        let namespace = to_peripheral_resource_namespace p in
        let check =
          or_else_fail (is_operator_deletable objects namespace (to_peripheral_resource_name p))
            operator in
        let (a, v, first, later) =
          bind-ok (or_else_fail (delete_peripherals objects services options cwnp_namespace p) api)
            (λ _.
              check >>= uninstall_if objects services options cwnp_namespace documents namespace)
            w w' done h in
        let (deletable, u, second, last) =
          bind-ok check (uninstall_if objects services options cwnp_namespace documents namespace) v
            w' done later in
        let unreachable = peripherals-Doomed p w v a (
          or_else_fail-success api (delete_peripherals objects services options cwnp_namespace p) w
            v a first) in
        uninstalled p namespace deletable u w' last (
          deletable-Keeps (IsUnreachable p) namespace (to_peripheral_resource_name p) v u deletable
            second unreachable)
