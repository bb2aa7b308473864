-- ===== src/Status.antt =====
-- The status controller (controllers/status_controller.go): it copies the status of the operator's
-- resource, the sockets of the services and the passwords of the users to the control plane. The
-- clusters are the interface `StatusCluster`; logging is left out.
pub mod Sockets
pub mod Refreshing
pub mod Reconciling
use postgreslet.Prelude.{Bool, Option, none, some, List, [], ◌∷◌, if◌then◌else◌, text_eq}
use postgreslet.Text.{Text}
use postgreslet.Dict.{Dict, lookup}
use postgreslet.Cluster.{Result, ok, err, Action, NamespacedName, wrap_error}
use postgreslet.Postgres.Model.{Postgres, PostgresStatus}
use postgreslet.Postgres.Names.{
  to_key, to_shared_svc_lb_namespaced_name, to_dedicated_svc_lb_namespaced_name,
  to_peripheral_resource_namespace,
}
use postgreslet.Postgres.Services.{Service}
use postgreslet.Postgres.Secrets.{
  Secret, name_label_name, to_zalando_postgresql_matching_labels, to_user_passwords_secret,
}
use postgreslet.Status.Sockets.{status_of}

-- What the controller reads of the operator's resource.
pub record Postgresql : Type 0 where
  pub name : Text
  pub labels : Dict Text Text
  -- `Status.PostgresClusterStatus`
  pub cluster_status : Text

-- The calls of the service cluster and of the control plane.
pub record StatusCluster (W E : Type 0) : Type 0 where
  pub get_postgresql : NamespacedName → W → Result E Postgresql
  pub get_service : NamespacedName → W → Result E Service
  pub list_secrets : Text → Dict Text Text → W → Result E (List Secret)
  pub get_owner : NamespacedName → W → Result E Postgres
  pub update_status : Postgres → Action W E (Unit {0})
  pub create_or_update_secret : Secret → Action W E (Unit {0})
  pub is_not_found : E → Bool
  -- `retry.RetryOnConflict`, of a function that may also assign to the variable of the owner.
  pub retry_on_conflict : Action (W × Postgres) E (Unit {0}) → Action (W × Postgres) E (Unit {0})

pub data StatusError (E : Type 0) : Type 0 where
  cluster_failed : E → StatusError E
  no_owner_label owner_not_found : StatusError E
  socket_update_failed secrets_failed secret_failed : E → StatusError E
  -- A panic.
  index_out_of_range : StatusError E

pub data Outcome : Type 0 where
  finished requeue_after_2s : Outcome

pub record StatusReconciler : Type 0 where
  pub control_plane_namespace : Text
  pub enable_force_shared_ip : Bool

unfoldable pub derive_owner_name : Postgresql → Option Text
derive_owner_name source = lookup name_label_name source.labels

module _ {W E : Type 0} (cluster : StatusCluster W E) (r : StatusReconciler) where
  -- The assignments to the fresh owner, and the update.
  write_status : Postgresql → Result E Postgres → Action (W × Postgres) E (Unit {0})
  write_status source (err e) s = (err e, s)
  write_status source (ok fresh) s =
      let owner = record fresh {
        status = record fresh.status {
          description = source.cluster_status;
          child_name = source.name;
        };
      } in
      let (result, w') = cluster.update_status owner s.0 in (result, (w', owner))

  -- The function that is retried.
  unfoldable pub refresh_status : Postgresql → Action (W × Postgres) E (Unit {0})
  unfolding write_status
  refresh_status source s = write_status source (cluster.get_owner (to_key s.1) s.0) s

  publish_secrets : Postgres → Result E (List Secret) → Action W (StatusError E) Outcome
  publish_secrets owner (err e) w = (err (secrets_failed e), w)
  publish_secrets owner (ok []) w = (ok requeue_after_2s, w)
  publish_secrets owner (ok (v ∷ rest)) w =
      let (result, w') =
        cluster.create_or_update_secret (to_user_passwords_secret owner (v ∷ rest)) w in
      (elim result [ ok _ ↦ ok finished | err e ↦ err (secret_failed e) ], w')

  after_sockets : Postgres → Result E (Unit {0}) → Action W (StatusError E) Outcome
  after_sockets owner (err e) w = (err (socket_update_failed e), w)
  after_sockets owner (ok _) w =
      publish_secrets owner
        (cluster.list_secrets (to_peripheral_resource_namespace owner)
          (to_zalando_postgresql_matching_labels owner) w)
        w

  publish_status : Postgres → Option PostgresStatus → Action W (StatusError E) Outcome
  publish_status owner none w = (err index_out_of_range, w)
  publish_status owner (some status) w =
      let published = record owner { status = status } in
      let (result, w') = cluster.update_status published w in after_sockets published result w'

  unfoldable pub publish_sockets : Postgres → Action W (StatusError E) Outcome
  unfolding publish_status after_sockets publish_secrets
  publish_sockets owner w =
      publish_status owner
        (status_of r.enable_force_shared_ip owner
          (cluster.get_service (to_shared_svc_lb_namespaced_name owner) w)
          (cluster.get_service (to_dedicated_svc_lb_namespaced_name owner) w))
        w

  after_refresh : Result E (Unit {0}) → W × Postgres → Result (StatusError E) Outcome × W
  after_refresh (err e) s = (err (cluster_failed e), s.0)
  after_refresh (ok _) s = publish_sockets s.1 s.0

  with_owner : Postgresql → Result E Postgres → Action W (StatusError E) Outcome
  with_owner source (err e) w = (err owner_not_found, w)
  with_owner source (ok owner) w =
      let (result, s) = cluster.retry_on_conflict (refresh_status source) (w, owner) in
      after_refresh result s

  with_owner_name : Postgresql → Option Text → Action W (StatusError E) Outcome
  with_owner_name source none w = (err no_owner_label, w)
  with_owner_name source (some name) w =
      with_owner source
        (cluster.get_owner (record { namespace = r.control_plane_namespace; name = name }) w) w

  with_postgresql : Result E Postgresql → Action W (StatusError E) Outcome
  with_postgresql (err e) w =
      if cluster.is_not_found e then (ok finished, w) else (err (cluster_failed e), w)
  with_postgresql (ok source) w = with_owner_name source (derive_owner_name source) w

  unfoldable pub reconcile_status : NamespacedName → Action W (StatusError E) Outcome
  unfolding with_postgresql with_owner_name with_owner after_refresh
  reconcile_status key w = with_postgresql (cluster.get_postgresql key w) w
