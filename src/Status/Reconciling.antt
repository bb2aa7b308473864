-- ===== src/Status/Reconciling.antt =====
-- What a reconciliation of the status leaves in the control plane.
use postgreslet.Prelude.{◌≡◌, refl, ap, ◌∙◌, Bool, Option, none, some, List, [], ◌∷◌, arith}
use postgreslet.Text.{Text}
use postgreslet.Cluster.{Result, ok, err, NamespacedName}
use postgreslet.Postgres.Model.{Postgres, PostgresStatus, enable_dedicated_svc_lb}
use postgreslet.Postgres.Names.{
  to_key, to_shared_svc_lb_namespaced_name, to_dedicated_svc_lb_namespaced_name,
  to_shared_svc_lb_name, to_dedicated_svc_lb_name, to_peripheral_resource_name,
  to_peripheral_resource_namespace, generate_team_id, generate_database_name,
}
use postgreslet.Postgres.Services.{Service}
use postgreslet.Postgres.Secrets.{Secret, to_user_passwords_secret}
use postgreslet.Status.Sockets.{main_service, published, status_of, status_of-published}
use postgreslet.Status.Refreshing.{
  IsStatusCluster, with_status, Refreshed, retried-Refreshed, at_state,
}
use postgreslet.Status.{
  Postgresql, StatusCluster, StatusError, Outcome, StatusReconciler, derive_owner_name,
  refresh_status, publish_secrets, after_sockets, publish_status, publish_sockets, after_refresh,
  with_owner, with_owner_name, with_postgresql, reconcile_status,
}

-- The status takes part in no name and in no choice of a service.
module _ (o : Postgres) (status : PostgresStatus) where
  same_names :
      (to_key (with_status o status) ≡ to_key o)
      × (to_shared_svc_lb_namespaced_name (with_status o status)
          ≡ to_shared_svc_lb_namespaced_name o)
      × (to_dedicated_svc_lb_namespaced_name (with_status o status)
          ≡ to_dedicated_svc_lb_namespaced_name o)
  unfolding to_key to_shared_svc_lb_namespaced_name to_dedicated_svc_lb_namespaced_name
      to_shared_svc_lb_name to_dedicated_svc_lb_name to_peripheral_resource_name
      to_peripheral_resource_namespace generate_team_id generate_database_name
  same_names = (refl, refl, refl)

  same_main_service :
      {E : Type 0} (force : Bool) (shared dedicated : Result E Service)
      → main_service force (with_status o status) shared dedicated
        ≡ main_service force o shared dedicated
  unfolding enable_dedicated_svc_lb
  same_main_service force shared dedicated = refl

module _ {W E : Type 0} (cluster : StatusCluster W E) (lawful : IsStatusCluster cluster)
    (r : StatusReconciler) where
  abbrev shared_of : Postgres → W → Result E Service
  shared_of o w = cluster.get_service (to_shared_svc_lb_namespaced_name o) w

  abbrev dedicated_of : Postgres → W → Result E Service
  dedicated_of o w = cluster.get_service (to_dedicated_svc_lb_namespaced_name o) w

  -- The owner's status says what the operator's resource and the services say.
  abbrev UpToDate : Postgresql → NamespacedName → Postgres → W → Type 0
  UpToDate source k o w =
      (cluster.get_owner k w ≡ ok o)
      × (o.status.description ≡ source.cluster_status)
      × (o.status.child_name ≡ source.name)
      × (published (main_service r.enable_force_shared_ip o (shared_of o w) (dedicated_of o w))
          ≡ some o.status.socket)

  UpToDate-secret :
      (source : Postgresql) (k : NamespacedName) (o : Postgres) (v : Secret) (w : W)
      → UpToDate source k o w
      → UpToDate source k o (cluster.create_or_update_secret v w).1
  UpToDate-secret source k o v w (stored, described, named, sockets) = (
    rw (lawful.get-secret v k w) stored,
    described,
    named,
    rw
        (
          lawful.service-secret v (to_shared_svc_lb_namespaced_name o) w,
          lawful.service-secret v (to_dedicated_svc_lb_namespaced_name o) w,
        )
        sockets,
  )

  -- The step of the secrets changes neither the owner nor a service.
  publish_secrets-frame :
      (source : Postgresql) (k : NamespacedName) (o o' : Postgres) (found : Result E (List Secret))
      (outcome : Outcome) (w : W) {w' : W}
      → UpToDate source k o w
      → publish_secrets cluster r o' found w ≡ (ok outcome, w')
      → UpToDate source k o w'
  unfolding publish_secrets
  publish_secrets-frame source k o o' (err e) outcome w before done = ground arith
  publish_secrets-frame source k o o' (ok []) outcome w before done =
      rw (ap (λ (t : Result (StatusError E) Outcome × W). t.1) done) at before
  publish_secrets-frame source k o o' (ok (v ∷ rest)) outcome w before done =
      rw (ap (λ (t : Result (StatusError E) Outcome × W). t.1) done) at
        (UpToDate-secret source k o (to_user_passwords_secret o' (v ∷ rest)) w before)

  after_sockets-ok :
      (source : Postgresql) (k : NamespacedName) (o : Postgres) (result : Result E (Unit {0}))
      (outcome : Outcome) (w : W) {w' : W}
      → (result ≡ ok tt → UpToDate source k o w)
      → after_sockets cluster r o result w ≡ (ok outcome, w')
      → UpToDate source k o w'
  unfolding after_sockets
  after_sockets-ok source k o (err e) outcome w before done = ground arith
  after_sockets-ok source k o (ok tt) outcome w before done =
      publish_secrets-frame source k o o _ outcome w (before refl) done

  service_after :
      (o : Postgres) (j k : NamespacedName) (w : W) {w' : W}
      → j ≡ k
      → (cluster.update_status o w).1 ≡ w'
      → cluster.get_service j w' ≡ cluster.get_service k w
  service_after o j k w same moved = rw (same, ← moved) (lawful.service-update o k w)

  updated-UpToDate :
      (source : Postgresql) (k : NamespacedName) (o : Postgres) (status : PostgresStatus) (w : W)
      {w' : W}
      → Refreshed source k o
      → status_of r.enable_force_shared_ip o (shared_of o w) (dedicated_of o w) ≡ some status
      → cluster.update_status (with_status o status) w ≡ (ok tt, w')
      → UpToDate source k (with_status o status) w'
  updated-UpToDate source k o status w {w'} (key, described, named) chosen done =
      let (sockets, same_description, same_child) =
        status_of-published r.enable_force_shared_ip o (shared_of o w) (dedicated_of o w) status
          chosen in
      let (same_key, same_shared, same_dedicated) = same_names o status in
      let moved : (cluster.update_status (with_status o status) w).1 ≡ w' =
        ap (λ (t : Result E (Unit {0}) × W). t.1) done in
      (
        rw (same_key ∙ key) at (lawful.get-update (with_status o status) done),
        same_description ∙ described,
        same_child ∙ named,
        ap published (
              same_main_service o status r.enable_force_shared_ip _ _
              ∙ ap
                  (λ (t : Result E Service).
                    main_service r.enable_force_shared_ip o t
                      (dedicated_of (with_status o status) w'))
                  (service_after (with_status o status) _ _ w same_shared moved)
              ∙ ap
                  (λ (t : Result E Service).
                    main_service r.enable_force_shared_ip o (shared_of o w) t)
                  (service_after (with_status o status) _ _ w same_dedicated moved))
            ∙ sockets,
      )

  abbrev at_world : Result E (Unit {0}) → W → Result E (Unit {0}) × W
  at_world t w = (t, w)

  publish_status-ok :
      (source : Postgresql) (k : NamespacedName) (o : Postgres) (chosen : Option PostgresStatus)
      (outcome : Outcome) (w : W) {w' : W}
      → Refreshed source k o
      → status_of r.enable_force_shared_ip o (shared_of o w) (dedicated_of o w) ≡ chosen
      → publish_status cluster r o chosen w ≡ (ok outcome, w')
      → (o' : Postgres) × UpToDate source k o' w'
  unfolding publish_status
  publish_status-ok source k o none outcome w refreshed is_chosen done = ground arith
  publish_status-ok source k o (some status) outcome w refreshed is_chosen done =
      let updated = cluster.update_status (with_status o status) w in
      (
        with_status o status,
        after_sockets-ok source k (with_status o status) updated.0 outcome updated.1
            (λ e.
              updated-UpToDate source k o status w refreshed is_chosen
                (ap (λ (t : Result E (Unit {0})). at_world t updated.1) e))
            done,
      )

  after_refresh-ok :
      (source : Postgresql) (k : NamespacedName) (result : Result E (Unit {0})) (s : W × Postgres)
      (outcome : Outcome) {w' : W}
      → (result ≡ ok tt → Refreshed source k s.1)
      → after_refresh cluster r result s ≡ (ok outcome, w')
      → (o : Postgres) × UpToDate source k o w'
  unfolding after_refresh publish_sockets
  after_refresh-ok source k (err e) s outcome before done = ground arith
  after_refresh-ok source k (ok tt) s outcome before done =
      publish_status-ok source k s.1 _ outcome s.0 (before refl) refl done

  with_owner-ok :
      (source : Postgresql) (k : NamespacedName) (found : Result E Postgres) (outcome : Outcome)
      (w : W) {w' : W}
      → cluster.get_owner k w ≡ found
      → with_owner cluster r source found w ≡ (ok outcome, w')
      → (o : Postgres) × UpToDate source k o w'
  unfolding with_owner
  with_owner-ok source k (err e) outcome w read done = ground arith
  with_owner-ok source k (ok owner) outcome w read done =
      let retried = cluster.retry_on_conflict (refresh_status cluster r source) (w, owner) in
      after_refresh-ok source k retried.0 retried.1 outcome
        (λ e.
          retried-Refreshed cluster lawful r source k owner w read
            (ap (λ (t : Result E (Unit {0})). at_state cluster lawful r t retried.1) e))
        done

  abbrev owner_key : Text → NamespacedName
  owner_key name = record { namespace = r.control_plane_namespace; name = name }

  with_owner_name-ok :
      (source : Postgresql) (name_of : Option Text) (outcome : Outcome) (w : W) {w' : W}
      → with_owner_name cluster r source name_of w ≡ (ok outcome, w')
      → (name : Text) × (name_of ≡ some name)
        × ((o : Postgres) × UpToDate source (owner_key name) o w')
  unfolding with_owner_name
  with_owner_name-ok source none outcome w done = ground arith
  with_owner_name-ok source (some name) outcome w done = (
    name,
    refl,
    with_owner-ok source (owner_key name) (cluster.get_owner (owner_key name) w) outcome w refl
        done,
  )

  -- Over clusters that meet the laws: a reconciliation of the status that does not fail, for a
  -- resource of the operator that is there, leaves its owner, which the name label of the resource
  -- names, with the status and the name of the resource, and with the socket of the service for
  -- the clients: the shared service where it is forced or the owner has no ip of its own, else the
  -- dedicated service with its one ingress, and the empty socket where this service is not there.
  pub reconcile_status-UpToDate :
      (key : NamespacedName) (source : Postgresql) (outcome : Outcome) (w : W) {w' : W}
      → cluster.get_postgresql key w ≡ ok source
      → reconcile_status cluster r key w ≡ (ok outcome, w')
      → (name : Text) × (derive_owner_name source ≡ some name)
        × ((o : Postgres) × UpToDate source (owner_key name) o w')
  unfolding reconcile_status with_postgresql
  reconcile_status-UpToDate key source outcome w found done =
      with_owner_name-ok source (derive_owner_name source) outcome w (rw found at done)
