-- ===== src/Status/Refreshing.antt =====
-- The retried update of the owner: it writes the status of the owner that it was called for.
use mathlib.Core.Path.{subst}
use postgreslet.Prelude.{◌≡◌, refl, ap, ◌∙◌, arith}
use postgreslet.Cluster.{Result, ok, err, Action, NamespacedName}
use postgreslet.Postgres.Model.{Postgres, PostgresStatus}
use postgreslet.Postgres.Names.{to_key}
use postgreslet.Postgres.Secrets.{Secret}
use postgreslet.Status.{Postgresql, StatusCluster, StatusReconciler, write_status, refresh_status}

-- What the APIs document: an update of the status that succeeds is read back, it and a write of a
-- secret change nothing else that the controller reads, and a retry only calls its function, of
-- which a last call succeeded if the retry did.
pub record IsStatusCluster {W E : Type 0} (cluster : StatusCluster W E) : Type 1 where
  pub get-update :
      (o : Postgres) {w w' : W}
      → cluster.update_status o w ≡ (ok tt, w')
      → cluster.get_owner (to_key o) w' ≡ ok o
  pub service-update :
      (o : Postgres) (k : NamespacedName) (w : W)
      → cluster.get_service k (cluster.update_status o w).1 ≡ cluster.get_service k w
  pub get-secret :
      (s : Secret) (k : NamespacedName) (w : W)
      → cluster.get_owner k (cluster.create_or_update_secret s w).1 ≡ cluster.get_owner k w
  pub service-secret :
      (s : Secret) (k : NamespacedName) (w : W)
      → cluster.get_service k (cluster.create_or_update_secret s w).1 ≡ cluster.get_service k w
  pub key-get :
      (k : NamespacedName) (o : Postgres) (w : W) → cluster.get_owner k w ≡ ok o → to_key o ≡ k
  pub retry-ok :
      (f : Action (W × Postgres) E (Unit {0})) (kept : W × Postgres → Type 0) (s : W × Postgres)
      {s' : W × Postgres}
      → kept s
      → ((t : W × Postgres) → kept t → kept (f t).1)
      → cluster.retry_on_conflict f s ≡ (ok tt, s')
      → (t : W × Postgres) × kept t × (f t ≡ (ok tt, s'))

module _ (o : Postgres) (status : PostgresStatus) where
  abbrev pub with_status : Postgres
  with_status = record o { status = status }

-- What the update of the sockets rests on: the owner has the status of the source already.
abbrev pub Refreshed : Postgresql → NamespacedName → Postgres → Type 0
Refreshed source k o =
    (to_key o ≡ k)
    × (o.status.description ≡ source.cluster_status)
    × (o.status.child_name ≡ source.name)

module _ {W E : Type 0} (cluster : StatusCluster W E) (lawful : IsStatusCluster cluster)
    (r : StatusReconciler) where
  -- The key of the owner stays, whatever a call of the retried function does.
  write_status-key :
      (source : Postgresql) (k : NamespacedName) (found : Result E Postgres) (s : W × Postgres)
      → cluster.get_owner (to_key s.1) s.0 ≡ found
      → to_key s.1 ≡ k
      → to_key (write_status cluster r source found s).1.1 ≡ k
  unfolding write_status to_key
  write_status-key source k (err e) s read same = same
  write_status-key source k (ok fresh) s read same =
      lawful.key-get (to_key s.1) fresh s.0 read ∙ same

  write_status-Refreshed :
      (source : Postgresql) (k : NamespacedName) (found : Result E Postgres) (s : W × Postgres)
      {s' : W × Postgres}
      → cluster.get_owner (to_key s.1) s.0 ≡ found
      → to_key s.1 ≡ k
      → write_status cluster r source found s ≡ (ok tt, s')
      → Refreshed source k s'.1
  unfolding write_status to_key
  write_status-Refreshed source k (err e) s read same done = ground arith
  write_status-Refreshed source k (ok fresh) s {s'} read same done =
      let status = record fresh.status {
        description = source.cluster_status;
        child_name = source.name;
      } in
      let fresh_key : to_key fresh ≡ k = lawful.key-get (to_key s.1) fresh s.0 read ∙ same in
      let before : Refreshed source k (with_status fresh status) = (fresh_key, refl, refl) in
      let moved : with_status fresh status ≡ s'.1 =
        ap (λ (t : Result E (Unit {0}) × (W × Postgres)). t.1.1) done in
      subst (λ (t : Postgres). Refreshed source k t) moved before

  abbrev pub at_state : Result E (Unit {0}) → W × Postgres → Result E (Unit {0}) × (W × Postgres)
  at_state t s = (t, s)

  -- After a retry that succeeds the owner has the status of the source.
  pub retried-Refreshed :
      (source : Postgresql) (k : NamespacedName) (owner : Postgres) (w : W) {s' : W × Postgres}
      → cluster.get_owner k w ≡ ok owner
      → cluster.retry_on_conflict (refresh_status cluster r source) (w, owner) ≡ (ok tt, s')
      → Refreshed source k s'.1
  unfolding refresh_status
  retried-Refreshed source k owner w read done =
      let (t, same, last) =
        lawful.retry-ok (refresh_status cluster r source) (λ (t : W × Postgres). to_key t.1 ≡ k)
          (w, owner) (lawful.key-get k owner w read)
          (λ t same. write_status-key source k (cluster.get_owner (to_key t.1) t.0) t refl same)
          done in
      write_status-Refreshed source k (cluster.get_owner (to_key t.1) t.0) t refl same last
