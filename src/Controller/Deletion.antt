-- ===== src/Controller/Deletion.antt =====
-- What is gone from the service cluster once the deletion of a database is done.
use postgreslet.Prelude.{
  ◌≡◌, refl, sym, ◌∙◌, Bool, Bool-cases, some, List, [], ◌∷◌, ◌++◌, inl, inr, arith, All,
}
use postgreslet.Text.{Text, codes}
use postgreslet.Dict.{Dict}
use postgreslet.Cluster.{Result, ok, err, Action, pure, fail, NamespacedName, Client}
use postgreslet.Cluster.Actions.{
  world, attempt, reading, bind-ok, Keeps, Keeps-pure, Keeps-fail, Keeps-bind, Keeps-attempt,
  Keeps-if, Keeps-reading,
}
use postgreslet.Kube.{Object, Key, key_of, Objects}
use postgreslet.Kube.Laws.{IsObjects}
use postgreslet.Postgres.Model.{Postgres}
use postgreslet.Postgres.Services.{Service}
use postgreslet.Postgres.Names.{
  to_peripheral_resource_namespace, to_shared_svc_lb_namespaced_name,
  to_dedicated_svc_lb_namespaced_name,
}
use postgreslet.Postgres.Secrets.{to_zalando_postgresql_matching_labels}
use postgreslet.Balancer.Deleting.{
  IsDeleted, delete_shared_svc_lb-IsDeleted, delete_dedicated_svc_lb-IsDeleted,
}
use postgreslet.Balancer.{delete_shared_svc_lb, delete_dedicated_svc_lb}
use postgreslet.Balancer.Socket.{Options}
use postgreslet.Controller.{
  run_all, ignoring_not_found, ignoring, delete_each, delete_z_postgresql_by_labels, delete_net_pol,
  net_pol_key, without_finalizer, remove_storage_encryption_secret_finalizer, exporter_service_key,
  storage_secret_key, cleared,
}

module _ {ℓ} {W E : Type 0} (P : W → Type ℓ) where
  Keeps-run_all :
      (calls : List (Action W E (Unit {0}))) → All (Keeps P) calls → Keeps P (run_all calls)
  Keeps-run_all [] keeps = Keeps-pure P tt
  Keeps-run_all (m ∷ rest) (first, later) =
      Keeps-bind P m (λ _. run_all rest) first (λ _. Keeps-run_all rest later)

  -- What a call establishes when it succeeds.
  abbrev pub Makes : Action W E (Unit {0}) → Type ℓ
  Makes m = (w w' : W) (a : Unit {0}) → m w ≡ (ok a, w') → P w'

  pub Makes-run_all :
      (before : List (Action W E (Unit {0}))) (m : Action W E (Unit {0}))
      (after : List (Action W E (Unit {0})))
      → Makes m
      → All (Keeps P) after
      → Makes (run_all (before ++ m ∷ after))
  Makes-run_all [] m after makes keeps w w' a h =
      let (b, v, first, later) = bind-ok m (λ _. run_all after) w w' a h in
      Keeps-run_all after keeps v w' a later (makes w v b first)
  Makes-run_all (x ∷ before) m after makes keeps w w' a h =
      let (b, v, first, later) = bind-ok x (λ _. run_all (before ++ m ∷ after)) w w' a h in
      Makes-run_all before m after makes keeps v w' a later

module _ {W E : Type 0} (objects : Objects W E) {Doomed : Key → W → Type 0}
    (laws : IsObjects objects Doomed) (k : Key) where
  delete-Keeps : (j : Key) → Keeps (Doomed k) (objects.delete j)
  delete-Keeps j w w' a h p = laws.Doomed-delete j k h p

  update-Keeps : (o : Object) → Keeps (Doomed k) (objects.update o)
  update-Keeps o w w' a h p = laws.Doomed-update o k h p

  -- A deletion whose error is dropped if it is one of these.
  ignoring-Keeps :
      (is_missing : E → Bool) (j : Key)
      → Keeps (Doomed k) (ignoring_not_found is_missing (objects.delete j))
  ignoring-Keeps is_missing j w w' a h p = go (objects.delete j w) refl h
    where
      go :
          (r : Result E (Unit {0}) × W)
          → objects.delete j w ≡ r
          → ◌≡◌ {A = Result E (Unit {0}) × W} (ignoring is_missing r.0, r.1) (ok a, w')
          → Doomed k w'
      go (ok _, v) d h' = rw (world h') at (laws.Doomed-delete j k d p)
      go (err e, v) d h' = rw (world h') at (laws.Doomed-delete_err j k e d p)

  -- A deletion whose error is dropped where nothing was found dooms its object.
  pub ignoring-Makes : Makes (Doomed k) (ignoring_not_found objects.is_not_found (objects.delete k))
  ignoring-Makes w w' a h = go (objects.delete k w) refl h
    where
      go :
          (r : Result E (Unit {0}) × W)
          → objects.delete k w ≡ r
          → ◌≡◌ {A = Result E (Unit {0}) × W} (ignoring objects.is_not_found r.0, r.1) (ok a, w')
          → Doomed k w'
      go (ok _, v) d h' = rw (world h') at (laws.delete-Doomed k d)
      go (err e, v) d h' = elim (Bool-cases (objects.is_not_found e)) [
        | inl missing ↦
            let (same, gone) = laws.delete-missing k e d missing in rw (same ∙ world h') at gone
        | inr found ↦ ground arith
      ]

abbrev pub service_key : NamespacedName → Key
service_key n = record { kind = codes "Service"; namespace = n.namespace; name = n.name }

-- The client of the load balancers and the one of the objects are one: they delete the same services.
pub record IsOneClient {W E : Type 0} (objects : Objects W E) (services : Client W E Service)
    : Type 0 where
  pub delete_lem :
      (n : NamespacedName) (w : W) → services.delete n w ≡ objects.delete (service_key n) w
  pub is_not_found_lem : (e : E) → services.is_not_found e ≡ objects.is_not_found e

module _ {W E : Type 0} (objects : Objects W E) {Doomed : Key → W → Type 0}
    (laws : IsObjects objects Doomed) (services : Client W E Service)
    (one : IsOneClient objects services) (options : Options) (cwnp_namespace : Text) (k : Key) where
  delete_each-Keeps :
      (found : List Object)
      → Keeps (Doomed k) (delete_each objects services options cwnp_namespace found)
  unfolding delete_each
  delete_each-Keeps [] = Keeps-pure (Doomed k) tt
  delete_each-Keeps (z ∷ rest) =
      Keeps-bind (Doomed k) (objects.delete (key_of z))
        (λ _. delete_each objects services options cwnp_namespace rest)
        (delete-Keeps objects laws k (key_of z)) (λ _. delete_each-Keeps rest)

  by_labels-Keeps :
      (labels : Dict Text Text) (namespace : Text)
      → Keeps
          (Doomed k)
          (delete_z_postgresql_by_labels objects services options cwnp_namespace labels namespace)
  unfolding delete_z_postgresql_by_labels
  by_labels-Keeps labels namespace =
      Keeps-bind (Doomed k)
        (reading (objects.list_all (codes "postgresql") (some namespace) labels))
        (delete_each objects services options cwnp_namespace)
        (Keeps-reading (Doomed k) (objects.list_all (codes "postgresql") (some namespace) labels))
        delete_each-Keeps

  -- Whatever comes of the deletion.
  net_pol-Keeps :
      (p : Postgres) → Keeps (Doomed k) (delete_net_pol objects services options cwnp_namespace p)
  unfolding delete_net_pol
  net_pol-Keeps p w w' a h doomed = go (objects.delete (net_pol_key p) w) refl h
    where
      go :
          (r : Result E (Unit {0}) × W)
          → objects.delete (net_pol_key p) w ≡ r
          → ◌≡◌ {A = Result E (Unit {0}) × W} (ok tt, r.1) (ok a, w')
          → Doomed k w'
      go (ok _, v) d h' = rw (world h') at (laws.Doomed-delete (net_pol_key p) k d doomed)
      go (err e, v) d h' = rw (world h') at (laws.Doomed-delete_err (net_pol_key p) k e d doomed)

  without_finalizer-Keeps :
      (r : Result E Object)
      → Keeps (Doomed k) (without_finalizer objects services options cwnp_namespace r)
  unfolding without_finalizer
  without_finalizer-Keeps (ok o) = update-Keeps objects laws k (cleared o)
  without_finalizer-Keeps (err e) =
      Keeps-if (Doomed k) (objects.is_not_found e) (pure tt) (fail e) (Keeps-pure (Doomed k) tt)
        (Keeps-fail (Doomed k) e)

  finalizer-Keeps :
      (p : Postgres)
      → Keeps
          (Doomed k)
          (remove_storage_encryption_secret_finalizer objects services options cwnp_namespace p)
  unfolding remove_storage_encryption_secret_finalizer
  finalizer-Keeps p =
      let secret = storage_secret_key (to_peripheral_resource_namespace p) in
      Keeps-bind (Doomed k) (attempt (reading (objects.get secret)))
        (without_finalizer objects services options cwnp_namespace)
        (Keeps-attempt (Doomed k) (objects.get secret)) without_finalizer-Keeps

  balancer-Keeps :
      (n : NamespacedName) (w w' : W) → IsDeleted services n w w' → Doomed k w → Doomed k w'
  balancer-Keeps n w w' (inl d) doomed =
      laws.Doomed-delete (service_key n) k (rw (one.delete_lem n w) at d) doomed
  balancer-Keeps n w w' (inr (e, d, _)) doomed =
      laws.Doomed-delete_err (service_key n) k e (rw (one.delete_lem n w) at d) doomed

  pub balancer-Makes :
      (n : NamespacedName) (w w' : W) → IsDeleted services n w w' → Doomed (service_key n) w'
  balancer-Makes n w w' (inl d) = laws.delete-Doomed (service_key n) (rw (one.delete_lem n w) at d)
  balancer-Makes n w w' (inr (e, d, missing)) =
      let (same, gone) =
        laws.delete-missing (service_key n) e (rw (one.delete_lem n w) at d)
          (sym (one.is_not_found_lem e) ∙ missing) in
      rw same at gone

  -- Every call of the deletion but the first keeps what is doomed.
  pub later-Keeps :
      (p : Postgres)
      → All (Keeps (Doomed k)) (
          delete_shared_svc_lb services options p
          ∷ delete_dedicated_svc_lb services options p
          ∷ ignoring_not_found objects.is_not_found
              (objects.delete (exporter_service_key (to_peripheral_resource_namespace p)))
          ∷ delete_z_postgresql_by_labels objects services options cwnp_namespace
              (to_zalando_postgresql_matching_labels p)
              (to_peripheral_resource_namespace p)
          ∷ delete_net_pol objects services options cwnp_namespace p
          ∷ remove_storage_encryption_secret_finalizer objects services options cwnp_namespace p
          ∷ [])
  later-Keeps p = (
    λ w w' a h.
        balancer-Keeps (to_shared_svc_lb_namespaced_name p) w w'
          (delete_shared_svc_lb-IsDeleted services options p w w' a h),
    (
      λ w w' a h.
          balancer-Keeps (to_dedicated_svc_lb_namespaced_name p) w w'
            (delete_dedicated_svc_lb-IsDeleted services options p w w' a h),
      (
        ignoring-Keeps objects laws k objects.is_not_found
            (exporter_service_key (to_peripheral_resource_namespace p)),
        (
          by_labels-Keeps (to_zalando_postgresql_matching_labels p)
              (to_peripheral_resource_namespace p),
          (net_pol-Keeps p, (finalizer-Keeps p, tt)),
        ),
      ),
    ),
  )
