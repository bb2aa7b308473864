-- ===== src/Controller/Ending.antt =====
-- How a run of the deletion of a database ends: the order of its calls in both clusters.
use postgreslet.Prelude.{◌≡◌, ◌≢◌, refl, ap, sym, true, false, Bool-cases, inl, inr, ◌⊎◌, arith}
use postgreslet.Text.{Text, codes}
use postgreslet.Cluster.{Result, ok, err, Action, pure, continue, wrap_error, ◌>>=◌, Client}
use postgreslet.Kube.{Key, Objects}
use postgreslet.Kube.Laws.{IsObjects}
use postgreslet.Postgres.Model.{Postgres, remove_finalizer}
use postgreslet.Postgres.Names.{to_user_passwords_secret_name, to_peripheral_resource_namespace}
use postgreslet.Postgres.Services.{Service}
use postgreslet.Balancer.Socket.{Options}
use postgreslet.Operator.Install.{Documents}
use postgreslet.Controller.{
  ReconcileError, api, ReconcileResult, done, requeue, Control, ignoring, delete_in_service_cluster,
  in_service, in_control, finish, reconcile_deletion,
}
use postgreslet.Controller.Deletion.{IsOneClient}
use postgreslet.Controller.Completion.{IsUnreachable, IsUninstalled, deleted_in_service_cluster}
use postgreslet.Controller.Finalizer.{terminating}

module _ {W E C : Type 0} (objects : Objects W E) {Doomed : Key → W → Type 0}
    (laws : IsObjects objects Doomed) (services : Client W E Service)
    (one : IsOneClient objects services) (options : Options) (cwnp_namespace : Text)
    (documents : Documents) (control : Control C E) where
  -- The update that removes the finalizer.
  abbrev pub finalizer_removal : Postgres → Action C E (Unit {0})
  finalizer_removal p =
      control.update (remove_finalizer p (codes "postgres.finalizers.database.fits.cloud"))

  abbrev pub secret_deletion : Postgres → Action C E (Unit {0})
  secret_deletion p =
      control.delete_secret
        (record { namespace = p.namespace; name = to_user_passwords_secret_name p })

  -- The secret was deleted, or there was none.
  abbrev pub IsDeleted : Result E (Unit {0}) → Type 0
  IsDeleted (ok _) = Unit
  IsDeleted (err e) = control.is_not_found e ≡ true

  -- What the run returns is what the last call has returned.
  abbrev pub Reports : Result E (Unit {0}) → Result (ReconcileError E) ReconcileResult → Type 0
  Reports (ok _) r = r ≡ ok done
  Reports (err e) r = r ≡ err (api e)

  -- The deletion of the secret fails, which ends the run.
  abbrev pub KeepsFinalizer :
      Result E (Unit {0}) → C → C → Result (ReconcileError E) ReconcileResult → Type 0
  KeepsFinalizer d c2 c' r =
      (e : E) × (d ≡ err e) × (control.is_not_found e ≡ false) × (c' ≡ c2) × (r ≡ err (api e))

  -- The secret is gone, and then the finalizer is removed, which is the last call.
  abbrev pub RemovesFinalizer :
      Postgres → Result E (Unit {0}) → C → C → Result (ReconcileError E) ReconcileResult → Type 0
  RemovesFinalizer p d c2 c' r =
      IsDeleted d × (c' ≡ (finalizer_removal p c2).1) × Reports (finalizer_removal p c2).0 r

  -- How a run goes on in the control cluster from this state: the secret with the passwords, and
  -- then the finalizer.
  abbrev pub Finishes : Postgres → C → C → Result (ReconcileError E) ReconcileResult → Type 0
  Finishes p c1 c' r =
      KeepsFinalizer (secret_deletion p c1).0 (secret_deletion p c1).1 c' r
      ⊎ RemovesFinalizer p (secret_deletion p c1).0 (secret_deletion p c1).1 c' r

  state :
      {A B : Type 0} {r s : Result A B} {c c' : C} {w w' : W}
      → ◌≡◌ {A = Result A B × (C × W)} (r, (c, w)) (s, (c', w'))
      → (s ≡ r) × (c' ≡ c) × (w ≡ w')
  state h = (sym (ap (λ t. t.0) h), sym (ap (λ t. t.1.0) h), ap (λ t. t.1.1) h)

  update_ends :
      (u : Result E (Unit {0})) (c c' : C) (w w' : W)
      (r : Result (ReconcileError E) ReconcileResult)
      → continue {W = C × W} (wrap_error api u) (λ _. pure done) (c, w) ≡ (r, (c', w'))
      → (w ≡ w') × (c' ≡ c) × Reports u r
  update_ends (ok _) c c' w w' r h = let (a, b, e) = state h in (e, b, a)
  update_ends (err _) c c' w w' r h = let (a, b, e) = state h in (e, b, a)

  secret_ends :
      (p : Postgres) (d : Result E (Unit {0})) (c2 c' : C) (w w' : W)
      (r : Result (ReconcileError E) ReconcileResult)
      → continue {W = C × W}
          (wrap_error api (ignoring control.is_not_found d))
          (λ _.
            in_control objects services options cwnp_namespace control documents
              (finalizer_removal p)
            >>= (λ _. pure done))
          (c2, w)
        ≡ (r, (c', w'))
      → (w ≡ w') × (KeepsFinalizer d c2 c' r ⊎ RemovesFinalizer p d c2 c' r)
  unfolding in_control
  secret_ends p (ok a) c2 c' w w' r h =
      let removed = finalizer_removal p c2 in
      let (same, state', reports) = update_ends removed.0 removed.1 c' w w' r h in
      (same, inr (tt, state', reports))
  secret_ends p (err e) c2 c' w w' r h = elim (Bool-cases (control.is_not_found e)) [
    | inl missing ↦
        let removed = finalizer_removal p c2 in
        let (same, state', reports) = update_ends removed.0 removed.1 c' w w' r (rw missing at h) in
        (same, inr (missing, state', reports))
    | inr other ↦
        let (failed, state', same) = state (rw other at h) in
        (same, inl (e, refl, other, state', failed))
  ]

  -- The rest of a run after the service cluster is empty.
  finish_ends :
      (p : Postgres) (c c' : C) (w w' : W) (r : Result (ReconcileError E) ReconcileResult)
      → finish objects services options cwnp_namespace control documents p done (c, w)
        ≡ (r, (c', w'))
      → (w ≡ w') × Finishes p c c' r
  unfolding finish in_control
  finish_ends p c c' w w' r h = let d = secret_deletion p c in secret_ends p d.0 d.1 c' w w' r h

  -- A run that has not got past the service cluster: in the control cluster it has called nothing
  -- but the update of the status, and it does not report that it is done.
  abbrev pub Stops : C → C → Result (ReconcileError E) ReconcileResult → Type 0
  Stops c1 c' r = (c' ≡ c1) × (r ≢ ok done)

  stops :
      {c1 c' : C} {w w1 : W} {e : ReconcileError E} {r : Result (ReconcileError E) ReconcileResult}
      → ◌≡◌ {A = Result (ReconcileError E) ReconcileResult × (C × W)} (err e, (c1, w1)) (r, (c', w))
      → Stops c1 c' r
  stops h = let (failed, same, _) = state h in (same, λ wrong. ground arith)

  abbrev Empties : Postgres → W → Type 0
  Empties p w =
      IsUnreachable objects laws services one options cwnp_namespace p w
      × IsUninstalled objects laws services one options cwnp_namespace documents
          (to_peripheral_resource_namespace p) w

  service_ends :
      (p : Postgres) (d : Result (ReconcileError E) ReconcileResult) (c1 c' : C) (w w1 w' : W)
      (r : Result (ReconcileError E) ReconcileResult)
      → delete_in_service_cluster objects services options cwnp_namespace documents p w ≡ (d, w1)
      → continue d (finish objects services options cwnp_namespace control documents p) (c1, w1)
        ≡ (r, (c', w'))
      → Stops c1 c' r ⊎ (Empties p w' × Finishes p c1 c' r)
  unfolding finish
  service_ends p (err e) c1 c' w w1 w' r deleted h = inl (stops h)
  service_ends p (ok requeue) c1 c' w w1 w' r deleted h =
      let (again, same, _) = state h in inl (same, λ wrong. ground arith)
  service_ends p (ok done) c1 c' w w1 w' r deleted h =
      let (same, finishes) = finish_ends p c1 c' w1 w' r h in
      inr (
        deleted_in_service_cluster objects laws services one options cwnp_namespace documents p w w'
            (rw same at deleted),
        finishes,
      )

  status_ends :
      (p : Postgres) (u : Result E (Unit {0})) (c1 c' : C) (w w' : W)
      (r : Result (ReconcileError E) ReconcileResult)
      → continue {W = C × W}
          (wrap_error api u)
          (λ _.
            in_service objects services options cwnp_namespace control documents
              (delete_in_service_cluster objects services options cwnp_namespace documents p)
            >>= finish objects services options cwnp_namespace control documents p)
          (c1, w)
        ≡ (r, (c', w'))
      → Stops c1 c' r ⊎ (Empties p w' × Finishes p c1 c' r)
  unfolding in_service
  status_ends p (err e) c1 c' w w' r h = inl (stops h)
  status_ends p (ok _) c1 c' w w' r h =
      let d = delete_in_service_cluster objects services options cwnp_namespace documents p w in
      service_ends p d.0 c1 c' w d.1 w' r refl h

  -- Over a client of the service cluster that meets the laws, which the client of the load
  -- balancers shares: every run of a deletion, whatever it returns, ends in one of two ways. Either
  -- the only call in the control cluster was the update of the status, so that the secret and the
  -- finalizer stay, and the run does not report that it is done. Or, after that update, the secret
  -- with the passwords was deleted, and then, unless that failed for another reason than that
  -- there is none, the finalizer was removed, which was the last call and whose error the run
  -- returns. This comes only when, in the service cluster, the policy on the firewall, both load
  -- balancers and the service of the exporter are gone or being deleted; and so are the namespace,
  -- the config map of the pod environment and the objects of the documents in the namespace,
  -- unless the removal of the operator met a document whose object was not there.
  pub reconcile_deletion-order :
      (p : Postgres) (c c' : C) (w w' : W) (r : Result (ReconcileError E) ReconcileResult)
      → reconcile_deletion objects services options cwnp_namespace control documents p (c, w)
        ≡ (r, (c', w'))
      → Stops (control.update_status (terminating p) c).1 c' r
        ⊎ (IsUnreachable objects laws services one options cwnp_namespace (terminating p) w'
            × IsUninstalled objects laws services one options cwnp_namespace documents
                (to_peripheral_resource_namespace (terminating p))
                w'
            × Finishes (terminating p) (control.update_status (terminating p) c).1 c' r)
  unfolding reconcile_deletion in_control
  reconcile_deletion-order p c c' w w' r h =
      let updated = control.update_status (terminating p) c in
      elim (status_ends (terminating p) updated.0 updated.1 c' w w' r h) [
        | inl stopped ↦ inl stopped
        | inr ((unreachable, uninstalled), finishes) ↦ inr (unreachable, uninstalled, finishes)
      ]
