-- ===== src/Controller/Finalizer.antt =====
-- The deletion of a database in both clusters: what a run that is postponed leaves behind.
use postgreslet.Prelude.{◌≡◌, ap, ◌∙◌, arith}
use postgreslet.Text.{Text, codes}
use postgreslet.Cluster.{Result, ok, Action, pure, ◌>>=◌, Client}
use postgreslet.Cluster.Actions.{world, bind-ok, or_else_fail-success}
use postgreslet.Kube.{Key, Objects}
use postgreslet.Kube.Laws.{IsObjects}
use postgreslet.Postgres.Model.{Postgres, remove_finalizer}
use postgreslet.Postgres.Names.{to_user_passwords_secret_name}
use postgreslet.Postgres.Services.{Service}
use postgreslet.Balancer.Socket.{Options}
use postgreslet.Operator.Install.{Documents}
use postgreslet.Controller.{
  ReconcileError, api, ReconcileResult, done, requeue, Control, ignoring_not_found,
  delete_in_service_cluster, in_service, in_control, finish, reconcile_deletion,
}
use postgreslet.Controller.Deletion.{IsOneClient}

-- What the status update is called with.
abbrev pub terminating : Postgres → Postgres
terminating p = record p { status = record p.status { description = codes "Terminating" } }

module _ {W E C : Type 0} (objects : Objects W E) {Doomed : Key → W → Type 0}
    (laws : IsObjects objects Doomed) (services : Client W E Service)
    (one : IsOneClient objects services) (options : Options) (cwnp_namespace : Text)
    (documents : Documents) (control : Control C E) where
  in_service-ok :
      {A : Type 0} (m : Action W (ReconcileError E) A) (c c' : C) (w w' : W) (a : A)
      → in_service objects services options cwnp_namespace control documents m (c, w)
        ≡ (ok a, (c', w'))
      → (m w ≡ (ok a, w')) × (c ≡ c')
  unfolding in_service
  in_service-ok {A = A} m c c' w w' a h = (
    ap (λ (t : Result (ReconcileError E) A × (C × W)). (t.0, t.1.1)) h,
    ap (λ (t : Result (ReconcileError E) A × (C × W)). t.1.0) h,
  )

  in_control-ok :
      {A : Type 0} (m : Action C E A) (c c' : C) (w w' : W) (a : A)
      → in_control objects services options cwnp_namespace control documents m (c, w)
        ≡ (ok a, (c', w'))
      → (m c ≡ (ok a, c')) × (w ≡ w')
  unfolding in_control
  in_control-ok {A = A} m c c' w w' a h = (
    or_else_fail-success api m c c' a
        (ap (λ (t : Result (ReconcileError E) A × (C × W)). (t.0, t.1.0)) h),
    ap (λ (t : Result (ReconcileError E) A × (C × W)). t.1.1) h,
  )

  finish_requeue :
      (p : Postgres) (outcome : ReconcileResult) (c c' : C) (w w' : W)
      → finish objects services options cwnp_namespace control documents p outcome (c, w)
        ≡ (ok requeue, (c', w'))
      → c ≡ c'
  unfolding finish
  finish_requeue p requeue c c' w w' h = ap (λ (t : C × W). t.0) (world h)
  finish_requeue p done c c' w w' h =
      let removal = ignoring_not_found control.is_not_found (
        control.delete_secret
          (record { namespace = p.namespace; name = to_user_passwords_secret_name p })) in
      let update =
        control.update (remove_finalizer p (codes "postgres.finalizers.database.fits.cloud")) in
      let inside = λ (m : Action C E (Unit {0})).
        in_control objects services options cwnp_namespace control documents m in
      let (_, v, first, later) =
        bind-ok (inside removal) (λ _. inside update >>= (λ _. pure done)) (c, w) (c', w') requeue
          h in
      let (b, u, second, last) =
        bind-ok (inside update) (λ _. pure done) v (c', w') requeue later in
      ground arith

  -- A deletion that asks to be run again, since the operator still has work to do, has only
  -- updated the status in the control cluster, whose state is what that call has left: the
  -- finalizer is not removed.
  pub reconcile_deletion-requeue :
      (p : Postgres) (c c' : C) (w w' : W)
      → reconcile_deletion objects services options cwnp_namespace control documents p (c, w)
        ≡ (ok requeue, (c', w'))
      → control.update_status (terminating p) c ≡ (ok tt, c')
  unfolding reconcile_deletion
  reconcile_deletion-requeue p c c' w w' h =
      let inside = λ (m : Action C E (Unit {0})).
        in_control objects services options cwnp_namespace control documents m in
      let outside = in_service objects services options cwnp_namespace control documents (
        delete_in_service_cluster objects services options cwnp_namespace documents
          (terminating p)) in
      let last = finish objects services options cwnp_namespace control documents (terminating p) in
      let (a, v, first, later) =
        bind-ok (inside (control.update_status (terminating p))) (λ _. outside >>= last) (c, w)
          (c', w') requeue h in
      let (outcome, u, second, third) = bind-ok outside last v (c', w') requeue later in
      let (updated, _) =
        in_control-ok (control.update_status (terminating p)) c v.0 w v.1 a first in
      let (deleted, stays) =
        in_service-ok
          (delete_in_service_cluster objects services options cwnp_namespace documents
            (terminating p))
          v.0 u.0 v.1 u.1 outcome second in
      rw (stays ∙ finish_requeue (terminating p) outcome u.0 c' u.1 w' third) at updated
