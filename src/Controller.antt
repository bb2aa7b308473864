-- ===== src/Controller.antt =====
-- The postgres controller (controllers/postgres_controller.go): the beginning of `Reconcile` and all
-- of it for a database that is being deleted. Its state is a pair, of the control cluster and of the
-- service cluster.
pub mod Completion
pub mod Deletion
pub mod Finalizer
pub mod Ending
use postgreslet.Prelude.{
  ℕ, Bool, true, false, some, List, [], ◌∷◌, ◌++◌, ◌=?◌, text_eq, not, if◌then◌else◌,
}
use postgreslet.Text.{Text, codes}
use postgreslet.Dict.{Dict}
use postgreslet.Cluster.{
  Result, ok, err, Action, pure, fail, ◌>>=◌, ◌>>◌, or_else_fail, NamespacedName, Client,
}
use postgreslet.Cluster.Actions.{attempt, reading}
use postgreslet.Kube.{Metadata, Body, Object, Key, key_of, Objects}
use postgreslet.Postgres.Model.{
  Postgres, PostgresSpec, PostgresStatus, is_being_deleted, remove_finalizer, remove_elem,
}
use postgreslet.Postgres.Names.{
  to_peripheral_resource_name, to_peripheral_resource_namespace, to_user_passwords_secret_name,
}
use postgreslet.Postgres.Secrets.{to_zalando_postgresql_matching_labels}
use postgreslet.Postgres.Services.{Service}
use postgreslet.Balancer.Socket.{Options}
use postgreslet.Balancer.{delete_shared_svc_lb, delete_dedicated_svc_lb}
use postgreslet.Policies.Firewall.{delete_cwnp}
use postgreslet.Operator.Install.{OperatorError, Documents}
use postgreslet.Operator.Uninstall.{is_operator_deletable, uninstall_operator}

-- An error of one of the clusters, or of the operator manager; wrapped or not.
pub data ReconcileError (E : Type 0) : Type 0 where
  api : E → ReconcileError E
  operator : OperatorError E → ReconcileError E

-- What `Reconcile` returns without an error.
pub data ReconcileResult : Type 0 where
  done requeue : ReconcileResult

-- What `Reconcile` has come to after its first part.
pub data NextStep : Type 0 where
  finished : ReconcileResult → NextStep
  reconciles : Postgres → NextStep

-- The calls for the control cluster.
pub record Control (C E : Type 0) : Type 0 where
  pub get : NamespacedName → C → Result E Postgres
  pub update_status : Postgres → Action C E (Unit {0})
  pub update : Postgres → Action C E (Unit {0})
  pub delete_secret : NamespacedName → Action C E (Unit {0})
  pub is_not_found : E → Bool

abbrev pub exporter_service_key : Text → Key
exporter_service_key namespace = record {
  kind = codes "Service";
  namespace = namespace;
  name = codes "postgres-exporter";
}

abbrev pub storage_secret_key : Text → Key
storage_secret_key namespace = record {
  kind = codes "Secret";
  namespace = namespace;
  name = codes "storage-encryption-key";
}

abbrev pub net_pol_key : Postgres → Key
net_pol_key p = record {
  kind = codes "NetworkPolicy";
  namespace = to_peripheral_resource_namespace p;
  name = to_peripheral_resource_name p ++ codes "-egress";
}

-- One call after the other, until one fails.
abbrev pub run_all : {W E : Type 0} → List (Action W E (Unit {0})) → Action W E (Unit {0})
run_all [] = pure tt
run_all (m ∷ rest) = m >> run_all rest

-- `client.IgnoreNotFound(m)`
abbrev pub ignoring : {E : Type 0} → (E → Bool) → Result E (Unit {0}) → Result E (Unit {0})
ignoring is_missing (ok _) = ok tt
ignoring is_missing (err e) = if is_missing e then ok tt else err e

abbrev pub ignoring_not_found :
    {W E : Type 0} → (E → Bool) → Action W E (Unit {0}) → Action W E (Unit {0})
ignoring_not_found is_missing m w = let (r, w') = m w in (ignoring is_missing r, w')

-- The partition and the tenant of this postgreslet; an empty tenant stands for all.
unfoldable pub is_managed_by_us : Text → Text → Postgres → Bool
is_managed_by_us partition_id tenant p =
    if not (p.spec.partition_id =? partition_id)
    then false
    else if tenant =? []
    then true
    else p.spec.tenant =? tenant

abbrev pub cleared : Object → Object
cleared secret = record secret {
  meta = record secret.meta {
    finalizers =
        remove_elem secret.meta.finalizers (codes "postgres.database.fits.cloud/secret-finalizer");
  };
}

module _ {W E : Type 0} (objects : Objects W E) (services : Client W E Service) (options : Options)
    (cwnp_namespace : Text) where
  delete_each : List Object → Action W E (Unit {0})
  delete_each [] = pure tt
  delete_each (z ∷ rest) = objects.delete (key_of z) >> delete_each rest

  unfoldable pub delete_z_postgresql_by_labels : Dict Text Text → Text → Action W E (Unit {0})
  unfolding delete_each
  delete_z_postgresql_by_labels labels namespace =
      reading (objects.list_all (codes "postgresql") (some namespace) labels) >>= delete_each

  -- Of any error there is only a line in the log.
  unfoldable pub delete_net_pol : Postgres → Action W E (Unit {0})
  delete_net_pol p w = (ok tt, (objects.delete (net_pol_key p) w).1)

  without_finalizer : Result E Object → Action W E (Unit {0})
  without_finalizer (err e) = if objects.is_not_found e then pure tt else fail e
  without_finalizer (ok secret) = objects.update (cleared secret)

  unfoldable pub remove_storage_encryption_secret_finalizer : Postgres → Action W E (Unit {0})
  unfolding without_finalizer
  remove_storage_encryption_secret_finalizer p =
      attempt (reading (objects.get (storage_secret_key (to_peripheral_resource_namespace p))))
      >>= without_finalizer

  -- What goes before the operator is looked at.
  unfoldable pub delete_peripherals : Postgres → Action W E (Unit {0})
  delete_peripherals p =
      let namespace = to_peripheral_resource_namespace p in
      run_all (
        ignoring_not_found objects.is_not_found (delete_cwnp objects cwnp_namespace p)
        ∷ delete_shared_svc_lb services options p
        ∷ delete_dedicated_svc_lb services options p
        ∷ ignoring_not_found objects.is_not_found (objects.delete (exporter_service_key namespace))
        ∷ delete_z_postgresql_by_labels (to_zalando_postgresql_matching_labels p) namespace
        ∷ delete_net_pol p
        ∷ remove_storage_encryption_secret_finalizer p
        ∷ [])

  -- An operator that is not yet deletable is left for the next time.
  uninstall_if : Documents → Text → Bool → Action W (ReconcileError E) ReconcileResult
  uninstall_if documents namespace false = pure requeue
  uninstall_if documents namespace true = do
    or_else_fail (uninstall_operator objects documents namespace) operator
    pure done

  unfoldable pub delete_in_service_cluster :
      Documents → Postgres → Action W (ReconcileError E) ReconcileResult
  unfolding uninstall_if
  delete_in_service_cluster documents p = do
    or_else_fail (delete_peripherals p) api
    deletable ←
        or_else_fail
          (is_operator_deletable objects (to_peripheral_resource_namespace p)
            (to_peripheral_resource_name p))
          operator
    uninstall_if documents (to_peripheral_resource_namespace p) deletable

  module _ {C : Type 0} (control : Control C E) (documents : Documents) where
    in_control : {A : Type 0} → Action C E A → Action (C × W) (ReconcileError E) A
    in_control m (c, w) = let (r, c') = or_else_fail m api c in (r, (c', w))

    in_service : {A : Type 0} → Action W (ReconcileError E) A → Action (C × W) (ReconcileError E) A
    in_service m (c, w) = let (r, w') = m w in (r, (c, w'))

    -- The secret with the passwords, and then the finalizer.
    finish : Postgres → ReconcileResult → Action (C × W) (ReconcileError E) ReconcileResult
    finish p requeue = pure requeue
    finish p done = do
      in_control (
          ignoring_not_found control.is_not_found (
            control.delete_secret
              (record { namespace = p.namespace; name = to_user_passwords_secret_name p })))
      in_control
          (control.update (remove_finalizer p (codes "postgres.finalizers.database.fits.cloud")))
      pure done

    unfoldable pub reconcile_deletion : Postgres → Action (C × W) (ReconcileError E) ReconcileResult
    unfolding finish in_control in_service
    reconcile_deletion p0 = do
      let p = record p0 { status = record p0.status { description = codes "Terminating" } }
      in_control (control.update_status p)
      outcome ← in_service (delete_in_service_cluster documents p)
      finish p outcome

    after_get : Text → Text → Result E Postgres → Action (C × W) (ReconcileError E) NextStep
    after_get partition_id tenant (err e) =
        if control.is_not_found e then pure (finished done) else fail (api e)
    after_get partition_id tenant (ok p) =
        if not (is_managed_by_us partition_id tenant p)
        then pure (finished done)
        else if is_being_deleted p
        then reconcile_deletion p >>= (λ result. pure (finished result))
        else pure (reconciles p)

    -- `Reconcile`, up to where it goes on with a database that is not being deleted.
    unfoldable pub begin_reconcile :
        Text → Text → NamespacedName → Action (C × W) (ReconcileError E) NextStep
    unfolding after_get
    begin_reconcile partition_id tenant name =
        attempt (reading (λ (w : C × W). control.get name w.0)) >>= after_get partition_id tenant
