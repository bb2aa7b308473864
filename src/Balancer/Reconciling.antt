-- ===== src/Balancer/Reconciling.antt =====
-- What the manager leaves in the cluster, over any client that meets the laws.
pub mod Shared
pub mod Dedicated
pub mod Both
use mathlib.Core.List.{Memᴰ}
use postgreslet.Prelude.{
  ℕ, ◌+◌, ◌^◌, ◌≤◌, ◌<◌, ◌≡◌, ◌≢◌, refl, ap, ◌∙◌, sym, Bool, true, false, List, [], ◌∷◌, arith,
  contains, nat_eq, if◌then◌else◌,
}
use postgreslet.Text.{Text}
use postgreslet.Dict.{Dict}
use postgreslet.Cluster.{
  Result, ok, err, Action, or_else_fail, wrap_error, NamespacedName, Client, IsLawful,
}
use postgreslet.Postgres.Services.{Service, svc_load_balancer_label}

-- A lawful client for services: a service is found by its metadata.
pub record IsServiceClient {W E : Type 0} (client : Client W E Service) : Type 0 where
  pub laws : IsLawful client
  pub key_of_lem :
      (svc : Service) → client.key_of svc ≡ record { namespace = svc.namespace; name = svc.name }
  pub labels_of_lem : (svc : Service) → client.labels_of svc ≡ svc.labels

module _ {W E F : Type 0} (f : E → F) where
  wrapped_ok :
      (r : Result E (Unit {0}) × W) {w' : W}
      → ◌≡◌ {A = Result F (Unit {0}) × W} (wrap_error f r.0, r.1) (ok tt, w')
      → r ≡ (ok tt, w')
  wrapped_ok (ok _, w) h = ground arith
  wrapped_ok (err e, w) h = ground arith

  -- What succeeds with its error wrapped succeeds without.
  pub or_else_fail-ok :
      (m : Action W E (Unit {0})) (w : W) {w' : W}
      → or_else_fail m f w ≡ (ok tt, w')
      → m w ≡ (ok tt, w')
  or_else_fail-ok m w h = wrapped_ok (m w) h
