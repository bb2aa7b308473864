-- ===== src/Balancer/Reconciling/Both.antt =====
-- Both steps of `ReconcileSvcLBs` together.
use postgreslet.Prelude.{
  ◌≡◌, ◌≢◌, ◌⊎◌, inl, inr, refl, ap, ◌∙◌, sym, Bool, true, false, arith, text_eq, Bool-cases,
}
use postgreslet.Cluster.{Result, ok, err, NamespacedName, Client}
use postgreslet.Postgres.Model.{Postgres, enable_shared_svc_lb, enable_dedicated_svc_lb}
use postgreslet.Postgres.Names.{
  to_shared_svc_lb_namespaced_name, to_dedicated_svc_lb_namespaced_name,
}
use postgreslet.Postgres.Names.Bounds.{svc_lb_names-ne}
use postgreslet.Postgres.Services.{Service}
use postgreslet.Balancer.Socket.{Options, BalancerError}
use postgreslet.Balancer.{
  create_or_update_dedicated_svc_lb, create_or_update_shared_svc_lb, reconcile_svc_lbs, join_errors,
}
use postgreslet.Balancer.Reconciling.{IsServiceClient}
use postgreslet.Balancer.Reconciling.Shared.{shared_svc_lb-there, shared_svc_lb-frame}
use postgreslet.Balancer.Reconciling.Dedicated.{dedicated_svc_lb-exists, dedicated_svc_lb-frame}

-- The shared service is enabled where the dedicated one is not.
shared_svc_lb_enabled :
    (p : Postgres) (force : Bool)
    → enable_dedicated_svc_lb p ≡ false
    → enable_shared_svc_lb p force ≡ true
unfolding enable_shared_svc_lb enable_dedicated_svc_lb
shared_svc_lb_enabled p force off = ground arith

keys_ne :
    (p : Postgres) → to_dedicated_svc_lb_namespaced_name p ≢ to_shared_svc_lb_namespaced_name p
unfolding to_shared_svc_lb_namespaced_name to_dedicated_svc_lb_namespaced_name
keys_ne p e = svc_lb_names-ne p (sym (ap (λ (k : NamespacedName). k.name) e))

module _ {W E : Type 0} (client : Client W E Service) (lawful : IsServiceClient client)
    (options : Options) (p : Postgres) where
  abbrev paired : Result (BalancerError E) (Unit {0}) → W → Result (BalancerError E) (Unit {0}) × W
  paired r u = (r, u)

  joined_ok :
      (r r' : Result (BalancerError E) (Unit {0})) (w : W) {w' : W}
      → ◌≡◌ {A = Result (BalancerError E) (Unit {0}) × W}
          (join_errors client options r r', w)
          (ok tt, w')
      → (r ≡ ok tt) × (r' ≡ ok tt) × (w ≡ w')
  unfolding join_errors
  joined_ok (ok _) (ok _) w h = (refl, refl, ground arith)
  joined_ok (err e) (ok _) w h = ground arith
  joined_ok (ok _) (err e) w h = ground arith
  joined_ok (err e) (err f) w h = ground arith

  -- A reconciliation that succeeds is one successful step after the other.
  reconcile_svc_lbs-ok :
      (w : W) {w' : W}
      → reconcile_svc_lbs client options p w ≡ (ok tt, w')
      → (v : W) × (create_or_update_shared_svc_lb client options p w ≡ (ok tt, v))
        × (create_or_update_dedicated_svc_lb client options p v ≡ (ok tt, w'))
  unfolding reconcile_svc_lbs
  reconcile_svc_lbs-ok w {w'} done =
      let first = create_or_update_shared_svc_lb client options p w in
      let second = create_or_update_dedicated_svc_lb client options p first.1 in
      let (e, e', last) = joined_ok first.0 second.0 second.1 done in
      (
        first.1,
        ap (λ (r : Result (BalancerError E) (Unit {0})). paired r first.1) e,
        ap (λ (r : Result (BalancerError E) (Unit {0})). paired r second.1) e'
            ∙ ap (λ (u : W). paired (ok tt) u) last,
      )

  -- Over a lawful client: after a reconciliation that succeeds the shared service is there, if it
  -- is enabled.
  pub reconcile_svc_lbs-shared :
      (w : W) {w' : W}
      → enable_shared_svc_lb p options.enable_force_shared_ip ≡ true
      → reconcile_svc_lbs client options p w ≡ (ok tt, w')
      → (svc : Service) × (client.get (to_shared_svc_lb_namespaced_name p) w' ≡ ok svc)
  reconcile_svc_lbs-shared w enabled done =
      let (v, first, second) = reconcile_svc_lbs-ok w done in
      let (svc, there) = shared_svc_lb-there client lawful options p w enabled first in
      (
        svc,
        dedicated_svc_lb-frame client lawful options p (to_shared_svc_lb_namespaced_name p) v
              (keys_ne p) second
            ∙ there,
      )

  -- Over a lawful client: after a reconciliation that succeeds the database has a service, the
  -- shared or the dedicated one, whatever the resource and the options ask for.
  pub reconcile_svc_lbs-some :
      (w : W) {w' : W}
      → reconcile_svc_lbs client options p w ≡ (ok tt, w')
      → (svc : Service) × ((client.get (to_shared_svc_lb_namespaced_name p) w' ≡ ok svc)
          ⊎ (client.get (to_dedicated_svc_lb_namespaced_name p) w' ≡ ok svc))
  reconcile_svc_lbs-some w done = elim (Bool-cases (enable_dedicated_svc_lb p)) [
    | inl on ↦
        let (v, first, second) = reconcile_svc_lbs-ok w done in
        let (svc, there) = dedicated_svc_lb-exists client lawful options p v on second in
        (svc, inr there)
    | inr off ↦
        let (svc, there) =
          reconcile_svc_lbs-shared w (shared_svc_lb_enabled p options.enable_force_shared_ip off)
            done in
        (svc, inl there)
  ]

  -- Over a lawful client: a reconciliation that succeeds leaves every service other than the two
  -- of its database as it is.
  pub reconcile_svc_lbs-frame :
      (k : NamespacedName) (w : W) {w' : W}
      → to_shared_svc_lb_namespaced_name p ≢ k
      → to_dedicated_svc_lb_namespaced_name p ≢ k
      → reconcile_svc_lbs client options p w ≡ (ok tt, w')
      → client.get k w' ≡ client.get k w
  reconcile_svc_lbs-frame k w not_shared not_dedicated done =
      let (v, first, second) = reconcile_svc_lbs-ok w done in
      dedicated_svc_lb-frame client lawful options p k v not_dedicated second
      ∙ shared_svc_lb-frame client lawful options p k w not_shared first
