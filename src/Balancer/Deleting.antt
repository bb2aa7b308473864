-- ===== src/Balancer/Deleting.antt =====
-- What the success of a deletion of a load balancer says of the call behind it.
use postgreslet.Prelude.{◌≡◌, refl, true, Bool-cases, ◌⊎◌, inl, inr, arith}
use postgreslet.Cluster.{Result, ok, err, NamespacedName, Client}
use postgreslet.Cluster.Actions.{world}
use postgreslet.Postgres.Model.{Postgres}
use postgreslet.Postgres.Names.{
  to_shared_svc_lb_namespaced_name, to_dedicated_svc_lb_namespaced_name,
}
use postgreslet.Postgres.Services.{Service}
use postgreslet.Balancer.{ignore_not_found, delete_shared_svc_lb, delete_dedicated_svc_lb}
use postgreslet.Balancer.Socket.{Options}

-- The service was deleted, or it was not there.
abbrev pub IsDeleted : {W E : Type 0} → Client W E Service → NamespacedName → W → W → Type 0
IsDeleted {E} client n w w' =
    (client.delete n w ≡ (ok tt, w'))
    ⊎ ((e : E) × (client.delete n w ≡ (err e, w')) × (client.is_not_found e ≡ true))

module _ {W E : Type 0} (client : Client W E Service) (options : Options) where
  ignored :
      (n : NamespacedName) (r : Result E (Unit {0})) (w v w' : W) (a : Unit {0})
      → client.delete n w ≡ (r, v)
      → ◌≡◌ {A = Result E (Unit {0}) × W} (ignore_not_found client options r, v) (ok a, w')
      → IsDeleted client n w w'
  unfolding ignore_not_found
  ignored n (ok _) w v w' a d h = inl (rw (world h) at d)
  ignored n (err e) w v w' a d h = elim (Bool-cases (client.is_not_found e)) [
    | inl missing ↦ inr (e, rw (world h) at d, missing)
    | inr found ↦ ground arith
  ]

  pub delete_shared_svc_lb-IsDeleted :
      (p : Postgres) (w w' : W) (a : Unit {0})
      → delete_shared_svc_lb client options p w ≡ (ok a, w')
      → IsDeleted client (to_shared_svc_lb_namespaced_name p) w w'
  unfolding delete_shared_svc_lb
  delete_shared_svc_lb-IsDeleted p w w' a h =
      let r = client.delete (to_shared_svc_lb_namespaced_name p) w in
      ignored (to_shared_svc_lb_namespaced_name p) r.0 w r.1 w' a refl h

  pub delete_dedicated_svc_lb-IsDeleted :
      (p : Postgres) (w w' : W) (a : Unit {0})
      → delete_dedicated_svc_lb client options p w ≡ (ok a, w')
      → IsDeleted client (to_dedicated_svc_lb_namespaced_name p) w w'
  unfolding delete_dedicated_svc_lb
  delete_dedicated_svc_lb-IsDeleted p w w' a h =
      let r = client.delete (to_dedicated_svc_lb_namespaced_name p) w in
      ignored (to_dedicated_svc_lb_namespaced_name p) r.0 w r.1 w' a refl h
