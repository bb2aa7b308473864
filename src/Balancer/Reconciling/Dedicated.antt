-- ===== src/Balancer/Reconciling/Dedicated.antt =====
-- What the step of the service with the dedicated ip leaves in the cluster.
use postgreslet.Prelude.{
  ◌≡◌, ◌≢◌, refl, ap, ◌∙◌, sym, true, false, arith, text_eq, Bool-cases, inl, inr,
}
use postgreslet.Text.{Text, codes}
use postgreslet.Cluster.{Result, ok, err, NamespacedName, Client}
use postgreslet.Postgres.Model.{Postgres, enable_dedicated_svc_lb}
use postgreslet.Postgres.Names.{to_dedicated_svc_lb_namespaced_name}
use postgreslet.Postgres.Services.{Service, ServicePort, to_dedicated_svc_lb}
use postgreslet.Balancer.Socket.{Options, BalancerError, fetch_failed, create_failed, update_failed}
use postgreslet.Balancer.{
  create_or_update_dedicated_svc_lb, create_or_update_dedicated, dedicated_svc, dedicated_port,
  dedicated_ip, delete_dedicated_svc_lb,
}
use postgreslet.Balancer.Reconciling.{IsServiceClient, or_else_fail-ok}

module _ {W E : Type 0} (client : Client W E Service) (lawful : IsServiceClient client)
    (options : Options) (p : Postgres) where
  abbrev dedicated_key : NamespacedName
  dedicated_key = to_dedicated_svc_lb_namespaced_name p

  abbrev wanted : Service
  wanted = dedicated_svc client options p (dedicated_ip client options p)

  -- What a successful step wrote: a new service, or the one that was there with the wanted spec.
  data Written (w w' : W) : Type 0 where
    by_create : client.create wanted w ≡ (ok tt, w') → Written w w'
    by_update :
        (svc : Service)
        → client.get dedicated_key w ≡ ok svc
        → client.update (record svc { spec = wanted.spec; annotations = wanted.annotations }) w
          ≡ (ok tt, w')
        → Written w w'

  dispatch-Written :
      (r : Result E Service) (w : W) {w' : W}
      → client.get dedicated_key w ≡ r
      → create_or_update_dedicated client options wanted r w ≡ (ok tt, w')
      → Written w w'
  unfolding create_or_update_dedicated
  dispatch-Written (ok svc) w e done = by_update svc e (
      or_else_fail-ok update_failed
        (client.update (record svc { spec = wanted.spec; annotations = wanted.annotations })) w
        done)
  dispatch-Written (err e) w missing done = elim (Bool-cases (client.is_not_found e)) [
    | inl not_found ↦
        by_create (or_else_fail-ok create_failed (client.create wanted) w (rw not_found at done))
    | inr other ↦ absurd (fetch_refused w (rw other at done))
  ]
    where
      fetch_refused :
          (w : W) {w' : W}
          → ◌≡◌ {A = Result (BalancerError E) (Unit {0}) × W} (err (fetch_failed e), w) (ok tt, w')
          → ⊥
      fetch_refused w h = ground arith

  step-Written :
      (w : W) {w' : W}
      → enable_dedicated_svc_lb p ≡ true
      → create_or_update_dedicated_svc_lb client options p w ≡ (ok tt, w')
      → Written w w'
  unfolding create_or_update_dedicated_svc_lb
  step-Written w enabled done =
      let step : create_or_update_dedicated_svc_lb client options p w
          ≡ create_or_update_dedicated client options wanted (client.get dedicated_key w) w =
        rw enabled refl in
      dispatch-Written (client.get dedicated_key w) w refl (sym step ∙ done)

  wanted-key : client.key_of wanted ≡ dedicated_key
  unfolding create_or_update_dedicated_svc_lb to_dedicated_svc_lb
      to_dedicated_svc_lb_namespaced_name
  wanted-key = elim (Bool-cases options.enable_lb_source_ranges) [
    | inl e ↦ rw e (lawful.key_of_lem _)
    | inr e ↦ rw e (lawful.key_of_lem _)
  ]

  abbrev replaced : Service → Service
  replaced svc = record svc { spec = wanted.spec; annotations = wanted.annotations }

  replaced-key :
      (svc : Service) (w : W)
      → client.get dedicated_key w ≡ ok svc
      → client.key_of (replaced svc) ≡ dedicated_key
  replaced-key svc w there =
      lawful.key_of_lem (replaced svc)
      ∙ sym (lawful.key_of_lem svc)
      ∙ lawful.laws.key_of-get dedicated_key svc w there

  Written-there :
      {w w' : W}
      → Written w w'
      → (svc : Service) × (client.get dedicated_key w' ≡ ok svc) × (svc.spec ≡ wanted.spec)
  Written-there (by_create written) =
      (wanted, rw wanted-key at (lawful.laws.get-create_self wanted written), refl)
  Written-there {w} (by_update svc there written) = (
    replaced svc,
    rw (replaced-key svc w there) at (lawful.laws.get-update_self (replaced svc) written),
    refl,
  )

  Written-frame :
      (k : NamespacedName) {w w' : W}
      → dedicated_key ≢ k
      → Written w w'
      → client.get k w' ≡ client.get k w
  Written-frame k apart (by_create written) =
      lawful.laws.get-create_ne wanted k written (λ e. apart (sym wanted-key ∙ e))
  Written-frame k {w} apart (by_update svc there written) =
      lawful.laws.get-update_ne (replaced svc) k written
        (λ e. apart (sym (replaced-key svc w there) ∙ e))

  -- After a step that succeeds the service is there, if it is enabled.
  pub dedicated_svc_lb-exists :
      (w : W) {w' : W}
      → enable_dedicated_svc_lb p ≡ true
      → create_or_update_dedicated_svc_lb client options p w ≡ (ok tt, w')
      → (svc : Service) × (client.get dedicated_key w' ≡ ok svc)
  dedicated_svc_lb-exists w enabled done =
      let (svc, there, _) = Written-there (step-Written w enabled done) in (svc, there)

  disabled :
      (w : W) {w' : W}
      → enable_dedicated_svc_lb p ≡ false
      → create_or_update_dedicated_svc_lb client options p w ≡ (ok tt, w')
      → (client.delete dedicated_key w).1 ≡ w'
  unfolding create_or_update_dedicated_svc_lb delete_dedicated_svc_lb
  disabled w off done =
      let step : create_or_update_dedicated_svc_lb client options p w
          ≡ (ok tt, (client.delete dedicated_key w).1) =
        rw off refl in
      ap (λ (r : Result (BalancerError E) (Unit {0}) × W). r.1) (sym step ∙ done)

  -- A step that succeeds leaves every other service as it is.
  pub dedicated_svc_lb-frame :
      (k : NamespacedName) (w : W) {w' : W}
      → dedicated_key ≢ k
      → create_or_update_dedicated_svc_lb client options p w ≡ (ok tt, w')
      → client.get k w' ≡ client.get k w
  dedicated_svc_lb-frame k w apart done = elim (Bool-cases (enable_dedicated_svc_lb p)) [
    | inl enabled ↦ Written-frame k apart (step-Written w enabled done)
    | inr off ↦ rw (← disabled w off done) (lawful.laws.get-delete_ne dedicated_key k w apart)
  ]

  wanted_port : ServicePort
  wanted_port = record {
    name = codes "postgresql";
    port = dedicated_port client options p;
    protocol = codes "TCP";
    target_port = 5432;
  }
