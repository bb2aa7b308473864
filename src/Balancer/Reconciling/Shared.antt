-- ===== src/Balancer/Reconciling/Shared.antt =====
-- The service with the shared ip.
pub mod Ranges
use postgreslet.Prelude.{
  ℕ, ◌+◌, ◌^◌, ◌≤◌, ◌<◌, ◌≡◌, ◌≢◌, refl, ap, ◌∙◌, sym, true, false, List, [], ◌∷◌, arith, contains,
  nat_eq, text_eq, Bool-cases, inl, inr,
}
use postgreslet.Text.{Text, codes}
use postgreslet.Cluster.{Result, ok, err, NamespacedName, Client, Result-cases, or_else_fail}
use postgreslet.Postgres.Model.{Postgres, enable_shared_svc_lb}
use postgreslet.Postgres.Names.{to_shared_svc_lb_namespaced_name}
use postgreslet.Postgres.Services.{Service, ServicePort, svc_load_balancer_label, to_shared_svc_lb}
use postgreslet.Balancer.Socket.{
  Options, BalancerError, fetch_failed, create_failed, update_failed, ports_in_use,
  next_free_socket,
}
use postgreslet.Balancer.FreeSocket.{mem-ports_in_use, next_free_socket-free}
use postgreslet.Balancer.{
  delete_shared_svc_lb, create_or_update_shared_svc_lb, create_or_update_shared, create_shared,
  shared_svc, updated_shared, keep_ranges, lb_ip_to_use,
}
use postgreslet.Balancer.Reconciling.{IsServiceClient, or_else_fail-ok}

ok_injective : {E A : Type 0} {a b : A} → ◌≡◌ {A = Result E A} (ok a) (ok b) → a ≡ b
ok_injective e = cc

first_port :
    {chosen : ℕ} {port : ServicePort} {text protocol : Text} {target : ℕ} {ports : List ServicePort}
    → ◌≡◌ {A = List ServicePort}
        (record { name = text; port = chosen; protocol = protocol; target_port = target } ∷ [])
        (port ∷ ports)
    → chosen ≡ port.port
first_port e = cc

module _ {W E : Type 0} (client : Client W E Service) (lawful : IsServiceClient client)
    (options : Options) (p : Postgres) where
  abbrev shared_key : NamespacedName
  shared_key = to_shared_svc_lb_namespaced_name p

  -- The step where it updates the service that is there.
  updating :
      (svc : Service) (w : W) {w' : W}
      → enable_shared_svc_lb p options.enable_force_shared_ip ≡ true
      → client.get shared_key w ≡ ok svc
      → create_or_update_shared_svc_lb client options p w ≡ (ok tt, w')
      → (client.update (updated_shared client options p svc) w ≡ (ok tt, w'))
        × (client.key_of (updated_shared client options p svc) ≡ shared_key)
  unfolding create_or_update_shared_svc_lb
  updating svc w enabled there done =
      let svc' = updated_shared client options p svc in
      let step : create_or_update_shared_svc_lb client options p w
          ≡ or_else_fail (client.update svc') update_failed w =
        rw (enabled, there) refl in
      (
        or_else_fail-ok update_failed (client.update svc') w (sym step ∙ done),
        lawful.key_of_lem svc'
            ∙ sym (lawful.key_of_lem svc)
            ∙ lawful.laws.key_of-get shared_key svc w there,
      )

  -- Over a lawful client: where the shared service is enabled and there, a step that succeeds
  -- leaves it there with the ports, the ip, the type and the labels that it had.
  pub shared_svc_lb-keeps_socket :
      (svc : Service) (w : W) {w' : W}
      → enable_shared_svc_lb p options.enable_force_shared_ip ≡ true
      → client.get shared_key w ≡ ok svc
      → create_or_update_shared_svc_lb client options p w ≡ (ok tt, w')
      → (svc' : Service) × (client.get shared_key w' ≡ ok svc')
        × (svc'.spec.ports ≡ svc.spec.ports)
        × (svc'.spec.load_balancer_ip ≡ svc.spec.load_balancer_ip)
        × (svc'.spec.service_type ≡ svc.spec.service_type)
        × (svc'.labels ≡ svc.labels)
  unfolding create_or_update_shared_svc_lb
  shared_svc_lb-keeps_socket svc w enabled there done =
      let svc' = updated_shared client options p svc in
      let (updated, key) = updating svc w enabled there done in
      (svc', rw key at (lawful.laws.get-update_self svc' updated), refl, refl, refl, refl)

  -- What the step creates where there is no service, for the socket that it was given.
  abbrev created : Text → ℕ → Service
  created ip port =
      keep_ranges client options (shared_svc client options p (lb_ip_to_use client options ip) port)

  created-socket :
      (ip : Text) (port : ℕ)
      → ((created ip port).spec.ports
          ≡ record {
            name = codes "postgresql";
            port = port;
            protocol = codes "TCP";
            target_port = 5432;
          }
            ∷ [])
        × (client.key_of (created ip port) ≡ shared_key)
  unfolding create_or_update_shared_svc_lb to_shared_svc_lb to_shared_svc_lb_namespaced_name
  created-socket ip port = elim (Bool-cases options.enable_lb_source_ranges) [
    | inl e ↦ rw e (refl, lawful.key_of_lem _)
    | inr e ↦ rw e (refl, lawful.key_of_lem _)
  ]

  -- Inversion of a successful creation.
  create_shared-ok :
      (r : Result (BalancerError E) (Text × ℕ)) (w : W) {w' : W}
      → create_shared client options p r w ≡ (ok tt, w')
      → (ip : Text) × (port : ℕ) × (r ≡ ok (ip, port))
        × (client.create (created ip port) w ≡ (ok tt, w'))
  unfolding create_shared
  create_shared-ok (err e) w h = ground arith
  create_shared-ok (ok (ip, port)) w h =
      (ip, port, refl, or_else_fail-ok create_failed (client.create (created ip port)) w h)

  abbrev new_port : ℕ → ServicePort
  new_port port = record {
    name = codes "postgresql";
    port = port;
    protocol = codes "TCP";
    target_port = 5432;
  }

  -- The step where it creates the service.
  creation :
      (w : W) (e : E) {w' : W}
      → enable_shared_svc_lb p options.enable_force_shared_ip ≡ true
      → client.get shared_key w ≡ err e
      → client.is_not_found e ≡ true
      → create_or_update_shared_svc_lb client options p w ≡ (ok tt, w')
      → (ip : Text) × (port : ℕ) × (next_free_socket client options w ≡ ok (ip, port))
        × (client.create (created ip port) w ≡ (ok tt, w'))
        × (client.get shared_key w' ≡ ok (created ip port))
  unfolding create_or_update_shared_svc_lb
  creation w e enabled missing not_found done =
      let step : create_or_update_shared_svc_lb client options p w
          ≡ create_shared client options p (next_free_socket client options w) w =
        rw (enabled, missing, create_or_update_shared, not_found) refl in
      let (ip, port, socket, written) =
        create_shared-ok (next_free_socket client options w) w (sym step ∙ done) in
      let there = lawful.laws.get-create_self (created ip port) written in
      (ip, port, socket, written, rw ((created-socket ip port).1) at there)

  -- Over a lawful client: where the shared service is enabled and not there yet, the range of
  -- ports is not empty and does not wrap, and the services with the manager's label can be listed,
  -- a step that succeeds leaves the service with one port, which lies in the configured range.
  pub shared_svc_lb-in_range :
      (w : W) (e : E) (services : List Service) {w' : W}
      → enable_shared_svc_lb p options.enable_force_shared_ip ≡ true
      → client.get shared_key w ≡ err e
      → client.is_not_found e ≡ true
      → options.port_range_start + options.port_range_size < 2 ^ 31
      → 0 < options.port_range_size
      → client.list_all svc_load_balancer_label w ≡ ok services
      → create_or_update_shared_svc_lb client options p w ≡ (ok tt, w')
      → (svc : Service) × (port : ServicePort) × (client.get shared_key w' ≡ ok svc)
        × (svc.spec.ports ≡ port ∷ [])
        × (options.port_range_start ≤ port.port)
        × (port.port < options.port_range_start + options.port_range_size)
  shared_svc_lb-in_range w e services enabled missing not_found fits some_port listed done =
      let (ip, port, socket, written, there) = creation w e enabled missing not_found done in
      let free = next_free_socket-free client options w services fits some_port listed socket in
      (created ip port, new_port port, there, (created-socket ip port).0, free.0, free.1)

  -- Over a lawful client: where the shared service is enabled and not there, the range of ports is
  -- not empty and does not wrap, and the services with the manager's label can be listed, a step
  -- that succeeds creates the service with a port that is not the first port of any other service
  -- that has exactly the manager's label after the step.
  pub shared_svc_lb-fresh_port :
      (w : W) (e : E) (services : List Service) {w' : W}
      → enable_shared_svc_lb p options.enable_force_shared_ip ≡ true
      → client.get shared_key w ≡ err e
      → client.is_not_found e ≡ true
      → options.port_range_start + options.port_range_size < 2 ^ 31
      → 0 < options.port_range_size
      → client.list_all svc_load_balancer_label w ≡ ok services
      → create_or_update_shared_svc_lb client options p w ≡ (ok tt, w')
      → (k : NamespacedName) (svc other : Service) (port q : ServicePort)
        (ports rest : List ServicePort)
      → client.get shared_key w' ≡ ok svc
      → svc.spec.ports ≡ port ∷ ports
      → shared_key ≢ k
      → client.get k w' ≡ ok other
      → other.labels ≡ svc_load_balancer_label
      → other.spec.ports ≡ q ∷ rest
      → q.port ≢ port.port
  shared_svc_lb-fresh_port w e services {w'} enabled missing not_found fits some_port listed done k
        svc other port q ports rest read own apart read_other managed other_own same =
      let (ip, chosen, socket, written, there) = creation w e enabled missing not_found done in
      let free = next_free_socket-free client options w services fits some_port listed socket in
      let here = created-socket ip chosen in
      let before : client.get k w ≡ ok other =
        sym (lawful.laws.get-create_ne (created ip chosen) k written (λ e. apart (sym here.1 ∙ e)))
        ∙ read_other in
      let member =
        lawful.laws.get-list_all k other svc_load_balancer_label w services listed before
          (lawful.labels_of_lem other ∙ managed) in
      let used : contains (ports_in_use services) q.port ≡ true =
        mem-ports_in_use services other q rest member other_own in
      let is_created : created ip chosen ≡ svc = ok_injective (sym there ∙ read) in
      let own_ports : new_port chosen ∷ [] ≡ port ∷ ports =
        sym here.0 ∙ ap (λ (t : Service). t.spec.ports) is_created ∙ own in
      let chosen_port : chosen ≡ port.port = first_port own_ports in
      let unused : contains (ports_in_use services) chosen ≡ false = free.2 in ground arith

  -- Where the service cannot be read for another reason, the step fails.
  refused :
      (w : W) (e : E) {w' : W}
      → enable_shared_svc_lb p options.enable_force_shared_ip ≡ true
      → client.get shared_key w ≡ err e
      → client.is_not_found e ≡ false
      → create_or_update_shared_svc_lb client options p w ≢ (ok tt, w')
  unfolding create_or_update_shared_svc_lb
  refused w e enabled missing other done =
      let step : create_or_update_shared_svc_lb client options p w ≡ (err (fetch_failed e), w) =
        rw (enabled, missing, create_or_update_shared, other) refl in
      let wrong = sym step ∙ done in ground arith

  -- After a step that succeeds the service is there.
  pub shared_svc_lb-there :
      (w : W) {w' : W}
      → enable_shared_svc_lb p options.enable_force_shared_ip ≡ true
      → create_or_update_shared_svc_lb client options p w ≡ (ok tt, w')
      → (svc : Service) × (client.get shared_key w' ≡ ok svc)
  shared_svc_lb-there w enabled done = elim (Result-cases (client.get shared_key w)) [
    | inl (svc, there) ↦
        let kept = shared_svc_lb-keeps_socket svc w enabled there done in (kept.0, kept.1)
    | inr (e, missing) ↦ elim (Bool-cases (client.is_not_found e)) [
      | inl not_found ↦
          let new = creation w e enabled missing not_found done in (created new.0 new.1, new.4)
      | inr other ↦ absurd (refused w e enabled missing other done)
    ]
  ]

  disabled :
      (w : W) {w' : W}
      → enable_shared_svc_lb p options.enable_force_shared_ip ≡ false
      → create_or_update_shared_svc_lb client options p w ≡ (ok tt, w')
      → (client.delete shared_key w).1 ≡ w'
  unfolding create_or_update_shared_svc_lb delete_shared_svc_lb
  disabled w off done =
      let step : create_or_update_shared_svc_lb client options p w
          ≡ (ok tt, (client.delete shared_key w).1) =
        rw off refl in
      ap (λ (r : Result (BalancerError E) (Unit {0}) × W). r.1) (sym step ∙ done)

  -- A step that succeeds leaves every other service as it is.
  pub shared_svc_lb-frame :
      (k : NamespacedName) (w : W) {w' : W}
      → shared_key ≢ k
      → create_or_update_shared_svc_lb client options p w ≡ (ok tt, w')
      → client.get k w' ≡ client.get k w
  shared_svc_lb-frame k w apart done =
      elim (Bool-cases (enable_shared_svc_lb p options.enable_force_shared_ip)) [
        | inr off ↦ rw (← disabled w off done) (lawful.laws.get-delete_ne shared_key k w apart)
        | inl enabled ↦ elim (Result-cases (client.get shared_key w)) [
          | inl (svc, there) ↦
              let (updated, key) = updating svc w enabled there done in
              lawful.laws.get-update_ne (updated_shared client options p svc) k updated
                (λ e. apart (sym key ∙ e))
          | inr (e, missing) ↦ elim (Bool-cases (client.is_not_found e)) [
            | inl not_found ↦
                let new = creation w e enabled missing not_found done in
                lawful.laws.get-create_ne (created new.0 new.1) k new.3
                  (λ q. apart (sym (created-socket new.0 new.1).1 ∙ q))
            | inr other ↦ absurd (refused w e enabled missing other done)
          ]
        ]
      ]
