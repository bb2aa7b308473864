-- ===== src/Balancer.antt =====
-- The manager of the services of type LoadBalancer (pkg/lbmanager/lbmanager.go), over any client of
-- the service cluster.
pub mod Deleting
pub mod Socket
pub mod Search
pub mod FreeSocket
pub mod Reconciling
use postgreslet.Prelude.{
  ℕ, Bool, true, false, not, Option, none, some, List, [], ◌∷◌, ◌=?◌, text_eq, ◌==◌, if◌then◌else◌,
}
use postgreslet.Text.{Text}
use postgreslet.Cluster.{
  Result, ok, err, Action, pure, fail, ◌>>=◌, ◌>>◌, or_else_fail, wrap_error, Client,
}
use postgreslet.Postgres.Model.{Postgres, enable_shared_svc_lb, enable_dedicated_svc_lb}
use postgreslet.Postgres.Names.{
  to_shared_svc_lb_namespaced_name, to_dedicated_svc_lb_namespaced_name,
}
use postgreslet.Postgres.Services.{
  Service, to_shared_svc_lb, to_dedicated_svc_lb, svc_load_balancer_label,
}
use postgreslet.Balancer.Socket.{
  Options, BalancerError, fetch_failed, create_failed, update_failed, free_port_failed,
  shared_failed, dedicated_failed, both_failed, next_free_socket,
}

module _ {W E : Type 0} (client : Client W E Service) (options : Options) where
  -- `client.IgnoreNotFound(err)`
  ignore_not_found : Result E (Unit {0}) → Result E (Unit {0})
  ignore_not_found (ok _) = ok tt
  ignore_not_found (err e) = if client.is_not_found e then ok tt else err e

  unfoldable pub delete_shared_svc_lb : Postgres → Action W E (Unit {0})
  unfolding ignore_not_found
  delete_shared_svc_lb p w =
      let (r, w') = client.delete (to_shared_svc_lb_namespaced_name p) w in (ignore_not_found r, w')

  unfoldable pub delete_dedicated_svc_lb : Postgres → Action W E (Unit {0})
  unfolding ignore_not_found
  delete_dedicated_svc_lb p w =
      let (r, w') = client.delete (to_dedicated_svc_lb_namespaced_name p) w in
      (ignore_not_found r, w')

  -- `svc.Spec.LoadBalancerSourceRanges = []string{}`, where the ranges are not enabled.
  keep_ranges : Service → Service
  keep_ranges svc =
      if options.enable_lb_source_ranges
      then svc
      else record svc { spec = record svc.spec { load_balancer_source_ranges = [] } }

  -- The configured ip, or else the one in use, or else none, so that a new one is assigned.
  lb_ip_to_use : Text → Text
  lb_ip_to_use existing_lb_ip = if options.lb_ip =? [] then existing_lb_ip else options.lb_ip

  shared_svc : Postgres → Text → ℕ → Service
  shared_svc p ip port =
      to_shared_svc_lb p ip port options.enable_standby_leader_selector
        options.enable_legacy_standby_selector options.standby_clusters_source_ranges

  create_shared :
      Postgres → Result (BalancerError E) (Text × ℕ) → Action W (BalancerError E) (Unit {0})
  create_shared p (err e) = fail (free_port_failed e)
  create_shared p (ok (existing_lb_ip, port)) =
      or_else_fail (client.create (keep_ranges (shared_svc p (lb_ip_to_use existing_lb_ip) port)))
        create_failed

  -- The service as it is, with a new selector, new ranges and new annotations.
  updated_shared : Postgres → Service → Service
  updated_shared p svc =
      let updated = shared_svc p [] 0 in
      record svc {
        spec = record svc.spec {
          selector = updated.spec.selector;
          load_balancer_source_ranges =
              if options.enable_lb_source_ranges
              then updated.spec.load_balancer_source_ranges
              else [];
        };
        annotations = updated.annotations;
      }

  create_or_update_shared : Postgres → Result E Service → Action W (BalancerError E) (Unit {0})
  create_or_update_shared p (err e) =
      if client.is_not_found e
      then (λ w. create_shared p (next_free_socket client options w) w)
      else fail (fetch_failed e)
  create_or_update_shared p (ok svc) =
      or_else_fail (client.update (updated_shared p svc)) update_failed

  unfoldable pub create_or_update_shared_svc_lb : Postgres → Action W (BalancerError E) (Unit {0})
  unfolding create_or_update_shared create_shared updated_shared shared_svc keep_ranges lb_ip_to_use
  create_or_update_shared_svc_lb p w =
      if enable_shared_svc_lb p options.enable_force_shared_ip
      then create_or_update_shared p (client.get (to_shared_svc_lb_namespaced_name p) w) w
      else (ok tt, (delete_shared_svc_lb p w).1)

  -- The port of the dedicated service: 5432, unless another one is given.
  unfoldable pub dedicated_port : Postgres → ℕ
  dedicated_port p = elim p.spec.dedicated_load_balancer_port [
    | none ↦ 5432
    | some port ↦ if port == 0 then 5432 else port
  ]

  dedicated_svc : Postgres → Text → Service
  dedicated_svc p ip = keep_ranges (
      to_dedicated_svc_lb p ip (dedicated_port p) options.standby_clusters_source_ranges
        (enable_shared_svc_lb p options.enable_force_shared_ip))

  create_or_update_dedicated : Service → Result E Service → Action W (BalancerError E) (Unit {0})
  create_or_update_dedicated new (err e) =
      if client.is_not_found e
      then or_else_fail (client.create new) create_failed
      else fail (fetch_failed e)
  create_or_update_dedicated new (ok existing) =
      or_else_fail
        (client.update (record existing { spec = new.spec; annotations = new.annotations }))
        update_failed

  -- `*in.Spec.DedicatedLoadBalancerIP`, which is set where the dedicated service is enabled.
  dedicated_ip : Postgres → Text
  dedicated_ip p = elim p.spec.dedicated_load_balancer_ip [ none ↦ [] | some ip ↦ ip ]

  unfoldable pub create_or_update_dedicated_svc_lb :
      Postgres → Action W (BalancerError E) (Unit {0})
  unfolding create_or_update_dedicated dedicated_svc dedicated_port dedicated_ip keep_ranges
  create_or_update_dedicated_svc_lb p w =
      if enable_dedicated_svc_lb p
      then create_or_update_dedicated (dedicated_svc p (dedicated_ip p))
          (client.get (to_dedicated_svc_lb_namespaced_name p) w) w
      else (ok tt, (delete_dedicated_svc_lb p w).1)

  -- `errors.Join` of the errors of the two steps.
  join_errors :
      Result (BalancerError E) (Unit {0})
      → Result (BalancerError E) (Unit {0})
      → Result (BalancerError E) (Unit {0})
  join_errors (ok _) (ok _) = ok tt
  join_errors (err e) (ok _) = err (shared_failed e)
  join_errors (ok _) (err e) = err (dedicated_failed e)
  join_errors (err e) (err f) = err (both_failed e f)

  -- Both steps are taken, whatever the first one returns.
  unfoldable pub reconcile_svc_lbs : Postgres → Action W (BalancerError E) (Unit {0})
  unfolding join_errors
  reconcile_svc_lbs p w =
      let (r, w') = create_or_update_shared_svc_lb p w in
      let (r', w'') = create_or_update_dedicated_svc_lb p w' in (join_errors r r', w'')
