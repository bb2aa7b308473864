-- ===== src/Replication.antt =====
-- The replication settings of Patroni: `checkAndUpdatePatroniReplicationConfig` of
-- controllers/postgres_controller.go and what it calls. Pods, HTTP and JSON are the interface
-- `Patroni`; the control plane is a client for `Postgres`. Logging and events are left out.
pub mod Settings
pub mod Convergence
pub mod Standby
use postgreslet.Prelude.{
  ℕ, ◌/◌, Bool, true, false, not, ◌&&◌, Option, none, some, List, [], ◌∷◌, ◌++◌, ◌=?◌, text_eq,
  nat_eq, ◌==◌, if◌then◌else◌,
}
use postgreslet.Text.{Text, codes}
use postgreslet.Cluster.{Result, ok, err, Action, NamespacedName, Client}
use postgreslet.Postgres.Model.{Postgres, PostgresConnection, is_replication_primary_or_standalone}
use postgreslet.Postgres.Names.{to_peripheral_resource_name, to_peripheral_resource_namespace}
use postgreslet.Replication.Settings.{
  PatroniConfig, Verdict, up_to_date, wait, patch_with, verdict, request_config,
}

pub data PatroniError (E : Type 0) : Type 0 where
  cluster_error : E → PatroniError E
  empty_pod_ip : PatroniError E
  unexpected_code : ℕ → PatroniError E
  missing_application_name : PatroniError E
  no_spilo_pods : PatroniError E

-- What the program does not implement itself.
pub record Patroni (W E : Type 0) : Type 0 where
  -- The ips of the pods of a namespace with the role of a leader, and of all its spilo pods.
  pub leader_pods : Text → W → Result E (List Text)
  pub spilo_pods : Text → W → Result E (List Text)
  pub marshal : PatroniConfig → Result E Text
  pub unmarshal : Text → Result E PatroniConfig
  -- The body that a GET of an address answers, with whatever code.
  pub get_body : Text → W → Result E Text
  -- The code that a PATCH of an address with a body answers.
  pub send_patch : Text → Text → Action W E ℕ

abbrev pub config_url : Text → Text
config_url pod_ip = codes "http://" ++ (pod_ip ++ (codes ":8008" ++ codes "/config"))

-- A flag and an error are returned side by side.
abbrev pub Reply : Type 0 → Type 0 → Type 0
Reply W E = Bool × Result (PatroniError E) (Unit {0}) × W

abbrev pub requeue_after_reconcile : Bool
requeue_after_reconcile = true

abbrev pub all_done : Bool
all_done = false

module _ {W E : Type 0} (control : Client W E Postgres) (patroni : Patroni W E) where
  -- The application name of the standby that the resource refers to, if it can be fetched.
  unfoldable pub fetch_standby_name : Postgres → PostgresConnection → W → Option Text
  fetch_standby_name p c w =
      elim (control.get (record { namespace = p.namespace; name = c.connected_postgres_id }) w) [
        | err _ ↦ none
        | ok s ↦ some (to_peripheral_resource_name s)
      ]

  -- The name that a primary with synchronous replication goes by: the given one, or else the one
  -- that is fetched now. Elsewhere the given one stands.
  unfoldable pub resolve_name : Postgres → Option Text → W → Option Text
  unfolding fetch_standby_name
  resolve_name p (some name) w = some name
  resolve_name p none w = elim p.spec.postgres_connection [
    | none ↦ none
    | some c ↦
        if is_replication_primary_or_standalone p && c.synchronous_replication
        then fetch_standby_name p c w
        else none
  ]

  -- The error that is made up where the replication is synchronous and no name is known.
  check_name : Postgres → Option Text → Result (PatroniError E) (Unit {0})
  check_name p (some name) = ok tt
  check_name p none = elim p.spec.postgres_connection [
    | none ↦ ok tt
    | some c ↦ if c.synchronous_replication then err missing_application_name else ok tt
  ]

  answer : Postgres → Option Text → Result E ℕ → Result (PatroniError E) (Unit {0})
  answer p name (err e) = err (cluster_error e)
  answer p name (ok code) =
      if code / 100 == 2 then check_name p name else err (unexpected_code code)

  send : Postgres → Option Text → Text → Result E Text → Action W (PatroniError E) (Unit {0})
  send p name pod_ip (err e) w = (err (cluster_error e), w)
  send p name pod_ip (ok body) w =
      let (r, w') = patroni.send_patch (config_url pod_ip) body w in (answer p name r, w')

  unfoldable pub http_patch_patroni :
      Postgres → Text → Option Text → Action W (PatroniError E) (Unit {0})
  unfolding send answer check_name resolve_name
  http_patch_patroni p pod_ip given w =
      if pod_ip =? []
      then (err empty_pod_ip, w)
      else (let name = resolve_name p given w in
          send p name pod_ip (patroni.marshal (request_config p name)) w)

  -- The code of the answer is not looked at.
  unfoldable pub http_get_patroni_config : Text → W → Result (PatroniError E) PatroniConfig
  http_get_patroni_config pod_ip w =
      if pod_ip =? [] then err empty_pod_ip else elim (patroni.get_body (config_url pod_ip) w) [
        | err e ↦ err (cluster_error e)
        | ok body ↦ elim (patroni.unmarshal body) [
          | err e ↦ err (cluster_error e)
          | ok config ↦ ok config
        ]
      ]

  -- The loop over the pods: each one is patched, and the last error is returned.
  patch_all :
      Postgres
      → List Text
      → Result (PatroniError E) (Unit {0})
      → Action W (PatroniError E) (Unit {0})
  patch_all p [] last w = (last, w)
  patch_all p (pod_ip ∷ pods) last w =
      let (r, w') = http_patch_patroni p pod_ip none w in
      patch_all p pods (elim r [ ok _ ↦ last | err e ↦ err e ]) w'

  patch_listed : Postgres → Result E (List Text) → Action W (PatroniError E) (Unit {0})
  patch_listed p (err e) w = (err (cluster_error e), w)
  patch_listed p (ok []) w = (err no_spilo_pods, w)
  patch_listed p (ok (pod ∷ pods)) w = patch_all p (pod ∷ pods) (ok tt) w

  unfoldable pub update_on_all_pods : Postgres → Action W (PatroniError E) (Unit {0})
  unfolding patch_listed patch_all
  update_on_all_pods p w =
      patch_listed p (patroni.spilo_pods (to_peripheral_resource_namespace p) w) w

  -- What follows from the comparison of the settings.
  act : Postgres → Text → Verdict → W → Reply W E
  act p leader_ip up_to_date w = (all_done, ok tt, w)
  act p leader_ip wait w = (requeue_after_reconcile, ok tt, w)
  act p leader_ip (patch_with name) w =
      let (r, w') = http_patch_patroni p leader_ip name w in (requeue_after_reconcile, r, w')

  compare_settings :
      Postgres → Text → PostgresConnection → Result (PatroniError E) PatroniConfig → W → Reply W E
  compare_settings p leader_ip c (err e) w = (requeue_after_reconcile, err e, w)
  compare_settings p leader_ip c (ok config) w =
      act p leader_ip (verdict p c (fetch_standby_name p c w) config) w

  with_leader : Postgres → Text → Option PostgresConnection → W → Reply W E
  with_leader p leader_ip none w =
      let (r, w') = http_patch_patroni p leader_ip none w in (all_done, r, w')
  with_leader p leader_ip (some c) w =
      compare_settings p leader_ip c (http_get_patroni_config leader_ip w) w

  -- Without exactly one leader all pods are updated.
  with_leaders : Postgres → Result E (List Text) → W → Reply W E
  with_leaders p (err e) w = (requeue_after_reconcile, err (cluster_error e), w)
  with_leaders p (ok (leader_ip ∷ [])) w = with_leader p leader_ip p.spec.postgres_connection w
  with_leaders p (ok _) w = let (r, w') = update_on_all_pods p w in (requeue_after_reconcile, r, w')

  unfoldable pub check_and_update_replication : Postgres → W → Reply W E
  unfolding with_leaders with_leader compare_settings act http_get_patroni_config
  check_and_update_replication p w =
      with_leaders p (patroni.leader_pods (to_peripheral_resource_namespace p) w) w
