-- ===== src/Replication/Settings.antt =====
-- The settings that a database wants of Patroni, and their comparison with those that it has
-- (controllers/postgres_controller.go).
pub mod Laws
use postgreslet.Prelude.{
  ℕ, Bool, true, false, not, Option, none, some, List, [], ◌∷◌, ◌=?◌, text_eq, nat_eq, ◌==◌,
  if◌then◌else◌,
}
use postgreslet.Text.{Text, codes}
use postgreslet.Postgres.Model.{Postgres, PostgresConnection, is_replication_primary_or_standalone}
use postgreslet.Postgres.Names.{to_peripheral_resource_name}

pub record PatroniStandbyCluster : Type 0 where
  -- A nil slice is `none`.
  pub create_replica_methods : Option (List Text)
  pub host : Text
  pub port : ℕ
  pub application_name : Text

pub record PatroniConfig : Type 0 where
  pub standby_cluster : Option PatroniStandbyCluster
  pub synchronous_nodes_additional : Option Text

-- The body of the PATCH.
unfoldable pub request_config : Postgres → Option Text → PatroniConfig
request_config p name = elim p.spec.postgres_connection [
  | none ↦ record { standby_cluster = none; synchronous_nodes_additional = none }
  | some c ↦
      if is_replication_primary_or_standalone p
      then record {
        standby_cluster = none;
        synchronous_nodes_additional = if c.synchronous_replication then name else none;
      }
      else record {
        standby_cluster = some (record {
          create_replica_methods = some (codes "basebackup_fast_xlog" ∷ []);
          host = c.connection_ip;
          port = c.connection_port;
          application_name = to_peripheral_resource_name p;
        });
        synchronous_nodes_additional = none;
      }
]

-- What the comparison asks for: nothing, another round, or a PATCH with this name and another
-- round.
pub data Verdict : Type 0 where
  up_to_date wait : Verdict
  patch_with : Option Text → Verdict

-- A primary with synchronous replication, for the name of its standby if that can be fetched.
compare_name : Option Text → Option Text → Verdict
compare_name none actual = patch_with none
compare_name (some name) none = patch_with (some name)
compare_name (some name) (some actual) =
    if actual =? name then up_to_date else patch_with (some name)

-- Settings that have to be absent.
want_none : Option Text → Verdict
want_none none = up_to_date
want_none (some _) = patch_with none

compare_primary : PostgresConnection → Option Text → PatroniConfig → Verdict
compare_primary c name config = elim config.standby_cluster [
  | some _ ↦ wait
  | none ↦
      if c.synchronous_replication
      then compare_name name config.synchronous_nodes_additional
      else want_none config.synchronous_nodes_additional
]

compare_standby_cluster :
    Postgres → PostgresConnection → PatroniStandbyCluster → Option Text → Verdict
compare_standby_cluster p c cluster synchronous = elim cluster.create_replica_methods [
  | none ↦ patch_with none
  | some _ ↦
      if not (cluster.host =? c.connection_ip)
      then patch_with none
      else if not (cluster.port == c.connection_port)
      then patch_with none
      else if not (cluster.application_name =? to_peripheral_resource_name p)
      then patch_with none
      else want_none synchronous
]

compare_standby : Postgres → PostgresConnection → PatroniConfig → Verdict
compare_standby p c config = elim config.standby_cluster [
  | none ↦ wait
  | some cluster ↦ compare_standby_cluster p c cluster config.synchronous_nodes_additional
]

unfoldable pub verdict : Postgres → PostgresConnection → Option Text → PatroniConfig → Verdict
unfolding compare_name want_none compare_primary compare_standby_cluster compare_standby
verdict p c name config =
    if is_replication_primary_or_standalone p
    then compare_primary c name config
    else compare_standby p c config
