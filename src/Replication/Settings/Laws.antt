-- ===== src/Replication/Settings/Laws.antt =====
-- The comparison accepts what the PATCH asks for, and nothing that differs from it.
use postgreslet.Prelude.{
  ◌≡◌, refl, ◌≢◌, ◌↔◌, true, false, Option, none, some, [], ◌∷◌, arith, text_eq, Bool-cases, inl,
  inr, if◌then◌else◌,
}
use postgreslet.Text.{Text, codes}
use postgreslet.Postgres.Model.{Postgres, PostgresConnection, is_replication_primary_or_standalone}
use postgreslet.Postgres.Names.{to_peripheral_resource_name}
use postgreslet.Replication.Settings.{
  PatroniConfig, PatroniStandbyCluster, Verdict, up_to_date, wait, patch_with, verdict,
  request_config, compare_primary, compare_name, want_none, compare_standby_cluster,
  compare_standby,
}

-- Settings that agree with the wanted ones: the same, but for the methods that create a replica, of
-- which there only has to be a list.
abbrev pub AgreeCluster : Option PatroniStandbyCluster → Option PatroniStandbyCluster → Type 0
AgreeCluster none none = Unit
AgreeCluster (some a) (some b) =
    (a.create_replica_methods ≢ none)
    × (a.host ≡ b.host)
    × (a.port ≡ b.port)
    × (a.application_name ≡ b.application_name)
AgreeCluster _ _ = ⊥

abbrev pub Agree : PatroniConfig → PatroniConfig → Type 0
Agree a b =
    AgreeCluster a.standby_cluster b.standby_cluster
    × (a.synchronous_nodes_additional ≡ b.synchronous_nodes_additional)

-- The two sides of the comparison, on the parts of the settings.
primary_iff :
    (c : PostgresConnection) (name : Text) (config : PatroniConfig)
    → (compare_primary c (some name) config ≡ up_to_date) ↔ (
        AgreeCluster config.standby_cluster none
        × (config.synchronous_nodes_additional
            ≡ (if c.synchronous_replication then some name else none)))
unfolding compare_primary compare_name want_none
primary_iff c name config = (λ h. ground arith, λ h. ground arith)

abbrev wanted_cluster : Postgres → PostgresConnection → PatroniStandbyCluster
wanted_cluster p c = record {
  create_replica_methods = some (codes "basebackup_fast_xlog" ∷ []);
  host = c.connection_ip;
  port = c.connection_port;
  application_name = to_peripheral_resource_name p;
}

cluster_iff :
    (p : Postgres) (c : PostgresConnection) (cluster : PatroniStandbyCluster) (names : Option Text)
    → (compare_standby_cluster p c cluster names ≡ up_to_date)
      ↔ (AgreeCluster (some cluster) (some (wanted_cluster p c)) × (names ≡ none))
unfolding compare_standby_cluster want_none
cluster_iff p c cluster names = (λ h. ground arith, λ h. ground arith)

standby_iff :
    (p : Postgres) (c : PostgresConnection) (cluster : Option PatroniStandbyCluster)
    (names : Option Text)
    → (compare_standby p c
          (record { standby_cluster = cluster; synchronous_nodes_additional = names })
        ≡ up_to_date)
      ↔ (AgreeCluster cluster (some (wanted_cluster p c)) × (names ≡ none))
unfolding compare_standby
standby_iff p c none names = (λ h. ground arith, λ h. absurd h.0)
standby_iff p c (some cluster) names = cluster_iff p c cluster names

module _ (p : Postgres) (c : PostgresConnection)
    (connected : p.spec.postgres_connection ≡ some c) where
  request-primary :
      (name : Text)
      → is_replication_primary_or_standalone p ≡ true
      → request_config p (some name) ≡ record {
        standby_cluster = none;
        synchronous_nodes_additional = if c.synchronous_replication then some name else none;
      }
  unfolding request_config
  request-primary name primary = rw (connected, request_config) (rw primary)

  request-standby :
      (name : Option Text)
      → is_replication_primary_or_standalone p ≡ false
      → request_config p name ≡ record {
        standby_cluster = some (wanted_cluster p c);
        synchronous_nodes_additional = none;
      }
  unfolding request_config
  request-standby name standby = ground arith

  -- With the name of its standby at hand, the comparison of a connected database finds its
  -- settings up to date exactly where they agree with those that the program would write: the
  -- same, but that any list of methods to create a replica will do.
  pub verdict-up_to_date :
      (name : Text) (config : PatroniConfig)
      → (verdict p c (some name) config ≡ up_to_date) ↔ Agree config (request_config p (some name))
  unfolding verdict
  verdict-up_to_date name config = elim (Bool-cases (is_replication_primary_or_standalone p)) [
    | inl primary ↦ rw (request-primary name primary, primary) (primary_iff c name config)
    | inr standby ↦
        rw (request-standby (some name) standby, standby)
          (standby_iff p c config.standby_cluster config.synchronous_nodes_additional)
  ]

  -- What the comparison asks for on a standby, whatever name is fetched.
  abbrev pub StandbyVerdict : PatroniConfig → Verdict → Type 0
  StandbyVerdict config up_to_date = Agree config (request_config p none)
  StandbyVerdict config wait = config.standby_cluster ≡ none
  StandbyVerdict config (patch_with name) = name ≡ none

  compare_standby-verdict :
      (cluster : Option PatroniStandbyCluster) (names : Option Text)
      → is_replication_primary_or_standalone p ≡ false
      → StandbyVerdict
          (record { standby_cluster = cluster; synchronous_nodes_additional = names })
          (compare_standby p c
            (record { standby_cluster = cluster; synchronous_nodes_additional = names }))
  unfolding compare_standby compare_standby_cluster want_none
  compare_standby-verdict none names standby = refl
  compare_standby-verdict (some cluster) names standby =
      go (compare_standby_cluster p c cluster names) refl
    where
      go :
          (v : Verdict)
          → compare_standby_cluster p c cluster names ≡ v
          → StandbyVerdict
              (record { standby_cluster = some cluster; synchronous_nodes_additional = names })
              v
      go up_to_date e = rw (request-standby none standby) ((cluster_iff p c cluster names).0 e)
      go wait e = ground arith
      go (patch_with name) e = ground arith

  pub verdict-standby :
      (name : Option Text) (config : PatroniConfig)
      → is_replication_primary_or_standalone p ≡ false
      → StandbyVerdict config (verdict p c name config)
  unfolding verdict
  verdict-standby name config standby =
      rw standby
        (compare_standby-verdict config.standby_cluster config.synchronous_nodes_additional standby)
