-- ===== src/Tests/Data.antt =====
-- Data for the tests.
use postgreslet.Prelude.{true, false, none, some, [], ◌∷◌}
use postgreslet.Text.{codes}
use postgreslet.Postgres.Model.{Postgres, PostgresSpec, PostgresConnection, no_socket}

abbrev pub spec : PostgresSpec
spec = record {
  description = codes "My Shop DB";
  project_id = codes "b621eb99-4888";
  tenant = codes "Acme & Co";
  partition_id = codes "fra";
  number_of_instances = 2;
  version = codes "13";
  size = some (record {
    cpu = codes "500m";
    memory = codes "512Mi";
    shared_buffer = codes "64Mi";
    memory_factor = 0;
    storage_size = codes "1Gi";
  });
  maintenance = [];
  access_list = some (record { source_ranges = some (codes "10.1.0.0/24" ∷ []) });
  backup_secret_ref = [];
  postgres_restore = none;
  postgres_connection = none;
  audit_logs = none;
  postgres_params = (codes "work_mem", codes "8MB") ∷ (codes "log_statement", codes "all") ∷ [];
  dedicated_load_balancer_ip = none;
  dedicated_load_balancer_port = none;
  disable_load_balancers = none;
  storage_class = none;
}

abbrev pub with_spec : PostgresSpec → Postgres
with_spec s = record {
  name = codes "3f9c-77ab";
  namespace = codes "metal";
  uid = codes "uid-1";
  deletion_timestamp = none;
  finalizers = codes "keep" ∷ [];
  spec = s;
  status = record {
    description = [];
    socket = no_socket;
    additional_sockets = [];
    child_name = [];
  };
}

-- A standalone database with the shared service.
abbrev pub shop : Postgres
shop = with_spec spec

-- A standalone database with an ip of its own.
abbrev pub dedicated_shop : Postgres
dedicated_shop = with_spec (record spec { dedicated_load_balancer_ip = some (codes "10.9.9.9") })

abbrev pub disabled_shop : Postgres
disabled_shop = with_spec (record spec { disable_load_balancers = some true })

abbrev pub connection : PostgresConnection
connection = record {
  connected_postgres_id = codes "77aa";
  connection_secret_name = codes "other-passwords";
  connection_ip = codes "10.7.7.7";
  connection_port = 32001;
  synchronous_replication = true;
  replication_primary = true;
}

-- The synchronous primary of another database, and a standby that says that it is synchronous.
abbrev pub primary_shop : Postgres
primary_shop = with_spec (record spec { postgres_connection = some connection })

abbrev pub standby_connection : PostgresConnection
standby_connection = record connection { replication_primary = false }

abbrev pub standby_shop : Postgres
standby_shop = with_spec (record spec { postgres_connection = some standby_connection })
