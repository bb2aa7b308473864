-- ===== src/Postgres/Params.antt =====
-- The postgres parameters of a database (api/v1/postgres_types.go): the audit log settings, the
-- defaults, the parameters of the resource and the size of the shared buffers, in this order.
-- `resource.ParseQuantity` and `AsInt64` belong to Kubernetes and are parameters.
pub mod Laws
use postgreslet.Prelude.{
  ℕ, ◌/◌, Bool, true, false, Option, none, some, List, [], ◌∷◌, ◌++◌, leb, contains, text_eq,
  if◌then◌else◌,
}
use postgreslet.Prelude.Int.{ℤ, pos, negsuc}
use postgreslet.Text.{Text, codes}
use postgreslet.Text.Decimal.{format_int, atoi}
use postgreslet.Dict.{Dict, insert, lookup}
use postgreslet.Postgres.Model.{Postgres}

abbrev pub Parameters : Type 0
Parameters = Dict Text Text

abbrev pub shared_buffer_parameter_key : Text
shared_buffer_parameter_key = codes "shared_buffers"

unfoldable pub enable_audit_logs : Parameters → Parameters
enable_audit_logs m0 =
    let m1 =
      insert (codes "shared_preload_libraries")
        (codes
          "pg_stat_statements,pgextwlist,pg_auth_mon,set_user,timescaledb,pg_cron,pg_stat_kcache,pgaudit")
        m0 in
    let m2 = insert (codes "pgaudit.log_catalog") (codes "off") m1 in
    let m3 = insert (codes "pgaudit.log") (codes "ddl,role") m2 in
    let m4 = insert (codes "pgaudit.log_relation") (codes "on") m3 in
    let m5 = insert (codes "pgaudit.log_parameter") (codes "on") m4 in
    insert (codes "log_statement") (codes "none") m5

abbrev default_ssl_ciphers : Text
default_ssl_ciphers =
    codes
      "ECDHE-ECDSA-AES128-GCM-SHA256:ECDHE-RSA-AES128-GCM-SHA256:ECDHE-ECDSA-AES256-GCM-SHA384:ECDHE-RSA-AES256-GCM-SHA384:ECDHE-ECDSA-CHACHA20-POLY1305:ECDHE-RSA-CHACHA20-POLY1305:DHE-RSA-AES128-GCM-SHA256:DHE-RSA-AES256-GCM-SHA384"

-- The part of the defaults that depends on the major version.
version_params : ℤ → Parameters → Parameters
version_params (negsuc n) m = insert (codes "wal_keep_segments") (codes "64") m
version_params (pos v) m0 =
    let m1 =
      if leb 12 v then insert (codes "ssl_min_protocol_version") (codes "TLSv1.2") m0 else m0 in
    if leb 13 v
    then insert (codes "max_slot_wal_keep_size") (codes "1GB")
        (insert (codes "wal_keep_size") (codes "1GB") m1)
    else insert (codes "wal_keep_segments") (codes "64") m1

unfoldable pub set_default_postgres_params : Parameters → Text → Parameters
unfolding version_params
set_default_postgres_params m0 version =
    let m1 = insert (codes "log_error_verbosity") (codes "VERBOSE") m0 in
    let m2 = insert (codes "log_file_mode") (codes "0600") m1 in
    let m3 =
      insert (codes "log_line_prefix") (codes "%m [%p]: [%l-1] db=%d,user=%u,app=%a,client=%h ")
        m2 in
    let m4 = insert (codes "log_min_error_statement") (codes "WARNING") m3 in
    let m5 = insert (codes "password_encryption") (codes "scram-sha-256") m4 in
    let m6 = insert (codes "pg_stat_statements.max") (codes "500") m5 in
    let m7 = insert (codes "ssl_ciphers") default_ssl_ciphers m6 in
    let m8 = insert (codes "ssl_prefer_server_ciphers") (codes "on") m7 in
    let m9 = insert (codes "tcp_keepalives_idle") (codes "200") m8 in
    let m10 = insert (codes "tcp_keepalives_interval") (codes "30") m9 in
    elim (atoi version) [ none ↦ m10 | some v ↦ version_params v m10 ]

-- The parameters that the program sets by itself: the audit logs, unless they are switched off,
-- and the defaults.
unfoldable pub own_parameters : Option Bool → Text → Parameters
own_parameters audit_logs version =
    set_default_postgres_params
      (elim audit_logs [
        | none ↦ enable_audit_logs []
        | some on ↦ if on then enable_audit_logs [] else []
      ])
      version

-- The loop over the given parameters, in the order in which the map yields them. The keys of the
-- block list are listed.
unfoldable pub set_postgres_params : Parameters → Parameters → List Text → Parameters
set_postgres_params m [] blocked = m
set_postgres_params m ((k, v) ∷ provided) blocked =
    set_postgres_params (if contains blocked k then m else insert k v m) provided blocked

-- The text that is set for a size in bytes, if it is set.
shared_buffer_value : ℤ → Option Text
shared_buffer_value (negsuc n) = none
shared_buffer_value (pos bytes) =
    if leb 33554432 bytes then some (format_int (bytes / 1048576) ++ codes "MB") else none

-- What the program uses of `resource.Quantity`.
pub record Quantities : Type 1 where
  pub Quantity : Type 0
  pub parse_quantity : Text → Option Quantity
  pub as_int64 : Quantity → Option ℤ
  pub milli_value : Quantity → ℤ
  -- `resource.NewMilliQuantity(m, resource.BinarySI).String()`
  pub format_milli : ℤ → Text

module _ (q : Quantities) where
  -- The value of `shared_buffers` for the size in the resource.
  pub shared_buffer_size : Text → Option Text
  unfolding shared_buffer_value
  shared_buffer_size shm_size = elim (q.parse_quantity shm_size) [
    | none ↦ none
    | some size ↦ elim (q.as_int64 size) [ none ↦ none | some bytes ↦ shared_buffer_value bytes ]
  ]

  unfoldable pub set_shared_buffer_size : Parameters → Text → Parameters
  unfolding shared_buffer_size
  set_shared_buffer_size m shm_size = elim (shared_buffer_size shm_size) [
    | none ↦ m
    | some value ↦ insert shared_buffer_parameter_key value m
  ]

  -- `z.Spec.Parameters`, as `ToUnstructuredZalandoPostgresql` builds it up.
  unfoldable pub to_parameters : Postgres → Text → List Text → Parameters
  unfolding set_shared_buffer_size own_parameters
  to_parameters p shared_buffer blocked =
      set_shared_buffer_size
        (set_postgres_params (own_parameters p.spec.audit_logs p.spec.version)
          p.spec.postgres_params blocked)
        shared_buffer
