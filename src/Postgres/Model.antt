-- ===== src/Postgres/Model.antt =====
-- The custom resource `Postgres` (api/v1/postgres_types.go): its fields, and the methods that only
-- read a field or two. Texts are lists of code points, a pointer is an option, and an `int32` or a
-- `uint16` is its bit pattern.
use postgreslet.Prelude.{
  ℕ, Bool, true, false, Option, none, some, List, [], ◌∷◌, ◌++◌, not, ◌=?◌, contains, text_eq,
  if◌then◌else◌,
}
use postgreslet.Text.{Text}
use postgreslet.Dict.{Dict}

pub record AccessList : Type 0 where
  -- A nil slice is `none`.
  pub source_ranges : Option (List Text)

pub record Size : Type 0 where
  pub cpu : Text
  pub memory : Text
  pub shared_buffer : Text
  pub memory_factor : ℕ
  pub storage_size : Text

pub record PostgresRestore : Type 0 where
  pub source_postgres_id : Text
  pub timestamp : Text

pub record PostgresConnection : Type 0 where
  pub connected_postgres_id : Text
  pub connection_secret_name : Text
  pub connection_ip : Text
  pub connection_port : ℕ
  pub synchronous_replication : Bool
  pub replication_primary : Bool

pub record PostgresSpec : Type 0 where
  pub description : Text
  pub project_id : Text
  pub tenant : Text
  pub partition_id : Text
  pub number_of_instances : ℕ
  pub version : Text
  pub size : Option Size
  pub maintenance : List Text
  pub access_list : Option AccessList
  pub backup_secret_ref : Text
  pub postgres_restore : Option PostgresRestore
  pub postgres_connection : Option PostgresConnection
  pub audit_logs : Option Bool
  pub postgres_params : Dict Text Text
  pub dedicated_load_balancer_ip : Option Text
  pub dedicated_load_balancer_port : Option ℕ
  pub disable_load_balancers : Option Bool
  pub storage_class : Option Text

pub record Socket : Type 0 where
  pub ip : Text
  pub port : ℕ

abbrev pub no_socket : Socket
no_socket = record { ip = []; port = 0 }

pub record PostgresStatus : Type 0 where
  pub description : Text
  pub socket : Socket
  pub additional_sockets : List Socket
  pub child_name : Text

-- The resource, with the metadata that the program reads.
pub record Postgres : Type 0 where
  pub name : Text
  pub namespace : Text
  pub uid : Text
  pub deletion_timestamp : Option Text
  pub finalizers : List Text
  pub spec : PostgresSpec
  pub status : PostgresStatus

module _ (p : Postgres) where
  -- The ranges of the access list, if `HasSourceRanges`.
  abbrev pub source_ranges : Option (List Text)
  source_ranges = elim p.spec.access_list [ none ↦ none | some access ↦ access.source_ranges ]

  unfoldable pub has_source_ranges : Bool
  has_source_ranges = elim source_ranges [ none ↦ false | some _ ↦ true ]

  unfoldable pub is_being_deleted : Bool
  is_being_deleted = elim p.deletion_timestamp [ none ↦ false | some _ ↦ true ]

  unfoldable pub enable_shared_svc_lb : Bool → Bool
  enable_shared_svc_lb force = if force then true else elim p.spec.dedicated_load_balancer_ip [
    | none ↦ true
    | some ip ↦ if ip =? [] then true else false
  ]

  unfoldable pub enable_dedicated_svc_lb : Bool
  enable_dedicated_svc_lb = elim p.spec.dedicated_load_balancer_ip [
    | none ↦ false
    | some ip ↦ if ip =? [] then false else true
  ]

  unfoldable pub is_replication_primary_or_standalone : Bool
  is_replication_primary_or_standalone = elim p.spec.postgres_connection [
    | none ↦ true
    | some c ↦ if c.replication_primary then true else false
  ]

  unfoldable pub is_replication_target : Bool
  is_replication_target = elim p.spec.postgres_connection [
    | none ↦ false
    | some c ↦ if not c.replication_primary then true else false
  ]

  unfoldable pub disable_load_balancers : Bool
  disable_load_balancers = elim p.spec.disable_load_balancers [ none ↦ false | some b ↦ b ]

-- `removeElem`
unfoldable pub remove_elem : List Text → Text → List Text
remove_elem [] s = []
remove_elem (elem ∷ ss) s = let rest = remove_elem ss s in if elem =? s then rest else elem ∷ rest

unfoldable pub has_finalizer : Postgres → Text → Bool
has_finalizer p finalizer = contains p.finalizers finalizer

unfoldable pub add_finalizer : Postgres → Text → Postgres
add_finalizer p finalizer = record p { finalizers = p.finalizers ++ finalizer ∷ [] }

unfoldable pub remove_finalizer : Postgres → Text → Postgres
unfolding remove_elem
remove_finalizer p finalizer = record p { finalizers = remove_elem p.finalizers finalizer }
