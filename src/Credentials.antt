-- ===== src/Credentials.antt =====
-- The secrets that a standby or a clone takes from another database: `ensurePostgresSecrets` of
-- controllers/postgres_controller.go and what it calls. Logging is left out.
pub mod Copying
pub mod Ensuring
pub mod Completeness
use postgreslet.Prelude.{
  ◌==◌, Bool, true, false, ◌&&◌, Option, none, some, List, [], ◌∷◌, ◌++◌, ◌=?◌, map, text_eq,
  if◌then◌else◌, ℕ,
}
use postgreslet.Text.{Text, codes}
use postgreslet.Dict.{Dict}
use postgreslet.Cluster.{Result, ok, err, Action, NamespacedName, Client}
use postgreslet.Postgres.Model.{
  Postgres, PostgresConnection, PostgresRestore, is_replication_primary_or_standalone,
}
use postgreslet.Postgres.Names.{
  to_peripheral_resource_name, to_peripheral_resource_namespace, to_user_passwords_secret_name,
}
use postgreslet.Postgres.Secrets.{Secret, to_zalando_postgresql_matching_labels}

abbrev pub standby_user : Text
standby_user = codes "standby"

abbrev pub monitoring_user : Text
monitoring_user = codes "monitoring"

abbrev pub super_user : Text
super_user = codes "postgres"

pub data CredentialError (E : Type 0) : Type 0 where
  secret_name_not_configured source_not_configured : CredentialError E
  -- A panic.
  nil_dereference : CredentialError E
  local_failed remote_failed create_failed : E → CredentialError E

-- The secrets of the service cluster, and those of the control plane, which are only read.
pub record Secrets (W E : Type 0) : Type 0 where
  pub local : Client W E Secret
  pub get_remote : NamespacedName → W → Result E Secret
  pub is_already_exists : E → Bool

-- `strings.ReplaceAll(username, "_", "-")`
unfoldable pub dash_for_underscore : ℕ → ℕ
dash_for_underscore c = if c == b'_' then b'-' else c

abbrev pub secret_user : Text → Text
secret_user username = map dash_for_underscore username

unfoldable pub credentials_name : Text → Postgres → Text
credentials_name user p =
    user ++ (codes "." ++ (to_peripheral_resource_name p ++ codes ".credentials"))

abbrev pub credentials_key : Text → Postgres → NamespacedName
credentials_key user p = record {
  namespace = to_peripheral_resource_namespace p;
  name = credentials_name user p;
}

unfoldable pub local_secret : Postgres → Text → Text → Secret
local_secret p username password = record {
  namespace = to_peripheral_resource_namespace p;
  name = credentials_name (secret_user username) p;
  labels = to_zalando_postgresql_matching_labels p;
  data_of = (codes "username", username) ∷ (codes "password", password) ∷ [];
}

-- The rest of a text after a prefix, if it starts with it.
after_prefix : Text → Text → Option Text
after_prefix [] s = some s
after_prefix (c ∷ old) [] = none
after_prefix (c ∷ old) (d ∷ s) = let rest = after_prefix old s in if c == d then rest else none

-- `strings.Replace(s, old, new, 1)`
unfoldable pub replace_first : Text → Text → Text → Text
unfolding after_prefix
replace_first [] old new = elim (after_prefix old []) [ none ↦ [] | some rest ↦ new ++ rest ]
replace_first (c ∷ s) old new =
    let later = replace_first s old new in
    elim (after_prefix old (c ∷ s)) [ none ↦ c ∷ later | some rest ↦ new ++ rest ]

module _ {W E : Type 0} (secrets : Secrets W E) where
  -- What follows the creation of a secret: one that is there already is skipped.
  continue_copy :
      Action W (CredentialError E) (Unit {0})
      → Result E (Unit {0})
      → Action W (CredentialError E) (Unit {0})
  continue_copy next (ok _) w = next w
  continue_copy next (err e) w =
      if secrets.is_already_exists e then next w else (err (create_failed e), w)

  -- The loop over the users of the remote secret.
  unfoldable pub copy_users :
      Bool → Postgres → Dict Text Text → Action W (CredentialError E) (Unit {0})
  unfolding continue_copy
  copy_users ignore_standby_user p [] w = (ok tt, w)
  copy_users ignore_standby_user p ((username, password) ∷ rest) w =
      let next = copy_users ignore_standby_user p rest in
      if ignore_standby_user && (username =? standby_user)
      then next w
      else (let (created, w') = secrets.local.create (local_secret p username password) w in
          continue_copy next created w')

  copy_from : Postgres → Bool → Result E Secret → Action W (CredentialError E) (Unit {0})
  copy_from p ignore_standby_user (err e) w = (err (remote_failed e), w)
  copy_from p ignore_standby_user (ok remote) w = copy_users ignore_standby_user p remote.data_of w

  unfoldable pub copy_secrets :
      NamespacedName → Postgres → Bool → Action W (CredentialError E) (Unit {0})
  unfolding copy_from
  copy_secrets source p ignore_standby_user w =
      copy_from p ignore_standby_user (secrets.get_remote source w) w

  -- The test for one local secret: where it is there, where it is not, or an error.
  when_local :
      Result E Secret
      → Action W (CredentialError E) (Unit {0})
      → Action W (CredentialError E) (Unit {0})
      → Action W (CredentialError E) (Unit {0})
  when_local (ok _) there missing w = there w
  when_local (err e) there missing w =
      if secrets.local.is_not_found e then missing w else (err (local_failed e), w)

  local_of : Text → Postgres → W → Result E Secret
  local_of user p w = secrets.local.get (credentials_key user p) w

  -- The secret of the standby user does not decide; that of the monitoring user does.
  ensure_connected : Postgres → PostgresConnection → Action W (CredentialError E) (Unit {0})
  ensure_connected p c w =
      let copy =
        copy_secrets (record { namespace = p.namespace; name = c.connection_secret_name }) p
          false in
      let monitored =
        (λ (v : W). when_local (local_of monitoring_user p v) (λ v. (ok tt, v)) copy v) in
      if c.connection_secret_name =? []
      then (err secret_name_not_configured, w)
      else when_local (local_of standby_user p w) monitored monitored w

  unfoldable pub ensure_standby_secrets : Postgres → Action W (CredentialError E) (Unit {0})
  unfolding ensure_connected when_local local_of
  ensure_standby_secrets p w =
      if is_replication_primary_or_standalone p
      then (ok tt, w)
      else elim p.spec.postgres_connection [
        | none ↦ (err nil_dereference, w)
        | some c ↦ ensure_connected p c w
      ]

  ensure_cloned : Postgres → PostgresRestore → Action W (CredentialError E) (Unit {0})
  ensure_cloned p restore w =
      let remote_name =
        replace_first (to_user_passwords_secret_name p) p.name restore.source_postgres_id in
      if restore.source_postgres_id =? []
      then (err source_not_configured, w)
      else when_local (local_of super_user p w) (λ v. (ok tt, v))
          (copy_secrets (record { namespace = p.namespace; name = remote_name }) p true) w

  unfoldable pub ensure_clone_secrets : Postgres → Action W (CredentialError E) (Unit {0})
  unfolding ensure_cloned when_local local_of
  ensure_clone_secrets p w = elim p.spec.postgres_restore [
    | none ↦ (ok tt, w)
    | some restore ↦ ensure_cloned p restore w
  ]

  then_clone :
      Postgres → Result (CredentialError E) (Unit {0}) → Action W (CredentialError E) (Unit {0})
  then_clone p (err e) w = (err e, w)
  then_clone p (ok _) w = ensure_clone_secrets p w

  unfoldable pub ensure_postgres_secrets : Postgres → Action W (CredentialError E) (Unit {0})
  unfolding then_clone
  ensure_postgres_secrets p w = let (done, w') = ensure_standby_secrets p w in then_clone p done w'
