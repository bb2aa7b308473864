-- ===== src/Tests/Credentials.antt =====
-- The secrets of a clone, over clusters in memory.
use mathlib.Core.List.{Memᴰ}
use postgreslet.Prelude.{◌≡◌, refl, Bool, true, false, some, List, [], ◌∷◌, text_eq, arith, length}
use postgreslet.Text.{codes, keep_alnum, to_lower}
use postgreslet.Cluster.{Result, ok, Client}
use postgreslet.Cluster.Memory.{
  MemoryError, not_found, already_exists, memory, memory-IsLawful, memory-create_absent,
  memory-create_exists,
}
use postgreslet.Postgres.Model.{Postgres, is_replication_primary_or_standalone}
use postgreslet.Postgres.Names.{
  to_user_passwords_secret_name, to_peripheral_resource_name, to_peripheral_resource_namespace,
  generate_team_id, generate_database_name,
}
use postgreslet.Postgres.Secrets.{Secret, to_zalando_postgresql_matching_labels}
use postgreslet.Credentials.{
  Secrets, CredentialError, standby_user, secret_user, credentials_name, credentials_key,
  local_secret, dash_for_underscore, replace_first, copy_users, copy_secrets,
  ensure_standby_secrets, ensure_clone_secrets, ensure_postgres_secrets,
}
use postgreslet.Credentials.Copying.{IsSecrets}
use postgreslet.Credentials.Completeness.{copy_secrets_complete}
use postgreslet.Credentials.Ensuring.{ensure_postgres_secrets-keeps, ensure_clone_secrets-standby}
use postgreslet.Tests.Data.{spec, with_spec}

abbrev exists_already : MemoryError → Bool
exists_already not_found = false
exists_already already_exists = true

abbrev source_secret : Secret
source_secret = record {
  namespace = codes "metal";
  name = codes "77aa-passwords";
  labels = [];
  data_of =
      (codes "postgres", codes "p1")
      ∷ (codes "standby", codes "p2")
      ∷ (codes "my_user", codes "p3")
      ∷ [];
}

local_client : Client (List Secret) MemoryError Secret
unfolding memory
local_client = memory (λ s. record { namespace = s.namespace; name = s.name }) (λ s. s.labels)

secrets : Secrets (List Secret) MemoryError
unfolding local_client
secrets = record {
  local = local_client;
  get_remote = λ _ _. ok source_secret;
  is_already_exists = exists_already;
}

is_existing : (e : MemoryError) → exists_already e ≡ true → e ≡ already_exists
is_existing not_found h = ground arith
is_existing already_exists h = refl

secrets-IsSecrets : IsSecrets secrets
unfolding secrets local_client
secrets-IsSecrets = record {
  laws = memory-IsLawful _ _;
  key_of_lem = λ s. refl;
  create-absent = λ o s {w} done. memory-create_absent _ (λ s. s.labels) o s w done;
  create-exists = λ o e {w} failed exists.
      memory-create_exists _ (λ s. s.labels) o w (rw (is_existing e exists) at failed);
}

-- A clone of the other database.
abbrev cloned_shop : Postgres
cloned_shop = with_spec (record spec {
  postgres_restore = some (record { source_postgres_id = codes "77aa"; timestamp = [] });
})

-- A secret that is there before.
abbrev older : Secret
older = local_secret cloned_shop (codes "my_user") (codes "old")

run : Postgres → List Secret → Result (CredentialError MemoryError) (Unit {0}) × List Secret
unfolding secrets memory ensure_postgres_secrets ensure_standby_secrets ensure_clone_secrets
    copy_secrets copy_users replace_first local_secret credentials_name dash_for_underscore
    is_replication_primary_or_standalone to_user_passwords_secret_name to_peripheral_resource_name
    to_peripheral_resource_namespace generate_team_id generate_database_name keep_alnum to_lower
    text_eq to_zalando_postgresql_matching_labels
run p w = ensure_postgres_secrets secrets p w

abbrev after : List Secret
after = (run cloned_shop (older ∷ [])).1

runs :
    (run cloned_shop (older ∷ []) ≡ (ok tt, after))
    × (length after ≡ 2)
    × (replace_first (codes "3f9c-77ab-passwords") (codes "3f9c-77ab") (codes "77aa")
        ≡ codes "77aa-passwords")
unfolding run
runs = (refl, refl, refl)

ensure_postgres_secrets-keeps_example :
    secrets.local.get (credentials_key (secret_user (codes "my_user")) cloned_shop) after ≡ ok older
unfolding run
ensure_postgres_secrets-keeps_example =
    ensure_postgres_secrets-keeps secrets secrets-IsSecrets cloned_shop
      (credentials_key (secret_user (codes "my_user")) cloned_shop) older (older ∷ []) refl refl

ensure_clone_secrets-standby_example :
    secrets.local.get (credentials_key standby_user cloned_shop) after
    ≡ secrets.local.get (credentials_key standby_user cloned_shop) (older ∷ [])
unfolding run
ensure_clone_secrets-standby_example =
    ensure_clone_secrets-standby secrets secrets-IsSecrets cloned_shop (older ∷ []) refl

copy_secrets_complete_example :
    (s : Secret) × (secrets.local.get
        (credentials_key (secret_user (codes "postgres")) cloned_shop)
        (copy_secrets secrets (record { namespace = []; name = [] }) cloned_shop true []).1
      ≡ ok s)
unfolding run
copy_secrets_complete_example =
    copy_secrets_complete secrets secrets-IsSecrets true cloned_shop
      (record { namespace = []; name = [] }) source_secret (codes "postgres") (codes "p1") [] refl
      (Memᴰ.head refl) refl refl
