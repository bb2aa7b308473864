-- ===== src/Credentials/Ensuring.antt =====
-- The secrets that are there when the secrets of a standby and a clone are made sure of.
use postgreslet.Prelude.{
  ◌≡◌, inl, inr, refl, ap, ◌∙◌, Bool, true, false, Option, none, some, [], ◌=?◌, text_eq, arith,
  Bool-cases, if◌then◌else◌,
}
use postgreslet.Text.{Text}
use postgreslet.Dict.{Dict}
use postgreslet.Cluster.{Result, ok, err, Action, NamespacedName}
use postgreslet.Postgres.Model.{
  Postgres, PostgresConnection, PostgresRestore, is_replication_primary_or_standalone,
}
use postgreslet.Postgres.Names.{to_user_passwords_secret_name}
use postgreslet.Postgres.Secrets.{Secret}
use postgreslet.Credentials.Copying.{IsSecrets, copy_users-keeps, copy_users-standby}
use postgreslet.Credentials.{
  Secrets, CredentialError, standby_user, credentials_key, local_failed, monitoring_user,
  super_user, secret_name_not_configured, source_not_configured, nil_dereference, replace_first,
  copy_users, copy_from, copy_secrets, when_local, local_of, ensure_cloned, ensure_connected,
  ensure_clone_secrets, ensure_standby_secrets, ensure_postgres_secrets, then_clone,
}

module _ {W E : Type 0} (secrets : Secrets W E) (P : W → Type 0) where
  -- A step that does not fail keeps what `P` says.
  abbrev Keeps : Action W (CredentialError E) (Unit {0}) → Type 0
  Keeps m = (v v' : W) → m v ≡ (ok tt, v') → P v → P v'

  when_local-Keeps :
      (found : Result E Secret) (here missing : Action W (CredentialError E) (Unit {0}))
      → Keeps here
      → Keeps missing
      → Keeps (when_local secrets found here missing)
  unfolding when_local
  when_local-Keeps (ok _) here missing keeps_here keeps_missing v v' done = keeps_here v v' done
  when_local-Keeps (err e) here missing keeps_here keeps_missing v v' done =
      elim (Bool-cases (secrets.local.is_not_found e)) [
        | inl absent ↦ keeps_missing v v' (rw absent at done)
        | inr other ↦ absurd (refused (rw other at done))
      ]
    where
      refused :
          ◌≡◌ {A = Result (CredentialError E) (Unit {0}) × W} (err (local_failed e), v) (ok tt, v')
          → ⊥
      refused h = ground arith

  copy_from-Keeps :
      (ignored : Bool) (p : Postgres) (remote : Result E Secret)
      → ((users : Dict Text Text) → Keeps (copy_users secrets ignored p users))
      → Keeps (copy_from secrets p ignored remote)
  unfolding copy_from
  copy_from-Keeps ignored p (err e) keeps v v' done = ground arith
  copy_from-Keeps ignored p (ok remote) keeps v v' done = keeps remote.data_of v v' done

  copy_secrets-Keeps :
      (ignored : Bool) (p : Postgres) (source : NamespacedName)
      → ((users : Dict Text Text) → Keeps (copy_users secrets ignored p users))
      → Keeps (copy_secrets secrets source p ignored)
  unfolding copy_secrets
  copy_secrets-Keeps ignored p source keeps v v' done =
      copy_from-Keeps ignored p (secrets.get_remote source v) keeps v v' done

  nothing-Keeps : Keeps (λ v. (ok tt, v))
  nothing-Keeps v v' done there =
      rw (ap (λ (t : Result (CredentialError E) (Unit {0}) × W). t.1) done) at there

  -- A test that fails first.
  guarded-Keeps :
      (refused : Bool) (e : CredentialError E) (m : Action W (CredentialError E) (Unit {0}))
      → Keeps m
      → Keeps (λ v. if refused then (err e, v) else m v)
  guarded-Keeps true e m keeps v v' done = ground arith
  guarded-Keeps false e m keeps v v' done = keeps v v' done

  ensure_connected-Keeps :
      (p : Postgres) (c : PostgresConnection)
      → ((users : Dict Text Text) → Keeps (copy_users secrets false p users))
      → Keeps (ensure_connected secrets p c)
  unfolding ensure_connected
  ensure_connected-Keeps p c keeps =
      let copy =
        copy_secrets secrets (record { namespace = p.namespace; name = c.connection_secret_name }) p
          false in
      let monitored = (λ (v : W).
        when_local secrets (local_of secrets monitoring_user p v) (λ v. (ok tt, v)) copy v) in
      let keeps_monitored : Keeps monitored = λ v v'.
        when_local-Keeps (local_of secrets monitoring_user p v) (λ v. (ok tt, v)) copy nothing-Keeps
          (copy_secrets-Keeps false p
            (record { namespace = p.namespace; name = c.connection_secret_name }) keeps)
          v v' in
      guarded-Keeps (c.connection_secret_name =? []) secret_name_not_configured
        (λ v. when_local secrets (local_of secrets standby_user p v) monitored monitored v)
        (λ v v'.
          when_local-Keeps (local_of secrets standby_user p v) monitored monitored keeps_monitored
            keeps_monitored v v')

  ensure_standby_secrets-Keeps :
      (p : Postgres)
      → ((users : Dict Text Text) → Keeps (copy_users secrets false p users))
      → Keeps (ensure_standby_secrets secrets p)
  unfolding ensure_standby_secrets
  ensure_standby_secrets-Keeps p keeps v v' done =
      elim (Bool-cases (is_replication_primary_or_standalone p)) [
        | inl primary ↦ nothing-Keeps v v' (rw primary at done)
        | inr standby ↦ connected p.spec.postgres_connection (rw standby at done)
      ]
    where
      connected :
          (o : Option PostgresConnection)
          → ◌≡◌ {A = Result (CredentialError E) (Unit {0}) × W}
              (elim o [ none ↦ (err nil_dereference, v) | some c ↦ ensure_connected secrets p c v ])
              (ok tt, v')
          → P v
          → P v'
      connected none h = ground arith
      connected (some c) h = ensure_connected-Keeps p c keeps v v' h

  ensure_cloned-Keeps :
      (p : Postgres) (restore : PostgresRestore)
      → ((users : Dict Text Text) → Keeps (copy_users secrets true p users))
      → Keeps (ensure_cloned secrets p restore)
  unfolding ensure_cloned
  ensure_cloned-Keeps p restore keeps =
      let source : NamespacedName = record {
        namespace = p.namespace;
        name = replace_first (to_user_passwords_secret_name p) p.name restore.source_postgres_id;
      } in
      guarded-Keeps (restore.source_postgres_id =? []) source_not_configured
        (λ v.
          when_local secrets (local_of secrets super_user p v) (λ v. (ok tt, v))
            (copy_secrets secrets source p true) v)
        (λ v v'.
          when_local-Keeps (local_of secrets super_user p v) (λ v. (ok tt, v))
            (copy_secrets secrets source p true) nothing-Keeps
            (copy_secrets-Keeps true p source keeps) v v')

  pub ensure_clone_secrets-Keeps :
      (p : Postgres)
      → ((users : Dict Text Text) → Keeps (copy_users secrets true p users))
      → Keeps (ensure_clone_secrets secrets p)
  unfolding ensure_clone_secrets
  ensure_clone_secrets-Keeps p keeps v v' done = restored p.spec.postgres_restore done
    where
      restored :
          (o : Option PostgresRestore)
          → ◌≡◌ {A = Result (CredentialError E) (Unit {0}) × W}
              (elim o [ none ↦ (ok tt, v) | some restore ↦ ensure_cloned secrets p restore v ])
              (ok tt, v')
          → P v
          → P v'
      restored none h = nothing-Keeps v v' h
      restored (some restore) h = ensure_cloned-Keeps p restore keeps v v' h

  abbrev at_world :
      Result (CredentialError E) (Unit {0}) → W → Result (CredentialError E) (Unit {0}) × W
  at_world t w = (t, w)

  then_clone-Keeps :
      (p : Postgres) (result : Result (CredentialError E) (Unit {0})) (u v v' : W)
      → ((users : Dict Text Text) → Keeps (copy_users secrets true p users))
      → (result ≡ ok tt → P u → P v)
      → then_clone secrets p result v ≡ (ok tt, v')
      → P u
      → P v'
  unfolding then_clone
  then_clone-Keeps p (err e) u v v' keeps before done there = ground arith
  then_clone-Keeps p (ok _) u v v' keeps before done there =
      ensure_clone_secrets-Keeps p keeps v v' done (before refl there)

  -- Both steps together, each with its own way to copy.
  ensure_postgres_secrets-Keeps :
      (p : Postgres)
      → ((users : Dict Text Text) → Keeps (copy_users secrets false p users))
      → ((users : Dict Text Text) → Keeps (copy_users secrets true p users))
      → Keeps (ensure_postgres_secrets secrets p)
  unfolding ensure_postgres_secrets
  ensure_postgres_secrets-Keeps p keeps keeps_clone w w' done there =
      let first = ensure_standby_secrets secrets p w in
      then_clone-Keeps p first.0 w first.1 w' keeps_clone
        (λ e.
          ensure_standby_secrets-Keeps p keeps w first.1
            (ap (λ (t : Result (CredentialError E) (Unit {0})). at_world t first.1) e))
        done there

module _ {W E : Type 0} (secrets : Secrets W E) (lawful : IsSecrets secrets) where
  -- Over a client that meets the laws: making sure of the secrets of a database, where it does not
  -- fail, changes no secret that was in the service cluster, whatever users the other database
  -- has.
  pub ensure_postgres_secrets-keeps :
      (p : Postgres) (k : NamespacedName) (s : Secret) (w : W) {w' : W}
      → ensure_postgres_secrets secrets p w ≡ (ok tt, w')
      → secrets.local.get k w ≡ ok s
      → secrets.local.get k w' ≡ ok s
  ensure_postgres_secrets-keeps p k s w {w'} done =
      ensure_postgres_secrets-Keeps secrets (λ (v : W). secrets.local.get k v ≡ ok s) p
        (λ users v v' copied. copy_users-keeps secrets lawful false p users k s v copied)
        (λ users v v' copied. copy_users-keeps secrets lawful true p users k s v copied) w w' done

  -- Over a client that meets the laws: making sure of the secrets of a clone, where it does not
  -- fail, leaves the secret of the standby user as it was, and writes none if there was none, also
  -- where the source has this user.
  pub ensure_clone_secrets-standby :
      (p : Postgres) (w : W) {w' : W}
      → ensure_clone_secrets secrets p w ≡ (ok tt, w')
      → secrets.local.get (credentials_key standby_user p) w'
        ≡ secrets.local.get (credentials_key standby_user p) w
  ensure_clone_secrets-standby p w {w'} done =
      ensure_clone_secrets-Keeps secrets
        (λ (v : W).
          secrets.local.get (credentials_key standby_user p) v
          ≡ secrets.local.get (credentials_key standby_user p) w)
        p (λ users v v' copied same. copy_users-standby secrets lawful p users v copied ∙ same) w w'
        done refl
