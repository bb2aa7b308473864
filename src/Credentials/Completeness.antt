-- ===== src/Credentials/Completeness.antt =====
-- Every user of the other database has a secret after the copying.
use mathlib.Core.List.{Memᴰ}
use postgreslet.Prelude.{◌≡◌, ap, Bool, true, false, ◌&&◌, [], ◌∷◌, ◌=?◌, text_eq, arith}
use postgreslet.Text.{Text}
use postgreslet.Dict.{Dict}
use postgreslet.Cluster.{ok}
use postgreslet.Postgres.Model.{Postgres}
use postgreslet.Postgres.Secrets.{Secret}
use postgreslet.Cluster.{NamespacedName}
use postgreslet.Credentials.{
  Secrets, standby_user, secret_user, credentials_key, local_secret, copy_users, copy_from,
  copy_secrets,
}
use postgreslet.Credentials.Copying.{
  IsSecrets, Added, created, existed, Round, skipped, added, copy_users-Round, copy_users-keeps,
}

module _ {W E : Type 0} (secrets : Secrets W E) (lawful : IsSecrets secrets) (ignored : Bool)
    (p : Postgres) where
  Added-there :
      (o : Secret) (w v : W)
      → Added secrets lawful o w v
      → (s : Secret) × (secrets.local.get (secrets.local.key_of o) v ≡ ok s)
  Added-there o w v (created done) = (o, lawful.laws.get-create_self o done)
  Added-there o w v (existed s same there) = (s, rw same at there)

  local_secret-key :
      (u password : Text)
      → secrets.local.key_of (local_secret p u password) ≡ credentials_key (secret_user u) p
  unfolding local_secret
  local_secret-key u password = lawful.key_of_lem (local_secret p u password)

  both_ways : (b : Bool) → b ≡ true → b ≡ false → ⊥
  both_ways b h h' = ground arith

  Round-there :
      (u password : Text) (w v : W)
      → (ignored && (u =? standby_user)) ≡ false
      → Round secrets lawful ignored p u password w v
      → (s : Secret) × (secrets.local.get (credentials_key (secret_user u) p) v ≡ ok s)
  Round-there u password w v copied (skipped skip _) =
      absurd (both_ways (ignored && (u =? standby_user)) skip copied)
  Round-there u password w v copied (added _ is_added) =
      let (s, there) = Added-there (local_secret p u password) w v is_added in
      (s, rw (local_secret-key u password) at there)

  copy_users_complete :
      (users : Dict Text Text) (u password : Text) (w : W) {w' : W}
      → Memᴰ (u, password) users
      → (ignored && (u =? standby_user)) ≡ false
      → copy_users secrets ignored p users w ≡ (ok tt, w')
      → (s : Secret) × (secrets.local.get (credentials_key (secret_user u) p) w' ≡ ok s)
  copy_users_complete [] u password w member copied done = elim member [ ]
  copy_users_complete ((v, q) ∷ rest) u password w (Memᴰ.tail member) copied done =
      let (x, round, later) = copy_users-Round secrets lawful ignored p v q rest w done in
      copy_users_complete rest u password x member copied later
  copy_users_complete ((v, q) ∷ rest) u password w (Memᴰ.head e) copied done =
      let same : u ≡ v = ap (λ (t : Text × Text). t.0) e in
      let (x, round, later) = copy_users-Round secrets lawful ignored p v q rest w done in
      let (s, there) = Round-there v q w x (rw same at copied) round in
      (
        s,
        rw same (
            copy_users-keeps secrets lawful ignored p rest (credentials_key (secret_user v) p) s x
              later there),
      )

  -- Over a client that meets the laws: copying the users of another database's secret, where it
  -- does not fail, leaves a secret for each of its users, but for the standby user where this one
  -- is to be ignored.
  pub copy_secrets_complete :
      (source : NamespacedName) (remote : Secret) (u password : Text) (w : W) {w' : W}
      → secrets.get_remote source w ≡ ok remote
      → Memᴰ (u, password) remote.data_of
      → (ignored && (u =? standby_user)) ≡ false
      → copy_secrets secrets source p ignored w ≡ (ok tt, w')
      → (s : Secret) × (secrets.local.get (credentials_key (secret_user u) p) w' ≡ ok s)
  unfolding copy_secrets copy_from
  copy_secrets_complete source remote u password w found member copied done =
      copy_users_complete remote.data_of u password w member copied (rw (found, copy_from) at done)
