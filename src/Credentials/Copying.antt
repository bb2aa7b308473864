-- ===== src/Credentials/Copying.antt =====
-- What the copying of secrets leaves in the service cluster: nothing that was there changes, and
-- for a clone nothing of the standby user.
use mathlib.Core.List.{append_cancel_right}
use postgreslet.Prelude.{
  ◌≡◌, ◌≢◌, inl, inr, refl, ap, ◌∙◌, sym, Bool, true, false, ◌&&◌, [], ◌∷◌, ◌++◌, ◌=?◌, text_eq,
  arith, Bool-cases,
}
use postgreslet.Text.{Text, codes}
use postgreslet.Dict.{Dict}
use postgreslet.Cluster.{Result, ok, err, Action, NamespacedName, NamespacedName-discrete, IsLawful}
use postgreslet.Postgres.Model.{Postgres}
use postgreslet.Postgres.Names.{to_peripheral_resource_name}
use postgreslet.Postgres.Secrets.{Secret}
use postgreslet.Credentials.{
  Secrets, CredentialError, standby_user, dash_for_underscore, secret_user, credentials_name,
  credentials_key, local_secret, continue_copy, copy_users,
}

-- A lawful client for secrets, of which a creation never replaces a secret, and fails without an
-- effect where it reports that the secret is there.
pub record IsSecrets {W E : Type 0} (secrets : Secrets W E) : Type 0 where
  pub laws : IsLawful secrets.local
  pub key_of_lem :
      (s : Secret) → secrets.local.key_of s ≡ record { namespace = s.namespace; name = s.name }
  pub create-absent :
      (o s : Secret) {w w' : W}
      → secrets.local.create o w ≡ (ok tt, w')
      → secrets.local.get (secrets.local.key_of o) w ≢ ok s
  pub create-exists :
      (o : Secret) (e : E) {w w' : W}
      → secrets.local.create o w ≡ (err e, w')
      → secrets.is_already_exists e ≡ true
      → (w ≡ w') × ((s : Secret) × (secrets.local.get (secrets.local.key_of o) w ≡ ok s))

module _ {W E : Type 0} (secrets : Secrets W E) (lawful : IsSecrets secrets) where
  -- The secret is there after the step: created, or there before it, which then changed nothing.
  pub data Added (o : Secret) (w w' : W) : Type 0 where
    created : secrets.local.create o w ≡ (ok tt, w') → Added o w w'
    existed :
        (s : Secret) → w ≡ w' → secrets.local.get (secrets.local.key_of o) w ≡ ok s → Added o w w'

  continue_copy-Added :
      (next : Action W (CredentialError E) (Unit {0})) (o : Secret) (result : Result E (Unit {0}))
      (w v : W) {w' : W}
      → secrets.local.create o w ≡ (result, v)
      → continue_copy secrets next result v ≡ (ok tt, w')
      → Added o w v × (next v ≡ (ok tt, w'))
  unfolding continue_copy
  continue_copy-Added next o (ok _) w v is_created done = (created is_created, done)
  continue_copy-Added next o (err e) w v failed done =
      elim (Bool-cases (secrets.is_already_exists e)) [
        | inl exists ↦
            let (same, (s, there)) = lawful.create-exists o e failed exists in
            (existed s same there, rw exists at done)
        | inr other ↦ ground arith
      ]

  -- One round of the loop: the user is skipped, or its secret is added.
  pub data Round (ignored : Bool) (p : Postgres) (username password : Text) (w v : W) : Type 0 where
    skipped :
        (ignored && (username =? standby_user)) ≡ true
        → w ≡ v
        → Round ignored p username password w v
    added :
        (ignored && (username =? standby_user)) ≡ false
        → Added (local_secret p username password) w v
        → Round ignored p username password w v

  pub copy_users-Round :
      (ignored : Bool) (p : Postgres) (username password : Text) (rest : Dict Text Text) (w : W)
      {w' : W}
      → copy_users secrets ignored p ((username, password) ∷ rest) w ≡ (ok tt, w')
      → (v : W) × Round ignored p username password w v
        × (copy_users secrets ignored p rest v ≡ (ok tt, w'))
  unfolding copy_users
  copy_users-Round ignored p username password rest w done =
      elim (Bool-cases (ignored && (username =? standby_user))) [
        | inl skip ↦ (w, skipped skip refl, rw skip at done)
        | inr copy ↦
            let new = secrets.local.create (local_secret p username password) w in
            let (is_added, later) =
              continue_copy-Added (copy_users secrets ignored p rest)
                (local_secret p username password) new.0 w new.1 refl (rw copy at done) in
            (new.1, added copy is_added, later)
      ]

  Added-keeps :
      (o : Secret) (k : NamespacedName) (s : Secret) (w v : W)
      → Added o w v
      → secrets.local.get k w ≡ ok s
      → secrets.local.get k v ≡ ok s
  Added-keeps o k s w v (existed _ same _) there = rw same at there
  Added-keeps o k s w v (created done) there =
      elim (NamespacedName-discrete (secrets.local.key_of o) k) [
        | yes same ↦ absurd (lawful.create-absent o s done (rw same there))
        | no apart ↦ lawful.laws.get-create_ne o k done apart ∙ there
      ]

  Round-keeps :
      (ignored : Bool) (p : Postgres) (username password : Text) (k : NamespacedName) (s : Secret)
      (w v : W)
      → Round ignored p username password w v
      → secrets.local.get k w ≡ ok s
      → secrets.local.get k v ≡ ok s
  Round-keeps ignored p username password k s w v (skipped _ same) there = rw same at there
  Round-keeps ignored p username password k s w v (added _ is_added) there =
      Added-keeps (local_secret p username password) k s w v is_added there

  pub copy_users-keeps :
      (ignored : Bool) (p : Postgres) (users : Dict Text Text) (k : NamespacedName) (s : Secret)
      (w : W) {w' : W}
      → copy_users secrets ignored p users w ≡ (ok tt, w')
      → secrets.local.get k w ≡ ok s
      → secrets.local.get k w' ≡ ok s
  unfolding copy_users
  copy_users-keeps ignored p [] k s w done there =
      rw (ap (λ (t : Result (CredentialError E) (Unit {0}) × W). t.1) done) at there
  copy_users-keeps ignored p ((username, password) ∷ rest) k s w done there =
      let (v, round, later) = copy_users-Round ignored p username password rest w done in
      copy_users-keeps ignored p rest k s v later
        (Round-keeps ignored p username password k s w v round there)

-- Only the standby user has the secret of the standby user.
secret_user_standby : (u : Text) → secret_user u ≡ secret_user standby_user → u ≡ standby_user
unfolding dash_for_underscore
secret_user_standby u e = ground arith

credentials_name_injective :
    (u v : Text) (p : Postgres) → credentials_name u p ≡ credentials_name v p → u ≡ v
unfolding credentials_name
credentials_name_injective u v p e =
    append_cancel_right u v (codes "." ++ (to_peripheral_resource_name p ++ codes ".credentials")) e

module _ {W E : Type 0} (secrets : Secrets W E) (lawful : IsSecrets secrets) (p : Postgres) where
  other_user : (u : Text) → (true && (u =? standby_user)) ≡ false → u ≢ standby_user
  other_user u h e = ground arith

  -- The secret of any other user has another key.
  local_secret-ne :
      (u password : Text)
      → u ≢ standby_user
      → secrets.local.key_of (local_secret p u password) ≢ credentials_key standby_user p
  unfolding local_secret dash_for_underscore
  local_secret-ne u password other e =
      let keys = sym (lawful.key_of_lem (local_secret p u password)) ∙ e in
      other (
        secret_user_standby u (
          credentials_name_injective (secret_user u) standby_user p
            (ap (λ (t : NamespacedName). t.name) keys)))

  Added-frame :
      (k : NamespacedName) (o : Secret) (w v : W)
      → secrets.local.key_of o ≢ k
      → Added secrets lawful o w v
      → secrets.local.get k v ≡ secrets.local.get k w
  Added-frame k o w v apart (existed _ same _) = ap (λ (t : W). secrets.local.get k t) (sym same)
  Added-frame k o w v apart (created done) = lawful.laws.get-create_ne o k done apart

  Round-standby :
      (u password : Text) (w v : W)
      → Round secrets lawful true p u password w v
      → secrets.local.get (credentials_key standby_user p) v
        ≡ secrets.local.get (credentials_key standby_user p) w
  Round-standby u password w v (skipped _ same) =
      ap (λ (t : W). secrets.local.get (credentials_key standby_user p) t) (sym same)
  Round-standby u password w v (added other is_added) =
      Added-frame (credentials_key standby_user p) (local_secret p u password) w v
        (local_secret-ne u password (other_user u other)) is_added

  pub copy_users-standby :
      (users : Dict Text Text) (w : W) {w' : W}
      → copy_users secrets true p users w ≡ (ok tt, w')
      → secrets.local.get (credentials_key standby_user p) w'
        ≡ secrets.local.get (credentials_key standby_user p) w
  unfolding copy_users
  copy_users-standby [] w done =
      ap
        (λ (t : Result (CredentialError E) (Unit {0}) × W).
          secrets.local.get (credentials_key standby_user p) t.1)
        (sym done)
  copy_users-standby ((u, password) ∷ rest) w done =
      let (v, round, later) = copy_users-Round secrets lawful true p u password rest w done in
      copy_users-standby rest v later ∙ Round-standby u password w v round
