-- ===== src/Postgres/Secrets.antt =====
-- The secrets with the passwords of a database's users (api/v1/postgres_types.go): which secrets
-- of the operator are read, and the one secret that they are collected in.
use postgreslet.Prelude.{◌≡◌, refl, Option, none, some, List, [], ◌∷◌, ◌=?◌, text_eq, if◌then◌else◌}
use postgreslet.Text.{Text, codes}
use postgreslet.Dict.{Dict, lookup, insert, lookup-insert, lookup-nil}
use postgreslet.Postgres.Model.{Postgres}
use postgreslet.Postgres.Names.{to_user_passwords_secret_name}

pub record Secret : Type 0 where
  pub namespace : Text
  pub name : Text
  pub labels : Dict Text Text
  pub data_of : Dict Text Text

abbrev pub name_label_name : Text
name_label_name = codes "postgres.database.fits.cloud/name"

unfoldable pub to_zalando_postgresql_matching_labels : Postgres → Dict Text Text
to_zalando_postgresql_matching_labels p =
    (codes "postgres.database.fits.cloud/project-id", p.spec.project_id)
    ∷ (codes "postgres.database.fits.cloud/tenant", p.spec.tenant)
    ∷ (codes "postgres.database.fits.cloud/uid", p.uid)
    ∷ (name_label_name, p.name)
    ∷ []

-- A value of a secret; a missing one is nil, which is the empty text.
unfoldable pub value_of : Text → Secret → Text
value_of k secret = elim (lookup k secret.data_of) [ none ↦ [] | some v ↦ v ]

-- The loop over the secrets: the password under the name of the user.
unfoldable pub add_passwords : Dict Text Text → List Secret → Dict Text Text
unfolding value_of
add_passwords m [] = m
add_passwords m (v ∷ rest) =
    add_passwords (insert (value_of (codes "username") v) (value_of (codes "password") v) m) rest

unfoldable pub to_user_passwords_secret : Postgres → List Secret → Secret
unfolding add_passwords
to_user_passwords_secret p src = record {
  namespace = p.namespace;
  name = to_user_passwords_secret_name p;
  labels = [];
  data_of = add_passwords [] src;
}

-- The password of the last secret for a user, if there is one.
unfoldable pub last_password : Text → Option Text → List Secret → Option Text
last_password user before [] = before
last_password user before (v ∷ rest) =
    last_password user
      (if value_of (codes "username") v =? user
        then some (value_of (codes "password") v)
        else before)
      rest

lookup-add_passwords :
    (user : Text) (m : Dict Text Text) (src : List Secret)
    → lookup user (add_passwords m src) ≡ last_password user (lookup user m) src
unfolding add_passwords last_password
lookup-add_passwords user m [] = refl
lookup-add_passwords user m (v ∷ rest) =
    rw
      (
        lookup-add_passwords user
            (insert (value_of (codes "username") v) (value_of (codes "password") v) m) rest,
        lookup-insert,
      )
      refl

-- Under the name of a user the secret that the program writes has the password of the last secret
-- of the operator for this user, and nothing under any other name.
pub lookup-to_user_passwords_secret :
    (p : Postgres) (src : List Secret) (user : Text)
    → lookup user (to_user_passwords_secret p src).data_of ≡ last_password user none src
unfolding to_user_passwords_secret last_password
lookup-to_user_passwords_secret p src user =
    rw (lookup-add_passwords user [] src, lookup-nil user) refl
