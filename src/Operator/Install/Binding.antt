-- ===== src/Operator/Install/Binding.antt =====
-- The cluster role binding, which the namespaces share: what an installation makes of its subjects.
use postgreslet.Prelude.{
  ◌≡◌, refl, sym, ap, ◌∙◌, true, Bool-cases, inl, inr, List, [], ◌∷◌, ◌++◌, arith, text_eq,
}
use postgreslet.Text.{Text, codes}
use postgreslet.Cluster.{Result, ok, err}
use postgreslet.Cluster.Actions.{or_else_fail-success, world}
use postgreslet.Kube.{Subject, Object, Key, key_of, Objects, cluster_role_binding}
use postgreslet.Kube.Laws.{IsObjects}
use postgreslet.Operator.Install.Writes.{binding_key}
use postgreslet.Operator.Objects.{
  OperatorOptions, clean_metadata, is_service_account, is_account_of, move_subjects, has_account,
  subjects_of,
}
use postgreslet.Operator.Install.{
  cluster_error, call, with_body, add_subject, install_binding, create_by_kind,
  create_new_client_object,
}

-- The address of a cluster role binding.
abbrev pub shared_key : Text → Key
shared_key name = record { kind = codes "ClusterRoleBinding"; namespace = []; name = name }

listed_subjects :
    (got : Object) (there : List Subject)
    → got.body ≡ cluster_role_binding there
    → subjects_of got ≡ there
listed_subjects got there listed = rw listed refl

-- The subject as the installation moves it.
abbrev pub moved : Text → Subject → Subject
moved namespace s = record s { namespace = namespace }

has_account-append :
    (namespace : Text) (there added : List Subject)
    → has_account namespace there ≡ true
    → has_account namespace (there ++ added) ≡ true
unfolding has_account
has_account-append namespace [] added h = ground arith
has_account-append namespace (s ∷ rest) added h =
    ground (arith, has_account-append namespace rest added)

has_account-added :
    (namespace : Text) (there : List Subject) (s : Subject)
    → is_account_of namespace s ≡ true
    → has_account namespace (there ++ s ∷ []) ≡ true
unfolding has_account
has_account-added namespace [] s h = rw h refl
has_account-added namespace (t ∷ rest) s h = ground (arith, has_account-added namespace rest s)

moved-IsAccount :
    (namespace : Text) (s : Subject)
    → is_service_account s ≡ true
    → is_account_of namespace (moved namespace s) ≡ true
moved-IsAccount namespace s h = ground arith

same_subjects :
    {E : Type 0} {a b : Object} {there other : List Subject}
    → ◌≡◌ {A = Result E Object} (ok a) (ok b)
    → a.body ≡ cluster_role_binding there
    → b.body ≡ cluster_role_binding other
    → there ≡ other
same_subjects {E} {a} {b} e first second =
    subjects_same (sym first ∙ ap (λ (o : Object). o.body) (object_same e) ∙ second)
  where
    object_same : {x y : Object} → ◌≡◌ {A = Result E Object} (ok x) (ok y) → x ≡ y
    object_same h = cc

    subjects_same : {x y : List Subject} → cluster_role_binding x ≡ cluster_role_binding y → x ≡ y
    subjects_same h = cc

module _ {W E : Type 0} (objects : Objects W E) {Doomed : Key → W → Type 0}
    (laws : IsObjects objects Doomed) (namespace : Text) where
  -- The binding has the account of the namespace, and every account that was there before.
  abbrev pub IsBound : Key → W → W → Type 0
  IsBound k w w' =
      (stored : Object) × (subjects : List Subject) × (objects.get k w' ≡ ok stored)
      × (stored.body ≡ cluster_role_binding subjects)
      × (has_account namespace subjects ≡ true)
      × ((got : Object) (there : List Subject) (other : Text)
          → objects.get k w ≡ ok got
          → got.body ≡ cluster_role_binding there
          → has_account other there ≡ true
          → has_account other subjects ≡ true)

  added :
      (got : Object) (there : List Subject) (s : Subject) (w w' : W) (a : Unit {0})
      → objects.get (key_of (with_body (cluster_role_binding (there ++ s ∷ [])) got)) w ≡ ok got
      → got.body ≡ cluster_role_binding there
      → is_account_of namespace s ≡ true
      → call (objects.patch got (with_body (cluster_role_binding (there ++ s ∷ [])) got)) w
        ≡ (ok a, w')
      → IsBound (key_of (with_body (cluster_role_binding (there ++ s ∷ [])) got)) w w'
  added got there s w w' a read body account h =
      let new = with_body (cluster_role_binding (there ++ s ∷ [])) got in
      let done = or_else_fail-success cluster_error (objects.patch got new) w w' a h in
      let (stored, read', kept) = laws.get-patch_self got new done read in
      (
        stored,
        there ++ s ∷ [],
        read',
        kept,
        has_account-added namespace there s account,
        λ got' there' other read'' body' has.
            has_account-append other there (s ∷ [])
              (rw (same_subjects (sym read ∙ read'') body body') has),
      )

  add_subject-IsBound :
      (got : Object) (there : List Subject) (s : Subject) (rest : List Subject) (w w' : W)
      (a : Unit {0})
      → objects.get (key_of (with_body (cluster_role_binding (there ++ s ∷ [])) got)) w ≡ ok got
      → got.body ≡ cluster_role_binding there
      → is_account_of namespace s ≡ true
      → add_subject objects namespace got there (s ∷ rest) w ≡ (ok a, w')
      → IsBound (key_of (with_body (cluster_role_binding (there ++ s ∷ [])) got)) w w'
  unfolding add_subject
  add_subject-IsBound got there s rest w w' a read body account h =
      elim (Bool-cases (has_account namespace there)) [
        | inl has ↦
            let same = world (rw has at h) in
            (
              got,
              there,
              rw same at read,
              body,
              has,
              λ got' there' other read' body' has'.
                  rw (same_subjects (sym read ∙ read') body body') has',
            )
        | inr lacks ↦ added got there s w w' a read body account (rw lacks at h)
      ]

  created :
      (o : Object) (s : Subject) (rest : List Subject) (e : E) (w w' : W) (a : Unit {0})
      → o.body ≡ cluster_role_binding (s ∷ rest)
      → objects.get (key_of o) w ≡ err e
      → is_account_of namespace s ≡ true
      → call (objects.create o) w ≡ (ok a, w')
      → IsBound (key_of o) w w'
  unfolding has_account
  created o s rest e w w' a body missing account h =
      let done = or_else_fail-success cluster_error (objects.create o) w w' a h in
      let (stored, read, kept) = laws.get-create_self o done in
      (
        stored,
        s ∷ rest,
        read,
        rw body at kept,
        rw account refl,
        λ got there other found _ _. ground arith,
      )

  install_binding-IsBound :
      (o : Object) (s : Subject) (rest : List Subject) (r : Result E Object) (w w' : W)
      (a : Unit {0})
      → o.body ≡ cluster_role_binding (s ∷ rest)
      → objects.get (key_of o) w ≡ r
      → ((got : Object)
          → r ≡ ok got
          → (there : List Subject) × (got.body ≡ cluster_role_binding there))
      → is_account_of namespace s ≡ true
      → install_binding objects namespace o (s ∷ rest) r w ≡ (ok a, w')
      → IsBound (key_of o) w w'
  unfolding install_binding
  install_binding-IsBound o s rest (err e) w w' a body read typed account h =
      elim (Bool-cases (objects.is_not_found e)) [
        | inl missing ↦ created o s rest e w w' a body read account (rw missing at h)
        | inr found ↦ ground arith
      ]
  install_binding-IsBound o s rest (ok got) w w' a body read typed account h =
      let (there, listed) = typed got refl in
      let found = listed ∙ ap cluster_role_binding (sym (listed_subjects got there listed)) in
      let same =
        binding_key o got (s ∷ rest) (subjects_of got ++ s ∷ []) body
          (laws.key_of-get (key_of o) got w read) in
      rw same
        (add_subject-IsBound got (subjects_of got) s rest w w' a (rw same at read) found account h)

  -- Over a client that meets the laws: an installation of a cluster role binding of the documents
  -- that succeeds, whose first subject is a service account, and where nothing but a binding is
  -- stored under the name, leaves a binding in the cluster that has the account of the namespace,
  -- and still has the account of every namespace that it had before.
  pub create_new_client_object-IsBound :
      (options : OperatorOptions) (o : Object) (s : Subject) (rest : List Subject) (w w' : W)
      (a : Unit {0})
      → o.body ≡ cluster_role_binding (s ∷ rest)
      → is_service_account s ≡ true
      → ((got : Object)
          → objects.get (shared_key o.meta.name) w ≡ ok got
          → (there : List Subject) × (got.body ≡ cluster_role_binding there))
      → create_new_client_object objects options namespace o w ≡ (ok a, w')
      → IsBound (shared_key o.meta.name) w w'
  unfolding create_new_client_object create_by_kind clean_metadata move_subjects key_of
  create_new_client_object-IsBound options o s rest w w' a body account typed h =
      let new =
        with_body (cluster_role_binding (moved namespace s ∷ move_subjects namespace rest))
          (clean_metadata namespace o) in
      install_binding-IsBound new (moved namespace s) (move_subjects namespace rest)
        (objects.get (shared_key o.meta.name) w) w w' a refl refl (λ got read. typed got read)
        (moved-IsAccount namespace s account) (rw (body, account) at h)
