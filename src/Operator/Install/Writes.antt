-- ===== src/Operator/Install/Writes.antt =====
-- What an installation writes: a property of the cluster that every write to the keys of the
-- namespace keeps is kept by the whole.
use postgreslet.Prelude.{◌≡◌, refl, ap, sym, List, [], ◌∷◌, ◌++◌, text_eq, arith}
use postgreslet.Text.{Text, codes}
use postgreslet.Cluster.{Result, ok, err, Action, pure, fail, ◌>>=◌}
use postgreslet.Cluster.Actions.{
  Keeps, Keeps-pure, Keeps-fail, Keeps-bind, Keeps-if, Keeps-or_else_fail,
}
use postgreslet.Kube.{
  Subject, Body, Object, Key, key_of, kind_of, scope_of, Objects, service_account, config_map,
  service, cluster_role, cluster_role_binding, deployment,
}
use postgreslet.Operator.Objects.{
  OperatorOptions, clean_metadata, has_account, local_sidecars_cm_name, subjects_of, move_subjects,
  psp_policy_rule, patch_images, edit_config_map,
}
use postgreslet.Operator.Install.{
  OperatorError, unknown_object, call, look_up, namespace_object, namespace_labels, with_body,
  with_labels, cluster_error, index_out_of_range, write_namespace, create_or_update_namespace,
  unless_found, upsert, cluster_ip, add_subject, install_binding, create_by_kind,
}

ok_injective : {E A : Type 0} {a b : A} → ◌≡◌ {A = Result E A} (ok a) (ok b) → a ≡ b
ok_injective e = cc

-- The address of an object of this kind and name in the namespace.
abbrev pub key_in : Text → Object → Body → Key
key_in namespace o b = record {
  kind = kind_of b;
  namespace = scope_of b namespace;
  name = o.meta.name;
}

abbrev pub sidecars_key : Text → Key
sidecars_key namespace = record {
  kind = codes "ConfigMap";
  namespace = namespace;
  name = local_sidecars_cm_name;
}

pub binding_key :
    (o got : Object) (b there : List Subject)
    → o.body ≡ cluster_role_binding b
    → key_of got ≡ key_of o
    → key_of o ≡ key_of (with_body (cluster_role_binding there) got)
unfolding key_of
binding_key o got b there body same = rw (body, sym (ap (λ (k : Key). k.name) same)) refl

module _ {W E : Type 0} (objects : Objects W E) (options : OperatorOptions) (namespace : Text)
    (P : W → Type 0) (C U : Key → Type 0)
    (key_of-get : (k : Key) (o : Object) (w : W) → objects.get k w ≡ ok o → key_of o ≡ k)
    (keeps_create : (o : Object) → C (key_of o) → Keeps P (objects.create o))
    (keeps_update : (o : Object) → U (key_of o) → Keeps P (objects.update o))
    (keeps_patch : (base o : Object) → U (key_of o) → Keeps P (objects.patch base o)) where
  pub create-Keeps : (o : Object) → C (key_of o) → Keeps P (call (objects.create o))
  create-Keeps o may = Keeps-or_else_fail P (objects.create o) cluster_error (keeps_create o may)

  pub update-Keeps : (o : Object) → U (key_of o) → Keeps P (call (objects.update o))
  update-Keeps o may = Keeps-or_else_fail P (objects.update o) cluster_error (keeps_update o may)

  -- What follows a reading may rely on what was read.
  look_up-Keeps :
      {A : Type 0} (k : Key) (f : Result E Object → Action W (OperatorError E) A)
      → ((e : E) → Keeps P (f (err e)))
      → ((o : Object) → key_of o ≡ k → Keeps P (f (ok o)))
      → Keeps P (look_up objects k >>= f)
  look_up-Keeps k f missing found w w' b h p = go (objects.get k w) refl h
    where
      go : (r : Result E Object) → objects.get k w ≡ r → f r w ≡ (ok b, w') → P w'
      go (ok o) read h' = found o (key_of-get k o w read) w w' b h' p
      go (err e) read h' = missing e w w' b h' p

  upsert-Keeps :
      (o : Object) (r : Result E Object)
      → C (key_of o)
      → U (key_of o)
      → Keeps P (upsert objects o r)
  unfolding upsert
  upsert-Keeps o (ok _) may_create may_update = update-Keeps o may_update
  upsert-Keeps o (err e) may_create may_update =
      Keeps-if P (objects.is_not_found e) (call (objects.create o)) (fail (cluster_error e))
        (create-Keeps o may_create) (Keeps-fail P (cluster_error e))

  write_namespace-Keeps :
      (r : Result E Object)
      → C (key_of (namespace_object namespace))
      → ((o : Object) → r ≡ ok o → key_of o ≡ key_of (namespace_object namespace))
      → U (key_of (namespace_object namespace))
      → Keeps P (write_namespace objects namespace r)
  unfolding write_namespace key_of
  write_namespace-Keeps (ok o) may_create same may_update =
      update-Keeps (with_labels namespace_labels o) (rw (same o refl) may_update)
  write_namespace-Keeps (err e) may_create same may_update =
      Keeps-if P (objects.is_not_found e)
        (call (objects.create (with_labels namespace_labels (namespace_object namespace))))
        (fail (cluster_error e))
        (create-Keeps (with_labels namespace_labels (namespace_object namespace)) may_create)
        (Keeps-fail P (cluster_error e))

  unless_found-Keeps :
      (new : Object) (r : Result E Object) → C (key_of new) → Keeps P (unless_found objects new r)
  unfolding unless_found
  unless_found-Keeps new (ok found) may_create = Keeps-pure P found
  unless_found-Keeps new (err e) may_create =
      Keeps-bind P (call (objects.create new)) (λ _. pure new) (create-Keeps new may_create)
        (λ _. Keeps-pure P new)

  pub blank-Keeps :
      (new : Object)
      → C (key_of new)
      → Keeps P (look_up objects (key_of new) >>= unless_found objects new)
  blank-Keeps new may_create =
      look_up-Keeps (key_of new) (unless_found objects new)
        (λ e. unless_found-Keeps new (err e) may_create)
        (λ o _. unless_found-Keeps new (ok o) may_create)

  upserted-Keeps :
      (new : Object)
      → C (key_of new)
      → U (key_of new)
      → Keeps P (look_up objects (key_of new) >>= upsert objects new)
  upserted-Keeps new may_create may_update =
      look_up-Keeps (key_of new) (upsert objects new)
        (λ e. upsert-Keeps new (err e) may_create may_update)
        (λ o _. upsert-Keeps new (ok o) may_create may_update)

  pub namespace-Keeps :
      C (key_of (namespace_object namespace))
      → U (key_of (namespace_object namespace))
      → Keeps P (create_or_update_namespace objects namespace)
  unfolding create_or_update_namespace
  namespace-Keeps may_create may_update =
      look_up-Keeps (key_of (namespace_object namespace)) (write_namespace objects namespace)
        (λ e. write_namespace-Keeps (err e) may_create (λ o h. ground arith) may_update)
        (λ o same.
          write_namespace-Keeps (ok o) may_create (λ o' h. rw (← ok_injective h) same) may_update)

  add_subject-Keeps :
      (got : Object) (there subjects : List Subject)
      → U (key_of (with_body (cluster_role_binding there) got))
      → Keeps P (add_subject objects namespace got there subjects)
  unfolding add_subject key_of
  add_subject-Keeps got there [] may_update =
      Keeps-if P (has_account namespace there) (pure tt) (fail index_out_of_range) (Keeps-pure P tt)
        (Keeps-fail P index_out_of_range)
  add_subject-Keeps got there (first ∷ rest) may_update =
      Keeps-if P (has_account namespace there) (pure tt)
        (call (objects.patch got (with_body (cluster_role_binding (there ++ first ∷ [])) got)))
        (Keeps-pure P tt)
        (Keeps-or_else_fail P
          (objects.patch got (with_body (cluster_role_binding (there ++ first ∷ [])) got))
          cluster_error
          (keeps_patch got (with_body (cluster_role_binding (there ++ first ∷ [])) got) may_update))

  install_binding-Keeps :
      (o : Object) (subjects : List Subject) (r : Result E Object) (b : List Subject)
      → o.body ≡ cluster_role_binding b
      → C (key_of o)
      → ((got : Object) → r ≡ ok got → key_of got ≡ key_of o)
      → U (key_of o)
      → Keeps P (install_binding objects namespace o subjects r)
  unfolding install_binding
  install_binding-Keeps o subjects (err e) b body may_create same may_update =
      Keeps-if P (objects.is_not_found e) (call (objects.create o)) (fail (cluster_error e))
        (create-Keeps o may_create) (Keeps-fail P (cluster_error e))
  install_binding-Keeps o subjects (ok got) b body may_create same may_update =
      let there = subjects_of got in
      add_subject-Keeps got there subjects
        (rw (← binding_key o got b there body (same got refl)) may_update)

  pub item-Keeps :
      (o : Object) (b : Body)
      → C (key_in namespace o b)
      → U (key_in namespace o b)
      → Keeps P (create_by_kind objects options namespace (clean_metadata namespace o) b)
  unfolding create_by_kind clean_metadata key_of
  item-Keeps o service_account may_create may_update =
      upserted-Keeps (with_body service_account (clean_metadata namespace o)) may_create may_update
  item-Keeps o (cluster_role rules) may_create may_update =
      upserted-Keeps
        (with_body (cluster_role (rules ++ psp_policy_rule options ∷ []))
          (clean_metadata namespace o))
        may_create may_update
  item-Keeps o (cluster_role_binding subjects) may_create may_update =
      let moved = move_subjects namespace subjects in
      let new = with_body (cluster_role_binding moved) (clean_metadata namespace o) in
      look_up-Keeps (key_of new) (install_binding objects namespace new moved)
        (λ e.
          install_binding-Keeps new moved (err e) moved refl may_create (λ _ h. ground arith)
            may_update)
        (λ got same.
          install_binding-Keeps new moved (ok got) moved refl may_create
            (λ got' h. rw (← ok_injective h) same) may_update)
  item-Keeps o (config_map d) may_create may_update =
      upserted-Keeps
        (with_body (config_map (edit_config_map options namespace d)) (clean_metadata namespace o))
        may_create may_update
  item-Keeps o (service ip) may_create may_update =
      let new = with_body (service ip) (clean_metadata namespace o) in
      look_up-Keeps (key_of new)
        (λ got.
          upsert objects
            (with_body (service (cluster_ip objects ip got)) (clean_metadata namespace o)) got)
        (λ e.
          upsert-Keeps
            (with_body (service (cluster_ip objects ip (err e))) (clean_metadata namespace o))
            (err e) may_create may_update)
        (λ got same.
          upsert-Keeps
            (with_body (service (cluster_ip objects ip (ok got))) (clean_metadata namespace o))
            (ok got) may_create may_update)
  item-Keeps o (deployment images) may_create may_update =
      upserted-Keeps
        (with_body (deployment (patch_images options images)) (clean_metadata namespace o))
        may_create may_update
  item-Keeps o _ may_create may_update = Keeps-fail P unknown_object
