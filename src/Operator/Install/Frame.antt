-- ===== src/Operator/Install/Frame.antt =====
-- What a whole installation keeps of the cluster.
use mathlib.Core.List.{Memᴰ}
use postgreslet.Prelude.{◌≡◌, refl, List, [], ◌∷◌}
use postgreslet.Text.{Text}
use postgreslet.Cluster.{Result, ok, err, ◌>>=◌}
use postgreslet.Cluster.Actions.{
  reading, Keeps, Keeps-pure, Keeps-fail, Keeps-bind, Keeps-or_else_fail, Keeps-reading,
  Keeps-attempt,
}
use postgreslet.Kube.{Object, Key, key_of, blank, Objects, config_map}
use postgreslet.Operator.Objects.{
  OperatorOptions, local_sidecars_cm_name, sidecars_data, config_data,
}
use postgreslet.Operator.Install.{
  Decoded, undecodable, no_object, not_decoded, not_an_object, client_object, Documents, call,
  look_up, namespace_object, global_sidecars_key, pod_env_config_map, pod_env_secret,
  create_or_update_namespace, create_pod_environment_config_map,
  create_or_get_pod_environment_secret, write_sidecars, create_new_client_object,
  create_or_update_sidecars_config, install_decoded, install_items, install_or_update_operator,
  cluster_error,
}
use postgreslet.Operator.Install.Writes.{
  key_in, sidecars_key, create-Keeps, update-Keeps, namespace-Keeps, blank-Keeps, item-Keeps,
}

sidecars_object : Documents → Text → Object → Object
sidecars_object documents namespace global =
    blank namespace local_sidecars_cm_name
      (config_map (sidecars_data documents.decode_base64 (config_data global)))

-- `Q` holds of every object that an installation takes from the documents.
abbrev pub InDocuments : Documents → (Object → Type 0) → Type 0
InDocuments documents Q =
    (item : Text) (o : Object)
    → Memᴰ item documents.items
    → documents.decode item ≡ client_object o
    → Q o

module _ {W E : Type 0} (objects : Objects W E) (options : OperatorOptions) (documents : Documents)
    (namespace : Text) (P : W → Type 0) (C U : Key → Type 0)
    (key_of-get : (k : Key) (o : Object) (w : W) → objects.get k w ≡ ok o → key_of o ≡ k)
    (keeps_create : (o : Object) → C (key_of o) → Keeps P (objects.create o))
    (keeps_update : (o : Object) → U (key_of o) → Keeps P (objects.update o))
    (keeps_patch : (base o : Object) → U (key_of o) → Keeps P (objects.patch base o)) where
  write_sidecars-Keeps :
      (o : Object) (r : Result E Object)
      → C (key_of o)
      → U (key_of o)
      → Keeps P (write_sidecars objects o r)
  unfolding write_sidecars
  write_sidecars-Keeps o (ok _) may_create may_update =
      update-Keeps objects options namespace P C U key_of-get keeps_create keeps_update keeps_patch
        o may_update
  write_sidecars-Keeps o (err _) may_create may_update =
      create-Keeps objects options namespace P C U key_of-get keeps_create keeps_update keeps_patch
        o may_create

  sidecars-Keeps :
      C (sidecars_key namespace)
      → U (sidecars_key namespace)
      → Keeps P (create_or_update_sidecars_config objects options documents namespace)
  unfolding create_or_update_sidecars_config key_of sidecars_object
  sidecars-Keeps may_create may_update =
      Keeps-bind P (call (reading (objects.get (global_sidecars_key options))))
        (λ global.
          look_up objects (key_of (sidecars_object documents namespace global))
          >>= write_sidecars objects (sidecars_object documents namespace global))
        (Keeps-or_else_fail P (reading (objects.get (global_sidecars_key options))) cluster_error
          (Keeps-reading P (objects.get (global_sidecars_key options))))
        (λ global.
          Keeps-bind P (look_up objects (key_of (sidecars_object documents namespace global)))
            (write_sidecars objects (sidecars_object documents namespace global))
            (Keeps-attempt P (objects.get (key_of (sidecars_object documents namespace global))))
            (λ r.
              write_sidecars-Keeps (sidecars_object documents namespace global) r may_create
                may_update))

  install_decoded-Keeps :
      (d : Decoded)
      → ((o : Object)
          → d ≡ client_object o
          → C (key_in namespace o o.body) × U (key_in namespace o o.body))
      → Keeps P (install_decoded objects options documents namespace d)
  unfolding install_decoded create_new_client_object
  install_decoded-Keeps undecodable may = Keeps-fail P not_decoded
  install_decoded-Keeps no_object may = Keeps-fail P not_an_object
  install_decoded-Keeps (client_object o) may =
      item-Keeps objects options namespace P C U key_of-get keeps_create keeps_update keeps_patch o
        o.body (may o refl).0 (may o refl).1

  install_items-Keeps :
      (items : List Text)
      → ((item : Text) (o : Object)
          → Memᴰ item items
          → documents.decode item ≡ client_object o
          → C (key_in namespace o o.body) × U (key_in namespace o o.body))
      → Keeps P (install_items objects options documents namespace items)
  unfolding install_items
  install_items-Keeps [] may = Keeps-pure P tt
  install_items-Keeps (item ∷ rest) may =
      Keeps-bind P (install_decoded objects options documents namespace (documents.decode item))
        (λ _. install_items objects options documents namespace rest)
        (install_decoded-Keeps (documents.decode item) (λ o read. may item o (Memᴰ.head refl) read))
        (λ _. install_items-Keeps rest (λ item' o there read. may item' o (Memᴰ.tail there) read))

  pub install-Keeps :
      C (key_of (namespace_object namespace)) × U (key_of (namespace_object namespace))
      → C (key_of (pod_env_config_map namespace)) × C (key_of (pod_env_secret namespace))
      → C (sidecars_key namespace) × U (sidecars_key namespace)
      → InDocuments documents (λ o. C (key_in namespace o o.body) × U (key_in namespace o o.body))
      → Keeps P (install_or_update_operator objects options documents namespace)
  unfolding install_or_update_operator create_pod_environment_config_map
      create_or_get_pod_environment_secret
  install-Keeps (new, changed) (config, secret) (sidecars, sidecars') may =
      let whole = install_items objects options documents namespace documents.items in
      let with_sidecars =
        create_or_update_sidecars_config objects options documents namespace >>= (λ _. whole) in
      let with_secret =
        create_or_get_pod_environment_secret objects namespace >>= (λ _. with_sidecars) in
      let with_config =
        create_pod_environment_config_map objects namespace >>= (λ _. with_secret) in
      Keeps-bind P (create_or_update_namespace objects namespace) (λ _. with_config)
        (namespace-Keeps objects options namespace P C U key_of-get keeps_create keeps_update
          keeps_patch new changed)
        (λ _.
          Keeps-bind P (create_pod_environment_config_map objects namespace) (λ _. with_secret)
            (blank-Keeps objects options namespace P C U key_of-get keeps_create keeps_update
              keeps_patch (pod_env_config_map namespace) config)
            (λ _.
              Keeps-bind P (create_or_get_pod_environment_secret objects namespace)
                (λ _. with_sidecars)
                (blank-Keeps objects options namespace P C U key_of-get keeps_create keeps_update
                  keeps_patch (pod_env_secret namespace) secret)
                (λ _.
                  Keeps-bind P
                    (create_or_update_sidecars_config objects options documents namespace)
                    (λ _. whole) (sidecars-Keeps sidecars sidecars')
                    (λ _. install_items-Keeps documents.items may))))
