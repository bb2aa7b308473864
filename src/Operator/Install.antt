-- ===== src/Operator/Install.antt =====
-- `InstallOrUpdateOperator` and what it calls.
pub mod Binding
pub mod Frame
pub mod Namespaces
pub mod Writes
use postgreslet.Prelude.{
  ℕ, Bool, true, false, Option, none, some, List, [], ◌∷◌, ◌++◌, ◌=?◌, text_eq, if◌then◌else◌,
}
use postgreslet.Text.{Text, codes}
use postgreslet.Dict.{Dict}
use postgreslet.Cluster.{Result, ok, err, Action, pure, fail, ◌>>=◌, ◌>>◌, or_else_fail}
use postgreslet.Cluster.Actions.{attempt, reading}
use postgreslet.Kube.{
  Metadata, Subject, Body, Object, Key, key_of, blank, Objects, service_account, namespace_body,
  config_map, secret, service, cluster_role, cluster_role_binding, deployment, postgresql,
  stateful_set, network_policy, cluster_network_policy, other,
}
use postgreslet.Operator.Objects.{
  OperatorOptions, pod_env_cm_name, pod_env_secret_name, local_sidecars_cm_name, edit_config_map,
  clean_metadata, move_subjects, has_account, psp_policy_rule, patch_images, sidecars_data,
  config_data, subjects_of,
}

pub data OperatorError (E : Type 0) : Type 0 where
  cluster_error : E → OperatorError E
  not_decoded not_an_object unknown_object : OperatorError E
  -- Panics.
  index_out_of_range slice_out_of_range : OperatorError E

-- What a document is decoded to: an object of the client, or something else.
pub data Decoded : Type 0 where
  undecodable no_object : Decoded
  client_object : Object → Decoded

pub record Documents : Type 0 where
  pub items : List Text
  pub decode : Text → Decoded
  pub decode_base64 : Text → Option Text

abbrev pub namespace_labels : Dict Text Text
namespace_labels =
    (codes "postgres.database.fits.cloud/managed-by", codes "postgreslet")
    ∷ (codes "pod-security.kubernetes.io/enforce", codes "privileged")
    ∷ []

abbrev pub namespace_object : Text → Object
namespace_object namespace = blank [] namespace namespace_body

abbrev pub pod_env_config_map : Text → Object
pod_env_config_map namespace = blank namespace pod_env_cm_name (config_map [])

abbrev pub pod_env_secret : Text → Object
pod_env_secret namespace = blank namespace pod_env_secret_name (secret [])

abbrev pub with_labels : Dict Text Text → Object → Object
with_labels labels o = record o { meta = record o.meta { labels = labels } }

abbrev pub with_body : Body → Object → Object
with_body body o = record o { body = body }

-- The config map in the namespace of the postgreslet.
abbrev pub global_sidecars_key : OperatorOptions → Key
global_sidecars_key options = record {
  kind = codes "ConfigMap";
  namespace = options.postgreslet_namespace;
  name = options.sidecars_config_map_name;
}

abbrev pub call : {W E A : Type 0} → Action W E A → Action W (OperatorError E) A
call m = or_else_fail m cluster_error

module _ {W E : Type 0} (objects : Objects W E) where
  -- `Get`, with its error as a value.
  abbrev pub look_up : Key → Action W (OperatorError E) (Result E Object)
  look_up k = attempt (reading (objects.get k))

  write_namespace : Text → Result E Object → Action W (OperatorError E) (Unit {0})
  write_namespace namespace (err e) =
      if objects.is_not_found e
      then call (objects.create (with_labels namespace_labels (namespace_object namespace)))
      else fail (cluster_error e)
  write_namespace namespace (ok found) = call (objects.update (with_labels namespace_labels found))

  unfoldable pub create_or_update_namespace : Text → Action W (OperatorError E) (Unit {0})
  unfolding write_namespace
  create_or_update_namespace namespace =
      look_up (key_of (namespace_object namespace)) >>= write_namespace namespace

  -- An object that is there is left alone; after any error the blank one is created.
  pub unless_found : Object → Result E Object → Action W (OperatorError E) Object
  unless_found new (ok found) = pure found
  unless_found new (err _) = do call (objects.create new); pure new

  unfoldable pub create_pod_environment_config_map : Text → Action W (OperatorError E) Object
  unfolding unless_found
  create_pod_environment_config_map namespace =
      look_up (key_of (pod_env_config_map namespace))
      >>= unless_found (pod_env_config_map namespace)

  unfoldable pub create_or_get_pod_environment_secret : Text → Action W (OperatorError E) Object
  unfolding unless_found
  create_or_get_pod_environment_secret namespace =
      look_up (key_of (pod_env_secret namespace)) >>= unless_found (pod_env_secret namespace)

  -- Updated where it is there, and created after any error.
  write_sidecars : Object → Result E Object → Action W (OperatorError E) (Unit {0})
  write_sidecars sidecars (ok _) = call (objects.update sidecars)
  write_sidecars sidecars (err _) = call (objects.create sidecars)

  -- Created where it is not there, updated where it is.
  upsert : Object → Result E Object → Action W (OperatorError E) (Unit {0})
  upsert o (ok _) = call (objects.update o)
  upsert o (err e) =
      if objects.is_not_found e then call (objects.create o) else fail (cluster_error e)

  -- The service keeps the ip of the one that is there.
  cluster_ip : Text → Result E Object → Text
  cluster_ip ip (err _) = ip
  cluster_ip ip (ok got) = elim got.body [ service got_ip ↦ got_ip | _ ↦ ip ]

  -- The first subject of the document is added, unless the account of the namespace is there.
  add_subject : Text → Object → List Subject → List Subject → Action W (OperatorError E) (Unit {0})
  add_subject namespace got subjects [] =
      if has_account namespace subjects then pure tt else fail index_out_of_range
  add_subject namespace got subjects (first ∷ _) =
      if has_account namespace subjects
      then pure tt
      else call (objects.patch got (with_body (cluster_role_binding (subjects ++ first ∷ [])) got))

  install_binding :
      Text → Object → List Subject → Result E Object → Action W (OperatorError E) (Unit {0})
  install_binding namespace o subjects (err e) =
      if objects.is_not_found e then call (objects.create o) else fail (cluster_error e)
  install_binding namespace o subjects (ok got) =
      add_subject namespace got (subjects_of got) subjects

  module _ (options : OperatorOptions) where
    pub create_by_kind : Text → Object → Body → Action W (OperatorError E) (Unit {0})
    create_by_kind namespace o service_account =
        let new = with_body service_account o in look_up (key_of new) >>= upsert new
    create_by_kind namespace o (cluster_role rules) =
        let new = with_body (cluster_role (rules ++ psp_policy_rule options ∷ [])) o in
        look_up (key_of new) >>= upsert new
    create_by_kind namespace o (cluster_role_binding subjects) =
        let moved = move_subjects namespace subjects in
        let new = with_body (cluster_role_binding moved) o in
        look_up (key_of new) >>= install_binding namespace new moved
    create_by_kind namespace o (config_map d) =
        let new = with_body (config_map (edit_config_map options namespace d)) o in
        look_up (key_of new) >>= upsert new
    create_by_kind namespace o (service ip) =
        look_up (key_of (with_body (service ip) o))
        >>= (λ got. upsert (with_body (service (cluster_ip ip got)) o) got)
    create_by_kind namespace o (deployment images) =
        let new = with_body (deployment (patch_images options images)) o in
        look_up (key_of new) >>= upsert new
    create_by_kind namespace o _ = fail unknown_object

    unfoldable pub create_new_client_object : Text → Object → Action W (OperatorError E) (Unit {0})
    unfolding create_by_kind upsert install_binding add_subject cluster_ip
    create_new_client_object namespace o =
        create_by_kind namespace (clean_metadata namespace o) o.body

    module _ (documents : Documents) where
      unfoldable pub create_or_update_sidecars_config : Text → Action W (OperatorError E) (Unit {0})
      unfolding write_sidecars
      create_or_update_sidecars_config namespace = do
        global ← call (reading (objects.get (global_sidecars_key options)))
        let sidecars =
            blank namespace local_sidecars_cm_name
              (config_map (sidecars_data documents.decode_base64 (config_data global)))
        found ← look_up (key_of sidecars)
        write_sidecars sidecars found

      install_decoded : Text → Decoded → Action W (OperatorError E) (Unit {0})
      install_decoded namespace undecodable = fail not_decoded
      install_decoded namespace no_object = fail not_an_object
      install_decoded namespace (client_object o) = create_new_client_object namespace o

      install_items : Text → List Text → Action W (OperatorError E) (Unit {0})
      install_items namespace [] = pure tt
      install_items namespace (item ∷ rest) = do
        install_decoded namespace (documents.decode item)
        install_items namespace rest

      unfoldable pub install_or_update_operator : Text → Action W (OperatorError E) (Unit {0})
      unfolding install_items install_decoded
      install_or_update_operator namespace = do
        create_or_update_namespace namespace
        create_pod_environment_config_map namespace
        create_or_get_pod_environment_secret namespace
        create_or_update_sidecars_config namespace
        install_items namespace documents.items

      update_each : List Object → Action W (OperatorError E) (Unit {0})
      update_each [] = pure tt
      update_each (z ∷ rest) = do install_or_update_operator z.meta.namespace; update_each rest

      -- `client.IgnoreNotFound` of the error of the listing.
      after_listing : Result E (List Object) → Action W (OperatorError E) (Unit {0})
      after_listing (err e) = if objects.is_not_found e then pure tt else fail (cluster_error e)
      after_listing (ok found) = update_each found

      unfoldable pub update_all_managed_operators : Action W (OperatorError E) (Unit {0})
      unfolding after_listing update_each
      update_all_managed_operators =
          attempt (
            reading (
              objects.list_all (codes "postgresql") none
                ((codes "postgres.database.fits.cloud/partition-id", options.partition_id) ∷ [])))
          >>= after_listing
