-- ===== src/Tests/Operator.antt =====
-- The operator manager and the deletion of a database over a cluster in memory.
use mathlib.Core.List.{Memᴰ}
use postgreslet.Prelude.{
  ◌≡◌, ◌≢◌, refl, sym, ap, true, false, none, List, [], ◌∷◌, arith, text_eq, nat_eq, ◌=?◌,
  if◌then◌else◌, ◌⊎◌,
}
use postgreslet.Text.{Text, codes}
use postgreslet.Dict.{insert, lookup}
use postgreslet.Cluster.{Result, ok, err}
use postgreslet.Cluster.Memory.{MemoryError}
use postgreslet.Kube.{
  Subject, Object, Key, key_of, blank, config_map, cluster_role_binding, deployment,
}
use postgreslet.Kube.Memory.{memory, memory-IsObjects, Gone}
use postgreslet.Operator.Objects.{
  OperatorOptions, edit_config_map, clean_metadata, move_subjects, has_account, psp_policy_rule,
  patch_images, sidecars_data,
}
use postgreslet.Operator.Install.{
  slice_out_of_range, undecodable, client_object, Documents, namespace_object, pod_env_config_map,
  create_or_update_namespace, create_pod_environment_config_map,
  create_or_get_pod_environment_secret, create_new_client_object, create_or_update_sidecars_config,
  install_or_update_operator,
}
use postgreslet.Operator.Install.Binding.{IsBound, shared_key, create_new_client_object-IsBound}
use postgreslet.Operator.Install.Frame.{InDocuments}
use postgreslet.Operator.Install.Namespaces.{
  install_or_update_operator-frame, install_or_update_operator-there,
}
use postgreslet.Operator.Install.Writes.{key_in}
use postgreslet.Operator.Uninstall.{uninstall_operator, uninstall_object, remove_subjects}
use postgreslet.Operator.Uninstall.Completeness.{
  Stopped, uninstall_operator_reaches, uninstall_operator-frame,
}
use postgreslet.Operator.Uninstall.Deletions.{is_shared}

abbrev pub operator_options : OperatorOptions
operator_options = record {
  psp_name = codes "psp";
  operator_image = codes "op:2";
  docker_image = [];
  etcd_host = codes "etcd:2379";
  crd_registration = true;
  major_version_upgrade_mode = codes "manual";
  postgreslet_namespace = codes "system";
  sidecars_config_map_name = codes "sidecars";
  pod_antiaffinity = false;
  partition_id = codes "fra";
  patroni_failsafe_mode = true;
  pod_antiaffinity_preferred_during_scheduling = false;
  pod_antiaffinity_topology_key = [];
  enable_readiness_probe = false;
  kubernetes_use_config_maps = false;
}

abbrev account : Text → Subject
account namespace = record {
  kind = codes "ServiceAccount";
  namespace = namespace;
  name = codes "op";
}

abbrev binding : List Subject → Object
binding subjects = blank [] (codes "op") (cluster_role_binding subjects)

abbrev pub documents : Documents
documents = record {
  items = codes "deployment" ∷ codes "binding" ∷ [];
  decode = λ item.
      if item =? codes "deployment"
      then client_object (blank [] (codes "op") (deployment (codes "op:1" ∷ [])))
      else if item =? codes "binding"
      then client_object (binding (account [] ∷ []))
      else undecodable;
  decode_base64 = λ _. none;
}

abbrev settings : Text → Object
settings namespace = blank namespace (codes "settings") (config_map ((codes "a", codes "b") ∷ []))

abbrev world : List Object
world =
    blank (codes "system") (codes "sidecars") (config_map [])
    ∷ settings (codes "elsewhere")
    ∷ settings (codes "db")
    ∷ binding (account (codes "elsewhere") ∷ [])
    ∷ []

abbrev installed : List Object
installed = (install_or_update_operator memory operator_options documents (codes "db") world).1

install_succeeds :
    install_or_update_operator memory operator_options documents (codes "db") world
    ≡ (ok tt, installed)
unfolding install_or_update_operator create_or_update_namespace create_pod_environment_config_map
    create_or_get_pod_environment_secret create_or_update_sidecars_config create_new_client_object
    key_of edit_config_map clean_metadata move_subjects has_account psp_policy_rule patch_images
    sidecars_data memory insert lookup text_eq
install_succeeds = refl

abbrev settings_key : Text → Key
settings_key namespace = record {
  kind = codes "ConfigMap";
  namespace = namespace;
  name = codes "settings";
}

install_or_update_operator-frame_example :
    memory.get (settings_key (codes "elsewhere")) installed
    ≡ memory.get (settings_key (codes "elsewhere")) world
install_or_update_operator-frame_example =
    install_or_update_operator-frame memory operator_options documents memory-IsObjects (codes "db")
      (settings_key (codes "elsewhere")) world installed tt (λ e. ground arith) (λ e. ground arith)
      install_succeeds

object_of : {a b : Object} → client_object a ≡ client_object b → a ≡ b
object_of e = cc

other_kind : codes "Deployment" ≢ codes "ConfigMap"
other_kind e = ground arith

other_kind_of_binding : codes "ClusterRoleBinding" ≢ codes "ConfigMap"
other_kind_of_binding e = ground arith

not_a_document :
    InDocuments documents (λ o. key_in (codes "db") o o.body ≢ settings_key (codes "db"))
unfolding text_eq
not_a_document item o (Memᴰ.head e) d same =
    other_kind (ap (λ (k : Key). k.kind) (rw (sym (object_of (rw e at d))) at same))
not_a_document item o (Memᴰ.tail (Memᴰ.head e)) d same =
    other_kind_of_binding (ap (λ (k : Key). k.kind) (rw (sym (object_of (rw e at d))) at same))
not_a_document item o (Memᴰ.tail (Memᴰ.tail there)) d same = elim there [ ]

install_or_update_operator-there_example :
    memory.get (settings_key (codes "db")) installed ≡ ok (settings (codes "db"))
unfolding key_of text_eq memory
install_or_update_operator-there_example =
    install_or_update_operator-there memory operator_options documents memory-IsObjects (codes "db")
      (settings_key (codes "db")) (settings (codes "db")) world installed tt (λ e. ground arith)
      (λ e. ground arith) not_a_document refl install_succeeds

abbrev uninstalled : List Object
uninstalled = (uninstall_operator memory documents (codes "db") installed).1

uninstall_succeeds :
    uninstall_operator memory documents (codes "db") installed ≡ (ok tt, uninstalled)
unfolding uninstall_operator uninstall_object remove_subjects install_or_update_operator
    create_or_update_namespace create_pod_environment_config_map
    create_or_get_pod_environment_secret create_or_update_sidecars_config create_new_client_object
    key_of edit_config_map clean_metadata move_subjects has_account psp_policy_rule patch_images
    sidecars_data memory insert lookup text_eq nat_eq
uninstall_succeeds = refl

-- Only the subject of the namespace is gone from the binding.
binding_after_uninstall :
    memory.get
      (record { kind = codes "ClusterRoleBinding"; namespace = []; name = codes "op" })
      uninstalled
    ≡ ok (binding (account (codes "elsewhere") ∷ []))
unfolding uninstall_operator uninstall_object remove_subjects install_or_update_operator
    create_or_update_namespace create_pod_environment_config_map
    create_or_get_pod_environment_secret create_or_update_sidecars_config create_new_client_object
    key_of edit_config_map clean_metadata move_subjects has_account psp_policy_rule patch_images
    sidecars_data memory insert lookup text_eq nat_eq
binding_after_uninstall = refl

-- A run on a cluster where the deployment is missing stops there; the namespace stays.
stopped_early :
    uninstall_operator memory documents
      (codes "db")
      (namespace_object (codes "db") ∷ binding [] ∷ [])
    ≡ (ok tt, namespace_object (codes "db") ∷ binding [] ∷ [])
unfolding uninstall_operator uninstall_object remove_subjects key_of memory text_eq nat_eq
stopped_early = refl

uninstall_operator_reaches_example :
    (Gone (key_of (namespace_object (codes "db"))) uninstalled
      × Gone (key_of (pod_env_config_map (codes "db"))) uninstalled
      × InDocuments documents
          (λ o. is_shared o.body ≡ false → Gone (key_in (codes "db") o o.body) uninstalled))
    ⊎ Stopped memory documents (codes "db") documents.items uninstalled
uninstall_operator_reaches_example =
    uninstall_operator_reaches memory memory-IsObjects documents (codes "db") installed uninstalled
      tt uninstall_succeeds

uninstall_operator-frame_example :
    memory.get (settings_key (codes "elsewhere")) uninstalled
    ≡ memory.get (settings_key (codes "elsewhere")) installed
uninstall_operator-frame_example =
    uninstall_operator-frame memory memory-IsObjects documents (codes "db")
      (settings_key (codes "elsewhere")) installed uninstalled tt (λ e. ground arith)
      (λ e. ground arith) uninstall_succeeds

-- Two subjects of the namespace: the loop reads past the slice that it has shortened.
two_subjects_panic :
    uninstall_operator memory documents (codes "db") (
      blank (codes "db") (codes "op") (deployment [])
      ∷ binding (account (codes "db") ∷ account (codes "db") ∷ [])
      ∷ [])
    ≡ (
      err slice_out_of_range,
      blank (codes "db") (codes "op") (deployment []) ∷ binding (account (codes "db") ∷ []) ∷ [],
    )
unfolding uninstall_operator uninstall_object remove_subjects key_of memory text_eq nat_eq
two_subjects_panic = refl

abbrev bound : List Object
bound =
    (create_new_client_object memory operator_options (codes "db") (binding (account [] ∷ []))
      world).1

bind_succeeds :
    create_new_client_object memory operator_options (codes "db") (binding (account [] ∷ [])) world
    ≡ (ok tt, bound)
unfolding create_new_client_object key_of clean_metadata move_subjects has_account memory text_eq
bind_succeeds = refl

found_same : {a b : Object} → ◌≡◌ {A = Result MemoryError Object} (ok a) (ok b) → a ≡ b
found_same e = cc

create_new_client_object-IsBound_example :
    IsBound memory memory-IsObjects (codes "db") (shared_key (codes "op")) world bound
unfolding memory key_of text_eq
create_new_client_object-IsBound_example =
    create_new_client_object-IsBound memory memory-IsObjects (codes "db") operator_options
      (binding (account [] ∷ [])) (account []) [] world bound tt refl refl
      (λ got there.
        (account (codes "elsewhere") ∷ [], ap (λ (o : Object). o.body) (found_same (sym there))))
      bind_succeeds
