-- ===== src/Operator/Objects.antt =====
-- What the operator manager makes of the documents: the metadata, and the changes by kind. A config map
-- of the documents is taken to have data, as Go panics on one without.
use postgreslet.Prelude.{
  Bool, true, false, Option, none, some, List, [], ◌∷◌, ◌=?◌, ◌&&◌, text_eq, if◌then◌else◌,
}
use postgreslet.Text.{Text, codes}
use postgreslet.Dict.{Dict, insert, lookup}
use postgreslet.Kube.{
  PolicyRule, Subject, Object, config_map, cluster_role_binding, cluster_role_binding,
}

-- The options of the manager that it uses.
pub record OperatorOptions : Type 0 where
  pub psp_name : Text
  pub operator_image : Text
  pub docker_image : Text
  pub etcd_host : Text
  pub crd_registration : Bool
  pub major_version_upgrade_mode : Text
  pub postgreslet_namespace : Text
  pub sidecars_config_map_name : Text
  pub pod_antiaffinity : Bool
  pub partition_id : Text
  pub patroni_failsafe_mode : Bool
  pub pod_antiaffinity_preferred_during_scheduling : Bool
  pub pod_antiaffinity_topology_key : Text
  pub enable_readiness_probe : Bool
  pub kubernetes_use_config_maps : Bool

abbrev pub pod_env_cm_name : Text
pod_env_cm_name = codes "postgres-pod-config"

abbrev pub pod_env_secret_name : Text
pod_env_secret_name = codes "postgres-pod-secret"

abbrev pub service_account_name : Text
service_account_name = codes "postgres-pod"

abbrev pub local_sidecars_cm_name : Text
local_sidecars_cm_name = codes "postgres-sidecars-configmap"

abbrev pub fluent_bit_conf_key : Text
fluent_bit_conf_key = codes "fluent-bit.conf"

abbrev pub queries_key : Text
queries_key = codes "queries.yaml"

-- `strconv.FormatBool`
abbrev pub format_bool : Bool → Text
format_bool true = codes "true"
format_bool false = codes "false"

-- `if v != "" { data[k] = v }`
abbrev pub insert_given : Text → Text → Dict Text Text → Dict Text Text
insert_given k v d = if v =? [] then d else insert k v d

unfoldable pub edit_config_map : OperatorOptions → Text → Dict Text Text → Dict Text Text
edit_config_map options namespace d0 =
    let d1 = insert (codes "watched_namespace") namespace d0 in
    let d2 = insert (codes "pod_service_account_name") service_account_name d1 in
    let d3 = insert (codes "pod_environment_configmap") pod_env_cm_name d2 in
    let d4 = insert (codes "pod_environment_secret") pod_env_secret_name d3 in
    let d5 =
      insert (codes "inherited_labels")
        (codes
          "postgres.database.fits.cloud/tenant,postgres.database.fits.cloud/project-id,postgres.database.fits.cloud/uid,postgres.database.fits.cloud/name,postgres.database.fits.cloud/partition-id,postgres.database.fits.cloud/version,postgres.database.fits.cloud/description,app.kubernetes.io/version")
        d4 in
    let d6 = insert_given (codes "docker_image") options.docker_image d5 in
    let d7 = insert_given (codes "etcd_host") options.etcd_host d6 in
    let d8 = insert (codes "enable_crd_registration") (format_bool options.crd_registration) d7 in
    let d9 = insert (codes "major_version_upgrade_mode") options.major_version_upgrade_mode d8 in
    let d10 = insert (codes "super_username") (codes "postgres") d9 in
    let d11 = insert (codes "replication_username") (codes "standby") d10 in
    let d12 = insert (codes "enable_pod_antiaffinity") (format_bool options.pod_antiaffinity) d11 in
    let d13 =
      insert (codes "pod_antiaffinity_preferred_during_scheduling")
        (format_bool options.pod_antiaffinity_preferred_during_scheduling) d12 in
    let d14 =
      insert_given (codes "pod_antiaffinity_topology_key") options.pod_antiaffinity_topology_key
        d13 in
    let d15 =
      insert (codes "secret_name_template") (codes "{username}.{cluster}.credentials") d14 in
    let d16 = insert (codes "master_dns_name_format") (codes "{cluster}.{team}.{hostedzone}") d15 in
    let d17 =
      insert (codes "replica_dns_name_format") (codes "{cluster}-repl.{team}.{hostedzone}") d16 in
    let d18 = insert (codes "spilo_fsgroup") (codes "103") d17 in
    let d19 =
      insert (codes "enable_patroni_failsafe_mode") (format_bool options.patroni_failsafe_mode)
        d18 in
    let d20 = insert (codes "enable_teams_api") (codes "false") d19 in
    let d21 = insert (codes "postgres_superuser_teams") [] d20 in
    let d22 = insert (codes "teams_api_url") [] d21 in
    let d23 =
      if options.enable_readiness_probe
      then insert (codes "pod_management_policy") (codes "parallel")
          (insert (codes "enable_readiness_probe") (codes "true") d22)
      else d22 in
    insert (codes "kubernetes_use_configmaps") (format_bool options.kubernetes_use_config_maps) d23

-- `ensureCleanMetadata`, and the namespace of the database in place of the one of the document.
unfoldable pub clean_metadata : Text → Object → Object
clean_metadata namespace o = record o {
  meta = record o.meta { annotations = []; uid = []; namespace = namespace };
}

abbrev pub is_service_account : Subject → Bool
is_service_account s = s.kind =? codes "ServiceAccount"

-- The subject is the service account of this namespace.
abbrev pub is_account_of : Text → Subject → Bool
is_account_of namespace s = is_service_account s && (s.namespace =? namespace)

-- Every service account among the subjects gets the namespace.
unfoldable pub move_subjects : Text → List Subject → List Subject
move_subjects namespace [] = []
move_subjects namespace (s ∷ rest) =
    (if is_service_account s then record s { namespace = namespace } else s)
    ∷ move_subjects namespace rest

unfoldable pub has_account : Text → List Subject → Bool
has_account namespace [] = false
has_account namespace (s ∷ rest) =
    let later = has_account namespace rest in if is_account_of namespace s then true else later

unfoldable pub psp_policy_rule : OperatorOptions → PolicyRule
psp_policy_rule options = record {
  api_groups = codes "extensions" ∷ [];
  verbs = codes "use" ∷ [];
  resources = codes "podsecuritypolicies" ∷ [];
  resource_names = options.psp_name ∷ [];
}

-- A deployment with one container gets the configured image, if there is one.
unfoldable pub patch_images : OperatorOptions → List Text → List Text
patch_images options (image ∷ []) =
    (if options.operator_image =? [] then image else options.operator_image) ∷ []
patch_images options images = images

-- `base64.StdEncoding.DecodeString` belongs to a library: `decode_base64`.
module _ (decode_base64 : Text → Option Text) where
  -- `if err == nil { data[k] = decoded }`; a missing key is the empty text.
  insert_decoded : Text → Dict Text Text → Dict Text Text → Dict Text Text
  insert_decoded k global d =
      elim (decode_base64 (elim (lookup k global) [ none ↦ [] | some v ↦ v ])) [
        | none ↦ d
        | some decoded ↦ insert k decoded d
      ]

  unfoldable pub sidecars_data : Dict Text Text → Dict Text Text
  unfolding insert_decoded
  sidecars_data global =
      insert_decoded queries_key global (insert_decoded fluent_bit_conf_key global [])

abbrev pub config_data : Object → Dict Text Text
config_data o = elim o.body [ config_map d ↦ d | _ ↦ [] ]

abbrev pub subjects_of : Object → List Subject
subjects_of got = elim got.body [ cluster_role_binding there ↦ there | _ ↦ [] ]
