-- ===== src/Operator/Uninstall.antt =====
-- `IsOperatorDeletable`, `IsOperatorInstalled` and `UninstallOperator`.
pub mod Completeness
pub mod Deletions
pub mod Writes
use postgreslet.Prelude.{
  ℕ, suc, zero, ◌+◌, ◌-◌, ltb, Bool, true, false, Option, none, some, List, [], ◌∷◌, ◌++◌, ◌=?◌,
  text_eq, take, length, not, if◌then◌else◌,
}
use postgreslet.Text.{Text, codes}
use postgreslet.Cluster.{Result, ok, err, Action, pure, fail, ◌>>=◌, ◌>>◌, or_else_fail}
use postgreslet.Cluster.Actions.{attempt, reading}
use postgreslet.Kube.{
  Metadata, Subject, Body, Object, Key, key_of, blank, Objects, service_account, namespace_body,
  config_map, secret, service, cluster_role, cluster_role_binding, deployment, postgresql,
  stateful_set, network_policy, cluster_network_policy, other,
}
use postgreslet.Operator.Objects.{is_account_of, subjects_of}
use postgreslet.Operator.Install.{
  OperatorError, cluster_error, not_decoded, not_an_object, slice_out_of_range, Decoded,
  undecodable, no_object, client_object, Documents, call, look_up, pod_env_config_map,
  namespace_object, with_body,
}

abbrev pub drop {ℓ} : {A : Type ℓ} → ℕ → List A → List A
drop zero xs = xs
drop (suc n) [] = []
drop (suc n) (_ ∷ xs) = drop n xs

abbrev pub reverse_onto {ℓ} : {A : Type ℓ} → List A → List A → List A
reverse_onto [] acc = acc
reverse_onto (x ∷ xs) acc = reverse_onto xs (x ∷ acc)

-- `append(v.Subjects[:i], v.Subjects[i+1:]...)`, on the array that the slice shares with the range
-- of the loop: the later subjects move to the front, and the last one of the slice stays behind.
unfoldable pub remove_at : ℕ → ℕ → List Subject → List Subject
remove_at i len array = take i array ++ (drop (suc i) (take len array) ++ drop (len - 1) array)

-- The element of the array at an index of the range.
element : ℕ → List Subject → Option Subject
element i [] = none
element zero (s ∷ _) = some s
element (suc i) (_ ∷ rest) = element i rest

module _ {W E : Type 0} (objects : Objects W E) where
  deletable_without_sets : Result E Object → Bool
  deletable_without_sets (ok _) = false
  deletable_without_sets (err e) = objects.is_not_found e

  -- A list that is not found counts as empty; a service that cannot be read counts as running.
  with_sets : Key → Result E (List Object) → Action W (OperatorError E) Bool
  with_sets k (ok (_ ∷ _)) w = (ok false, w)
  with_sets k (ok []) w = (ok (deletable_without_sets (objects.get k w)), w)
  with_sets k (err e) w =
      if objects.is_not_found e
      then (ok (deletable_without_sets (objects.get k w)), w)
      else (err (cluster_error e), w)

  unfoldable pub is_operator_deletable : Text → Text → Action W (OperatorError E) Bool
  unfolding with_sets deletable_without_sets
  is_operator_deletable namespace name =
      attempt (
        reading (
          objects.list_all (codes "StatefulSet") (some namespace)
            ((codes "application", codes "spilo") ∷ [])))
      >>= with_sets (key_of (blank namespace name (service [])))

  operator_pods : Result E (List Object) → Action W (OperatorError E) Bool
  operator_pods (err e) = if objects.is_not_found e then pure false else fail (cluster_error e)
  operator_pods (ok []) = pure false
  operator_pods (ok (_ ∷ _)) = pure true

  unfoldable pub is_operator_installed : Text → Action W (OperatorError E) Bool
  unfolding operator_pods
  is_operator_installed namespace =
      attempt (
        reading (
          objects.list_all (codes "Pod") (some namespace)
            ((codes "name", codes "postgres-operator") ∷ [])))
      >>= operator_pods

  -- The body of the loop and the rest of it, for the element that was read: `rounds` counts those
  -- that are left, `len` is the length of the slice.
  remove_element :
      Text
      → Object
      → (ℕ → List Subject → Action W (OperatorError E) (Unit {0}))
      → ℕ
      → ℕ
      → List Subject
      → Option Subject
      → Action W (OperatorError E) (Unit {0})
  remove_element namespace v next i len array none = pure tt
  remove_element namespace v next i len array (some s) =
      if not (is_account_of namespace s)
      then next len array
      else if not (ltb i len)
      then fail slice_out_of_range
      else (let array' = remove_at i len array in
          call (
            objects.patch (with_body (cluster_role_binding (take len array)) v)
              (with_body (cluster_role_binding (take (len - 1) array')) v))
          >> next (len - 1) array')

  unfoldable pub remove_subjects :
      Text → Object → ℕ → ℕ → ℕ → List Subject → Action W (OperatorError E) (Unit {0})
  unfolding remove_element remove_at element
  remove_subjects namespace v zero i len array = pure tt
  remove_subjects namespace v (suc rounds) i len array =
      remove_element namespace v (remove_subjects namespace v rounds (suc i)) i len array
        (element i array)

  -- Whether the loop goes on: where an object is not found, the function returns without an error.
  deleted : Result E (Unit {0}) → Action W (OperatorError E) Bool
  deleted (ok _) = pure true
  deleted (err e) = if objects.is_not_found e then pure false else fail (cluster_error e)

  pub uninstall_by_kind : Text → Object → Body → Action W (OperatorError E) Bool
  uninstall_by_kind namespace v (cluster_role _) = pure true
  uninstall_by_kind namespace v (cluster_role_binding _) = do
    got ← call (reading (objects.get (key_of v)))
    remove_subjects namespace got (length (subjects_of got)) 0 (length (subjects_of got))
        (subjects_of got)
    pure true
  uninstall_by_kind namespace v _ =
      attempt
        (objects.delete (key_of (record v { meta = record v.meta { namespace = namespace } })))
      >>= deleted

  unfoldable pub uninstall_object : Text → Decoded → Action W (OperatorError E) Bool
  unfolding uninstall_by_kind deleted
  uninstall_object namespace undecodable = fail not_decoded
  uninstall_object namespace no_object = fail not_an_object
  uninstall_object namespace (client_object v) = uninstall_by_kind namespace v v.body

  unless_not_found : Result E (Unit {0}) → Action W (OperatorError E) (Unit {0})
  unless_not_found (ok _) = pure tt
  unless_not_found (err e) = if objects.is_not_found e then pure tt else fail (cluster_error e)

  pub delete_namespace : Text → Action W (OperatorError E) (Unit {0})
  delete_namespace namespace = do
    done ← attempt (objects.delete (key_of (pod_env_config_map namespace)))
    unless_not_found done
    call (objects.delete (key_of (namespace_object namespace)))

  pub uninstall_items : Documents → Text → List Text → Action W (OperatorError E) (Unit {0})
  uninstall_items documents namespace [] = delete_namespace namespace
  uninstall_items documents namespace (item ∷ rest) =
      uninstall_object namespace (documents.decode item)
      >>= (λ more. if more then uninstall_items documents namespace rest else pure tt)

  -- From the last document to the first.
  unfoldable pub uninstall_operator : Documents → Text → Action W (OperatorError E) (Unit {0})
  unfolding uninstall_items delete_namespace unless_not_found
  uninstall_operator documents namespace =
      uninstall_items documents namespace (reverse_onto documents.items [])
