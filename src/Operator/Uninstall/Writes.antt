-- ===== src/Operator/Uninstall/Writes.antt =====
-- What removing the operator keeps of the cluster, when every deletion and every patch keeps it that
-- is of an object in the namespace or in none.
use postgreslet.Prelude.{
  ◌≡◌, ◌≢◌, refl, true, false, Bool-cases, Option, none, some, List, [], ◌∷◌, inl, inr, arith, ℕ,
  zero, suc, ◌-◌, ltb, not, take, if◌then◌else◌, length,
}
use postgreslet.Text.{Text, codes}
use postgreslet.Cluster.{Result, ok, err, Action, pure, fail, ◌>>=◌, ◌>>◌}
use postgreslet.Cluster.Actions.{
  world, attempt, reading, Keeps, Keeps-pure, Keeps-fail, Keeps-bind, Keeps-if, Keeps-or_else_fail,
  Keeps-reading, Keeps-attempt,
}
use postgreslet.Kube.{
  Subject, Body, Object, Key, key_of, blank, Objects, service, cluster_role, cluster_role_binding,
}
use postgreslet.Operator.Objects.{is_account_of, subjects_of}
use postgreslet.Operator.Install.{
  OperatorError, cluster_error, not_decoded, not_an_object, slice_out_of_range, Decoded,
  undecodable, no_object, client_object, Documents, call, with_body, pod_env_config_map,
  namespace_object,
}
use postgreslet.Operator.Install.Namespaces.{InScope, scope_of-cases}
use postgreslet.Operator.Uninstall.{
  is_operator_deletable, with_sets, remove_at, remove_element, remove_subjects, element, deleted,
  uninstall_by_kind, uninstall_object, unless_not_found, delete_namespace, uninstall_items,
  uninstall_operator, reverse_onto,
}

-- To ask changes nothing.
module _ {W E : Type 0} (objects : Objects W E) (P : W → Type 0) where
  with_sets-Keeps : (k : Key) (r : Result E (List Object)) → Keeps P (with_sets objects k r)
  unfolding with_sets
  with_sets-Keeps k (ok []) w w' b h p = rw (world h) at p
  with_sets-Keeps k (ok (_ ∷ _)) w w' b h p = rw (world h) at p
  with_sets-Keeps k (err e) w w' b h p = elim (Bool-cases (objects.is_not_found e)) [
    | inl missing ↦ rw (world (rw missing at h)) at p
    | inr found ↦ ground arith
  ]

  pub is_operator_deletable-Keeps :
      (namespace name : Text) → Keeps P (is_operator_deletable objects namespace name)
  unfolding is_operator_deletable
  is_operator_deletable-Keeps namespace name =
      let sets =
        objects.list_all (codes "StatefulSet") (some namespace)
          ((codes "application", codes "spilo") ∷ []) in
      let k = key_of (blank namespace name (service [])) in
      Keeps-bind P (attempt (reading sets)) (with_sets objects k) (Keeps-attempt P sets)
        (with_sets-Keeps k)

module _ {W E : Type 0} (objects : Objects W E) (namespace : Text) (P : W → Type 0)
    (missing : (j : Key) (e : E) (w w' : W)
      → objects.delete j w ≡ (err e, w')
      → objects.is_not_found e ≡ true
      → w ≡ w')
    (keeps_delete : (j : Key) → InScope namespace j → Keeps P (objects.delete j))
    (keeps_patch : (base o : Object)
      → InScope namespace (key_of o)
      → Keeps P (objects.patch base o)) where
  -- A deletion whose error is a value, and what is done with it.
  after_delete-Keeps :
      {A : Type 0} (j : Key) (f : Result E (Unit {0}) → Action W (OperatorError E) A)
      → InScope namespace j
      → Keeps P (f (ok tt))
      → ((e : E) → objects.is_not_found e ≡ true → Keeps P (f (err e)))
      → ((e : E) (w w' : W) (a : A) → objects.is_not_found e ≡ false → f (err e) w ≢ (ok a, w'))
      → Keeps P (attempt (objects.delete j) >>= f)
  after_delete-Keeps {A} j f inside after gone stops w w' a h p = go (objects.delete j w) refl h
    where
      on_error : (e : E) (v : W) → objects.delete j w ≡ (err e, v) → f (err e) v ≡ (ok a, w') → P w'
      on_error e v d h' = elim (Bool-cases (objects.is_not_found e)) [
        | inl yes_missing ↦ gone e yes_missing v w' a h' (rw (missing j e w v d yes_missing) at p)
        | inr found ↦ absurd (stops e v w' a found h')
      ]

      go : (r : Result E (Unit {0}) × W) → objects.delete j w ≡ r → f r.0 r.1 ≡ (ok a, w') → P w'
      go (ok _, v) d h' = after v w' a h' (keeps_delete j inside w v tt d p)
      go (err e, v) d h' = on_error e v d h'

  deleted-Keeps :
      (j : Key) → InScope namespace j → Keeps P (attempt (objects.delete j) >>= deleted objects)
  unfolding deleted
  deleted-Keeps j inside =
      after_delete-Keeps j (deleted objects) inside (Keeps-pure P true)
        (λ e missing'. rw missing' (Keeps-pure P false)) (λ e w w' a found h. ground arith)

  unless_not_found-Keeps :
      (j : Key)
      → InScope namespace j
      → Keeps P (attempt (objects.delete j) >>= unless_not_found objects)
  unfolding unless_not_found
  unless_not_found-Keeps j inside =
      after_delete-Keeps j (unless_not_found objects) inside (Keeps-pure P tt)
        (λ e missing'. rw missing' (Keeps-pure P tt)) (λ e w w' a found h. ground arith)

  remove_element-Keeps :
      (v : Object) (next : ℕ → List Subject → Action W (OperatorError E) (Unit {0})) (i len : ℕ)
      (array : List Subject) (s : Option Subject)
      → ((len' : ℕ) (array' : List Subject) → Keeps P (next len' array'))
      → Keeps P (remove_element objects namespace v next i len array s)
  unfolding remove_element key_of
  remove_element-Keeps v next i len array none keeps = Keeps-pure P tt
  remove_element-Keeps v next i len array (some s) keeps =
      let array' = remove_at i len array in
      let patched =
        objects.patch (with_body (cluster_role_binding (take len array)) v)
          (with_body (cluster_role_binding (take (len - 1) array')) v) in
      Keeps-if P (not (is_account_of namespace s)) (next len array)
        (if not (ltb i len) then fail slice_out_of_range else call patched >> next (len - 1) array')
        (keeps len array)
        (Keeps-if P (not (ltb i len)) (fail slice_out_of_range)
          (call patched >> next (len - 1) array') (Keeps-fail P slice_out_of_range)
          (Keeps-bind P (call patched) (λ _. next (len - 1) array')
            (Keeps-or_else_fail P patched cluster_error (
              keeps_patch (with_body (cluster_role_binding (take len array)) v)
                (with_body (cluster_role_binding (take (len - 1) array')) v) (inr refl)))
            (λ _. keeps (len - 1) array')))

  remove_subjects-Keeps :
      (v : Object) (rounds i len : ℕ) (array : List Subject)
      → Keeps P (remove_subjects objects namespace v rounds i len array)
  unfolding remove_subjects
  remove_subjects-Keeps v zero i len array = Keeps-pure P tt
  remove_subjects-Keeps v (suc rounds) i len array =
      remove_element-Keeps v (remove_subjects objects namespace v rounds (suc i)) i len array
        (element i array) (λ len' array'. remove_subjects-Keeps v rounds (suc i) len' array')

  -- The rest of the documents: whatever the kind of an object, what is deleted or patched is in the
  -- namespace or in none.
  default-Keeps :
      (v : Object)
      → Keeps P (
          attempt
            (objects.delete (key_of (record v { meta = record v.meta { namespace = namespace } })))
          >>= deleted objects)
  unfolding key_of
  default-Keeps v =
      deleted-Keeps (key_of (record v { meta = record v.meta { namespace = namespace } }))
        (scope_of-cases v.body namespace)

  by_kind-Keeps : (v : Object) (b : Body) → Keeps P (uninstall_by_kind objects namespace v b)
  unfolding uninstall_by_kind
  by_kind-Keeps v (cluster_role _) = Keeps-pure P true
  by_kind-Keeps v (cluster_role_binding _) =
      let fetch = reading (objects.get (key_of v)) in
      let remove = λ (got : Object).
        remove_subjects objects namespace got (length (subjects_of got)) 0
          (length (subjects_of got)) (subjects_of got) in
      Keeps-bind P (call fetch) (λ got. remove got >>= (λ _. pure true))
        (Keeps-or_else_fail P fetch cluster_error (Keeps-reading P (objects.get (key_of v))))
        (λ got.
          Keeps-bind P (remove got) (λ _. pure true)
            (remove_subjects-Keeps got (length (subjects_of got)) 0 (length (subjects_of got))
              (subjects_of got))
            (λ _. Keeps-pure P true))
  by_kind-Keeps v _ = default-Keeps v

  pub object-Keeps : (d : Decoded) → Keeps P (uninstall_object objects namespace d)
  unfolding uninstall_object
  object-Keeps undecodable = Keeps-fail P not_decoded
  object-Keeps no_object = Keeps-fail P not_an_object
  object-Keeps (client_object v) = by_kind-Keeps v v.body

  pub delete_namespace-Keeps : Keeps P (delete_namespace objects namespace)
  unfolding delete_namespace key_of
  delete_namespace-Keeps =
      let k = key_of (pod_env_config_map namespace) in
      let n = key_of (namespace_object namespace) in
      Keeps-bind P (attempt (objects.delete k) >>= unless_not_found objects)
        (λ _. call (objects.delete n)) (unless_not_found-Keeps k (inl refl))
        (λ _. Keeps-or_else_fail P (objects.delete n) cluster_error (keeps_delete n (inr refl)))

  pub uninstall_items-Keeps :
      (documents : Documents) (items : List Text)
      → Keeps P (uninstall_items objects documents namespace items)
  unfolding uninstall_items
  uninstall_items-Keeps documents [] = delete_namespace-Keeps
  uninstall_items-Keeps documents (item ∷ rest) =
      Keeps-bind P (uninstall_object objects namespace (documents.decode item))
        (λ more. if more then uninstall_items objects documents namespace rest else pure tt)
        (object-Keeps (documents.decode item))
        (λ more.
          Keeps-if P more (uninstall_items objects documents namespace rest) (pure tt)
            (uninstall_items-Keeps documents rest) (Keeps-pure P tt))

  pub uninstall-Keeps :
      (documents : Documents) → Keeps P (uninstall_operator objects documents namespace)
  unfolding uninstall_operator
  uninstall-Keeps documents = uninstall_items-Keeps documents (reverse_onto documents.items [])
