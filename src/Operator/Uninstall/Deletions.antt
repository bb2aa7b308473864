-- ===== src/Operator/Uninstall/Deletions.antt =====
-- What one deletion of the removal has come to, by what the removal does next.
use postgreslet.Prelude.{◌≡◌, refl, ◌∙◌, Bool, true, false, Bool-cases, inl, inr, length, arith}
use postgreslet.Text.{Text}
use postgreslet.Cluster.{Result, ok, err, pure, ◌>>=◌}
use postgreslet.Cluster.Actions.{world, attempt, reading, bind-ok, or_else_fail-success}
use postgreslet.Kube.{
  Metadata, Body, Object, Key, key_of, Objects, cluster_role, cluster_role_binding,
}
use postgreslet.Kube.Laws.{IsObjects}
use postgreslet.Operator.Objects.{subjects_of}
use postgreslet.Operator.Install.{cluster_error, call, pod_env_config_map, namespace_object}
use postgreslet.Operator.Install.Writes.{key_in}
use postgreslet.Operator.Uninstall.{
  deleted, remove_subjects, uninstall_by_kind, unless_not_found, delete_namespace,
}

-- The kinds that the namespaces share: a removal keeps the objects.
abbrev pub is_shared : Body → Bool
is_shared (cluster_role _) = true
is_shared (cluster_role_binding _) = true
is_shared _ = false

module _ {W E : Type 0} (objects : Objects W E) {Doomed : Key → W → Type 0}
    (laws : IsObjects objects Doomed) (namespace : Text) where
  unless_not_found-Doomed :
      (k : Key) (r : Result E (Unit {0})) (w v w' : W) (a : Unit {0})
      → objects.delete k w ≡ (r, v)
      → unless_not_found objects r v ≡ (ok a, w')
      → Doomed k w'
  unfolding unless_not_found
  unless_not_found-Doomed k (ok _) w v w' a d later = rw (world later) at (laws.delete-Doomed k d)
  unless_not_found-Doomed k (err e) w v w' a d later = elim (Bool-cases (objects.is_not_found e)) [
    | inl missing ↦
        let (same, gone) = laws.delete-missing k e d missing in
        rw (same ∙ world (rw missing at later)) at gone
    | inr found ↦ ground arith
  ]

  -- A deletion after which the loop goes on.
  deleted-Doomed :
      (k : Key) (r : Result E (Unit {0})) (w v w' : W)
      → objects.delete k w ≡ (r, v)
      → deleted objects r v ≡ (ok true, w')
      → Doomed k w'
  unfolding deleted
  deleted-Doomed k (ok _) w v w' d later = rw (world later) at (laws.delete-Doomed k d)
  deleted-Doomed k (err e) w v w' d later = ground arith

  -- A deletion after which it stops.
  deleted-stops :
      (k : Key) (r : Result E (Unit {0})) (w v w' : W)
      → objects.delete k w ≡ (r, v)
      → deleted objects r v ≡ (ok false, w')
      → (e : E) × (objects.delete k w' ≡ (err e, w')) × (objects.is_not_found e ≡ true)
  unfolding deleted
  deleted-stops k (ok _) w v w' d later = ground arith
  deleted-stops k (err e) w v w' d later = elim (Bool-cases (objects.is_not_found e)) [
    | inl missing ↦
        let at_end = world (rw missing at later) in
        let same = (laws.delete-missing k e d missing).0 ∙ at_end in
        (e, rw (same, at_end) at d, missing)
    | inr found ↦ ground arith
  ]

  pub delete_namespace-Doomed :
      (w w' : W) (a : Unit {0})
      → delete_namespace objects namespace w ≡ (ok a, w')
      → Doomed (key_of (namespace_object namespace)) w'
        × Doomed (key_of (pod_env_config_map namespace)) w'
  unfolding delete_namespace
  delete_namespace-Doomed w w' a h =
      let k = key_of (pod_env_config_map namespace) in
      let n = key_of (namespace_object namespace) in
      let (b, v, first, second) =
        bind-ok (attempt (objects.delete k) >>= unless_not_found objects)
          (λ _. call (objects.delete n)) w w' a h in
      let removed = or_else_fail-success cluster_error (objects.delete n) v w' a second in
      let r = objects.delete k w in
      (
        laws.delete-Doomed n removed,
        laws.Doomed-delete n k removed (unless_not_found-Doomed k r.0 w r.1 v b refl first),
      )

  pub by_kind-Doomed :
      (m : Metadata) (b : Body) (w w' : W)
      → is_shared b ≡ false
      → uninstall_by_kind objects namespace (record { meta = m; body = b }) b w ≡ (ok true, w')
      → Doomed (key_in namespace (record { meta = m; body = b }) b) w'
  unfolding uninstall_by_kind key_of
  by_kind-Doomed m (cluster_role _) w w' own h = ground arith
  by_kind-Doomed m (cluster_role_binding _) w w' own h = ground arith
  by_kind-Doomed m b w w' own h =
      let k = key_in namespace (record { meta = m; body = b }) b in
      let r = objects.delete k w in deleted-Doomed k r.0 w r.1 w' refl h

  pub by_kind-stops :
      (m : Metadata) (b : Body) (w w' : W)
      → uninstall_by_kind objects namespace (record { meta = m; body = b }) b w ≡ (ok false, w')
      → (e : E) × (objects.delete (key_in namespace (record { meta = m; body = b }) b) w'
          ≡ (err e, w'))
        × (objects.is_not_found e ≡ true)
  unfolding uninstall_by_kind key_of
  by_kind-stops m (cluster_role _) w w' h = ground arith
  by_kind-stops m (cluster_role_binding subjects) w w' h =
      let fetch = call (
        reading
          (objects.get (key_of (record { meta = m; body = cluster_role_binding subjects })))) in
      let remove = λ (got : Object).
        remove_subjects objects namespace got (length (subjects_of got)) 0
          (length (subjects_of got)) (subjects_of got) in
      let (got, v, _, later) =
        bind-ok fetch (λ got. remove got >>= (λ _. pure true)) w w' false h in
      let (_, u, _, last) = bind-ok (remove got) (λ _. pure true) v w' false later in ground arith
  by_kind-stops m b w w' h =
      let k = key_in namespace (record { meta = m; body = b }) b in
      let r = objects.delete k w in deleted-stops k r.0 w r.1 w' refl h
