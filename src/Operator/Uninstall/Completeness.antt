-- ===== src/Operator/Uninstall/Completeness.antt =====
-- What a removal of the operator that succeeds has reached, and what it has left alone.
use mathlib.Core.List.{Memᴰ}
use postgreslet.Prelude.{
  ◌≡◌, ◌≢◌, refl, sym, ◌∙◌, ap, Bool, true, false, List, [], ◌∷◌, ◌⊎◌, inl, inr, arith,
  if◌then◌else◌,
}
use postgreslet.Text.{Text}
use postgreslet.Cluster.{ok, err, pure}
use postgreslet.Cluster.Actions.{world, bind-ok, Keeps}
use postgreslet.Kube.{Object, Key, key_of, Objects}
use postgreslet.Kube.Laws.{IsObjects}
use postgreslet.Operator.Install.{
  Decoded, undecodable, no_object, client_object, Documents, pod_env_config_map, namespace_object,
}
use postgreslet.Operator.Install.Writes.{key_in}
use postgreslet.Operator.Install.Frame.{InDocuments}
use postgreslet.Operator.Install.Namespaces.{elsewhere}
use postgreslet.Operator.Uninstall.{
  uninstall_object, uninstall_items, uninstall_operator, reverse_onto,
}
use postgreslet.Operator.Uninstall.Writes.{uninstall_items-Keeps, uninstall-Keeps}
use postgreslet.Operator.Uninstall.Deletions.{
  is_shared, delete_namespace-Doomed, by_kind-Doomed, by_kind-stops,
}

-- The object of a document had been missing when it was to be deleted, which is the end of it.
abbrev pub Stopped : {W E : Type 0} → Objects W E → Documents → Text → List Text → W → Type 0
Stopped {E} objects documents namespace items w =
    (item : Text) × (o : Object) × Memᴰ item items
    × (documents.decode item ≡ client_object o)
    × ((e : E) × (objects.delete (key_in namespace o o.body) w ≡ (err e, w))
        × (objects.is_not_found e ≡ true))

module _ {A : Type 0} (x : A) where
  mem-reverse_onto_later : (xs acc : List A) → Memᴰ x acc → Memᴰ x (reverse_onto xs acc)
  mem-reverse_onto_later [] acc there = there
  mem-reverse_onto_later (y ∷ xs) acc there = mem-reverse_onto_later xs (y ∷ acc) (Memᴰ.tail there)

  mem-reverse_onto : (xs acc : List A) → Memᴰ x xs → Memᴰ x (reverse_onto xs acc)
  mem-reverse_onto [] acc there = elim there [ ]
  mem-reverse_onto (y ∷ xs) acc (Memᴰ.head e) = mem-reverse_onto_later xs (y ∷ acc) (Memᴰ.head e)
  mem-reverse_onto (y ∷ xs) acc (Memᴰ.tail there) = mem-reverse_onto xs (y ∷ acc) there

  mem_of-cons :
      (y : A) (xs acc : List A) → Memᴰ x xs ⊎ Memᴰ x (y ∷ acc) → Memᴰ x (y ∷ xs) ⊎ Memᴰ x acc
  mem_of-cons y xs acc (inl there) = inl (Memᴰ.tail there)
  mem_of-cons y xs acc (inr (Memᴰ.head e)) = inl (Memᴰ.head e)
  mem_of-cons y xs acc (inr (Memᴰ.tail there)) = inr there

  mem-reverse_onto_sound : (xs acc : List A) → Memᴰ x (reverse_onto xs acc) → Memᴰ x xs ⊎ Memᴰ x acc
  mem-reverse_onto_sound [] acc there = inr there
  mem-reverse_onto_sound (y ∷ xs) acc there =
      mem_of-cons y xs acc (mem-reverse_onto_sound xs (y ∷ acc) there)

module _ {W E : Type 0} (objects : Objects W E) {Doomed : Key → W → Type 0}
    (laws : IsObjects objects Doomed) (documents : Documents) (namespace : Text) where
  stays_doomed :
      (k : Key) (items : List Text)
      → Keeps (Doomed k) (uninstall_items objects documents namespace items)
  stays_doomed k items =
      uninstall_items-Keeps objects namespace (Doomed k)
        (λ j e w w' failed missing. (laws.delete-missing j e failed missing).0)
        (λ j _ w w' _ d p. laws.Doomed-delete j k d p)
        (λ base o _ w w' _ d p. laws.Doomed-patch base o k d p) documents items

  -- What the objects of these documents have come to.
  abbrev Removed : List Text → W → Type 0
  Removed items w =
      (item : Text) (o : Object)
      → Memᴰ item items
      → documents.decode item ≡ client_object o
      → is_shared o.body ≡ false
      → Doomed (key_in namespace o o.body) w

  object-Doomed :
      (d : Decoded) (o : Object) (w w' : W)
      → d ≡ client_object o
      → is_shared o.body ≡ false
      → uninstall_object objects namespace d w ≡ (ok true, w')
      → Doomed (key_in namespace o o.body) w'
  unfolding uninstall_object
  object-Doomed d o w w' e own h =
      by_kind-Doomed objects laws namespace o.meta o.body w w' own (rw e at h)

  object-stops :
      (d : Decoded) (w w' : W)
      → uninstall_object objects namespace d w ≡ (ok false, w')
      → (o : Object) × (d ≡ client_object o)
        × ((e : E) × (objects.delete (key_in namespace o o.body) w' ≡ (err e, w'))
            × (objects.is_not_found e ≡ true))
  unfolding uninstall_object
  object-stops undecodable w w' h = ground arith
  object-stops no_object w w' h = ground arith
  object-stops (client_object o) w w' h =
      (o, refl, by_kind-stops objects laws namespace o.meta o.body w w' h)

  Stopped-cons :
      (item : Text) (rest : List Text) (w : W)
      → Stopped objects documents namespace rest w
      → Stopped objects documents namespace (item ∷ rest) w
  Stopped-cons item rest w (i, o, there, d, more) = (i, o, Memᴰ.tail there, d, more)

  Removed-cons :
      (item : Text) (rest : List Text) (w : W)
      → ((o : Object)
          → documents.decode item ≡ client_object o
          → is_shared o.body ≡ false
          → Doomed (key_in namespace o o.body) w)
      → Removed rest w
      → Removed (item ∷ rest) w
  Removed-cons item rest w first later item' o (Memᴰ.head e) d own =
      first o (ap documents.decode (sym e) ∙ d) own
  Removed-cons item rest w first later item' o (Memᴰ.tail there) d own = later item' o there d own

  -- The two ends of a removal that succeeds.
  abbrev Reached : List Text → W → Type 0
  Reached items w =
      (Doomed (key_of (namespace_object namespace)) w
        × Doomed (key_of (pod_env_config_map namespace)) w
        × Removed items w)
      ⊎ Stopped objects documents namespace items w

  Reached-cons :
      (item : Text) (rest : List Text) (w : W)
      → ((o : Object)
          → documents.decode item ≡ client_object o
          → is_shared o.body ≡ false
          → Doomed (key_in namespace o o.body) w)
      → Reached rest w
      → Reached (item ∷ rest) w
  Reached-cons item rest w first (inl (n, k, removed)) =
      inl (n, k, Removed-cons item rest w first removed)
  Reached-cons item rest w first (inr stopped) = inr (Stopped-cons item rest w stopped)

  Reached-step :
      (item : Text) (rest : List Text) (w w' : W) (a : Unit {0})
      → ((v : W)
          → uninstall_items objects documents namespace rest v ≡ (ok a, w')
          → Reached rest w')
      → (more : Bool) (v : W)
      → uninstall_object objects namespace (documents.decode item) w ≡ (ok more, v)
      → (if more then uninstall_items objects documents namespace rest else pure tt) v ≡ (ok a, w')
      → Reached (item ∷ rest) w'
  Reached-step item rest w w' a reached true v first later =
      Reached-cons item rest w'
        (λ o d own.
          stays_doomed (key_in namespace o o.body) rest v w' a later
            (object-Doomed (documents.decode item) o w v d own first))
        (reached v later)
  Reached-step item rest w w' a reached false v first later =
      let (o, d, (e, failed, missing)) = object-stops (documents.decode item) w v first in
      inr (item, o, Memᴰ.head refl, d, (e, rw (world later) at failed, missing))

  uninstall_items-Reached :
      (items : List Text) (w w' : W) (a : Unit {0})
      → uninstall_items objects documents namespace items w ≡ (ok a, w')
      → Reached items w'
  unfolding uninstall_items
  uninstall_items-Reached [] w w' a h =
      let (n, k) = delete_namespace-Doomed objects laws namespace w w' a h in
      inl (n, k, λ item o there _ _. elim there [ ])
  uninstall_items-Reached (item ∷ rest) w w' a h =
      let (more, v, first, later) =
        bind-ok (uninstall_object objects namespace (documents.decode item))
          (λ more. if more then uninstall_items objects documents namespace rest else pure tt) w w'
          a h in
      Reached-step item rest w w' a (λ v' h'. uninstall_items-Reached rest v' w' a h') more v first
        later

  -- Over a client that meets the laws: a removal of the operator that succeeds has come to one of
  -- two ends. Either the namespace, the config map of the pod environment and every object of the
  -- documents in the namespace are gone or being deleted (the cluster roles and their bindings,
  -- which other namespaces use, are not counted); or the object of some document was not found
  -- when it was to be deleted, at which the removal stops.
  pub uninstall_operator_reaches :
      (w w' : W) (a : Unit {0})
      → uninstall_operator objects documents namespace w ≡ (ok a, w')
      → (Doomed (key_of (namespace_object namespace)) w'
          × Doomed (key_of (pod_env_config_map namespace)) w'
          × InDocuments documents
              (λ o. is_shared o.body ≡ false → Doomed (key_in namespace o o.body) w'))
        ⊎ Stopped objects documents namespace documents.items w'
  unfolding uninstall_operator
  uninstall_operator_reaches w w' a h =
      elim (uninstall_items-Reached (reverse_onto documents.items []) w w' a h) [
        | inl (n, k, removed) ↦ inl (
          n,
          k,
          λ item o there d. removed item o (mem-reverse_onto item documents.items [] there) d,
        )
        | inr (item, o, there, d, more) ↦ inr (
          item,
          o,
          mem_of_reversed item (mem-reverse_onto_sound item documents.items [] there),
          d,
          more,
        )
      ]
    where
      mem_of_reversed :
          (item : Text) → Memᴰ item documents.items ⊎ Memᴰ item [] → Memᴰ item documents.items
      mem_of_reversed item (inl there) = there
      mem_of_reversed item (inr none) = elim none [ ]

  -- Over a client that meets the laws: a removal that succeeds leaves every object alone that is
  -- in another namespace.
  pub uninstall_operator-frame :
      (k : Key) (w w' : W) (a : Unit {0})
      → k.namespace ≢ namespace
      → k.namespace ≢ []
      → uninstall_operator objects documents namespace w ≡ (ok a, w')
      → objects.get k w' ≡ objects.get k w
  uninstall_operator-frame k w w' a apart scoped h =
      uninstall-Keeps objects namespace (λ v. objects.get k v ≡ objects.get k w)
        (λ j e u u' failed missing. (laws.delete-missing j e failed missing).0)
        (λ j inside u u' _ d same.
          laws.get-delete_ne j k d (elsewhere namespace k j apart scoped inside) ∙ same)
        (λ base o inside u u' _ d same.
          laws.get-patch_ne base o k d (elsewhere namespace k (key_of o) apart scoped inside)
          ∙ same)
        documents w w' a h refl
