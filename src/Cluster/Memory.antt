-- ===== src/Cluster/Memory.antt =====
-- A client over a list of objects. It meets the laws, so that what is assumed of a client can hold,
-- and it runs in the tests.
use mathlib.Core.List.{Memᴰ}
use postgreslet.Prelude.{
  ◌≡◌, ◌≢◌, refl, sym, Bool, true, false, List, [], ◌∷◌, arith, ◌=?◌, if◌then◌else◌, text_eq,
  Bool-cases, inl, inr,
}
use postgreslet.Text.{Text}
use postgreslet.Dict.{Dict}
use postgreslet.Cluster.{Result, ok, err, Action, NamespacedName, Client, IsLawful, Result-cases}

pub data MemoryError : Type 0 where
  not_found already_exists : MemoryError

same_key : NamespacedName → NamespacedName → Bool
same_key j k = if j.namespace =? k.namespace then j.name =? k.name else false

same_key_sound : (j k : NamespacedName) → same_key j k ≡ true → j ≡ k
unfolding same_key
same_key_sound j k h = ground arith

same_key_self : (k : NamespacedName) → same_key k k ≡ true
unfolding same_key
same_key_self k = ground arith

ok_injective : {E A : Type 0} {a b : A} → ◌≡◌ {A = Result E A} (ok a) (ok b) → a ≡ b
ok_injective e = cc

module _ {Obj : Type 0} (key_of : Obj → NamespacedName) (labels_of : Obj → Dict Text Text) where
  find : NamespacedName → List Obj → Result MemoryError Obj
  find k [] = err not_found
  find k (o ∷ w) = if same_key (key_of o) k then ok o else find k w

  -- `o` in place of the object with its key, at the end if there is none.
  write : Obj → List Obj → List Obj
  write o [] = o ∷ []
  write o (p ∷ w) = if same_key (key_of p) (key_of o) then o ∷ w else p ∷ write o w

  remove : NamespacedName → List Obj → List Obj
  remove k [] = []
  remove k (o ∷ w) = let rest = remove k w in if same_key (key_of o) k then rest else o ∷ rest

  create : Obj → Action (List Obj) MemoryError (Unit {0})
  create o w = elim (find (key_of o) w) [
    | ok _ ↦ (err already_exists, w)
    | err _ ↦ (ok tt, write o w)
  ]

  update : Obj → Action (List Obj) MemoryError (Unit {0})
  update o w = elim (find (key_of o) w) [ ok _ ↦ (ok tt, write o w) | err e ↦ (err e, w) ]

  delete : NamespacedName → Action (List Obj) MemoryError (Unit {0})
  delete k w = elim (find k w) [ ok _ ↦ (ok tt, remove k w) | err e ↦ (err e, w) ]

  -- Every object, which is more than was asked for and no less.
  unfoldable pub memory : Client (List Obj) MemoryError Obj
  unfolding find write remove create update delete same_key
  memory = record {
    key_of = key_of;
    labels_of = labels_of;
    get = find;
    list_all = λ _ w. ok w;
    create = create;
    update = update;
    delete = delete;
    is_not_found = λ e. elim e [ not_found ↦ true | already_exists ↦ false ];
  }

  find-write_self : (o : Obj) (w : List Obj) → find (key_of o) (write o w) ≡ ok o
  unfolding find write
  find-write_self o [] = ground (arith, same_key_self (key_of o))
  find-write_self o (p ∷ w) = ground (arith, same_key_self (key_of o), find-write_self o w)

  find-write_ne :
      (o : Obj) (k : NamespacedName) (w : List Obj) → key_of o ≢ k → find k (write o w) ≡ find k w
  unfolding find write
  find-write_ne o k [] h = ground (arith, same_key_sound (key_of o) k)
  find-write_ne o k (p ∷ w) h = ground (
    arith,
    same_key_sound (key_of o) k,
    same_key_sound (key_of p) (key_of o),
    same_key_sound (key_of p) k,
    find-write_ne o k w h,
  )

  find-remove_ne : (j k : NamespacedName) (w : List Obj) → j ≢ k → find k (remove j w) ≡ find k w
  unfolding find remove
  find-remove_ne j k [] h = refl
  find-remove_ne j k (o ∷ w) h =
      ground
        (arith, same_key_sound (key_of o) j, same_key_sound (key_of o) k, find-remove_ne j k w h)

  key_of-find : (k : NamespacedName) (o : Obj) (w : List Obj) → find k w ≡ ok o → key_of o ≡ k
  unfolding find
  key_of-find k o [] h = ground arith
  key_of-find k o (p ∷ w) h = ground (arith, same_key_sound (key_of p) k, key_of-find k o w)

  find-mem : (k : NamespacedName) (o : Obj) (w : List Obj) → find k w ≡ ok o → Memᴰ o w
  unfolding find
  find-mem k o [] h = ground arith
  find-mem k o (p ∷ w) h = elim (Bool-cases (same_key (key_of p) k)) [
    | inl here ↦ Memᴰ.head (ok_injective (sym (rw here at h)))
    | inr there ↦ Memᴰ.tail (find-mem k o w (rw there at h))
  ]

  create-ok : (o : Obj) (w : List Obj) {w' : List Obj} → create o w ≡ (ok tt, w') → w' ≡ write o w
  unfolding create
  create-ok o w h = ground arith

  update-ok : (o : Obj) (w : List Obj) {w' : List Obj} → update o w ≡ (ok tt, w') → w' ≡ write o w
  unfolding update
  update-ok o w h = ground arith

  find-delete_ne : (j k : NamespacedName) (w : List Obj) → j ≢ k → find k (delete j w).1 ≡ find k w
  unfolding delete
  find-delete_ne j k w apart = elim (Result-cases (find j w)) [
    | inl (o, e) ↦ rw (e, delete) (find-remove_ne j k w apart)
    | inr (e, missing) ↦ rw (missing, delete)
  ]

  pub memory-IsLawful : IsLawful memory
  unfolding memory
  memory-IsLawful = record {
    get-create_self = λ o {w} done. rw (create-ok o w done) (find-write_self o w);
    get-create_ne = λ o k {w} done apart. rw (create-ok o w done) (find-write_ne o k w apart);
    get-update_self = λ o {w} done. rw (update-ok o w done) (find-write_self o w);
    get-update_ne = λ o k {w} done apart. rw (update-ok o w done) (find-write_ne o k w apart);
    get-delete_ne = λ j k w apart. find-delete_ne j k w apart;
    key_of-get = key_of-find;
    get-list_all = λ k o labels w found listed there same.
        rw (ok_injective (sym listed)) (find-mem k o w there);
  }

  -- A creation that succeeds found nothing under the key; one that reports that the object exists
  -- found one, and wrote nothing.
  pub memory-create_absent :
      (o p : Obj) (w : List Obj) {w' : List Obj}
      → memory.create o w ≡ (ok tt, w')
      → memory.get (key_of o) w ≢ ok p
  unfolding memory create
  memory-create_absent o p w done there = ground arith

  pub memory-create_exists :
      (o : Obj) (w : List Obj) {w' : List Obj}
      → memory.create o w ≡ (err already_exists, w')
      → (w ≡ w') × ((p : Obj) × (memory.get (key_of o) w ≡ ok p))
  unfolding memory create
  memory-create_exists o w failed = elim (Result-cases (find (key_of o) w)) [
    | inl (p, there) ↦ (ground arith, (p, there))
    | inr (e, missing) ↦ ground arith
  ]
