-- ===== src/Kube/Memory.antt =====
-- A client over a list of objects. It meets the laws, so that what is assumed of a client can hold,
-- and it runs in the tests.
pub mod Upserting
use postgreslet.Prelude.{
  ◌≡◌, ◌≢◌, refl, ◌∙◌, Bool, true, false, Option, none, some, List, [], ◌∷◌, arith, ◌=?◌,
  if◌then◌else◌, text_eq, inl, inr,
}
use postgreslet.Text.{Text}
use postgreslet.Cluster.{Result, ok, err, Action, Result-cases}
use postgreslet.Cluster.Memory.{MemoryError, not_found, already_exists}
use postgreslet.Kube.{
  kind_of, Body, Object, Key, key_of, Objects, service_account, namespace_body, config_map, secret,
  service, cluster_role, cluster_role_binding, deployment, postgresql, stateful_set, network_policy,
  cluster_network_policy, other,
}
use postgreslet.Kube.Laws.{Kept, IsObjects}

same_key : Key → Key → Bool
same_key j k =
    if j.kind =? k.kind
    then (if j.namespace =? k.namespace then j.name =? k.name else false)
    else false

same_key_sound : (j k : Key) → same_key j k ≡ true → j ≡ k
unfolding same_key
same_key_sound j k h = ground arith

same_key_self : (k : Key) → same_key k k ≡ true
unfolding same_key
same_key_self k = ground arith

find : Key → List Object → Result MemoryError Object
find k [] = err not_found
find k (o ∷ w) = if same_key (key_of o) k then ok o else find k w

-- `o` in place of the object with its key, at the end if there is none.
write : Object → List Object → List Object
write o [] = o ∷ []
write o (p ∷ w) = if same_key (key_of p) (key_of o) then o ∷ w else p ∷ write o w

remove : Key → List Object → List Object
remove k [] = []
remove k (o ∷ w) = let rest = remove k w in if same_key (key_of o) k then rest else o ∷ rest

create : Object → Action (List Object) MemoryError (Unit {0})
create o w = elim (find (key_of o) w) [
  | ok _ ↦ (err already_exists, w)
  | err _ ↦ (ok tt, write o w)
]

update : Object → Action (List Object) MemoryError (Unit {0})
update o w = elim (find (key_of o) w) [ ok _ ↦ (ok tt, write o w) | err e ↦ (err e, w) ]

delete : Key → Action (List Object) MemoryError (Unit {0})
delete k w = elim (find k w) [ ok _ ↦ (ok tt, remove k w) | err e ↦ (err e, w) ]

missing_error : MemoryError → Bool
missing_error not_found = true
missing_error already_exists = false

in_namespace : Option Text → Object → Bool
in_namespace none o = true
in_namespace (some namespace) o = o.meta.namespace =? namespace

-- The objects of the kind in the namespace, with any labels, which is more than was asked for and no
-- less.
listed : Text → Option Text → List Object → List Object
listed kind namespace [] = []
listed kind namespace (o ∷ w) =
    let rest = listed kind namespace w in
    if kind_of o.body =? kind then (if in_namespace namespace o then o ∷ rest else rest) else rest

unfoldable pub memory : Objects (List Object) MemoryError
unfolding find write remove create update delete same_key missing_error listed in_namespace
memory = record {
  get = find;
  list_all = λ kind namespace _ w. ok (listed kind namespace w);
  create = create;
  update = update;
  patch = λ _ o. update o;
  delete = delete;
  is_not_found = missing_error;
}

find-write_self : (o : Object) (w : List Object) → find (key_of o) (write o w) ≡ ok o
unfolding find write
find-write_self o [] = ground (arith, same_key_self (key_of o))
find-write_self o (p ∷ w) = ground (arith, same_key_self (key_of o), find-write_self o w)

find-write_ne :
    (o : Object) (k : Key) (w : List Object) → key_of o ≢ k → find k (write o w) ≡ find k w
unfolding find write
find-write_ne o k [] h = ground (arith, same_key_sound (key_of o) k)
find-write_ne o k (p ∷ w) h = ground (
  arith,
  same_key_sound (key_of o) k,
  same_key_sound (key_of p) (key_of o),
  same_key_sound (key_of p) k,
  find-write_ne o k w h,
)

find-remove_ne : (j k : Key) (w : List Object) → j ≢ k → find k (remove j w) ≡ find k w
unfolding find remove
find-remove_ne j k [] h = refl
find-remove_ne j k (o ∷ w) h =
    ground (arith, same_key_sound (key_of o) j, same_key_sound (key_of o) k, find-remove_ne j k w h)

find-remove_self : (k : Key) (w : List Object) → find k (remove k w) ≡ err not_found
unfolding find remove
find-remove_self k [] = refl
find-remove_self k (o ∷ w) = ground (arith, find-remove_self k w)

-- Nothing is found after a removal where nothing was found before.
find-remove_missing :
    (j k : Key) (w : List Object) → find k w ≡ err not_found → find k (remove j w) ≡ err not_found
unfolding find remove
find-remove_missing j k [] h = refl
find-remove_missing j k (o ∷ w) h = ground (arith, find-remove_missing j k w)

key_of-find : (k : Key) (o : Object) (w : List Object) → find k w ≡ ok o → key_of o ≡ k
unfolding find
key_of-find k o [] h = ground arith
key_of-find k o (p ∷ w) h = ground (arith, same_key_sound (key_of p) k, key_of-find k o w)

create-ok :
    (o : Object) (w : List Object) {w' : List Object}
    → create o w ≡ (ok tt, w')
    → (w' ≡ write o w) × ((p : Object) → find (key_of o) w ≢ ok p)
unfolding create
create-ok o w h = (ground arith, λ p there. ground arith)

update-ok :
    (o : Object) (w : List Object) {w' : List Object}
    → update o w ≡ (ok tt, w')
    → (w' ≡ write o w) × (find (key_of o) w ≢ err not_found)
unfolding update
update-ok o w h = (ground arith, λ missing. ground arith)

delete-ok :
    (k : Key) (w : List Object) {w' : List Object} → delete k w ≡ (ok tt, w') → w' ≡ remove k w
unfolding delete
delete-ok k w h = ground arith

find-not_found :
    (k : Key) (e : MemoryError) (w : List Object) → find k w ≡ err e → find k w ≡ err not_found
unfolding find
find-not_found k e [] h = refl
find-not_found k e (o ∷ w) h = ground (arith, find-not_found k e w)

delete-missing :
    (k : Key) (e : MemoryError) (w : List Object) {w' : List Object}
    → delete k w ≡ (err e, w')
    → (w ≡ w') × (find k w ≡ err not_found)
unfolding delete
delete-missing k e w h = elim (Result-cases (find k w)) [
  | inl (o, there) ↦ ground arith
  | inr (e', missing) ↦ (ground arith, find-not_found k e' w missing)
]

Kept-self : (b : Body) → Kept b b
Kept-self (service []) = ([], refl)
Kept-self (service (c ∷ ip)) = refl
Kept-self service_account = refl
Kept-self namespace_body = refl
Kept-self postgresql = refl
Kept-self stateful_set = refl
Kept-self (cluster_role _) = refl
Kept-self (cluster_role_binding _) = refl
Kept-self (config_map _) = refl
Kept-self (secret _) = refl
Kept-self (deployment _) = refl
Kept-self (network_policy _) = refl
Kept-self (cluster_network_policy _) = refl
Kept-self (other _) = refl

-- What is gone.
abbrev pub Gone : Key → List Object → Type 0
Gone k w = memory.get k w ≡ err not_found

written :
    (o : Object) (w w' : List Object)
    → w' ≡ write o w
    → (o' : Object) × (find (key_of o) w' ≡ ok o') × Kept o.body o'.body
written o w w' e = (o, rw e (find-write_self o w), Kept-self o.body)

still_gone :
    (o : Object) (k : Key) (w w' : List Object)
    → update o w ≡ (ok tt, w')
    → find k w ≡ err not_found
    → find k w' ≡ err not_found
still_gone o k w w' done gone =
    let (e, there) = update-ok o w done in
    rw e (find-write_ne o k w (λ same. there (rw same gone)) ∙ gone)

pub memory-IsObjects : IsObjects memory Gone
unfolding memory
memory-IsObjects = record {
  get-create_self = λ o {w} {w'} done. written o w w' (create-ok o w done).0;
  get-create_ne = λ o k {w} done apart. rw (create-ok o w done).0 (find-write_ne o k w apart);
  create-absent = λ o p {w} done. (create-ok o w done).1 p;
  get-update_self = λ o {w} {w'} done. written o w w' (update-ok o w done).0;
  get-update_ne = λ o k {w} done apart. rw (update-ok o w done).0 (find-write_ne o k w apart);
  get-patch_self = λ base o {w} {w'} done _. written o w w' (update-ok o w done).0;
  get-patch_ne = λ base o k {w} done apart. rw (update-ok o w done).0 (find-write_ne o k w apart);
  get-delete_ne = λ j k {w} done apart. rw (delete-ok j w done) (find-remove_ne j k w apart);
  delete-missing = λ j e {w} failed missing. delete-missing j e w failed;
  key_of-get = key_of-find;
  delete-Doomed = λ j {w} done. rw (delete-ok j w done) (find-remove_self j w);
  Doomed-delete = λ j k {w} done gone. rw (delete-ok j w done) (find-remove_missing j k w gone);
  Doomed-delete_err = λ j k e {w} failed gone. rw (delete-missing j e w failed).0 at gone;
  Doomed-update = λ o k {w} {w'} done gone. still_gone o k w w' done gone;
  Doomed-patch = λ base o k {w} {w'} done gone. still_gone o k w w' done gone;
}
