-- ===== src/Kube/Laws.antt =====
-- What the API of Kubernetes documents of the calls of a client.
use postgreslet.Prelude.{◌≡◌, ◌≢◌, true, []}
use postgreslet.Text.{Text}
use postgreslet.Cluster.{ok, err}
use postgreslet.Kube.{Body, service, Object, Key, key_of, Objects}

-- What the server keeps of a body: all of it, but that it chooses the ip of a service which has none.
abbrev pub Kept : Body → Body → Type 0
Kept (service []) stored = (ip : Text) × (stored ≡ service ip)
Kept sent stored = stored ≡ sent

-- Of calls that succeed: what was written is read back, every other object stays. A deletion dooms
-- its object: it is gone, or it has a deletion timestamp, which no call takes away; only a new
-- object can take the place of one that is gone. A call that fails to find its object changes
-- nothing.
pub record IsObjects {W E : Type 0} (c : Objects W E) (Doomed : Key → W → Type 0) : Type 0 where
  pub get-create_self :
      (o : Object) {w w' : W}
      → c.create o w ≡ (ok tt, w')
      → (o' : Object) × (c.get (key_of o) w' ≡ ok o') × Kept o.body o'.body
  pub get-create_ne :
      (o : Object) (k : Key) {w w' : W}
      → c.create o w ≡ (ok tt, w')
      → key_of o ≢ k
      → c.get k w' ≡ c.get k w
  pub create-absent :
      (o p : Object) {w w' : W} → c.create o w ≡ (ok tt, w') → c.get (key_of o) w ≢ ok p
  pub get-update_self :
      (o : Object) {w w' : W}
      → c.update o w ≡ (ok tt, w')
      → (o' : Object) × (c.get (key_of o) w' ≡ ok o') × Kept o.body o'.body
  pub get-update_ne :
      (o : Object) (k : Key) {w w' : W}
      → c.update o w ≡ (ok tt, w')
      → key_of o ≢ k
      → c.get k w' ≡ c.get k w
  pub get-patch_self :
      (base o : Object) {w w' : W}
      → c.patch base o w ≡ (ok tt, w')
      → c.get (key_of o) w ≡ ok base
      → (o' : Object) × (c.get (key_of o) w' ≡ ok o') × Kept o.body o'.body
  pub get-patch_ne :
      (base o : Object) (k : Key) {w w' : W}
      → c.patch base o w ≡ (ok tt, w')
      → key_of o ≢ k
      → c.get k w' ≡ c.get k w
  pub get-delete_ne :
      (j k : Key) {w w' : W} → c.delete j w ≡ (ok tt, w') → j ≢ k → c.get k w' ≡ c.get k w
  pub delete-missing :
      (j : Key) (e : E) {w w' : W}
      → c.delete j w ≡ (err e, w')
      → c.is_not_found e ≡ true
      → (w ≡ w') × Doomed j w
  pub key_of-get : (k : Key) (o : Object) (w : W) → c.get k w ≡ ok o → key_of o ≡ k
  pub delete-Doomed : (j : Key) {w w' : W} → c.delete j w ≡ (ok tt, w') → Doomed j w'
  pub Doomed-delete : (j k : Key) {w w' : W} → c.delete j w ≡ (ok tt, w') → Doomed k w → Doomed k w'
  pub Doomed-update :
      (o : Object) (k : Key) {w w' : W} → c.update o w ≡ (ok tt, w') → Doomed k w → Doomed k w'
  pub Doomed-patch :
      (base o : Object) (k : Key) {w w' : W}
      → c.patch base o w ≡ (ok tt, w')
      → Doomed k w
      → Doomed k w'
  -- Also of a deletion that fails.
  pub Doomed-delete_err :
      (j k : Key) (e : E) {w w' : W} → c.delete j w ≡ (err e, w') → Doomed k w → Doomed k w'
