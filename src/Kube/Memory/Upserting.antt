-- ===== src/Kube/Memory/Upserting.antt =====
-- `controllerutil.CreateOrUpdate` over the client in memory, for the tests.
use native.Mathlib.Decide.{ℕ_discrete}
use postgreslet.Prelude.{◌≡◌, ◌≢◌, refl, sym, ◌∙◌, List, arith}
use postgreslet.Cluster.{Result, ok, err, Action}
use postgreslet.Cluster.Memory.{MemoryError, already_exists}
use postgreslet.Kube.{Body, Object, Key, key_of}
use postgreslet.Kube.Memory.{
  memory, same_key, find, write, create, update, create-ok, update-ok, find-write_self,
  find-write_ne,
}
use postgreslet.Policies.{Upsert, IsUpsert}

same_keys : Discrete Key
same_keys = hlevel ℕ_discrete

changed : Object → (Body → Body) → Result MemoryError Object → Object
changed o f (ok p) = record p { body = f p.body }
changed o f (err _) = record o { body = f o.body }

put_found : Object → Result MemoryError Object → Action (List Object) MemoryError (Unit {0})
put_found new (ok _) = update new
put_found new (err _) = create new

-- A change of the key is refused.
put : Object → Result MemoryError Object → Object → Action (List Object) MemoryError (Unit {0})
put o r new w = elim (same_keys (key_of new) (key_of o)) [
  | yes _ ↦ put_found new r w
  | no _ ↦ (err already_exists, w)
]

unfoldable pub put_or_create : Upsert (List Object) MemoryError
unfolding put put_found changed same_keys update create find write same_key
put_or_create o f w = put o (find (key_of o) w) (changed o f (find (key_of o) w)) w

put_found-write :
    (new : Object) (r : Result MemoryError Object) (w : List Object) {w' : List Object}
    → put_found new r w ≡ (ok tt, w')
    → w' ≡ write new w
unfolding put_found
put_found-write new (ok _) w h = (update-ok new w h).0
put_found-write new (err _) w h = (create-ok new w h).0

put-write :
    (o new : Object) (r : Result MemoryError Object) (w : List Object) {w' : List Object}
    → put o r new w ≡ (ok tt, w')
    → (key_of new ≡ key_of o) × (w' ≡ write new w)
unfolding put
put-write o new r w {w'} h = go (same_keys (key_of new) (key_of o)) h
  where
    go :
        (d : Dec (key_of new ≡ key_of o))
        → ◌≡◌ {A = Result MemoryError (Unit {0}) × List Object}
            (elim d [ yes _ ↦ put_found new r w | no _ ↦ (err already_exists, w) ])
            (ok tt, w')
        → (key_of new ≡ key_of o) × (w' ≡ write new w)
    go (yes same) h' = (same, put_found-write new r w h')
    go (no _) h' = ground arith

put_or_create-write :
    (o : Object) (f : Body → Body) (w : List Object) {w' : List Object}
    → put_or_create o f w ≡ (ok tt, w')
    → (key_of (changed o f (find (key_of o) w)) ≡ key_of o)
      × (w' ≡ write (changed o f (find (key_of o) w)) w)
unfolding put_or_create
put_or_create-write o f w h = put-write o (changed o f (find (key_of o) w)) (find (key_of o) w) w h

written_back :
    (o new : Object) (w w' : List Object)
    → (key_of new ≡ key_of o) × (w' ≡ write new w)
    → find (key_of o) w' ≡ ok new
written_back o new w w' (same, e) = rw (← same, e) (find-write_self new w)

other_stays :
    (o : Object) (f : Body → Body) (k : Key) (w w' : List Object)
    → (key_of (changed o f (find (key_of o) w)) ≡ key_of o)
      × (w' ≡ write (changed o f (find (key_of o) w)) w)
    → key_of o ≢ k
    → find k w' ≡ find k w
other_stays o f k w w' (same, e) apart =
    rw e (find-write_ne (changed o f (find (key_of o) w)) k w (λ here. apart (sym same ∙ here)))

pub put_or_create-IsUpsert : IsUpsert memory put_or_create
unfolding memory changed
put_or_create-IsUpsert = record {
  update-there = λ o p f {w} {w'} done there. (
    record p { body = f p.body },
    written_back o (record p { body = f p.body }) w w'
        (rw there at (put_or_create-write o f w done)),
    refl,
  );
  create-missing = λ o f {e} {w} {w'} done missing. (
    record o { body = f o.body },
    written_back o (record o { body = f o.body }) w w'
        (rw missing at (put_or_create-write o f w done)),
    refl,
  );
  get-other =
      λ o f k {w} {w'} done apart. other_stays o f k w w' (put_or_create-write o f w done) apart;
}
