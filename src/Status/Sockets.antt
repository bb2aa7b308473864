-- ===== src/Status/Sockets.antt =====
-- The sockets that the status of a database names (`Reconcile` of controllers/status_controller.go).
use postgreslet.Prelude.{
  Bool, not, ◌||◌, ◌⊎◌, inl, inr, Bool-cases, Option, none, some, List, [], ◌∷◌, text_eq, ◌≡◌, refl,
  arith, if◌then◌else◌,
}
use postgreslet.Text.{Text}
use postgreslet.Cluster.{Result, ok, err}
use postgreslet.Postgres.Model.{
  Postgres, PostgresStatus, Socket, no_socket, enable_dedicated_svc_lb,
}
use postgreslet.Postgres.Services.{Service}

-- `svc.Spec.LoadBalancerIP` and `svc.Spec.Ports[0].Port`; without a port the program panics.
unfoldable pub first_socket : Service → Option Socket
first_socket svc = elim svc.spec.ports [
  | [] ↦ none
  | port ∷ _ ↦ some (record { ip = svc.spec.load_balancer_ip; port = port.port })
]

-- A service that was found, and one that was found and has exactly one ingress.
abbrev pub fetched : {E : Type 0} → Result E Service → Option Service
fetched (err _) = none
fetched (ok svc) = some svc

one_ingress : Service → Option (List Text) → Option Service
one_ingress svc (some (_ ∷ [])) = some svc
one_ingress svc _ = none

unfoldable pub usable : {E : Type 0} → Result E Service → Option Service
unfolding one_ingress
usable (err _) = none
usable (ok svc) = one_ingress svc svc.ingress

-- The assignments to the fields of the status; `none` stands for a panic.
set_socket : PostgresStatus → Option Service → Option PostgresStatus
set_socket status none = some (record status { socket = no_socket })
set_socket status (some svc) = elim (first_socket svc) [
  | none ↦ none
  | some s ↦ some (record status { socket = s })
]

-- Without a dedicated service: the shared one, and the additional sockets are reset with it.
simple_status : PostgresStatus → Option Service → Option PostgresStatus
simple_status status none = some (record status { socket = no_socket })
simple_status status (some svc) = elim (first_socket svc) [
  | none ↦ none
  | some s ↦ some (record status { socket = s; additional_sockets = [] })
]

-- The dedicated service next to the shared one.
add_socket : Option Service → PostgresStatus → Option PostgresStatus
add_socket none status = some status
add_socket (some svc) status = elim (first_socket svc) [
  | none ↦ none
  | some s ↦ some (record status { additional_sockets = s ∷ [] })
]

both_status : PostgresStatus → Option Service → Option Service → Option PostgresStatus
both_status status shared dedicated = elim (set_socket status shared) [
  | none ↦ none
  | some updated ↦ add_socket dedicated updated
]

unfoldable pub status_of :
    {E : Type 0} → Bool → Postgres → Result E Service → Result E Service → Option PostgresStatus
unfolding set_socket simple_status add_socket both_status
status_of force owner shared dedicated =
    if not (enable_dedicated_svc_lb owner)
    then simple_status owner.status (fetched shared)
    else if force
    then both_status owner.status (fetched shared) (usable dedicated)
    else set_socket owner.status (usable dedicated)

-- The service that clients are to use, if there is one: the shared one where it is forced or the
-- database has no ip of its own, and else the dedicated one, as soon as it has its one ingress.
abbrev pub main_service :
    {E : Type 0} → Bool → Postgres → Result E Service → Result E Service → Option Service
main_service force owner shared dedicated =
    if force || not (enable_dedicated_svc_lb owner) then fetched shared else usable dedicated

-- The socket of a service, and the empty socket where there is no service.
abbrev pub published : Option Service → Option Socket
published none = some no_socket
published (some svc) = first_socket svc

set_socket-published :
    (status status' : PostgresStatus) (svc : Option Service)
    → set_socket status svc ≡ some status'
    → (published svc ≡ some status'.socket)
      × (status'.description ≡ status.description)
      × (status'.child_name ≡ status.child_name)
unfolding set_socket
set_socket-published status status' none h = (ground arith, ground arith, ground arith)
set_socket-published status status' (some svc) h = (ground arith, ground arith, ground arith)

simple_status-published :
    (status status' : PostgresStatus) (svc : Option Service)
    → simple_status status svc ≡ some status'
    → (published svc ≡ some status'.socket)
      × (status'.description ≡ status.description)
      × (status'.child_name ≡ status.child_name)
unfolding simple_status
simple_status-published status status' none h = (ground arith, ground arith, ground arith)
simple_status-published status status' (some svc) h = (ground arith, ground arith, ground arith)

add_socket-published :
    (status status' : PostgresStatus) (svc : Option Service)
    → add_socket svc status ≡ some status'
    → (status'.socket ≡ status.socket)
      × (status'.description ≡ status.description)
      × (status'.child_name ≡ status.child_name)
unfolding add_socket
add_socket-published status status' none h = (ground arith, ground arith, ground arith)
add_socket-published status status' (some svc) h = (ground arith, ground arith, ground arith)

Option-cases : {A : Type 0} (o : Option A) → (o ≡ none) ⊎ ((a : A) × (o ≡ some a))
Option-cases none = inl refl
Option-cases (some a) = inr (a, refl)

none_refused : {status' : PostgresStatus} → ◌≡◌ {A = Option PostgresStatus} none (some status') → ⊥
none_refused h = ground arith

both_status-published :
    (status status' : PostgresStatus) (shared dedicated : Option Service)
    → both_status status shared dedicated ≡ some status'
    → (published shared ≡ some status'.socket)
      × (status'.description ≡ status.description)
      × (status'.child_name ≡ status.child_name)
unfolding both_status
both_status-published status status' shared dedicated h =
    elim (Option-cases (set_socket status shared)) [
      | inl e ↦ absurd (none_refused (rw (e, both_status) at h))
      | inr (updated, e) ↦
          let first = set_socket-published status updated shared e in
          let second = add_socket-published updated status' dedicated (rw (e, both_status) at h) in
          (ground arith, ground arith, ground arith)
    ]

-- Where the sockets are set, the first one is that of the service for the clients, and the rest
-- of the status stays.
pub status_of-published :
    {E : Type 0} (force : Bool) (owner : Postgres) (shared dedicated : Result E Service)
    (status : PostgresStatus)
    → status_of force owner shared dedicated ≡ some status
    → (published (main_service force owner shared dedicated) ≡ some status.socket)
      × (status.description ≡ owner.status.description)
      × (status.child_name ≡ owner.status.child_name)
unfolding status_of
status_of-published force owner shared dedicated status h =
    elim (Bool-cases (enable_dedicated_svc_lb owner)) [
      | inr off ↦ elim (Bool-cases force) [
        | inl on ↦
            rw (off, on)
              (simple_status-published owner.status status (fetched shared) (rw off at h))
        | inr unforced ↦
            rw (off, unforced)
              (simple_status-published owner.status status (fetched shared) (rw off at h))
      ]
      | inl own ↦ elim (Bool-cases force) [
        | inl on ↦
            rw (own, on)
              (both_status-published owner.status status (fetched shared) (usable dedicated)
                (rw (own, on) at h))
        | inr unforced ↦
            rw (own, unforced)
              (set_socket-published owner.status status (usable dedicated)
                (rw (own, unforced) at h))
      ]
    ]
