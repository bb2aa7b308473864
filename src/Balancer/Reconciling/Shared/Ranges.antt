-- ===== src/Balancer/Reconciling/Shared/Ranges.antt =====
-- Who may reach a database through the service with the shared ip.
use mathlib.Core.List.{Memᴰ}
use mathlib.Core.List.Memᴰ
use postgreslet.Prelude.{
  ℕ, ◌≡◌, ◌↔◌, refl, ◌∙◌, Bool, true, false, none, some, List, [], ◌∷◌, ◌++◌, arith, text_eq,
  Bool-cases, inl, inr, ◌⊎◌, if◌then◌else◌,
}
use postgreslet.Text.{Text, codes}
use postgreslet.Cluster.{ok, Client, Result-cases}
use postgreslet.Postgres.Model.{Postgres, source_ranges, enable_shared_svc_lb}
use postgreslet.Postgres.Names.{to_shared_svc_lb_namespaced_name}
use postgreslet.Postgres.Services.{Service, or_block, allowed_source_ranges, to_shared_svc_lb}
use postgreslet.Balancer.Socket.{Options}
use postgreslet.Balancer.{
  create_or_update_shared_svc_lb, updated_shared, shared_svc, keep_ranges, lb_ip_to_use,
}
use postgreslet.Balancer.Reconciling.{IsServiceClient}
use postgreslet.Balancer.Reconciling.Shared.{shared_key, created, updating, creation, refused}

-- The ranges of the access list, none if it is not set.
abbrev pub access_ranges : Postgres → List Text
access_ranges p = elim (source_ranges p) [ none ↦ [] | some rs ↦ rs ]

-- The documented reading of a service: without ranges it is open to everybody.
abbrev pub LetsIn : Service → Text → Type 0
LetsIn svc range =
    (svc.spec.load_balancer_source_ranges ≡ []) ⊎ Memᴰ range svc.spec.load_balancer_source_ranges

-- Who is meant to be let in.
pub data IsGuest (options : Options) (p : Postgres) (range : Text) : Type 0 where
  anybody : options.enable_lb_source_ranges ≡ false → IsGuest options p range
  client_of_tenant : Memᴰ range (access_ranges p) → IsGuest options p range
  standby_cluster : Memᴰ range options.standby_clusters_source_ranges → IsGuest options p range
  -- The range that matches no client.
  nobody :
      access_ranges p ≡ []
      → options.standby_clusters_source_ranges ≡ []
      → range ≡ codes "255.255.255.255/32"
      → IsGuest options p range

append_empty : (xs ys : List Text) → xs ++ ys ≡ [] → (xs ≡ []) × (ys ≡ [])
append_empty [] ys e = (refl, e)
append_empty (x ∷ xs) ys e = ground arith

if_on : (test : Bool) (ranges : List Text) → test ≡ true → (if test then ranges else []) ≡ ranges
if_on test ranges e = ground arith

if_off : (test : Bool) (ranges : List Text) → test ≡ false → (if test then ranges else []) ≡ []
if_off test ranges e = ground arith

module _ (options : Options) (p : Postgres) (range : Text) where
  abbrev standby : List Text
  standby = options.standby_clusters_source_ranges

  abbrev IsListed : List Text → Type 0
  IsListed ranges = (ranges ≡ []) ⊎ Memᴰ range ranges

  listed-IsGuest :
      (ranges : List Text)
      → access_ranges p ++ standby ≡ ranges
      → IsListed (or_block ranges)
      → IsGuest options p range
  listed-IsGuest [] e (inl empty) = ground arith
  listed-IsGuest [] e (inr (Memᴰ.head same)) =
      let (own, others) = append_empty (access_ranges p) standby e in nobody own others same
  listed-IsGuest [] e (inr (Memᴰ.tail there)) = elim there [ ]
  listed-IsGuest (r ∷ rs) e (inl empty) = ground arith
  listed-IsGuest (r ∷ rs) e (inr there) = elim (Memᴰ.append_cases (access_ranges p) (rw e there)) [
    | inl own ↦ client_of_tenant own
    | inr other ↦ standby_cluster other
  ]

  guest-IsListed :
      (ranges : List Text)
      → access_ranges p ++ standby ≡ ranges
      → options.enable_lb_source_ranges ≡ true
      → IsGuest options p range
      → IsListed (or_block ranges)
  guest-IsListed ranges e on (anybody off) = ground arith
  guest-IsListed [] e on (client_of_tenant there) =
      let none_there = (append_empty (access_ranges p) standby e).0 in
      elim (rw none_there at there) [ ]
  guest-IsListed (r ∷ rs) e on (client_of_tenant there) =
      inr (rw e at (Memᴰ.append_left standby there))
  guest-IsListed [] e on (standby_cluster there) =
      let none_there = (append_empty (access_ranges p) standby e).1 in
      elim (rw none_there at there) [ ]
  guest-IsListed (r ∷ rs) e on (standby_cluster there) =
      inr (rw e at (Memᴰ.append_right (access_ranges p) there))
  guest-IsListed [] e on (nobody own others same) = inr (Memᴰ.head same)
  guest-IsListed (r ∷ rs) e on (nobody own others same) = ground arith

  -- A service with these ranges lets in the guests.
  ranged :
      (svc : Service)
      → svc.spec.load_balancer_source_ranges
        ≡ (if options.enable_lb_source_ranges then allowed_source_ranges p standby else [])
      → LetsIn svc range ↔ IsGuest options p range
  unfolding allowed_source_ranges
  ranged svc e = elim (Bool-cases options.enable_lb_source_ranges) [
    | inl on ↦
        rw (e ∙ if_on options.enable_lb_source_ranges (or_block (access_ranges p ++ standby)) on) (
          listed-IsGuest (access_ranges p ++ standby) refl,
          guest-IsListed (access_ranges p ++ standby) refl on,
        )
    | inr off ↦
        let empty =
          e ∙ if_off options.enable_lb_source_ranges (or_block (access_ranges p ++ standby)) off in
        (λ _. anybody off, λ _. inl empty)
  ]

-- The ranges of a service, kept or dropped.
kept :
    (test : Bool) (svc : Service)
    → (λ (t : Service). t.spec.load_balancer_source_ranges)
        (if test
          then svc
          else record svc { spec = record svc.spec { load_balancer_source_ranges = [] } })
      ≡ (if test then svc.spec.load_balancer_source_ranges else [])
kept true svc = refl
kept false svc = refl

module _ {W E : Type 0} (client : Client W E Service) (lawful : IsServiceClient client)
    (options : Options) (p : Postgres) where
  created-ranges :
      (ip : Text) (port : ℕ)
      → (created client lawful options p ip port).spec.load_balancer_source_ranges ≡ (
          if options.enable_lb_source_ranges
          then allowed_source_ranges p options.standby_clusters_source_ranges
          else [])
  unfolding keep_ranges shared_svc to_shared_svc_lb
  created-ranges ip port =
      kept options.enable_lb_source_ranges
        (shared_svc client options p (lb_ip_to_use client options ip) port)

  updated-ranges :
      (svc : Service)
      → (updated_shared client options p svc).spec.load_balancer_source_ranges ≡ (
          if options.enable_lb_source_ranges
          then allowed_source_ranges p options.standby_clusters_source_ranges
          else [])
  unfolding updated_shared shared_svc to_shared_svc_lb
  updated-ranges svc = refl

  -- Over a lawful client: where the shared service is enabled, a step that succeeds leaves the
  -- service there, whether it creates or updates it, and by the documented reading it lets in
  -- exactly these: where source ranges are switched off, everybody; else the ranges of the access
  -- list and those of the standby clusters; and if there are none, only the range that matches no
  -- client.
  pub shared_svc_lb-LetsIn :
      (w : W) {w' : W}
      → enable_shared_svc_lb p options.enable_force_shared_ip ≡ true
      → create_or_update_shared_svc_lb client options p w ≡ (ok tt, w')
      → (svc : Service) × (client.get (to_shared_svc_lb_namespaced_name p) w' ≡ ok svc)
        × ((range : Text) → LetsIn svc range ↔ IsGuest options p range)
  shared_svc_lb-LetsIn w enabled done =
      elim (Result-cases (client.get (shared_key client lawful options p) w)) [
        | inl (svc, there) ↦
            let (updated, key) = updating client lawful options p svc w enabled there done in
            let svc' = updated_shared client options p svc in
            (
              svc',
              rw key at (lawful.laws.get-update_self svc' updated),
              λ range. ranged options p range svc' (updated-ranges svc),
            )
        | inr (e, missing) ↦ elim (Bool-cases (client.is_not_found e)) [
          | inl not_found ↦
              let (ip, port, _, _, there) =
                creation client lawful options p w e enabled missing not_found done in
              (
                created client lawful options p ip port,
                there,
                λ range.
                    ranged options p range (created client lawful options p ip port)
                      (created-ranges ip port),
              )
          | inr other ↦ absurd (refused client lawful options p w e enabled missing other done)
        ]
      ]
