-- ===== src/Postgres/Services/Selection.antt =====
-- Which pods the services of a database send clients to.
use postgreslet.Prelude.{
  ℕ, All, ◌≡◌, ◌≢◌, ◌↔◌, refl, ◌∙◌, sym, Bool, true, false, some, List, [], ◌∷◌, arith, ◌=?◌,
  text_eq, Bool-cases, inl, inr, if◌then◌else◌,
}
use postgreslet.Text.{Text, codes, to_lower}
use postgreslet.Dict.{Dict, lookup, insert, lookup-insert, lookup-cons, lookup-nil}
use postgreslet.Postgres.Model.{
  Postgres, is_replication_primary_or_standalone, disable_load_balancers,
}
use postgreslet.Postgres.Names.{generate_team_id, to_peripheral_resource_name}
use postgreslet.Postgres.Services.{
  Service, application_label_name, cluster_name_label_name, team_label_name, spilo_role_label_name,
  selector_disable_value, disable_selector, shared_selector, dedicated_selector, to_shared_svc_lb,
  to_dedicated_svc_lb, base_selector, select_role,
}

-- How Kubernetes reads a selector: every entry is a label of the pod.
abbrev pub Selects : Service → Dict Text Text → Type 0
Selects svc labels = (k v : Text) → lookup k svc.spec.selector ≡ some v → lookup k labels ≡ some v

lookup-disable_selector :
    (p : Postgres) (selector : Dict Text Text) (k : Text)
    → lookup k (disable_selector p selector) ≡ (
        if disable_load_balancers p
        then (if cluster_name_label_name =? k
            then some selector_disable_value
            else lookup k selector)
        else lookup k selector)
unfolding disable_selector
lookup-disable_selector p selector k = elim (Bool-cases (disable_load_balancers p)) [
  | inl e ↦ rw e (rw lookup-insert)
  | inr e ↦ rw e
]

cluster_name_of_disabled :
    (p : Postgres) (selector : Dict Text Text)
    → disable_load_balancers p ≡ true
    → lookup cluster_name_label_name (disable_selector p selector) ≡ some selector_disable_value
cluster_name_of_disabled p selector off = rw lookup-disable_selector (ground arith)

-- The name of a cluster is not the value that switches a service off.
to_peripheral_resource_name-ne_disabled :
    (p : Postgres) → to_peripheral_resource_name p ≢ selector_disable_value
unfolding to_peripheral_resource_name generate_team_id to_lower
to_peripheral_resource_name-ne_disabled p e = ground arith

-- Where the load balancers are disabled, neither service selects a pod that has the name of the
-- cluster as its label, as the pods of the database have.
pub svc_lb-disabled :
    (p : Postgres) (ip : Text) (port : ℕ) (leader legacy shared : Bool) (standby : List Text)
    (labels : Dict Text Text)
    → disable_load_balancers p ≡ true
    → lookup cluster_name_label_name labels ≡ some (to_peripheral_resource_name p)
    → ¬ Selects (to_shared_svc_lb p ip port leader legacy standby) labels
      × ¬ Selects (to_dedicated_svc_lb p ip port standby shared) labels
unfolding to_shared_svc_lb to_dedicated_svc_lb
svc_lb-disabled p ip port leader legacy shared standby labels off named =
    let wrong = λ (selected : some (to_peripheral_resource_name p) ≡ some selector_disable_value).
      to_peripheral_resource_name-ne_disabled p (cc) in
    (
      λ h. wrong (
          sym named
          ∙ h cluster_name_label_name selector_disable_value (cluster_name_of_disabled p _ off)),
      λ h. wrong (
          sym named
          ∙ h cluster_name_label_name selector_disable_value (cluster_name_of_disabled p _ off)),
    )

-- The labels by which a database's pods of a role are known.
abbrev pub IsPodOf : Postgres → Text → Dict Text Text → Type 0
IsPodOf p role labels =
    (lookup application_label_name labels ≡ some (codes "spilo"))
    × (lookup cluster_name_label_name labels ≡ some (to_peripheral_resource_name p))
    × (lookup team_label_name labels ≡ some (generate_team_id p))
    × (lookup spilo_role_label_name labels ≡ some role)

abbrev role_selector : Postgres → Text → Dict Text Text
role_selector p role =
    (application_label_name, codes "spilo")
    ∷ (cluster_name_label_name, to_peripheral_resource_name p)
    ∷ (team_label_name, generate_team_id p)
    ∷ (spilo_role_label_name, role)
    ∷ []

select_role-eq :
    (p : Postgres) (role : Text) → select_role role (base_selector p) ≡ role_selector p role
unfolding select_role base_selector insert text_eq
select_role-eq p role = refl

abbrev SelectsBy : Dict Text Text → Dict Text Text → Type 0
SelectsBy selector labels = (k v : Text) → lookup k selector ≡ some v → lookup k labels ≡ some v

-- A selector all of whose entries are labels of the pod selects it.
selects_of_All :
    (selector labels : Dict Text Text)
    → All (λ (e : Text × Text). lookup e.0 labels ≡ some e.1) selector
    → SelectsBy selector labels
selects_of_All [] labels h k v found = ground (arith, lookup-nil {V = Text} k)
selects_of_All ((j, w) ∷ selector) labels (p, ps) k v found =
    ground (arith, lookup-cons k j w selector, selects_of_All selector labels ps k v)

role_selector_iff :
    (p : Postgres) (role : Text) (labels : Dict Text Text)
    → SelectsBy (role_selector p role) labels ↔ IsPodOf p role labels
unfolding lookup text_eq
role_selector_iff p role labels = (
  λ h. (h _ _ refl, h _ _ refl, h _ _ refl, h _ _ refl),
  λ h. selects_of_All (role_selector p role) labels (h.0, (h.1, (h.2, (h.3, tt)))),
)

enabled-disable_selector :
    (p : Postgres) (selector : Dict Text Text)
    → disable_load_balancers p ≡ false
    → disable_selector p selector ≡ selector
unfolding disable_selector
enabled-disable_selector p selector on = rw on

primary-selectors :
    (p : Postgres) (leader legacy : Bool)
    → disable_load_balancers p ≡ false
    → is_replication_primary_or_standalone p ≡ true
    → (shared_selector p leader legacy ≡ role_selector p (codes "master"))
      × (dedicated_selector p ≡ role_selector p (codes "master"))
unfolding shared_selector dedicated_selector
primary-selectors p leader legacy on primary = (
  rw (enabled-disable_selector p _ on, primary) (select_role-eq p (codes "master")),
  rw (enabled-disable_selector p _ on, primary) (select_role-eq p (codes "master")),
)

-- Where they are enabled, both services of a primary or standalone database select exactly the pods
-- of the database that have the role of the master.
pub svc_lb-Selects_master :
    (p : Postgres) (ip : Text) (port : ℕ) (leader legacy shared : Bool) (standby : List Text)
    (labels : Dict Text Text)
    → disable_load_balancers p ≡ false
    → is_replication_primary_or_standalone p ≡ true
    → (Selects (to_shared_svc_lb p ip port leader legacy standby) labels
        ↔ IsPodOf p (codes "master") labels)
      × (Selects (to_dedicated_svc_lb p ip port standby shared) labels
          ↔ IsPodOf p (codes "master") labels)
unfolding to_shared_svc_lb to_dedicated_svc_lb
svc_lb-Selects_master p ip port leader legacy shared standby labels on primary =
    let master = role_selector_iff p (codes "master") labels in
    let selectors = primary-selectors p leader legacy on primary in
    (rw selectors.0 master, rw selectors.1 master)
