-- ===== src/Tests/Services.antt =====
-- The services that are derived from a database.
use postgreslet.Prelude.{refl, ◌↔◌, true, false, [], ◌∷◌, text_eq}
use postgreslet.Text.{Text, codes}
use postgreslet.Dict.{Dict, lookup}
use postgreslet.Postgres.Model.{
  Postgres, is_replication_primary_or_standalone, disable_load_balancers,
}
use postgreslet.Postgres.Names.{to_peripheral_resource_name, generate_team_id}
use postgreslet.Postgres.Services.{to_shared_svc_lb, to_dedicated_svc_lb}
use postgreslet.Postgres.Services.Selection.{
  Selects, IsPodOf, svc_lb-disabled, svc_lb-Selects_master,
}
use postgreslet.Tests.Data.{shop, disabled_shop}

abbrev labels_of_pod : Postgres → Dict Text Text
labels_of_pod p =
    (codes "application", codes "spilo")
    ∷ (codes "cluster-name", to_peripheral_resource_name p)
    ∷ (codes "team", generate_team_id p)
    ∷ (codes "spilo-role", codes "master")
    ∷ []

svc_lb-disabled_example :
    ¬ Selects (to_shared_svc_lb disabled_shop [] 32000 true false []) (labels_of_pod disabled_shop)
    × ¬ Selects (to_dedicated_svc_lb disabled_shop [] 32000 [] true) (labels_of_pod disabled_shop)
unfolding disable_load_balancers lookup text_eq
svc_lb-disabled_example =
    svc_lb-disabled disabled_shop [] 32000 true false true [] (labels_of_pod disabled_shop) refl
      refl

svc_lb-Selects_master_example :
    (Selects (to_shared_svc_lb shop [] 32000 true false []) (labels_of_pod shop)
      ↔ IsPodOf shop (codes "master") (labels_of_pod shop))
    × (Selects (to_dedicated_svc_lb shop [] 32000 [] true) (labels_of_pod shop)
        ↔ IsPodOf shop (codes "master") (labels_of_pod shop))
unfolding disable_load_balancers is_replication_primary_or_standalone
svc_lb-Selects_master_example =
    svc_lb-Selects_master shop [] 32000 true false true [] (labels_of_pod shop) refl refl
