-- ===== src/Tests/Names.antt =====
-- Names, label values and finalizers.
use postgreslet.Prelude.{ℕ, ◌≡◌, ◌≤◌, refl, ◌++◌, arith, text_eq, take}
use postgreslet.Text.{codes, keep_alnum, to_lower}
use postgreslet.Postgres.Names.{
  generate_team_id, generate_database_name, to_peripheral_resource_name, to_shared_svc_lb_name,
  to_dedicated_svc_lb_name, to_peripheral_resource_namespace,
}
use postgreslet.Postgres.Names.Bounds.{
  IsDnsLabel, IsResourceName, svc_lb_names-IsDnsLabel, generate_database_name-uid, description_part,
}
use postgreslet.Tests.Data.{shop}

name_of_shop : to_shared_svc_lb_name shop ≡ codes "pgacmeco-myshopdb3f9c77ab-external"
unfolding to_shared_svc_lb_name to_peripheral_resource_name generate_team_id generate_database_name
    keep_alnum to_lower
name_of_shop = refl

namespace_of_shop : to_peripheral_resource_namespace shop ≡ codes "b621eb994888-3f9c77ab"
unfolding to_peripheral_resource_namespace keep_alnum
namespace_of_shop = refl

shop-IsResourceName : IsResourceName shop.name
shop-IsResourceName = record { chars = ground arith; starts = refl }

svc_lb_names-IsDnsLabel_example :
    IsDnsLabel (to_shared_svc_lb_name shop) × IsDnsLabel (to_dedicated_svc_lb_name shop)
svc_lb_names-IsDnsLabel_example = svc_lb_names-IsDnsLabel shop shop-IsResourceName

generate_database_name-uid_example :
    (n : ℕ) × (5 ≤ n)
    × (generate_database_name shop ≡ description_part shop ++ take n (keep_alnum shop.name))
generate_database_name-uid_example = generate_database_name-uid shop
