-- ===== src/Tests/Policies.antt =====
-- The network policies over a cluster in memory.
use mathlib.Core.List.{Memᴰ}
use postgreslet.Prelude.{
  ◌≡◌, refl, Option, none, some, List, [], ◌∷◌, arith, text_eq, nat_eq, ◌=?◌, if◌then◌else◌,
}
use postgreslet.Text.{Text, codes, keep_alnum, to_lower}
use postgreslet.Cluster.{ok, err}
use postgreslet.Kube.{Object, key_of, Peer, number}
use postgreslet.Kube.Memory.{memory}
use postgreslet.Kube.Memory.Upserting.{put_or_create, put_or_create-IsUpsert}
use postgreslet.Postgres.Model.{Postgres, source_ranges}
use postgreslet.Postgres.Names.{
  generate_team_id, generate_database_name, to_peripheral_resource_name,
  to_standby_cluster_ingress_cwnp_name,
}
use postgreslet.Policies.{tcp}
use postgreslet.Policies.Firewall.{
  unparsed, to_cwnp, to_standby_cluster_ingress_cwnp, create_or_update_ingress_cwnp,
}
use postgreslet.Policies.Firewall.Ranges.{sources_of, Admits}
use postgreslet.Policies.Firewall.Access.{
  HasIngress, create_or_update_ingress_cwnp-Admits, create_or_update_ingress_cwnp-unparsed,
}
use postgreslet.Tests.Data.{primary_shop, spec, with_spec}

-- Every text but one is a prefix.
abbrev parse_prefix : Text → Option Text
parse_prefix s = if s =? codes "nonsense" then none else some s

abbrev deployed : List Object
deployed =
    (create_or_update_ingress_cwnp parse_prefix put_or_create (codes "firewall")
      (codes "10.2.0.0/16" ∷ []) primary_shop 32005 []).1

deploy_succeeds :
    create_or_update_ingress_cwnp parse_prefix put_or_create
      (codes "firewall")
      (codes "10.2.0.0/16" ∷ [])
      primary_shop
      32005
      []
    ≡ (ok tt, deployed)
unfolding create_or_update_ingress_cwnp to_cwnp to_standby_cluster_ingress_cwnp put_or_create
    text_eq nat_eq key_of generate_team_id generate_database_name to_peripheral_resource_name
    to_standby_cluster_ingress_cwnp_name keep_alnum to_lower
deploy_succeeds = refl

create_or_update_ingress_cwnp-Admits_example :
    (peers : List Peer) × Admits parse_prefix (source_ranges primary_shop) (sources_of peers)
    × HasIngress memory put_or_create put_or_create-IsUpsert parse_prefix
        (codes "firewall")
        (to_peripheral_resource_name primary_shop)
        (record { ports = tcp (number 32005) ∷ []; peers = peers } ∷ [])
        deployed
unfolding memory
create_or_update_ingress_cwnp-Admits_example =
    create_or_update_ingress_cwnp-Admits memory put_or_create put_or_create-IsUpsert parse_prefix
      (codes "firewall") (codes "10.2.0.0/16" ∷ []) primary_shop 32005 [] deployed tt
      (λ o there. ground arith) deploy_succeeds

abbrev careless : Postgres
careless = with_spec (record spec {
  access_list =
      some (record { source_ranges = some (codes "10.1.0.0/24" ∷ codes "nonsense" ∷ []) });
})

create_or_update_ingress_cwnp-unparsed_example :
    (first : Text) × Memᴰ first (codes "10.1.0.0/24" ∷ codes "nonsense" ∷ [])
    × (parse_prefix first ≡ none)
    × (create_or_update_ingress_cwnp parse_prefix put_or_create
          (codes "firewall")
          []
          careless
          32005
          deployed
        ≡ (err (unparsed first), deployed))
unfolding text_eq
create_or_update_ingress_cwnp-unparsed_example =
    create_or_update_ingress_cwnp-unparsed memory put_or_create put_or_create-IsUpsert parse_prefix
      (codes "firewall") [] careless 32005 deployed (codes "10.1.0.0/24" ∷ codes "nonsense" ∷ [])
      (codes "nonsense") refl (Memᴰ.tail (Memᴰ.head refl)) refl

-- The split of an address whose port is 2380.
abbrev split : Text → Option (Text × Text)
split host = some (host, codes "2380")
