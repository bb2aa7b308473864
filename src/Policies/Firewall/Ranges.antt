-- ===== src/Policies/Firewall/Ranges.antt =====
-- The ranges of an access list and the blocks they become.
use mathlib.Core.List.{Memᴰ, append-nil, append_assoc}
use postgreslet.Prelude.{
  ◌≡◌, refl, sym, ap, ◌∙◌, ℕ, Option, none, some, List, [], ◌∷◌, ◌++◌, map, arith,
}
use postgreslet.Text.{Text}
use postgreslet.Cluster.{Result, ok, err}
use postgreslet.Kube.{Peer, block, PolicyPort, number}
use postgreslet.Postgres.Model.{Postgres, source_ranges}
use postgreslet.Postgres.Names.{to_peripheral_resource_name}
use postgreslet.Policies.{tcp}
use postgreslet.Policies.Firewall.{
  PolicyError, unparsed, FirewallPolicy, one_rule, to_blocks, with_blocks, to_cwnp,
}

pub ok_injective : {E A : Type 0} {a b : A} → ◌≡◌ {A = Result E A} (ok a) (ok b) → a ≡ b
ok_injective e = cc

-- Who may connect by a rule of the firewall, as the definition of these policies documents it: a
-- rule without sources matches all of them.
pub data Sources : Type 0 where
  all_sources : Sources
  only : List Peer → Sources

abbrev pub sources_of : List Peer → Sources
sources_of [] = all_sources
sources_of (peer ∷ peers) = only (peer ∷ peers)

module _ (parse_prefix : Text → Option Text) where
  -- The prefixes that the ranges are, one by one.
  abbrev pub Parsed : List Text → List Text → Type 0
  Parsed [] [] = Unit
  Parsed [] (_ ∷ _) = ⊥
  Parsed (_ ∷ _) [] = ⊥
  Parsed (src ∷ rest) (cidr ∷ cidrs) = (parse_prefix src ≡ some cidr) × Parsed rest cidrs

  to_blocks-Parsed :
      {E : Type 0} (ranges : List Text) (blocks peers : List Peer)
      → to_blocks {E = E} parse_prefix blocks ranges ≡ ok peers
      → (cidrs : List Text) × Parsed ranges cidrs × (peers ≡ blocks ++ map block cidrs)
  unfolding to_blocks
  to_blocks-Parsed [] blocks peers h = ([], tt, sym (ok_injective h) ∙ sym (append-nil blocks))
  to_blocks-Parsed {E} (src ∷ rest) blocks peers h =
      go (parse_prefix src) refl h
        (λ cidr. to_blocks-Parsed {E = E} rest (blocks ++ block cidr ∷ []) peers)
    where
      go :
          (parsed : Option Text)
          → parse_prefix src ≡ parsed
          → elim parsed [
            | none ↦ err (unparsed src)
            | some cidr ↦ to_blocks {E = E} parse_prefix (blocks ++ block cidr ∷ []) rest
          ]
            ≡ ok peers
          → ((cidr : Text)
              → to_blocks {E = E} parse_prefix (blocks ++ block cidr ∷ []) rest ≡ ok peers
              → (cidrs : List Text) × Parsed rest cidrs
                × (peers ≡ blocks ++ block cidr ∷ [] ++ map block cidrs))
          → (cidrs : List Text) × Parsed (src ∷ rest) cidrs × (peers ≡ blocks ++ map block cidrs)
      go none e h' later = ground arith
      go (some cidr) e h' later =
          let (cidrs, parsed, same) = later cidr h' in
          (
            cidr ∷ cidrs,
            (e, parsed),
            same ∙ append_assoc blocks (block cidr ∷ []) (map block cidrs),
          )

  -- Who is let in by an access list. Without one it is an empty block; an access list that is set
  -- and has ranges lets in exactly the prefixes that they are, in their order; one that is set and
  -- empty lets in everybody, since its rule lists nobody.
  abbrev pub Admits : Option (List Text) → Sources → Type 0
  Admits none sources = sources ≡ only (block [] ∷ [])
  Admits (some []) sources = sources ≡ all_sources
  Admits (some (src ∷ rest)) sources =
      (cidrs : List Text) × Parsed (src ∷ rest) cidrs × (sources ≡ only (map block cidrs))

  sources-Parsed :
      (ranges : List Text) (peers : List Peer)
      → (cidrs : List Text) × Parsed ranges cidrs × (peers ≡ map block cidrs)
      → Admits (some ranges) (sources_of peers)
  sources-Parsed [] peers ([], _, same) = rw same
  sources-Parsed [] peers (_ ∷ _, wrong, _) = elim wrong [ ]
  sources-Parsed (src ∷ rest) peers ([], wrong, _) = elim wrong [ ]
  sources-Parsed (src ∷ rest) peers (cidr ∷ cidrs, parsed, same) =
      (cidr ∷ cidrs, parsed, rw same refl)

  with_blocks-ok :
      {E : Type 0} (name : Text) (ports : List PolicyPort) (r : Result (PolicyError E) (List Peer))
      (policy : FirewallPolicy)
      → with_blocks {E = E} parse_prefix name ports r ≡ ok policy
      → (peers : List Peer) × (r ≡ ok peers) × (policy ≡ one_rule name ports peers)
  with_blocks-ok name ports (ok peers) policy h = (peers, refl, sym (ok_injective h))
  with_blocks-ok name ports (err e) policy h = ground arith

  pub to_cwnp-Admits :
      {E : Type 0} (p : Postgres) (port : ℕ) (policy : FirewallPolicy)
      → to_cwnp {E = E} parse_prefix p port ≡ ok policy
      → (peers : List Peer) × (policy
          ≡ one_rule (to_peripheral_resource_name p) (tcp (number port) ∷ []) peers)
        × Admits (source_ranges p) (sources_of peers)
  unfolding to_cwnp
  to_cwnp-Admits {E} p port policy h = go (source_ranges p) h
    where
      go :
          (ranges : Option (List Text))
          → with_blocks {E = E} parse_prefix
              (to_peripheral_resource_name p)
              (tcp (number port) ∷ [])
              (elim ranges [
                | some rs ↦ to_blocks {E = E} parse_prefix [] rs
                | none ↦ ok (block [] ∷ [])
              ])
            ≡ ok policy
          → (peers : List Peer) × (policy
              ≡ one_rule (to_peripheral_resource_name p) (tcp (number port) ∷ []) peers)
            × Admits ranges (sources_of peers)
      go none h' =
          let (peers, e, same) =
            with_blocks-ok {E = E} (to_peripheral_resource_name p) (tcp (number port) ∷ [])
              (ok (block [] ∷ [])) policy h' in
          (peers, same, ap sources_of (sym (ok_injective e)))
      go (some rs) h' =
          let (peers, e, same) =
            with_blocks-ok {E = E} (to_peripheral_resource_name p) (tcp (number port) ∷ [])
              (to_blocks {E = E} parse_prefix [] rs) policy h' in
          (peers, same, sources-Parsed rs peers (to_blocks-Parsed {E = E} rs [] peers e))

  to_blocks-unparsed :
      {E : Type 0} (ranges : List Text) (blocks : List Peer) (src : Text)
      → Memᴰ src ranges
      → parse_prefix src ≡ none
      → (first : Text) × Memᴰ first ranges
        × (parse_prefix first ≡ none)
        × (to_blocks {E = E} parse_prefix blocks ranges ≡ err (unparsed first))
  unfolding to_blocks
  to_blocks-unparsed [] blocks src there bad = elim there [ ]
  to_blocks-unparsed {E} (r ∷ rest) blocks src there bad =
      go (parse_prefix r) refl there
        (λ cidr later. to_blocks-unparsed {E = E} rest (blocks ++ block cidr ∷ []) src later bad)
    where
      go :
          (parsed : Option Text)
          → parse_prefix r ≡ parsed
          → Memᴰ src (r ∷ rest)
          → ((cidr : Text)
              → Memᴰ src rest
              → (first : Text) × Memᴰ first rest
                × (parse_prefix first ≡ none)
                × (to_blocks {E = E} parse_prefix (blocks ++ block cidr ∷ []) rest
                    ≡ err (unparsed first)))
          → (first : Text) × Memᴰ first (r ∷ rest)
            × (parse_prefix first ≡ none)
            × (elim parsed [
              | none ↦ err (unparsed r)
              | some cidr ↦ to_blocks {E = E} parse_prefix (blocks ++ block cidr ∷ []) rest
            ]
                ≡ err (unparsed first))
      go none e there' later = (r, Memᴰ.head refl, e, refl)
      go (some cidr) e (Memᴰ.head same) later = ground arith
      go (some cidr) e (Memᴰ.tail there') later =
          let (first, member, wrong, failed) = later cidr there' in
          (first, Memᴰ.tail member, wrong, failed)

  pub to_cwnp-unparsed :
      {E : Type 0} (p : Postgres) (port : ℕ) (ranges : List Text) (src : Text)
      → source_ranges p ≡ some ranges
      → Memᴰ src ranges
      → parse_prefix src ≡ none
      → (first : Text) × Memᴰ first ranges
        × (parse_prefix first ≡ none)
        × (to_cwnp {E = E} parse_prefix p port ≡ err (unparsed first))
  unfolding to_cwnp
  to_cwnp-unparsed {E} p port ranges src given there bad =
      let (first, member, wrong, e) = to_blocks-unparsed {E = E} ranges [] src there bad in
      (first, member, wrong, rw (given, e) refl)
