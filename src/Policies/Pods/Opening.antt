-- ===== src/Policies/Pods/Opening.antt =====
-- What the rules of a policy for outgoing traffic permit, by their documented reading.
use mathlib.Core.List.{Memᴰ}
use postgreslet.Prelude.{◌≡◌, refl, List, [], ◌∷◌, ◌++◌, ◌⊎◌, inl, inr, arith, text_eq}
use postgreslet.Text.{Text, codes}
use postgreslet.Kube.{Peer, block, PolicyPort, PortRef, TrafficRule, PolicySpec}
use postgreslet.Policies.{tcp}
use postgreslet.Policies.Pods.{to_block, to_pods}

-- A rule without peers is about every destination, one without ports about every port.
abbrev pub Opens : TrafficRule → Peer → PolicyPort → Type 0
Opens rule peer port =
    ((rule.peers ≡ []) ⊎ Memᴰ peer rule.peers) × ((rule.ports ≡ []) ⊎ Memᴰ port rule.ports)

-- Some rule opens the port of the destination.
abbrev pub OpensOne : List TrafficRule → Peer → PolicyPort → Type 0
OpensOne rules peer port = (rule : TrafficRule) × Memᴰ rule rules × Opens rule peer port

-- What a policy for outgoing traffic permits. One that is not about outgoing traffic permits all.
abbrev pub Permits : PolicySpec → Peer → PolicyPort → Type 0
Permits spec peer port =
    (¬ Memᴰ (codes "Egress") spec.policy_types) ⊎ OpensOne spec.egress peer port

pub OpensOne-append :
    (xs ys : List TrafficRule) (peer : Peer) (port : PolicyPort)
    → OpensOne (xs ++ ys) peer port
    → OpensOne xs peer port ⊎ OpensOne ys peer port
OpensOne-append [] ys peer port opens = inr opens
OpensOne-append (x ∷ xs) ys peer port (rule, Memᴰ.head e, opens) = inl (rule, Memᴰ.head e, opens)
OpensOne-append (x ∷ xs) ys peer port (rule, Memᴰ.tail there, opens) =
    elim (OpensOne-append xs ys peer port (rule, there, opens)) [
      | inl (r, here, o) ↦ inl (r, Memᴰ.tail here, o)
      | inr later ↦ inr later
    ]

pub OpensOne-left :
    (xs ys : List TrafficRule) (peer : Peer) (port : PolicyPort)
    → OpensOne xs peer port
    → OpensOne (xs ++ ys) peer port
OpensOne-left (x ∷ xs) ys peer port (rule, Memᴰ.head e, opens) = (rule, Memᴰ.head e, opens)
OpensOne-left (x ∷ xs) ys peer port (rule, Memᴰ.tail there, opens) =
    let (r, here, o) = OpensOne-left xs ys peer port (rule, there, opens) in (r, Memᴰ.tail here, o)
OpensOne-left [] ys peer port (rule, there, opens) = elim there [ ]

pub OpensOne-right :
    (xs ys : List TrafficRule) (peer : Peer) (port : PolicyPort)
    → OpensOne ys peer port
    → OpensOne (xs ++ ys) peer port
OpensOne-right [] ys peer port opens = opens
OpensOne-right (x ∷ xs) ys peer port opens =
    let (r, here, o) = OpensOne-right xs ys peer port opens in (r, Memᴰ.tail here, o)

-- What a single rule opens.
opened :
    (x : TrafficRule) (peer : Peer) (port : PolicyPort)
    → OpensOne (x ∷ []) peer port
    → Opens x peer port
opened x peer port (rule, Memᴰ.head e, opens) = rw (e) at opens
opened x peer port (rule, Memᴰ.tail there, opens) = elim there [ ]

-- The rule for a block opens its port of the block and nothing else.
pub opened_block :
    (cidr : Text) (own : PortRef) (peer : Peer) (port : PolicyPort)
    → OpensOne (to_block cidr own ∷ []) peer port
    → (peer ≡ block cidr) × (port ≡ tcp own)
opened_block cidr own peer port opens = go (opened (to_block cidr own) peer port opens)
  where
    go : Opens (to_block cidr own) peer port → (peer ≡ block cidr) × (port ≡ tcp own)
    go (inl none_listed, _) = ground arith
    go (inr (Memᴰ.head e), inl none_listed) = ground arith
    go (inr (Memᴰ.head e), inr (Memᴰ.head e')) = (e, e')
    go (inr (Memᴰ.head e), inr (Memᴰ.tail there)) = elim there [ ]
    go (inr (Memᴰ.tail there), _) = elim there [ ]

-- The rule for pods opens every port of them and nothing else.
pub opened_pods :
    (own peer : Peer) (port : PolicyPort) → OpensOne (to_pods own ∷ []) peer port → peer ≡ own
opened_pods own peer port opens = go (opened (to_pods own) peer port opens)
  where
    go : Opens (to_pods own) peer port → peer ≡ own
    go (inl none_listed, _) = ground arith
    go (inr (Memᴰ.head e), _) = e
    go (inr (Memᴰ.tail there), _) = elim there [ ]

pub opens_block :
    (cidr : Text) (own : PortRef) → OpensOne (to_block cidr own ∷ []) (block cidr) (tcp own)
opens_block cidr own =
    (to_block cidr own, Memᴰ.head refl, (inr (Memᴰ.head refl), inr (Memᴰ.head refl)))

pub opens_pods : (own : Peer) (port : PolicyPort) → OpensOne (to_pods own ∷ []) own port
opens_pods own port = (to_pods own, Memᴰ.head refl, (inr (Memᴰ.head refl), inl refl))
