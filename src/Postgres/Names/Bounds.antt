-- ===== src/Postgres/Names/Bounds.antt =====
-- The derived names are names that Kubernetes accepts.
use postgreslet.Prelude.{
  ℕ, zero, suc, ◌-◌, ◌≤◌, ◌<◌, ◌≡◌, ◌≢◌, ◌∙◌, refl, true, ◌||◌, [], ◌∷◌, ◌++◌, arith, ◌==◌, length,
  take, length-append, length-take, take_all, All, All-append, All-take, All-map, ap,
}
use native.Mathlib.Nat.{zero-sub, sub-zero}
use postgreslet.Text.{Text, codes, is_lower, is_digit, keep_alnum, to_lower}
use postgreslet.Text.Classes.{
  IsLowerAlnum, IsNameChar, name_char-IsLowerAlnum, IsLowerAlnum-IsAlnum, keep_alnum-All,
  to_lower-All, keep_alnum-All_of,
}
use postgreslet.Postgres.Model.{Postgres}
use postgreslet.Postgres.Names.{
  generate_team_id, generate_database_name, to_peripheral_resource_name, to_shared_svc_lb_name,
  to_dedicated_svc_lb_name,
}

-- `[-a-z0-9]`, the characters of a DNS label.
abbrev pub IsDnsChar : ℕ → Type 0
IsDnsChar c = (is_lower c || is_digit c || c == b'-') ≡ true

abbrev pub StartsLower : Text → Type 0
StartsLower [] = ⊥
StartsLower (c ∷ _) = is_lower c ≡ true

abbrev pub EndsLowerAlnum : Text → Type 0
EndsLowerAlnum [] = ⊥
EndsLowerAlnum (c ∷ []) = IsLowerAlnum c
EndsLowerAlnum (c ∷ d ∷ s) = EndsLowerAlnum (d ∷ s)

-- A DNS label of RFC 1035, `[a-z]([-a-z0-9]*[a-z0-9])?` of at most 63 characters: what Kubernetes
-- wants of the name of a service.
pub record IsDnsLabel (s : Text) : Type 0 where
  pub chars : All IsDnsChar s
  pub starts : StartsLower s
  pub ends : EndsLowerAlnum s
  pub fits : length s ≤ 63

abbrev pub StartsLowerAlnum : Text → Type 0
StartsLowerAlnum [] = ⊥
StartsLowerAlnum (c ∷ _) = IsLowerAlnum c

-- What Kubernetes guarantees of the name of a resource (a subdomain of RFC 1123), as far as the
-- derived names rest on it.
pub record IsResourceName (s : Text) : Type 0 where
  pub chars : All IsNameChar s
  pub starts : StartsLowerAlnum s

lower_alnum-IsDnsChar : (c : ℕ) → IsLowerAlnum c → IsDnsChar c
lower_alnum-IsDnsChar c h = ground arith

-- The letters and digits of a resource's name: lower case, and at least one.
keep_name-All : (s : Text) → IsResourceName s → All IsLowerAlnum (keep_alnum s)
keep_name-All s h = keep_alnum-All_of IsNameChar IsLowerAlnum s name_char-IsLowerAlnum h.chars

keep_name_pos : (s : Text) → IsResourceName s → 0 < length (keep_alnum s)
unfolding keep_alnum
keep_name_pos [] h = absurd h.starts
keep_name_pos (c ∷ s) h = rw (IsLowerAlnum-IsAlnum c h.starts) (omega arith)

-- A nonempty text of lower case letters and digits ends in one.
ends_of_All : (s : Text) → 0 < length s → All IsLowerAlnum s → EndsLowerAlnum s
ends_of_All [] h a = absurd (omega arith)
ends_of_All (c ∷ []) h a = a.0
ends_of_All (c ∷ d ∷ s) h a = ends_of_All (d ∷ s) (omega arith) a.1

EndsLowerAlnum-append : (s t : Text) → EndsLowerAlnum t → EndsLowerAlnum (s ++ t)
EndsLowerAlnum-append [] t h = h
EndsLowerAlnum-append (c ∷ []) [] h = absurd h
EndsLowerAlnum-append (c ∷ []) (d ∷ t) h = h
EndsLowerAlnum-append (c ∷ d ∷ s) t h = EndsLowerAlnum-append (d ∷ s) t h

StartsLower-append : (s t : Text) → StartsLower s → StartsLower (s ++ t)
StartsLower-append [] t h = absurd h
StartsLower-append (c ∷ s) t h = h

-- The team id of every tenant: `pg`, then at most 14 lower case letters and digits.
pub generate_team_id-bounds :
    (p : Postgres)
    → All IsLowerAlnum (generate_team_id p)
      × (take 2 (generate_team_id p) ≡ codes "pg")
      × (length (generate_team_id p) ≤ 16)
unfolding generate_team_id to_lower
generate_team_id-bounds p = (
  All-take IsLowerAlnum 16 (to_lower (codes "pg" ++ keep_alnum p.spec.tenant))
      (refl, (refl, to_lower-All _ (keep_alnum-All p.spec.tenant))),
  refl,
  omega (arith, length-take 16 (to_lower (codes "pg" ++ keep_alnum p.spec.tenant))),
)

generate_team_id-StartsLower : (p : Postgres) → StartsLower (generate_team_id p)
unfolding generate_team_id to_lower
generate_team_id-StartsLower p = refl

take-append : (n : ℕ) (xs ys : Text) → take n (xs ++ ys) ≡ take n xs ++ take (n - length xs) ys
take-append zero xs ys = rw zero-sub
take-append (suc n) [] ys = rw sub-zero
take-append (suc n) (x ∷ xs) ys =
    ap (λ (l : Text). x ∷ l)
      (take-append n xs ys ∙ ap (λ (k : ℕ). take n xs ++ take k ys) (omega arith))

-- The part of the description in a database name.
abbrev pub description_part : Postgres → Text
description_part p = take 15 (to_lower (keep_alnum p.spec.description))

description_part-le : (p : Postgres) → length (description_part p) ≤ 15
description_part-le p = omega (arith, length-take 15 (to_lower (keep_alnum p.spec.description)))

-- However long the description is, a database name goes on with the letters and digits of the
-- resource's name, of which it holds five or all.
pub generate_database_name-uid :
    (p : Postgres)
    → (n : ℕ) × (5 ≤ n)
      × (generate_database_name p ≡ description_part p ++ take n (keep_alnum p.name))
unfolding generate_database_name
generate_database_name-uid p = (
  20 - length (description_part p),
  omega (arith, description_part-le p),
  rw (
    take-append 20 (description_part p) (keep_alnum p.name),
    take_all 20 (description_part p) (omega (arith, description_part-le p)),
  ),
)

-- A database name has between 1 and 20 characters, all of them lower case letters and digits.
pub generate_database_name-bounds :
    (p : Postgres)
    → IsResourceName p.name
    → All IsLowerAlnum (generate_database_name p)
      × (0 < length (generate_database_name p))
      × (length (generate_database_name p) ≤ 20)
unfolding generate_database_name
generate_database_name-bounds p h =
    let described = description_part p in
    let named = keep_alnum p.name in
    (
      All-take IsLowerAlnum 20 _ (
          All-append IsLowerAlnum described named
            (All-take IsLowerAlnum 15 _ (to_lower-All _ (keep_alnum-All p.spec.description)))
            (keep_name-All p.name h)),
      omega (
        arith,
        length-take 20 (described ++ named),
        length-append described named,
        keep_name_pos p.name h,
      ),
      omega (arith, length-take 20 (described ++ named)),
    )

-- Where the resource has a name that Kubernetes accepts, a name that is derived from it by a suffix
-- of letters, digits and inner dashes is a DNS label.
suffixed-IsDnsLabel :
    (p : Postgres) (suffix : Text)
    → IsResourceName p.name
    → All IsDnsChar suffix
    → EndsLowerAlnum suffix
    → length suffix ≤ 26
    → IsDnsLabel (to_peripheral_resource_name p ++ suffix)
unfolding to_peripheral_resource_name
suffixed-IsDnsLabel p suffix h chars ends fits =
    let team = generate_team_id p in
    let database = generate_database_name p in
    let stem = team ++ (codes "-" ++ database) in
    record {
      chars =
          All-append IsDnsChar stem suffix
            (All-append IsDnsChar team (codes "-" ++ database)
              (All-map IsLowerAlnum IsDnsChar team lower_alnum-IsDnsChar
                (generate_team_id-bounds p).0)
              (
                refl,
                All-map IsLowerAlnum IsDnsChar database lower_alnum-IsDnsChar
                    (generate_database_name-bounds p h).0,
              ))
            chars;
      starts =
          StartsLower-append stem suffix
            (StartsLower-append team _ (generate_team_id-StartsLower p));
      ends = EndsLowerAlnum-append stem suffix ends;
      fits = omega (
        arith,
        length-append stem suffix,
        length-append team (codes "-" ++ database),
        (generate_team_id-bounds p).2,
        (generate_database_name-bounds p h).2,
      );
    }

-- The name of each of the two services is a DNS label, if the resource has a name that Kubernetes
-- accepts, whatever the tenant and the description are.
pub svc_lb_names-IsDnsLabel :
    (p : Postgres)
    → IsResourceName p.name
    → IsDnsLabel (to_shared_svc_lb_name p) × IsDnsLabel (to_dedicated_svc_lb_name p)
unfolding to_shared_svc_lb_name to_dedicated_svc_lb_name
svc_lb_names-IsDnsLabel p h = (
  suffixed-IsDnsLabel p (codes "-external") h (ground arith) refl (omega arith),
  suffixed-IsDnsLabel p (codes "-dedicated") h (ground arith) refl (omega arith),
)

-- Two suffixes that differ in the second character give different names.
append_ne : (s : Text) → s ++ codes "-external" ≢ s ++ codes "-dedicated"
append_ne [] e = ground arith
append_ne (c ∷ s) e = append_ne s (cc)

-- The two services of a database never share a name.
pub svc_lb_names-ne : (p : Postgres) → to_shared_svc_lb_name p ≢ to_dedicated_svc_lb_name p
unfolding to_shared_svc_lb_name to_dedicated_svc_lb_name
svc_lb_names-ne p = append_ne (to_peripheral_resource_name p)
