-- ===== src/Postgres/Params/Laws.antt =====
-- Which setting of a parameter wins.
use postgreslet.Prelude.{
  ℕ, ◌*◌, ◌/◌, ◌≤◌, ◌≡◌, ◌∙◌, Option, none, some, Option-cases, inl, inr, List, [], ◌∷◌, ◌++◌,
  arith, ◌=?◌, contains, text_eq, if◌then◌else◌,
}
use postgreslet.Prelude.Int.{pos}
use postgreslet.Text.{Text, codes}
use postgreslet.Text.Decimal.{format_int, parse_digits, parse_digits-format_int}
use postgreslet.Dict.{NodupKeys, insert, lookup, lookup-nil, lookup-cons, lookup-insert}
use postgreslet.Postgres.Model.{Postgres}
use postgreslet.Postgres.Params.{
  Parameters, Quantities, shared_buffer_parameter_key, set_postgres_params, shared_buffer_size,
  set_shared_buffer_size, own_parameters, to_parameters,
}

-- The first of two settings, if it is there.
abbrev pub first_set : Option Text → Option Text → Option Text
first_set none fallback = fallback
first_set (some v) fallback = some v

-- The setting of `k` among the given parameters, if it is not blocked.
abbrev pub given : List Text → Parameters → Text → Option Text
given blocked provided k = if contains blocked k then none else lookup k provided

-- The loop sets each given parameter that is not blocked to its value, in whatever order the map
-- yields them, and leaves the others as they are.
pub lookup-set_postgres_params :
    (m provided : Parameters) (blocked : List Text) (k : Text)
    → NodupKeys provided
    → lookup k (set_postgres_params m provided blocked)
      ≡ first_set (given blocked provided k) (lookup k m)
unfolding set_postgres_params
lookup-set_postgres_params m [] blocked k u = rw lookup-nil (ground arith)
lookup-set_postgres_params m ((j, v) ∷ provided) blocked k (fresh, u) =
    lookup-set_postgres_params (if contains blocked j then m else insert j v m) provided blocked k u
    ∙ ground (arith, lookup-cons k j v provided, lookup-insert k j v m)

module _ (q : Quantities) where
  lookup-set_shared_buffer_size :
      (m : Parameters) (size k : Text)
      → lookup k (set_shared_buffer_size q m size) ≡ (
          if shared_buffer_parameter_key =? k
          then first_set (shared_buffer_size q size) (lookup k m)
          else lookup k m)
  unfolding set_shared_buffer_size
  lookup-set_shared_buffer_size m size k = elim (Option-cases (shared_buffer_size q size)) [
    | inl e ↦ rw (e, set_shared_buffer_size) (ground arith)
    | inr (value, e) ↦ rw (e, set_shared_buffer_size) (rw lookup-insert (ground arith))
  ]

  -- The parameters of a database whose own parameters have distinct keys, key by key: the size of
  -- the shared buffers, where it is large enough to be set, wins over the parameters of the
  -- resource, these over the program's own, and a parameter on the block list is never taken from
  -- the resource.
  pub lookup-to_parameters :
      (p : Postgres) (size : Text) (blocked : List Text) (k : Text)
      → NodupKeys p.spec.postgres_params
      → lookup k (to_parameters q p size blocked)
        ≡ first_set (if shared_buffer_parameter_key =? k then shared_buffer_size q size else none) (
            first_set
              (given blocked p.spec.postgres_params k)
              (lookup k (own_parameters p.spec.audit_logs p.spec.version)))
  unfolding to_parameters
  lookup-to_parameters p size blocked k u =
      rw
        (
          lookup-set_shared_buffer_size,
          lookup-set_postgres_params (own_parameters p.spec.audit_logs p.spec.version)
              p.spec.postgres_params blocked k u,
        )
        (ground arith)

  -- For a quantity of at least 32 Mi bytes the shared buffers are set, to its whole number of Mi
  -- bytes in decimal, at least 32, followed by `MB`.
  pub shared_buffer_size-some :
      (size : Text) (quantity : q.Quantity) (bytes : ℕ)
      → q.parse_quantity size ≡ some quantity
      → q.as_int64 quantity ≡ some (pos bytes)
      → 32 * 1024 * 1024 ≤ bytes
      → (digits : Text) × (shared_buffer_size q size ≡ some (digits ++ codes "MB"))
        × (parse_digits 0 digits ≡ some (bytes / 1048576))
        × (32 ≤ bytes / 1048576)
  unfolding shared_buffer_size
  shared_buffer_size-some size quantity bytes parsed sized large = (
    format_int (bytes / 1048576),
    rw (parsed, shared_buffer_size) (rw sized (ground arith)),
    parse_digits-format_int (bytes / 1048576),
    omega arith,
  )
