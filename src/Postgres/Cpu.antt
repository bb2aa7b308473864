-- ===== src/Postgres/Cpu.antt =====
-- `calculateCPURequests` of api/v1/postgres_types.go, on `int64` values with their wrap-around.
-- The quantities of Kubernetes are the interface `Quantities`.
pub mod Laws
use postgreslet.Prelude.{
  ℕ, zero, suc, ◌+◌, ◌-◌, ◌/◌, ◌%◌, ◌^◌, Option, none, some, ltb, if◌then◌else◌,
}
use postgreslet.Prelude.Int.{ℤ, pos, negsuc, ltb_ℤ, ◌*ℤ◌}
use postgreslet.Text.{Text}
use postgreslet.Postgres.Params.{Quantities}

-- The `int64` with the bits of `z`.
unfoldable pub wrap64 : ℤ → ℤ
wrap64 (pos n) =
    let bits = n % 2 ^ 64 in if ltb bits (2 ^ 63) then pos bits else negsuc (2 ^ 64 - 1 - bits)
wrap64 (negsuc n) =
    let bits = n % 2 ^ 64 in if ltb bits (2 ^ 63) then negsuc bits else pos (2 ^ 64 - 1 - bits)

-- `z / 100`, rounded towards zero.
unfoldable pub hundredth : ℤ → ℤ
hundredth (pos n) = pos (n / 100)
hundredth (negsuc n) = elim ((n + 1) / 100) [ zero ↦ pos 0 | suc m ↦ negsuc m ]

-- The built-in `min`.
unfoldable pub min_ℤ : ℤ → ℤ → ℤ
min_ℤ a b = if ltb_ℤ b a then b else a

-- The request in thousands of a core, from the limit and the percentage.
unfoldable pub request_millis : ℤ → ℤ → ℤ
request_millis milli_value percentage =
    let value = wrap64 (hundredth milli_value *ℤ percentage) in min_ℤ value milli_value

module _ (q : Quantities) where
  -- `none` is the error of a quantity that cannot be read.
  unfoldable pub calculate_cpu_requests : Text → ℤ → Option Text
  calculate_cpu_requests c percentage = elim (q.parse_quantity c) [
    | none ↦ none
    | some cpu ↦ some (q.format_milli (request_millis (q.milli_value cpu) percentage))
  ]
