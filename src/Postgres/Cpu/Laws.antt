-- ===== src/Postgres/Cpu/Laws.antt =====
-- The CPU request of a database against its limit.
use postgreslet.Prelude.{ℕ, ◌+◌, ◌*◌, ◌/◌, ◌%◌, ap, ◌^◌, ◌≤◌, ◌<◌, ◌≡◌, refl, arith, min}
use postgreslet.Prelude.Int.{pos, ◌*ℤ◌}
use postgreslet.Postgres.Cpu.{wrap64, hundredth, min_ℤ, request_millis}

min_ℤ-pos : (a b : ℕ) → min_ℤ (pos a) (pos b) ≡ pos (min a b)
unfolding min_ℤ
min_ℤ-pos a b = ground arith

wrap64_of_small : (n : ℕ) → n < 2 ^ 63 → wrap64 (pos n) ≡ pos n
unfolding wrap64
wrap64_of_small n h = ground arith

*ℤ-pos : (a b : ℕ) → pos a *ℤ pos b ≡ pos (a * b)
unfolding ◌*ℤ◌
*ℤ-pos a b = ground arith

hundredth-pos : (n : ℕ) → hundredth (pos n) ≡ pos (n / 100)
unfolding hundredth
hundredth-pos n = refl

hundredth_mul_le : (n p : ℕ) → n / 100 * p ≤ n * p
hundredth_mul_le n p = grind arith

mul_le : (a b p : ℕ) → a ≤ b → a * p ≤ b * p
mul_le a b p h = grind arith

hundredth_mul_bounds :
    (n p : ℕ) → (n / 100 * p * 100 ≤ n * p) × (n * p ≤ n / 100 * p * 100 + 100 * p)
hundredth_mul_bounds n p =
    let split : n ≡ n / 100 * 100 + n % 100 = omega arith in
    let rest : n % 100 * p ≤ 100 * p = mul_le (n % 100) 100 p (omega arith) in
    (omega (arith, ap (λ (t : ℕ). t * p) split), omega (arith, ap (λ (t : ℕ). t * p) split, rest))

-- For a limit and a percentage that are not negative and whose product fits an `int64`, the request
-- is not negative, at most the limit, at most the percentage of the limit, and short of the smaller
-- of the two by at most `percentage` thousandths of a core.
pub request_millis-bounds :
    (milli percentage : ℕ)
    → milli * percentage < 2 ^ 63
    → (r : ℕ) × (request_millis (pos milli) (pos percentage) ≡ pos r)
      × (r ≤ milli)
      × (r * 100 ≤ milli * percentage)
      × (min (milli * percentage) (milli * 100) ≤ r * 100 + 100 * percentage)
unfolding request_millis
request_millis-bounds milli percentage fits = (
  min (milli / 100 * percentage) milli,
  rw (
    hundredth-pos,
    *ℤ-pos,
    wrap64_of_small (milli / 100 * percentage) (omega (arith, hundredth_mul_le milli percentage)),
    min_ℤ-pos,
  ),
  omega arith,
  omega (arith, hundredth_mul_bounds milli percentage),
  omega (arith, hundredth_mul_bounds milli percentage),
)
