-- ===== src/Prelude/Int32.antt =====
-- Go's `int32`, as a bit pattern below 2 ^ 32 with the wrap-around of its sum and its signed order.
use postgreslet.Prelude.{ℕ, ◌+◌, ◌%◌, ◌^◌, Bool, ltb}

abbrev pub add_int32 : ℕ → ℕ → ℕ
add_int32 a b = (a + b) % 2 ^ 32

-- The order of the signed values is that of the patterns shifted by half the range.
abbrev pub biased : ℕ → ℕ
biased a = (a + 2 ^ 31) % 2 ^ 32

abbrev pub lt_int32 : ℕ → ℕ → Bool
lt_int32 a b = ltb (biased a) (biased b)
