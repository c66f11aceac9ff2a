-- ===== src/Metadata/Duration/Rounding.antt =====
-- Rounding to the nearest second.
use music_online_go.Prelude.{arith, ◌+◌, ◌≤◌, ◌*◌, ◌^◌, ◌<◌, ℕ}
use music_online_go.Metadata.Duration.{rounded_uint64_quotient}

-- The quotient is the nearest whole number of seconds, halves rounded up, for all values of 64 bits:
-- with q units of the divisor, twice the value plus the divisor lies between 2q and 2(q + 1) of them.
pub rounded_uint64_quotient_lem :
    (value divisor : ℕ)
    → 0 < divisor
    → value < 2 ^ 64
    → (rounded_uint64_quotient value divisor * (2 * divisor) ≤ 2 * value + divisor)
      × (2 * value + divisor < (rounded_uint64_quotient value divisor + 1) * (2 * divisor))
unfolding rounded_uint64_quotient
rounded_uint64_quotient_lem value divisor pos h = grind arith
