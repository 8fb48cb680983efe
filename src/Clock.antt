-- ===== src/Clock.antt =====
-- Instants (`DateTime<Utc>`) and signed durations (`chrono::Duration`) as numbers of nanoseconds,
-- which is the resolution that chrono documents, and the casts between the machine integers.
use rail2ban.Prelude.{ℕ, ◌+◌, ◌-◌, ◌*◌, ◌%◌, ◌/◌, ltb, if◌then◌else◌, arith}
use rail2ban.Prelude.Int.{ℤ, pos, negsuc, ◌≤ℤ◌}

abbrev pub DateTime : Type 0
DateTime = ℤ

abbrev pub Duration : Type 0
Duration = ℤ

-- `Duration::seconds`.
unfoldable pub seconds : ℤ → Duration
seconds (pos n) = pos (n * 1000000000)
seconds (negsuc n) = negsuc (n * 1000000000 + 999999999)

-- `DateTime::timestamp`: whole seconds, rounded down.
unfoldable pub timestamp : DateTime → ℤ
timestamp (pos n) = pos (n / 1000000000)
timestamp (negsuc n) = negsuc (n / 1000000000)

-- `u64::MAX`, and `x as i64` of a `u64`.
abbrev pub u64_max : ℕ
u64_max = 18446744073709551615

unfoldable pub as_i64 : ℕ → ℤ
as_i64 n = if ltb n 9223372036854775808 then pos n else negsuc (u64_max - n)

abbrev pub as_u32 : ℕ → ℕ
as_u32 n = n % 4294967296

abbrev pub wrap_u64 : ℕ → ℕ
wrap_u64 n = n % 18446744073709551616

pub seconds-nonneg : (s : ℤ) → pos 0 ≤ℤ s → pos 0 ≤ℤ seconds s
unfolding seconds
seconds-nonneg s h = ground arith
