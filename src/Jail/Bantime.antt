-- ===== src/Jail/Bantime.antt =====
-- src/server/jail.rs: `compute_bantime` and its jitter.
use Prim.Native.Nat.{bit_xor}
use rail2ban.Prelude.{
  ℕ, ◌+◌, ◌*◌, ◌/◌, ◌%◌, ◌^◌, min, max, Option, none, some, Str, ltb, ◌==◌, if◌then◌else◌,
}
use rail2ban.Clock.{u64_max, as_u32, wrap_u64}
use rail2ban.Time.{TimeValue, to_seconds_or_max}
use rail2ban.Database.{Database, ban_count}
use rail2ban.Jail.State.{JailConfig}

-- One round of xorshift64.
unfoldable pub xorshift : ℕ → ℕ
xorshift x =
    let y = bit_xor x (wrap_u64 (x * 8192)) in
    let z = bit_xor y (y / 128) in bit_xor z (wrap_u64 (z * 131072))

-- `rand_u64_below`, from the state of the thread.
unfoldable pub rand_u64_below : ℕ → ℕ → ℕ
rand_u64_below seed n = if n == 0 then 0 else xorshift seed % n

-- `saturating_pow` and `saturating_mul` of `u64`.
abbrev pub saturating_pow : ℕ → ℕ → ℕ
saturating_pow b e = min (b ^ e) u64_max

abbrev pub saturating_mul : ℕ → ℕ → ℕ
saturating_mul a b = min (a * b) u64_max

abbrev pub history_count : Option Database → Str → Str → ℕ
history_count none jail host = 0
history_count (some db) jail host = ban_count db jail host

-- The base time multiplied for each ban in the history.
unfoldable pub incremented : ℕ → ℕ → ℕ → ℕ
incremented base factor bans = saturating_mul base (saturating_pow (max factor 1) (as_u32 bans))

unfoldable pub capped : Option TimeValue → ℕ → ℕ
unfolding to_seconds_or_max
capped none inc = inc
capped (some v) inc = min inc (to_seconds_or_max v)

-- `inc + rand_u64_below(rnd_secs)`, which wraps in a release build.
unfoldable pub jittered : ℕ → Option TimeValue → ℕ → ℕ
unfolding to_seconds_or_max rand_u64_below
jittered seed none inc = inc
jittered seed (some v) inc =
    if ltb 0 (to_seconds_or_max v)
    then wrap_u64 (inc + rand_u64_below seed (to_seconds_or_max v))
    else inc

unfoldable pub compute_bantime : {N : Type 0} → JailConfig N → Option Database → Str → ℕ → Option ℕ
unfolding incremented capped jittered to_seconds_or_max ban_count
compute_bantime c db host seed =
    let base = to_seconds_or_max c.bantime in
    if c.bantime_increment
    then some (
        jittered seed c.bantime_rndtime (
          capped c.bantime_maxtime
            (incremented base c.bantime_factor (history_count db c.name host))))
    else some base
