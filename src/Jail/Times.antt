-- ===== src/Jail/Times.antt =====
-- src/server/jail.rs: what `compute_bantime` gives, and what becomes of it on a ticket.
use native.Mathlib.Nat.{mod-lt, pow-le-pow_right}
use rail2ban.Prelude.{
  ℕ, ◌+◌, ◌*◌, ◌^◌, ◌%◌, ◌≤◌, ◌<◌, ◌≡◌, refl, max, true, false, Option, none, some, Str, arith,
  unwrap_or, Bool-cases, inl, inr, ap,
}
use rail2ban.Prelude.Int.{negsuc, ◌+ℤ◌, ◌≤ℤ◌, ≤ℤ→leb_ℤ, int_laws}
use rail2ban.Clock.{DateTime, u64_max, as_u32, as_i64, seconds}
use rail2ban.Time.{TimeValue, to_seconds_or_max}
use rail2ban.Filter.{MatchResult}
use rail2ban.FailManager.{FailTicket}
use rail2ban.BanManager.{ticket_from_fail, is_expired}
use rail2ban.Database.{Database, ban_count}
use rail2ban.Jail.State.{JailConfig}
use rail2ban.Jail.Bantime.{
  compute_bantime, incremented, capped, jittered, rand_u64_below, xorshift, history_count,
  saturating_pow,
}

mul_mono : (a x y : ℕ) → x ≤ y → a * x ≤ a * y
mul_mono a x y h = grind arith

incremented_mono :
    (base factor m n : ℕ)
    → m ≤ n
    → n < 4294967296
    → incremented base factor m ≤ incremented base factor n
unfolding incremented
incremented_mono base factor m n h small =
    let e : as_u32 m ≤ as_u32 n = omega arith in
    let p : max factor 1 ^ as_u32 m ≤ max factor 1 ^ as_u32 n = pow-le-pow_right (omega arith) e in
    let q =
      mul_mono base (saturating_pow (max factor 1) (as_u32 m))
        (saturating_pow (max factor 1) (as_u32 n)) (omega (arith, p)) in
    omega (arith, q)

capped_mono : (cap : Option TimeValue) (x y : ℕ) → x ≤ y → capped cap x ≤ capped cap y
unfolding capped
capped_mono none x y h = h
capped_mono (some v) x y h = omega arith

module _ {N : Type 0} (c : JailConfig N) where
  -- Without jitter, a longer history of bans never gives a shorter ban (for fewer than 2^32 bans).
  pub compute_bantime_mono :
      (db db' : Database) (host : Str) (seed : ℕ)
      → c.bantime_rndtime ≡ none
      → ban_count db c.name host ≤ ban_count db' c.name host
      → ban_count db' c.name host < 4294967296
      → unwrap_or (compute_bantime c (some db) host seed) 0
        ≤ unwrap_or (compute_bantime c (some db') host seed) 0
  unfolding compute_bantime jittered
  compute_bantime_mono db db' host seed steady fewer small =
      let inc =
        incremented_mono (to_seconds_or_max c.bantime) c.bantime_factor (ban_count db c.name host)
          (ban_count db' c.name host) fewer small in
      let cap = capped_mono c.bantime_maxtime _ _ inc in
      elim (Bool-cases c.bantime_increment) [
        | inl on ↦ rw (on, steady) cap
        | inr off ↦ rw off (omega arith)
      ]

  -- An incremented ban without jitter is at most `bantime.maxtime`.
  pub compute_bantime-le-maxtime :
      (db : Option Database) (host : Str) (seed : ℕ) {v : TimeValue}
      → c.bantime_increment ≡ true
      → c.bantime_rndtime ≡ none
      → c.bantime_maxtime ≡ some v
      → unwrap_or (compute_bantime c db host seed) 0 ≤ to_seconds_or_max v
  unfolding compute_bantime jittered capped
  compute_bantime-le-maxtime db host seed on steady max = rw (on, steady, max) (omega arith)

  -- With `bantime.rndtime` the ban lies within that many seconds above the one without it, as long as
  -- the sum stays below 2^64.
  pub compute_bantime_jitter :
      (db : Option Database) (host : Str) (seed : ℕ) {v : TimeValue}
      → c.bantime_increment ≡ true
      → c.bantime_rndtime ≡ some v
      → 0 < to_seconds_or_max v
      → capped c.bantime_maxtime (
            incremented
              (to_seconds_or_max c.bantime)
              c.bantime_factor
              (history_count db c.name host))
          + to_seconds_or_max v
        ≤ u64_max
      → (n r : ℕ) × (compute_bantime c db host seed ≡ some (n + r))
        × (n
            ≡ capped c.bantime_maxtime (
                incremented
                  (to_seconds_or_max c.bantime)
                  c.bantime_factor
                  (history_count db c.name host)))
        × (r < to_seconds_or_max v)
  unfolding compute_bantime jittered rand_u64_below
  compute_bantime_jitter db host seed {v} on jitter some_jitter fits =
      let n = capped c.bantime_maxtime (
        incremented (to_seconds_or_max c.bantime) c.bantime_factor
          (history_count db c.name host)) in
      (
        n,
        xorshift seed % to_seconds_or_max v,
        rw (on, jitter) (ap some (ground arith)),
        refl,
        mod-lt (xorshift seed) some_jitter,
      )

  -- A jail with a permanent `bantime` and no increment gives every ban the duration of minus one
  -- second: its ticket has run out when it is made, and the next purge takes the ban away.
  pub permanent_ban_expires :
      (db : Option Database) (host : Str) (seed : ℕ) (fail : FailTicket) (m : MatchResult)
      (made now : DateTime)
      → c.bantime.seconds ≡ none
      → c.bantime_increment ≡ false
      → made ≤ℤ now
      → is_expired (ticket_from_fail fail m (compute_bantime c db host seed) made) now ≡ true
  unfolding compute_bantime to_seconds_or_max ticket_from_fail is_expired as_i64 seconds
  permanent_ban_expires db host seed fail m made now permanent off later =
      rw (off, permanent) (≤ℤ→leb_ℤ (made +ℤ negsuc 999999999) now (omega int_laws))
