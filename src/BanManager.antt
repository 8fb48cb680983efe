-- ===== src/BanManager.antt =====
-- src/server/banmanager.rs: the current bans by host. A method returns the new manager; the mutex
-- makes each call one step.
pub mod Expiry
pub mod View
use rail2ban.Prelude.{
  ℕ, ◌+◌, Bool, true, false, not, Option, none, some, List, [], ◌∷◌, Str, if◌then◌else◌, length,
  or_option, map_option,
}
use rail2ban.Prelude.Dict
use rail2ban.Prelude.Int.{◌+ℤ◌, leb_ℤ}
use rail2ban.Clock.{DateTime, Duration, seconds, as_i64, as_u32, wrap_u64}
use rail2ban.Ip.{IpAddr}
use rail2ban.Filter.{MatchResult}
use rail2ban.FailManager.{FailTicket, count}

pub record BanTicket : Type 0 where
  pub host : Str
  pub ip : Option IpAddr
  pub user : Option Str
  pub alt_user : Option Str
  pub mlfid : Option Str
  pub time_of_ban : DateTime
  pub bantime : Option Duration
  pub matches : List Str
  pub failures : ℕ

unfoldable pub expires : BanTicket → Option DateTime
expires t = map_option (λ d. t.time_of_ban +ℤ d) t.bantime

-- `now >= exp`.
abbrev at_or_after : DateTime → Option DateTime → Bool
at_or_after now none = false
at_or_after now (some exp) = leb_ℤ exp now

unfoldable pub is_expired : BanTicket → DateTime → Bool
unfolding expires
is_expired t now = at_or_after now (expires t)

pub record BanManager : Type 0 where
  pub bans : List (Str × BanTicket)
  pub total_banned : ℕ

unfoldable pub new : BanManager
new = record { bans = []; total_banned = 0 }

unfoldable pub add_ban : BanManager → BanTicket → BanManager × Bool
add_ban b ticket =
    let is_new = not (Dict.contains_key ticket.host b.bans) in
    (
      record {
        bans = Dict.insert ticket.host ticket b.bans;
        total_banned = if is_new then wrap_u64 (b.total_banned + 1) else b.total_banned;
      },
      is_new,
    )

unfoldable pub remove_ban : BanManager → Str → BanManager × Option BanTicket
remove_ban b host = (record b { bans = Dict.remove host b.bans }, Dict.lookup host b.bans)

unfoldable pub is_banned : BanManager → Str → Bool
is_banned b host = Dict.contains_key host b.bans

unfoldable pub snapshot : BanManager → List BanTicket
snapshot b = Dict.values b.bans

unfoldable pub current_banned : BanManager → ℕ
current_banned b = length b.bans

-- The hosts that `expired` collects first.
unfoldable pub expired_hosts : DateTime → List (Str × BanTicket) → List Str
expired_hosts now [] = []
expired_hosts now ((h, t) ∷ m) =
    if is_expired t now then h ∷ expired_hosts now m else expired_hosts now m

abbrev cons_some {ℓ} : {A : Type ℓ} → Option A → List A → List A
cons_some none xs = xs
cons_some (some x) xs = x ∷ xs

-- The `filter_map` over them: each is removed, and the tickets removed are collected.
unfoldable pub remove_each :
    List Str → List (Str × BanTicket) → List (Str × BanTicket) × List BanTicket
remove_each [] m = (m, [])
remove_each (h ∷ hs) m =
    let (m', removed) = remove_each hs (Dict.remove h m) in
    (m', cons_some (Dict.lookup h m) removed)

unfoldable pub expired : BanManager → DateTime → BanManager × List BanTicket
unfolding expired_hosts remove_each
expired b now =
    let (m, removed) = remove_each (expired_hosts now b.bans) b.bans in
    (record b { bans = m }, removed)

unfoldable pub clear : BanManager → BanManager × List BanTicket
clear b = (record b { bans = [] }, Dict.values b.bans)

unfoldable pub ticket_from_fail : FailTicket → MatchResult → Option ℕ → DateTime → BanTicket
ticket_from_fail fail matches bantime_secs now = record {
  host = fail.host;
  ip = or_option fail.ip matches.ip;
  user = or_option fail.user matches.user;
  alt_user = or_option fail.alt_user matches.alt_user;
  mlfid = or_option fail.mlfid matches.mlfid;
  time_of_ban = now;
  bantime = map_option (λ s. seconds (as_i64 s)) bantime_secs;
  matches = fail.matches;
  failures = as_u32 (count fail);
}
