-- ===== src/FailManager.antt =====
-- src/server/failmanager.rs: failures per host within the sliding `findtime` window. A method
-- returns the new manager; the mutex makes each call one step. `now` is the instant that
-- `Utc::now` gives during the call.
pub mod Laws
pub mod Window
pub mod Permanent
use rail2ban.Prelude.{
  ℕ, ◌+◌, ◌≡◌, Bool, true, false, not, Option, none, some, List, [], ◌∷◌, ◌++◌, ◌&&◌, Str, ltb, leb,
  if◌then◌else◌, length, retain, any, or_option, unwrap_or,
}
use rail2ban.Prelude.Dict
use rail2ban.Prelude.Int.{ℤ, ◌-ℤ◌, leb_ℤ}
use rail2ban.Clock.{DateTime, Duration, seconds, as_u32}
use rail2ban.Ip.{IpAddr}
use rail2ban.Filter.{MatchResult}

pub record FailTicket : Type 0 where
  pub host : Str
  pub ip : Option IpAddr
  pub user : Option Str
  pub alt_user : Option Str
  pub mlfid : Option Str
  pub times : List DateTime
  pub matches : List Str
  pub nofail : Bool

-- `FailTicket::count` and `last_seen`.
abbrev pub count : FailTicket → ℕ
count t = length t.times

abbrev last {ℓ} : {A : Type ℓ} → List A → Option A
last [] = none
last (x ∷ []) = some x
last (x ∷ y ∷ xs) = last (y ∷ xs)

unfoldable pub last_seen : FailTicket → Option DateTime
last_seen t = last t.times

pub record FailManager : Type 0 where
  pub tickets : List (Str × FailTicket)
  pub mlfid_map : List (Str × Str)
  pub maxretry : ℕ
  pub findtime : Duration
  pub maxmatches : ℕ

unfoldable pub new : ℕ → ℤ → ℕ → FailManager
new maxretry findtime_secs maxmatches = record {
  tickets = [];
  mlfid_map = [];
  maxretry = maxretry;
  findtime = seconds findtime_secs;
  maxmatches = maxmatches;
}

-- The host that a match counts for: the first one seen under its MLFID, else its own.
unfoldable pub host_of : FailManager → MatchResult → Str
host_of f m = elim m.mlfid [
  | none ↦ m.host
  | some id ↦ unwrap_or (Dict.lookup id f.mlfid_map) m.host
]

unfoldable pub note_mlfid : Option Str → Str → List (Str × Str) → List (Str × Str)
note_mlfid none host map = map
note_mlfid (some id) host map = Dict.insert id host map

-- What `or_insert_with` makes for a host that is not tracked.
unfoldable pub fresh_ticket : Str → MatchResult → FailTicket
fresh_ticket host m = record {
  host = host;
  ip = m.ip;
  user = m.user;
  alt_user = m.alt_user;
  mlfid = m.mlfid;
  times = [];
  matches = [];
  nofail = m.nofail;
}

-- Old failures go, and missing metadata is taken from the match.
unfoldable pub refresh : FailTicket → MatchResult → DateTime → FailTicket
refresh t m cutoff = record t {
  ip = or_option t.ip m.ip;
  user = or_option t.user m.user;
  alt_user = or_option t.alt_user m.alt_user;
  times = retain (leb_ℤ cutoff) t.times;
}

-- The rest of `add_failure`, on the refreshed ticket: what is stored, and what is returned.
unfoldable pub count_match :
    FailManager → MatchResult → DateTime → FailTicket → FailTicket × Option FailTicket
count_match f m now t =
    if m.mlfgained
    then (record t { times = [] }, none)
    else let t' = record t {
      times = if m.nofail then t.times else t.times ++ now ∷ [];
      matches = if ltb (length t.matches) f.maxmatches then t.matches ++ m.line ∷ [] else t.matches;
      nofail = m.nofail;
    } in
      (t', if not m.nofail && leb f.maxretry (as_u32 (count t')) then some t' else none)

-- The ticket that a match meets, after the refresh.
unfoldable pub met_ticket : FailManager → MatchResult → DateTime → FailTicket
unfolding host_of fresh_ticket refresh
met_ticket f m at =
    refresh (unwrap_or (Dict.lookup (host_of f m) f.tickets) (fresh_ticket (host_of f m) m)) m
      (at -ℤ f.findtime)

unfoldable pub add_failure : FailManager → MatchResult → DateTime → FailManager × Option FailTicket
unfolding host_of note_mlfid met_ticket count_match
add_failure f m now =
    let at = unwrap_or m.timestamp now in
    let host = host_of f m in
    let (ticket, promoted) = count_match f m at (met_ticket f m at) in
    (
      record f {
        tickets = Dict.insert host ticket f.tickets;
        mlfid_map = note_mlfid m.mlfid host f.mlfid_map;
      },
      promoted,
    )

unfoldable pub forget_mlfid : FailManager → Str → FailManager
forget_mlfid f mlfid = record f { mlfid_map = Dict.remove mlfid f.mlfid_map }

unfoldable pub remove : FailManager → Str → FailManager × Option FailTicket
remove f host = (record f { tickets = Dict.remove host f.tickets }, Dict.lookup host f.tickets)

unfoldable pub snapshot : FailManager → List FailTicket
snapshot f = Dict.values f.tickets

unfoldable pub current_failed : FailManager → ℕ
current_failed f = length f.tickets

-- The sum over all tickets of their failures.
abbrev failed_in : List FailTicket → ℕ
failed_in [] = 0
failed_in (t ∷ ts) = count t + failed_in ts

unfoldable pub total_failed : FailManager → ℕ
total_failed f = failed_in (Dict.values f.tickets)

unfoldable pub purge : FailManager → DateTime → FailManager
purge f now = record f {
  tickets = Dict.keep (λ _ t. any (leb_ℤ (now -ℤ f.findtime)) t.times) f.tickets;
}
