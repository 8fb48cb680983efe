-- ===== src/Jail/State.antt =====
-- src/server/jail.rs: the jail with its components, and what it takes from outside.
use rail2ban.Prelude.{ℕ, Bool, Option, none, some, List, Str, map_option, unwrap_or}
use rail2ban.Prelude.Int.{ℤ}
use rail2ban.Clock.{DateTime}
use rail2ban.Time.{TimeValue}
use rail2ban.Ip.{IpAddr, IpFamily, inet4, Addressing, IgnoreList, family_of}
use rail2ban.Filter.{Engine, CompiledFilter, LineBuffer}
use rail2ban.FailManager.{FailManager}
use rail2ban.BanManager.{BanManager}
use rail2ban.Database.{Database}
use rail2ban.Action.{Action, Command, Shell}
use rail2ban.IgnoreCache.{IgnoreCache}

-- The settings of src/config/jail.rs that a running jail reads.
pub record JailConfig (N : Type 0) : Type 0 where
  pub name : Str
  pub maxretry : ℕ
  pub findtime : TimeValue
  pub bantime : TimeValue
  pub bantime_increment : Bool
  pub bantime_factor : ℕ
  pub bantime_maxtime : Option TimeValue
  pub bantime_rndtime : Option TimeValue
  pub usedns : Str
  pub ignoreself : Bool
  pub ignoreip : IgnoreList N
  pub ignorecommand : Option Str
  pub ignorecache : Option Str
  pub maxmatches : ℕ

-- `Jail`, for types of compiled patterns and of networks; `ran` lists the commands that its actions
-- and its ignorecommand have run.
pub record Jail (R N : Type 0) : Type 0 where
  pub config : JailConfig N
  pub filter : CompiledFilter R
  pub actions : List Action
  pub fail_mgr : FailManager
  pub ban_mgr : BanManager
  pub db : Option Database
  pub line_buffer : LineBuffer
  pub ignore_cache : Option IgnoreCache
  pub ran : List Command

-- The packages and the system: regexes, addresses, commands, `ToSocketAddrs`, the JSON text of a
-- ticket, and `DateTime::from_timestamp`.
pub record Outside (R N : Type 0) : Type 0 where
  pub engine : Engine R
  pub addressing : Addressing N
  pub shell : Shell
  pub to_socket_addrs : Str → Option IpAddr
  pub ticket_json : Option Str → List Str → Str
  pub from_timestamp : ℤ → Option DateTime

-- What a handler reads from the clocks, in the order in which it may: `Utc::now` when a failure is
-- counted and when a ban is made, `Instant::now` at the look into the cache and at the insertion;
-- and the seed that the thread holds for the jitter.
pub record Instants : Type 0 where
  pub seen : DateTime
  pub banned : DateTime
  pub looked : ℕ
  pub stored : ℕ
  pub seed : ℕ

-- The family of an address that may not be known.
abbrev pub family_or_inet4 : Option IpAddr → IpFamily
family_or_inet4 a = unwrap_or (map_option family_of a) inet4

-- The failure ID of a ban that is not of an address.
abbrev pub fid_of : Option IpAddr → Str → Option Str
fid_of none host = some host
fid_of (some a) host = none
