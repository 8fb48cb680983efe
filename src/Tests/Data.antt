-- ===== src/Tests/Data.antt =====
-- A small world: patterns are prefixes of a line (the host is what follows), an address is written as
-- its number, a network is a first octet, and every command succeeds.
use rail2ban.Prelude.{
  ℕ, ◌/◌, ◌*◌, Bool, true, false, Option, none, some, [], ◌∷◌, Str, codes, str_eq, strip_prefix,
  is_some, map_option, if◌then◌else◌, join, split, ◌==◌,
}
use rail2ban.Prelude.Int.{pos}
use rail2ban.Clock.{seconds}
use rail2ban.Time.{of_seconds, permanent_value, digits_from}
use rail2ban.Ip.{IpAddr, v4, v6, Addressing, net}
use rail2ban.Filter.{Engine, CompiledFilter, MatchResult}
use rail2ban.FailManager.{FailTicket}
use rail2ban.BanManager.{BanTicket}
use rail2ban.Database.{Database, DbBan}
use rail2ban.Action.{Action, ActionConfig, Shell, decimal}
use rail2ban.Jail.State.{JailConfig, Outside, Instants}

abbrev address : Str → Option IpAddr
address [] = none
address (c ∷ cs) = map_option v4 (digits_from 0 (c ∷ cs))

abbrev host_group : Str → Str → Option Str
host_group host tag = if str_eq tag (codes "host") then some host else none

abbrev engine : Engine Str
engine = record {
  is_match = λ r s. is_some (strip_prefix r s);
  captures = λ r s. map_option host_group (strip_prefix r s);
  extract_date = λ s. none;
  ip_from_str = address;
}

abbrev to_string : IpAddr → Str
to_string (v4 a) = decimal a
to_string (v6 a) = decimal a

abbrev in_net : ℕ → IpAddr → Bool
in_net n (v4 a) = a / 16777216 == n
in_net n (v6 a) = false

abbrev addressing : Addressing ℕ
addressing = record {
  addr_from_str = address;
  addr_to_string = to_string;
  net_from_str = λ s. none;
  net_contains = in_net;
}

abbrev shell : Shell
shell = record { split = λ s. some (split (λ c. c == b' ') s); succeeds = λ ran c. true }

abbrev pub outside : Outside Str ℕ
outside = record {
  engine = engine;
  addressing = addressing;
  shell = shell;
  to_socket_addrs = λ s. none;
  ticket_json = λ user lines. join (10 ∷ []) lines;
  from_timestamp = λ s. some (seconds s);
}

-- 203.0.113.7 as a number, and an address of 10.0.0.0/8.
abbrev pub peer : Str
peer = codes "3405803783"

abbrev pub friend : Str
friend = codes "167772161"

abbrev pub config : JailConfig ℕ
config = record {
  name = codes "sshd";
  maxretry = 2;
  findtime = of_seconds 600;
  bantime = of_seconds 600;
  bantime_increment = true;
  bantime_factor = 2;
  bantime_maxtime = some (of_seconds 3600);
  bantime_rndtime = none;
  usedns = codes "warn";
  ignoreself = true;
  ignoreip = net 10 ∷ [];
  ignorecommand = none;
  ignorecache = none;
  maxmatches = 5;
}

abbrev pub jittery : JailConfig ℕ
jittery = record config { bantime_rndtime = some (of_seconds 60) }

abbrev pub permanent : JailConfig ℕ
permanent = record config { bantime = permanent_value; bantime_increment = false }

abbrev pub filter : CompiledFilter Str
filter = record { prefregex = none; failregex = codes "bad " ∷ []; ignoreregex = []; maxlines = 1 }

abbrev action_config : ActionConfig
action_config = record {
  name = codes "note";
  actionstart = some (codes "start <name>");
  actionstop = some (codes "stop <name>");
  actioncheck = none;
  actionrepair = none;
  actionflush = none;
  actionban = some (codes "ban <ip>");
  actionunban = some (codes "unban <ip>");
  actionstart_on_demand = true;
  timeout = 60;
  init = [];
}

abbrev pub on_demand : Action
on_demand = record {
  name = codes "note";
  jail = codes "sshd";
  config = action_config;
  started = false;
}

-- The `n`-th second on every clock.
abbrev pub at_second : ℕ → Instants
at_second n = record {
  seen = pos (n * 1000000000);
  banned = pos (n * 1000000000);
  looked = n * 1000000000;
  stored = n * 1000000000;
  seed = 1;
}

-- A failure, and a success event, of a host.
abbrev pub failure : Str → MatchResult
failure host = record {
  host = host;
  ip = address host;
  user = none;
  alt_user = none;
  mlfid = none;
  timestamp = none;
  nofail = false;
  mlfforget = false;
  mlfgained = false;
  line = codes "bad";
  regex_index = 0;
}

abbrev pub fail_ticket : FailTicket
fail_ticket = record {
  host = peer;
  ip = address peer;
  user = none;
  alt_user = none;
  mlfid = none;
  times = pos 0 ∷ pos 1000000000 ∷ [];
  matches = codes "bad" ∷ [];
  nofail = false;
}

abbrev pub ban_ticket : BanTicket
ban_ticket = record {
  host = peer;
  ip = address peer;
  user = none;
  alt_user = none;
  mlfid = none;
  time_of_ban = pos 0;
  bantime = some (pos 600000000000);
  matches = [];
  failures = 2;
}

-- The history of one ban that is current, and of an older one that is not.
abbrev pub older : DbBan
older = record {
  jail = codes "sshd";
  ip = peer;
  time_of_ban = pos 10;
  bantime = some (pos 600);
  payload = [];
}

abbrev pub newer : DbBan
newer = record older { time_of_ban = pos 2000 }

abbrev pub database : Database
database = record {
  bans = older ∷ newer ∷ [];
  bips = record { jail = codes "sshd"; ip = peer; time_of_ban = pos 2000 } ∷ [];
}
