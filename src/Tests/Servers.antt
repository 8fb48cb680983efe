-- ===== src/Tests/Servers.antt =====
-- The server on concrete requests: one jail, configured and running.
use rail2ban.Prelude.{
  some, ℕ, ◌≡◌, refl, true, false, none, [], ◌∷◌, codes, List, Str, str_eq, join,
}
use rail2ban.Prelude.Dict
use rail2ban.Prelude.Int.{pos}
use rail2ban.Error.{Error, ok, err}
use rail2ban.BanManager.{BanManager, is_banned}
use rail2ban.Filter.{new_buffer}
use rail2ban.FailManager
use rail2ban.BanManager
use rail2ban.Jail.State.{Jail, Instants}
use rail2ban.Jail.Task.{Event, line, unban_ip}
use rail2ban.Jail.Keeps.{handled}
use rail2ban.Config.Loaded.{GlobalConfig, JailEntry, LoadedConfig}
use rail2ban.Server.Jails.{
  JailHandle, Server, Machine, new, get_jail, find_jail, unban_ip_all, send_unban, config_path,
}
use rail2ban.Server.Table.{Named, Unique}
use rail2ban.Server.Commands
use rail2ban.Server.Jails
use rail2ban.Server.Commands.{Front, dispatch, reload, restart, reload_dirs, obey, verbs}
use rail2ban.Server.Requests.{serve, serve-Unique}
use rail2ban.Server.Refused.{dispatch-refused}
use rail2ban.Server.Unban.{unban_ip_all-lifts}
use rail2ban.Tests.Data
use rail2ban.Tests.Data.{outside, peer, ban_ticket, at_second}

abbrev global : GlobalConfig
global = record {
  loglevel = codes "INFO";
  logtarget = codes "STDOUT";
  dbfile = codes "none";
  dbmaxmatches = 10;
  dbpurgeage = 86400;
}

abbrev entry : JailEntry ℕ
entry = record {
  enabled = true;
  filter = codes "sshd";
  filter_params = [];
  logpath = [];
  logencoding = codes "auto";
  journalmatch = [];
  maxlines = 1;
  extra = [];
  actions = [];
  settings = Data.config;
}

abbrev config : LoadedConfig ℕ
config = record {
  defaults = [];
  jails = record { defaults = []; jails = (codes "sshd", entry) ∷ [] };
  filters =
      (
        codes "sshd",
        record {
          name = codes "sshd";
          doc = record { sections = record { name = codes "Definition"; entries = [] } ∷ [] };
        },
      )
      ∷ [];
  actions = [];
  global = global;
}

abbrev machine : Machine Str ℕ
machine = record {
  regex_new = λ p. some p;
  open_db = λ path. err Error.database;
  outside = outside;
}

abbrev front : Front Str ℕ
front = record {
  machine = machine;
  net_to_string = λ n. codes "net";
  load = λ dirs. ok config;
  error_text = λ e. codes "error";
  debug = join (codes ", ");
  version = codes "0.1.0";
}

named : Named config.jails.jails
named = (refl, tt)

loads_named : (dirs : List Str) (c : LoadedConfig ℕ) → front.load dirs ≡ ok c → Named c.jails.jails
loads_named dirs c e = let same : c ≡ config = cc e in rw same named

serve-Unique_example :
    Unique
      (serve front
        (new config)
        ((codes "start" ∷ codes "sshd" ∷ []) ∷ (codes "start" ∷ codes "--all" ∷ []) ∷ [])).jails
serve-Unique_example =
    serve-Unique front config
      ((codes "start" ∷ codes "sshd" ∷ []) ∷ (codes "start" ∷ codes "--all" ∷ []) ∷ []) named
      loads_named

dispatch-refused_example :
    (dispatch front (new config) (codes "stop" ∷ codes "sshd" ∷ [])).0 ≡ new config
unfolding dispatch Commands.stop Jails.stop_jail get_jail find_jail new str_eq Dict.lookup
dispatch-refused_example =
    dispatch-refused front (new config) (codes "stop") (codes "sshd" ∷ []) refl refl refl

abbrev searching : Server Str ℕ
searching = record (new config) { search_dirs = codes "/etc" ∷ [] }

-- A jail that holds the peer and has a line to read.
abbrev jail : Jail Str ℕ
jail = record {
  config = Data.config;
  filter = Data.filter;
  actions = [];
  fail_mgr = FailManager.new 2 (pos 600) 5;
  ban_mgr = (BanManager.add_ban BanManager.new ban_ticket).0;
  db = none;
  line_buffer = new_buffer 1;
  ignore_cache = none;
  ran = [];
}

abbrev handle : JailHandle Str ℕ
handle = record { name = codes "sshd"; jail = jail; sent = line (codes "hello") ∷ [] }

abbrev running : Server Str ℕ
running = record (new config) { jails = handle ∷ [] }

abbrev told : JailHandle Str ℕ
told = record handle { sent = line (codes "hello") ∷ unban_ip ban_ticket.host ∷ [] }

abbrev work : List (Event × Instants)
work = (line (codes "hello"), at_second 1) ∷ (unban_ip ban_ticket.host, at_second 2) ∷ []

unban_ip_all-lifts_example :
    is_banned (handled outside told.jail work).ban_mgr ban_ticket.host ≡ false
unfolding get_jail find_jail unban_ip_all send_unban str_eq new is_banned BanManager.add_ban
    BanManager.new Dict.insert Dict.lookup
unban_ip_all-lifts_example =
    unban_ip_all-lifts outside running ban_ticket.host (codes "sshd") handle told work refl refl
      refl refl
