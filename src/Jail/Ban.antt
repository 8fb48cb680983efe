-- ===== src/Jail/Ban.antt =====
-- src/server/jail.rs: `issue_ban`.
use rail2ban.Prelude.{ℕ, true, false, Option, none, some, List, [], ◌∷◌, map_option}
use rail2ban.Clock.{timestamp, as_i64}
use rail2ban.Filter.{MatchResult}
use rail2ban.FailManager.{FailTicket}
use rail2ban.FailManager
use rail2ban.BanManager.{BanTicket, ticket_from_fail}
use rail2ban.BanManager
use rail2ban.Database.{Database}
use rail2ban.Database
use rail2ban.Action.{Action, BanContext, Command, Shell, Outcome, check, repair, ban}
use rail2ban.Jail.State.{Jail, Outside, Instants, family_or_inet4, fid_of}

-- The context of the commands for a ban that is held as a ticket.
unfoldable pub context_of : BanTicket → Option ℕ → BanContext
context_of t bantime = record {
  ip = t.host;
  ip_addr = t.ip;
  family = family_or_inet4 t.ip;
  user = t.user;
  alt_user = t.alt_user;
  fid = fid_of t.ip t.host;
  bantime = bantime;
  matches = t.matches;
  failures = t.failures;
}

module _ (shell : Shell) where
  unfoldable pub ban_action : Action → BanContext → List Command → List Command
  ban_action a ctx ran = (ban shell a ctx ran).2

  abbrev after_retry : Action → BanContext → Outcome → List Command
  after_retry a ctx (true, ran) = ban_action a ctx ran
  after_retry a ctx (false, ran) = ran

  abbrev after_repair : Action → BanContext → Outcome → List Command
  after_repair a ctx (true, ran) = after_retry a ctx (check shell a ctx ran)
  after_repair a ctx (false, ran) = ran

  abbrev after_check : Action → BanContext → Outcome → List Command
  after_check a ctx (true, ran) = ban_action a ctx ran
  after_check a ctx (false, ran) = after_repair a ctx (repair shell a ctx ran)

  -- actioncheck, actionrepair and the retry, then actionban, on a copy of the action.
  unfoldable pub check_and_ban : Action → BanContext → List Command → List Command
  unfolding ban_action
  check_and_ban a ctx ran = after_check a ctx (check shell a ctx ran)

  -- A loop over the actions of a jail; each round sees the commands of those before it.
  unfoldable pub each_action :
      (Action → List Command → List Command) → List Action → List Command → List Command
  each_action f [] ran = ran
  each_action f (a ∷ as') ran = each_action f as' (f a ran)

module _ {R N : Type 0} (outside : Outside R N) where
  abbrev pub stored : Jail R N → BanTicket → Option ℕ → Option Database → Option Database
  stored j t bantime_secs none = none
  stored j t bantime_secs (some db) = some (
      Database.add_ban db j.config.name t.host (timestamp t.time_of_ban)
        (map_option as_i64 bantime_secs) (outside.ticket_json t.user t.matches))

  unfoldable pub issue_ban : Jail R N → FailTicket → MatchResult → Option ℕ → Instants → Jail R N
  unfolding context_of check_and_ban each_action
  issue_ban j fail matches bantime_secs at =
      let t = ticket_from_fail fail matches bantime_secs at.banned in
      let ctx = context_of t bantime_secs in
      record j {
        db = stored j t bantime_secs j.db;
        ran = each_action outside.shell (λ a. check_and_ban outside.shell a ctx) j.actions j.ran;
        ban_mgr = (BanManager.add_ban j.ban_mgr t).0;
        fail_mgr = (FailManager.remove j.fail_mgr t.host).0;
      }
