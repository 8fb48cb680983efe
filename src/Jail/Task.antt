-- ===== src/Jail/Task.antt =====
-- src/server/jail.rs: `Jail::spawn`, and the loop of the task. The `select!` takes the next of a log
-- line, a command and a tick of the purge interval; the sequence of events stands for its choices.
use rail2ban.Prelude.{false, Option, List, [], ◌∷◌, Str, and_then}
use rail2ban.Prelude.Int.{ℤ}
use rail2ban.Clock.{as_i64}
use rail2ban.Time.{to_seconds_or_max}
use rail2ban.Ip.{IpAddr}
use rail2ban.Filter.{CompiledFilter, new_buffer}
use rail2ban.FailManager
use rail2ban.BanManager
use rail2ban.Database.{Database}
use rail2ban.Action.{Action, Command, start, stop}
use rail2ban.IgnoreCache
use rail2ban.Jail.State.{Jail, JailConfig, Outside, Instants}
use rail2ban.Jail.Ban.{each_action}
use rail2ban.Jail.Line.{process_line}
use rail2ban.Jail.Manual.{manual_ban, manual_unban, flush_all_bans, manual_attempt, restore_ban}
use rail2ban.Jail.Purge.{purge_expired_bans}

-- A log line, a tick, or a `JailCommand` other than `Stop`.
pub data Event : Type 0 where
  line : Str → Event
  attempt : Str → List Str → Event
  ban_ip : Str → Event
  unban_ip : Str → Event
  flush_all : Event
  restore : Str → Option IpAddr → ℤ → Option ℤ → Event
  tick : Event

-- What ends the loop is `JailCommand::Stop`, or that all channels are closed.
pub data Message : Type 0 where
  event : Event → Instants → Message
  stop_task : Message

module _ {R N : Type 0} (outside : Outside R N) where
  abbrev pub started_all : List Action → List Command → List Action × List Command
  started_all [] ran = ([], ran)
  started_all (a ∷ acts) ran =
      let (a', _, ran') = start outside.shell a false ran in
      let (acts', ran'') = started_all acts ran' in (a' ∷ acts', ran'')

  unfoldable pub spawn :
      JailConfig N → CompiledFilter R → List Action → Option Database → List Command → Jail R N
  unfolding start new_buffer to_seconds_or_max
  spawn c filter acts db ran =
      let (acts', ran') = started_all acts ran in
      record {
        config = c;
        filter = filter;
        actions = acts';
        fail_mgr = FailManager.new c.maxretry (as_i64 (to_seconds_or_max c.findtime)) c.maxmatches;
        ban_mgr = BanManager.new;
        db = db;
        line_buffer = new_buffer filter.maxlines;
        ignore_cache = and_then c.ignorecache IgnoreCache.parse;
        ran = ran';
      }

  unfoldable pub handle : Jail R N → Event → Instants → Jail R N
  unfolding process_line manual_ban manual_unban flush_all_bans manual_attempt restore_ban
      purge_expired_bans
  handle j (line text) at = process_line outside j text at
  handle j (attempt ip failures) at = manual_attempt outside j ip at
  handle j (ban_ip ip) at = manual_ban outside j ip at
  handle j (unban_ip ip) at = manual_unban outside j ip
  handle j flush_all at = flush_all_bans outside j
  handle j (restore ip ip_addr time_of_ban bantime) at =
      restore_ban outside j ip ip_addr time_of_ban bantime at
  handle j tick at = purge_expired_bans outside j at

  -- Behind the loop: the last purge, and actionstop on a copy of each action.
  unfoldable pub shut_down : Jail R N → Instants → Jail R N
  unfolding purge_expired_bans each_action
  shut_down j at =
      let j' = purge_expired_bans outside j at in
      record j' {
        ran = each_action outside.shell (λ a ran. (stop outside.shell a ran).2) j'.actions j'.ran;
      }

  unfoldable pub run : Jail R N → List Message → Instants → Jail R N
  unfolding handle shut_down
  run j [] last = shut_down j last
  run j (stop_task ∷ ms) last = shut_down j last
  run j (event e at ∷ ms) last = run (handle j e at) ms last
