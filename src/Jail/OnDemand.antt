-- ===== src/Jail/OnDemand.antt =====
-- src/server/jail.rs: the `started` flags of a jail's actions, which the handlers work on copies of.
use rail2ban.Prelude.{
  ℕ, ◌≡◌, refl, ap, ◌∙◌, Bool, true, false, ◌&&◌, Option, none, some, List, [], ◌∷◌, Str, arith,
  if◌then◌else◌, All,
}
use rail2ban.Action.{Action, Command, start, stop}
use rail2ban.Filter.{CompiledFilter, MatchResult, LineBuffer, process_buffered}
use rail2ban.FailManager.{FailTicket, FailManager, add_failure}
use rail2ban.BanManager.{BanTicket, BanManager}
use rail2ban.BanManager
use rail2ban.Database.{Database}
use rail2ban.Ip.{IpAddr, matches_ip, matches_raw}
use rail2ban.Jail.State.{Jail, JailConfig, Outside, Instants}
use rail2ban.Jail.Ignore.{is_own_ip, check_ignorecommand, run_and_remember}
use rail2ban.Jail.Ban.{issue_ban, each_action}
use rail2ban.Jail.Line.{
  process_line, process_match, count_and_ban, screen, screen_addr, forget, resolved, unless_ignored,
  ban_reported, forget_context, count_resolved, process_result,
}
use rail2ban.Jail.Manual.{
  manual_ban, manual_unban, flush_all_bans, manual_attempt, restore_ban, unban_removed, attempt_of,
  attempt_reported,
}
use rail2ban.Jail.Purge.{purge_expired_bans}
use rail2ban.Jail.Task.{
  Event, handle, spawn, shut_down, started_all, line, attempt, ban_ip, unban_ip, flush_all, restore,
  tick,
}
use rail2ban.Jail.Keeps.{handled}

module _ {R N : Type 0} (outside : Outside R N) where
  abbrev Same : Jail R N → Jail R N → Type 0
  Same j k = (k.actions ≡ j.actions) × (k.config ≡ j.config)

  if-Same :
      (j : Jail R N) (b : Bool) (x y : Jail R N) → Same j x → Same j y → Same j (if b then x else y)
  if-Same j true x y v w = v
  if-Same j false x y v w = w

  check_ignorecommand-Same :
      (j : Jail R N) (key : Str) (at : Instants) → Same j (check_ignorecommand outside j key at).0
  unfolding check_ignorecommand run_and_remember
  check_ignorecommand-Same j key at = ground arith

  unless_ignored-Same :
      (j : Jail R N) (t : FailTicket) (m : MatchResult) (p : Jail R N × Bool) (host : Str)
      (k : Jail R N → Jail R N)
      → ((i : Jail R N) → Same i (k i))
      → Same j p.0
      → Same j (unless_ignored outside host k p)
  unfolding forget
  unless_ignored-Same j t m (i, true) host k keeps s = s
  unless_ignored-Same j t m (i, false) host k keeps s = ((keeps i).0 ∙ s.0, (keeps i).1 ∙ s.1)

  screen_addr-Same :
      (j : Jail R N) (t : FailTicket) (m : MatchResult) (at : Instants) (k : Jail R N → Jail R N)
      (o : Option IpAddr)
      → ((i : Jail R N) → Same i (k i))
      → Same j (screen_addr outside j t.host at k o)
  unfolding screen_addr forget
  screen_addr-Same j t m at k (some a) keeps =
      let key = outside.addressing.addr_to_string a in
      if-Same j (j.config.ignoreself && is_own_ip a) _ _ (refl, refl)
        (if-Same j (matches_ip outside.addressing j.config.ignoreip a) _ _ (refl, refl)
          (unless_ignored-Same j t m (check_ignorecommand outside j key at) t.host k keeps
            (check_ignorecommand-Same j key at)))
  screen_addr-Same j t m at k none keeps =
      if-Same j (matches_raw outside.addressing j.config.ignoreip t.host) _ _ (refl, refl)
        (unless_ignored-Same j t m (check_ignorecommand outside j t.host at) t.host k keeps
          (check_ignorecommand-Same j t.host at))

  process_line-Same :
      (j : Jail R N) (text : Str) (at : Instants) → Same j (process_line outside j text at)
  unfolding process_line process_match count_and_ban screen issue_ban
  process_line-Same j text at = go (process_buffered outside.engine j.filter j.line_buffer text)
    where
      reported :
          (i : Jail R N) (m : MatchResult) (p : FailManager × Option FailTicket) (secs : Option ℕ)
          → Same i (ban_reported outside m secs at (record i { fail_mgr = p.0 }, p.1))
      reported i m (f, none) secs = (refl, refl)
      reported i m (f, some t) secs =
          screen_addr-Same (record i { fail_mgr = f }) t m at
            (λ j'. issue_ban outside j' t m secs at) t.ip (λ _. (refl, refl))

      counted : (i : Jail R N) (o : Option MatchResult) → Same i (count_resolved outside i at o)
      counted i none = (refl, refl)
      counted i (some m) = reported i m (add_failure i.fail_mgr m at.seen) _

      forgotten : (i : Jail R N) (id : Option Str) → Same i (forget_context outside i id)
      forgotten i none = (refl, refl)
      forgotten i (some id) = (refl, refl)

      go : (p : LineBuffer × Option MatchResult) → Same j (process_result outside j at p)
      go (buf, none) = (refl, refl)
      go (buf, some m) =
          let i = record j { line_buffer = buf } in
          if-Same j m.mlfforget _ _ (forgotten i m.mlfid)
            (counted i (resolved outside i.config.usedns m))

  -- No handler changes the actions of the jail: their flags stay what `spawn` left.
  pub handle-actions :
      (j : Jail R N) (e : Event) (at : Instants)
      → ((handle outside j e at).actions ≡ j.actions) × ((handle outside j e at).config ≡ j.config)
  unfolding handle manual_ban manual_unban flush_all_bans manual_attempt restore_ban issue_ban
      purge_expired_bans
  handle-actions j (line text) at = process_line-Same j text at
  handle-actions j (attempt ip failures) at =
      attempted (add_failure j.fail_mgr (attempt_of outside ip at) at.seen)
    where
      attempted :
          (p : FailManager × Option FailTicket)
          → Same j (attempt_reported outside j (attempt_of outside ip at) at p)
      attempted (f, none) = (refl, refl)
      attempted (f, some t) = (refl, refl)
  handle-actions j (ban_ip ip) at = (refl, refl)
  handle-actions j (unban_ip ip) at = unbanned (BanManager.remove_ban j.ban_mgr ip)
    where
      unbanned : (p : BanManager × Option BanTicket) → Same j (unban_removed outside j ip p)
      unbanned (b, none) = (refl, refl)
      unbanned (b, some t) = (refl, refl)
  handle-actions j flush_all at = (refl, refl)
  handle-actions j (restore ip ip_addr t bantime) at = if-Same j _ _ _ (refl, refl) (refl, refl)
  handle-actions j tick at = (refl, refl)

  handled-actions :
      (j : Jail R N) (es : List (Event × Instants)) → (handled outside j es).actions ≡ j.actions
  unfolding handled
  handled-actions j [] = refl
  handled-actions j ((e, at) ∷ es) =
      handled-actions (handle outside j e at) es ∙ (handle-actions j e at).0

  -- An action that waits for its first ban, and has not been started.
  abbrev pub Waiting : Action → Type 0
  Waiting a = (a.config.actionstart_on_demand ≡ true) × (a.started ≡ false)

  started_all-Waiting :
      (acts : List Action) (ran : List Command)
      → All Waiting acts
      → started_all outside acts ran ≡ (acts, ran)
  unfolding start
  started_all-Waiting [] ran w = refl
  started_all-Waiting (a ∷ acts) ran w = ground (arith, started_all-Waiting acts ran w.1)

  stop-Waiting :
      (acts : List Action) (ran : List Command)
      → All Waiting acts
      → each_action outside.shell (λ a ran. (stop outside.shell a ran).2) acts ran ≡ ran
  unfolding each_action stop
  stop-Waiting [] ran w = refl
  stop-Waiting (a ∷ acts) ran w = ground (arith, stop-Waiting acts ran w.1)

  spawn-actions :
      (c : JailConfig N) (filter : CompiledFilter R) (acts : List Action) (db : Option Database)
      (ran : List Command)
      → All Waiting acts
      → (spawn outside c filter acts db ran).actions ≡ acts
  unfolding spawn
  spawn-actions c filter acts db ran w = ap (λ r. r.0) (started_all-Waiting acts ran w)

  -- In a jail whose actions all start on demand, the shutdown runs no actionstop, whatever happened
  -- before it: behind the last purge no command is run. (A ban starts a copy of the action, and the
  -- copy that the shutdown makes says that the action has not been started.)
  pub on_demand_never_stops :
      (c : JailConfig N) (filter : CompiledFilter R) (acts : List Action) (db : Option Database)
      (ran : List Command) (es : List (Event × Instants)) (at : Instants)
      → All Waiting acts
      → (shut_down outside (handled outside (spawn outside c filter acts db ran) es) at).ran
        ≡ (purge_expired_bans outside
            (handled outside (spawn outside c filter acts db ran) es)
            at).ran
  unfolding shut_down purge_expired_bans
  on_demand_never_stops c filter acts db ran es at w =
      let j = handled outside (spawn outside c filter acts db ran) es in
      let same =
        handled-actions (spawn outside c filter acts db ran) es
        ∙ spawn-actions c filter acts db ran w in
      stop-Waiting j.actions (purge_expired_bans outside j at).ran (rw same w)
