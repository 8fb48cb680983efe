-- ===== src/Jail/KeepsLine.antt =====
-- src/server/jail.rs: the invariant of a jail through a log line.
use rail2ban.Prelude.{
  ℕ, map_option, ◌≡◌, refl, Bool, true, false, ◌&&◌, Option, none, some, Str, arith, if◌then◌else◌,
  str_eq_refl,
}
use rail2ban.Clock.{timestamp, as_i64}
use rail2ban.Ip.{IpAddr, matches_ip, matches_raw}
use rail2ban.Filter.{MatchResult, LineBuffer, process_buffered}
use rail2ban.FailManager.{FailTicket, FailManager}
use rail2ban.FailManager.Laws
use rail2ban.BanManager.{BanTicket, BanManager, ticket_from_fail, is_expired, is_banned}
use rail2ban.BanManager
use rail2ban.BanManager.View.{add_ban-IsValid}
use rail2ban.Database.{Database}
use rail2ban.Database.Current.{is_current-add_ban}
use rail2ban.Jail.State.{Jail, Outside, Instants}
use rail2ban.Jail.Ignore.{is_own_ip, check_ignorecommand, run_and_remember}
use rail2ban.Jail.Ban.{issue_ban, stored}
use rail2ban.Jail.Line.{
  process_line, process_match, count_and_ban, screen, screen_addr, forget, resolved, unless_ignored,
  ban_reported, forget_context, count_resolved, process_result,
}
use rail2ban.Jail.Tracked.{Inv, Tracked, is_banned-add_ban}

module _ {R N : Type 0} (outside : Outside R N) where
  -- A state that differs in what the invariant does not read.
  Inv-of_parts :
      (j k : Jail R N)
      → k.config ≡ j.config
      → k.db ≡ j.db
      → k.ban_mgr ≡ j.ban_mgr
      → k.fail_mgr ≡ j.fail_mgr
      → Inv j
      → Inv k
  Inv-of_parts j k c d b f v = record {
    bans = rw b v.bans;
    fails = rw f v.fails;
    tracked = rw (c, d, b) v.tracked;
  }

  Tracked-stored :
      (j : Jail R N) (t : BanTicket) (secs : Option ℕ) (db : Option Database) (b : BanManager)
      → Tracked j.config.name db b
      → Tracked j.config.name (stored outside j t secs db) (BanManager.add_ban b t).0
  Tracked-stored j t secs none b tracked h now = absurd (cc)
  Tracked-stored j t secs (some db) b tracked h now = ground (
    arith,
    is_banned-add_ban b t h,
    tracked h,
    str_eq_refl j.config.name,
    is_current-add_ban db j.config.name t.host (timestamp t.time_of_ban) (map_option as_i64 secs)
        (outside.ticket_json t.user t.matches) j.config.name h,
  )

  pub issue_ban-Inv :
      (j : Jail R N) (fail : FailTicket) (m : MatchResult) (secs : Option ℕ) (at : Instants)
      → Inv j
      → Inv (issue_ban outside j fail m secs at)
  unfolding issue_ban Laws.apply
  issue_ban-Inv j fail m secs at v =
      let t = ticket_from_fail fail m secs at.banned in
      record {
        bans = add_ban-IsValid j.ban_mgr t v.bans;
        fails = Laws.apply-IsValid j.fail_mgr (Laws.removes t.host) v.fails;
        tracked = Tracked-stored j t secs j.db j.ban_mgr v.tracked;
      }

  pub with_fails :
      (j : Jail R N) (f : FailManager) → Laws.IsValid f → Inv j → Inv (record j { fail_mgr = f })
  with_fails j f h v = record { bans = v.bans; fails = h; tracked = v.tracked }

  forget-Inv : (j : Jail R N) (host : Str) → Inv j → Inv (forget outside j host)
  unfolding forget Laws.apply
  forget-Inv j host v = with_fails j _ (Laws.apply-IsValid j.fail_mgr (Laws.removes host) v.fails) v

  check_ignorecommand-Inv :
      (j : Jail R N) (key : Str) (at : Instants)
      → Inv j
      → Inv (check_ignorecommand outside j key at).0
  unfolding check_ignorecommand run_and_remember
  check_ignorecommand-Inv j key at v =
      Inv-of_parts j (check_ignorecommand outside j key at).0 (ground arith) (ground arith)
        (ground arith) (ground arith) v

  unless_ignored-Inv :
      (host : Str) (k : Jail R N → Jail R N) (p : Jail R N × Bool)
      → ((j : Jail R N) → Inv j → Inv (k j))
      → Inv p.0
      → Inv (unless_ignored outside host k p)
  unless_ignored-Inv host k (j, true) keeps v = forget-Inv j host v
  unless_ignored-Inv host k (j, false) keeps v = keeps j v

  pub if-Inv : (b : Bool) (x y : Jail R N) → Inv x → Inv y → Inv (if b then x else y)
  if-Inv true x y v w = v
  if-Inv false x y v w = w

  -- The checks before a ban, whatever they decide.
  screen_addr-Inv :
      (j : Jail R N) (host : Str) (at : Instants) (k : Jail R N → Jail R N) (o : Option IpAddr)
      → ((j : Jail R N) → Inv j → Inv (k j))
      → Inv j
      → Inv (screen_addr outside j host at k o)
  unfolding screen_addr
  screen_addr-Inv j host at k (some a) keeps v =
      let left = forget-Inv j host v in
      let key = outside.addressing.addr_to_string a in
      if-Inv (j.config.ignoreself && is_own_ip a) _ _ left (
        if-Inv (matches_ip outside.addressing j.config.ignoreip a) _ _ left (
          unless_ignored-Inv host k (check_ignorecommand outside j key at) keeps
            (check_ignorecommand-Inv j key at v)))
  screen_addr-Inv j host at k none keeps v =
      if-Inv (matches_raw outside.addressing j.config.ignoreip host) _ _ (forget-Inv j host v) (
        unless_ignored-Inv host k (check_ignorecommand outside j host at) keeps
          (check_ignorecommand-Inv j host at v))

  ban_reported-Inv :
      (m : MatchResult) (secs : Option ℕ) (at : Instants) (p : Jail R N × Option FailTicket)
      → Inv p.0
      → Inv (ban_reported outside m secs at p)
  unfolding screen
  ban_reported-Inv m secs at (j, none) v = v
  ban_reported-Inv m secs at (j, some t) v =
      screen_addr-Inv j t.host at _ t.ip (λ j' v'. issue_ban-Inv j' t m secs at v') v

  count_and_ban-Inv :
      (j : Jail R N) (m : MatchResult) (at : Instants) → Inv j → Inv (count_and_ban outside j m at)
  unfolding count_and_ban
  count_and_ban-Inv j m at v =
      ban_reported-Inv m _ at _
        (with_fails j _ (Laws.add_failure-IsValid j.fail_mgr m at.seen v.fails) v)

  process_match-Inv :
      (j : Jail R N) (m : MatchResult) (at : Instants) → Inv j → Inv (process_match outside j m at)
  unfolding process_match Laws.apply
  process_match-Inv j m at v =
      if-Inv m.mlfforget _ _ (forgotten m.mlfid) (counted (resolved outside j.config.usedns m))
    where
      forgotten : (id : Option Str) → Inv (forget_context outside j id)
      forgotten none = v
      forgotten (some id) =
          with_fails j _ (Laws.apply-IsValid j.fail_mgr (Laws.forgets id) v.fails) v

      counted : (o : Option MatchResult) → Inv (count_resolved outside j at o)
      counted none = v
      counted (some m') = count_and_ban-Inv j m' at v

  pub process_line-Inv :
      (j : Jail R N) (text : Str) (at : Instants) → Inv j → Inv (process_line outside j text at)
  unfolding process_line
  process_line-Inv j text at v = go (process_buffered outside.engine j.filter j.line_buffer text)
    where
      go : (p : LineBuffer × Option MatchResult) → Inv (process_result outside j at p)
      go (buf, none) = Inv-of_parts j _ refl refl refl refl v
      go (buf, some m) = process_match-Inv _ m at (Inv-of_parts j _ refl refl refl refl v)
