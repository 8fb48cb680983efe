-- ===== src/Jail/Line.antt =====
-- src/server/jail.rs: `process_line`, from the filter to the ban.
use rail2ban.Prelude.{
  ℕ, Bool, true, false, ◌&&◌, ◌||◌, Option, none, some, [], ◌∷◌, Str, codes, str_eq, if◌then◌else◌,
  is_some, not,
}
use rail2ban.Ip.{IpAddr, matches_ip, matches_raw}
use rail2ban.Filter.{MatchResult, LineBuffer, process_buffered}
use rail2ban.FailManager.{FailTicket, FailManager}
use rail2ban.FailManager
use rail2ban.Jail.State.{Jail, Outside, Instants}
use rail2ban.Jail.Bantime.{compute_bantime}
use rail2ban.Jail.Ignore.{is_own_ip, check_ignorecommand, resolve_dns}
use rail2ban.Jail.Ban.{issue_ban}

module _ {R N : Type 0} (outside : Outside R N) where
  open outside use {addressing}

  unfoldable pub forget : Jail R N → Str → Jail R N
  forget j host = record j { fail_mgr = (FailManager.remove j.fail_mgr host).0 }

  -- What `usedns` makes of a host that is no address; `none` skips the line.
  unfoldable pub use_dns : Str → MatchResult → Option MatchResult
  unfolding str_eq
  use_dns usedns m =
      if str_eq usedns (codes "no")
      then none
      else if str_eq usedns (codes "yes") || str_eq usedns (codes "warn")
      then some (record m { ip = resolve_dns outside m.host })
      else some m

  abbrev is_empty : Str → Bool
  is_empty [] = true
  is_empty (c ∷ cs) = false

  unfoldable pub resolved : Str → MatchResult → Option MatchResult
  unfolding use_dns
  resolved usedns m =
      if not (is_some m.ip) && not (is_empty m.host) then use_dns usedns m else some m

  abbrev pub unless_ignored : Str → (Jail R N → Jail R N) → Jail R N × Bool → Jail R N
  unless_ignored host k (j, true) = forget j host
  unless_ignored host k (j, false) = k j

  -- ignoreself, ignoreip and ignorecommand stand between a reported ticket and the ban `k`.
  unfoldable pub screen_addr :
      Jail R N → Str → Instants → (Jail R N → Jail R N) → Option IpAddr → Jail R N
  unfolding forget check_ignorecommand is_own_ip
  screen_addr j host at k (some a) =
      if j.config.ignoreself && is_own_ip a
      then forget j host
      else if matches_ip addressing j.config.ignoreip a
      then forget j host
      else unless_ignored host k (check_ignorecommand outside j (addressing.addr_to_string a) at)
  screen_addr j host at k none =
      if matches_raw addressing j.config.ignoreip host
      then forget j host
      else unless_ignored host k (check_ignorecommand outside j host at)

  unfoldable pub screen : Jail R N → FailTicket → Instants → (Jail R N → Jail R N) → Jail R N
  unfolding screen_addr
  screen j t at k = screen_addr j t.host at k t.ip

  abbrev pub ban_reported :
      MatchResult → Option ℕ → Instants → Jail R N × Option FailTicket → Jail R N
  ban_reported m bantime_secs at (j, none) = j
  ban_reported m bantime_secs at (j, some t) =
      screen j t at (λ j'. issue_ban outside j' t m bantime_secs at)

  abbrev pub with_failures :
      Jail R N → FailManager × Option FailTicket → Jail R N × Option FailTicket
  with_failures j (f, r) = (record j { fail_mgr = f }, r)

  -- The part behind the DNS step: the ban time is computed before the failure is counted.
  unfoldable pub count_and_ban : Jail R N → MatchResult → Instants → Jail R N
  unfolding screen issue_ban compute_bantime
  count_and_ban j m at =
      ban_reported m (compute_bantime j.config j.db m.host at.seed) at
        (with_failures j (FailManager.add_failure j.fail_mgr m at.seen))

  abbrev pub forget_context : Jail R N → Option Str → Jail R N
  forget_context j none = j
  forget_context j (some id) = record j { fail_mgr = FailManager.forget_mlfid j.fail_mgr id }

  abbrev pub count_resolved : Jail R N → Instants → Option MatchResult → Jail R N
  count_resolved j at none = j
  count_resolved j at (some m) = count_and_ban j m at

  unfoldable pub process_match : Jail R N → MatchResult → Instants → Jail R N
  unfolding resolved count_and_ban
  process_match j m at =
      if m.mlfforget
      then forget_context j m.mlfid
      else count_resolved j at (resolved j.config.usedns m)

  abbrev pub process_result : Jail R N → Instants → LineBuffer × Option MatchResult → Jail R N
  process_result j at (buf, none) = record j { line_buffer = buf }
  process_result j at (buf, some m) = process_match (record j { line_buffer = buf }) m at

  unfoldable pub process_line : Jail R N → Str → Instants → Jail R N
  unfolding process_match
  process_line j line at =
      process_result j at (process_buffered outside.engine j.filter j.line_buffer line)
