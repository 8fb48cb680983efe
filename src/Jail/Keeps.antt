-- ===== src/Jail/Keeps.antt =====
-- src/server/jail.rs: the invariant of a jail through each handler, and through a whole run.
use rail2ban.Prelude.{◌≡◌, refl, ap, true, false, Option, none, some, List, [], ◌∷◌, Str, arith}
use rail2ban.Prelude.Int.{ℤ}
use rail2ban.Ip.{IpAddr}
use rail2ban.Action.{Action, Command}
use rail2ban.Filter.{CompiledFilter}
use rail2ban.FailManager.{FailTicket, FailManager, add_failure}
use rail2ban.FailManager
use rail2ban.FailManager.Laws
use rail2ban.BanManager.{BanTicket, BanManager, ticket_from_fail, is_expired, is_banned}
use rail2ban.BanManager
use rail2ban.BanManager.View
use rail2ban.BanManager.View.{add_ban-IsValid, apply-IsValid}
use rail2ban.Database.{Database}
use rail2ban.Jail.State.{Jail, JailConfig, Outside, Instants}
use rail2ban.Jail.Manual.{
  unban_removed, attempt_of, attempt_reported, manual_ban, manual_unban, flush_all_bans,
  manual_attempt, restore_ban, without,
}
use rail2ban.Jail.Purge.{purge_expired_bans}
use rail2ban.Jail.Task.{
  Event, handle, spawn, line, attempt, ban_ip, unban_ip, flush_all, restore, tick,
}
use rail2ban.Jail.Tracked.{
  Inv, current_in, Tracked-add_ban, Tracked-without, Tracked-clear, Tracked-expired, Tracked-absent,
  current_in-without,
}
use rail2ban.Jail.KeepsLine.{issue_ban-Inv, with_fails, if-Inv, process_line-Inv}

module _ {R N : Type 0} (outside : Outside R N) where
  manual_ban-Inv :
      (j : Jail R N) (ip : Str) (at : Instants) → Inv j → Inv (manual_ban outside j ip at)
  unfolding manual_ban
  manual_ban-Inv j ip at v = record {
    bans = add_ban-IsValid j.ban_mgr _ v.bans;
    fails = v.fails;
    tracked = Tracked-add_ban j.config.name j.db j.ban_mgr _ v.tracked;
  }

  manual_unban-Inv : (j : Jail R N) (ip : Str) → Inv j → Inv (manual_unban outside j ip)
  unfolding manual_unban View.apply
  manual_unban-Inv j ip v = go (BanManager.remove_ban j.ban_mgr ip) refl
    where
      valid : View.IsValid (BanManager.remove_ban j.ban_mgr ip).0
      valid = apply-IsValid j.ban_mgr (View.removes ip) v.bans

      go :
          (p : BanManager × Option BanTicket)
          → BanManager.remove_ban j.ban_mgr ip ≡ p
          → Inv (unban_removed outside j ip p)
      go (b, none) e = record {
        bans = rw (ap (λ q. q.0) e) at valid;
        fails = v.fails;
        tracked =
            rw (ap (λ q. q.0) e) at
              (Tracked-absent j.config.name ip j.db j.ban_mgr (ap (λ q. q.1) e) v.tracked);
      }
      go (b, some t) e = record {
        bans = rw (ap (λ q. q.0) e) at valid;
        fails = v.fails;
        tracked =
            rw (ap (λ q. q.0) e) at (Tracked-without j.config.name ip j.db j.ban_mgr v.tracked);
      }

  pub flush_all_bans-Inv : (j : Jail R N) → Inv j → Inv (flush_all_bans outside j)
  unfolding flush_all_bans View.apply
  flush_all_bans-Inv j v = record {
    bans = apply-IsValid j.ban_mgr View.clears v.bans;
    fails = v.fails;
    tracked = Tracked-clear j.config.name j.db j.ban_mgr v.bans v.tracked;
  }

  manual_attempt-Inv :
      (j : Jail R N) (ip : Str) (at : Instants) → Inv j → Inv (manual_attempt outside j ip at)
  unfolding manual_attempt
  manual_attempt-Inv j ip at v =
      let m = attempt_of outside ip at in
      go (add_failure j.fail_mgr m at.seen) (Laws.add_failure-IsValid j.fail_mgr m at.seen v.fails)
    where
      go :
          (p : FailManager × Option FailTicket)
          → Laws.IsValid p.0
          → Inv (attempt_reported outside j (attempt_of outside ip at) at p)
      go (f, none) h = with_fails outside j f h v
      go (f, some t) h = issue_ban-Inv outside _ t _ _ at (with_fails outside j f h v)

  restore_ban-Inv :
      (j : Jail R N) (ip : Str) (ip_addr : Option IpAddr) (t : ℤ) (bantime : Option ℤ)
      (at : Instants)
      → Inv j
      → Inv (restore_ban outside j ip ip_addr t bantime at)
  unfolding restore_ban
  restore_ban-Inv j ip ip_addr t bantime at v =
      if-Inv outside _ _ _
        (record {
          bans = v.bans;
          fails = v.fails;
          tracked = λ h now. v.tracked h (was_current j.config.name ip j.db h now);
        })
        (record {
          bans = add_ban-IsValid j.ban_mgr _ v.bans;
          fails = v.fails;
          tracked = Tracked-add_ban j.config.name j.db j.ban_mgr _ v.tracked;
        })
    where
      was_current :
          (jail ip : Str) (db : Option Database) (h : Str)
          → current_in (without jail ip db) jail h ≡ true
          → current_in db jail h ≡ true
      was_current jail ip db h now = ground (arith, current_in-without jail ip db h)

  pub purge_expired_bans-Inv :
      (j : Jail R N) (at : Instants) → Inv j → Inv (purge_expired_bans outside j at)
  unfolding purge_expired_bans View.apply Laws.apply
  purge_expired_bans-Inv j at v = record {
    bans = apply-IsValid j.ban_mgr (View.expires_at at.banned) v.bans;
    fails = Laws.apply-IsValid j.fail_mgr (Laws.purges at.seen) v.fails;
    tracked = Tracked-expired j.config.name j.db j.ban_mgr at.banned v.bans v.tracked;
  }

  -- Every log line, command and tick keeps the invariant: each host has one failure ticket and one ban
  -- ticket under its own name, tickets hold at most `maxmatches` lines, and each ban of the jail that is
  -- current in the database is held by the jail.
  pub handle-Inv : (j : Jail R N) (e : Event) (at : Instants) → Inv j → Inv (handle outside j e at)
  unfolding handle
  handle-Inv j (line text) at v = process_line-Inv outside j text at v
  handle-Inv j (attempt ip failures) at v = manual_attempt-Inv j ip at v
  handle-Inv j (ban_ip ip) at v = manual_ban-Inv j ip at v
  handle-Inv j (unban_ip ip) at v = manual_unban-Inv j ip v
  handle-Inv j flush_all at v = flush_all_bans-Inv j v
  handle-Inv j (restore ip ip_addr t bantime) at v = restore_ban-Inv j ip ip_addr t bantime at v
  handle-Inv j tick at v = purge_expired_bans-Inv j at v

  -- The state of the task after some events of its loop.
  unfoldable pub handled : Jail R N → List (Event × Instants) → Jail R N
  handled j [] = j
  handled j ((e, at) ∷ es) = handled (handle outside j e at) es

  pub handled-Inv : (j : Jail R N) (es : List (Event × Instants)) → Inv j → Inv (handled j es)
  unfolding handled
  handled-Inv j [] v = v
  handled-Inv j ((e, at) ∷ es) v = handled-Inv (handle outside j e at) es (handle-Inv j e at v)

  -- A jail that is spawned where the database has no current ban of it meets the invariant after any
  -- events.
  pub spawn-Inv :
      (c : JailConfig N) (filter : CompiledFilter R) (acts : List Action) (db : Option Database)
      (ran : List Command) (es : List (Event × Instants))
      → ((h : Str) → current_in db c.name h ≡ false)
      → Inv (handled (spawn outside c filter acts db ran) es)
  unfolding spawn FailManager.new BanManager.new
  spawn-Inv c filter acts db ran es clean =
      handled-Inv (spawn outside c filter acts db ran) es (record {
        bans = record { unique = tt; filed = tt };
        fails = record { unique = tt; each = tt };
        tracked = λ h now. absurd (cc (now, clean h));
      })

  -- In a jail that is spawned where the database has no current ban of it, after any events each ban of
  -- the jail that is current in the database is held by the jail.
  pub handled-Tracked :
      (c : JailConfig N) (filter : CompiledFilter R) (acts : List Action) (db : Option Database)
      (ran : List Command) (es : List (Event × Instants)) (h : Str)
      → ((k : Str) → current_in db c.name k ≡ false)
      → current_in
          (handled (spawn outside c filter acts db ran) es).db
          (handled (spawn outside c filter acts db ran) es).config.name
          h
        ≡ true
      → is_banned (handled (spawn outside c filter acts db ran) es).ban_mgr h ≡ true
  handled-Tracked c filter acts db ran es h clean now =
      (spawn-Inv c filter acts db ran es clean).tracked h now

  -- Every log line, command and tick keeps both managers well formed, in a jail that is spawned where
  -- the database has no current ban of it: each host has one ban ticket and one failure ticket, both
  -- under its own name, and a failure ticket holds at most `maxmatches` lines.
  pub handled-IsValid :
      (c : JailConfig N) (filter : CompiledFilter R) (acts : List Action) (db : Option Database)
      (ran : List Command) (es : List (Event × Instants))
      → ((k : Str) → current_in db c.name k ≡ false)
      → View.IsValid (handled (spawn outside c filter acts db ran) es).ban_mgr
        × Laws.IsValid (handled (spawn outside c filter acts db ran) es).fail_mgr
  handled-IsValid c filter acts db ran es clean =
      let v = spawn-Inv c filter acts db ran es clean in (v.bans, v.fails)
