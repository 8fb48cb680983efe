-- ===== src/Jail/Bans.antt =====
-- src/server/jail.rs: what the handlers of bans and unbans leave behind.
use rail2ban.Prelude.{
  ℕ, ◌≡◌, refl, Bool, true, false, not, ◌&&◌, ap, ◌∙◌, Option-cases, str_eq, Option, none, some,
  inl, inr, Str, arith, is_some, if◌then◌else◌, str_eq_refl, map_option,
}
use rail2ban.Prelude.Dict
use rail2ban.Prelude.Dict.{
  lookup-insert_self, lookup-remove_self, lookup-keep, lookup-remove, keep-Each, filtered,
}
use rail2ban.Clock.{DateTime, timestamp, as_i64}
use rail2ban.Filter.{MatchResult}
use rail2ban.FailManager.{FailTicket}
use rail2ban.FailManager
use rail2ban.BanManager.{BanTicket, BanManager, is_banned, is_expired, expired, ticket_from_fail}
use rail2ban.BanManager
use rail2ban.BanManager.View.{IsValid}
use rail2ban.BanManager.Expiry.{expired-splits}
use rail2ban.Database.{Database}
use rail2ban.Database.Current.{is_current-add_ban}
use rail2ban.Jail.State.{Jail, Outside, Instants}
use rail2ban.Jail.Ban.{issue_ban, stored}
use rail2ban.Jail.Manual.{manual_unban, flush_all_bans}
use rail2ban.Jail.Purge.{purge_expired_bans}
use rail2ban.Jail.Tracked.{current_in, current_in-without, current_in-without_each, any-held}

-- Whether a ticket that may be held has run out, and what a purge leaves of it.
abbrev pub run_out : DateTime → Option BanTicket → Bool
run_out now none = false
run_out now (some t) = is_expired t now

abbrev pub lasting : DateTime → Option BanTicket → Option BanTicket
lasting now none = none
lasting now (some t) = if is_expired t now then none else some t

module _ {R N : Type 0} (outside : Outside R N) where
  -- With a database, a ban that is issued is held and current, under the host of the failure ticket,
  -- whose failures are forgotten.
  pub issue_ban_lem :
      (j : Jail R N) (fail : FailTicket) (m : MatchResult) (secs : Option ℕ) (at : Instants)
      (db : Database)
      → j.db ≡ some db
      → (Dict.lookup fail.host (issue_ban outside j fail m secs at).ban_mgr.bans
          ≡ some (ticket_from_fail fail m secs at.banned))
        × (current_in (issue_ban outside j fail m secs at).db j.config.name fail.host ≡ true)
        × (Dict.lookup fail.host (issue_ban outside j fail m secs at).fail_mgr.tickets ≡ none)
  unfolding issue_ban BanManager.add_ban FailManager.remove ticket_from_fail
  issue_ban_lem j fail m secs at db e =
      let t = ticket_from_fail fail m secs at.banned in
      (
        lookup-insert_self fail.host t j.ban_mgr.bans,
        kept j.db e,
        lookup-remove_self fail.host j.fail_mgr.tickets,
      )
    where
      t : BanTicket
      t = ticket_from_fail fail m secs at.banned

      kept :
          (o : Option Database)
          → o ≡ some db
          → current_in (stored outside j t secs o) j.config.name fail.host ≡ true
      kept none h = cc
      kept (some d) h = ground (
        arith,
        str_eq_refl j.config.name,
        str_eq_refl fail.host,
        is_current-add_ban d j.config.name fail.host (timestamp t.time_of_ban)
            (map_option as_i64 secs) (outside.ticket_json t.user t.matches) j.config.name fail.host,
      )

  -- `unbanip` takes its host from those that are held, and its ban from the current ones exactly if it
  -- was held: what is current without being held stays. No other host is touched.
  pub manual_unban_lem :
      (j : Jail R N) (ip h : Str)
      → (Dict.lookup h (manual_unban outside j ip).ban_mgr.bans
          ≡ (if str_eq ip h then none else Dict.lookup h j.ban_mgr.bans))
        × (current_in (manual_unban outside j ip).db j.config.name h ≡ (
            if str_eq ip h && is_banned j.ban_mgr ip
            then false
            else current_in j.db j.config.name h))
  unfolding manual_unban is_banned BanManager.remove_ban
  manual_unban_lem j ip h = elim (Option-cases (Dict.lookup ip j.ban_mgr.bans)) [
    | inl e ↦ rw e (lookup-remove ip h j.ban_mgr.bans, ground arith)
    | inr (t, e) ↦ rw e (
      lookup-remove ip h j.ban_mgr.bans,
      current_in-without j.config.name ip j.db h ∙ ground arith,
    )
  ]

  -- Where each ticket of the manager stands under its own host: after a flush the jail holds no ban, and
  -- of the bans that were current those stay that were not held.
  pub flush_all_bans_lem :
      (j : Jail R N) (h : Str)
      → IsValid j.ban_mgr
      → (is_banned (flush_all_bans outside j).ban_mgr h ≡ false)
        × (current_in (flush_all_bans outside j).db j.config.name h
            ≡ (if is_banned j.ban_mgr h then false else current_in j.db j.config.name h))
  unfolding flush_all_bans is_banned BanManager.clear Dict.lookup
  flush_all_bans_lem j h v = (
    refl,
    current_in-without_each j.config.name (Dict.values j.ban_mgr.bans) j.db h
        ∙ ap (λ b. if b then false else current_in j.db j.config.name h)
            (any-held h j.ban_mgr.bans v.filed),
  )

  -- Where each host has one ticket, under its own name: a purge keeps a ticket that has not run out as
  -- it was and no other, and of the bans that were current exactly those of tickets that have run out
  -- are current no more.
  pub purge_expired_bans_lem :
      (j : Jail R N) (at : Instants) (h : Str)
      → IsValid j.ban_mgr
      → (Dict.lookup h (purge_expired_bans outside j at).ban_mgr.bans
          ≡ lasting at.banned (Dict.lookup h j.ban_mgr.bans))
        × (current_in (purge_expired_bans outside j at).db j.config.name h ≡ (
            if run_out at.banned (Dict.lookup h j.ban_mgr.bans)
            then false
            else current_in j.db j.config.name h))
  unfolding purge_expired_bans
  purge_expired_bans_lem j at h v =
      let (kept, gone, _) = expired-splits j.ban_mgr at.banned v.unique in
      let over = λ (k : Str) (t : BanTicket). is_expired t at.banned in
      let listed =
        any-held h (Dict.keep over j.ban_mgr.bans) (keep-Each _ over j.ban_mgr.bans v.filed) in
      (
        rw (kept, lookup-keep (λ _ t. not (is_expired t at.banned)) h j.ban_mgr.bans v.unique)
            (kept_lasting (Dict.lookup h j.ban_mgr.bans)),
        current_in-without_each j.config.name (expired j.ban_mgr at.banned).1 j.db h
            ∙ rw (gone, listed, lookup-keep over h j.ban_mgr.bans v.unique)
                (gone_out (Dict.lookup h j.ban_mgr.bans)),
      )
    where
      kept_lasting :
          (o : Option BanTicket)
          → filtered (λ _ t. not (is_expired t at.banned)) h o ≡ lasting at.banned o
      kept_lasting none = refl
      kept_lasting (some t) = ground arith

      gone_out :
          (o : Option BanTicket)
          → (if is_some (filtered (λ _ t. is_expired t at.banned) h o)
              then false
              else current_in j.db j.config.name h)
            ≡ (if run_out at.banned o then false else current_in j.db j.config.name h)
      gone_out none = refl
      gone_out (some t) = ground arith
