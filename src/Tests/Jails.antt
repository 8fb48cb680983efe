-- ===== src/Tests/Jails.antt =====
-- Jails on concrete lines and commands.
use rail2ban.Prelude.{
  ◌&&◌, ℕ, ◌≡◌, refl, true, false, none, some, List, [], ◌∷◌, Str, codes, arith, str_eq,
  if◌then◌else◌, any, retain, is_ascii_digit, strip_prefix, join, split,
}
use rail2ban.Prelude.Dict
use rail2ban.Prelude.Int.{pos, ◌-ℤ◌, ◌+ℤ◌}
use rail2ban.Clock.{seconds, timestamp, as_i64}
use rail2ban.Time.{digits_from}
use rail2ban.Ip.{matches_ip}
use rail2ban.Filter.{process_buffered}
use rail2ban.FailManager
use rail2ban.FailManager.Laws
use rail2ban.BanManager.{BanTicket, BanManager, is_expired, is_banned, ticket_from_fail}
use rail2ban.BanManager
use rail2ban.BanManager.View
use rail2ban.Database.{Database, open_empty, ban_count, is_current}
use rail2ban.Database
use rail2ban.Jail.State.{Jail, Instants}
use rail2ban.Jail.Bantime.{compute_bantime}
use rail2ban.Jail.Ban.{issue_ban}
use rail2ban.Jail.Manual.{manual_unban, flush_all_bans}
use rail2ban.Jail.Purge.{purge_expired_bans}
use rail2ban.Jail.Line.{process_line}
use rail2ban.Jail.Task.{Event, line, tick, spawn, handle, shut_down}
use rail2ban.Jail.Times.{permanent_ban_expires}
use rail2ban.Jail.Whitelist.{Exposed, process_line-Exposed}
use rail2ban.Jail.Tracked.{Inv, current_in}
use rail2ban.Jail.Keeps.{handled, spawn-Inv, handled-Tracked, handled-IsValid}
use rail2ban.Jail.OnDemand.{on_demand_never_stops}
use rail2ban.Jail.Bans.{
  run_out, lasting, issue_ban_lem, manual_unban_lem, flush_all_bans_lem, purge_expired_bans_lem,
}
use rail2ban.Tests.Data.{
  peer, outside, config, permanent, filter, on_demand, at_second, failure, fail_ticket,
}

abbrev bad_line : Str
bad_line = codes "bad 3405803783"

abbrev spawned : Jail Str ℕ
spawned = spawn outside config filter (on_demand ∷ []) (some open_empty) []

-- One line more, and the peer is banned.
abbrev warned : Jail Str ℕ
warned = handle outside spawned (line bad_line) (at_second 1)

abbrev events : List (Event × Instants)
events = (line bad_line, at_second 1) ∷ (line bad_line, at_second 2) ∷ (tick, at_second 60) ∷ []

abbrev busy : Jail Str ℕ
busy = handled outside spawned events

handled-Tracked_example : is_banned (handled outside spawned events).ban_mgr peer ≡ true
unfolding handled spawn handle is_current open_empty any Database.add_ban Database.remove_ban
    Database.ban_count FailManager.new FailManager.add_failure FailManager.remove FailManager.purge
    FailManager.note_mlfid BanManager.new BanManager.add_ban BanManager.expired Dict.lookup
    Dict.insert Dict.remove Dict.keep digits_from retain timestamp seconds as_i64 strip_prefix
    str_eq matches_ip join split ◌-ℤ◌ ◌+ℤ◌ ticket_from_fail process_buffered is_ascii_digit
handled-Tracked_example =
    handled-Tracked outside config filter (on_demand ∷ []) (some open_empty) [] events peer
      (λ k. refl) refl

handled-IsValid_example :
    View.IsValid (handled outside spawned events).ban_mgr
    × Laws.IsValid (handled outside spawned events).fail_mgr
unfolding is_current any open_empty
handled-IsValid_example =
    handled-IsValid outside config filter (on_demand ∷ []) (some open_empty) [] events (λ k. refl)

busy-Inv : Inv busy
unfolding is_current any open_empty
busy-Inv = spawn-Inv outside config filter (on_demand ∷ []) (some open_empty) [] events (λ k. refl)

abbrev after_second : Jail Str ℕ
after_second = process_line outside warned bad_line (at_second 2)

process_line-Exposed_example :
    (t : BanTicket) × (Dict.lookup peer after_second.ban_mgr.bans ≡ some t)
    × (t.host ≡ peer)
    × Exposed outside warned.config t.ip peer
unfolding handled spawn handle process_line is_banned process_buffered digits_from is_ascii_digit
    FailManager.add_failure FailManager.new retain BanManager.new Dict.insert ◌-ℤ◌ seconds as_i64
    matches_ip BanManager.add_ban ticket_from_fail
process_line-Exposed_example =
    process_line-Exposed outside warned bad_line (at_second 2) peer refl refl

issue_ban_lem_example :
    (Dict.lookup peer
        (issue_ban outside spawned fail_ticket (failure peer) (some 600) (at_second 3)).ban_mgr.bans
      ≡ some (ticket_from_fail fail_ticket (failure peer) (some 600) (pos 3000000000)))
    × (current_in
          (issue_ban outside spawned fail_ticket (failure peer) (some 600) (at_second 3)).db
          spawned.config.name
          peer
        ≡ true)
    × (Dict.lookup peer
          (issue_ban outside spawned fail_ticket
            (failure peer)
            (some 600)
            (at_second 3)).fail_mgr.tickets
        ≡ none)
unfolding spawn
issue_ban_lem_example =
    issue_ban_lem outside spawned fail_ticket (failure peer) (some 600) (at_second 3) open_empty
      refl

manual_unban_lem_example :
    (Dict.lookup peer (manual_unban outside busy peer).ban_mgr.bans
      ≡ (if str_eq peer peer then none else Dict.lookup peer busy.ban_mgr.bans))
    × (current_in (manual_unban outside busy peer).db busy.config.name peer ≡ (
        if str_eq peer peer && is_banned busy.ban_mgr peer
        then false
        else current_in busy.db busy.config.name peer))
manual_unban_lem_example = manual_unban_lem outside busy peer peer

flush_all_bans_lem_example :
    (is_banned (flush_all_bans outside busy).ban_mgr peer ≡ false)
    × (current_in (flush_all_bans outside busy).db busy.config.name peer
        ≡ (if is_banned busy.ban_mgr peer then false else current_in busy.db busy.config.name peer))
flush_all_bans_lem_example = flush_all_bans_lem outside busy peer busy-Inv.bans

purge_expired_bans_lem_example :
    (Dict.lookup peer (purge_expired_bans outside busy (at_second 800)).ban_mgr.bans
      ≡ lasting (pos 800000000000) (Dict.lookup peer busy.ban_mgr.bans))
    × (current_in (purge_expired_bans outside busy (at_second 800)).db busy.config.name peer ≡ (
        if run_out (pos 800000000000) (Dict.lookup peer busy.ban_mgr.bans)
        then false
        else current_in busy.db busy.config.name peer))
purge_expired_bans_lem_example =
    purge_expired_bans_lem outside busy (at_second 800) peer busy-Inv.bans

abbrev ended : Jail Str ℕ
ended = handled outside (spawn outside config filter (on_demand ∷ []) (some open_empty) []) events

on_demand_never_stops_example :
    (shut_down outside ended (at_second 90)).ran
    ≡ (purge_expired_bans outside ended (at_second 90)).ran
on_demand_never_stops_example =
    on_demand_never_stops outside config filter (on_demand ∷ []) (some open_empty) [] events
      (at_second 90) ((refl, refl), tt)

permanent_ban_expires_example :
    is_expired
      (ticket_from_fail fail_ticket
        (failure peer)
        (compute_bantime permanent (some open_empty) peer 1)
        (pos 0))
      (pos 0)
    ≡ true
permanent_ban_expires_example =
    permanent_ban_expires permanent (some open_empty) peer 1 fail_ticket (failure peer) (pos 0)
      (pos 0) refl refl (omega arith)
