-- ===== src/Tests/Restarts.antt =====
-- A jail that starts on a database with a ban.
use rail2ban.Prelude.{
  ◌≡◌, refl, true, some, List, [], ◌∷◌, codes, any, retain, str_eq, is_ascii_digit,
}
use rail2ban.Prelude.Dict
use rail2ban.Prelude.Int.{◌-ℤ◌, ◌+ℤ◌}
use rail2ban.Clock.{seconds, as_i64}
use rail2ban.Time.{digits_from}
use rail2ban.FailManager
use rail2ban.BanManager.{is_banned}
use rail2ban.BanManager
use rail2ban.Database.{list_bans, is_current, in_bips}
use rail2ban.Database
use rail2ban.Jail.State.{Instants}
use rail2ban.Jail.Task.{Event, tick, spawn, handle}
use rail2ban.Jail.Keeps.{handled}
use rail2ban.Server.{restore_of, restore_messages, restore_bans_from_db, sent_to}
use rail2ban.Server.Restore.{restored-Tracked}
use rail2ban.Tests.Data.{peer, outside, config, filter, at_second, database, newer}

abbrev restores : List (Event × Instants)
restores = (restore_of outside.addressing.addr_from_str newer, at_second 2100) ∷ []

abbrev ticks : List (Event × Instants)
ticks = (tick, at_second 2130) ∷ []

restored-Tracked_example :
    is_banned
      (handled outside
        (handled outside (spawn outside config filter [] (some database) []) restores)
        ticks).ban_mgr
      peer
    ≡ true
unfolding restore_bans_from_db restore_messages sent_to list_bans in_bips any retain str_eq
    digits_from is_ascii_digit handled spawn handle is_current FailManager.new FailManager.purge
    BanManager.new BanManager.add_ban BanManager.expired Dict.lookup Dict.insert Dict.remove
    Dict.keep Database.remove_ban seconds as_i64 ◌-ℤ◌ ◌+ℤ◌
restored-Tracked_example =
    restored-Tracked outside (codes "sshd" ∷ []) config filter [] database [] restores ticks peer
      refl (refl, tt) refl refl
