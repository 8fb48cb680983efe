-- ===== src/Server.antt =====
-- src/server/server.rs: the bans of the database are given back to the jails when all have started.
-- A jail is known by its name here, and what is sent to it is an event of its task.
pub mod Restore
pub mod Jails
pub mod Stats
pub mod Table
pub mod Commands
pub mod Requests
pub mod Refused
pub mod Unban
use rail2ban.Prelude.{Bool, Option, none, some, List, [], ◌∷◌, Str, str_eq, any, if◌then◌else◌}
use rail2ban.Ip.{IpAddr}
use rail2ban.Database.{DbBan, Database, list_bans}
use rail2ban.Jail.Task.{Event, restore}

module _ (addr_from_str : Str → Option IpAddr) where
  -- `JailCommand::RestoreBan` for a row.
  abbrev pub restore_of : DbBan → Event
  restore_of r = restore r.ip (addr_from_str r.ip) r.time_of_ban r.bantime

  -- The loop over the rows: a row of a jail that runs is sent to it.
  unfoldable pub restore_messages : List Str → List DbBan → List (Str × Event)
  unfolding any str_eq
  restore_messages running [] = []
  restore_messages running (r ∷ rs) =
      let rest = restore_messages running rs in
      if any (str_eq r.jail) running then (r.jail, restore_of r) ∷ rest else rest

  abbrev messages_from : List Str → Option Database → List (Str × Event)
  messages_from running none = []
  messages_from running (some db) = restore_messages running (list_bans db)

  unfoldable pub restore_bans_from_db : List Str → Option Database → List (Str × Event)
  unfolding restore_messages list_bans
  restore_bans_from_db running db = messages_from running db

-- What the channel of one jail receives.
unfoldable pub sent_to : Str → List (Str × Event) → List Event
sent_to name [] = []
sent_to name ((jail, e) ∷ ms) =
    let rest = sent_to name ms in if str_eq jail name then e ∷ rest else rest
