-- ===== src/Jail/Purge.antt =====
-- src/server/jail.rs: `purge_expired_bans`.
use rail2ban.FailManager
use rail2ban.BanManager.{BanTicket}
use rail2ban.BanManager
use rail2ban.Jail.State.{Jail, Outside, Instants}
use rail2ban.Jail.Manual.{without_each, unban_tickets}

module _ {R N : Type 0} (outside : Outside R N) where
  -- Each round runs the commands of one ticket and then removes its rows; the two touch different
  -- parts of the state, so that the rounds are two loops.
  unfoldable pub purge_expired_bans : Jail R N → Instants → Jail R N
  unfolding without_each unban_tickets
  purge_expired_bans j at =
      let (b, gone) = BanManager.expired j.ban_mgr at.banned in
      record j {
        ban_mgr = b;
        ran = unban_tickets outside j.actions gone j.ran;
        db = without_each j.config.name gone j.db;
        fail_mgr = FailManager.purge j.fail_mgr at.seen;
      }
