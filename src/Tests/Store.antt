-- ===== src/Tests/Store.antt =====
-- The database on concrete rows.
use rail2ban.Prelude.{
  ◌+◌, ◌≡◌, refl, not, ◌&&◌, some, [], none, List, ◌∷◌, Str, codes, arith, any, str_eq,
}
use rail2ban.Prelude.Int.{pos}
use rail2ban.Database.{
  open_empty, add_ban, remove_ban, ban_count, list_bans, purge, ran_out, ban_of, newest,
}
use rail2ban.Database.History.{ban_count_forgets}
use rail2ban.Database.Purge.{any-list_bans-purge}
use rail2ban.Database.Joined.{run-Joined}
use rail2ban.Database.Joined
use rail2ban.Tests.Data.{peer, friend, database}

abbrev sshd : Str
sshd = codes "sshd"

ban_count_forgets_example :
    (ban_count (add_ban database sshd peer (pos 3000) (some (pos 600)) []) sshd peer
      ≡ ban_count database sshd peer + 1)
    × (ban_count
          (remove_ban (add_ban database sshd peer (pos 3000) (some (pos 600)) []) sshd peer)
          sshd
          peer
        ≡ ban_count database sshd peer)
unfolding newest str_eq
ban_count_forgets_example =
    ban_count_forgets database sshd peer (pos 3000) (some (pos 600)) [] (omega arith)

any-list_bans-purge_example :
    any (ban_of sshd peer) (list_bans (purge database (pos 60) (pos 2500)))
    ≡ any (λ r. ban_of sshd peer r && not (ran_out (pos 2500) r r.bantime)) (list_bans database)
unfolding any str_eq
any-list_bans-purge_example =
    any-list_bans-purge database (pos 60) (pos 2500) (ban_of sshd peer) (refl, (refl, tt))

abbrev calls : List Joined.Call
calls =
    Joined.adds sshd peer (pos 10) (some (pos 600)) []
    ∷ Joined.adds sshd friend (pos 20) none []
    ∷ Joined.removes sshd peer
    ∷ Joined.purges (pos 60) (pos 2500)
    ∷ []

run-Joined_example : Joined.Joined (Joined.run open_empty calls)
run-Joined_example = run-Joined calls
