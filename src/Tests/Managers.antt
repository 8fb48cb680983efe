-- ===== src/Tests/Managers.antt =====
-- The managers on concrete matches and bans.
use rail2ban.Prelude.{
  ◌≤◌, ◌≡◌, ◌↔◌, refl, true, false, none, some, List, [], ◌∷◌, arith, length, is_some, retain,
  str_eq,
}
use rail2ban.Prelude.Dict
use rail2ban.Prelude.Int.{pos, ◌-ℤ◌}
use rail2ban.Clock.{as_i64, u64_max, seconds}
use rail2ban.Time.{digits_from}
use rail2ban.Filter.{new_buffer}
use rail2ban.Filter.Buffer.{push_all, push_all-new}
use rail2ban.FailManager.{
  FailManager, new, host_of, add_failure, met_ticket, fresh_ticket, refresh, count_match,
  note_mlfid,
}
use rail2ban.FailManager.Window.{Observation, since, observe, failures, observe_reports}
use rail2ban.FailManager.Permanent.{observe_never_reports}
use rail2ban.BanManager.{BanManager, is_expired, expired, add_ban}
use rail2ban.BanManager
use rail2ban.BanManager.View
use rail2ban.BanManager.View.{view, specified_run, made_by, run-refines}
use rail2ban.IgnoreCache.{IgnoreCache, insert, get}
use rail2ban.IgnoreCache.Bound
use rail2ban.IgnoreCache.Bound.{parse-IsValid, insert-IsValid}
use rail2ban.Tests.Data
use rail2ban.Tests.Data.{peer, friend, failure, ban_ticket}

abbrev first : Observation
first = (failure peer, pos 0)

abbrev second : Observation
second = (failure peer, pos 1000000000)

abbrev manager : FailManager
manager = new 2 (pos 600) 5

observe_reports_example :
    (is_some (add_failure (observe manager (first ∷ [])) (failure peer) (pos 1000000000)).1 ≡ true)
    ↔ ((false ≡ false)
        × (false ≡ false)
        × (2
            ≤ length
                (retain (since manager (pos 1000000000)) (failures peer (first ∷ second ∷ []) []))))
unfolding failures str_eq
observe_reports_example =
    observe_reports 2 5 (pos 600) (pos 0) (first ∷ []) second (omega arith)
      (refl, omega arith, (refl, omega arith, tt)) (omega arith)

-- The report does come.
observe_reports_run :
    is_some (add_failure (observe manager (first ∷ [])) (failure peer) (pos 1000000000)).1 ≡ true
unfolding observe new seconds add_failure host_of met_ticket fresh_ticket refresh count_match
    note_mlfid Dict.lookup Dict.insert str_eq retain ◌-ℤ◌ digits_from
observe_reports_run = refl

observe_never_reports_example :
    (add_failure
      (observe (new 2 (as_i64 u64_max) 5) (first ∷ []))
      (failure peer)
      (pos 1000000000)).1
    ≡ none
observe_never_reports_example =
    observe_never_reports 2 5 (pos 0) (first ∷ []) second (omega arith)
      (refl, omega arith, (refl, omega arith, tt))

abbrev tracking : FailManager
tracking = (add_failure manager (failure peer) (pos 0)).0

abbrev tracked : FailManager
tracked = record {
  tickets = (peer, Data.fail_ticket) ∷ [];
  mlfid_map = [];
  maxretry = 2;
  findtime = pos 600000000000;
  maxmatches = 5;
}

abbrev held : BanManager
held = (add_ban BanManager.new ban_ticket).0

abbrev calls : List View.Call
calls = View.adds ban_ticket ∷ View.expires_at (pos 1) ∷ View.removes friend ∷ []

run-refines_example :
    (view (View.run BanManager.new calls) peer ≡ specified_run (λ _. none) calls peer)
    × View.IsValid (View.run BanManager.new calls)
    × ((View.run BanManager.new calls).total_banned ≡ 1)
    × (length (View.run BanManager.new calls).bans ≤ 1)
unfolding made_by View.made BanManager.is_expired
run-refines_example = run-refines calls peer

abbrev cache : IgnoreCache
cache = record { max_count = 1; max_time = 5; entries = (friend, (true, 0)) ∷ [] }

insert-IsValid_example :
    Bound.IsValid (insert cache peer false 3)
    × (get (insert cache peer false 3) peer 4 ≡ some false)
unfolding Dict.lookup
insert-IsValid_example =
    insert-IsValid cache peer false 3 4
      (record { positive = omega arith; bounded = omega arith; unique = (refl, tt) })

push_all-new_example :
    ((push_all (new_buffer 2) (peer ∷ friend ∷ peer ∷ [])).lines ≡ friend ∷ peer ∷ [])
    × (length (push_all (new_buffer 2) (peer ∷ friend ∷ peer ∷ [])).lines ≤ 2)
push_all-new_example = push_all-new 2 (peer ∷ friend ∷ peer ∷ [])
