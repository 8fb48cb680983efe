-- ===== src/BanManager/Expiry.antt =====
-- src/server/banmanager.rs: the two loops of `expired` against one filter of the bans.
use rail2ban.Prelude.{
  ◌≡◌, refl, ap, ◌∙◌, false, not, none, List, [], ◌∷◌, inl, inr, Str, arith, Bool-cases, str_eq,
  str_eq_iff, str_eq_refl, All,
}
use rail2ban.Prelude.Dict
use rail2ban.Prelude.Dict.{Unique, lookup-cons_none, remove_absent}
use rail2ban.Clock.{DateTime}
use rail2ban.BanManager.{BanTicket, BanManager, is_expired, expired_hosts, remove_each, expired}

-- A host that holds no ban is not among the hosts collected.
expired_hosts_absent :
    (now : DateTime) (k : Str) (m : List (Str × BanTicket))
    → Dict.lookup k m ≡ none
    → All (λ h. str_eq k h ≡ false) (expired_hosts now m)
unfolding expired_hosts
expired_hosts_absent now k [] h = tt
expired_hosts_absent now k ((j, t) ∷ m) h =
    let (apart, absent) = lookup-cons_none k j t m h in
    let rest = expired_hosts_absent now k m absent in
    elim (Bool-cases (is_expired t now)) [
      | inl e ↦ rw e (ground (arith, apart, str_eq_iff j k, str_eq_iff k j), rest)
      | inr e ↦ rw e rest
    ]

-- Removing other hosts leaves an entry in front where it is.
remove_each_skip :
    (hs : List Str) (k : Str) (v : BanTicket) (m : List (Str × BanTicket))
    → All (λ h. str_eq k h ≡ false) hs
    → remove_each hs ((k, v) ∷ m) ≡ ((k, v) ∷ (remove_each hs m).0, (remove_each hs m).1)
unfolding remove_each Dict.remove Dict.lookup
remove_each_skip [] k v m a = refl
remove_each_skip (h ∷ hs) k v m a =
    ground (arith, a.0, remove_each_skip hs k v (Dict.remove h m) a.1)

remove_each_split :
    (now : DateTime) (m : List (Str × BanTicket))
    → Unique m
    → remove_each (expired_hosts now m) m ≡ (
      Dict.keep (λ _ t. not (is_expired t now)) m,
      Dict.values (Dict.keep (λ _ t. is_expired t now) m),
    )
unfolding expired_hosts remove_each Dict.keep Dict.values Dict.lookup Dict.remove
remove_each_split now [] u = refl
remove_each_split now ((k, v) ∷ m) u = elim (Bool-cases (is_expired v now)) [
  | inl e ↦ rw e (ground (arith, str_eq_refl k, remove_absent k m u.0, remove_each_split now m u.1))
  | inr e ↦ rw e (
      remove_each_skip (expired_hosts now m) k v m (expired_hosts_absent now k m u.0)
      ∙ ap (λ r. ((k, v) ∷ r.0, r.1)) (remove_each_split now m u.1))
]

-- `expired` returns exactly the tickets whose ban has run out at `now`, keeps exactly the others, in
-- their order, and leaves the lifetime count.
pub expired-splits :
    (b : BanManager) (now : DateTime)
    → Unique b.bans
    → ((expired b now).0.bans ≡ Dict.keep (λ _ t. not (is_expired t now)) b.bans)
      × ((expired b now).1 ≡ Dict.values (Dict.keep (λ _ t. is_expired t now) b.bans))
      × ((expired b now).0.total_banned ≡ b.total_banned)
unfolding expired
expired-splits b now u =
    let split = remove_each_split now b.bans u in (ap (λ r. r.0) split, ap (λ r. r.1) split, refl)
