-- ===== src/Jail/Tracked.antt =====
-- src/server/jail.rs: the invariant that ties the managers of a jail to the database.
use rail2ban.Prelude.{
  ◌≡◌, refl, sym, ap, ◌∙◌, Bool, true, false, not, ◌||◌, Option, none, some, List, [], ◌∷◌, inl,
  inr, Str, arith, Bool-cases, Option-cases, if◌then◌else◌, is_some, any, str_eq, str_eq_iff,
  str_eq_refl,
}
use rail2ban.Prelude.Dict
use rail2ban.Prelude.Dict.{
  Each, Unique, lookup-insert, lookup-remove, lookup-keep, keep-Each, remove_absent,
}
use rail2ban.Clock.{DateTime}
use rail2ban.FailManager.Laws
use rail2ban.BanManager.{BanTicket, BanManager, is_banned, is_expired, expired, ticket_from_fail}
use rail2ban.BanManager
use rail2ban.BanManager.View.{IsValid}
use rail2ban.BanManager.Expiry.{expired-splits}
use rail2ban.Database.{Database, is_current}
use rail2ban.Database.Current.{is_current-remove_ban}
use rail2ban.Jail.State.{Jail}
use rail2ban.Jail.Manual.{without, without_each}

abbrev pub current_in : Option Database → Str → Str → Bool
current_in none jail h = false
current_in (some db) jail h = is_current db jail h

abbrev pub Tracked : Str → Option Database → BanManager → Type 0
Tracked jail db b = (h : Str) → current_in db jail h ≡ true → is_banned b h ≡ true

module _ {R N : Type 0} where
  pub record Inv (j : Jail R N) : Type 0 where
    pub bans : IsValid j.ban_mgr
    pub fails : Laws.IsValid j.fail_mgr
    pub tracked : Tracked j.config.name j.db j.ban_mgr

pub is_banned-add_ban :
    (b : BanManager) (t : BanTicket) (h : Str)
    → is_banned (BanManager.add_ban b t).0 h ≡ (str_eq t.host h || is_banned b h)
unfolding is_banned BanManager.add_ban
is_banned-add_ban b t h = rw lookup-insert (ground arith)

-- A ban that is made without the database.
pub Tracked-add_ban :
    (jail : Str) (db : Option Database) (b : BanManager) (t : BanTicket)
    → Tracked jail db b
    → Tracked jail db (BanManager.add_ban b t).0
Tracked-add_ban jail db b t tracked h now =
    rw (is_banned-add_ban b t h, tracked h now) (ground arith)

pub current_in-without :
    (jail ip : Str) (db : Option Database) (h : Str)
    → current_in (without jail ip db) jail h ≡ (if str_eq ip h then false else current_in db jail h)
current_in-without jail ip none h = ground arith
current_in-without jail ip (some db) h =
    ground (arith, is_current-remove_ban db jail ip jail h, str_eq_refl jail)

pub current_in-without_each :
    (jail : Str) (ts : List BanTicket) (db : Option Database) (h : Str)
    → current_in (without_each jail ts db) jail h
      ≡ (if any (λ t. str_eq t.host h) ts then false else current_in db jail h)
unfolding without_each any
current_in-without_each jail [] db h = refl
current_in-without_each jail (t ∷ ts) db h =
    current_in-without_each jail ts (without jail t.host db) h
    ∙ ground (arith, current_in-without jail t.host db h)

-- A ban that is held is among the tickets, under its host.
any-values :
    (h : Str) (m : List (Str × BanTicket)) {t : BanTicket}
    → Each (λ k t. t.host ≡ k) m
    → Dict.lookup h m ≡ some t
    → any (λ t. str_eq t.host h) (Dict.values m) ≡ true
unfolding any Dict.values Dict.lookup
any-values h [] e l = cc
any-values h ((k, t) ∷ m) e l = elim (Bool-cases (str_eq k h)) [
  | inl own ↦ ground (arith, str_eq_iff k h, str_eq_iff t.host h)
  | inr other ↦ rw (any-values h m e.1 (rw other at l)) (ground arith)
]

-- The tickets of a manager have a host exactly if it is held.
pub any-held :
    (h : Str) (m : List (Str × BanTicket))
    → Each (λ k t. t.host ≡ k) m
    → any (λ t. str_eq t.host h) (Dict.values m) ≡ is_some (Dict.lookup h m)
unfolding any Dict.values Dict.lookup
any-held h [] e = refl
any-held h ((k, t) ∷ m) e = rw (e.0, any-held h m e.1) (ground arith)

-- Each row of a ban that has ended goes with it, and no other.
pub Tracked-without :
    (jail ip : Str) (db : Option Database) (b : BanManager)
    → Tracked jail db b
    → Tracked jail (without jail ip db) (BanManager.remove_ban b ip).0
unfolding is_banned BanManager.remove_ban
Tracked-without jail ip db b tracked h now =
    rw lookup-remove (ground (arith, current_in-without jail ip db h, tracked h))

-- What is still current after the rows of some tickets have gone was current, and has no ticket there.
still_current :
    (jail : Str) (ts : List BanTicket) (db : Option Database) (h : Str)
    → current_in (without_each jail ts db) jail h ≡ true
    → (any (λ t. str_eq t.host h) ts ≡ false) × (current_in db jail h ≡ true)
still_current jail ts db h now = gone _ (sym (current_in-without_each jail ts db h) ∙ now)
  where
    gone :
        (b : Bool)
        → (if b then false else current_in db jail h) ≡ true
        → (b ≡ false) × (current_in db jail h ≡ true)
    gone true e = absurd (cc)
    gone false e = (refl, e)

pub held :
    (b : BanManager) (h : Str)
    → is_banned b h ≡ true
    → (t : BanTicket) × (Dict.lookup h b.bans ≡ some t)
unfolding is_banned
held b h e = elim (Option-cases (Dict.lookup h b.bans)) [
  | inl missing ↦ absurd (ground arith)
  | inr found ↦ found
]

pub Tracked-clear :
    (jail : Str) (db : Option Database) (b : BanManager)
    → IsValid b
    → Tracked jail db b
    → Tracked jail (without_each jail (BanManager.clear b).1 db) (BanManager.clear b).0
unfolding BanManager.clear
Tracked-clear jail db b v tracked h now =
    let (ended, before) = still_current jail (Dict.values b.bans) db h now in
    let (t, e) = held b h (tracked h before) in absurd (cc (ended, any-values h b.bans v.filed e))

pub Tracked-expired :
    (jail : Str) (db : Option Database) (b : BanManager) (at : DateTime)
    → IsValid b
    → Tracked jail db b
    → Tracked jail (without_each jail (expired b at).1 db) (expired b at).0
unfolding is_banned
Tracked-expired jail db b at v tracked h now =
    let (kept, gone, _) = expired-splits b at v.unique in
    let over = λ (k : Str) (t : BanTicket). is_expired t at in
    let (ended, before) = still_current jail (expired b at).1 db h now in
    let (t, e) = held b h (tracked h before) in
    rw (kept, lookup-keep (λ _ t. not (is_expired t at)) h b.bans v.unique, e)
      (elim (Bool-cases (is_expired t at)) [
        | inl out ↦
            let found : Dict.lookup h (Dict.keep over b.bans) ≡ some t =
              rw (lookup-keep over h b.bans v.unique, e, out) in
            let listed =
              any-values h (Dict.keep over b.bans) (keep-Each _ over b.bans v.filed) found in
            absurd (cc (ended, listed, ap (any (λ t. str_eq t.host h)) gone))
        | inr live ↦ rw live
      ])

-- To remove a host that is not banned changes no answer.
pub Tracked-absent :
    (jail ip : Str) (db : Option Database) (b : BanManager)
    → (BanManager.remove_ban b ip).1 ≡ none
    → Tracked jail db b
    → Tracked jail db (BanManager.remove_ban b ip).0
unfolding BanManager.remove_ban is_banned
Tracked-absent jail ip db b missing tracked h now =
    rw (remove_absent ip b.bans missing) (tracked h now)
