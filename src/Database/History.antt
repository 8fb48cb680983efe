-- ===== src/Database/History.antt =====
-- src/server/database.rs: the history that `ban_count` counts.
use rail2ban.Prelude.{
  ◌+◌, ◌≡◌, refl, ap, Bool, true, false, ◌&&◌, Option, none, some, List, [], ◌∷◌, ◌++◌, arith,
  length, retain, any, retain-append, append-nil, Str, str_eq_refl, Bool-cases, inl, inr,
  if◌then◌else◌, length-append,
}
use rail2ban.Prelude.Int.{ℤ, eq_ℤ, ◌<ℤ◌}
use rail2ban.Database.{
  DbBan, Database, ban_of, ban_at, ban_row, add_ban, remove_ban, newest, delete_newest, ban_count,
  later,
}
use rail2ban.Database.Rows.{eq_ℤ_refl, retain-absent}

-- Every row that the newest of a pair can be is before the instant.
abbrev pub Before : Option ℤ → ℤ → Type 0
Before none t = Unit {0}
Before (some u) t = u <ℤ t

-- The step of `newest` at one row: what it says of the rows behind.
Before-later :
    (own : Bool) (u t : ℤ) (rest : Option ℤ)
    → Before (if own then some (later u rest) else rest) t
    → Before rest t × ((own && eq_ℤ u t) ≡ false) × ((own ≡ true) → u <ℤ t)
Before-later true u t none h = (tt, ground arith, λ _. h)
Before-later true u t (some v) h = ground arith
Before-later false u t none h = (tt, refl, λ e. absurd (cc))
Before-later false u t (some v) h = (h, refl, λ e. absurd (cc))

later_before : (u t : ℤ) → u <ℤ t → later u (some t) ≡ t
later_before u t h = ground arith

newest-append :
    (jail ip : Str) (rs : List DbBan) (t : ℤ) (bantime : Option ℤ) (payload : Str)
    → Before (newest jail ip rs) t
    → newest jail ip (rs ++ ban_row jail ip t bantime payload ∷ []) ≡ some t
unfolding newest
newest-append jail ip [] t bantime payload h = ground (arith, str_eq_refl jail, str_eq_refl ip)
newest-append jail ip (r ∷ rs) t bantime payload h =
    let (earlier, _, older) =
      Before-later (ban_of jail ip r) r.time_of_ban t (newest jail ip rs) h in
    rw (newest-append jail ip rs t bantime payload earlier) (elim (Bool-cases (ban_of jail ip r)) [
      | inl own ↦ rw (own, later_before r.time_of_ban t (older own)) refl
      | inr other ↦ rw other refl
    ])

-- No row of the pair has the instant itself.
Before-fresh :
    (jail ip : Str) (rs : List DbBan) (t : ℤ)
    → Before (newest jail ip rs) t
    → any (ban_at jail ip t) rs ≡ false
unfolding newest any
Before-fresh jail ip [] t h = refl
Before-fresh jail ip (r ∷ rs) t h =
    let (earlier, apart, _) =
      Before-later (ban_of jail ip r) r.time_of_ban t (newest jail ip rs) h in
    rw (apart, Before-fresh jail ip rs t earlier)

-- A new ban of a pair, later than those before it, adds one row to the history of the pair.
pub ban_count-add_ban :
    (db : Database) (jail ip : Str) (t : ℤ) (bantime : Option ℤ) (payload : Str)
    → Before (newest jail ip db.bans) t
    → ban_count (add_ban db jail ip t bantime payload) jail ip ≡ ban_count db jail ip + 1
unfolding ban_count add_ban retain
ban_count-add_ban db jail ip t bantime payload h =
    rw
      (
        retain-absent (ban_at jail ip t) db.bans (Before-fresh jail ip db.bans t h),
        retain-append,
        length-append,
      )
      (ground (arith, str_eq_refl jail, str_eq_refl ip))

-- Removing the ban again (an unban, or the expiry) gives back the history from before it.
pub bans-remove_ban :
    (db : Database) (jail ip : Str) (t : ℤ) (bantime : Option ℤ) (payload : Str)
    → Before (newest jail ip db.bans) t
    → (remove_ban (add_ban db jail ip t bantime payload) jail ip).bans ≡ db.bans
unfolding remove_ban add_ban delete_newest retain
bans-remove_ban db jail ip t bantime payload h =
    let fresh = retain-absent (ban_at jail ip t) db.bans (Before-fresh jail ip db.bans t h) in
    rw (fresh, newest-append jail ip db.bans t bantime payload h)
      (rw (retain-append, fresh)
        (ground (arith, str_eq_refl jail, str_eq_refl ip, eq_ℤ_refl t, append-nil db.bans)))

-- So the number that `bantime_increment` goes by is after a ban that has ended what it was before it,
-- and no later ban of the address is longer for it.
pub ban_count_forgets :
    (db : Database) (jail ip : Str) (t : ℤ) (bantime : Option ℤ) (payload : Str)
    → Before (newest jail ip db.bans) t
    → (ban_count (add_ban db jail ip t bantime payload) jail ip ≡ ban_count db jail ip + 1)
      × (ban_count (remove_ban (add_ban db jail ip t bantime payload) jail ip) jail ip
          ≡ ban_count db jail ip)
unfolding ban_count
ban_count_forgets db jail ip t bantime payload h = (
  ban_count-add_ban db jail ip t bantime payload h,
  ap (λ rs. length (retain (ban_of jail ip) rs)) (bans-remove_ban db jail ip t bantime payload h),
)
