-- ===== src/Database.antt =====
-- src/server/database.rs: the two tables, and each SQL statement as a function on their rows. A call
-- that fails in SQLite itself (disk, locks) is not modelled: every caller drops the error or takes a
-- count of 0. Rows stand in the order of their row ids, and the primary keys are (jail, ip, timeofban)
-- for `bans` and (jail, ip) for `bips`.
pub mod Rows
pub mod History
pub mod Current
pub mod Purge
pub mod Listed
pub mod Joined
use rail2ban.Prelude.{
  ℕ, Bool, true, false, not, ◌&&◌, Option, none, some, List, [], ◌∷◌, ◌++◌, Str, str_eq,
  if◌then◌else◌, length, retain, any,
}
use rail2ban.Prelude.Int.{ℤ, ◌+ℤ◌, ◌-ℤ◌, leb_ℤ, ltb_ℤ, eq_ℤ}

-- A row of `bans`, and what `list_bans` returns (`DbBan`).
pub record DbBan : Type 0 where
  pub jail : Str
  pub ip : Str
  pub time_of_ban : ℤ
  pub bantime : Option ℤ
  pub payload : Str

-- A row of `bips`.
pub record Bip : Type 0 where
  pub jail : Str
  pub ip : Str
  pub time_of_ban : ℤ

pub record Database : Type 0 where
  pub bans : List DbBan
  pub bips : List Bip

unfoldable pub open_empty : Database
open_empty = record { bans = []; bips = [] }

-- `jail = ? AND ip = ?`.
abbrev pub ban_of : Str → Str → DbBan → Bool
ban_of jail ip r = str_eq r.jail jail && str_eq r.ip ip

abbrev pub bip_of : Str → Str → Bip → Bool
bip_of jail ip r = str_eq r.jail jail && str_eq r.ip ip

abbrev pub ban_at : Str → Str → ℤ → DbBan → Bool
ban_at jail ip t r = ban_of jail ip r && eq_ℤ r.time_of_ban t

-- The two rows that `INSERT OR REPLACE` writes.
abbrev pub ban_row : Str → Str → ℤ → Option ℤ → Str → DbBan
ban_row jail ip t bantime payload = record {
  jail = jail;
  ip = ip;
  time_of_ban = t;
  bantime = bantime;
  payload = payload;
}

abbrev pub bip_row : Str → Str → ℤ → Bip
bip_row jail ip t = record { jail = jail; ip = ip; time_of_ban = t }

unfoldable pub add_ban : Database → Str → Str → ℤ → Option ℤ → Str → Database
add_ban db jail ip t bantime payload = record {
  bans = retain (λ r. not (ban_at jail ip t r)) db.bans ++ ban_row jail ip t bantime payload ∷ [];
  bips = retain (λ r. not (bip_of jail ip r)) db.bips ++ bip_row jail ip t ∷ [];
}

abbrev later : ℤ → Option ℤ → ℤ
later t none = t
later t (some u) = if leb_ℤ u t then t else u

-- `ORDER BY timeofban DESC LIMIT 1`: the time of the newest row of a jail and address.
unfoldable pub newest : Str → Str → List DbBan → Option ℤ
newest jail ip [] = none
newest jail ip (r ∷ rs) =
    let rest = newest jail ip rs in
    if ban_of jail ip r then some (later r.time_of_ban rest) else rest

-- The first `DELETE` of `remove_ban`: the newest row goes (the primary key makes it the only one of
-- its time).
unfoldable pub delete_newest : Str → Str → Option ℤ → List DbBan → List DbBan
delete_newest jail ip none rs = rs
delete_newest jail ip (some t) rs = retain (λ r. not (ban_at jail ip t r)) rs

unfoldable pub remove_ban : Database → Str → Str → Database
unfolding newest delete_newest
remove_ban db jail ip = record {
  bans = delete_newest jail ip (newest jail ip db.bans) db.bans;
  bips = retain (λ r. not (bip_of jail ip r)) db.bips;
}

unfoldable pub remove_ban_all_jails : Database → Str → Database
remove_ban_all_jails db ip = record {
  bans = retain (λ r. not (str_eq r.ip ip)) db.bans;
  bips = retain (λ r. not (str_eq r.ip ip)) db.bips;
}

unfoldable pub remove_all_bans : Database → Database
remove_all_bans db = record { bans = []; bips = [] }

unfoldable pub ban_count : Database → Str → Str → ℕ
ban_count db jail ip = length (retain (ban_of jail ip) db.bans)

-- `bantime IS NOT NULL AND timeofban + bantime < now`.
abbrev pub ran_out : ℤ → DbBan → Option ℤ → Bool
ran_out now r none = false
ran_out now r (some d) = ltb_ℤ (r.time_of_ban +ℤ d) now

-- `(jail, ip, timeofban) IN (SELECT … FROM bans WHERE …)`.
unfoldable pub expired_bip : ℤ → List DbBan → Bip → Bool
expired_bip now bans b =
    any (λ r. ban_at b.jail b.ip b.time_of_ban r && ran_out now r r.bantime) bans

unfoldable pub in_bips : List Bip → DbBan → Bool
in_bips bips r = any (λ b. ban_at b.jail b.ip b.time_of_ban r) bips

unfoldable pub purge : Database → ℤ → ℤ → Database
unfolding expired_bip in_bips
purge db max_age_secs now =
    let bips = retain (λ b. not (expired_bip now db.bans b)) db.bips in
    record {
      bans =
          retain (λ r. not (ltb_ℤ r.time_of_ban (now -ℤ max_age_secs) && not (in_bips bips r)))
            db.bans;
      bips = bips;
    }

-- `ORDER BY b.timeofban DESC`.
unfoldable pub insert_desc : DbBan → List DbBan → List DbBan
insert_desc r [] = r ∷ []
insert_desc r (s ∷ ss) =
    if leb_ℤ s.time_of_ban r.time_of_ban then r ∷ s ∷ ss else s ∷ insert_desc r ss

unfoldable pub sort_desc : List DbBan → List DbBan
unfolding insert_desc
sort_desc [] = []
sort_desc (r ∷ rs) = insert_desc r (sort_desc rs)

-- The rows of `bans` that join a row of `bips`.
unfoldable pub list_bans : Database → List DbBan
unfolding sort_desc in_bips
list_bans db = sort_desc (retain (in_bips db.bips) db.bans)

-- Whether a ban of the address is current in the jail.
unfoldable pub is_current : Database → Str → Str → Bool
is_current db jail ip = any (bip_of jail ip) db.bips
