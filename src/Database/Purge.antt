-- ===== src/Database/Purge.antt =====
-- src/server/database.rs: `purge` against the list of current bans.
use rail2ban.Prelude.{
  ◌≡◌, refl, sym, ap, ◌∙◌, Bool, true, false, not, ◌&&◌, List, [], ◌∷◌, arith, retain, any,
  retain-retain, Str, str_eq_iff, str_eq_refl, All,
}
use rail2ban.Prelude.Int.{ℤ}
use rail2ban.Database.{
  DbBan, Bip, Database, ban_at, purge, list_bans, in_bips, expired_bip, ran_out,
}
use rail2ban.Database.Rows.{eq_ℤ_refl, eq_ℤ_iff}
use rail2ban.Database.Current.{any-sort_desc}

-- The test for the primary key of a row of `bans`.
abbrev keyed : DbBan → DbBan → Bool
keyed r = ban_at r.jail r.ip r.time_of_ban

-- The primary key of `bans`.
abbrev pub UniqueRows : List DbBan → Type 0
UniqueRows [] = Unit
UniqueRows (r ∷ rs) = (any (keyed r) rs ≡ false) × UniqueRows rs

keyed_symm : (r s : DbBan) → keyed r s ≡ keyed s r
keyed_symm r s = ground (
  arith,
  str_eq_iff r.jail s.jail,
  str_eq_iff s.jail r.jail,
  str_eq_iff r.ip s.ip,
  str_eq_iff s.ip r.ip,
)

module _ {ℓ} {A : Type ℓ} where
  All-of_not_any : (p : A → Bool) (xs : List A) → any p xs ≡ false → All (λ x. p x ≡ false) xs
  unfolding any
  All-of_not_any p [] h = tt
  All-of_not_any p (x ∷ xs) h = (ground arith, All-of_not_any p xs (ground arith))

  any-congr : (p q : A → Bool) (xs : List A) → All (λ x. p x ≡ q x) xs → any p xs ≡ any q xs
  unfolding any
  any-congr p q [] h = refl
  any-congr p q (x ∷ xs) h = rw (h.0, any-congr p q xs h.1)

  pub any-retain : (p q : A → Bool) (xs : List A) → any p (retain q xs) ≡ any (λ x. q x && p x) xs
  unfolding any retain
  any-retain p q [] = refl
  any-retain p q (x ∷ xs) = ground (arith, any-retain p q xs)

any-keyed_apart :
    (q : DbBan → Bool) (r : DbBan) (rs : List DbBan)
    → any (keyed r) rs ≡ false
    → any (λ s. keyed r s && q s) rs ≡ false
unfolding any
any-keyed_apart q r [] h = refl
any-keyed_apart q r (s ∷ rs) h = ground (arith, any-keyed_apart q r rs)

-- Of the rows with the key of a given one, that row itself is the only one.
any-keyed :
    (q : DbBan → Bool) (rs : List DbBan)
    → UniqueRows rs
    → All (λ r. any (λ s. keyed r s && q s) rs ≡ q r) rs
unfolding any
any-keyed q [] u = tt
any-keyed q (r ∷ rs) u = (
  rw (any-keyed_apart q r rs u.0)
      (ground (arith, str_eq_refl r.jail, str_eq_refl r.ip, eq_ℤ_refl r.time_of_ban)),
  skip rs (All-of_not_any (keyed r) rs u.0) (any-keyed q rs u.1),
)
  where
    skip :
        (xs : List DbBan)
        → All (λ x. keyed r x ≡ false) xs
        → All (λ x. any (λ s. keyed x s && q s) rs ≡ q x) xs
        → All (λ x. any (λ s. keyed x s && q s) (r ∷ rs) ≡ q x) xs
    skip [] a h = tt
    skip (x ∷ xs) a h = (rw (keyed_symm x r, a.0) h.0, skip xs a.1 h.1)

abbrev over : ℤ → DbBan → Bool
over now r = ran_out now r r.bantime

-- A row of `bips` that has the key of a row of `bans` runs out with it.
expired_bip-keyed :
    (now : ℤ) (bans : List DbBan) (b : Bip) (r : DbBan)
    → any (λ s. keyed r s && over now s) bans ≡ over now r
    → ban_at b.jail b.ip b.time_of_ban r ≡ true
    → expired_bip now bans b ≡ over now r
unfolding expired_bip
expired_bip-keyed now bans b r own h =
    let j : r.jail ≡ b.jail = (str_eq_iff r.jail b.jail).0 (ground arith) in
    let i : r.ip ≡ b.ip = (str_eq_iff r.ip b.ip).0 (ground arith) in
    let t : r.time_of_ban ≡ b.time_of_ban =
      (eq_ℤ_iff r.time_of_ban b.time_of_ban).0 (ground arith) in
    ap (λ (k : Str × Str × ℤ). any (λ s. ban_at k.0 k.1 k.2 s && over now s) bans)
      (sym (Triple j i t))
    ∙ own
  where
    Triple :
        {a a' : Str} {c c' : Str} {e e' : ℤ}
        → a ≡ a'
        → c ≡ c'
        → e ≡ e'
        → ◌≡◌ {A = Str × Str × ℤ} (a, c, e) (a', c', e')
    Triple p q r i = (p i, q i, r i)

in_bips-retain :
    (now : ℤ) (bans : List DbBan) (bips : List Bip) (r : DbBan)
    → any (λ s. keyed r s && over now s) bans ≡ over now r
    → in_bips (retain (λ b. not (expired_bip now bans b)) bips) r
      ≡ (in_bips bips r && not (over now r))
unfolding in_bips any retain
in_bips-retain now bans [] r own = refl
in_bips-retain now bans (b ∷ bips) r own =
    ground (arith, expired_bip-keyed now bans b r own, in_bips-retain now bans bips r own)

listed_rows :
    (now : ℤ) (bans rs : List DbBan) (bips : List Bip) (p : DbBan → Bool)
    → All (λ r. any (λ s. keyed r s && over now s) bans ≡ over now r) rs
    → All
        (λ r.
          (in_bips (retain (λ b. not (expired_bip now bans b)) bips) r && p r)
          ≡ (in_bips bips r && (p r && not (over now r))))
        rs
listed_rows now bans [] bips p h = tt
listed_rows now bans (r ∷ rs) bips p h =
    (ground (arith, in_bips-retain now bans bips r h.0), listed_rows now bans rs bips p h.1)

-- A purge takes from the current bans exactly those that have run out, however old the others are: a
-- test holds of some ban listed after it exactly if it holds of one listed before that has not run
-- out. (The rows of `bans` have different keys.)
pub any-list_bans-purge :
    (db : Database) (max_age_secs now : ℤ) (p : DbBan → Bool)
    → UniqueRows db.bans
    → any p (list_bans (purge db max_age_secs now))
      ≡ any (λ r. p r && not (ran_out now r r.bantime)) (list_bans db)
unfolding list_bans purge
any-list_bans-purge db max_age_secs now p u =
    let bips = retain (λ b. not (expired_bip now db.bans b)) db.bips in
    any-sort_desc p _
    ∙ ap (any p) (retain-retain _ (in_bips bips) db.bans (λ r h. ground arith))
    ∙ any-retain p (in_bips bips) db.bans
    ∙ any-congr _ _ db.bans
        (listed_rows now db.bans db.bans db.bips p (any-keyed (over now) db.bans u))
    ∙ sym (any-retain _ (in_bips db.bips) db.bans)
    ∙ sym (any-sort_desc _ _)
