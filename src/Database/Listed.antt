-- ===== src/Database/Listed.antt =====
-- src/server/database.rs: the current bans of one address.
use rail2ban.Prelude.{
  ◌≡◌, refl, ◌∙◌, true, false, not, Option, List, [], ◌∷◌, ◌++◌, arith, retain, any, retain-append,
  any-append, Str, str_eq_iff, str_eq_refl,
}
use rail2ban.Prelude.Int.{ℤ, eq_ℤ}
use rail2ban.Database.{
  DbBan, Bip, Database, ban_of, bip_of, ban_at, ban_row, bip_row, add_ban, remove_ban, list_bans,
  in_bips,
}
use rail2ban.Database.Rows.{any-retain_excluded, eq_ℤ_refl}
use rail2ban.Database.Current.{retain-sort_desc_one, retain-sort_desc_nil}

module _ (jail ip : Str) where
  -- A row of the pair joins no row of `bips` from which the pair has been removed.
  in_bips_removed :
      (bips : List Bip) (r : DbBan)
      → ban_of jail ip r ≡ true
      → in_bips (retain (λ b. not (bip_of jail ip b)) bips) r ≡ false
  unfolding in_bips
  in_bips_removed bips r own =
      any-retain_excluded (λ b. ban_at b.jail b.ip b.time_of_ban r) _ bips
        (λ b h. ground (
          arith,
          str_eq_iff r.jail jail,
          str_eq_iff r.ip ip,
          str_eq_iff b.jail jail,
          str_eq_iff b.ip ip,
          str_eq_iff r.jail b.jail,
          str_eq_iff r.ip b.ip,
        ))

  -- After the statement that stores a ban, the only row of the pair that can join is the new one.
  in_bips_stored :
      (bips : List Bip) (t : ℤ) (r : DbBan)
      → ban_of jail ip r ≡ true
      → in_bips (retain (λ b. not (bip_of jail ip b)) bips ++ bip_row jail ip t ∷ []) r
        ≡ eq_ℤ r.time_of_ban t
  unfolding in_bips any
  in_bips_stored bips t r own =
      any-append (λ b. ban_at b.jail b.ip b.time_of_ban r) _ (bip_row jail ip t ∷ [])
      ∙ ground (arith, in_bips_removed bips r own)

  old_rows :
      (bips : List Bip) (t : ℤ) (bans : List DbBan)
      → retain (ban_of jail ip) (
          retain
            (in_bips (retain (λ b. not (bip_of jail ip b)) bips ++ bip_row jail ip t ∷ []))
            (retain (λ r. not (ban_at jail ip t r)) bans))
        ≡ []
  unfolding retain
  old_rows bips t [] = refl
  old_rows bips t (r ∷ rs) = ground (arith, in_bips_stored bips t r, old_rows bips t rs)

  removed_rows :
      (bips : List Bip) (bans : List DbBan)
      → retain (ban_of jail ip) (retain (in_bips (retain (λ b. not (bip_of jail ip b)) bips)) bans)
        ≡ []
  unfolding retain
  removed_rows bips [] = refl
  removed_rows bips (r ∷ rs) = ground (arith, in_bips_removed bips r, removed_rows bips rs)

  -- Storing a ban makes it the one current ban of its jail and address, whatever was stored before.
  pub list_bans-add_ban :
      (db : Database) (t : ℤ) (bantime : Option ℤ) (payload : Str)
      → retain (ban_of jail ip) (list_bans (add_ban db jail ip t bantime payload))
        ≡ ban_row jail ip t bantime payload ∷ []
  unfolding list_bans add_ban retain
  list_bans-add_ban db t bantime payload =
      let row = ban_row jail ip t bantime payload in
      let bips = retain (λ b. not (bip_of jail ip b)) db.bips ++ bip_row jail ip t ∷ [] in
      retain-sort_desc_one (ban_of jail ip) row
        (retain (in_bips bips) (retain (λ r. not (ban_at jail ip t r)) db.bans ++ row ∷ []))
        (rw (retain-append, retain-append, old_rows)
          (ground
            (arith, in_bips_stored db.bips t row, str_eq_refl jail, str_eq_refl ip, eq_ℤ_refl t)))

  -- Removing it leaves no current ban of the pair.
  pub list_bans-remove_ban :
      (db : Database) → retain (ban_of jail ip) (list_bans (remove_ban db jail ip)) ≡ []
  unfolding list_bans remove_ban
  list_bans-remove_ban db = retain-sort_desc_nil (ban_of jail ip) _ (removed_rows db.bips _)
