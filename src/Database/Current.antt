-- ===== src/Database/Current.antt =====
-- src/server/database.rs: which bans are current, after the statements that write them.
use rail2ban.Prelude.{
  ◌≡◌, refl, ap, ◌∙◌, Bool, true, false, not, ◌&&◌, ◌||◌, Option, List, [], ◌∷◌, arith, retain, any,
  any-append, Str, str_eq, str_eq_iff, Bool-cases, inl, inr, if◌then◌else◌,
}
use rail2ban.Prelude.Int.{ℤ}
use rail2ban.Database.{
  DbBan, Bip, Database, bip_of, bip_row, add_ban, remove_ban, insert_desc, sort_desc, is_current,
}
use rail2ban.Database.Rows.{any-retain_excluded, any-retain_kept}

-- The test that two pairs of jail and address are one.
abbrev pub same : Str → Str → Str → Str → Bool
same jail ip jail' ip' = str_eq jail jail' && str_eq ip ip'

bip_of_apart :
    (jail ip jail' ip' : Str) (b : Bip)
    → same jail ip jail' ip' ≡ false
    → bip_of jail' ip' b ≡ true
    → bip_of jail ip b ≡ false
bip_of_apart jail ip jail' ip' b h e = ground (
  arith,
  str_eq_iff jail jail',
  str_eq_iff ip ip',
  str_eq_iff b.jail jail,
  str_eq_iff b.jail jail',
  str_eq_iff b.ip ip,
  str_eq_iff b.ip ip',
)

same_sound : (jail ip jail' ip' : Str) → same jail ip jail' ip' ≡ true → (jail ≡ jail') × (ip ≡ ip')
same_sound jail ip jail' ip' h = ground (arith, str_eq_iff jail jail', str_eq_iff ip ip')

-- The rows of `bips` for one pair, once those of another have gone.
current_others :
    (jail ip jail' ip' : Str) (bips : List Bip)
    → any (bip_of jail' ip') (retain (λ r. not (bip_of jail ip r)) bips)
      ≡ (if same jail ip jail' ip' then false else any (bip_of jail' ip') bips)
current_others jail ip jail' ip' bips = elim (Bool-cases (same jail ip jail' ip')) [
  | inl h ↦
      let (j, i) = same_sound jail ip jail' ip' h in
      rw h (rw (← j, ← i) (any-retain_excluded (bip_of jail ip) _ bips (λ b e. ground arith)))
  | inr h ↦ rw h (
      any-retain_kept (bip_of jail' ip') _ bips
        (λ b e. ground (arith, bip_of_apart jail ip jail' ip' b h)))
]

-- A ban that is stored is current, and no other pair changes.
pub is_current-add_ban :
    (db : Database) (jail ip : Str) (t : ℤ) (bantime : Option ℤ) (payload : Str) (jail' ip' : Str)
    → is_current (add_ban db jail ip t bantime payload) jail' ip'
      ≡ (if same jail ip jail' ip' then true else is_current db jail' ip')
unfolding is_current add_ban any
is_current-add_ban db jail ip t bantime payload jail' ip' = ground (
  arith,
  any-append (bip_of jail' ip') (retain (λ r. not (bip_of jail ip r)) db.bips)
      (bip_row jail ip t ∷ []),
  current_others jail ip jail' ip' db.bips,
)

-- A ban that is removed is not, and no other pair changes.
pub is_current-remove_ban :
    (db : Database) (jail ip jail' ip' : Str)
    → is_current (remove_ban db jail ip) jail' ip'
      ≡ (if same jail ip jail' ip' then false else is_current db jail' ip')
unfolding is_current remove_ban
is_current-remove_ban db jail ip jail' ip' = current_others jail ip jail' ip' db.bips

-- Sorting moves rows only.
pub any-sort_desc : (p : DbBan → Bool) (rs : List DbBan) → any p (sort_desc rs) ≡ any p rs
unfolding sort_desc any
any-sort_desc p [] = refl
any-sort_desc p (r ∷ rs) =
    any-insert_desc p r (sort_desc rs) ∙ ap (λ b. p r || b) (any-sort_desc p rs)
  where
    any-insert_desc :
        (p : DbBan → Bool) (r : DbBan) (ss : List DbBan)
        → any p (insert_desc r ss) ≡ (p r || any p ss)
    any-insert_desc p r [] = refl
    any-insert_desc p r (s ∷ ss) = ground (arith, any-insert_desc p r ss)

retain-insert_desc_out :
    (p : DbBan → Bool) (r : DbBan) (ss : List DbBan)
    → p r ≡ false
    → retain p (insert_desc r ss) ≡ retain p ss
unfolding insert_desc retain
retain-insert_desc_out p r [] h = rw h
retain-insert_desc_out p r (s ∷ ss) h = ground (arith, retain-insert_desc_out p r ss h)

retain-insert_desc_only :
    (p : DbBan → Bool) (r : DbBan) (ss : List DbBan)
    → p r ≡ true
    → retain p ss ≡ []
    → retain p (insert_desc r ss) ≡ r ∷ []
unfolding insert_desc retain
retain-insert_desc_only p r [] h e = rw h
retain-insert_desc_only p r (s ∷ ss) h e = ground (arith, retain-insert_desc_only p r ss h)

pub retain-sort_desc_nil :
    (p : DbBan → Bool) (rs : List DbBan) → retain p rs ≡ [] → retain p (sort_desc rs) ≡ []
unfolding sort_desc retain
retain-sort_desc_nil p [] e = refl
retain-sort_desc_nil p (r ∷ rs) e =
    ground (arith, retain-insert_desc_out p r (sort_desc rs), retain-sort_desc_nil p rs)

pub retain-sort_desc_one :
    (p : DbBan → Bool) (x : DbBan) (rs : List DbBan)
    → retain p rs ≡ x ∷ []
    → retain p (sort_desc rs) ≡ x ∷ []
unfolding sort_desc retain
retain-sort_desc_one p x [] e = cc
retain-sort_desc_one p x (r ∷ rs) e = ground (
  arith,
  retain-insert_desc_out p r (sort_desc rs),
  retain-insert_desc_only p r (sort_desc rs),
  retain-sort_desc_nil p rs,
  retain-sort_desc_one p x rs,
)
