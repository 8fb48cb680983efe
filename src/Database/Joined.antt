-- ===== src/Database/Joined.antt =====
-- src/server/database.rs: the rows of `bips` and the rows of `bans` that they refer to.
use rail2ban.Prelude.{
  ◌≡◌, refl, ap, ◌∙◌, Bool, true, false, not, ◌||◌, Option, none, some, List, [], ◌∷◌, ◌++◌, arith,
  retain, any, any-append, Str, str_eq_iff, str_eq_refl, All, Bool-cases, inl, inr,
}
use rail2ban.Prelude.Int.{ℤ}
use rail2ban.Database.{
  DbBan, Bip, Database, ban_of, bip_of, ban_at, ban_row, bip_row, open_empty, add_ban, remove_ban,
  newest, delete_newest, remove_ban_all_jails, remove_all_bans, purge, in_bips, expired_bip,
}
use rail2ban.Database.Rows.{any-retain_kept, eq_ℤ_refl}

-- The row of `bans` that a row of `bips` refers to.
abbrev pub has_row : List DbBan → Bip → Bool
has_row bans b = any (ban_at b.jail b.ip b.time_of_ban) bans

-- Each row of `bips` has its row of `bans`.
abbrev pub Joined : Database → Type 0
Joined db = All (λ b. has_row db.bans b ≡ true) db.bips

module _ {ℓ} {A : Type ℓ} where
  All-retain :
      (P Q : A → Type 0) (q : A → Bool) (xs : List A)
      → ((x : A) → q x ≡ true → P x → Q x)
      → All P xs
      → All Q (retain q xs)
  unfolding retain
  All-retain P Q q [] h p = tt
  All-retain P Q q (x ∷ xs) h p = elim (Bool-cases (q x)) [
    | inl kept ↦ rw kept (h x kept p.0, All-retain P Q q xs h p.1)
    | inr gone ↦ rw gone (All-retain P Q q xs h p.1)
  ]

  All-append : (P : A → Type 0) (xs ys : List A) → All P xs → All P ys → All P (xs ++ ys)
  All-append P [] ys p r = r
  All-append P (x ∷ xs) ys p r = (p.0, All-append P xs ys p.1 r)

module _ {ℓ} {A : Type ℓ} where
  All-both :
      (P Q S : A → Type 0) (xs : List A)
      → ((x : A) → P x → Q x → S x)
      → All P xs
      → All Q xs
      → All S xs
  All-both P Q S [] h p q = tt
  All-both P Q S (x ∷ xs) h p q = (h x p.0 q.0, All-both P Q S xs h p.1 q.1)

-- A row that is not of a pair does not refer to one of the pair.
apart :
    (jail ip : Str) (b : Bip) (r : DbBan)
    → not (bip_of jail ip b) ≡ true
    → ban_at b.jail b.ip b.time_of_ban r ≡ true
    → ban_of jail ip r ≡ false
apart jail ip b r other e = ground (
  arith,
  str_eq_iff b.jail jail,
  str_eq_iff b.ip ip,
  str_eq_iff r.jail b.jail,
  str_eq_iff r.ip b.ip,
  str_eq_iff r.jail jail,
  str_eq_iff r.ip ip,
)

add_ban-Joined :
    (db : Database) (jail ip : Str) (t : ℤ) (bantime : Option ℤ) (payload : Str)
    → Joined db
    → Joined (add_ban db jail ip t bantime payload)
unfolding add_ban any
add_ban-Joined db jail ip t bantime payload j =
    let old = retain (λ r. not (ban_at jail ip t r)) db.bans in
    let row = ban_row jail ip t bantime payload in
    All-append _ _ (bip_row jail ip t ∷ [])
      (All-retain _ _ _ db.bips
        (λ b other found.
          any-append (ban_at b.jail b.ip b.time_of_ban) old (row ∷ [])
          ∙ ap (λ k. k || any (ban_at b.jail b.ip b.time_of_ban) (row ∷ []))
              (any-retain_kept (ban_at b.jail b.ip b.time_of_ban) _ db.bans
                  (λ r e. let own = apart jail ip b r other e in ground arith)
                ∙ found))
        j)
      (any-append (ban_at jail ip t) old (row ∷ []) ∙ rest (any (ban_at jail ip t) old), tt)
  where
    rest :
        (k : Bool) → (k || any (ban_at jail ip t) (ban_row jail ip t bantime payload ∷ [])) ≡ true
    rest k = ground (arith, str_eq_refl jail, str_eq_refl ip, eq_ℤ_refl t)

remove_ban-Joined : (db : Database) (jail ip : Str) → Joined db → Joined (remove_ban db jail ip)
unfolding remove_ban delete_newest
remove_ban-Joined db jail ip j =
    All-retain _ _ _ db.bips (λ b other found. left (newest jail ip db.bans) b other found) j
  where
    left :
        (o : Option ℤ) (b : Bip)
        → not (bip_of jail ip b) ≡ true
        → has_row db.bans b ≡ true
        → has_row (delete_newest jail ip o db.bans) b ≡ true
    left none b other found = found
    left (some t) b other found =
        any-retain_kept (ban_at b.jail b.ip b.time_of_ban) _ db.bans
          (λ r e. let own = apart jail ip b r other e in ground arith)
        ∙ found

remove_ban_all_jails-Joined :
    (db : Database) (ip : Str) → Joined db → Joined (remove_ban_all_jails db ip)
unfolding remove_ban_all_jails
remove_ban_all_jails-Joined db ip j =
    All-retain _ _ _ db.bips
      (λ b other found.
        any-retain_kept (ban_at b.jail b.ip b.time_of_ban) _ db.bans
          (λ r e. ground (arith, str_eq_iff b.ip ip, str_eq_iff r.ip ip, str_eq_iff r.ip b.ip))
        ∙ found)
      j

-- A row of `bans` that a row of `bips` refers to joins it.
abbrev Joins : List Bip → Bip → Type 0
Joins bips b = (r : DbBan) → ban_at b.jail b.ip b.time_of_ban r ≡ true → in_bips bips r ≡ true

All-Joins : (bips : List Bip) → All (Joins bips) bips
unfolding in_bips any
All-Joins [] = tt
All-Joins (b ∷ bips) = (
  λ r e. rw e refl,
  All-both (Joins bips) (Joins bips) (Joins (b ∷ bips)) bips
      (λ c joins _ r e. let found = joins r e in ground arith) (All-Joins bips) (All-Joins bips),
)

purge-Joined :
    (db : Database) (max_age_secs now : ℤ) → Joined db → Joined (purge db max_age_secs now)
unfolding purge
purge-Joined db max_age_secs now j =
    let bips = retain (λ b. not (expired_bip now db.bans b)) db.bips in
    All-both (λ b. has_row db.bans b ≡ true) (Joins bips) _ bips
      (λ b found joins.
        any-retain_kept (ban_at b.jail b.ip b.time_of_ban) _ db.bans
          (λ r e. let joined = joins r e in ground arith)
        ∙ found)
      (All-retain _ _ _ db.bips (λ b _ found. found) j) (All-Joins bips)

-- The calls that change a database.
pub data Call : Type 0 where
  adds : Str → Str → ℤ → Option ℤ → Str → Call
  removes : Str → Str → Call
  removes_all_jails : Str → Call
  clears : Call
  purges : ℤ → ℤ → Call

unfoldable pub apply : Database → Call → Database
apply db (adds jail ip t bantime payload) = add_ban db jail ip t bantime payload
apply db (removes jail ip) = remove_ban db jail ip
apply db (removes_all_jails ip) = remove_ban_all_jails db ip
apply db clears = remove_all_bans db
apply db (purges max_age_secs now) = purge db max_age_secs now

unfoldable pub run : Database → List Call → Database
run db [] = db
run db (c ∷ cs) = run (apply db c) cs

apply-Joined : (db : Database) (c : Call) → Joined db → Joined (apply db c)
unfolding apply remove_all_bans
apply-Joined db (adds jail ip t bantime payload) j = add_ban-Joined db jail ip t bantime payload j
apply-Joined db (removes jail ip) j = remove_ban-Joined db jail ip j
apply-Joined db (removes_all_jails ip) j = remove_ban_all_jails-Joined db ip j
apply-Joined db clears j = tt
apply-Joined db (purges max_age_secs now) j = purge-Joined db max_age_secs now j

run_from-Joined : (db : Database) (cs : List Call) → Joined db → Joined (run db cs)
unfolding run
run_from-Joined db [] j = j
run_from-Joined db (c ∷ cs) j = run_from-Joined (apply db c) cs (apply-Joined db c j)

-- After any calls on a new database, each current ban has its row in the history.
pub run-Joined : (cs : List Call) → Joined (run open_empty cs)
unfolding open_empty
run-Joined cs = run_from-Joined open_empty cs tt
