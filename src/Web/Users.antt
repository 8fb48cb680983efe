-- ===== src/Web/Users.antt =====
-- src/web/auth.rs: `AuthError`, the store of the accounts and the log of the login attempts
-- (`AuthDb`), and the rules for names and passwords. Each SQL statement is a function on rows; a
-- failure of SQLite itself is not modelled. Argon2 and the salts are a parameter (`Hashing`).
use rail2ban.Prelude.{
  ℕ, ◌+◌, Bool, false, not, ◌&&◌, ◌||◌, Option, none, some, List, [], ◌∷◌, ◌++◌, Str, str_eq, ltb,
  ◌==◌, if◌then◌else◌, length, retain, any, all, is_ascii_digit, is_ascii_uppercase,
  is_ascii_lowercase, is_ascii_alphabetic,
}
use rail2ban.Prelude.Int.{ℤ, pos, ◌-ℤ◌, ltb_ℤ}

-- Without the messages.
pub data AuthError : Type 0 where
  invalid_credentials : AuthError
  locked_out : ℕ → AuthError
  already_exists setup_required weak_password incorrect_old_password user_not_found : AuthError
  database hash io : AuthError

pub data AuthResult {ℓ} (A : Type ℓ) : Type ℓ where
  done : A → AuthResult A
  fail : AuthError → AuthResult A

infixl 5 ◌>>=◌
abbrev pub ◌>>=◌ {ℓ κ} :
    {A : Type ℓ} {B : Type κ} → AuthResult A → (A → AuthResult B) → AuthResult B
done a >>= f = f a
fail e >>= f = fail e

-- A row of `admin_users`.
pub record User : Type 0 where
  pub username : Str
  pub password_hash : Str
  pub created_at : ℤ
  pub updated_at : ℤ
  pub last_login : Option ℤ

-- A row of `login_log`.
pub record Attempt : Type 0 where
  pub username : Option Str
  pub ip : Str
  pub success : Bool
  pub attempted_at : ℤ

pub record AuthDb : Type 0 where
  pub users : List User
  pub attempts : List Attempt

pub record AdminInfo : Type 0 where
  pub username : Str
  pub created_at : ℤ
  pub last_login : Option ℤ

-- `hash_password` with a salt from the system, which may fail; whether a text is a hash; and whether a
-- password belongs to a hash.
pub record Hashing : Type 0 where
  pub make : ℕ → Str → Option Str
  pub parses : Str → Bool
  pub verifies : Str → Str → Bool

unfoldable pub open_in_memory : AuthDb
open_in_memory = record { users = []; attempts = [] }

-- `SELECT COUNT(*) FROM admin_users`, compared with 0.
unfoldable pub admin_exists : AuthDb → Bool
admin_exists db = ltb 0 (length db.users)

abbrev pub named : Str → User → Bool
named name u = str_eq u.username name

-- `WHERE username = ?`; the column is unique.
unfoldable pub find_user : Str → List User → Option User
find_user name [] = none
find_user name (u ∷ us) = if named name u then some u else find_user name us

abbrev of_hash : Option Str → AuthResult Str
of_hash none = fail hash
of_hash (some h) = done h

-- The `INSERT`, which a name in use fails.
abbrev insert_user : AuthDb → Str → ℤ → Str → AuthResult AuthDb
insert_user db name now h =
    if any (named name) db.users
    then fail database
    else done (record db {
      users =
          db.users
          ++ record {
            username = name;
            password_hash = h;
            created_at = now;
            updated_at = now;
            last_login = none;
          }
            ∷ [];
    })

-- `UPDATE … SET password_hash, updated_at WHERE username = ?`.
unfoldable pub set_hash : Str → Str → ℤ → List User → List User
set_hash name h now [] = []
set_hash name h now (u ∷ us) =
    (if named name u then record u { password_hash = h; updated_at = now } else u)
    ∷ set_hash name h now us

abbrev update_hash : AuthDb → Str → ℤ → Str → AuthResult AuthDb
update_hash db name now h =
    if any (named name) db.users
    then done (record db { users = set_hash name h now db.users })
    else fail user_not_found

module _ (hashing : Hashing) where
  unfoldable pub create_admin : AuthDb → Str → Str → ℕ → ℤ → AuthResult AuthDb
  unfolding any
  create_admin db name password salt now = do
    h ← of_hash (hashing.make salt password)
    insert_user db name now h

  abbrev verify_user : Option User → Str → AuthResult Bool
  verify_user none password = done false
  verify_user (some u) password =
      if hashing.parses u.password_hash
      then done (hashing.verifies password u.password_hash)
      else fail hash

  -- For an unknown name a dummy hash is verified, which has no effect but the time it takes.
  unfoldable pub verify : AuthDb → Str → Str → AuthResult Bool
  unfolding find_user
  verify db name password = verify_user (find_user name db.users) password

  unfoldable pub change_password : AuthDb → Str → Str → Str → ℕ → ℤ → AuthResult AuthDb
  unfolding verify any
  change_password db name old new salt now = do
    valid ← verify db name old
    if not valid
        then fail incorrect_old_password
        else (of_hash (hashing.make salt new) >>= update_hash db name now)

unfoldable pub log_attempt : AuthDb → Option Str → Str → Bool → ℤ → AuthDb
log_attempt db name ip success now = record db {
  attempts =
      db.attempts
      ++ record { username = name; ip = ip; success = success; attempted_at = now } ∷ [];
}

unfoldable pub touch : Str → ℤ → List User → List User
touch name now [] = []
touch name now (u ∷ us) =
    (if named name u then record u { last_login = some now } else u) ∷ touch name now us

unfoldable pub update_last_login : AuthDb → Str → ℤ → AuthDb
unfolding touch
update_last_login db name now = record db { users = touch name now db.users }

abbrev info_of : Option User → AuthResult AdminInfo
info_of none = fail database
info_of (some u) =
    done (record { username = u.username; created_at = u.created_at; last_login = u.last_login })

-- No row is an error of the database.
unfoldable pub get_admin_info : AuthDb → Str → AuthResult AdminInfo
unfolding find_user
get_admin_info db name = info_of (find_user name db.users)

-- `LOGIN_ATTEMPT_WINDOW` in seconds.
abbrev pub login_attempt_window : ℕ
login_attempt_window = 900

abbrev pub failed_since : Str → ℤ → Attempt → Bool
failed_since ip cutoff a = str_eq a.ip ip && not a.success && ltb_ℤ cutoff a.attempted_at

unfoldable pub count_recent_failures : AuthDb → Str → ℤ → ℕ
count_recent_failures db ip now =
    length (retain (failed_since ip (now -ℤ pos login_attempt_window)) db.attempts)

-- `str::len`, in bytes of UTF-8.
unfoldable pub byte_length : Str → ℕ
byte_length [] = 0
byte_length (c ∷ cs) =
    (if ltb c 128 then 1 else if ltb c 2048 then 2 else if ltb c 65536 then 3 else 4)
    + byte_length cs

unfoldable pub validate_username : Str → AuthResult (Unit {0})
unfolding byte_length all is_ascii_alphabetic is_ascii_digit
validate_username name =
    if ltb (byte_length name) 3 || ltb 32 (byte_length name)
    then fail weak_password
    else if not
        (all (λ c. is_ascii_alphabetic c || is_ascii_digit c || c == b'_' || c == b'-') name)
    then fail weak_password
    else done tt

unfoldable pub validate_password : Str → AuthResult (Unit {0})
unfolding byte_length any is_ascii_uppercase is_ascii_lowercase is_ascii_digit
validate_password password =
    if ltb (byte_length password) 8
    then fail weak_password
    else if not (any is_ascii_uppercase password)
    then fail weak_password
    else if not (any is_ascii_lowercase password)
    then fail weak_password
    else if not (any is_ascii_digit password)
    then fail weak_password
    else done tt
