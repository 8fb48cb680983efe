-- ===== src/Tests/Web.antt =====
-- The management interface on concrete calls and requests.
use rail2ban.Prelude.{
  ℕ, ◌≤◌, ◌<◌, ◌-◌, ◌≡◌, refl, true, false, some, [], ◌∷◌, codes, arith, List, Str, strip_prefix,
  any, all, is_ascii_alphabetic, retain, str_eq, str_eq_refl, ◌&&◌, is_ascii_digit,
  is_ascii_lowercase, is_ascii_uppercase,
}
use rail2ban.Prelude.Dict
use rail2ban.Prelude.Int.{pos, ◌-ℤ◌}
use rail2ban.Web.Users.{
  done, fail, invalid_credentials, count_recent_failures, find_user, verify, log_attempt,
  update_last_login, touch,
}
use rail2ban.Web.Users
use rail2ban.Web.Sessions.{AuthManager, validate_session, session_absolute_ttl, max_login_attempts}
use rail2ban.Web.Sessions
use rail2ban.Web.Tokens.{encode, generate_session_token}
use rail2ban.Web.Calls.{Call, run, step, Issued}
use rail2ban.Web.Calls
use rail2ban.Web.Access.{validate_session-Issued}
use rail2ban.Web.Lockout.{count_recent_failures-le-max_login_attempts}
use rail2ban.Web.Accounts.{
  dismissed, names, login-fail, validate_session-change_password, login-change_password,
  names-setup_first,
}
use rail2ban.Web.Limiter
use rail2ban.Web.Windows.{Event, request, clean, answers, expected, answers-new-expected}
use rail2ban.Tests.Site.{hashing, admin, password, users, manager, client, at}

abbrev token : Str
token = codes "01ab"

-- A session of the administrator from instant 1000 on.
abbrev visited : AuthManager
visited = (Sessions.login hashing manager admin password client (at 100 1000)).0

abbrev attack : List Call
attack = Calls.login admin (codes "guess") client (at 100 1000) ∷ Calls.logout token ∷ []

count_recent_failures-le-max_login_attempts_example :
    count_recent_failures
      (run hashing (Sessions.new Users.open_in_memory) attack).db
      client
      (pos 200)
    ≤ max_login_attempts
count_recent_failures-le-max_login_attempts_example =
    count_recent_failures-le-max_login_attempts hashing attack (pos 100) client (pos 200)
      (omega arith, omega arith, omega arith, tt) (omega arith)

abbrev visit : List Call
visit = Calls.login admin password client (at 100 1000) ∷ []

validate_session-Issued_example :
    (instant : ℕ) × Issued hashing (Sessions.new users) visit token admin instant
    × (2000 - instant < session_absolute_ttl)
unfolding run step Sessions.new Sessions.login validate_session count_recent_failures retain verify
    find_user log_attempt update_last_login touch Dict.insert Dict.lookup str_eq strip_prefix
    generate_session_token encode ◌-ℤ◌
validate_session-Issued_example = validate_session-Issued hashing users visit token admin 2000 refl

abbrev changed : AuthManager
changed =
    (Sessions.change_password hashing visited admin password (codes "NewPass1") (at 300 3000)).0

validate_session-change_password_example :
    (validate_session changed token 4000).1
    ≡ dismissed admin (validate_session visited token 4000).1
unfolding Sessions.login Sessions.change_password Users.change_password Users.validate_password
    Users.byte_length any is_ascii_digit is_ascii_lowercase is_ascii_uppercase count_recent_failures
    retain verify find_user log_attempt update_last_login touch Dict.insert Dict.lookup str_eq
    strip_prefix generate_session_token encode ◌-ℤ◌
validate_session-change_password_example =
    validate_session-change_password hashing visited admin password (codes "NewPass1") (at 300 3000)
      token 4000 (refl, tt) refl

makes_verifiable :
    (salt : ℕ) (word h : Str)
    → hashing.make salt word ≡ some h
    → (hashing.parses h && hashing.verifies word h) ≡ true
unfolding strip_prefix
makes_verifiable salt word h made =
    let same : h ≡ b'$' ∷ word = cc made in rw (same, str_eq_refl (b'$' ∷ word)) refl

login-change_password_example :
    (Sessions.login hashing changed admin (codes "NewPass1") client (at 400 5000)).1
    ≡ done (generate_session_token (1 ∷ 171 ∷ []))
unfolding Sessions.login Sessions.change_password Users.change_password Users.validate_password
    Users.byte_length any is_ascii_digit is_ascii_lowercase is_ascii_uppercase count_recent_failures
    retain verify find_user log_attempt update_last_login touch Dict.insert str_eq strip_prefix ◌-ℤ◌
login-change_password_example =
    login-change_password hashing visited admin password (codes "NewPass1") (at 300 3000) client
      (at 400 5000) makes_verifiable refl refl

names-setup_first_example :
    names
      (run hashing
        (Sessions.setup hashing (Sessions.new Users.open_in_memory) admin password (at 90 0)).0
        visit).db
    ≡ admin ∷ []
unfolding Sessions.setup Sessions.new Users.open_in_memory Users.create_admin Users.admin_exists
    Users.validate_username Users.validate_password Users.byte_length any all is_ascii_alphabetic
    is_ascii_digit is_ascii_lowercase is_ascii_uppercase
names-setup_first_example = names-setup_first hashing admin password (at 90 0) visit refl

login-fail_example :
    ((Sessions.login hashing visited admin (codes "guess") client (at 200 2000)).0.sessions
      ≡ visited.sessions)
    × ((Sessions.login hashing visited admin (codes "guess") client (at 200 2000)).0.db.users
        ≡ visited.db.users)
unfolding Sessions.login count_recent_failures retain verify find_user log_attempt update_last_login
    touch str_eq strip_prefix ◌-ℤ◌
login-fail_example =
    login-fail hashing visited admin (codes "guess") client (at 200 2000) invalid_credentials refl

-- Three requests in a window of 10, with a limit of 2, and one behind it.
abbrev events : List Event
events = request client 1 ∷ request client 2 ∷ request client 3 ∷ clean 12 ∷ request client 13 ∷ []

answers-new-expected_example : answers (Limiter.new 2 10) events ≡ expected 2 10 (λ _. []) events
answers-new-expected_example =
    answers-new-expected 2 10 0 events
      (omega arith, (omega arith, (omega arith, (omega arith, (omega arith, tt)))))

answers_run : answers (Limiter.new 2 10) events ≡ true ∷ true ∷ false ∷ true ∷ []
unfolding answers Limiter.new Limiter.check Limiter.cleanup Limiter.sweep Dict.lookup Dict.insert
    retain str_eq
answers_run = refl
