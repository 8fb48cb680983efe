-- ===== src/Tests/Site.antt =====
-- The management interface of the small world: a hash is the password behind a dollar sign.
use rail2ban.Prelude.{
  if◌then◌else◌, ℕ, Option, none, some, [], ◌∷◌, Str, codes, str_eq, is_some, strip_prefix, false,
}
use rail2ban.Prelude.Int.{pos}
use rail2ban.Json.{null}
use rail2ban.Web.Users.{User, AuthDb, Hashing}
use rail2ban.Web.Sessions.{AuthManager, Readings}
use rail2ban.Web.Limiter
use rail2ban.Web.Gate.{WebState, Request, Response}

abbrev pub hashing : Hashing
hashing = record {
  make = λ salt password. some (b'$' ∷ password);
  parses = λ h. is_some (strip_prefix (codes "$") h);
  verifies = λ password h. str_eq h (b'$' ∷ password);
}

abbrev pub admin : Str
admin = codes "admin"

abbrev pub password : Str
password = codes "Passw0rd"

abbrev pub user : User
user = record {
  username = admin;
  password_hash = codes "$Passw0rd";
  created_at = pos 5;
  updated_at = pos 5;
  last_login = none;
}

abbrev pub users : AuthDb
users = record { users = user ∷ []; attempts = [] }

abbrev pub manager : AuthManager
manager = record { db = users; sessions = [] }

abbrev pub client : Str
client = codes "192.0.2.7"

-- Every clock of the wall at `s` seconds, the monotonic one at `n` nanoseconds.
abbrev pub at : ℕ → ℕ → Readings
at s n = record {
  counted = pos s;
  logged = pos s;
  recounted = pos s;
  updated = pos s;
  instant = n;
  random = 1 ∷ 171 ∷ [];
  salt = 0;
}

abbrev pub site : WebState (Unit {0})
site = record {
  server = tt;
  auth = manager;
  login_limiter = Limiter.new 10 60000000000;
  trust_proxy = false;
}

abbrev pub cookies : Option Str → Str → Option Str
cookies cookie name = if str_eq name (codes "cookie") then cookie else none

abbrev pub request : Str → Option Str → Request
request path cookie = record { path = path; header = cookies cookie; connect_info = some client }

abbrev pub answer : Response
answer = record { status = 200; headers = []; body = null }
