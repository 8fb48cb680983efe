-- ===== src/Tests/Gates.antt =====
-- Requests of the management interface.
use rail2ban.Prelude.{
  ◌≡◌, refl, none, some, [], ◌∷◌, ◌++◌, codes, arith, Str, strip_prefix, Option, any, retain,
  str_eq, split, trim, is_whitespace, trim_start,
}
use rail2ban.Prelude.Int.{◌-ℤ◌}
use rail2ban.Web.Users.{
  count_recent_failures, find_user, verify, log_attempt, update_last_login, touch,
}
use rail2ban.Web.Sessions.{AuthManager, validate_session}
use rail2ban.Web.Sessions
use rail2ban.Web.Tokens.{encode, generate_session_token}
use rail2ban.Web.Gate.{
  WebState, Request, Next, token_of, first_some, extract_session_token, require_auth, create_router,
  security_headers,
}
use rail2ban.Web.Nested.{create_router-unguarded}
use rail2ban.Web.Cookies.{extract_session_token-generate_session_token}
use rail2ban.Web.Admission.{require_auth-login}
use rail2ban.Tests.Site.{
  hashing, admin, password, manager, client, at, site, cookies, request, answer,
}

-- axum's `nest` at a prefix, as its documentation has it.
abbrev nest : Str → Str → Option Str
nest prefix path = strip_prefix prefix path

strips : (prefix tail : Str) → nest prefix (prefix ++ b'/' ∷ tail) ≡ some (b'/' ∷ tail)
unfolding strip_prefix
strips [] tail = refl
strips (c ∷ prefix) tail = ground (arith, strips prefix tail)

abbrev serve : Next (Unit {0})
serve state r = (state, answer)

abbrev stats : Request
stats = request (codes "/emc/api/stats") none

create_router-unguarded_example :
    create_router nest (λ s. some s) 1 2 serve serve site stats
    ≡ security_headers (λ s q. serve s (record q { path = codes "/stats" })) site stats
unfolding strip_prefix
create_router-unguarded_example =
    create_router-unguarded nest (λ s. some s) 1 2 serve serve site stats (codes "stats") strips
      refl refl

abbrev cookie : Str
cookie = codes "lang=en; rail2ban_session=01ab; theme=dark"

extract_session_token-generate_session_token_example :
    extract_session_token (cookies (some cookie)) ≡ some (generate_session_token (1 ∷ 171 ∷ []))
unfolding generate_session_token encode str_eq split first_some token_of trim trim_start
    strip_prefix is_whitespace
extract_session_token-generate_session_token_example =
    extract_session_token-generate_session_token (1 ∷ 171 ∷ []) (codes "lang=en")
      (some (codes " theme=dark")) (cookies (some cookie)) (omega arith, (omega arith, tt)) refl
      refl

-- Behind a login at instant 1000.
abbrev visited : AuthManager
visited = (Sessions.login hashing manager admin password client (at 100 1000)).0

abbrev behind : WebState (Unit {0})
behind = record site { auth = visited }

-- The cookie of the login and nothing else.
abbrev alone : Str
alone = codes "rail2ban_session=01ab"

require_auth-login_example :
    require_auth 2000 serve behind (request (codes "/emc/api/stats") (some alone))
    ≡ serve
        (record behind {
          auth = (validate_session visited (generate_session_token (1 ∷ 171 ∷ [])) 2000).0;
        })
        (request (codes "/emc/api/stats") (some alone))
unfolding generate_session_token encode str_eq split first_some token_of trim trim_start
    strip_prefix is_whitespace any Sessions.login count_recent_failures retain verify find_user
    log_attempt update_last_login touch ◌-ℤ◌
require_auth-login_example =
    require_auth-login hashing manager admin password client (codes "01ab") (at 100 1000) 2000 serve
      behind (request (codes "/emc/api/stats") (some alone)) none none refl
      (omega arith, (omega arith, tt)) (omega arith) tt refl refl refl
