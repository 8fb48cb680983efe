-- ===== src/Web/Gate.antt =====
-- src/web/middleware.rs and src/web/routes.rs: what stands between a request and its handler. `header`
-- gives the text of the first header of a name, in lower case, where it has one that is visible ASCII;
-- `canonical_ip` parses an address and writes it again. axum's `nest` is a parameter: what is left of a
-- path behind a prefix, which is the path that the nested router and its layers see.
use rail2ban.Prelude.{
  ℕ, Bool, true, false, not, ◌||◌, ◌==◌, Option, none, some, and_then, or_option, unwrap_or,
  is_some, List, [], ◌∷◌, ◌++◌, Str, codes, str_eq, any, split, trim, strip_prefix, if◌then◌else◌,
}
use rail2ban.Prelude.Dict
use rail2ban.Json.{Json, bool, text, object}
use rail2ban.Web.Sessions.{AuthManager, validate_session}
use rail2ban.Web.Limiter.{RateLimiter, check}
use rail2ban.Action.{decimal}

pub record WebState (S : Type 0) : Type 0 where
  pub server : S
  pub auth : AuthManager
  pub login_limiter : RateLimiter
  pub trust_proxy : Bool

pub record Request : Type 0 where
  pub path : Str
  pub header : Str → Option Str
  pub connect_info : Option Str

-- A status, the headers that are set, and a JSON body.
pub record Response : Type 0 where
  pub status : ℕ
  pub headers : List (Str × Str)
  pub body : Json

abbrev pub session_cookie_name : Str
session_cookie_name = codes "rail2ban_session"

abbrev pub public_paths : List Str
public_paths =
    codes "/emc/api/login"
    ∷ codes "/emc/api/logout"
    ∷ codes "/emc/api/session"
    ∷ codes "/emc/api/setup"
    ∷ codes "/emc/api/version"
    ∷ codes "/emc"
    ∷ codes "/emc/"
    ∷ []

abbrev pub rate_limited_paths : List Str
rate_limited_paths = codes "/emc/api/login" ∷ codes "/emc/api/setup" ∷ []

-- `str::starts_with`.
abbrev pub starts_with : Str → Str → Bool
starts_with prefix s = is_some (strip_prefix prefix s)

-- The first piece of a split, which has one.
abbrev pub first_piece : List Str → Str
first_piece [] = []
first_piece (p ∷ ps) = p

unfoldable pub extract_client_ip : (Str → Option Str) → (Str → Option Str) → Option Str → Bool → Str
unfolding split trim
extract_client_ip canonical_ip header connect_info trust_proxy =
    let real = and_then (header (codes "x-real-ip")) (λ v. canonical_ip (trim v)) in
    let forwarded =
      and_then (header (codes "x-forwarded-for"))
        (λ v. canonical_ip (trim (first_piece (split (λ c. c == b',') v)))) in
    let remote = unwrap_or connect_info (codes "0.0.0.0") in
    if trust_proxy then unwrap_or (or_option real forwarded) remote else remote

-- The value of a pair that is the session's.
unfoldable pub token_of : Str → Option Str
unfolding trim strip_prefix
token_of pair = strip_prefix (session_cookie_name ++ codes "=") (trim pair)

-- A loop that returns what the first pair gives.
unfoldable pub first_some : (Str → Option Str) → List Str → Option Str
first_some f [] = none
first_some f (p ∷ ps) = or_option (f p) (first_some f ps)

unfoldable pub extract_session_token : (Str → Option Str) → Option Str
unfolding split token_of first_some
extract_session_token header =
    and_then (header (codes "cookie"))
      (λ cookie. first_some token_of (split (λ c. c == b';') cookie))

unfoldable pub build_session_cookie : Str → ℕ → Str
unfolding decimal
build_session_cookie token max_age =
    session_cookie_name
    ++ (codes "="
        ++ (token ++ (codes "; HttpOnly; SameSite=Strict; Path=/emc; Max-Age=" ++ decimal max_age)))

unfoldable pub clear_session_cookie : Str
clear_session_cookie =
    session_cookie_name ++ codes "=; HttpOnly; SameSite=Strict; Path=/emc; Max-Age=0"

abbrev pub refusal : ℕ → Str → Response
refusal status message = record {
  status = status;
  headers = (codes "content-type", codes "application/json") ∷ [];
  body = object ((codes "ok", bool false) ∷ (codes "message", text message) ∷ []);
}

unfoldable pub unauthorized_response : Str → Response
unauthorized_response message = refusal 401 message

unfoldable pub too_many_requests_response : Response
too_many_requests_response = refusal 429 (codes "too many requests, please slow down")

abbrev pub security_header_list : List (Str × Str)
security_header_list =
    (codes "x-content-type-options", codes "nosniff")
    ∷ (codes "x-frame-options", codes "DENY")
    ∷ (codes "x-xss-protection", codes "1; mode=block")
    ∷ (codes "referrer-policy", codes "strict-origin-when-cross-origin")
    ∷ (codes "cache-control", codes "no-store, no-cache, must-revalidate, private")
    ∷ []

abbrev insert_headers : List (Str × Str) → List (Str × Str) → List (Str × Str)
insert_headers [] hs = hs
insert_headers ((k, v) ∷ more) hs = insert_headers more (Dict.insert k v hs)

-- What serves a request, with what it leaves.
abbrev pub Next : Type 0 → Type 0
Next S = WebState S → Request → WebState S × Response

module _ {S : Type 0} where
  abbrev admitted : Next S → Request → WebState S × Option Str → WebState S × Response
  admitted next r (state, none) =
      (state, unauthorized_response (codes "session expired or invalid"))
  admitted next r (state, some name) = next state r

  abbrev visit : WebState S → Str → ℕ → WebState S × Option Str
  visit state token now =
      let (auth, who) = validate_session state.auth token now in (record state { auth = auth }, who)

  abbrev with_token : ℕ → Next S → WebState S → Request → Option Str → WebState S × Response
  with_token now next state r none = (state, unauthorized_response (codes "not authenticated"))
  with_token now next state r (some token) = admitted next r (visit state token now)

  unfoldable pub require_auth : ℕ → Next S → Next S
  unfolding any str_eq strip_prefix validate_session unauthorized_response extract_session_token
  require_auth now next state r =
      if any (str_eq r.path) public_paths || not (starts_with (codes "/emc/api/") r.path)
      then next state r
      else with_token now next state r (extract_session_token r.header)

  abbrev limited : Next S → WebState S → Request → RateLimiter × Bool → WebState S × Response
  limited next state r (limiter, true) = next (record state { login_limiter = limiter }) r
  limited next state r (limiter, false) =
      (record state { login_limiter = limiter }, too_many_requests_response)

  unfoldable pub rate_limit_sensitive : (Str → Option Str) → ℕ → Next S → Next S
  unfolding any str_eq extract_client_ip check too_many_requests_response
  rate_limit_sensitive canonical_ip now next state r =
      if not (any (str_eq r.path) rate_limited_paths)
      then next state r
      else limited next state r (
          check state.login_limiter
            (extract_client_ip canonical_ip r.header r.connect_info state.trust_proxy) now)

  unfoldable pub security_headers : Next S → Next S
  unfolding Dict.insert
  security_headers next state r =
      let (after, reply) = next state r in
      (after, record reply { headers = insert_headers security_header_list reply.headers })

  -- The layers of the router `api` around its handlers, of which the last added is the outermost.
  unfoldable pub guarded : (Str → Option Str) → ℕ → ℕ → Next S → Next S
  unfolding require_auth rate_limit_sensitive
  guarded canonical_ip seen checked handlers =
      require_auth seen (rate_limit_sensitive canonical_ip checked handlers)

  abbrev routed : Next S → Next S → WebState S → Request → Option Str → WebState S × Response
  routed pages api state r none = pages state r
  routed pages api state r (some rest) = api state (record r { path = rest })

  -- The router with `api` nested at `/emc/api`; `pages` serves every other path. CORS is left out.
  unfoldable pub create_router :
      (Str → Str → Option Str) → (Str → Option Str) → ℕ → ℕ → Next S → Next S → Next S
  unfolding guarded security_headers
  create_router nest canonical_ip seen checked pages handlers = security_headers (λ state r.
      routed pages (guarded canonical_ip seen checked handlers) state r
        (nest (codes "/emc/api") r.path))
