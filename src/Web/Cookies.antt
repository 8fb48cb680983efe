-- ===== src/Web/Cookies.antt =====
-- src/web/middleware.rs: the session cookie, read back from a request.
use rail2ban.Prelude.{
  ℕ, ◌<◌, ◌/◌, ◌%◌, ◌≡◌, refl, ap, ◌∙◌, Bool, false, ◌==◌, Option, none, some, List, [], ◌∷◌, ◌++◌,
  Str, codes, arith, split, strip_prefix, is_whitespace, All, append-nil, any,
}
use rail2ban.Prelude.Pieces.{
  Solid, Lacks, any-Lacks, Lacks-append, trim-Solid, trim-space, split-Lacks, split-append,
}
use rail2ban.Web.Tokens.{hex_digit, encode, generate_session_token}
use rail2ban.Web.Gate.{session_cookie_name, token_of, first_some, extract_session_token}

abbrev semicolon : ℕ → Bool
semicolon c = c == b';'

hex_digit-Solid : (n : ℕ) → n < 16 → is_whitespace (hex_digit n) ≡ false
unfolding is_whitespace
hex_digit-Solid n h = ground arith

hex_digit-Lacks : (n : ℕ) → n < 16 → semicolon (hex_digit n) ≡ false
hex_digit-Lacks n h = ground arith

encode-All :
    (P : ℕ → Type 0) (bytes : List ℕ)
    → ((n : ℕ) → n < 16 → P (hex_digit n))
    → All (λ b. b < 256) bytes
    → All P (encode bytes)
unfolding encode
encode-All P [] h k = tt
encode-All P (b ∷ bytes) h k =
    (h (b / 16) (omega (arith, k.0)), (h (b % 16) (omega arith), encode-All P bytes h k.1))

-- A cookie of the session as a browser sends it.
abbrev pub session_pair : Str → Str
session_pair token = session_cookie_name ++ (codes "=" ++ token)

strip_prefix-append : (a b : Str) → strip_prefix a (a ++ b) ≡ some b
unfolding strip_prefix
strip_prefix-append [] b = refl
strip_prefix-append (c ∷ a) b = ground (arith, strip_prefix-append a b)

first_some-append :
    (f : Str → Option Str) (before after : List Str)
    → first_some f before ≡ none
    → first_some f (before ++ after) ≡ first_some f after
unfolding first_some
first_some-append f [] after h = refl
first_some-append f (p ∷ before) after h = ground (arith, first_some-append f before after)

session_pair-Lacks :
    (p : ℕ → Bool) (bytes : List ℕ)
    → any p (session_cookie_name ++ codes "=") ≡ false
    → ((n : ℕ) → n < 16 → p (hex_digit n) ≡ false)
    → All (λ b. b < 256) bytes
    → Lacks p (session_pair (encode bytes))
session_pair-Lacks p bytes name digits h =
    Lacks-append p (session_cookie_name ++ codes "=") (encode bytes) (any-Lacks p _ name)
      (encode-All (λ c. p c ≡ false) bytes digits h)

session_pair-Solid :
    (bytes : List ℕ) → All (λ b. b < 256) bytes → Solid (session_pair (encode bytes))
unfolding is_whitespace any
session_pair-Solid bytes h = session_pair-Lacks is_whitespace bytes refl hex_digit-Solid h

session_pair_alone :
    (bytes : List ℕ) → All (λ b. b < 256) bytes → Lacks semicolon (session_pair (encode bytes))
unfolding any
session_pair_alone bytes h = session_pair-Lacks semicolon bytes refl hex_digit-Lacks h

token_of-session_pair :
    (bytes : List ℕ)
    → All (λ b. b < 256) bytes
    → token_of (session_pair (encode bytes)) ≡ some (encode bytes)
unfolding token_of
token_of-session_pair bytes h =
    ap (strip_prefix (session_cookie_name ++ codes "="))
      (trim-Solid (session_pair (encode bytes)) (session_pair-Solid bytes h))
    ∙ strip_prefix-append (session_cookie_name ++ codes "=") (encode bytes)

token_of-space : (s : Str) → token_of (b' ' ∷ s) ≡ token_of s
unfolding token_of
token_of-space s = ap (strip_prefix (session_cookie_name ++ codes "=")) (trim-space s)

-- What may follow the pair in the header.
abbrev pub followed : Option Str → Str
followed none = []
followed (some more) = b';' ∷ more

-- A piece with the token at the head of the header.
first_piece :
    (piece token : Str) (more : Option Str)
    → Lacks semicolon piece
    → token_of piece ≡ some token
    → first_some token_of (split semicolon (piece ++ followed more)) ≡ some token
unfolding first_some
first_piece piece token none alone h = rw (append-nil, split-Lacks semicolon piece alone, h) refl
first_piece piece token (some more) alone h =
    rw (split-append semicolon piece more b';' refl, split-Lacks semicolon piece alone, h) refl

first_pair :
    (bytes : List ℕ) (more : Option Str)
    → All (λ b. b < 256) bytes
    → first_some token_of (split semicolon (b' ' ∷ session_pair (encode bytes) ++ followed more))
      ≡ some (encode bytes)
first_pair bytes more h =
    first_piece (b' ' ∷ session_pair (encode bytes)) (encode bytes) more
      (refl, session_pair_alone bytes h)
      (token_of-space (session_pair (encode bytes)) ∙ token_of-session_pair bytes h)

-- A token made of the bytes of the random source is read back from a cookie header in which other
-- cookies, none of them the session's, stand before it, and anything after it.
pub extract_session_token-generate_session_token :
    (bytes : List ℕ) (others : Str) (more : Option Str) (header : Str → Option Str)
    → All (λ b. b < 256) bytes
    → first_some token_of (split (λ c. c == b';') others) ≡ none
    → header (codes "cookie")
      ≡ some
          (others ++ (codes "; " ++ (session_pair (generate_session_token bytes) ++ followed more)))
    → extract_session_token header ≡ some (generate_session_token bytes)
unfolding extract_session_token generate_session_token
extract_session_token-generate_session_token bytes others more header small absent sent =
    rw
      (
        sent,
        split-append semicolon others (b' ' ∷ session_pair (encode bytes) ++ followed more) b';'
            refl,
        first_some-append token_of (split semicolon others)
            (split semicolon (b' ' ∷ session_pair (encode bytes) ++ followed more)) absent,
        first_pair bytes more small,
      )
      refl

-- What stands before the pair in the header, if anything does, holds no session.
abbrev pub Sessionless : Option Str → Type 0
Sessionless none = Unit {0}
Sessionless (some others) = first_some token_of (split (λ c. c == b';') others) ≡ none

abbrev pub preceded : Option Str → Str → Str
preceded none pair = pair
preceded (some others) pair = others ++ (codes "; " ++ pair)

-- The pair first in the header or behind others.
pub extract_session_token-preceded :
    (bytes : List ℕ) (others more : Option Str) (header : Str → Option Str)
    → All (λ b. b < 256) bytes
    → Sessionless others
    → header (codes "cookie")
      ≡ some (preceded others (session_pair (generate_session_token bytes) ++ followed more))
    → extract_session_token header ≡ some (generate_session_token bytes)
unfolding extract_session_token generate_session_token
extract_session_token-preceded bytes none more header small absent sent = rw sent (
    first_piece (session_pair (encode bytes)) (encode bytes) more (session_pair_alone bytes small)
      (token_of-session_pair bytes small))
extract_session_token-preceded bytes (some others) more header small absent sent =
    extract_session_token-generate_session_token bytes others more header small absent sent
