-- ===== src/Web/Tokens.antt =====
-- src/web/auth.rs: the tokens of the sessions, and the hexadecimal encoder. A byte is below 256.
use rail2ban.Prelude.{ℕ, ◌+◌, ◌-◌, ◌/◌, ◌%◌, List, [], ◌∷◌, Str, ltb, if◌then◌else◌}

-- A digit of `{:02x}`.
abbrev pub hex_digit : ℕ → ℕ
hex_digit n = if ltb n 10 then b'0' + n else b'a' + (n - 10)

-- `hex::encode`.
unfoldable pub encode : List ℕ → Str
encode [] = []
encode (b ∷ bytes) = hex_digit (b / 16) ∷ hex_digit (b % 16) ∷ encode bytes

-- Of the 32 bytes that the random source gives.
unfoldable pub generate_session_token : List ℕ → Str
unfolding encode
generate_session_token bytes = encode bytes
