-- ===== src/Ip.antt =====
-- src/ip.rs: address families, and the entries of an ignore list.
use rail2ban.Prelude.{
  ℕ, ◌/◌, Bool, false, Option, none, some, List, [], ◌∷◌, Str, codes, str_eq, ◌==◌, any, trim,
  map_option, unwrap_or,
}
use rail2ban.Error.{Error, Result, ok, err}

-- `std::net::IpAddr`: an address as its 32 or 128 bits.
pub data IpAddr : Type 0 where
  v4 : ℕ → IpAddr
  v6 : ℕ → IpAddr

abbrev pub addr_eq : IpAddr → IpAddr → Bool
addr_eq (v4 a) (v4 b) = a == b
addr_eq (v4 a) (v6 b) = false
addr_eq (v6 a) (v4 b) = false
addr_eq (v6 a) (v6 b) = a == b

-- `is_loopback`: 127.0.0.0/8, and ::1.
abbrev pub is_loopback : IpAddr → Bool
is_loopback (v4 a) = a / 16777216 == 127
is_loopback (v6 a) = a == 1

pub data IpFamily : Type 0 where
  inet4 inet6 : IpFamily

unfoldable pub as_str : IpFamily → Str
as_str inet4 = codes "inet4"
as_str inet6 = codes "inet6"

-- What the standard library and the `ipnet` package do with the text of addresses and networks, for
-- a type `N` of networks.
pub record Addressing (N : Type 0) : Type 0 where
  pub addr_from_str : Str → Option IpAddr
  pub addr_to_string : IpAddr → Str
  pub net_from_str : Str → Option N
  pub net_contains : N → IpAddr → Bool

pub data IgnoreEntry (N : Type 0) : Type 0 where
  net : N → IgnoreEntry N
  ip : IpAddr → IgnoreEntry N
  raw : Str → IgnoreEntry N

abbrev pub IgnoreList : Type 0 → Type 0
IgnoreList N = List (IgnoreEntry N)

unfoldable pub family_of : IpAddr → IpFamily
family_of (v4 a) = inet4
family_of (v6 a) = inet6

module _ {N : Type 0} (addressing : Addressing N) where
  open addressing use {addr_from_str, net_from_str, net_contains}

  abbrev net_or_addr : Str → Option N → Option IpAddr → IgnoreEntry N
  net_or_addr s (some n) a = net n
  net_or_addr s none (some a) = ip a
  net_or_addr s none none = raw s

  abbrev parse_trimmed : Str → Result (IgnoreEntry N)
  parse_trimmed [] = err Error.ip_parse
  parse_trimmed (c ∷ cs) =
      ok (net_or_addr (c ∷ cs) (net_from_str (c ∷ cs)) (addr_from_str (c ∷ cs)))

  -- `IgnoreEntry::parse`.
  unfoldable pub parse_entry : Str → Result (IgnoreEntry N)
  unfolding trim
  parse_entry s = parse_trimmed (trim s)

  -- `IgnoreEntry::matches` and `matches_raw`.
  unfoldable pub entry_matches : IpAddr → IgnoreEntry N → Bool
  entry_matches a (net n) = net_contains n a
  entry_matches a (ip b) = addr_eq b a
  entry_matches a (raw s) = false

  unfoldable pub entry_matches_raw : Str → IgnoreEntry N → Bool
  unfolding str_eq
  entry_matches_raw s (net n) = false
  entry_matches_raw s (ip b) = false
  entry_matches_raw s (raw t) = str_eq t s

  -- `IgnoreList::matches_ip` and `matches_raw`.
  unfoldable pub matches_ip : IgnoreList N → IpAddr → Bool
  unfolding any entry_matches
  matches_ip l a = any (entry_matches a) l

  unfoldable pub matches_raw : IgnoreList N → Str → Bool
  unfolding any entry_matches_raw
  matches_raw l s = any (entry_matches_raw s) l

  unfoldable pub family_of_or_default : Str → IpFamily
  unfolding family_of
  family_of_or_default s = unwrap_or (map_option family_of (addr_from_str s)) inet4
