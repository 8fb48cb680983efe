-- ===== src/Filter.antt =====
-- src/filter/mod.rs: a line through a compiled filter, and the multi-line buffer. The regex package
-- and the recognition of dates are parameters (`Engine`): `captures` gives the text of a named group.
pub mod Buffer
pub mod Matching
pub mod DatePattern
pub mod Fails
pub mod Patterns
pub mod Tags
use rail2ban.Prelude.{
  ℕ, suc, ◌+◌, ◌-◌, max, Bool, true, false, Option, none, some, List, [], ◌∷◌, ◌++◌, Str, codes,
  ltb, if◌then◌else◌, length, drop, any, join, trim, strip_prefix, or_option, unwrap_or, is_some,
  and_then,
}
use rail2ban.Clock.{DateTime}
use rail2ban.Ip.{IpAddr}

pub record MatchResult : Type 0 where
  pub host : Str
  pub ip : Option IpAddr
  pub user : Option Str
  pub alt_user : Option Str
  pub mlfid : Option Str
  pub timestamp : Option DateTime
  pub nofail : Bool
  pub mlfforget : Bool
  pub mlfgained : Bool
  pub line : Str
  pub regex_index : ℕ

pub record LineBuffer : Type 0 where
  pub maxlines : ℕ
  pub lines : List Str

abbrev newline : Str
newline = 10 ∷ []

-- `LineBuffer::new`.
unfoldable pub new_buffer : ℕ → LineBuffer
new_buffer maxlines = record { maxlines = max maxlines 1; lines = [] }

-- The loop that removes the oldest line while there are too many; `excess` is the number of rounds.
unfoldable pub evict : ℕ → List Str → List Str
evict cap [] = []
evict cap (l ∷ ls) = let rest = evict cap ls in if ltb cap (length (l ∷ ls)) then rest else l ∷ ls

unfoldable pub push : LineBuffer → Str → LineBuffer
unfolding evict
push b line = record b { lines = evict b.maxlines (b.lines ++ line ∷ []) }

unfoldable pub joined : LineBuffer → Str
unfolding join
joined b = join newline b.lines

unfoldable pub clear : LineBuffer → LineBuffer
clear b = record b { lines = [] }

-- For a type `R` of compiled patterns: the regex package, `IpAddr::from_str`, and `extract_date`,
-- which gives the line without its date, and the instant.
pub record Engine (R : Type 0) : Type 0 where
  pub is_match : R → Str → Bool
  pub captures : R → Str → Option (Str → Option Str)
  pub extract_date : Str → Option (Str × DateTime)
  pub ip_from_str : Str → Option IpAddr

pub record CompiledFilter (R : Type 0) : Type 0 where
  pub prefregex : Option R
  pub failregex : List R
  pub ignoreregex : List R
  pub maxlines : ℕ

module _ {R : Type 0} (engine : Engine R) where
  open engine use {is_match, captures, extract_date, ip_from_str}

  abbrev parse_ip_trimmed : Str → Option IpAddr
  parse_ip_trimmed [] = none
  parse_ip_trimmed (c ∷ cs) = ip_from_str (
      unwrap_or
        (or_option (strip_prefix (codes "::ffff:") (c ∷ cs))
          (strip_prefix (codes "::f{4,6}:") (c ∷ cs)))
        (c ∷ cs))

  unfoldable pub parse_ip : Str → Option IpAddr
  unfolding trim strip_prefix
  parse_ip s = parse_ip_trimmed (trim s)

  abbrev pub dated : Str → Option (Str × DateTime) → Str × Option DateTime
  dated line none = (line, none)
  dated line (some (rest, ts)) = (rest, some ts)

  -- The content that the failregexes see, and the MLFID of the prefix; `none` if the prefregex is
  -- there and does not match.
  abbrev pub prefixed : Option R → Str → Option (Str × Option Str)
  prefixed none rest = some (rest, none)
  prefixed (some pre) rest =
      and_then (captures pre rest)
        (λ group. some (unwrap_or (group (codes "content")) rest, group (codes "mlfid")))

  abbrev result_of : Str → Option DateTime → Option Str → ℕ → (Str → Option Str) → MatchResult
  result_of line timestamp mlfid_pref i group =
      let host = unwrap_or (group (codes "host")) [] in
      record {
        host = host;
        ip = parse_ip host;
        user = group (codes "user");
        alt_user = group (codes "alt_user");
        mlfid = or_option (group (codes "mlfid")) mlfid_pref;
        timestamp = timestamp;
        nofail = is_some (group (codes "nofail"));
        mlfforget = is_some (group (codes "mlfforget"));
        mlfgained = is_some (group (codes "mlfgained"));
        line = line;
        regex_index = i;
      }

  -- The first failregex that matches, counting from `i`.
  unfoldable pub first_match : ℕ → List R → Str → Option (ℕ × (Str → Option Str))
  first_match i [] content = none
  first_match i (r ∷ rs) content = elim (captures r content) [
    | some group ↦ some (i, group)
    | none ↦ first_match (suc i) rs content
  ]

  abbrev pub matched :
      Str → Option DateTime → Option Str → Option (ℕ × (Str → Option Str)) → Option MatchResult
  matched line timestamp mlfid_pref none = none
  matched line timestamp mlfid_pref (some (i, group)) =
      some (result_of line timestamp mlfid_pref i group)

  abbrev pub match_content :
      CompiledFilter R → Str → Option DateTime → Option (Str × Option Str) → Option MatchResult
  match_content f line timestamp none = none
  match_content f line timestamp (some (content, mlfid)) =
      matched line timestamp mlfid (first_match 0 f.failregex content)

  -- `CompiledFilter::process_line`, which has no error of its own.
  unfoldable pub process_line : CompiledFilter R → Str → Option MatchResult
  unfolding any parse_ip first_match
  process_line f line =
      let (rest, timestamp) = dated line (extract_date line) in
      if any (λ r. is_match r rest) f.ignoreregex
      then none
      else match_content f line timestamp (prefixed f.prefregex rest)

  unfoldable pub process_buffered :
      CompiledFilter R → LineBuffer → Str → LineBuffer × Option MatchResult
  unfolding push joined clear process_line
  process_buffered f buf line =
      let buf' = push buf line in
      let result = process_line f (joined buf') in
      (if is_some result then clear buf' else buf', result)
