-- ===== src/Tests/Lines.antt =====
-- A line through a concrete filter.
use rail2ban.Prelude.{
  ◌≡◌, refl, false, none, [], ◌∷◌, Str, codes, any, str_eq, is_ascii_digit, strip_prefix, unwrap_or,
}
use rail2ban.Time.{digits_from}
use rail2ban.Filter.{CompiledFilter, MatchResult, process_line, first_match}
use rail2ban.Filter.Matching.{FirstAt, process_line-FirstAt}
use rail2ban.Tests.Data.{peer, outside, failure}

abbrev two_patterns : CompiledFilter Str
two_patterns = record {
  prefregex = none;
  failregex = codes "evil " ∷ codes "bad " ∷ [];
  ignoreregex = codes "ok" ∷ [];
  maxlines = 1;
}

abbrev bad_line : Str
bad_line = codes "bad 3405803783"

abbrev reported : MatchResult
reported = unwrap_or (process_line outside.engine two_patterns bad_line) (failure peer)

process_line-FirstAt_example :
    (any (λ r. outside.engine.is_match r bad_line) two_patterns.ignoreregex ≡ false)
    × FirstAt outside.engine reported.regex_index two_patterns.failregex bad_line
    × (reported.timestamp ≡ none)
    × (reported.line ≡ bad_line)
unfolding process_line first_match any strip_prefix str_eq digits_from is_ascii_digit
process_line-FirstAt_example =
    process_line-FirstAt outside.engine two_patterns bad_line reported refl refl
