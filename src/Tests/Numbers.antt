-- ===== src/Tests/Numbers.antt =====
-- Time values on concrete texts.
use rail2ban.Prelude.{◌≡◌, refl, codes, arith}
use rail2ban.Error.{Error, ok, err}
use rail2ban.Time.{parse, parse_trimmed, of_seconds}
use rail2ban.Time.Fuel.{parse-fails}
use rail2ban.Time.Digits.{parse_trimmed-decimal}
use rail2ban.Action.{decimal}

-- A number behind a blank, and a unit that is none.
no_time_fails : parse (codes " 5m 3parsecs") ≡ err Error.time_parse
unfolding parse
no_time_fails = refl

parse-fails_example : Error.time_parse ≡ Error.time_parse
parse-fails_example = parse-fails (codes " 5m 3parsecs") Error.time_parse no_time_fails

parse_trimmed-decimal_example : parse_trimmed (decimal 3600) ≡ ok (of_seconds 3600)
parse_trimmed-decimal_example = parse_trimmed-decimal 3600 (omega arith)

-- Units in any order and case, with blanks between the pairs.
parse_units : parse (codes " 1w 2d 3H4m 5s ") ≡ ok (of_seconds 788645)
unfolding parse
parse_units = refl

-- A blank between a number and its unit ends the text: this is ten seconds.
parse_bare : parse (codes "10 m") ≡ ok (of_seconds 10)
unfolding parse
parse_bare = refl
