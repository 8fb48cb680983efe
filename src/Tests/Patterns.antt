-- ===== src/Tests/Patterns.antt =====
-- Runs of src/filter/tags.rs on patterns of its own tests.
use rail2ban.Prelude.{some, ◌≡◌, refl, ◌∷◌, [], ◌++◌, Str, codes}
use rail2ban.Error.{Error, ok, err}
use rail2ban.Filter.DatePattern
use rail2ban.Filter.Tags.{host, f_nofail, f_mlfforget, compile_tags, referenced_tags, host_regex}
use rail2ban.Filter.Patterns.{
  Pattern, done, char, angle, single, pair, IsValid, print, regex, outer_tags, compile_tags-print,
}
use rail2ban.Filter.Fails.{compile_tags-fails}

-- `x<F-NOFAIL><F-MLFFORGET>y</F-MLFFORGET></F-NOFAIL> <z><HOST>`.
abbrev forgotten : Pattern
forgotten = char b'x' (
    pair f_nofail (pair f_mlfforget (char b'y' done) done)
      (char b' ' (angle (char b'z' (char b'>' (single host done))))))

forgotten-IsValid : IsValid forgotten
unfolding IsValid
forgotten-IsValid =
    (refl, (refl, refl, (refl, refl, (refl, tt), tt), (refl, (refl, (refl, (refl, (refl, tt)))))))

written : print forgotten ≡ codes "x<F-NOFAIL><F-MLFFORGET>y</F-MLFFORGET></F-NOFAIL> <z><HOST>"
unfolding print
written = refl

compile_tags-print_example :
    compile_tags (print forgotten)
    ≡ ok (record {
      pattern = codes "x(?P<nofail>(?P<mlfforget>y)) <z>" ++ host_regex;
      tags = f_nofail ∷ host ∷ [];
    })
unfolding regex outer_tags
compile_tags-print_example = compile_tags-print forgotten forgotten-IsValid

-- A `<` with no `>` behind it.
abbrev unterminated : Str
unterminated = codes "(?<x"

unterminated_fails : compile_tags unterminated ≡ err Error.regex
unfolding compile_tags
unterminated_fails = refl

compile_tags-fails_example : Error.regex ≡ Error.regex
compile_tags-fails_example = compile_tags-fails unterminated Error.regex unterminated_fails

-- The tag inside another is not among those referenced.
referenced :
    referenced_tags (codes "<F-NOFAIL><F-MLFFORGET>y</F-MLFFORGET></F-NOFAIL>") ≡ f_nofail ∷ []
unfolding referenced_tags
referenced = refl

date_matcher :
    DatePattern.compile (λ s. some s) (codes "{^LN-BEG}%Y-%m-%d %H:%M.%S")
    ≡ ok (record {
      regex = codes "(\\d{4}-\\d{2}-\\d{2}\\s+\\d{2}:\\d{2}\\.\\d{2})";
      kind = DatePattern.strftime;
    })
unfolding DatePattern.compile
date_matcher = refl

-- A doubled percent sign is a percent sign, and the letter behind it itself.
doubled_percent :
    DatePattern.compile (λ s. some s) (codes "%%Y")
    ≡ ok (record { regex = codes "(%Y)"; kind = DatePattern.strftime })
unfolding DatePattern.compile
doubled_percent = refl
