-- ===== src/Tests/Configs.antt =====
-- Configurations of the small world.
use rail2ban.Prelude.{
  ◌≡◌, refl, none, or_option, [], ◌∷◌, codes, any, if◌then◌else◌, leb, trim, trim_start,
  is_whitespace, split_once, strip_prefix, str_eq, ◌==◌, split, lines, lines_of, drop_cr, trim_end,
}
use rail2ban.Prelude.Dict
use rail2ban.Prelude.Pieces.{any-Lacks}
use rail2ban.Error.{Error, ok, err}
use rail2ban.Config.Ini.{IniSection, IniDocument, merge, parse_ini}
use rail2ban.Config.Ini
use rail2ban.Config.Merge.{value_of, latest, value_of-merge}
use rail2ban.Config.Interpolate.{
  InterpolationContext, max_depth, interpolate, lookup_percent, in_section,
}
use rail2ban.Config.Depth.{escaped, Chain, end, link, interpolate-escaped, interpolate-Chain}

abbrev sshd : IniSection
sshd = record {
  name = codes "sshd";
  entries = (codes "port", codes "22") ∷ (codes "maxretry", codes "5") ∷ [];
}

abbrev vendor : IniDocument
vendor = record { sections = sshd ∷ [] }

abbrev own : IniDocument
own = record {
  sections = record { name = codes "sshd"; entries = (codes "maxretry", codes "3") ∷ [] } ∷ [];
}

value_of-merge_example :
    value_of (merge vendor own) (codes "sshd") (codes "maxretry")
    ≡ or_option
        (latest own.sections (codes "sshd") (codes "maxretry"))
        (value_of vendor (codes "sshd") (codes "maxretry"))
unfolding Dict.lookup
value_of-merge_example =
    value_of-merge vendor own (codes "sshd") (codes "maxretry") ((refl, tt), tt)

-- The document is what the parser reads.
parse_ini_run : parse_ini (codes "# vendor\n[sshd] \nport = 22\nmaxretry=5 ; five\n") ≡ ok vendor
unfolding parse_ini Ini.parse_lines Ini.parse_line Ini.strip_inline_comment Ini.before_comment
    Ini.on_last Ini.set Ini.append Ini.split_key_value Dict.insert Dict.lookup trim trim_start
    trim_end is_whitespace split_once split lines lines_of drop_cr str_eq
parse_ini_run = refl

abbrev ctx : InterpolationContext
ctx = record {
  doc = vendor;
  defaults = (codes "a", codes "%(b)s") ∷ (codes "b", codes "done") ∷ [];
  builtins = [];
  current_section = none;
  init = [];
  known = [];
}

interpolate-escaped_example : interpolate ctx (escaped (codes "50% off")) ≡ ok (codes "50% off")
unfolding any
interpolate-escaped_example =
    interpolate-escaped ctx (codes "50% off") (any-Lacks (λ c. c == b'<') (codes "50% off") refl)

two_links : Chain ctx 2 (codes "%(a)s") (codes "done")
unfolding lookup_percent in_section Dict.lookup split_once strip_prefix trim trim_start
    is_whitespace str_eq
two_links =
    link (codes "a") (refl, tt) refl
      (link (codes "b") (refl, tt) refl (end (refl, (refl, (refl, (refl, tt))))))

interpolate-Chain_example :
    interpolate ctx (codes "%(a)s")
    ≡ (if leb 2 max_depth then ok (codes "done") else err Error.config)
interpolate-Chain_example = interpolate-Chain ctx 2 (codes "%(a)s") (codes "done") two_links
