-- ===== src/Config/Loaded.antt =====
-- src/config/loader.rs and src/config/jail.rs: the loaded configuration; what a running jail reads of
-- a `JailConfig` is its `settings`. src/filter/mod.rs: `CompiledFilter::compile`, whose matcher of dates is
-- read by `extract_date` alone, which is a parameter.
use rail2ban.Prelude.{ℕ, Bool, Option, none, some, List, [], ◌∷◌, Str, leb, if◌then◌else◌}
use rail2ban.Error.{Result, ok, ◌>>=◌}
use rail2ban.Filter.{CompiledFilter}
use rail2ban.Filter.DatePattern
use rail2ban.Filter.DatePattern.{DateMatcher}
use rail2ban.Filter.Tags.{compile_pattern}
use rail2ban.Jail.State.{JailConfig}
use rail2ban.Config.Definitions.{Definition, FilterConfig}

-- The settings that the server reads.
pub record GlobalConfig : Type 0 where
  pub loglevel : Str
  pub logtarget : Str
  pub dbfile : Str
  pub dbmaxmatches : ℕ
  pub dbpurgeage : ℕ

pub record JailEntry (N : Type 0) : Type 0 where
  pub enabled : Bool
  pub filter : Str
  pub filter_params : List (Str × Str)
  pub logpath : List Str
  pub logencoding : Str
  pub journalmatch : List Str
  pub maxlines : ℕ
  pub extra : List (Str × Str)
  pub actions : List Str
  pub settings : JailConfig N

pub record JailSet (N : Type 0) : Type 0 where
  pub defaults : List (Str × Str)
  pub jails : List (Str × JailEntry N)

pub record LoadedConfig (N : Type 0) : Type 0 where
  pub defaults : List (Str × Str)
  pub jails : JailSet N
  pub filters : List (Str × Definition)
  pub actions : List (Str × Definition)
  pub global : GlobalConfig

-- For the compiler of the regex package.
module _ {R : Type 0} (regex_new : Str → Option R) where
  abbrev pub cons_to : R → List R → Result (List R)
  cons_to r rs = ok (r ∷ rs)

  -- The loop over the patterns, past those that are empty.
  unfoldable pub compile_all : List Str → Result (List R)
  unfolding compile_pattern
  compile_all [] = ok []
  compile_all ([] ∷ ps) = compile_all ps
  compile_all ((c ∷ cs) ∷ ps) =
      compile_pattern regex_new (c ∷ cs) >>= λ r. compile_all ps >>= cons_to r

  abbrev pub compile_optional : Option Str → Result (Option R)
  unfolding compile_pattern
  compile_optional none = ok none
  compile_optional (some []) = ok none
  compile_optional (some (c ∷ cs)) = compile_pattern regex_new (c ∷ cs) >>= λ r. ok (some r)

  abbrev pub compile_date : Option Str → Result (Option (DateMatcher R))
  unfolding DatePattern.compile
  compile_date none = ok none
  compile_date (some []) = ok none
  compile_date (some (c ∷ cs)) = DatePattern.compile regex_new (c ∷ cs) >>= λ m. ok (some m)

  unfoldable pub compile : FilterConfig → Result (CompiledFilter R)
  unfolding compile_all
  compile cfg = compile_optional cfg.prefregex >>= λ prefregex.
      compile_all cfg.failregex >>= λ failregex. compile_all cfg.ignoreregex >>= λ ignoreregex.
      compile_date cfg.datepattern >>= λ _. ok (record {
        prefregex = prefregex;
        failregex = failregex;
        ignoreregex = ignoreregex;
        maxlines = if leb 1 cfg.maxlines then cfg.maxlines else 1;
      })
