-- ===== src/Action.antt =====
-- src/action/mod.rs: the commands of an action, their tags, and the executor. A command line is cut
-- into words by the `shlex` package and run by the operating system: `Shell` stands for both, and the
-- list of the commands that ran is the state that they leave.
pub mod Expand
use rail2ban.Prelude.{
  ℕ, zero, suc, ◌+◌, ◌/◌, ◌%◌, Bool, true, false, not, ◌&&◌, ◌||◌, Option, none, some, List, [],
  ◌∷◌, ◌++◌, Str, codes, str_eq, ltb, ◌==◌, if◌then◌else◌, length, join, or_option, map_option,
  and_then,
}
use rail2ban.Prelude.Dict
use rail2ban.Ip.{IpAddr, IpFamily, as_str, family_of}

-- src/config/action.rs.
pub record ActionConfig : Type 0 where
  pub name : Str
  pub actionstart : Option Str
  pub actionstop : Option Str
  pub actioncheck : Option Str
  pub actionrepair : Option Str
  pub actionflush : Option Str
  pub actionban : Option Str
  pub actionunban : Option Str
  pub actionstart_on_demand : Bool
  pub timeout : ℕ
  pub init : List (Str × Str)

pub record Action : Type 0 where
  pub name : Str
  pub jail : Str
  pub config : ActionConfig
  pub started : Bool

unfoldable pub new : Str → ActionConfig → Action
new jail cfg = record { name = cfg.name; jail = jail; config = cfg; started = false }

pub record BanContext : Type 0 where
  pub ip : Str
  pub ip_addr : Option IpAddr
  pub family : IpFamily
  pub user : Option Str
  pub alt_user : Option Str
  pub fid : Option Str
  pub bantime : Option ℕ
  pub matches : List Str
  pub failures : ℕ

unfoldable pub for_ip : (IpAddr → Str) → IpAddr → Option ℕ → BanContext
unfolding family_of
for_ip to_string ip bantime = record {
  ip = to_string ip;
  ip_addr = some ip;
  family = family_of ip;
  user = none;
  alt_user = none;
  fid = none;
  bantime = bantime;
  matches = [];
  failures = 0;
}

-- A command line that the system is asked to run, with its time limit.
pub record Command : Type 0 where
  pub argv : List Str
  pub timeout : ℕ

-- `shlex::split`, and whether a command exits with success in time, given all that ran before it.
pub record Shell : Type 0 where
  pub split : Str → Option (List Str)
  pub succeeds : List Command → Command → Bool

-- `to_string` of an unsigned number, its digits before `acc`.
unfoldable pub decimal_from : ℕ → ℕ → Str → Str
decimal_from zero n acc = acc
decimal_from (suc fuel) n acc =
    let rest = decimal_from fuel (n / 10) ((n % 10 + 48) ∷ acc) in
    if ltb n 10 then (n + 48) ∷ acc else rest

unfoldable pub decimal : ℕ → Str
unfolding decimal_from
decimal n = decimal_from (suc n) n []

abbrev newline : Str
newline = 10 ∷ []

unfoldable pub lookup_tag : Str → List (Str × Str) → Str → Option BanContext → Option Str
unfolding str_eq decimal join Dict.lookup as_str
lookup_tag tag init jail ctx =
    if str_eq tag (codes "ip")
    then map_option (λ c. c.ip) ctx
    else if str_eq tag (codes "ip-host")
    then and_then ctx (λ c. map_option (λ _. c.ip) c.ip_addr)
    else if str_eq tag (codes "ip-family")
    then map_option (λ c. as_str c.family) ctx
    else if str_eq tag (codes "F-USER")
    then and_then ctx (λ c. c.user)
    else if str_eq tag (codes "F-ALT_USER")
    then and_then ctx (λ c. c.alt_user)
    else if str_eq tag (codes "fid")
    then or_option (and_then ctx (λ c. c.fid)) (map_option (λ c. c.ip) ctx)
    else if str_eq tag (codes "name") || str_eq tag (codes "jail")
    then some jail
    else if str_eq tag (codes "bantime")
    then and_then ctx (λ c. map_option decimal c.bantime)
    else if str_eq tag (codes "unbanip")
    then map_option (λ c. c.ip) ctx
    else if str_eq tag (codes "matches")
    then map_option (λ c. join newline c.matches) ctx
    else if str_eq tag (codes "ipmatches") || str_eq tag (codes "ipjailmatches")
    then map_option (λ c. join newline c.matches) ctx
    else if str_eq tag (codes "failures")
    then map_option (λ c. decimal c.failures) ctx
    else Dict.lookup tag init

-- The text before the first `>`.
unfoldable pub until_close : Str → Option Str
until_close [] = none
until_close (c ∷ cs) = if c == b'>' then some [] else map_option (λ t. c ∷ t) (until_close cs)

-- The tag that a text opens with, and its value, if it has one.
abbrev pub valued : (Str → Option Str) → Option Str → Option (Str × Str)
valued value none = none
valued value (some tag) = map_option (λ v. (tag, v)) (value tag)

unfoldable pub tag_at : (Str → Option Str) → ℕ → Str → Option (Str × Str)
unfolding until_close
tag_at value c cs = if c == b'<' then valued value (until_close cs) else none

-- The loop of `expand_command`; `skip` counts the characters of a tag that are still to pass.
unfoldable pub expand_from : (Str → Option Str) → ℕ → Str → Str
unfolding tag_at
expand_from value skip [] = []
expand_from value (suc k) (c ∷ cs) = expand_from value k cs
expand_from value zero (c ∷ cs) = elim (tag_at value c cs) [
  | none ↦ c ∷ expand_from value zero cs
  | some (tag, v) ↦ v ++ expand_from value (suc (length tag)) cs
]

unfoldable pub expand_command : Str → List (Str × Str) → Str → Option BanContext → Str
unfolding expand_from lookup_tag
expand_command template init jail ctx =
    expand_from (λ tag. lookup_tag tag init jail ctx) zero template

-- A call of the executor: whether it succeeds (every error is `Error::Action`), and what has run.
abbrev pub Outcome : Type 0
Outcome = Bool × List Command

module _ (shell : Shell) where
  abbrev run_argv : Option (List Str) → ℕ → List Command → Outcome
  run_argv none timeout ran = (false, ran)
  run_argv (some []) timeout ran = (true, ran)
  run_argv (some (a ∷ args)) timeout ran =
      let c : Command = record { argv = a ∷ args; timeout = timeout } in
      (shell.succeeds ran c, ran ++ c ∷ [])

  unfoldable pub run_command :
      Str → List (Str × Str) → Str → Option BanContext → ℕ → List Command → Outcome
  unfolding expand_command
  run_command template init jail ctx timeout ran =
      run_argv (shell.split (expand_command template init jail ctx)) timeout ran

  -- `if let Some(cmd) = …`: a command that is not configured succeeds.
  unfoldable pub run_optional : Option Str → Action → Option BanContext → List Command → Outcome
  unfolding run_command
  run_optional none a ctx ran = (true, ran)
  run_optional (some template) a ctx ran =
      run_command template a.config.init a.jail ctx a.config.timeout ran

  -- What `start` and `stop` return: the action, whether they succeed, what has run.
  abbrev pub Turn : Type 0
  Turn = Action × Bool × List Command

  abbrev turn : Action → Bool → Outcome → Turn
  turn a started (true, ran) = (record a { started = started }, true, ran)
  turn a started (false, ran) = (a, false, ran)

  unfoldable pub start : Action → Bool → List Command → Turn
  unfolding run_optional
  start a force ran =
      if a.started && not force
      then (a, true, ran)
      else if a.config.actionstart_on_demand && not force
      then (a, true, ran)
      else turn a true (run_optional a.config.actionstart a none ran)

  unfoldable pub stop : Action → List Command → Turn
  unfolding run_optional
  stop a ran =
      if not a.started
      then (a, true, ran)
      else turn a false (run_optional a.config.actionstop a none ran)

  -- `Ok(true)` and `Ok(false)` of `check` are both a success for its callers.
  unfoldable pub check : Action → BanContext → List Command → Outcome
  unfolding run_optional
  check a ctx ran = run_optional a.config.actioncheck a (some ctx) ran

  unfoldable pub repair : Action → BanContext → List Command → Outcome
  unfolding run_optional
  repair a ctx ran = run_optional a.config.actionrepair a (some ctx) ran

  unfoldable pub flush : Action → List Command → Outcome
  unfolding run_optional
  flush a ran = run_optional a.config.actionflush a none ran

  abbrev after_start : Turn → (Action → List Command → Turn) → Turn
  after_start (a, true, ran) k = k a ran
  after_start (a, false, ran) k = (a, false, ran)

  abbrev with_action : Action → Outcome → Turn
  with_action a (done, ran) = (a, done, ran)

  unfoldable pub ban : Action → BanContext → List Command → Turn
  unfolding start run_optional
  ban a ctx ran =
      after_start
        (if a.config.actionstart_on_demand && not a.started
          then start a true ran
          else (a, true, ran))
        (λ a' ran'. with_action a' (run_optional a'.config.actionban a' (some ctx) ran'))

  unfoldable pub unban : Action → BanContext → List Command → Outcome
  unfolding run_optional
  unban a ctx ran = run_optional a.config.actionunban a (some ctx) ran
