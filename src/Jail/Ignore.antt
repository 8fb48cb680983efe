-- ===== src/Jail/Ignore.antt =====
-- src/server/jail.rs: own addresses, the ignorecommand with its cache, and name resolution.
use rail2ban.Prelude.{
  Bool, false, ◌||◌, Option, none, some, List, [], ◌∷◌, ◌++◌, Str, codes, ◌==◌, if◌then◌else◌, all,
  is_ascii_digit, replace_from,
}
use rail2ban.Ip.{IpAddr, is_loopback}
use rail2ban.Action.{Command, Shell}
use rail2ban.IgnoreCache.{IgnoreCache}
use rail2ban.IgnoreCache
use rail2ban.Jail.State.{Jail, Outside, Instants}

-- `is_own_ip`.
unfoldable pub is_own_ip : IpAddr → Bool
is_own_ip a = is_loopback a

module _ (shell : Shell) where
  abbrev run_words : Option (List Str) → List Command → Bool × List Command
  run_words none ran = (false, ran)
  run_words (some []) ran = (false, ran)
  run_words (some (a ∷ args)) ran =
      let c : Command = record { argv = a ∷ args; timeout = 10 } in
      (shell.succeeds ran c, ran ++ c ∷ [])

  -- `run_ignore_command`: success within ten seconds means that the address is to be ignored.
  unfoldable pub run_ignore_command : Str → List Command → Bool × List Command
  run_ignore_command cmd ran = run_words (shell.split cmd) ran

abbrev cached : Option IgnoreCache → Str → Instants → Option Bool
cached none key at = none
cached (some c) key at = IgnoreCache.get c key at.looked

abbrev remembered : Option IgnoreCache → Str → Bool → Instants → Option IgnoreCache
remembered none key result at = none
remembered (some c) key result at = some (IgnoreCache.insert c key result at.stored)

module _ {R N : Type 0} (outside : Outside R N) where
  unfoldable pub run_and_remember : Jail R N → Str → Instants → Str → Jail R N × Bool
  unfolding run_ignore_command replace_from IgnoreCache.insert
  run_and_remember j key at template =
      let (result, ran) =
        run_ignore_command outside.shell (replace_from 0 (codes "<ip>") key template) j.ran in
      (record j { ignore_cache = remembered j.ignore_cache key result at; ran = ran }, result)

  -- `check_ignorecommand`.
  unfoldable pub check_ignorecommand : Jail R N → Str → Instants → Jail R N × Bool
  unfolding run_and_remember IgnoreCache.get
  check_ignorecommand j key at = elim j.config.ignorecommand [
    | none ↦ (j, false)
    | some template ↦ elim (cached j.ignore_cache key at) [
      | some result ↦ (j, result)
      | none ↦ run_and_remember j key at template
    ]
  ]

  -- `resolve_dns`: what is all digits and dots is an address or nothing.
  unfoldable pub resolve_dns : Str → Option IpAddr
  unfolding all is_ascii_digit
  resolve_dns host =
      if all (λ c. is_ascii_digit c || c == b'.') host
      then outside.addressing.addr_from_str host
      else outside.to_socket_addrs host
