-- ===== src/Server/Requests.antt =====
-- src/server/commands.rs: what requests do to the table of jails.
use rail2ban.Prelude.{
  ℕ, ◌≡◌, refl, inl, inr, Bool, true, false, Bool-cases, Option, none, some, is_some, List, [], ◌∷◌,
  map, Str, str_eq, codes, arith, if◌then◌else◌,
}
use rail2ban.Prelude.Dict
use rail2ban.Config.Definitions.{parse_u32}
use rail2ban.Error.{Error, Result, ok, err}
use rail2ban.Jail.Task.{Event, flush_all, ban_ip, unban_ip}
use rail2ban.Config.Loaded.{LoadedConfig}
use rail2ban.Server.Jails.{
  JailHandle, Server, find_jail, get_jail, stop_jail, stop_all, start_jail, restart_jail,
  reload_config, add_jail, send, unban_ip_all, unban_all, config_path, set_dbmaxmatches,
  set_dbpurgeage, set_loglevel, set_logtarget, set_dbfile, new,
}
use rail2ban.Server.Table.{
  Named, Unique, IsSound, start_jail-IsSound, stop_jail-IsSound, restart_jail-IsSound,
  start_all_enabled-IsSound, reload_config-IsSound, add_jail-IsSound, unban-Unique, map-Unique,
}
use rail2ban.Server.Commands

module _ {R N : Type 0} (front : Commands.Front R N) where
  choice :
      (b : Bool) (x y : Server R N × Commands.Response)
      → IsSound x.0
      → IsSound y.0
      → IsSound (if b then x else y).0
  choice true x y i k = i
  choice false x y i k = k

  answer-IsSound {ℓ} :
      {A : Type ℓ} (good : A → Str) (bad : Error → Str) (r : Server R N × Result A)
      → IsSound r.0
      → IsSound (Commands.answer front good bad r).0
  answer-IsSound good bad (s, ok a) i = i
  answer-IsSound good bad (s, err e) i = i

  start-IsSound :
      (s : Server R N) (args : List Str) → IsSound s → IsSound (Commands.start front s args).0
  unfolding Commands.start
  start-IsSound s [] i = i
  start-IsSound s (name ∷ args) i =
      choice (str_eq name (codes "--all")) _ _ (start_all_enabled-IsSound front.machine s i) (
        answer-IsSound _ _ (start_jail front.machine s name)
          (start_jail-IsSound front.machine s name i))

  stop-IsSound :
      (s : Server R N) (args : List Str) → IsSound s → IsSound (Commands.stop front s args).0
  unfolding Commands.stop stop_all
  stop-IsSound s [] i = record { named = i.named; unique = tt }
  stop-IsSound s (name ∷ args) i =
      answer-IsSound _ _ (stop_jail s name) (stop_jail-IsSound front.machine s name i)

  unban_ip-IsSound : (s : Server R N) (ip : Str) → IsSound s → IsSound (unban_ip_all s ip).0
  unfolding unban_ip_all
  unban_ip-IsSound s ip i = record { named = i.named; unique = unban-Unique ip s.jails i.unique }

  unban_each-IsSound :
      (ips : List Str) (r : Server R N × ℕ)
      → IsSound r.0
      → IsSound (Commands.unban_each front ips r).0
  unfolding Commands.unban_each
  unban_each-IsSound [] r i = i
  unban_each-IsSound (ip ∷ ips) (s, n) i = unban_each-IsSound ips _ (unban_ip-IsSound s ip i)

  unban-IsSound :
      (s : Server R N) (args : List Str) → IsSound s → IsSound (Commands.unban front s args).0
  unfolding Commands.unban unban_all
  unban-IsSound s [] i = i
  unban-IsSound s (ip ∷ ips) i =
      choice (str_eq ip (codes "--all")) _ _
        (record {
          named = i.named;
          unique = map-Unique (send flush_all) s.jails (λ h. refl) i.unique;
        })
        (unban_each-IsSound (ip ∷ ips) (s, 0) i)

  find-send_none :
      (to name : Str) (e : Event) (hs : List (JailHandle R N))
      → find_jail name hs ≡ none
      → find_jail name (Commands.send_to front to e hs) ≡ none
  unfolding find_jail Commands.send_to
  find-send_none to name e [] f = refl
  find-send_none to name e (h ∷ hs) f = ground (arith, find-send_none to name e hs)

  send-Unique :
      (to : Str) (e : Event) (hs : List (JailHandle R N))
      → Unique hs
      → Unique (Commands.send_to front to e hs)
  unfolding Commands.send_to
  send-Unique to e [] u = tt
  send-Unique to e (h ∷ hs) u = elim (Bool-cases (str_eq h.name to)) [
    | inl c ↦ rw c u
    | inr c ↦ rw c (find-send_none to h.name e hs u.0, send-Unique to e hs u.1)
  ]

  send_each-IsSound :
      (to : Str) (es : List Event) (s : Server R N)
      → IsSound s
      → IsSound (Commands.send_each front to es s)
  unfolding Commands.send_each
  send_each-IsSound to [] s i = i
  send_each-IsSound to (e ∷ es) s i =
      send_each-IsSound to es (record s { jails = Commands.send_to front to e s.jails })
        (record { named = i.named; unique = send-Unique to e s.jails i.unique })

  attempted-IsSound :
      (s : Server R N) (name : Str) (rest : List Str)
      → IsSound s
      → IsSound (Commands.attempted front s name rest).0
  attempted-IsSound s name [] i = i
  attempted-IsSound s name (ip ∷ failures) i = send_each-IsSound name _ s i

  set_jail_attr-IsSound :
      (s : Server R N) (name action : Str) (rest : List Str)
      → IsSound s
      → IsSound (Commands.set_jail_attr front s name action rest).0
  unfolding Commands.set_jail_attr
  set_jail_attr-IsSound s name action rest i = elim (Bool-cases (str_eq action (codes "banip"))) [
    | inl c ↦ rw c (send_each-IsSound name (map ban_ip rest) s i)
    | inr c ↦ elim (Bool-cases (str_eq action (codes "unbanip"))) [
      | inl d ↦ rw (c, d) (send_each-IsSound name (map unban_ip rest) s i)
      | inr d ↦ elim (Bool-cases (str_eq action (codes "attempt"))) [
        | inl e ↦ rw (c, d, e) (attempted-IsSound s name rest i)
        | inr e ↦ rw (c, d, e) i
      ]
    ]
  ]

  set_other-IsSound :
      (s : Server R N) (args : List Str) → IsSound s → IsSound (Commands.set_other front s args).0
  set_other-IsSound s [] i = i
  set_other-IsSound s (a ∷ []) i = i
  set_other-IsSound s (a ∷ b ∷ []) i = i
  set_other-IsSound s (name ∷ action ∷ r ∷ rest) i = elim (Bool-cases (is_some (get_jail s name))) [
    | inl c ↦ rw c (set_jail_attr-IsSound s name action (r ∷ rest) i)
    | inr c ↦ rw c i
  ]

  with_value-IsSound :
      (s : Server R N) (key : Str) (args : List Str) (f : Str → Server R N × Commands.Response)
      → IsSound s
      → ((v : Str) → IsSound (f v).0)
      → IsSound (Commands.with_value front s key args f).0
  with_value-IsSound s key [] f i h = i
  with_value-IsSound s key (v ∷ vs) f i h = h v

  set_number-IsSound :
      (s : Server R N) (v : Str) (n : Option ℕ)
      → IsSound s
      → IsSound (Commands.set_number front s v n).0
  unfolding set_dbmaxmatches
  set_number-IsSound s v none i = i
  set_number-IsSound s v (some n) i = record { named = i.named; unique = i.unique }

  set_time-IsSound :
      (s : Server R N) (r : Result ℕ) → IsSound s → IsSound (Commands.set_time front s r).0
  unfolding set_dbpurgeage
  set_time-IsSound s (ok n) i = record { named = i.named; unique = i.unique }
  set_time-IsSound s (err e) i = i

  -- A setting leaves the configuration and the table.
  set-IsSound :
      (s : Server R N) (args : List Str) → IsSound s → IsSound (Commands.set front s args).0
  unfolding Commands.set set_loglevel set_logtarget set_dbfile
  set-IsSound s [] i = i
  set-IsSound s (key ∷ args) i = elim (Bool-cases (str_eq key (codes "loglevel"))) [
    | inl a ↦
        rw a
          (with_value-IsSound s key args _ i (λ v. record { named = i.named; unique = i.unique }))
    | inr a ↦ elim (Bool-cases (str_eq key (codes "logtarget"))) [
      | inl b ↦
          rw (a, b)
            (with_value-IsSound s key args _ i (λ v. record { named = i.named; unique = i.unique }))
      | inr b ↦ elim (Bool-cases (str_eq key (codes "dbfile"))) [
        | inl c ↦
            rw (a, b, c)
              (with_value-IsSound s key args _ i
                (λ v. record { named = i.named; unique = i.unique }))
        | inr c ↦ elim (Bool-cases (str_eq key (codes "dbmaxmatches"))) [
          | inl d ↦
              rw (a, b, c, d)
                (with_value-IsSound s key args _ i (λ v. set_number-IsSound s v (parse_u32 v) i))
          | inr d ↦ elim (Bool-cases (str_eq key (codes "dbpurgeage"))) [
            | inl e ↦
                rw (a, b, c, d, e)
                  (with_value-IsSound s key args _ i
                    (λ v. set_time-IsSound s (Commands.in_seconds front v) i))
            | inr e ↦ rw (a, b, c, d, e) (set_other-IsSound s (key ∷ args) i)
          ]
        ]
      ]
    ]
  ]

  add-IsSound :
      (s : Server R N) (args : List Str) → IsSound s → IsSound (Commands.add front s args).0
  unfolding Commands.add
  add-IsSound s [] i = i
  add-IsSound s (name ∷ []) i = i
  add-IsSound s (name ∷ backend ∷ more) i =
      answer-IsSound _ _ (add_jail front.machine s name) (add_jail-IsSound front.machine s name i)

  restart-IsSound :
      (s : Server R N) (args : List Str) → IsSound s → IsSound (Commands.restart front s args).0
  unfolding Commands.restart
  restart-IsSound s [] i = i
  restart-IsSound s (name ∷ args) i =
      answer-IsSound _ _ (restart_jail front.machine s name)
        (restart_jail-IsSound front.machine s name i)

  -- What the loader gives is named.
  abbrev pub LoadsNamed : Type 0
  LoadsNamed = (dirs : List Str) (c : LoadedConfig N) → front.load dirs ≡ ok c → Named c.jails.jails

  reload_all-IsSound :
      (s : Server R N) (c : LoadedConfig N)
      → Named c.jails.jails
      → IsSound (Commands.reload_all front s c).0
  reload_all-IsSound s c n =
      answer-IsSound _ _ (reload_config front.machine s c)
        (reload_config-IsSound front.machine s c n)

  reload_loaded-IsSound :
      (s : Server R N) (args : List Str) (r : Result (LoadedConfig N))
      → ((c : LoadedConfig N) → r ≡ ok c → Named c.jails.jails)
      → IsSound s
      → IsSound (Commands.reload_loaded front s args r).0
  reload_loaded-IsSound s args (err e) n i = i
  reload_loaded-IsSound s [] (ok c) n i = reload_all-IsSound s c (n c refl)
  reload_loaded-IsSound s (name ∷ args) (ok c) n i =
      elim (Bool-cases (str_eq name (codes "--all"))) [
        | inl a ↦ rw a (reload_all-IsSound s c (n c refl))
        | inr a ↦ rw a (
            answer-IsSound _ _ (restart_jail front.machine s name)
              (restart_jail-IsSound front.machine s name i))
      ]

  reload_from-IsSound :
      (s : Server R N) (args dirs : List Str)
      → LoadsNamed
      → IsSound s
      → IsSound (Commands.reload_from front s args dirs).0
  reload_from-IsSound s args [] loads i = i
  reload_from-IsSound s args (d ∷ dirs) loads i =
      reload_loaded-IsSound s args (front.load (d ∷ dirs)) (loads (d ∷ dirs)) i

  reload-IsSound :
      (s : Server R N) (args : List Str)
      → LoadsNamed
      → IsSound s
      → IsSound (Commands.reload front s args).0
  unfolding Commands.reload
  reload-IsSound s args loads i =
      reload_from-IsSound s args (Commands.reload_dirs (config_path s)) loads i

  obey-IsSound :
      (s : Server R N) (cmd : Str) (args : List Str) (v : Option Commands.Verb)
      → LoadsNamed
      → IsSound s
      → IsSound (Commands.obey front s cmd args v).0
  obey-IsSound s cmd args none loads i = i
  obey-IsSound s cmd args (some Commands.do_ping) loads i = i
  obey-IsSound s cmd args (some Commands.do_echo) loads i = i
  obey-IsSound s cmd args (some Commands.do_version) loads i = i
  obey-IsSound s cmd args (some Commands.do_status) loads i = i
  obey-IsSound s cmd args (some Commands.do_start) loads i = start-IsSound s args i
  obey-IsSound s cmd args (some Commands.do_stop) loads i = stop-IsSound s args i
  obey-IsSound s cmd args (some Commands.do_reload) loads i = reload-IsSound s args loads i
  obey-IsSound s cmd args (some Commands.do_restart) loads i = restart-IsSound s args i
  obey-IsSound s cmd args (some Commands.do_unban) loads i = unban-IsSound s args i
  obey-IsSound s cmd args (some Commands.do_banned) loads i = i
  obey-IsSound s cmd args (some Commands.do_statistics) loads i = i
  obey-IsSound s cmd args (some Commands.do_get) loads i = i
  obey-IsSound s cmd args (some Commands.do_set) loads i = set-IsSound s args i
  obey-IsSound s cmd args (some Commands.do_add) loads i = add-IsSound s args i
  obey-IsSound s cmd args (some Commands.do_flushlogs) loads i = i

  -- A run of requests.
  unfoldable pub serve : Server R N → List (List Str) → Server R N
  unfolding Commands.dispatch
  serve s [] = s
  serve s (r ∷ rs) = serve (Commands.dispatch front s r).0 rs

  serve-IsSound :
      (rs : List (List Str)) (s : Server R N) → LoadsNamed → IsSound s → IsSound (serve s rs)
  unfolding serve Commands.dispatch
  serve-IsSound [] s loads i = i
  serve-IsSound ([] ∷ rs) s loads i = serve-IsSound rs s loads i
  serve-IsSound ((cmd ∷ args) ∷ rs) s loads i =
      serve-IsSound rs (Commands.obey front s cmd args (Dict.lookup cmd Commands.verbs)).0 loads
        (obey-IsSound s cmd args (Dict.lookup cmd Commands.verbs) loads i)

  -- A new server, where the configuration and all that is loaded later give each jail under its own
  -- name, answers any requests one after the other without ever running two jails of one name.
  pub serve-Unique :
      (config : LoadedConfig N) (rs : List (List Str))
      → Named config.jails.jails
      → LoadsNamed
      → Unique (serve (new config) rs).jails
  unfolding new
  serve-Unique config rs n loads =
      (serve-IsSound rs (new config) loads (record { named = n; unique = tt })).unique
