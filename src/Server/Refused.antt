-- ===== src/Server/Refused.antt =====
-- src/server/commands.rs: requests that are refused, and the reload of one jail.
use rail2ban.Prelude.{
  ℕ, ◌≡◌, refl, inl, inr, Bool, true, false, not, ◌||◌, Bool-cases, Option, none, some,
  Option-cases, is_some, List, [], ◌∷◌, Str, str_eq, codes, arith,
}
use rail2ban.Prelude.Dict
use rail2ban.Prelude.Dict.{Each, Each-lookup}
use rail2ban.Config.Definitions.{parse_u32}
use rail2ban.Error.{Error, Result, ok, err}
use rail2ban.Config.Loaded.{LoadedConfig}
use rail2ban.Server.Jails.{
  JailHandle, Server, get_jail, make_jail, pushed, stop_jail, start_jail, add_jail, config_path,
}
use rail2ban.Server.Commands

module _ {R N : Type 0} (front : Commands.Front R N) where
  -- Nothing is changed where the answer is a refusal.
  abbrev Kept : Server R N → Server R N × Commands.Response → Type 0
  Kept s r = r.1.ok ≡ false → r.0 ≡ s

  -- Nothing is changed where the operation fails.
  abbrev KeptOnError : {A : Type 0} → Server R N → Server R N × Result A → Type 0
  KeptOnError s (t, ok a) = Unit
  KeptOnError s (t, err e) = t ≡ s

  answer-Kept :
      {A : Type 0} (good : A → Str) (bad : Error → Str) (s : Server R N) (r : Server R N × Result A)
      → KeptOnError s r
      → Kept s (Commands.answer front good bad r)
  answer-Kept good bad s (t, ok a) k h = absurd (cc h)
  answer-Kept good bad s (t, err e) k h = k

  pushed-Kept :
      (s : Server R N) (r : Result (JailHandle R N)) → KeptOnError s (pushed front.machine s r)
  pushed-Kept s (ok h) = tt
  pushed-Kept s (err e) = refl

  start_jail-Kept : (s : Server R N) (name : Str) → KeptOnError s (start_jail front.machine s name)
  unfolding start_jail
  start_jail-Kept s name = elim (Bool-cases (is_some (get_jail s name))) [
    | inl c ↦ rw c refl
    | inr c ↦ rw c (pushed-Kept s (make_jail front.machine s name))
  ]

  stop_jail-Kept : (s : Server R N) (name : Str) → KeptOnError s (stop_jail s name)
  unfolding stop_jail
  stop_jail-Kept s name = elim (Bool-cases (is_some (get_jail s name))) [
    | inl c ↦ rw c tt
    | inr c ↦ rw c refl
  ]

  add_jail-Kept : (s : Server R N) (name : Str) → KeptOnError s (add_jail front.machine s name)
  unfolding add_jail
  add_jail-Kept s name = elim (Option-cases (Dict.lookup name s.config.jails.jails)) [
    | inl c ↦ rw c refl
    | inr (entry, c) ↦ rw c (start_jail-Kept s entry.settings.name)
  ]

  start-Kept : (s : Server R N) (args : List Str) → Kept s (Commands.start front s args)
  unfolding Commands.start
  start-Kept s [] = λ h. refl
  start-Kept s (name ∷ args) = elim (Bool-cases (str_eq name (codes "--all"))) [
    | inl c ↦ rw c (λ h. absurd (cc h))
    | inr c ↦ rw c (answer-Kept _ _ s (start_jail front.machine s name) (start_jail-Kept s name))
  ]

  stop-Kept : (s : Server R N) (args : List Str) → Kept s (Commands.stop front s args)
  unfolding Commands.stop
  stop-Kept s [] = λ h. absurd (cc h)
  stop-Kept s (name ∷ args) = answer-Kept _ _ s (stop_jail s name) (stop_jail-Kept s name)

  unban-Kept : (s : Server R N) (args : List Str) → Kept s (Commands.unban front s args)
  unfolding Commands.unban
  unban-Kept s [] = λ h. refl
  unban-Kept s (ip ∷ ips) = elim (Bool-cases (str_eq ip (codes "--all"))) [
    | inl c ↦ rw c (λ h. absurd (cc h))
    | inr c ↦ rw c (λ h. absurd (cc h))
  ]

  add-Kept : (s : Server R N) (args : List Str) → Kept s (Commands.add front s args)
  unfolding Commands.add
  add-Kept s [] = λ h. refl
  add-Kept s (name ∷ []) = λ h. refl
  add-Kept s (name ∷ backend ∷ more) =
      answer-Kept _ _ s (add_jail front.machine s name) (add_jail-Kept s name)

  attempted-Kept :
      (s : Server R N) (name : Str) (rest : List Str)
      → Kept s (Commands.attempted front s name rest)
  attempted-Kept s name [] h = refl
  attempted-Kept s name (ip ∷ failures) h = absurd (cc h)

  set_jail_attr-Kept :
      (s : Server R N) (name action : Str) (rest : List Str)
      → Kept s (Commands.set_jail_attr front s name action rest)
  unfolding Commands.set_jail_attr
  set_jail_attr-Kept s name action rest = elim (Bool-cases (str_eq action (codes "banip"))) [
    | inl c ↦ rw c (λ h. absurd (cc h))
    | inr c ↦ elim (Bool-cases (str_eq action (codes "unbanip"))) [
      | inl d ↦ rw (c, d) (λ h. absurd (cc h))
      | inr d ↦ elim (Bool-cases (str_eq action (codes "attempt"))) [
        | inl e ↦ rw (c, d, e) (attempted-Kept s name rest)
        | inr e ↦ rw (c, d, e) (λ h. refl)
      ]
    ]
  ]

  set_other-Kept : (s : Server R N) (args : List Str) → Kept s (Commands.set_other front s args)
  set_other-Kept s [] = λ h. refl
  set_other-Kept s (a ∷ []) = λ h. refl
  set_other-Kept s (a ∷ b ∷ []) = λ h. refl
  set_other-Kept s (name ∷ action ∷ r ∷ rest) = elim (Bool-cases (is_some (get_jail s name))) [
    | inl c ↦ rw c (set_jail_attr-Kept s name action (r ∷ rest))
    | inr c ↦ rw c (λ h. refl)
  ]

  with_value-Kept :
      (s : Server R N) (key : Str) (args : List Str) (f : Str → Server R N × Commands.Response)
      → ((v : Str) → Kept s (f v))
      → Kept s (Commands.with_value front s key args f)
  with_value-Kept s key [] f k = λ h. refl
  with_value-Kept s key (v ∷ vs) f k = k v

  set_number-Kept :
      (s : Server R N) (v : Str) (n : Option ℕ) → Kept s (Commands.set_number front s v n)
  set_number-Kept s v none h = refl
  set_number-Kept s v (some n) h = absurd (cc h)

  set_time-Kept : (s : Server R N) (r : Result ℕ) → Kept s (Commands.set_time front s r)
  set_time-Kept s (ok n) h = absurd (cc h)
  set_time-Kept s (err e) h = refl

  set-Kept : (s : Server R N) (args : List Str) → Kept s (Commands.set front s args)
  unfolding Commands.set
  set-Kept s [] = λ h. refl
  set-Kept s (key ∷ args) = elim (Bool-cases (str_eq key (codes "loglevel"))) [
    | inl a ↦ rw a (with_value-Kept s key args _ (λ v h. absurd (cc h)))
    | inr a ↦ elim (Bool-cases (str_eq key (codes "logtarget"))) [
      | inl b ↦ rw (a, b) (with_value-Kept s key args _ (λ v h. absurd (cc h)))
      | inr b ↦ elim (Bool-cases (str_eq key (codes "dbfile"))) [
        | inl c ↦ rw (a, b, c) (with_value-Kept s key args _ (λ v h. absurd (cc h)))
        | inr c ↦ elim (Bool-cases (str_eq key (codes "dbmaxmatches"))) [
          | inl d ↦
              rw (a, b, c, d)
                (with_value-Kept s key args _ (λ v. set_number-Kept s v (parse_u32 v)))
          | inr d ↦ elim (Bool-cases (str_eq key (codes "dbpurgeage"))) [
            | inl e ↦
                rw (a, b, c, d, e)
                  (with_value-Kept s key args _
                    (λ v. set_time-Kept s (Commands.in_seconds front v)))
            | inr e ↦ rw (a, b, c, d, e) (set_other-Kept s (key ∷ args))
          ]
        ]
      ]
    ]
  ]

  -- The verbs that may stop a jail and then fail.
  abbrev restarts : Commands.Verb → Bool
  restarts Commands.do_reload = true
  restarts Commands.do_restart = true
  restarts _ = false

  obey-Kept :
      (s : Server R N) (cmd : Str) (args : List Str) (v : Commands.Verb)
      → restarts v ≡ false
      → Kept s (Commands.obey front s cmd args (some v))
  obey-Kept s cmd args Commands.do_ping k = λ h. refl
  obey-Kept s cmd args Commands.do_echo k = λ h. refl
  obey-Kept s cmd args Commands.do_version k = λ h. refl
  obey-Kept s cmd args Commands.do_status k = λ h. refl
  obey-Kept s cmd args Commands.do_start k = start-Kept s args
  obey-Kept s cmd args Commands.do_stop k = stop-Kept s args
  obey-Kept s cmd args Commands.do_reload k = absurd (cc k)
  obey-Kept s cmd args Commands.do_restart k = absurd (cc k)
  obey-Kept s cmd args Commands.do_unban k = unban-Kept s args
  obey-Kept s cmd args Commands.do_banned k = λ h. refl
  obey-Kept s cmd args Commands.do_statistics k = λ h. refl
  obey-Kept s cmd args Commands.do_get k = λ h. refl
  obey-Kept s cmd args Commands.do_set k = set-Kept s args
  obey-Kept s cmd args Commands.do_add k = add-Kept s args
  obey-Kept s cmd args Commands.do_flushlogs k = λ h. refl

  -- Only the words for a reload and a restart give such a verb.
  abbrev Spelled : Str → Commands.Verb → Type 0
  Spelled cmd v =
      (not (restarts v) || (str_eq (codes "reload") cmd || str_eq (codes "restart") cmd)) ≡ true

  verbs-Spelled : Each Spelled Commands.verbs
  unfolding str_eq
  verbs-Spelled = (
    refl,
    (
      refl,
      (
        refl,
        (
          refl,
          (
            refl,
            (
              refl,
              (refl, (refl, (refl, (refl, (refl, (refl, (refl, (refl, (refl, (refl, tt)))))))))),
            ),
          ),
        ),
      ),
    ),
  )

  verb_of-restarts :
      (cmd : Str) (v : Commands.Verb)
      → str_eq (codes "reload") cmd ≡ false
      → str_eq (codes "restart") cmd ≡ false
      → Dict.lookup cmd Commands.verbs ≡ some v
      → restarts v ≡ false
  verb_of-restarts cmd v a b e =
      let spelled : Spelled cmd v = Each-lookup Spelled cmd Commands.verbs verbs-Spelled e in
      ground (arith, spelled)

  -- A request other than a reload or a restart that is refused leaves the server as it was.
  pub dispatch-refused :
      (s : Server R N) (cmd : Str) (args : List Str)
      → str_eq (codes "reload") cmd ≡ false
      → str_eq (codes "restart") cmd ≡ false
      → (Commands.dispatch front s (cmd ∷ args)).1.ok ≡ false
      → (Commands.dispatch front s (cmd ∷ args)).0 ≡ s
  unfolding Commands.dispatch
  dispatch-refused s cmd args a b h = elim (Option-cases (Dict.lookup cmd Commands.verbs)) [
    | inl c ↦ rw c refl
    | inr (v, c) ↦ rw c (obey-Kept s cmd args v (verb_of-restarts cmd v a b c) (rw c at h))
  ]

  -- The reload of one jail is its restart: when the directories can be loaded, what was loaded is not
  -- used, and the jail starts again with the configuration that the server had.
  reload-restart :
      (s : Server R N) (name dir : Str) (args dirs : List Str) (loaded : LoadedConfig N)
      → Commands.reload_dirs (config_path s) ≡ dir ∷ dirs
      → front.load (dir ∷ dirs) ≡ ok loaded
      → str_eq name (codes "--all") ≡ false
      → Commands.reload front s (name ∷ args) ≡ Commands.restart front s (name ∷ args)
  unfolding Commands.reload Commands.restart
  reload-restart s name dir args dirs loaded d l one = rw (d, l, one) refl
