-- ===== src/Server/Table.antt =====
-- src/server/server.rs: the names in the table of jails.
use rail2ban.Prelude.{
  ℕ, ◌≡◌, refl, sym, ap, ◌∙◌, inl, inr, false, Bool-cases, Option, none, some, Option-cases,
  is_some, List, [], ◌∷◌, ◌++◌, map, Str, str_eq, str_eq_iff, arith, codes, ◌||◌,
  to_ascii_lowercase,
}
use rail2ban.Error.{Result, ok, err, ◌>>=◌}
use rail2ban.Jail.Task.{Event}
use rail2ban.Database.{Database}
use rail2ban.Config.Loaded.{LoadedConfig, JailEntry}
use rail2ban.Prelude.Dict
use rail2ban.Server.Jails.{
  JailHandle, Server, Machine, find_jail, remove_jail, get_jail, stop_jail, stop_all, send_unban,
  enabled_names, pushed, counted, with_db, then_started, replaced, added, parts_of, handle_of,
  make_jail, start_jail, restart_jail, start_each, with_restored, start_all_enabled, init_db,
  reload_config, add_jail,
}

-- No name stands twice.
abbrev pub Unique : {R N : Type 0} → List (JailHandle R N) → Type 0
Unique [] = Unit
Unique (h ∷ hs) = (find_jail h.name hs ≡ none) × Unique hs

-- Each jail stands in the configuration under its own name.
abbrev pub Named : {N : Type 0} → List (Str × JailEntry N) → Type 0
Named [] = Unit
Named ((name, entry) ∷ es) = (entry.settings.name ≡ name) × Named es

module _ {R N : Type 0} where
  find-append_none :
      (name : Str) (hs : List (JailHandle R N)) (h : JailHandle R N)
      → find_jail name hs ≡ none
      → str_eq h.name name ≡ false
      → find_jail name (hs ++ h ∷ []) ≡ none
  unfolding find_jail
  find-append_none name [] h e f = ground arith
  find-append_none name (g ∷ hs) h e f = ground (arith, find-append_none name hs h)

  append-Unique :
      (hs : List (JailHandle R N)) (h : JailHandle R N)
      → Unique hs
      → find_jail h.name hs ≡ none
      → Unique (hs ++ h ∷ [])
  unfolding find_jail
  append-Unique [] h u e = (refl, tt)
  append-Unique (g ∷ hs) h u e = (
    find-append_none g.name hs h u.0
        (ground (arith, str_eq_iff h.name g.name, str_eq_iff g.name h.name)),
    append-Unique hs h u.1 (ground arith),
  )

  find-remove_none :
      (name other : Str) (hs : List (JailHandle R N))
      → find_jail name hs ≡ none
      → find_jail name (remove_jail other hs) ≡ none
  unfolding find_jail remove_jail
  find-remove_none name other [] e = refl
  find-remove_none name other (g ∷ hs) e = ground (arith, find-remove_none name other hs)

  remove-Unique :
      (name : Str) (hs : List (JailHandle R N)) → Unique hs → Unique (remove_jail name hs)
  unfolding remove_jail
  remove-Unique name [] u = tt
  remove-Unique name (g ∷ hs) u = elim (Bool-cases (str_eq g.name name)) [
    | inl c ↦ rw c u.1
    | inr c ↦ rw c (find-remove_none g.name name hs u.0, remove-Unique name hs u.1)
  ]

  find-remove_self :
      (name : Str) (hs : List (JailHandle R N))
      → Unique hs
      → find_jail name (remove_jail name hs) ≡ none
  unfolding find_jail remove_jail
  find-remove_self name [] u = refl
  find-remove_self name (g ∷ hs) u =
      ground (arith, str_eq_iff g.name name, find-remove_self name hs)

  -- A change of the jails that keeps their names.
  abbrev KeepsNames : (JailHandle R N → JailHandle R N) → Type 0
  KeepsNames f = (h : JailHandle R N) → (f h).name ≡ h.name

  absent_when_mapped :
      (f : JailHandle R N → JailHandle R N) (name : Str) (hs : List (JailHandle R N))
      → KeepsNames f
      → find_jail name hs ≡ none
      → find_jail name (map f hs) ≡ none
  unfolding find_jail
  absent_when_mapped f name [] k e = refl
  absent_when_mapped f name (h ∷ hs) k e = ground (arith, k h, absent_when_mapped f name hs k)

  pub map-Unique :
      (f : JailHandle R N → JailHandle R N) (hs : List (JailHandle R N))
      → KeepsNames f
      → Unique hs
      → Unique (map f hs)
  map-Unique f [] k u = tt
  map-Unique f (h ∷ hs) k u = (
    ap (λ n. find_jail n (map f hs)) (k h) ∙ absent_when_mapped f h.name hs k u.0,
    map-Unique f hs k u.1,
  )

  find-unban_none :
      (ip name : Str) (hs : List (JailHandle R N))
      → find_jail name hs ≡ none
      → find_jail name (send_unban ip hs) ≡ none
  unfolding find_jail send_unban
  find-unban_none ip name [] e = refl
  find-unban_none ip name (h ∷ hs) e = ground (arith, find-unban_none ip name hs)

  pub unban-Unique : (ip : Str) (hs : List (JailHandle R N)) → Unique hs → Unique (send_unban ip hs)
  unfolding send_unban
  unban-Unique ip [] u = tt
  unban-Unique ip (h ∷ hs) u = ground (arith, find-unban_none ip h.name hs, unban-Unique ip hs)

  find-restored_none :
      (ms : List (Str × Event)) (name : Str) (hs : List (JailHandle R N))
      → find_jail name hs ≡ none
      → find_jail name (with_restored ms hs) ≡ none
  unfolding find_jail with_restored
  find-restored_none ms name [] e = refl
  find-restored_none ms name (h ∷ hs) e = ground (arith, find-restored_none ms name hs)

  restored-Unique :
      (ms : List (Str × Event)) (hs : List (JailHandle R N))
      → Unique hs
      → Unique (with_restored ms hs)
  unfolding with_restored
  restored-Unique ms [] u = tt
  restored-Unique ms (h ∷ hs) u = (find-restored_none ms h.name hs u.0, restored-Unique ms hs u.1)

-- The configured jails have their own names, and no jail runs twice.
pub record IsSound {R N : Type 0} (s : Server R N) : Type 0 where
  pub named : Named s.config.jails.jails
  pub unique : Unique s.jails

Named-lookup :
    {N : Type 0} (name : Str) (es : List (Str × JailEntry N)) {entry : JailEntry N}
    → Named es
    → Dict.lookup name es ≡ some entry
    → entry.settings.name ≡ name
unfolding Dict.lookup
Named-lookup name [] n e = absurd (cc e)
Named-lookup name ((k, v) ∷ es) {entry} n e = elim (Bool-cases (str_eq k name)) [
  | inl c ↦
      let same : some v ≡ some entry = rw c at e in
      let own : v ≡ entry = cc same in
      ap (λ x. x.settings.name) (sym own) ∙ n.0 ∙ (str_eq_iff k name).0 c
  | inr c ↦ Named-lookup name es n.1 (rw c at e)
]

-- A property of a result that is not an error.
abbrev Holds {ℓ κ} : {A : Type ℓ} → (A → Type κ) → Result A → Type κ
Holds P (ok a) = P a
Holds P (err e) = Unit

bind-Holds {ℓ κ μ} :
    {A : Type ℓ} {B : Type μ} (P : B → Type κ) (r : Result A) (f : A → Result B)
    → ((a : A) → Holds P (f a))
    → Holds P (r >>= f)
bind-Holds P (ok a) f h = h a
bind-Holds P (err e) f h = tt

module _ {R N : Type 0} (machine : Machine R N) where
  abbrev Own : Str → JailHandle R N → Type 0
  Own name h = h.name ≡ name

  -- The handle that is made has the name that was asked for.
  make_jail-Holds :
      (s : Server R N) (name : Str)
      → Named s.config.jails.jails
      → Holds (Own name) (make_jail machine s name)
  unfolding make_jail
  make_jail-Holds s name n = elim (Option-cases (Dict.lookup name s.config.jails.jails)) [
    | inl c ↦ rw c tt
    | inr (entry, c) ↦
        let own = Named-lookup name s.config.jails.jails n c in
        rw c (
          bind-Holds (Own name) (parts_of machine s name entry)
            (λ parts. ok (handle_of machine s entry parts)) (λ (filter, acts). own))
  ]

  pushed-IsSound :
      (s : Server R N) (name : Str) (r : Result (JailHandle R N))
      → IsSound s
      → get_jail s name ≡ none
      → Holds (Own name) r
      → IsSound (pushed machine s r).0
  unfolding get_jail
  pushed-IsSound s name (err e) i absent own = i
  pushed-IsSound s name (ok h) i absent own = record {
    named = i.named;
    unique = append-Unique s.jails h i.unique (ap (λ n. find_jail n s.jails) own ∙ absent);
  }

  pub start_jail-IsSound :
      (s : Server R N) (name : Str) → IsSound s → IsSound (start_jail machine s name).0
  unfolding start_jail
  start_jail-IsSound s name i = elim (Option-cases (get_jail s name)) [
    | inl c ↦
        rw c (pushed-IsSound s name (make_jail machine s name) i c (make_jail-Holds s name i.named))
    | inr (h, c) ↦ rw c i
  ]

  pub stop_jail-IsSound : (s : Server R N) (name : Str) → IsSound s → IsSound (stop_jail s name).0
  unfolding stop_jail
  stop_jail-IsSound s name i = elim (Bool-cases (is_some (get_jail s name))) [
    | inl c ↦ rw c (record { named = i.named; unique = remove-Unique name s.jails i.unique })
    | inr c ↦ rw c i
  ]

  pub restart_jail-IsSound :
      (s : Server R N) (name : Str) → IsSound s → IsSound (restart_jail machine s name).0
  unfolding restart_jail
  restart_jail-IsSound s name i =
      start_jail-IsSound (stop_jail s name).0 name (stop_jail-IsSound s name i)

  counted-IsSound :
      (n : ℕ) (r : Server R N × Result (Unit {0})) → IsSound r.0 → IsSound (counted machine n r).0
  counted-IsSound n (s, ok u) i = i
  counted-IsSound n (s, err e) i = i

  start_each-IsSound :
      (names : List Str) (r : Server R N × ℕ) → IsSound r.0 → IsSound (start_each machine names r).0
  unfolding start_each
  start_each-IsSound [] r i = i
  start_each-IsSound (name ∷ names) (s, n) i =
      start_each-IsSound names (counted machine n (start_jail machine s name))
        (counted-IsSound n (start_jail machine s name) (start_jail-IsSound s name i))

  pub start_all_enabled-IsSound :
      (s : Server R N) → IsSound s → IsSound (start_all_enabled machine s).0
  unfolding start_all_enabled
  start_all_enabled-IsSound s i =
      let started = start_each-IsSound (enabled_names s.config.jails.jails) (s, 0) i in
      record { named = started.named; unique = restored-Unique _ _ started.unique }

  with_db-IsSound :
      (s : Server R N) (r : Result Database) → IsSound s → IsSound (with_db machine s r).0
  with_db-IsSound s (ok d) i = record { named = i.named; unique = i.unique }
  with_db-IsSound s (err e) i = i

  init_db-IsSound : (s : Server R N) → IsSound s → IsSound (init_db machine s).0
  unfolding init_db
  init_db-IsSound s i =
      elim (Bool-cases (
        str_eq (map to_ascii_lowercase s.config.global.dbfile) (codes "none")
        || str_eq s.config.global.dbfile [])) [
          | inl c ↦ rw c i
          | inr c ↦ rw c (with_db-IsSound s (machine.open_db s.config.global.dbfile) i)
        ]

  then_started-IsSound :
      (r : Server R N × Result (Unit {0})) → IsSound r.0 → IsSound (then_started machine r).0
  then_started-IsSound (s, ok u) i = start_all_enabled-IsSound s i
  then_started-IsSound (s, err e) i = i

  pub reload_config-IsSound :
      (s : Server R N) (config : LoadedConfig N)
      → Named config.jails.jails
      → IsSound (reload_config machine s config).0
  unfolding reload_config stop_all
  reload_config-IsSound s config n =
      then_started-IsSound (init_db machine (replaced machine (stop_all s) config))
        (init_db-IsSound (replaced machine (stop_all s) config) (record { named = n; unique = tt }))

  added-IsSound :
      (s : Server R N) (e : Option (JailEntry N)) → IsSound s → IsSound (added machine s e).0
  added-IsSound s none i = i
  added-IsSound s (some entry) i = start_jail-IsSound s entry.settings.name i

  pub add_jail-IsSound :
      (s : Server R N) (name : Str) → IsSound s → IsSound (add_jail machine s name).0
  unfolding add_jail
  add_jail-IsSound s name i = added-IsSound s (Dict.lookup name s.config.jails.jails) i
