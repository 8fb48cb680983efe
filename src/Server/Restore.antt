-- ===== src/Server/Restore.antt =====
-- src/server/server.rs and src/server/jail.rs: a jail that starts on a database with bans of it.
use rail2ban.Prelude.{
  ◌≡◌, refl, sym, ap, ◌∙◌, Bool, true, false, not, ◌&&◌, ◌||◌, none, some, List, [], ◌∷◌, inl, inr,
  Str, arith, Bool-cases, any, retain, str_eq, str_eq_iff, str_eq_refl, map_option, unwrap_or, All,
}
use rail2ban.Clock.{seconds}
use rail2ban.BanManager.{BanTicket, BanManager, is_banned, is_expired}
use rail2ban.BanManager.View.{add_ban-IsValid}
use rail2ban.BanManager.View
use rail2ban.FailManager.Laws
use rail2ban.Database.{DbBan, Bip, Database, ban_of, bip_of, ban_at, is_current, list_bans, in_bips}
use rail2ban.Database.Current.{any-sort_desc}
use rail2ban.Database.Purge.{any-retain}
use rail2ban.Database.Joined.{Joined}
use rail2ban.Action.{Action, Command}
use rail2ban.Filter.{CompiledFilter}
use rail2ban.FailManager
use rail2ban.BanManager
use rail2ban.Jail.State.{Jail, JailConfig, Outside, Instants}
use rail2ban.Jail.Manual.{restore_ban}
use rail2ban.Jail.Task.{Event, handle, spawn}
use rail2ban.Jail.Tracked.{Inv, current_in, current_in-without, is_banned-add_ban}
use rail2ban.Jail.Keeps.{handled, handled-Inv}
use rail2ban.Server.{restore_of, restore_messages, restore_bans_from_db, sent_to}

any_mono :
    (p q : DbBan → Bool) (rs : List DbBan)
    → ((r : DbBan) → p r ≡ true → q r ≡ true)
    → any p rs ≡ true
    → any q rs ≡ true
unfolding any
any_mono p q [] h e = e
any_mono p q (r ∷ rs) h e = elim (Bool-cases (p r)) [
  | inl held ↦ rw (h r held) refl
  | inr other ↦ let rest = any_mono p q rs h (rw other at e) in ground arith
]

ban_of-joined :
    (jail h : Str) (b : Bip) (r : DbBan)
    → bip_of jail h b ≡ true
    → ban_at b.jail b.ip b.time_of_ban r ≡ true
    → ban_of jail h r ≡ true
ban_of-joined jail h b r own e = ground (
  arith,
  str_eq_iff b.jail jail,
  str_eq_iff b.ip h,
  str_eq_iff r.jail b.jail,
  str_eq_iff r.ip b.ip,
  str_eq_refl jail,
  str_eq_refl h,
)

joined_rows :
    (bans : List DbBan) (bips : List Bip) (jail h : Str)
    → All (λ b. any (λ r. ban_at b.jail b.ip b.time_of_ban r) bans ≡ true) bips
    → any (bip_of jail h) bips ≡ true
    → any (λ r. in_bips bips r && ban_of jail h r) bans ≡ true
unfolding any in_bips
joined_rows bans [] jail h joined now = absurd (cc now)
joined_rows bans (b ∷ bips) jail h joined now = elim (Bool-cases (bip_of jail h b)) [
  | inl own ↦
      any_mono (λ r. ban_at b.jail b.ip b.time_of_ban r)
        (λ r. in_bips (b ∷ bips) r && ban_of jail h r) bans
        (λ r e. rw (e, ban_of-joined jail h b r own e) refl) joined.0
  | inr other ↦
      any_mono (λ r. in_bips bips r && ban_of jail h r)
        (λ r. in_bips (b ∷ bips) r && ban_of jail h r) bans (λ r e. ground arith)
        (joined_rows bans bips jail h joined.1 (rw other at now))
]

module _ {R N : Type 0} (outside : Outside R N) where
  -- The ticket that a row is restored as, while its ban lasts.
  abbrev pub restored_ticket : DbBan → Instants → BanTicket
  restored_ticket r at = record {
    host = r.ip;
    ip = outside.addressing.addr_from_str r.ip;
    user = none;
    alt_user = none;
    mlfid = none;
    time_of_ban = unwrap_or (outside.from_timestamp r.time_of_ban) at.seen;
    bantime = map_option seconds r.bantime;
    matches = [];
    failures = 0;
  }

  abbrev pub lapsed : DbBan → Instants → Bool
  lapsed r at = is_expired (restored_ticket r at) at.seen

  -- One message: a ban that lasts is held, one that has run out is not current any more.
  handle-restore :
      (j : Jail R N) (r : DbBan) (at : Instants) (h : Str)
      → (is_banned (handle outside j (restore_of outside.addressing.addr_from_str r) at).ban_mgr h
          ≡ (is_banned j.ban_mgr h || (str_eq r.ip h && not (lapsed r at))))
        × (current_in
              (handle outside j (restore_of outside.addressing.addr_from_str r) at).db
              j.config.name
              h
            ≡ (current_in j.db j.config.name h && not (str_eq r.ip h && lapsed r at)))
        × ((handle outside j (restore_of outside.addressing.addr_from_str r) at).config ≡ j.config)
  unfolding handle restore_ban
  handle-restore j r at h = elim (Bool-cases (lapsed r at)) [
    | inl over ↦
        rw over
          (ground arith, rw (current_in-without j.config.name r.ip j.db h) (ground arith), refl)
    | inr lasting ↦ rw lasting (
      rw (is_banned-add_ban j.ban_mgr (restored_ticket r at) h) (ground arith),
      ground arith,
      refl,
    )
  ]

  -- Both managers are well formed.
  abbrev Sound : Jail R N → Type 0
  Sound j = View.IsValid j.ban_mgr × Laws.IsValid j.fail_mgr

  handle-Sound :
      (j : Jail R N) (r : DbBan) (at : Instants)
      → Sound j
      → Sound (handle outside j (restore_of outside.addressing.addr_from_str r) at)
  unfolding handle restore_ban
  handle-Sound j r at s = elim (Bool-cases (lapsed r at)) [
    | inl over ↦ rw over s
    | inr lasting ↦ rw lasting (add_ban-IsValid j.ban_mgr (restored_ticket r at) s.0, s.1)
  ]

  abbrev pub events_of : List (Event × Instants) → List Event
  events_of [] = []
  events_of ((e, at) ∷ es) = e ∷ events_of es

  sent_to-mine :
      (running : List Str) (name : Str) (r : DbBan) (rs : List DbBan)
      → r.jail ≡ name
      → any (str_eq name) running ≡ true
      → sent_to name (restore_messages outside.addressing.addr_from_str running (r ∷ rs))
        ≡ restore_of outside.addressing.addr_from_str r
          ∷ sent_to name (restore_messages outside.addressing.addr_from_str running rs)
  unfolding restore_messages sent_to
  sent_to-mine running name r rs mine up = rw (mine, up, str_eq_refl) refl

  sent_to-other :
      (running : List Str) (name : Str) (r : DbBan) (rs : List DbBan)
      → str_eq r.jail name ≡ false
      → sent_to name (restore_messages outside.addressing.addr_from_str running (r ∷ rs))
        ≡ sent_to name (restore_messages outside.addressing.addr_from_str running rs)
  unfolding restore_messages sent_to
  sent_to-other running name r rs other = ground arith

  -- What is current at the end was so before, and a host that is held, or of which a row is restored,
  -- is then held.
  abbrev Restored : Str → Jail R N → Str → List DbBan → List (Event × Instants) → Type 0
  Restored name j h rs es =
      (current_in (handled outside j es).db name h ≡ true
        → (current_in j.db j.config.name h ≡ true)
          × ((is_banned j.ban_mgr h || any (ban_of name h) rs) ≡ true
              → is_banned (handled outside j es).ban_mgr h ≡ true))
      × (Sound j → Sound (handled outside j es))
      × ((handled outside j es).config ≡ j.config)

  step :
      (banned own lapsed_now current rest : Bool)
      → (current && not (own && lapsed_now)) ≡ true
      → (banned || (own || rest)) ≡ true
      → ((banned || (own && not lapsed_now)) || rest) ≡ true
  step banned own lapsed_now current rest h e = ground arith

  restored :
      (running : List Str) (name : Str) (j : Jail R N) (rs : List DbBan)
      (es : List (Event × Instants)) (h : Str)
      → j.config.name ≡ name
      → any (str_eq name) running ≡ true
      → events_of es ≡ sent_to name (restore_messages outside.addressing.addr_from_str running rs)
      → Restored name j h rs es
  unfolding restore_messages sent_to handled any
  restored running name j [] [] h own up e = (λ now. (rw own now, λ b. ground arith), λ s. s, refl)
  restored running name j [] (x ∷ es) h own up e = absurd (cc e)
  restored running name j (r ∷ rs) [] h own up e = elim (Bool-cases (str_eq r.jail name)) [
    | inl mine ↦
        absurd (cc (e ∙ sent_to-mine running name r rs ((str_eq_iff r.jail name).0 mine) up))
    | inr other ↦
        let (held, sound, config) =
          restored running name j rs [] h own up (e ∙ sent_to-other running name r rs other) in
        (λ now. ((held now).0, λ b. (held now).1 (rw other at b)), sound, config)
  ]
  restored running name j (r ∷ rs) ((x, at) ∷ es) h own up e =
      elim (Bool-cases (str_eq r.jail name)) [
        | inl mine ↦
            let received =
              e ∙ sent_to-mine running name r rs ((str_eq_iff r.jail name).0 mine) up in
            let same : x ≡ restore_of outside.addressing.addr_from_str r = cc received in
            let next : events_of es
                ≡ sent_to name (restore_messages outside.addressing.addr_from_str running rs) =
              cc received in
            let k = handle outside j (restore_of outside.addressing.addr_from_str r) at in
            let (holds, currents, still) = handle-restore j r at h in
            let (held, sound, config) =
              restored running name k rs es h (ap (λ c. c.name) still ∙ own) up next in
            (
              λ now.
                  let (before, then_held) = held (rw same at now) in
                  let kept : (current_in j.db j.config.name h && not (str_eq r.ip h && lapsed r at))
                      ≡ true =
                    sym currents ∙ ap (λ c. current_in k.db c.name h) (sym still) ∙ before in
                  (
                    ground arith,
                    λ b. rw same (
                        then_held (
                          rw holds (
                            step (is_banned j.ban_mgr h) (str_eq r.ip h) (lapsed r at)
                              (current_in j.db j.config.name h) (any (ban_of name h) rs) kept
                              (rw mine at b)))),
                  ),
              λ s. rw same (sound (handle-Sound j r at s)),
              rw same (config ∙ still),
            )
        | inr other ↦
            let (held, sound, config) =
              restored running name j rs ((x, at) ∷ es) h own up
                (e ∙ sent_to-other running name r rs other) in
            (λ now. ((held now).0, λ b. (held now).1 (rw other at b)), sound, config)
      ]

  -- A current ban is listed, where each row of `bips` has its row of `bans`.
  listed :
      (db : Database) (jail h : Str)
      → Joined db
      → is_current db jail h ≡ true
      → any (ban_of jail h) (list_bans db) ≡ true
  unfolding list_bans is_current
  listed db jail h joined now =
      any-sort_desc (ban_of jail h) (retain (in_bips db.bips) db.bans)
      ∙ any-retain (ban_of jail h) (in_bips db.bips) db.bans
      ∙ joined_rows db.bans db.bips jail h joined now

  -- A jail that is started on a database with bans of it, in which each row of `bips` has its row of
  -- `bans`, and that first handles what the server sends it to restore: after any events that follow,
  -- each ban of the jail that is current in the database is held by the jail.
  pub restored-Tracked :
      (running : List Str) (c : JailConfig N) (filter : CompiledFilter R) (acts : List Action)
      (db : Database) (ran : List Command) (es more : List (Event × Instants)) (h : Str)
      → any (str_eq c.name) running ≡ true
      → Joined db
      → events_of es
        ≡ sent_to c.name (restore_bans_from_db outside.addressing.addr_from_str running (some db))
      → current_in
          (handled outside (handled outside (spawn outside c filter acts (some db) ran) es) more).db
          (handled outside
            (handled outside (spawn outside c filter acts (some db) ran) es)
            more).config.name
          h
        ≡ true
      → is_banned
          (handled outside
            (handled outside (spawn outside c filter acts (some db) ran) es)
            more).ban_mgr
          h
        ≡ true
  unfolding restore_bans_from_db spawn FailManager.new BanManager.new
  restored-Tracked running c filter acts db ran es more h up joined e now =
      (handled-Inv outside (handled outside j es) more inv).tracked h now
    where
      j : Jail R N
      j = spawn outside c filter acts (some db) ran

      all : (k : Str) → Restored c.name j k (list_bans db) es
      all k = restored running c.name j (list_bans db) es k refl up e

      new_valid : View.IsValid BanManager.new
      new_valid = record { unique = tt; filed = tt }

      inv : Inv (handled outside j es)
      inv =
          let (_, sound, config) = all h in
          let (bans, fails) = sound (new_valid, record { unique = tt; each = tt }) in
          record {
            bans = bans;
            fails = fails;
            tracked = λ k current.
                let (before, held) = (all k).0 (
                  ap (λ d. current_in (handled outside j es).db d.name k) (sym config) ∙ current) in
                held (rw (listed db c.name k joined before) (ground arith));
          }
