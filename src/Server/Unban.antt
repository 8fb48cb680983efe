-- ===== src/Server/Unban.antt =====
-- src/server/server.rs and src/server/jail.rs: a host that the server unbans, to the end in the jails.
use rail2ban.Prelude.{
  ◌≡◌, refl, sym, ap, ◌∙◌, inl, inr, true, false, Bool-cases, some, Option-cases, List, [], ◌∷◌,
  ◌++◌, Str, str_eq,
}
use rail2ban.Prelude.Dict
use rail2ban.Prelude.Dict.{lookup-remove_self}
use rail2ban.BanManager.{is_banned, remove_ban}
use rail2ban.Jail.State.{Jail, Outside, Instants}
use rail2ban.Jail.Manual.{manual_unban}
use rail2ban.Jail.Task.{Event, handle, unban_ip}
use rail2ban.Jail.Keeps.{handled}
use rail2ban.Server.Restore.{events_of}
use rail2ban.Server.Jails.{JailHandle, Server, find_jail, get_jail, send, send_unban, unban_ip_all}

module _ {R N : Type 0} (outside : Outside R N) where
  is_banned-manual_unban :
      (j : Jail R N) (ip : Str) → is_banned (manual_unban outside j ip).ban_mgr ip ≡ false
  unfolding manual_unban is_banned remove_ban
  is_banned-manual_unban j ip = elim (Option-cases (Dict.lookup ip j.ban_mgr.bans)) [
    | inl c ↦ rw (c, lookup-remove_self) refl
    | inr (t, c) ↦ rw (c, lookup-remove_self) refl
  ]

  -- What is handled last.
  handled-last :
      (es : List (Event × Instants)) (before : List Event) (e : Event) (j : Jail R N)
      → events_of outside es ≡ before ++ e ∷ []
      → (k : Jail R N) × (at : Instants) × (handled outside j es ≡ handle outside k e at)
  unfolding handled
  handled-last [] [] e j h = absurd (cc h)
  handled-last [] (b ∷ before) e j h = absurd (cc h)
  handled-last ((x, at) ∷ es) (b ∷ before) e j h =
      handled-last es before e (handle outside j x at) (cc h)
  handled-last ((x, at) ∷ []) [] e j h = (j, at, ap (λ y. handle outside j y at) (cc h))
  handled-last ((x, at) ∷ (y, bt) ∷ es) [] e j h = absurd (cc h)

  find-send_unban :
      (ip name : Str) (hs : List (JailHandle R N)) (h : JailHandle R N)
      → find_jail name hs ≡ some h
      → is_banned h.jail.ban_mgr ip ≡ true
      → find_jail name (send_unban ip hs) ≡ some (send (unban_ip ip) h)
  unfolding find_jail send_unban
  find-send_unban ip name [] h e b = absurd (cc e)
  find-send_unban ip name (g ∷ hs) h e b = elim (Bool-cases (str_eq g.name name)) [
    | inl c ↦
        let same : some g ≡ some h = rw c at e in
        let own : g ≡ h = cc same in rw (own, b, rw own at c) refl
    | inr c ↦ elim (Bool-cases (is_banned g.jail.ban_mgr ip)) [
      | inl d ↦ rw (d, c) (find-send_unban ip name hs h (rw c at e) b)
      | inr d ↦ rw (d, c) (find-send_unban ip name hs h (rw c at e) b)
    ]
  ]

  -- A jail of the table that holds a host when the server unbans it does not hold it when its task has
  -- handled what was sent to it so far, whatever else was waiting there.
  pub unban_ip_all-lifts :
      (s : Server R N) (ip name : Str) (h k : JailHandle R N) (es : List (Event × Instants))
      → get_jail s name ≡ some h
      → is_banned h.jail.ban_mgr ip ≡ true
      → get_jail (unban_ip_all s ip).0 name ≡ some k
      → events_of outside es ≡ k.sent
      → is_banned (handled outside k.jail es).ban_mgr ip ≡ false
  unfolding get_jail unban_ip_all handle
  unban_ip_all-lifts s ip name h k es up held after all =
      let reached : some (send (unban_ip ip) h) ≡ some k =
        sym (find-send_unban ip name s.jails h up held) ∙ after in
      let same : k ≡ send (unban_ip ip) h = cc reached in
      let (j, at, e) = handled-last es h.sent (unban_ip ip) k.jail (rw same at all) in
      ap (λ x. is_banned x.ban_mgr ip) e ∙ is_banned-manual_unban j ip
