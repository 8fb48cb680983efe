-- ===== src/Jail/Whitelist.antt =====
-- src/server/jail.rs: what stands between a log line and a ban.
use rail2ban.Prelude.{
  ℕ, ◌≡◌, refl, sym, ap, ◌∙◌, Bool, true, false, ◌&&◌, ◌||◌, Option, none, some, ◌⊎◌, inl, inr, Str,
  arith, if◌then◌else◌, str_eq, str_eq_iff, or_option,
}
use mathlib.Core.Path.{subst}
use rail2ban.Prelude.Dict
use rail2ban.Prelude.Dict.{lookup-insert}
use rail2ban.Clock.{DateTime}
use rail2ban.Ip.{IpAddr, matches_ip, matches_raw}
use rail2ban.Filter.{MatchResult, LineBuffer, process_buffered}
use rail2ban.FailManager.{FailTicket, FailManager, add_failure, count_match, met_ticket, refresh}
use rail2ban.BanManager.{BanTicket, BanManager, ticket_from_fail, is_banned}
use rail2ban.BanManager
use rail2ban.Jail.State.{Jail, JailConfig, Outside, Instants}
use rail2ban.Jail.Ignore.{is_own_ip, check_ignorecommand, run_and_remember}
use rail2ban.Jail.Ban.{issue_ban}
use rail2ban.Jail.Tracked.{is_banned-add_ban}
use rail2ban.Jail.Line.{
  process_line, process_match, count_and_ban, screen, screen_addr, forget, resolved, unless_ignored,
  ban_reported, forget_context, count_resolved, process_result,
}

-- The metadata of a reported ticket holds what its match knows of the address.
add_failure-ip :
    (f : FailManager) (m : MatchResult) (now : DateTime) (t : FailTicket)
    → (add_failure f m now).1 ≡ some t
    → or_option t.ip m.ip ≡ t.ip
unfolding add_failure count_match met_ticket refresh
add_failure-ip f m now t e = ground arith

module _ {R N : Type 0} (outside : Outside R N) where
  open outside use {addressing}

  -- An address or a failure ID that neither ignoreself nor ignoreip covers.
  abbrev pub Exposed : JailConfig N → Option IpAddr → Str → Type 0
  Exposed c (some a) host =
      ((c.ignoreself && is_own_ip a) ≡ false) × (matches_ip addressing c.ignoreip a ≡ false)
  Exposed c none host = matches_raw addressing c.ignoreip host ≡ false

  -- What may become of the bans: nothing, or one ban of an exposed host that the ignorecommand leaves.
  abbrev Untouched : Jail R N → Jail R N → Type 0
  Untouched j k = (k.ban_mgr ≡ j.ban_mgr) × (k.db ≡ j.db)

  abbrev Issued : Jail R N → FailTicket → MatchResult → Option ℕ → Instants → Jail R N → Type 0
  Issued j t m secs at k =
      Exposed j.config t.ip t.host
      × (k.ban_mgr ≡ (BanManager.add_ban j.ban_mgr (ticket_from_fail t m secs at.banned)).0)

  abbrev Outcome : Jail R N → FailTicket → MatchResult → Option ℕ → Instants → Jail R N → Type 0
  Outcome j t m secs at k = Untouched j k ⊎ Issued j t m secs at k

  check_ignorecommand-frame :
      (j : Jail R N) (key : Str) (at : Instants)
      → ((check_ignorecommand outside j key at).0.ban_mgr ≡ j.ban_mgr)
        × ((check_ignorecommand outside j key at).0.db ≡ j.db)
  unfolding check_ignorecommand run_and_remember
  check_ignorecommand-frame j key at = ground arith

  asked :
      (j : Jail R N) (t : FailTicket) (m : MatchResult) (secs : Option ℕ) (at : Instants)
      (p : Jail R N × Bool)
      → Exposed j.config t.ip t.host
      → (p.0.ban_mgr ≡ j.ban_mgr) × (p.0.db ≡ j.db)
      → Outcome j t m secs at
          (unless_ignored outside t.host (λ j'. issue_ban outside j' t m secs at) p)
  unfolding forget issue_ban
  asked j t m secs at (k, true) exposed frame = inl frame
  asked j t m secs at (k, false) exposed frame = inr (exposed, rw (frame.0) refl)

  -- One test of the screen: where it passes, the bans stay.
  unless :
      (b : Bool) (j k : Jail R N) (t : FailTicket) (m : MatchResult) (secs : Option ℕ)
      (at : Instants)
      → (b ≡ false → Outcome j t m secs at k)
      → Outcome j t m secs at (if b then forget outside j t.host else k)
  unfolding forget
  unless true j k t m secs at rest = inl (refl, refl)
  unless false j k t m secs at rest = rest refl

  screen_outcome :
      (j : Jail R N) (t : FailTicket) (m : MatchResult) (secs : Option ℕ) (at : Instants)
      → Outcome j t m secs at (screen outside j t at (λ j'. issue_ban outside j' t m secs at))
  unfolding screen screen_addr
  screen_outcome j t m secs at = go t.ip (λ e. e)
    where
      k : Jail R N → Jail R N
      k j' = issue_ban outside j' t m secs at

      go :
          (o : Option IpAddr)
          → (Exposed j.config o t.host → Exposed j.config t.ip t.host)
          → Outcome j t m secs at (screen_addr outside j t.host at k o)
      go (some a) back = unless _ j _ t m secs at λ own.
          unless _ j _ t m secs at
            λ listed. asked j t m secs at _ (back (own, listed)) (check_ignorecommand-frame j _ at)
      go none back =
          unless _ j _ t m secs at
            λ listed. asked j t m secs at _ (back listed) (check_ignorecommand-frame j t.host at)

  -- A host that comes to be banned is exposed.
  abbrev pub Spared : Jail R N → Jail R N → Type 0
  Spared j k =
      (h : Str)
      → is_banned j.ban_mgr h ≡ false
      → is_banned k.ban_mgr h ≡ true
      → (t : BanTicket) × (Dict.lookup h k.ban_mgr.bans ≡ some t)
        × (t.host ≡ h)
        × Exposed j.config t.ip h

  Spared-same : (j k : Jail R N) → k.ban_mgr ≡ j.ban_mgr → Spared j k
  Spared-same j k same h before now = absurd (cc (before, now, ap (λ b. is_banned b h) same))

  Spared-Issued :
      (j k : Jail R N) (t : FailTicket) (m : MatchResult) (secs : Option ℕ) (at : Instants)
      → or_option t.ip m.ip ≡ t.ip
      → Issued j t m secs at k
      → Spared j k
  unfolding is_banned BanManager.add_ban ticket_from_fail
  Spared-Issued j k t m secs at known (exposed, made) h before now =
      let b = ticket_from_fail t m secs at.banned in
      let own : str_eq t.host h ≡ true =
        added (str_eq t.host h) (is_banned j.ban_mgr h) before
          (sym (is_banned-add_ban j.ban_mgr b h) ∙ ap (λ b. is_banned b h) (sym made) ∙ now) in
      let same = (str_eq_iff t.host h).0 own in
      (
        b,
        rw made (rw (lookup-insert, own)),
        same,
        rw known (subst (λ x. Exposed j.config t.ip x) same exposed),
      )
    where
      added : (a b : Bool) → b ≡ false → (a || b) ≡ true → a ≡ true
      added a b h e = ground arith

  ban_reported-Spared :
      (j : Jail R N) (m : MatchResult) (secs : Option ℕ) (at : Instants)
      (p : Jail R N × Option FailTicket)
      → ((t : FailTicket) → p.1 ≡ some t → or_option t.ip m.ip ≡ t.ip)
      → p.0.ban_mgr ≡ j.ban_mgr
      → p.0.config ≡ j.config
      → Spared j (ban_reported outside m secs at p)
  ban_reported-Spared j m secs at (k, none) known same config h before now =
      Spared-same j k same h before now
  ban_reported-Spared j m secs at (k, some t) known same config h before now =
      let end = screen outside k t at (λ j'. issue_ban outside j' t m secs at) in
      elim (screen_outcome k t m secs at) [
        | inl untouched ↦ Spared-same j end (untouched.0 ∙ same) h before now
        | inr issued ↦
            let (b, found, own, exposed) =
              Spared-Issued k end t m secs at (known t refl) issued h
                (ap (λ b. is_banned b h) same ∙ before) now in
            (b, found, own, subst (λ c. Exposed c b.ip h) config exposed)
      ]

  count_and_ban-Spared :
      (j : Jail R N) (m : MatchResult) (at : Instants) → Spared j (count_and_ban outside j m at)
  unfolding count_and_ban
  count_and_ban-Spared j m at =
      ban_reported-Spared j m _ at _ (add_failure-ip j.fail_mgr m at.seen) refl refl

  process_match-Spared :
      (j : Jail R N) (m : MatchResult) (at : Instants) → Spared j (process_match outside j m at)
  unfolding process_match
  process_match-Spared j m at =
      if-Spared m.mlfforget (forget_context outside j m.mlfid)
        (count_resolved outside j at (resolved outside j.config.usedns m)) (forgotten m.mlfid)
        (counted (resolved outside j.config.usedns m))
    where
      if-Spared :
          (b : Bool) (x y : Jail R N) → Spared j x → Spared j y → Spared j (if b then x else y)
      if-Spared true x y v w = v
      if-Spared false x y v w = w

      forgotten : (id : Option Str) → Spared j (forget_context outside j id)
      forgotten none = Spared-same j j refl
      forgotten (some id) = Spared-same j (forget_context outside j (some id)) refl

      counted : (o : Option MatchResult) → Spared j (count_resolved outside j at o)
      counted none = Spared-same j j refl
      counted (some m') = count_and_ban-Spared j m' at

  process_line-Spared :
      (j : Jail R N) (text : Str) (at : Instants) → Spared j (process_line outside j text at)
  unfolding process_line
  process_line-Spared j text at = go (process_buffered outside.engine j.filter j.line_buffer text)
    where
      go : (p : LineBuffer × Option MatchResult) → Spared j (process_result outside j at p)
      go (buf, none) = Spared-same j (record j { line_buffer = buf }) refl
      go (buf, some m) = process_match-Spared (record j { line_buffer = buf }) m at

  -- A host that is not banned before a log line and is banned after it has a ticket under its own name,
  -- whose address is not a loopback address (with ignoreself) and not in ignoreip, or, of a host with no
  -- address, whose host is not in ignoreip as a failure ID.
  pub process_line-Exposed :
      (j : Jail R N) (text : Str) (at : Instants) (h : Str)
      → is_banned j.ban_mgr h ≡ false
      → is_banned (process_line outside j text at).ban_mgr h ≡ true
      → (t : BanTicket) × (Dict.lookup h (process_line outside j text at).ban_mgr.bans ≡ some t)
        × (t.host ≡ h)
        × Exposed j.config t.ip h
  process_line-Exposed j text at h before now = process_line-Spared j text at h before now
