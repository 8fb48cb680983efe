-- ===== src/FailManager/Window.antt =====
-- src/server/failmanager.rs: the pruned ticket of a host against the unpruned record of its
-- failures. A run is a list of matches with the instants that they are observed at.
use rail2ban.Prelude.{
  ℕ, ◌≤◌, ◌<◌, ◌≡◌, ◌↔◌, refl, sym, ap, ◌∙◌, Bool, true, false, Option, none, some, List, [], ◌∷◌,
  ◌++◌, inl, inr, Str, arith, length, unwrap_or, Option-cases, Bool-cases, if◌then◌else◌, retain,
  retain-append, retain-retain, length-retain-le, str_eq, str_eq_iff, str_eq_refl, not, is_some,
  leb, ◌&&◌,
}
use rail2ban.Prelude.Dict
use rail2ban.Prelude.Dict.{lookup-insert, lookup-insert_self, lookup-insert_ne}
use rail2ban.Prelude.Int.{ℤ, pos, leb_ℤ, ◌-ℤ◌, ◌≤ℤ◌, int_laws, leb_ℤ→≤ℤ, ≤ℤ→leb_ℤ}
use rail2ban.Clock.{DateTime, seconds-nonneg, as_u32}
use rail2ban.Filter.{MatchResult}
use rail2ban.FailManager.{
  FailTicket, FailManager, new, host_of, fresh_ticket, refresh, count_match, met_ticket,
  add_failure,
}

abbrev pub Observation : Type 0
Observation = MatchResult × DateTime

-- The instant that a match is counted at.
abbrev pub at : Observation → DateTime
at o = unwrap_or o.0.timestamp o.1

abbrev pub since : FailManager → DateTime → DateTime → Bool
since f now = leb_ℤ (now -ℤ f.findtime)

abbrev pub times_or_empty : Option FailTicket → List DateTime
times_or_empty none = []
times_or_empty (some t) = t.times

-- The failure times that the manager holds for a host.
abbrev pub times_of : FailManager → Str → List DateTime
times_of f h = times_or_empty (Dict.lookup h f.tickets)

unfoldable pub observe : FailManager → List Observation → FailManager
observe f [] = f
observe f (o ∷ os) = observe (add_failure f o.0 o.1).0 os

-- The record that forgets no failure before a success event of the host.
abbrev pub note : Observation → List DateTime → List DateTime
note o log = if o.0.mlfgained then [] else if o.0.nofail then log else log ++ at o ∷ []

unfoldable pub failures : Str → List Observation → List DateTime → List DateTime
failures h [] log = log
failures h (o ∷ os) log = failures h os (if str_eq o.0.host h then note o log else log)

-- The instant of the last match of the host, `t` before any.
unfoldable pub last_match : Str → List Observation → DateTime → DateTime
last_match h [] t = t
last_match h (o ∷ os) t = last_match h os (if str_eq o.0.host h then at o else t)

-- Matches of no MLFID, in the order of their instants from `t` on.
abbrev pub Ordered : DateTime → List Observation → Type 0
Ordered t [] = Unit
Ordered t (o ∷ os) = (o.0.mlfid ≡ none) × (t ≤ℤ at o) × Ordered (at o) os

pub host_of_single : (f : FailManager) (m : MatchResult) → m.mlfid ≡ none → host_of f m ≡ m.host
unfolding host_of
host_of_single f m e = rw (e, host_of)

-- The window never excludes the instant that it ends at.
since_self : (f : FailManager) (t : DateTime) → pos 0 ≤ℤ f.findtime → since f t t ≡ true
since_self f t forward = ≤ℤ→leb_ℤ (t -ℤ f.findtime) t (omega int_laws)

-- A later window is narrower.
since_later :
    (f : FailManager) (t u : DateTime) (x : DateTime)
    → t ≤ℤ u
    → since f u x ≡ true
    → since f t x ≡ true
since_later f t u x later h =
    ≤ℤ→leb_ℤ (t -ℤ f.findtime) x (omega (int_laws, leb_ℤ→≤ℤ (u -ℤ f.findtime) x h))

times-met_ticket :
    (f : FailManager) (m : MatchResult) (t : DateTime)
    → (met_ticket f m t).times ≡ retain (since f t) (times_of f (host_of f m))
unfolding met_ticket refresh fresh_ticket
times-met_ticket f m t = elim (Option-cases (Dict.lookup (host_of f m) f.tickets)) [
  | inl e ↦ rw e
  | inr (k, e) ↦ rw e
]

times-count_match :
    (f : FailManager) (o : Observation) (t : FailTicket)
    → (count_match f o.0 (at o) t).0.times ≡ note o t.times
unfolding count_match
times-count_match f o t = ground arith

retain-note :
    (f : FailManager) (o : Observation) (log : List DateTime)
    → pos 0 ≤ℤ f.findtime
    → note o (retain (since f (at o)) log) ≡ retain (since f (at o)) (note o log)
unfolding retain
retain-note f o log forward =
    ground (arith, retain-append (since f (at o)) log (at o ∷ []), since_self f (at o) forward)

-- One match, as the window of its own host sees it.
pub times-add_failure :
    (f : FailManager) (o : Observation)
    → times_of (add_failure f o.0 o.1).0 (host_of f o.0)
      ≡ note o (retain (since f (at o)) (times_of f (host_of f o.0)))
unfolding add_failure
times-add_failure f o = rw (lookup-insert_self, times-count_match, times-met_ticket)

times_step :
    (f : FailManager) (o : Observation) (h : Str) (t : DateTime) (log : List DateTime)
    → o.0.mlfid ≡ none
    → t ≤ℤ at o
    → pos 0 ≤ℤ f.findtime
    → times_of f h ≡ retain (since f t) log
    → str_eq o.0.host h ≡ true
    → times_of (add_failure f o.0 o.1).0 h ≡ retain (since f (at o)) (note o log)
times_step f o h t log single later forward before own =
    let same : host_of f o.0 ≡ h = host_of_single f o.0 single ∙ (str_eq_iff o.0.host h).0 own in
    (rw same at (times-add_failure f o))
    ∙ ap (λ l. note o (retain (since f (at o)) l)) before
    ∙ ap (note o)
        (retain-retain (since f t) (since f (at o)) log (λ x. since_later f t (at o) x later))
    ∙ retain-note f o log forward

pub times_others :
    (f : FailManager) (o : Observation) (h : Str)
    → o.0.mlfid ≡ none
    → str_eq o.0.host h ≡ false
    → times_of (add_failure f o.0 o.1).0 h ≡ times_of f h
unfolding add_failure
times_others f o h single other = rw (
    lookup-insert_ne (host_of f o.0) h _ f.tickets
      (λ e. cc (other, (str_eq_iff o.0.host h).1 (sym (host_of_single f o.0 single) ∙ e))))

Ordered-earlier : (t u : DateTime) (os : List Observation) → t ≤ℤ u → Ordered u os → Ordered t os
Ordered-earlier t u [] h d = tt
Ordered-earlier t u (o ∷ os) h d = (d.0, omega arith, d.2)

observe_from-window :
    (f : FailManager) (os : List Observation) (h : Str) (t : DateTime) (log : List DateTime)
    → pos 0 ≤ℤ f.findtime
    → Ordered t os
    → times_of f h ≡ retain (since f t) log
    → times_of (observe f os) h ≡ retain (since f (last_match h os t)) (failures h os log)
unfolding observe last_match failures add_failure
observe_from-window f [] h t log forward d before = before
observe_from-window f (o ∷ os) h t log forward d before = elim (Bool-cases (str_eq o.0.host h)) [
  | inl own ↦ rw own (
      observe_from-window f' os h (at o) (note o log) forward d.2
        (times_step f o h t log d.0 d.1 forward before own))
  | inr other ↦ rw other (
      observe_from-window f' os h t log forward (Ordered-earlier t (at o) os d.1 d.2)
        (times_others f o h d.0 other ∙ before))
]
  where
    f' : FailManager
    f' = (add_failure f o.0 o.1).0

-- On matches of no MLFID that come in the order of their instants, a new manager with a window that
-- is not negative holds for each host exactly those failures since its last success event that lie
-- in the window that ends at its last match.
pub observe-window :
    (maxretry maxmatches : ℕ) (findtime_secs : ℤ) (start : DateTime) (os : List Observation)
    (h : Str)
    → pos 0 ≤ℤ findtime_secs
    → Ordered start os
    → times_of (observe (new maxretry findtime_secs maxmatches) os) h
      ≡ retain
          (since (new maxretry findtime_secs maxmatches) (last_match h os start))
          (failures h os [])
unfolding new retain Dict.lookup
observe-window maxretry maxmatches findtime_secs start os h forward d =
    observe_from-window (new maxretry findtime_secs maxmatches) os h start []
      (seconds-nonneg _ forward) d refl

pub observe-config :
    (f : FailManager) (os : List Observation)
    → ((observe f os).findtime ≡ f.findtime) × ((observe f os).maxretry ≡ f.maxretry)
unfolding observe add_failure
observe-config f [] = (refl, refl)
observe-config f (o ∷ os) = observe-config (add_failure f o.0 o.1).0 os

observe-append :
    (f : FailManager) (os : List Observation) (o : Observation)
    → observe f (os ++ o ∷ []) ≡ (add_failure (observe f os) o.0 o.1).0
unfolding observe
observe-append f [] o = refl
observe-append f (p ∷ os) o = observe-append (add_failure f p.0 p.1).0 os o

last_match-append :
    (os : List Observation) (o : Observation) (t : DateTime)
    → last_match o.0.host (os ++ o ∷ []) t ≡ at o
unfolding last_match
last_match-append [] o t = rw str_eq_refl
last_match-append (p ∷ os) o t = last_match-append os o _

pub Ordered-append :
    (os : List Observation) (o : Observation) (t : DateTime)
    → Ordered t (os ++ o ∷ [])
    → o.0.mlfid ≡ none
Ordered-append [] o t d = d.0
Ordered-append (p ∷ os) o t d = Ordered-append os o (at p) d.2

-- A report depends on the flags of the match and on the failures held after it.
pub is_some-add_failure :
    (f : FailManager) (o : Observation)
    → is_some (add_failure f o.0 o.1).1 ≡ (
        if o.0.mlfgained
        then false
        else not o.0.nofail
          && leb f.maxretry (as_u32 (length (times_of (add_failure f o.0 o.1).0 (host_of f o.0)))))
unfolding add_failure count_match
is_some-add_failure f o = rw lookup-insert_self (ground arith)

reports_iff :
    (gained nofail : Bool) (maxretry n : ℕ)
    → n < 4294967296
    → ((if gained then false else not nofail && leb maxretry (as_u32 n)) ≡ true)
      ↔ ((gained ≡ false) × (nofail ≡ false) × (maxretry ≤ n))
reports_iff gained nofail maxretry n h = ground arith

-- So the match that comes next is reported exactly if it counts and, with it, `maxretry` failures of
-- its host lie in the window: the pruning loses none that matter. (The count is below 2^32.)
pub observe_reports :
    (maxretry maxmatches : ℕ) (findtime_secs : ℤ) (start : DateTime) (os : List Observation)
    (o : Observation)
    → pos 0 ≤ℤ findtime_secs
    → Ordered start (os ++ o ∷ [])
    → length (failures o.0.host (os ++ o ∷ []) []) < 4294967296
    → (is_some (add_failure (observe (new maxretry findtime_secs maxmatches) os) o.0 o.1).1 ≡ true)
      ↔ ((o.0.mlfgained ≡ false)
          × (o.0.nofail ≡ false)
          × (maxretry
              ≤ length (
                  retain
                    (since (new maxretry findtime_secs maxmatches) (at o))
                    (failures o.0.host (os ++ o ∷ []) []))))
unfolding new
observe_reports maxretry maxmatches findtime_secs start os o forward d small =
    let f0 = new maxretry findtime_secs maxmatches in
    let f = observe f0 os in
    let own = host_of_single f o.0 (Ordered-append os o start d) in
    let held =
      ap (λ g. times_of g o.0.host) (sym (observe-append f0 os o))
      ∙ observe-window maxretry maxmatches findtime_secs start (os ++ o ∷ []) o.0.host forward d in
    rw (is_some-add_failure f o, own, held, last_match-append, (observe-config f0 os).1)
      (reports_iff o.0.mlfgained o.0.nofail maxretry _
        (omega (arith, length-retain-le (since f0 (at o)) (failures o.0.host (os ++ o ∷ []) []))))
