-- ===== src/FailManager/Permanent.antt =====
-- src/server/failmanager.rs: a window of negative length, which is what a permanent `findtime` becomes.
use rail2ban.Prelude.{
  ℕ, ◌≤◌, ◌≡◌, refl, ap, ◌∙◌, Bool, false, none, List, [], ◌∷◌, ◌++◌, inl, inr, Str, arith, length,
  Bool-cases, if◌then◌else◌, retain, str_eq, str_eq_iff, All, is_some, not, ◌&&◌, leb,
}
use rail2ban.Prelude.Dict
use rail2ban.Prelude.Int.{pos, ◌-ℤ◌, ◌≤ℤ◌, ◌<ℤ◌, int_laws, leb_ℤ→≤ℤ}
use rail2ban.Clock.{DateTime, seconds, as_u32, as_i64, u64_max}
use rail2ban.FailManager.{FailManager, new, host_of, add_failure}
use rail2ban.FailManager.Window.{
  Observation, at, since, times_of, observe, note, Ordered, times-add_failure, times_others,
  host_of_single, observe-config, is_some-add_failure,
}

-- Every failure that is held happened by the instant.
abbrev Past : DateTime → List DateTime → Type 0
Past t = All (λ x. x ≤ℤ t)

Past-later : (t u : DateTime) (xs : List DateTime) → t ≤ℤ u → Past t xs → Past u xs
Past-later t u [] h p = tt
Past-later t u (x ∷ xs) h p = (omega arith, Past-later t u xs h p.1)

since_none : (f : FailManager) (t x : DateTime) → f.findtime <ℤ pos 0 → x ≤ℤ t → since f t x ≡ false
since_none f t x back h = elim (Bool-cases (since f t x)) [
  | inl e ↦ absurd (omega (int_laws, leb_ℤ→≤ℤ (t -ℤ f.findtime) x e))
  | inr e ↦ e
]

retain-since :
    (f : FailManager) (t : DateTime) (xs : List DateTime)
    → f.findtime <ℤ pos 0
    → Past t xs
    → retain (since f t) xs ≡ []
unfolding retain
retain-since f t [] back p = refl
retain-since f t (x ∷ xs) back p = rw (since_none f t x back p.0) (retain-since f t xs back p.1)

-- A match leaves at most itself on the ticket of its host.
note_small : (o : Observation) → length (note o []) ≤ 1
note_small o = ground arith

Past-note : (o : Observation) → Past (at o) (note o [])
Past-note o = elim (Bool-cases o.0.mlfgained) [
  | inl e ↦ rw e tt
  | inr e ↦ rw e (elim (Bool-cases o.0.nofail) [ inl n ↦ rw n tt | inr n ↦ rw n (omega arith, tt) ])
]

times_step :
    (f : FailManager) (o : Observation)
    → f.findtime <ℤ pos 0
    → Past (at o) (times_of f (host_of f o.0))
    → times_of (add_failure f o.0 o.1).0 (host_of f o.0) ≡ note o []
times_step f o back p =
    times-add_failure f o ∙ ap (note o) (retain-since f (at o) (times_of f (host_of f o.0)) back p)

-- All tickets hold failures of the past only.
abbrev AllPast : FailManager → DateTime → Type 0
AllPast f t = (h : Str) → Past t (times_of f h)

add_failure-AllPast :
    (f : FailManager) (o : Observation) (t : DateTime)
    → f.findtime <ℤ pos 0
    → o.0.mlfid ≡ none
    → t ≤ℤ at o
    → AllPast f t
    → AllPast (add_failure f o.0 o.1).0 (at o)
add_failure-AllPast f o t back single later p h = elim (Bool-cases (str_eq o.0.host h)) [
  | inl own ↦
      let same : host_of f o.0 ≡ h = host_of_single f o.0 single ∙ (str_eq_iff o.0.host h).0 own in
      let step = times_step f o back (Past-later t (at o) _ later (p (host_of f o.0))) in
      rw (rw same at step) (Past-note o)
  | inr other ↦ rw (times_others f o h single other) (Past-later t (at o) _ later (p h))
]

observe-AllPast :
    (f : FailManager) (os : List Observation) (o : Observation) (t : DateTime)
    → f.findtime <ℤ pos 0
    → Ordered t (os ++ o ∷ [])
    → AllPast f t
    → AllPast (observe f os) (at o)
unfolding observe add_failure
observe-AllPast f [] o t back d p = λ h. Past-later t (at o) _ d.1 (p h)
observe-AllPast f (q ∷ os) o t back d p =
    observe-AllPast (add_failure f q.0 q.1).0 os o (at q) back d.2
      (add_failure-AllPast f q t back d.0 d.1 p)

-- With a permanent `findtime`, whose -1 reaches the manager as a window of minus one second, no match
-- is ever reported, if two failures or more are asked for: on matches of no MLFID that come in the
-- order of their instants, each failure is dropped before the next is counted.
pub observe_never_reports :
    (maxretry maxmatches : ℕ) (start : DateTime) (os : List Observation) (o : Observation)
    → 2 ≤ maxretry
    → Ordered start (os ++ o ∷ [])
    → (add_failure (observe (new maxretry (as_i64 u64_max) maxmatches) os) o.0 o.1).1 ≡ none
unfolding new as_i64 seconds Dict.lookup
observe_never_reports maxretry maxmatches start os o two d =
    let f0 = new maxretry (as_i64 u64_max) maxmatches in
    let f = observe f0 os in
    let (same, asked) = observe-config f0 os in
    let back : f.findtime <ℤ pos 0 = rw same (omega arith) in
    let past = observe-AllPast f0 os o start (omega arith) d (λ h. tt) in
    let held = times_step f o back (past (host_of f o.0)) in
    let unreported : is_some (add_failure f o.0 o.1).1 ≡ false =
      rw (is_some-add_failure f o, held, asked)
        (few o.0.mlfgained o.0.nofail maxretry _ two (note_small o)) in
    ground arith
  where
    few :
        (gained nofail : Bool) (maxretry n : ℕ)
        → 2 ≤ maxretry
        → n ≤ 1
        → (if gained then false else not nofail && leb maxretry (as_u32 n)) ≡ false
    few gained nofail maxretry n h k = ground arith
