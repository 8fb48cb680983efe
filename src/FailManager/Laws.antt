-- ===== src/FailManager/Laws.antt =====
-- src/server/failmanager.rs: what every call keeps true of the tickets.
use rail2ban.Prelude.{
  ℕ, ◌≤◌, ◌≡◌, refl, sym, false, none, some, List, [], ◌∷◌, inl, inr, Str, arith, length,
  length-append, unwrap_or, Option-cases, ◌↔◌, ◌≢◌, if◌then◌else◌, any, str_eq_refl,
}
use rail2ban.Prelude.Int.{ℤ, leb_ℤ, ◌-ℤ◌}
use rail2ban.Prelude.Dict
use rail2ban.Prelude.Dict.{
  Unique, Each, insert-Unique, insert-Each, Each-lookup, remove-Unique, remove-Each, keep-Unique,
  keep-Each, lookup-insert, lookup-insert_ne, lookup-keep,
}
use rail2ban.Clock.{DateTime, as_u32}
use rail2ban.Filter.{MatchResult}
use rail2ban.FailManager.{
  FailTicket, FailManager, new, host_of, fresh_ticket, refresh, count_match, met_ticket,
  add_failure, forget_mlfid, remove, purge, count,
}

-- A ticket stands under its own host, and holds no more lines than are kept.
pub record Fits (maxmatches : ℕ) (k : Str) (t : FailTicket) : Type 0 where
  pub filed : t.host ≡ k
  pub capped : length t.matches ≤ maxmatches

pub record IsValid (f : FailManager) : Type 0 where
  pub unique : Unique f.tickets
  pub each : Each (Fits f.maxmatches) f.tickets

pub met_ticket-Fits :
    (f : FailManager) (m : MatchResult) (at : DateTime)
    → IsValid f
    → Fits f.maxmatches (host_of f m) (met_ticket f m at)
unfolding met_ticket fresh_ticket refresh
met_ticket-Fits f m at v = elim (Option-cases (Dict.lookup (host_of f m) f.tickets)) [
  | inl e ↦ rw e (record { filed = refl; capped = omega arith })
  | inr (t, e) ↦
      let fits = Each-lookup (Fits f.maxmatches) (host_of f m) f.tickets v.each e in
      rw e (record { filed = fits.filed; capped = fits.capped })
]

pub count_match-Fits :
    (f : FailManager) (m : MatchResult) (at : DateTime) (k : Str) (t : FailTicket)
    → Fits f.maxmatches k t
    → Fits f.maxmatches k (count_match f m at t).0
unfolding count_match
count_match-Fits f m at k t h = ground (arith, length-append t.matches (m.line ∷ []))

pub add_failure-IsValid :
    (f : FailManager) (m : MatchResult) (now : DateTime)
    → IsValid f
    → IsValid (add_failure f m now).0
unfolding add_failure
add_failure-IsValid f m now v = record {
  unique = insert-Unique _ _ f.tickets v.unique;
  each =
      insert-Each (Fits f.maxmatches) _ _ f.tickets
        (count_match-Fits f m _ (host_of f m) _ (met_ticket-Fits f m _ v)) v.each;
}

-- The calls that change a manager.
pub data Call : Type 0 where
  adds : MatchResult → DateTime → Call
  forgets removes : Str → Call
  purges : DateTime → Call

unfoldable pub apply : FailManager → Call → FailManager
apply f (adds m now) = (add_failure f m now).0
apply f (forgets id) = forget_mlfid f id
apply f (removes host) = (remove f host).0
apply f (purges now) = purge f now

unfoldable pub run : FailManager → List Call → FailManager
run f [] = f
run f (c ∷ cs) = run (apply f c) cs

pub apply-IsValid : (f : FailManager) (c : Call) → IsValid f → IsValid (apply f c)
unfolding apply forget_mlfid remove purge
apply-IsValid f (adds m now) v = add_failure-IsValid f m now v
apply-IsValid f (forgets id) v = record { unique = v.unique; each = v.each }
apply-IsValid f (removes host) v = record {
  unique = remove-Unique host f.tickets v.unique;
  each = remove-Each (Fits f.maxmatches) host f.tickets v.each;
}
apply-IsValid f (purges now) v = record {
  unique = keep-Unique _ f.tickets v.unique;
  each = keep-Each (Fits f.maxmatches) _ f.tickets v.each;
}

run_from-IsValid : (f : FailManager) (cs : List Call) → IsValid f → IsValid (run f cs)
unfolding run
run_from-IsValid f [] v = v
run_from-IsValid f (c ∷ cs) v = run_from-IsValid (apply f c) cs (apply-IsValid f c v)

-- After any sequence of calls on a new manager, each host has one ticket, which names that host and
-- holds at most `maxmatches` lines.
pub run-IsValid :
    (maxretry : ℕ) (findtime_secs : ℤ) (maxmatches : ℕ) (cs : List Call)
    → IsValid (run (new maxretry findtime_secs maxmatches) cs)
unfolding new
run-IsValid maxretry findtime_secs maxmatches cs =
    run_from-IsValid (new maxretry findtime_secs maxmatches) cs (record { unique = tt; each = tt })

-- A call of `add_failure` returns a ticket exactly if the match counts, is no success event, and
-- leaves `maxretry` failures (counted in 32 bits) on the ticket of its host; the returned ticket is
-- the stored one.
pub add_failure_promotes :
    (f : FailManager) (m : MatchResult) (now : DateTime) (t : FailTicket)
    → ((add_failure f m now).1 ≡ some t) ↔ (
        (m.mlfgained ≡ false)
        × (m.nofail ≡ false)
        × (Dict.lookup (host_of f m) (add_failure f m now).0.tickets ≡ some t)
        × (f.maxretry ≤ as_u32 (count t)))
unfolding add_failure count_match
add_failure_promotes f m now t = ground (
  arith,
  lookup-insert (host_of f m) (host_of f m)
      (count_match f m (unwrap_or m.timestamp now) (met_ticket f m (unwrap_or m.timestamp now))).0
      f.tickets,
  str_eq_refl (host_of f m),
)

-- No call of `add_failure` touches the ticket of another host.
pub add_failure_others :
    (f : FailManager) (m : MatchResult) (now : DateTime) (k : Str)
    → k ≢ host_of f m
    → Dict.lookup k (add_failure f m now).0.tickets ≡ Dict.lookup k f.tickets
unfolding add_failure
add_failure_others f m now k h = lookup-insert_ne (host_of f m) k _ f.tickets (λ e. h (sym e))

-- A purge drops exactly the tickets that have no failure in the window.
pub lookup-purge :
    (f : FailManager) (now : DateTime) (k : Str) {t : FailTicket}
    → IsValid f
    → Dict.lookup k f.tickets ≡ some t
    → Dict.lookup k (purge f now).tickets
      ≡ (if any (leb_ℤ (now -ℤ f.findtime)) t.times then some t else none)
unfolding purge
lookup-purge f now k v e =
    rw (lookup-keep (λ _ t. any (leb_ℤ (now -ℤ f.findtime)) t.times) k f.tickets v.unique, e)
