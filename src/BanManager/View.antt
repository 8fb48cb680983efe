-- ===== src/BanManager/View.antt =====
-- src/server/banmanager.rs: the manager as a map from hosts to tickets.
use rail2ban.Prelude.{
  ℕ, ◌+◌, ◌<◌, ◌≤◌, ◌≡◌, inl, inr, Option-cases, is_some, refl, ap, ◌∙◌, not, Option, none, some,
  List, [], ◌∷◌, Str, arith, if◌then◌else◌, str_eq, length,
}
use rail2ban.Prelude.Dict
use rail2ban.Prelude.Dict.{
  Unique, Each, lookup-insert, lookup-remove, lookup-keep, insert-Unique, remove-Unique,
  keep-Unique, insert-Each, remove-Each, keep-Each, filtered, length-insert, length-remove-le,
  length-keep-le,
}
use mathlib.Core.Path.{fun_ext}
use rail2ban.Clock.{DateTime, wrap_u64}
use rail2ban.BanManager.{
  BanTicket, BanManager, new, is_expired, add_ban, remove_ban, expired, clear,
}
use rail2ban.BanManager.Expiry.{expired-splits}

pub data Call : Type 0 where
  adds : BanTicket → Call
  removes : Str → Call
  expires_at : DateTime → Call
  clears : Call

unfoldable pub apply : BanManager → Call → BanManager
apply b (adds t) = (add_ban b t).0
apply b (removes host) = (remove_ban b host).0
apply b (expires_at now) = (expired b now).0
apply b clears = (clear b).0

unfoldable pub run : BanManager → List Call → BanManager
run b [] = b
run b (c ∷ cs) = run (apply b c) cs

-- Each host has one ticket, filed under its own name.
pub record IsValid (b : BanManager) : Type 0 where
  pub unique : Unique b.bans
  pub filed : Each (λ k t. t.host ≡ k) b.bans

pub add_ban-IsValid : (b : BanManager) (t : BanTicket) → IsValid b → IsValid (add_ban b t).0
unfolding add_ban
add_ban-IsValid b t v = record {
  unique = insert-Unique t.host t b.bans v.unique;
  filed = insert-Each (λ k t. t.host ≡ k) t.host t b.bans refl v.filed;
}

pub apply-IsValid : (b : BanManager) (c : Call) → IsValid b → IsValid (apply b c)
unfolding apply remove_ban clear
apply-IsValid b (adds t) v = add_ban-IsValid b t v
apply-IsValid b (removes host) v = record {
  unique = remove-Unique host b.bans v.unique;
  filed = remove-Each (λ k t. t.host ≡ k) host b.bans v.filed;
}
apply-IsValid b (expires_at now) v =
    let live = λ (k : Str) (t : BanTicket). not (is_expired t now) in
    let (kept, gone, total) = expired-splits b now v.unique in
    record {
      unique = rw kept (keep-Unique live b.bans v.unique);
      filed = rw kept (keep-Each (λ k t. t.host ≡ k) live b.bans v.filed);
    }
apply-IsValid b clears v = record { unique = tt; filed = tt }

-- What a manager promises: a map from hosts to tickets.
abbrev pub View : Type 0
View = Str → Option BanTicket

unfoldable pub view : BanManager → View
view b h = Dict.lookup h b.bans

unfoldable pub specified : View → Call → View
specified w (adds t) h = if str_eq t.host h then some t else w h
specified w (removes k) h = if str_eq k h then none else w h
specified w (expires_at now) h = filtered (λ _ t. not (is_expired t now)) h (w h)
specified w clears h = none

unfoldable pub specified_run : View → List Call → View
specified_run w [] = w
specified_run w (c ∷ cs) = specified_run (specified w c) cs

view-apply :
    (b : BanManager) (c : Call) (h : Str) → IsValid b → view (apply b c) h ≡ specified (view b) c h
unfolding view apply specified add_ban remove_ban clear Dict.lookup
view-apply b (adds t) h v = lookup-insert t.host h t b.bans
view-apply b (removes k) h v = lookup-remove k h b.bans
view-apply b (expires_at now) h v =
    rw (expired-splits b now v.unique).0
      (lookup-keep (λ _ t. not (is_expired t now)) h b.bans v.unique)
view-apply b clears h v = refl

-- The bans of a call that are new, on a map: those of hosts that it does not have.
unfoldable pub made : View → Call → ℕ
made w (adds t) = if is_some (w t.host) then 0 else 1
made w (removes k) = 0
made w (expires_at now) = 0
made w clears = 0

unfoldable pub made_by : View → List Call → ℕ
made_by w [] = 0
made_by w (c ∷ cs) = made w c + made_by (specified w c) cs

total-apply :
    (b : BanManager) (c : Call)
    → b.total_banned < 18446744073709551616
    → (apply b c).total_banned ≡ wrap_u64 (b.total_banned + made (view b) c)
unfolding apply view made add_ban remove_ban expired clear
total-apply b (adds t) l = elim (Option-cases (Dict.lookup t.host b.bans)) [
  | inl e ↦ ground arith
  | inr (x, e) ↦ ground arith
]
total-apply b (removes k) l = omega arith
total-apply b (expires_at now) l = omega arith
total-apply b clears l = omega arith

length-apply :
    (b : BanManager) (c : Call)
    → IsValid b
    → length (apply b c).bans ≤ length b.bans + made (view b) c
unfolding apply view made add_ban remove_ban clear
length-apply b (adds t) v = ground (arith, length-insert t.host t b.bans)
length-apply b (removes k) v = omega (arith, length-remove-le k b.bans)
length-apply b (expires_at now) v =
    rw (expired-splits b now v.unique).0
      (omega (arith, length-keep-le (λ (k : Str) (t : BanTicket). not (is_expired t now)) b.bans))
length-apply b clears v = omega arith

-- What holds of a run from a manager.
abbrev Refines : BanManager → List Call → Type 0
Refines b cs =
    ((h : Str) → view (run b cs) h ≡ specified_run (view b) cs h)
    × IsValid (run b cs)
    × ((run b cs).total_banned ≡ wrap_u64 (b.total_banned + made_by (view b) cs))
    × (length (run b cs).bans ≤ length b.bans + made_by (view b) cs)

Refines-run :
    (b : BanManager) (cs : List Call)
    → IsValid b
    → b.total_banned < 18446744073709551616
    → Refines b cs
unfolding run specified_run made_by
Refines-run b [] v l = (λ h. refl, v, omega arith, omega arith)
Refines-run b (c ∷ cs) v l =
    let total = total-apply b c l in
    let (seen, valid, count, few) =
      Refines-run (apply b c) cs (apply-IsValid b c v) (omega (arith, total)) in
    let same : view (apply b c) ≡ specified (view b) c = fun_ext (λ k. view-apply b c k v) in
    let rest : made_by (view (apply b c)) cs ≡ made_by (specified (view b) c) cs =
      ap (λ w. made_by w cs) same in
    (
      λ h. seen h ∙ ap (λ w. specified_run w cs h) same,
      valid,
      omega (arith, count, total, rest),
      omega (arith, few, rest, length-apply b c v),
    )

-- After any calls on a new manager, the bans are those of the abstract map after the same calls, each
-- host has one ticket under its own name, total_banned is the number of bans of the calls that were
-- new on that map, as 64 bits hold it, and no more bans are current than that number.
pub run-refines :
    (cs : List Call) (h : Str)
    → (view (run new cs) h ≡ specified_run (λ _. none) cs h)
      × IsValid (run new cs)
      × ((run new cs).total_banned ≡ wrap_u64 (made_by (λ _. none) cs))
      × (length (run new cs).bans ≤ made_by (λ _. none) cs)
unfolding new view Dict.lookup
run-refines cs h =
    let (seen, valid, count, few) =
      Refines-run new cs (record { unique = tt; filed = tt }) (omega arith) in
    (seen h, valid, omega (arith, count), omega (arith, few))
