-- ===== src/Web/Windows.antt =====
-- src/web/middleware.rs: the limiter against the record of all the requests that it has let through.
use rail2ban.Prelude.{
  ℕ, ◌≤◌, ◌≡◌, refl, sym, ap, ◌∙◌, inl, inr, Bool, true, false, Bool-cases, none, List, [], ◌∷◌,
  ◌++◌, Str, arith, length, retain, retain-append, retain-retain, if◌then◌else◌, ltb, leb, str_eq,
  str_eq_iff, str_eq_refl, unwrap_or,
}
use rail2ban.Prelude.Dict
use rail2ban.Prelude.Dict.{Unique, lookup-insert, insert-Unique}
use rail2ban.Web.Limiter.{RateLimiter, new, recent, entry_or_default, check, sweep, cleanup}

-- A call of `check` for a key, or of `cleanup`, at an instant.
pub data Event : Type 0 where
  request : Str → ℕ → Event
  clean : ℕ → Event

abbrev pub time_of : Event → ℕ
time_of (request key now) = now
time_of (clean now) = now

abbrev pub Ordered : ℕ → List Event → Type 0
Ordered now [] = Unit
Ordered now (e ∷ es) = (now ≤ time_of e) × Ordered (time_of e) es

-- What the limiter answers.
unfoldable pub answers : RateLimiter → List Event → List Bool
unfolding check cleanup
answers l [] = []
answers l (request key now ∷ es) = let (next, ok) = check l key now in ok ∷ answers next es
answers l (clean now ∷ es) = answers (cleanup l now) es

-- The record of a key's requests that were let through, which is never pruned.
abbrev pub Record : Type 0
Record = Str → List ℕ

abbrev pub noted : Record → Str → ℕ → Record
noted log key now k = if str_eq key k then log k ++ now ∷ [] else log k

-- A request is let through when fewer than `max` of its key were in the window before it.
unfoldable pub expected : ℕ → ℕ → Record → List Event → List Bool
unfolding retain
expected max window log [] = []
expected max window log (clean now ∷ es) = expected max window log es
expected max window log (request key now ∷ es) =
    let ok = ltb (length (retain (recent window now) (log key))) max in
    ok ∷ expected max window (if ok then noted log key now else log) es

recent_later :
    (window now t x : ℕ) → now ≤ t → recent window t x ≡ true → recent window now x ≡ true
recent_later window now t x late h = ground arith

-- What is in a window after a pruning for an earlier one.
retain_pruned :
    (window now t : ℕ) (xs : List ℕ)
    → now ≤ t
    → retain (recent window t) (retain (recent window now) xs) ≡ retain (recent window t) xs
retain_pruned window now t xs late =
    retain-retain (recent window now) (recent window t) xs (λ x. recent_later window now t x late)

sweep-none :
    (p : ℕ → Bool) (k : Str) (m : List (Str × List ℕ))
    → Dict.lookup k m ≡ none
    → Dict.lookup k (sweep p m) ≡ none
unfolding Dict.lookup sweep
sweep-none p k [] h = refl
sweep-none p k ((j, v) ∷ m) h = ground (arith, sweep-none p k m)

sweep-Unique : (p : ℕ → Bool) (m : List (Str × List ℕ)) → Unique m → Unique (sweep p m)
unfolding sweep
sweep-Unique p [] u = tt
sweep-Unique p ((j, v) ∷ m) u = ground (arith, sweep-none p j m, sweep-Unique p m)

empty_of_length : (xs : List ℕ) → leb 1 (length xs) ≡ false → xs ≡ []
empty_of_length [] h = refl
empty_of_length (x ∷ xs) h = absurd (ground arith)

lookup-sweep :
    (p : ℕ → Bool) (k : Str) (m : List (Str × List ℕ))
    → Unique m
    → unwrap_or (Dict.lookup k (sweep p m)) [] ≡ retain p (unwrap_or (Dict.lookup k m) [])
unfolding Dict.lookup sweep retain
lookup-sweep p k [] u = refl
lookup-sweep p k ((j, v) ∷ m) u =
    ground
      (arith, str_eq_iff j k, lookup-sweep p k m, sweep-none p j m, empty_of_length (retain p v))

-- From `now` on, every window shows the same requests in the limiter and in the record.
abbrev Agrees : ℕ → RateLimiter → Record → Type 0
Agrees now l log =
    (k : Str) (t : ℕ)
    → now ≤ t
    → retain (recent l.window t) (entry_or_default k l) ≡ retain (recent l.window t) (log k)

Agrees-cleanup :
    (l : RateLimiter) (log : Record) (before now : ℕ)
    → Unique l.inner
    → before ≤ now
    → Agrees before l log
    → Agrees now (cleanup l now) log
unfolding cleanup
Agrees-cleanup l log before now u order a k t late =
    ap (retain (recent l.window t)) (lookup-sweep (recent l.window now) k l.inner u)
    ∙ retain_pruned l.window now t (entry_or_default k l) late
    ∙ a k t (omega arith)

Agrees-insert :
    (l : RateLimiter) (log next : Record) (key : Str) (v : List ℕ) (before now : ℕ)
    → before ≤ now
    → Agrees before l log
    → ((t : ℕ) → now ≤ t → retain (recent l.window t) v ≡ retain (recent l.window t) (next key))
    → ((k : Str) → str_eq key k ≡ false → next k ≡ log k)
    → Agrees now (record l { inner = Dict.insert key v l.inner }) next
Agrees-insert l log next key v before now order a here others k t late =
    elim (Bool-cases (str_eq key k)) [
      | inl c ↦
          rw (lookup-insert, c)
            (here t late ∙ ap (λ j. retain (recent l.window t) (next j)) ((str_eq_iff key k).0 c))
      | inr c ↦ rw (lookup-insert, c, others k c) (a k t (omega arith))
    ]

noted_self : (log : Record) (key : Str) (now : ℕ) → log key ++ now ∷ [] ≡ noted log key now key
noted_self log key now = rw (str_eq_refl) refl

cleanup-Unique : (l : RateLimiter) (now : ℕ) → Unique l.inner → Unique (cleanup l now).inner
unfolding cleanup
cleanup-Unique l now u = sweep-Unique (recent l.window now) l.inner u

check-Unique :
    (l : RateLimiter) (key : Str) (now : ℕ) → Unique l.inner → Unique (check l key now).0.inner
unfolding check
check-Unique l key now u =
    elim (Bool-cases
      (leb l.max_requests (length (retain (recent l.window now) (entry_or_default key l))))) [
        | inl c ↦ rw c (insert-Unique key _ l.inner u)
        | inr c ↦ rw c (insert-Unique key _ l.inner u)
      ]

-- Its limits stay.
check-limits :
    (l : RateLimiter) (key : Str) (now : ℕ)
    → ((check l key now).0.max_requests ≡ l.max_requests) × ((check l key now).0.window ≡ l.window)
unfolding check
check-limits l key now = ground arith

-- One request: the entry that the limiter reads is the record's window.
check_as_recorded :
    (l : RateLimiter) (log : Record) (key : Str) (before now : ℕ)
    → before ≤ now
    → Agrees before l log
    → (check l key now).1 ≡ ltb (length (retain (recent l.window now) (log key))) l.max_requests
unfolding check
check_as_recorded l log key before now order a = ground (arith, a key now order)

Agrees-check :
    (l : RateLimiter) (log : Record) (key : Str) (before now : ℕ)
    → before ≤ now
    → Agrees before l log
    → Agrees now (check l key now).0 (if (check l key now).1 then noted log key now else log)
unfolding check
Agrees-check l log key before now order a =
    let entry : List ℕ = retain (recent l.window now) (entry_or_default key l) in
    let pruned : (t : ℕ)
        → now ≤ t
        → retain (recent l.window t) entry ≡ retain (recent l.window t) (log key) =
      λ t late.
        retain_pruned l.window now t (entry_or_default key l) late ∙ a key t (omega arith) in
    elim (Bool-cases (leb l.max_requests (length entry))) [
      | inl c ↦ rw c (Agrees-insert l log log key entry before now order a pruned (λ k _. refl))
      | inr c ↦ rw c (
          Agrees-insert l log (noted log key now) key (entry ++ now ∷ []) before now order a
            (λ t late.
              retain-append (recent l.window t) entry (now ∷ [])
              ∙ ap (λ xs. xs ++ retain (recent l.window t) (now ∷ [])) (pruned t late)
              ∙ sym (retain-append (recent l.window t) (log key) (now ∷ []))
              ∙ ap (retain (recent l.window t)) (noted_self log key now))
            (λ k other. rw other refl))
    ]

answers-expected :
    (es : List Event) (l : RateLimiter) (log : Record) (now : ℕ)
    → Ordered now es
    → Unique l.inner
    → Agrees now l log
    → answers l es ≡ expected l.max_requests l.window log es
unfolding answers expected
answers-expected [] l log now o u a = refl
answers-expected (clean t ∷ es) l log now o u a =
    answers-expected es (cleanup l t) log t o.1 (cleanup-Unique l t u)
      (Agrees-cleanup l log now t u o.0 a)
answers-expected (request key t ∷ es) l log now o u a =
    let same = check_as_recorded l log key now t o.0 a in
    let rest =
      answers-expected es (check l key t).0 _ t o.1 (check-Unique l key t u)
        (Agrees-check l log key now t o.0 a) in
    let (limit, window) = check-limits l key t in
    let known = rw (limit, window, same) at rest in
    ap (λ ok. ok ∷ answers (check l key t).0 es) same
    ∙ ap (λ bs. ltb (length (retain (recent l.window t) (log key))) l.max_requests ∷ bs) known

-- After any calls of `check` and `cleanup`, whose clock does not go back, the answers of a new
-- limiter are those of the rule that lets a request through when fewer than the limit of its key's
-- requests were let through in the window before it.
pub answers-new-expected :
    (max window now : ℕ) (es : List Event)
    → Ordered now es
    → answers (new max window) es ≡ expected max window (λ _. []) es
unfolding new Dict.lookup
answers-new-expected max window now es o =
    answers-expected es (new max window) (λ _. []) now o tt (λ k t late. refl)
