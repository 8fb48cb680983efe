-- ===== src/Filter/Buffer.antt =====
-- src/filter/mod.rs: the multi-line buffer against the last lines of a list.
use rail2ban.Prelude.{
  ℕ, zero, suc, ◌+◌, ◌-◌, ◌≤◌, ◌≡◌, refl, sym, ap, ◌∙◌, List, [], ◌∷◌, ◌++◌, inl, inr, Str, arith,
  Bool-cases, length, drop, length-append, length-drop, ltb, max, append_assoc, append-nil,
}
use rail2ban.Filter.{LineBuffer, new_buffer, evict, push}

-- The loop drops exactly the oldest lines that are too many.
evict-drop : (cap : ℕ) (ls : List Str) → evict cap ls ≡ drop (length ls - cap) ls
unfolding evict
evict-drop cap [] = ground arith
evict-drop cap (l ∷ ls) = elim (Bool-cases (ltb cap (length (l ∷ ls)))) [
  | inl over ↦
      let e : suc (length ls) - cap ≡ suc (length ls - cap) = ground arith in
      rw (over, e) (evict-drop cap ls)
  | inr fits ↦ rw fits (let e : suc (length ls) - cap ≡ 0 = ground arith in rw e refl)
]

drop-append : (n : ℕ) (xs ys : List Str) → n ≤ length xs → drop n (xs ++ ys) ≡ drop n xs ++ ys
drop-append zero xs ys h = refl
drop-append (suc n) [] ys h = absurd (omega arith)
drop-append (suc n) (x ∷ xs) ys h = drop-append n xs ys (omega arith)

abbrev no_lines : List Str
no_lines = []

drop-nil : (n : ℕ) → drop n no_lines ≡ no_lines
drop-nil zero = refl
drop-nil (suc n) = refl

drop-drop : (m n : ℕ) (xs : List Str) → drop m (drop n xs) ≡ drop (n + m) xs
drop-drop m zero xs = let e : 0 + m ≡ m = omega arith in rw e
drop-drop m (suc n) [] = drop-nil m ∙ sym (drop-nil (suc n + m))
drop-drop m (suc n) (x ∷ xs) =
    let e : suc n + m ≡ suc (n + m) = omega arith in rw e (drop-drop m n xs)

unfoldable pub push_all : LineBuffer → List Str → LineBuffer
push_all b [] = b
push_all b (l ∷ ls) = push_all (push b l) ls

-- The last `cap` lines of a list.
abbrev pub last_lines : ℕ → List Str → List Str
last_lines cap ls = drop (length ls - cap) ls

last_lines-append :
    (cap : ℕ) (xs ys : List Str)
    → last_lines cap (last_lines cap xs ++ ys) ≡ last_lines cap (xs ++ ys)
last_lines-append cap xs ys =
    let n = length xs - cap in
    let long = length-drop n xs in
    rw (← drop-append n xs ys (omega arith), drop-drop)
      (ap (λ k. drop k (xs ++ ys)) (omega (arith, length-append xs ys, length-drop n (xs ++ ys))))

push_all_from :
    (b : LineBuffer) (seen ls : List Str)
    → b.lines ≡ last_lines b.maxlines seen
    → ((push_all b ls).lines ≡ last_lines b.maxlines (seen ++ ls))
      × ((push_all b ls).maxlines ≡ b.maxlines)
unfolding push_all push
push_all_from b seen [] e = (e ∙ ap (last_lines b.maxlines) (sym (append-nil seen)), refl)
push_all_from b seen (l ∷ ls) e =
    let (lines, cap) = push_all_from (push b l) (seen ++ l ∷ []) ls (
      evict-drop b.maxlines (b.lines ++ l ∷ [])
      ∙ ap (λ x. last_lines b.maxlines (x ++ l ∷ [])) e
      ∙ last_lines-append b.maxlines seen (l ∷ [])) in
    (lines ∙ ap (last_lines b.maxlines) (append_assoc seen (l ∷ []) ls), cap)

-- A new buffer that lines are pushed into holds the last `maxlines` of them, in their order, and of a
-- `maxlines` of 0 the last one; so there are never more.
pub push_all-new :
    (maxlines : ℕ) (ls : List Str)
    → ((push_all (new_buffer maxlines) ls).lines ≡ last_lines (max maxlines 1) ls)
      × (length (push_all (new_buffer maxlines) ls).lines ≤ max maxlines 1)
unfolding new_buffer
push_all-new maxlines ls =
    let (lines, _) = push_all_from (new_buffer maxlines) [] ls (ground arith) in
    (lines, rw lines (omega (arith, length-drop (length ls - max maxlines 1) ls)))
