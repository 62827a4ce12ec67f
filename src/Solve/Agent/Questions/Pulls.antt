-- ===== src/Solve/Agent/Questions/Pulls.antt =====
-- What a question hears of the caller's pulls.
use themelios.Prelude.{
  ℕ, suc, ◌+◌, ◌<◌, ◌≤◌, ◌^◌, ◌%◌, ◌≡◌, refl, ap, ◌∙◌, Bool, true, false, if◌then◌else◌, List, [],
  ◌∷◌, arith,
}
use themelios.Solve.Agent.Questions.{
  Questions, open_question, close_question, is_pulled, forward_held, pull_question, cancel,
}

-- What happens to the record while the question is asked and after: the caller's pulls, the core's
-- forwarding, and the question's end.
pub data Event : Type 0 where
  pulls forwards closes : Event

unfoldable pub happen : ℕ → Questions → List Event → Questions
happen g q [] = q
happen g q (pulls ∷ es) = happen g (pull_question q) es
happen g q (forwards ∷ es) = happen g (forward_held q g) es
happen g q (closes ∷ es) = happen g (close_question q g) es

-- A pull came before the question's end.
abbrev pub heard : Bool → List Event → Bool
heard h [] = h
heard h (pulls ∷ es) = heard true es
heard h (forwards ∷ es) = heard h es
heard h (closes ∷ es) = h

-- The signals that reach the primitive: each pull before the end, and each forwarding of one held.
abbrev pub sent : Bool → List Event → ℕ
sent h [] = 0
sent h (pulls ∷ es) = suc (sent true es)
sent h (forwards ∷ es) = if h then suc (sent h es) else sent h es
sent h (closes ∷ es) = 0

pull_idle : (q : Questions) → q.current % 2 ≡ 0 → pull_question q ≡ q
unfolding pull_question
pull_idle q even = ground arith

forward_idle : (q : Questions) (g : ℕ) → q.current ≡ g + 1 → forward_held q g ≡ q
unfolding forward_held
forward_idle q g at = ground arith

close_idle : (q : Questions) (g : ℕ) → q.current ≡ g + 1 → close_question q g ≡ q
unfolding close_question
close_idle q g at = ground arith

-- After the question's end, its record stands whatever happens.
idle : (g : ℕ) (q : Questions) (es : List Event) → g % 2 ≡ 1 → q.current ≡ g + 1 → happen g q es ≡ q
unfolding happen
idle g q [] odd at = refl
idle g q (pulls ∷ es) odd at =
    ap (λ z. happen g z es) (pull_idle q (omega arith)) ∙ idle g q es odd at
idle g q (forwards ∷ es) odd at = ap (λ z. happen g z es) (forward_idle q g at) ∙ idle g q es odd at
idle g q (closes ∷ es) odd at = ap (λ z. happen g z es) (close_idle q g at) ∙ idle g q es odd at

-- The signals that a primitive, where there is one, has of `n`.
abbrev pub signalled : Questions → ℕ → ℕ
signalled q n = if q.primitive then n else 0

abbrev Told : ℕ → Questions → Bool → List Event → Type 0
Told g q h es =
    (is_pulled (happen g q es) g ≡ heard h es)
    × ((happen g q es).signals ≡ q.signals + signalled q (sent h es))

pull_asked :
    (q : Questions) → q.current % 2 ≡ 1 → pull_question q ≡ cancel (record q { pulled = q.current })
unfolding pull_question
pull_asked q odd = ground arith

forward_asked :
    (q : Questions) (g : ℕ)
    → q.current ≡ g
    → forward_held q g ≡ (if is_pulled q g then cancel q else q)
unfolding forward_held is_pulled
forward_asked q g at = ground arith

close_asked :
    (q : Questions) (g : ℕ)
    → g + 1 < 2 ^ 64
    → q.current ≡ g
    → close_question q g ≡ record q { current = g + 1 }
unfolding close_question
close_asked q g small at = ground arith

told :
    (g : ℕ) (q : Questions) (h : Bool) (es : List Event)
    → g % 2 ≡ 1
    → g + 1 < 2 ^ 64
    → q.current ≡ g
    → is_pulled q g ≡ h
    → Told g q h es
unfolding happen is_pulled
told g q h [] odd small at p = (p, ground arith)
told g q h (pulls ∷ es) odd small at p =
    let (a, b) =
      told g (cancel (record q { pulled = q.current })) true es odd small at (ground arith) in
    let e = pull_asked q (omega arith) in
    (
      ap (λ z. is_pulled (happen g z es) g) e ∙ a,
      ap (λ z. (happen g z es).signals) e ∙ ground arith,
    )
told g q true (forwards ∷ es) odd small at p =
    let (a, b) = told g (cancel q) true es odd small at p in
    let e = forward_asked q g at ∙ ap (λ c. if c then cancel q else q) p in
    (
      ap (λ z. is_pulled (happen g z es) g) e ∙ a,
      ap (λ z. (happen g z es).signals) e ∙ ground arith,
    )
told g q false (forwards ∷ es) odd small at p =
    let (a, b) = told g q false es odd small at p in
    let e = forward_asked q g at ∙ ap (λ c. if c then cancel q else q) p in
    (ap (λ z. is_pulled (happen g z es) g) e ∙ a, ap (λ z. (happen g z es).signals) e ∙ b)
told g q h (closes ∷ es) odd small at p =
    let e =
      ap (λ z. happen g z es) (close_asked q g small at)
      ∙ idle g (record q { current = g + 1 }) es odd refl in
    (ap (λ z. is_pulled z g) e ∙ p, ap (λ z. z.signals) e ∙ ground arith)

opened :
    (q : Questions)
    → q.current + 3 < 2 ^ 64
    → q.pulled ≤ q.current
    → let (q', g) = open_question q in
      (g % 2 ≡ 1)
      × (g + 1 < 2 ^ 64)
      × (q'.current ≡ g)
      × (is_pulled q' g ≡ false)
      × (q'.signals ≡ q.signals)
      × (q'.primitive ≡ q.primitive)
unfolding open_question is_pulled
opened q small past = (ground arith, ground arith, refl, ground arith, refl, refl)

-- A question opened after the pulls of the earlier ones is heard to be pulled exactly where a pull
-- comes before its end, and a backend's primitive is signalled once for each such pull and for each
-- forwarding of one; below the end of the 64-bit generations.
pub happen-open_question :
    (q : Questions) (es : List Event)
    → q.current + 3 < 2 ^ 64
    → q.pulled ≤ q.current
    → let (q', g) = open_question q in
      (is_pulled (happen g q' es) g ≡ heard false es)
      × ((happen g q' es).signals ≡ q.signals + (if q.primitive then sent false es else 0))
unfolding open_question
happen-open_question q es small past =
    let (odd, room, at, unheard, same, _) = opened q small past in
    told _ (open_question q).0 false es odd room at unheard
