-- ===== src/Syntax/Extents/Loops.antt =====
-- The extents that the loops of comments and strings find.
use themelios.Prelude.{
  ℕ, ◌+◌, ◌-◌, ◌<◌, ◌≡◌, sym, subst, Bool, true, false, if◌then◌else◌, [], ◌∷◌, ◌==◌, ◌&&◌, arith,
  Bool-cases, inl, inr, is_some,
}
use themelios.Base.Source.{Char, Chars, len_utf8, byte_len}
use themelios.Syntax.Scan.{chars, find}
use themelios.Syntax.Quoted.{comment_loop, clingo_loop, asp_loop, is_escape}
use themelios.Syntax.Extents.{IsCut, len_utf8_ascii, IsCut-none, IsCut-all, IsCut-cons}

-- The token ends at `n`, in or after the text from the index `i` on.
abbrev pub Ends : Chars → ℕ → ℕ → Type 0
Ends cs i n = (m : ℕ) × (n ≡ i + m) × IsCut cs m

Ends-all : (cs : Chars) (i total : ℕ) → total ≡ i + byte_len cs → Ends cs i total
Ends-all cs i total e = (byte_len cs, e, IsCut-all cs)

Ends-here : (cs : Chars) (i : ℕ) → Ends cs i i
Ends-here cs i = (0, omega arith, IsCut-none cs)

Ends-cons : (c : Char) (cs : Chars) (i n : ℕ) → Ends cs (i + len_utf8 c) n → Ends (c ∷ cs) i n
Ends-cons c cs i n (m, e, cut) = (len_utf8 c + m, omega arith, IsCut-cons c cs m cut)

Ends-ascii : (c : Char) (cs : Chars) (i n : ℕ) → c < 128 → Ends cs (i + 1) n → Ends (c ∷ cs) i n
Ends-ascii c cs i n h ends =
    Ends-cons c cs i n (subst (λ z. Ends cs (i + z) n) (sym (len_utf8_ascii c h)) ends)

Ends-two :
    (c d : Char) (cs : Chars) (i n : ℕ)
    → c < 128
    → d < 128
    → Ends cs (i + 2) n
    → Ends (c ∷ d ∷ cs) i n
Ends-two c d cs i n h h' (m, e, cut) =
    Ends-ascii c (d ∷ cs) i n h (Ends-ascii d cs (i + 1) n h' (m, omega arith, cut))

pub comment_loop-Ends :
    (total depth : ℕ) (in_line : Bool) (i : ℕ) (cs : Chars)
    → total ≡ i + byte_len cs
    → Ends cs i (comment_loop total depth in_line i cs).1
unfolding comment_loop
comment_loop-Ends total depth in_line i [] e = Ends-all [] i total e
comment_loop-Ends total depth true i (c ∷ cs) e = Ends-cons c cs i _ (
    comment_loop-Ends total depth (if c == 10 then false else true) (i + len_utf8 c) cs
      (omega arith))
comment_loop-Ends total depth false i (c ∷ []) e = Ends-all (c ∷ []) i total e
comment_loop-Ends total depth false i (c ∷ d ∷ cs) e =
    let wide = len_utf8_ascii c in
    let wide' = len_utf8_ascii d in
    elim (Bool-cases (c == b'%' && d == b'*')) [
      | inl opens ↦
          rw (opens, comment_loop)
            (Ends-two c d cs i _ (ground (arith, opens)) (ground (arith, opens)) (
              comment_loop-Ends total (depth + 1) false (i + 2) cs
                (omega (arith, wide (ground (arith, opens)), wide' (ground (arith, opens))))))
      | inr no_open ↦ elim (Bool-cases (c == b'*' && d == b'%')) [
        | inl closes ↦ elim (Bool-cases (depth - 1 == 0)) [
          | inl outermost ↦
              rw (no_open, closes, outermost, comment_loop)
                (Ends-two c d cs i _ (ground (arith, closes)) (ground (arith, closes))
                  (Ends-here cs (i + 2)))
          | inr inner ↦
              rw (no_open, closes, inner, comment_loop)
                (Ends-two c d cs i _ (ground (arith, closes)) (ground (arith, closes)) (
                  comment_loop-Ends total (depth - 1) false (i + 2) cs
                    (omega (arith, wide (ground (arith, closes)), wide' (ground (arith, closes))))))
        ]
        | inr no_close ↦ elim (Bool-cases (c == b'%')) [
          | inl silent ↦
              rw (no_open, no_close, silent, comment_loop)
                (Ends-cons c (d ∷ cs) i _
                  (comment_loop-Ends total depth true (i + len_utf8 c) (d ∷ cs) (omega arith)))
          | inr other ↦
              rw (no_open, no_close, other, comment_loop)
                (Ends-cons c (d ∷ cs) i _
                  (comment_loop-Ends total depth false (i + len_utf8 c) (d ∷ cs) (omega arith)))
        ]
      ]
    ]

pub clingo_loop-Ends :
    (total : ℕ) (defective : Bool) (i : ℕ) (cs : Chars)
    → total ≡ i + byte_len cs
    → Ends cs i (clingo_loop total defective i cs).1
unfolding clingo_loop
clingo_loop-Ends total defective i [] e = Ends-all [] i total e
clingo_loop-Ends total defective i (c ∷ []) e = elim (Bool-cases (c == b'"')) [
  | inl quote ↦ rw quote (Ends-ascii c [] i (i + 1) (ground (arith, quote)) (Ends-here [] (i + 1)))
  | inr no_quote ↦ elim (Bool-cases (c == 10)) [
    | inl break ↦ rw (no_quote, break) (Ends-here (c ∷ []) i)
    | inr inner ↦ elim (Bool-cases (c == b'\\')) [
      | inl slash ↦
          rw (no_quote, inner, slash)
            (Ends-ascii c [] i (i + 1) (ground (arith, slash)) (Ends-here [] (i + 1)))
      | inr other ↦ rw (no_quote, inner, other) (Ends-all (c ∷ []) i total e)
    ]
  ]
]
clingo_loop-Ends total defective i (c ∷ d ∷ cs) e =
    let wide = len_utf8_ascii c in
    let wide' = len_utf8_ascii d in
    elim (Bool-cases (c == b'"')) [
      | inl quote ↦
          rw (quote, clingo_loop)
            (Ends-ascii c (d ∷ cs) i (i + 1) (ground (arith, quote)) (Ends-here (d ∷ cs) (i + 1)))
      | inr no_quote ↦ elim (Bool-cases (c == 10)) [
        | inl break ↦ rw (no_quote, break, clingo_loop) (Ends-here (c ∷ d ∷ cs) i)
        | inr inner ↦ elim (Bool-cases (c == b'\\')) [
          | inr other ↦
              rw (no_quote, inner, other, clingo_loop)
                (Ends-cons c (d ∷ cs) i _
                  (clingo_loop-Ends total defective (i + len_utf8 c) (d ∷ cs) (omega arith)))
          | inl slash ↦ elim (Bool-cases (is_escape d)) [
            | inl escape ↦
                rw (no_quote, inner, slash, escape, clingo_loop)
                  (Ends-two c d cs i _ (ground (arith, slash)) (ground (arith, escape)) (
                    clingo_loop-Ends total defective (i + 2) cs (
                      omega (arith, wide (ground (arith, slash)), wide' (ground (arith, escape))))))
            | inr bad ↦ elim (Bool-cases (d == 10)) [
              | inl cut ↦
                  rw (no_quote, inner, slash, bad, cut, clingo_loop)
                    (Ends-ascii c (d ∷ cs) i (i + 1) (ground (arith, slash))
                      (Ends-here (d ∷ cs) (i + 1)))
              | inr one ↦
                  rw (no_quote, inner, slash, bad, one, clingo_loop)
                    (let (m, at, cut) =
                        clingo_loop-Ends total true (i + (1 + len_utf8 d)) cs
                          (omega (arith, wide (ground (arith, slash)))) in
                      Ends-ascii c (d ∷ cs) i _ (ground (arith, slash))
                        (Ends-cons d cs (i + 1) _ (m, omega (arith, at), cut)))
            ]
          ]
        ]
      ]
    ]

pub asp_loop-Ends :
    (total i : ℕ) (cs : Chars) → total ≡ i + byte_len cs → Ends cs i (asp_loop total i cs).1
unfolding asp_loop
asp_loop-Ends total i [] e = Ends-all [] i total e
asp_loop-Ends total i (c ∷ []) e = elim (Bool-cases (c == b'"')) [
  | inl quote ↦ rw quote (Ends-ascii c [] i (i + 1) (ground (arith, quote)) (Ends-here [] (i + 1)))
  | inr other ↦ rw other (Ends-all (c ∷ []) i total e)
]
asp_loop-Ends total i (c ∷ d ∷ cs) e =
    let wide = len_utf8_ascii c in
    let wide' = len_utf8_ascii d in
    elim (Bool-cases (c == b'"')) [
      | inl quote ↦
          rw (quote, asp_loop)
            (Ends-ascii c (d ∷ cs) i (i + 1) (ground (arith, quote)) (Ends-here (d ∷ cs) (i + 1)))
      | inr no_quote ↦ elim (Bool-cases (c == b'\\' && d == b'"')) [
        | inr other ↦
            rw (no_quote, other, asp_loop)
              (Ends-cons c (d ∷ cs) i _
                (asp_loop-Ends total (i + len_utf8 c) (d ∷ cs) (omega arith)))
        | inl escape ↦ elim (Bool-cases (is_some (find (chars "\"") cs))) [
          | inl later ↦
              rw (no_quote, escape, later, asp_loop)
                (Ends-two c d cs i _ (ground (arith, escape)) (ground (arith, escape)) (
                  asp_loop-Ends total (i + 2) cs
                    (omega (arith, wide (ground (arith, escape)), wide' (ground (arith, escape))))))
          | inr last_ ↦
              rw (no_quote, escape, last_, asp_loop)
                (Ends-two c d cs i _ (ground (arith, escape)) (ground (arith, escape))
                  (Ends-here cs (i + 2)))
        ]
      ]
    ]
