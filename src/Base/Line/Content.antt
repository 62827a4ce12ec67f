-- ===== src/Base/Line/Content.antt =====
-- The content of a line, without its line break.
use themelios.Prelude.{
  ℕ, suc, ◌+◌, ◌%◌, ◌^◌, ◌≡◌, refl, sym, ap, ap₂, subst, ◌∙◌, false, [], ◌∷◌, ◌++◌, append_assoc,
  append-nil, some, leb, ◌==◌, arith, length, get_elem?, Bool-cases, inl, inr, ◌⊎◌, length-append,
  ==_iff, ok,
}
use themelios.Base.Span.{covering}
use themelios.Base.Source.{Chars, byte_len, Source}
use themelios.Base.Line.{index_of, line_span, line_end}
use themelios.Base.Line.Tables.{starts_from, starts_from-append, byte_len-append, line_starts_lem}
use themelios.Base.Line.Split.{get_elem?-append_length}
use themelios.Base.Line.Position.{
  breaks, EndsLine, OneLine, line_start, breaks-append_OneLine, IsAdmitted, len_lem, breaks_small,
}

-- What follows a line's content: nothing, or its line break.
abbrev pub EndsContent : Chars → Type 0
EndsContent rest = (rest ≡ []) ⊎ ((r : Chars) × (rest ≡ 10 ∷ r))

-- A text is the rest of its first line and what follows.
pub first_line :
    (q : Chars)
    → (tail : Chars) × (rest : Chars) × (q ≡ tail ++ rest) × OneLine tail × EndsContent rest
first_line [] = ([], [], refl, tt, inl refl)
first_line (c ∷ q) = elim (Bool-cases (c == 10)) [
  | inl break ↦ ([], c ∷ q, refl, tt, inr (q, ap (λ z. z ∷ q) ((==_iff c 10).0 break)))
  | inr inner ↦
      let (tail, rest, e, one, ends) = first_line q in
      (c ∷ tail, rest, ap (λ z. c ∷ z) e, (inner, one), ends)
]

pub OneLine-append : (p q : Chars) → OneLine p → OneLine q → OneLine (p ++ q)
OneLine-append [] q hp hq = hq
OneLine-append (c ∷ p) q hp hq = (hp.0, OneLine-append p q hp.1 hq)

next_start :
    (len : ℕ) (p rest : Chars)
    → EndsContent rest
    → len ≡ byte_len (p ++ rest)
    → line_end len (get_elem? (starts_from (0 + byte_len p) rest) 0) ≡ byte_len p
next_start len p rest (inl empty) e =
    subst
      (λ r.
        len ≡ byte_len (p ++ r)
        → line_end len (get_elem? (starts_from (0 + byte_len p) r) 0) ≡ byte_len p)
      (sym empty) (λ e. e ∙ ap byte_len (append-nil p)) e
next_start len p rest (inr (r, at)) e =
    subst (λ r. line_end len (get_elem? (starts_from (0 + byte_len p) r) 0) ≡ byte_len p) (sym at)
      (omega arith)

-- The content of the line, between the whole lines before it and its line break.
pub line_span_lem :
    (s : Source) (front line rest : Chars)
    → IsAdmitted s
    → s.text ≡ (front ++ line) ++ rest
    → EndsLine front
    → OneLine line
    → EndsContent rest
    → line_span (index_of s) (breaks front)
      ≡ some (ok (record { start = byte_len front; end = byte_len (front ++ line) }))
unfolding line_span covering
line_span_lem s front line rest admitted split ends one content =
    let x = index_of s in
    let starts = line_starts_lem s ∙ ap (λ t. 0 ∷ starts_from 0 t) split in
    let parts = starts ∙ ap (λ z. 0 ∷ z) (starts_from-append 0 (front ++ line) rest) in
    let count : length x.line_starts
        ≡ suc (breaks front + length (starts_from (0 + byte_len (front ++ line)) rest)) =
      ap length parts
      ∙ ap suc (
          length-append (starts_from 0 (front ++ line))
            (starts_from (0 + byte_len (front ++ line)) rest)
          ∙ omega (arith, breaks-append_OneLine front line one)) in
    let start : get_elem? x.line_starts (breaks front) ≡ some (byte_len front) =
      ap (λ z. get_elem? z (breaks front))
        (starts ∙ ap (λ t. 0 ∷ starts_from 0 t) (append_assoc front line rest))
      ∙ line_start front (line ++ rest) ends in
    let after : breaks front + 1 ≡ suc (breaks (front ++ line)) =
      omega (arith, breaks-append_OneLine front line one) in
    let next : line_end x.len (get_elem? x.line_starts (breaks front + 1))
        ≡ byte_len (front ++ line) =
      ap₂ (λ z n. line_end x.len (get_elem? z n)) parts after
      ∙ ap (line_end x.len) (
          get_elem?-append_length (starts_from 0 (front ++ line))
            (starts_from (0 + byte_len (front ++ line)) rest))
      ∙ next_start x.len (front ++ line) rest content (len_lem s admitted ∙ ap byte_len split) in
    let known : leb (length x.line_starts % 2 ^ 32) (breaks front) ≡ false = ground (
      arith,
      count,
      breaks_small s s.text [] admitted (sym (append-nil s.text)),
      ap length (line_starts_lem s),
    ) in
    rw (known, start, next) (ground (arith, byte_len-append front line))
