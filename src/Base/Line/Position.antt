-- ===== src/Base/Line/Position.antt =====
-- Where a byte offset falls: its line and its column.
use themelios.Prelude.{
  ℕ, suc, ◌+◌, ◌-◌, ◌^◌, ◌≤◌, ◌<◌, ◌≡◌, refl, sym, ap, ap₂, subst, ◌∙◌, true, false, [], ◌∷◌, ◌++◌,
  append_assoc, append-nil, some, ltb, leb, ◌==◌, arith, length, get_elem?, Bool-cases, inl, inr,
  ◌⊎◌, All, All-map, length-append, ==_iff, ok,
}
use themelios.Base.Source.{Chars, len_utf8, byte_len, Source, max_len}
use themelios.Base.Coordinate.{ColumnEncoding}
use themelios.Base.Line.{
  index_of, partition_point, wides_before, is_boundary, surplus_before_index, surplus_between,
  surplus_at, ends_by, last, take, position,
}
use themelios.Base.Line.Tables.{
  starts_from, units, extra, starts_from-append, byte_len-append, extra-append, units-extra,
  line_starts_lem, widths,
}
use themelios.Base.Line.Split.{
  partition_point-append, get_elem?-append_length, take-append_length, ends_by-last, table,
  tail_table, table-append, surplus_split, table-ends, partition_point-table, wide_table,
}

-- How many lines end in the text.
abbrev pub breaks : Chars → ℕ
breaks p = length (starts_from 0 p)

starts_from-within :
    (k : ℕ) (p : Chars) → All (λ s. (k < s) × (s ≤ k + byte_len p)) (starts_from k p)
starts_from-within k [] = tt
starts_from-within k (c ∷ p) =
    let rest : All (λ s. (k < s) × (s ≤ k + (len_utf8 c + byte_len p)))
        (starts_from (k + len_utf8 c) p) =
      All-map (starts_from (k + len_utf8 c) p) (λ s h. (omega (arith, h.0), omega (arith, h.1)))
        (starts_from-within (k + len_utf8 c) p) in
    elim (Bool-cases (c == 10)) [
      | inl break ↦ rw break ((omega arith, omega (arith, widths c)), rest)
      | inr inner ↦ rw inner rest
    ]

line_of :
    (p q : Chars)
    → partition_point (λ start. leb start (byte_len p)) (0 ∷ starts_from 0 (p ++ q))
      ≡ suc (breaks p)
line_of p q =
    ap (λ z. partition_point (λ start. leb start (byte_len p)) (0 ∷ z)) (starts_from-append 0 p q)
    ∙ partition_point-append (λ start. leb start (byte_len p)) (0 ∷ starts_from 0 p)
        (starts_from (0 + byte_len p) q)
        (
          ground arith,
          All-map (starts_from 0 p) (λ s h. ground (arith, h.1)) (starts_from-within 0 p),
        )
        (All-map (starts_from (0 + byte_len p) q) (λ s h. ground (arith, h.0))
          (starts_from-within (0 + byte_len p) q))

-- A text that ends at a line's start: it is empty or ends in a line break.
abbrev pub EndsLine : Chars → Type 0
EndsLine front = (front ≡ []) ⊎ ((f : Chars) × (front ≡ f ++ 10 ∷ []))

-- No line breaks.
abbrev pub OneLine : Chars → Type 0
OneLine = All (λ c. (c == 10) ≡ false)

pub starts_from-OneLine : (k : ℕ) (cur : Chars) → OneLine cur → starts_from k cur ≡ []
starts_from-OneLine k [] h = refl
starts_from-OneLine k (c ∷ cur) h = rw (h.0) (starts_from-OneLine (k + len_utf8 c) cur h.1)

-- A text is its whole lines and the beginning of one more.
pub lines_and_rest :
    (p : Chars)
    → (front : Chars) × (cur : Chars) × (p ≡ front ++ cur) × EndsLine front × OneLine cur
lines_and_rest [] = ([], [], refl, inl refl, tt)
lines_and_rest (c ∷ p) =
    let (front, cur, e, ends, one) = lines_and_rest p in
    elim ends [
      | inr (f, at) ↦ (c ∷ front, cur, ap (λ z. c ∷ z) e, inr (c ∷ f, ap (λ z. c ∷ z) at), one)
      | inl empty ↦ elim (Bool-cases (c == 10)) [
        | inl break ↦ (
          c ∷ [],
          cur,
          ap (λ z. c ∷ z) (e ∙ ap (λ f. f ++ cur) empty),
          inr ([], ap (λ z. z ∷ []) ((==_iff c 10).0 break)),
          one,
        )
        | inr inner ↦
            ([], c ∷ cur, ap (λ z. c ∷ z) (e ∙ ap (λ f. f ++ cur) empty), inl refl, (inner, one))
      ]
    ]

starts_break :
    (f r : Chars)
    → starts_from 0 ((f ++ 10 ∷ []) ++ r)
      ≡ starts_from 0 f ++ (byte_len f + 1) ∷ starts_from (byte_len f + 1) r
unfolding len_utf8
starts_break f r =
    ap (starts_from 0) (append_assoc f (10 ∷ []) r)
    ∙ starts_from-append 0 f (10 ∷ r)
    ∙ ap (λ z. starts_from 0 f ++ (z + 1) ∷ starts_from (z + 1) r) (omega arith)

breaks-break : (f : Chars) → breaks (f ++ 10 ∷ []) ≡ suc (breaks f)
breaks-break f =
    ap length (ap (starts_from 0) (sym (append-nil (f ++ 10 ∷ []))) ∙ starts_break f [])
    ∙ length-append (starts_from 0 f) ((byte_len f + 1) ∷ [])
    ∙ omega arith

byte_len-break : (f : Chars) → byte_len (f ++ 10 ∷ []) ≡ byte_len f + 1
unfolding len_utf8
byte_len-break f = byte_len-append f (10 ∷ [])

-- The last line start of whole lines is their end.
pub line_start :
    (front r : Chars)
    → EndsLine front
    → get_elem? (0 ∷ starts_from 0 (front ++ r)) (breaks front) ≡ some (byte_len front)
line_start front r (inl empty) =
    subst (λ z. get_elem? (0 ∷ starts_from 0 (z ++ r)) (breaks z) ≡ some (byte_len z)) (sym empty)
      refl
line_start front r (inr (f, at)) =
    subst (λ z. get_elem? (0 ∷ starts_from 0 (z ++ r)) (breaks z) ≡ some (byte_len z)) (sym at)
      (ap₂ (λ z n. get_elem? (0 ∷ z) n) (starts_break f r) (breaks-break f)
        ∙ get_elem?-append_length (starts_from 0 f)
            ((byte_len f + 1) ∷ starts_from (byte_len f + 1) r)
        ∙ ap some (sym (byte_len-break f)))

pub breaks-append_OneLine : (front cur : Chars) → OneLine cur → breaks (front ++ cur) ≡ breaks front
breaks-append_OneLine front cur h = ap length (
    starts_from-append 0 front cur
    ∙ ap (λ z. starts_from 0 front ++ z) (starts_from-OneLine (0 + byte_len front) cur h)
    ∙ append-nil (starts_from 0 front))

pub wides_before_lem :
    (s : Source) (p q : Chars)
    → s.text ≡ p ++ q
    → wides_before (index_of s) (byte_len p) ≡ length (table p)
unfolding wides_before
wides_before_lem s p q e =
    ap (partition_point (λ w. ltb w.offset (byte_len p))) (wide_table s (p ++ q) e)
    ∙ partition_point-table p q

pub surplus_lem :
    (s : Source) (e : ColumnEncoding) (p q : Chars)
    → s.text ≡ p ++ q
    → surplus_before_index (index_of s) (wides_before (index_of s) (byte_len p)) e ≡ extra e p
unfolding surplus_before_index
surplus_lem s e p q split =
    ap₂ (λ z n. surplus_at e z (get_elem? z n)) (wide_table s (p ++ q) split)
      (wides_before_lem s p q split)
    ∙ surplus_split e p q

pub boundary_lem :
    (s : Source) (p q : Chars) → s.text ≡ p ++ q → is_boundary (index_of s) (byte_len p) ≡ true
unfolding is_boundary
boundary_lem s p q e =
    ap₂ (λ n z. ends_by (byte_len p) (last (take n z))) (wides_before_lem s p q e)
      (wide_table s (p ++ q) e ∙ table-append p q)
    ∙ ap (λ z. ends_by (byte_len p) (last z)) (take-append_length (table p) (tail_table p q))
    ∙ ends_by-last (byte_len p) (table p) (table-ends p)

-- An admitted source is short enough for its offsets to be `u32`s.
abbrev pub IsAdmitted : Source → Type 0
IsAdmitted s = byte_len s.text ≤ max_len

pub len_lem : (s : Source) → IsAdmitted s → (index_of s).len ≡ byte_len s.text
unfolding index_of
len_lem s h = omega arith

breaks-le : (k : ℕ) (p : Chars) → length (starts_from k p) ≤ byte_len p
breaks-le k [] = omega arith
breaks-le k (c ∷ p) = ground (arith, breaks-le (k + len_utf8 c) p, widths c)

pub breaks_small :
    (s : Source) (p q : Chars) → IsAdmitted s → s.text ≡ p ++ q → breaks p + 1 < 2 ^ 32
breaks_small s p q h e = omega (arith, breaks-le 0 p, byte_len-append p q, ap byte_len e)

-- The line is the number of line breaks before the offset, and the column what the encoding counts
-- of the characters since the last.
pub position_lem :
    (s : Source) (front cur q : Chars) (e : ColumnEncoding)
    → IsAdmitted s
    → s.text ≡ (front ++ cur) ++ q
    → EndsLine front
    → OneLine cur
    → position (index_of s) (byte_len (front ++ cur)) e
      ≡ some (ok (record { line = breaks front; col = units e cur }))
unfolding position surplus_between
position_lem s front cur q e admitted split ends one =
    let p = front ++ cur in
    let inside : ltb (index_of s).len (byte_len p) ≡ false =
      ground (arith, len_lem s admitted, byte_len-append p q, ap byte_len split) in
    let line : partition_point (λ start. leb start (byte_len p)) (index_of s).line_starts - 1
        ≡ breaks front =
      ap (λ z. partition_point (λ start. leb start (byte_len p)) z - 1)
        (line_starts_lem s ∙ ap (λ t. 0 ∷ starts_from 0 t) split)
      ∙ ap (λ n. n - 1) (line_of p q)
      ∙ omega (arith, breaks-append_OneLine front cur one) in
    let start : get_elem? (index_of s).line_starts (breaks front) ≡ some (byte_len front) =
      ap (λ z. get_elem? z (breaks front))
        (line_starts_lem s ∙ ap (λ t. 0 ∷ starts_from 0 t) (split ∙ append_assoc front cur q))
      ∙ line_start front (cur ++ q) ends in
    let here = surplus_lem s e p q split in
    let there = surplus_lem s e front (cur ++ q) (split ∙ append_assoc front cur q) in
    rw (inside, boundary_lem s p q split, line, start, here, there)
      (ap₂ (λ a b. some (ok (record { line = a; col = b })))
        (omega (arith, breaks_small s front (cur ++ q) admitted (split ∙ append_assoc front cur q)))
        (omega (arith, byte_len-append front cur, extra-append e front cur, units-extra e cur)))
