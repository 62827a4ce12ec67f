-- ===== src/Base/Line/Consumed.antt =====
-- The wide characters of a line before a column, and the offset of the column.
use themelios.Prelude.{
  ℕ, ◌+◌, ◌-◌, ◌≤◌, ◌≡◌, refl, sym, ap, ◌∙◌, Bool, true, false, List, [], ◌∷◌, ◌++◌, append_assoc,
  ltb, arith, length, All, All-map, length-append, ok,
}
use themelios.Base.Source.{Chars, byte_len, Source}
use themelios.Base.Coordinate.{
  ColumnEncoding, utf8_bytes, code_points, utf16_units, WideChar, unit_len,
}
use themelios.Base.Line.{
  index_of, partition_point, wides_before, last, take, drop, offset_in, unit_col, straddles,
}
use themelios.Base.Line.Tables.{
  units, extra, byte_len-append, extra-append, units-append, units-extra, wide_from,
  wide_from-append,
}
use themelios.Base.Line.Columns.{wide_from-Columns, pick}
use themelios.Base.Line.Split.{
  partition_point-append, take-append_length, drop-append_length, table, tail_table, table-append,
  wide_table, pick-extra, extra-utf8,
}
use themelios.Base.Line.Position.{breaks, wides_before_lem, surplus_lem}

pick-append :
    (e : ColumnEncoding) (a b : ℕ) (p : Chars)
    → pick e (a + extra code_points p) (b + extra utf16_units p) ≡ pick e a b + extra e p
pick-append utf8_bytes a b p = omega (arith, extra-utf8 p)
pick-append code_points a b p = refl
pick-append utf16_units a b p = refl

-- The wide characters of `cur` after `front`, and those of `tail` after both, on either side of the
-- column between them.
module _ (e : ColumnEncoding) (front cur : Chars) where
  abbrev to_left : WideChar → Bool
  to_left w = ltb (unit_col (byte_len front) (extra e front) e w) (units e cur)

  columns_before :
      All
        (λ w. unit_col (byte_len front) (extra e front) e w + unit_len w e ≤ units e cur)
        (tail_table front cur)
  columns_before =
      All-map (tail_table front cur) (λ w h. omega (arith, h.1))
        (wide_from-Columns e (byte_len front) (extra e front) 0 0 (0 + byte_len front)
          (0 + extra code_points front) (0 + extra utf16_units front) cur (omega arith)
          (omega arith) (pick-extra e front ∙ omega arith))

  to_left_before : All (λ w. to_left w ≡ true) (tail_table front cur)
  to_left_before =
      All-map (tail_table front cur) (λ w h. ground (arith, h.1, h.2))
        (wide_from-Columns e (byte_len front) (extra e front) 0 0 (0 + byte_len front)
          (0 + extra code_points front) (0 + extra utf16_units front) cur (omega arith)
          (omega arith) (pick-extra e front ∙ omega arith))

  abbrev after_cur : Chars → List WideChar
  after_cur tail =
      wide_from ((0 + byte_len front) + byte_len cur)
        ((0 + extra code_points front) + extra code_points cur)
        ((0 + extra utf16_units front) + extra utf16_units cur) tail

  to_left_after : (tail : Chars) → All (λ w. to_left w ≡ false) (after_cur tail)
  to_left_after tail =
      All-map (after_cur tail) (λ w h. ground (arith, h.0, units-extra e cur))
        (wide_from-Columns e (byte_len front) (extra e front) (byte_len cur) (extra e cur)
          ((0 + byte_len front) + byte_len cur)
          ((0 + extra code_points front) + extra code_points cur)
          ((0 + extra utf16_units front) + extra utf16_units cur) tail
          (omega (arith, units-extra e cur)) (omega arith)
          (pick-append e (0 + extra code_points front) (0 + extra utf16_units front) cur
            ∙ ap (λ z. z + extra e cur) (pick-extra e front)))

  line_table :
      (tail : Chars) → tail_table front (cur ++ tail) ≡ tail_table front cur ++ after_cur tail
  line_table tail =
      wide_from-append (0 + byte_len front) (0 + extra code_points front)
        (0 + extra utf16_units front) cur tail

  consumed_lem :
      (tail : Chars)
      → partition_point to_left (tail_table front (cur ++ tail)) ≡ length (tail_table front cur)
  consumed_lem tail =
      ap (partition_point to_left) (line_table tail)
      ∙ partition_point-append to_left (tail_table front cur) (after_cur tail) to_left_before
          (to_left_after tail)

straddles-last :
    (start base : ℕ) (e : ColumnEncoding) (col : ℕ) (ws : List WideChar)
    → All (λ w. unit_col start base e w + unit_len w e ≤ col) ws
    → straddles start base e col (last ws) ≡ false
straddles-last start base e col [] h = refl
straddles-last start base e col (w ∷ []) h = ground (arith, h.0)
straddles-last start base e col (v ∷ w ∷ ws) h = straddles-last start base e col (w ∷ ws) h.1

-- The wide characters of a line, cut out of the whole table.
line_wide_lem :
    (s : Source) (front line rest : Chars)
    → s.text ≡ (front ++ line) ++ rest
    → take
        (wides_before (index_of s) (byte_len (front ++ line))
          - wides_before (index_of s) (byte_len front))
        (drop (wides_before (index_of s) (byte_len front)) (index_of s).wide)
      ≡ tail_table front line
line_wide_lem s front line rest split =
    let lo = wides_before_lem s front (line ++ rest) (split ∙ append_assoc front line rest) in
    let hi = wides_before_lem s (front ++ line) rest split in
    let wide : (index_of s).wide
        ≡ table front ++ (tail_table front line ++ tail_table (front ++ line) rest) =
      wide_table s ((front ++ line) ++ rest) split
      ∙ table-append (front ++ line) rest
      ∙ ap (λ z. z ++ tail_table (front ++ line) rest) (table-append front line)
      ∙ append_assoc (table front) (tail_table front line) (tail_table (front ++ line) rest) in
    let wides : length (table (front ++ line)) - length (table front)
        ≡ length (tail_table front line) =
      omega (
        arith,
        ap length (table-append front line),
        length-append (table front) (tail_table front line),
      ) in
    rw (lo, hi, wides, wide)
      (ap (take (length (tail_table front line))) (
          drop-append_length (table front)
            (tail_table front line ++ tail_table (front ++ line) rest))
        ∙ take-append_length (tail_table front line) (tail_table (front ++ line) rest))

-- The wide characters before the column are those before the offset.
wides_to :
    (s : Source) (front cur q : Chars)
    → s.text ≡ (front ++ cur) ++ q
    → wides_before (index_of s) (byte_len front) + length (tail_table front cur)
      ≡ wides_before (index_of s) (byte_len (front ++ cur))
wides_to s front cur q split = omega (
  arith,
  wides_before_lem s front (cur ++ q) (split ∙ append_assoc front cur q),
  wides_before_lem s (front ++ cur) q split,
  ap length (table-append front cur),
  length-append (table front) (tail_table front cur),
)

pub offset_in_lem :
    (s : Source) (front cur tail rest : Chars) (e : ColumnEncoding)
    → s.text ≡ (front ++ (cur ++ tail)) ++ rest
    → offset_in
        (index_of s)
        (record { line = breaks front; col = units e cur })
        e
        (record { start = byte_len front; end = byte_len (front ++ (cur ++ tail)) })
      ≡ ok (byte_len (front ++ cur))
unfolding offset_in
offset_in_lem s front cur tail rest e split =
    let line = cur ++ tail in
    let inner : s.text ≡ (front ++ cur) ++ (tail ++ rest) =
      split
      ∙ ap (λ z. z ++ rest) (sym (append_assoc front cur tail))
      ∙ append_assoc (front ++ cur) tail rest in
    let start = surplus_lem s e front (line ++ rest) (split ∙ append_assoc front line rest) in
    let end_ = surplus_lem s e (front ++ line) rest split in
    let here = surplus_lem s e (front ++ cur) (tail ++ rest) inner in
    let wide = line_wide_lem s front line rest split in
    let kept : take (length (tail_table front cur)) (tail_table front line) ≡ tail_table front cur =
      ap (take (length (tail_table front cur))) (line_table e front cur tail)
      ∙ take-append_length (tail_table front cur) (after_cur e front cur tail) in
    let max : ltb
          ((byte_len (front ++ line) - byte_len front) - (extra e (front ++ line) - extra e front))
          (units e cur)
        ≡ false =
      ground (
        arith,
        byte_len-append front line,
        extra-append e front line,
        units-extra e line,
        units-append e cur tail,
      ) in
    rw
      (
        wide,
        start,
        end_,
        consumed_lem e front cur tail,
        wides_to s front cur (tail ++ rest) inner,
        here,
        kept,
        max,
        straddles-last (byte_len front) (extra e front) e (units e cur) (tail_table front cur)
            (columns_before e front cur),
      )
      (ap ok
        (omega (arith, byte_len-append front cur, extra-append e front cur, units-extra e cur)))
