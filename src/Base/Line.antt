-- ===== src/Base/Line.antt =====
-- The line index (crates/themelios-base/src/line.rs). `partition_point`, a binary search on a list
-- that the test splits, is the length of the prefix that passes it.
pub mod Tables
pub mod Split
pub mod Position
pub mod Columns
pub mod Content
pub mod Consumed
pub mod RoundTrip
pub mod Refusals
use themelios.Prelude.{
  ℕ, zero, suc, ◌+◌, ◌-◌, ◌%◌, ◌^◌, Bool, true, false, not, if◌then◌else◌, List, [], ◌∷◌, ◌++◌,
  Option, none, some, ltb, leb, ◌==◌, Result, ok, err, length, get_elem?,
}
use themelios.Base.Span.{ByteOffset, Span, covering, span_len}
use themelios.Base.Source.{
  Char, Chars, len_utf8, len_utf16, byte_len, Source, source_end, NotCharBoundary,
}
use themelios.Base.Coordinate.{
  LineCol, ColumnEncoding, utf8_bytes, code_points, utf16_units, PositionRefusal, LineOutOfBounds,
  OffsetRefusal, WideChar, unit_len, surplus, surplus_before,
}

pub record LineIndex : Type 0 where
  pub line_starts : List ByteOffset
  pub wide : List WideChar
  pub len : ℕ

-- The variables of the loop of `LineIndex::of`.
pub record Scan : Type 0 where
  pub offset : ByteOffset
  pub line_starts : List ByteOffset
  pub wide : List WideChar
  pub cp_before : ℕ
  pub utf16_before : ℕ

abbrev pub wide_at : Scan → Char → WideChar
wide_at s c = record {
  offset = s.offset;
  byte_len = len_utf8 c;
  utf16_len = len_utf16 c;
  cp_before = s.cp_before;
  utf16_before = s.utf16_before;
}

abbrev pub scan_line : Scan → Char → Scan
scan_line s c =
    if c == 10 then record s { line_starts = s.line_starts ++ (s.offset + 1) ∷ [] } else s

-- `is_ascii` is below 128.
abbrev pub scan_wide : Scan → Char → Scan
scan_wide s c = if ltb c 128 then s else record s {
  cp_before = s.cp_before + surplus (wide_at s c) code_points;
  utf16_before = s.utf16_before + surplus (wide_at s c) utf16_units;
  wide = s.wide ++ wide_at s c ∷ [];
}

abbrev pub scan_char : Scan → Char → Scan
scan_char s c = let t = scan_wide (scan_line s c) c in record t { offset = s.offset + len_utf8 c }

unfoldable pub scan : Scan → Chars → Scan
scan s [] = s
scan s (c ∷ cs) = scan (scan_char s c) cs

abbrev pub scan_start : Scan
scan_start = record { offset = 0; line_starts = 0 ∷ []; wide = []; cp_before = 0; utf16_before = 0 }

-- `LineIndex::of`.
unfoldable pub index_of : Source → LineIndex
unfolding scan
index_of source =
    let s = scan scan_start source.text in
    record { line_starts = s.line_starts; wide = s.wide; len = source_end source }

abbrev pub line_count : LineIndex → ℕ
line_count x = length x.line_starts % 2 ^ 32

-- The end of a line's content, by the start of the next line.
abbrev pub line_end : ℕ → Option ByteOffset → ByteOffset
line_end len none = len
line_end len (some next_start) = next_start - 1

-- `none` is the panic of an index out of bounds.
abbrev pub line_from : LineIndex → ℕ → Option ByteOffset → Option (Result Span LineOutOfBounds)
line_from x line none = none
line_from x line (some start) =
    some (ok (covering start (line_end x.len (get_elem? x.line_starts (line + 1)))))

unfoldable pub line_span : LineIndex → ℕ → Option (Result Span LineOutOfBounds)
unfolding covering
line_span x line =
    if leb (line_count x) line
    then some (err (record { line = line; line_count = line_count x }))
    else line_from x line (get_elem? x.line_starts line)

unfoldable pub partition_point : {A : Type 0} → (A → Bool) → List A → ℕ
partition_point p [] = 0
partition_point p (x ∷ xs) = let rest = partition_point p xs in if p x then suc rest else 0

-- The wide characters that start before the offset.
unfoldable pub wides_before : LineIndex → ByteOffset → ℕ
unfolding partition_point
wides_before x to = partition_point (λ w. ltb w.offset to) x.wide

abbrev pub last : {A : Type 0} → List A → Option A
last [] = none
last (x ∷ []) = some x
last (x ∷ y ∷ ys) = last (y ∷ ys)

abbrev pub take : {A : Type 0} → ℕ → List A → List A
take zero xs = []
take (suc n) [] = []
take (suc n) (x ∷ xs) = x ∷ take n xs

abbrev pub drop : {A : Type 0} → ℕ → List A → List A
drop zero xs = xs
drop (suc n) [] = []
drop (suc n) (x ∷ xs) = drop n xs

abbrev pub ends_by : ByteOffset → Option WideChar → Bool
ends_by raw none = true
ends_by raw (some w) = leb (w.offset + w.byte_len) raw

-- `LineIndex::is_char_boundary`.
unfoldable pub is_boundary : LineIndex → ByteOffset → Bool
unfolding wides_before
is_boundary x raw = ends_by raw (last (take (wides_before x raw) x.wide))

abbrev pub surplus_through : ColumnEncoding → Option WideChar → ℕ
surplus_through encoding none = 0
surplus_through encoding (some w) = surplus_before w encoding + surplus w encoding

abbrev pub surplus_at : ColumnEncoding → List WideChar → Option WideChar → ℕ
surplus_at encoding wide none = surplus_through encoding (last wide)
surplus_at encoding wide (some w) = surplus_before w encoding

unfoldable pub surplus_before_index : LineIndex → ℕ → ColumnEncoding → ℕ
surplus_before_index x i encoding = surplus_at encoding x.wide (get_elem? x.wide i)

unfoldable pub surplus_between : LineIndex → ByteOffset → ByteOffset → ColumnEncoding → ℕ
unfolding wides_before surplus_before_index
surplus_between x from to encoding =
    surplus_before_index x (wides_before x to) encoding
    - surplus_before_index x (wides_before x from) encoding

abbrev pub coordinate :
    LineIndex → ByteOffset → ColumnEncoding → ℕ → Option ByteOffset → Option LineCol
coordinate x raw encoding line none = none
coordinate x raw encoding line (some line_start) = some (record {
  line = line % 2 ^ 32;
  col = (raw - line_start) - surplus_between x line_start raw encoding;
})

abbrev pub found : Option LineCol → Option (Result LineCol PositionRefusal)
found none = none
found (some at) = some (ok at)

-- `LineIndex::position`; `none` is the panic of an index out of bounds.
unfoldable pub position :
    LineIndex → ByteOffset → ColumnEncoding → Option (Result LineCol PositionRefusal)
unfolding is_boundary partition_point surplus_between
position x offset encoding =
    let line = partition_point (λ start. leb start offset) x.line_starts - 1 in
    if ltb x.len offset
    then some (err (PositionRefusal.out_of_bounds offset x.len))
    else if not (is_boundary x offset)
    then some (err (PositionRefusal.not_char_boundary (record { offset = offset })))
    else found (coordinate x offset encoding line (get_elem? x.line_starts line))

-- A wide character's column within its line.
abbrev pub unit_col : ByteOffset → ℕ → ColumnEncoding → WideChar → ℕ
unit_col line_start base encoding w = (w.offset - line_start) - (surplus_before w encoding - base)

abbrev pub straddles : ByteOffset → ℕ → ColumnEncoding → ℕ → Option WideChar → Bool
straddles line_start base encoding col none = false
straddles line_start base encoding col (some w) =
    ltb col (unit_col line_start base encoding w + unit_len w encoding)

-- `offset` within a line whose content is the span.
unfoldable pub offset_in :
    LineIndex → LineCol → ColumnEncoding → Span → Result ByteOffset OffsetRefusal
unfolding wides_before surplus_before_index partition_point
offset_in x pos encoding content =
    let line_start = content.start in
    let lo = wides_before x content.start in
    let hi = wides_before x content.end in
    let base = surplus_before_index x lo encoding in
    let line_wide = take (hi - lo) (drop lo x.wide) in
    let max = span_len content - (surplus_before_index x hi encoding - base) in
    let consumed =
      partition_point (λ w. ltb (unit_col line_start base encoding w) pos.col) line_wide in
    if ltb max pos.col
    then err (OffsetRefusal.column_out_of_bounds pos.line pos.col max)
    else if straddles line_start base encoding pos.col (last (take consumed line_wide))
    then err (OffsetRefusal.column_not_boundary pos.line pos.col)
    else ok (line_start + (pos.col + (surplus_before_index x (lo + consumed) encoding - base)))

abbrev pub offset_from :
    LineIndex
    → LineCol
    → ColumnEncoding
    → Option (Result Span LineOutOfBounds)
    → Option (Result ByteOffset OffsetRefusal)
offset_from x pos encoding none = none
offset_from x pos encoding (some (err refusal)) =
    some (err (OffsetRefusal.line_out_of_bounds refusal))
offset_from x pos encoding (some (ok content)) = some (offset_in x pos encoding content)

-- `LineIndex::offset`.
unfoldable pub offset :
    LineIndex → LineCol → ColumnEncoding → Option (Result ByteOffset OffsetRefusal)
unfolding line_span offset_in
offset x pos encoding = offset_from x pos encoding (line_span x pos.line)
