-- ===== src/Base/Coordinate.antt =====
-- Coordinates, column encodings, the refusals of the line index and its table's entries
-- (crates/themelios-base/src/line.rs).
use themelios.Prelude.{ℕ, ◌-◌}
use themelios.Base.Span.{ByteOffset}
use themelios.Base.Source.{NotCharBoundary}

pub record LineCol : Type 0 where
  pub line : ℕ
  pub col : ℕ

pub data ColumnEncoding : Type 0 where
  utf8_bytes code_points utf16_units : ColumnEncoding

pub data PositionRefusal : Type 0 where
  out_of_bounds : ByteOffset → ByteOffset → PositionRefusal
  not_char_boundary : NotCharBoundary → PositionRefusal

pub record LineOutOfBounds : Type 0 where
  pub line : ℕ
  pub line_count : ℕ

pub data OffsetRefusal : Type 0 where
  line_out_of_bounds : LineOutOfBounds → OffsetRefusal
  column_out_of_bounds : ℕ → ℕ → ℕ → OffsetRefusal
  column_not_boundary : ℕ → ℕ → OffsetRefusal

pub record WideChar : Type 0 where
  pub offset : ByteOffset
  pub byte_len : ℕ
  pub utf16_len : ℕ
  pub cp_before : ℕ
  pub utf16_before : ℕ

abbrev pub unit_len : WideChar → ColumnEncoding → ℕ
unit_len w utf8_bytes = w.byte_len
unit_len w code_points = 1
unit_len w utf16_units = w.utf16_len

abbrev pub surplus : WideChar → ColumnEncoding → ℕ
surplus w encoding = w.byte_len - unit_len w encoding

abbrev pub surplus_before : WideChar → ColumnEncoding → ℕ
surplus_before w utf8_bytes = 0
surplus_before w code_points = w.cp_before
surplus_before w utf16_units = w.utf16_before
