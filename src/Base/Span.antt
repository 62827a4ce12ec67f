-- ===== src/Base/Span.antt =====
-- Byte offsets and spans (crates/themelios-base/src/span.rs). A `u32` is a number whose operations
-- are the checked ones of the source.
pub mod Regions
use themelios.Prelude.{
  ℕ, ◌+◌, ◌-◌, ◌^◌, ◌≤◌, min, max, Bool, ◌&&◌, if◌then◌else◌, ltb, leb, ◌==◌, Option, none, some,
  Result, ok, err,
}

abbrev pub ByteOffset : Type 0
ByteOffset = ℕ

-- The largest `u32`.
abbrev pub u32_max : ℕ
u32_max = 2 ^ 32 - 1

unfoldable pub checked_add : ByteOffset → ℕ → Option ByteOffset
checked_add a bytes = if leb (a + bytes) u32_max then some (a + bytes) else none

unfoldable pub checked_sub : ByteOffset → ℕ → Option ByteOffset
checked_sub a bytes = if leb bytes a then some (a - bytes) else none

pub record Span : Type 0 where
  pub start : ByteOffset
  pub end : ByteOffset

pub record EndBeforeStart : Type 0 where
  pub start : ByteOffset
  pub end : ByteOffset

-- The guarded invariant of a span.
abbrev pub IsOrdered : Span → Type 0
IsOrdered s = s.start ≤ s.end

-- `Span::new`.
unfoldable pub span_of : ByteOffset → ByteOffset → Result Span EndBeforeStart
span_of start end =
    if ltb end start
    then err (record { start = start; end = end })
    else ok (record { start = start; end = end })

abbrev pub empty_at : ByteOffset → Span
empty_at at = record { start = at; end = at }

unfoldable pub covering : ByteOffset → ByteOffset → Span
covering a b = if leb a b then record { start = a; end = b } else record { start = b; end = a }

abbrev pub span_len : Span → ℕ
span_len s = s.end - s.start

abbrev pub is_empty_span : Span → Bool
is_empty_span s = s.start == s.end

unfoldable pub contains_offset : Span → ByteOffset → Bool
contains_offset s offset = leb s.start offset && ltb offset s.end

unfoldable pub contains_span : Span → Span → Bool
contains_span s t = leb s.start t.start && leb t.end s.end

unfoldable pub intersect : Span → Span → Option Span
intersect s t =
    let start = max s.start t.start in
    let end = min s.end t.end in
    if leb start end then some (record { start = start; end = end }) else none

unfoldable pub join : Span → Span → Span
join s t = record { start = min s.start t.start; end = max s.end t.end }
