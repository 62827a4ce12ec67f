-- ===== src/Base/Line/RoundTrip.antt =====
-- From a coordinate back to its byte offset.
use themelios.Prelude.{◌≡◌, sym, ap, ◌∙◌, ◌++◌, append_assoc, some, ok}
use themelios.Base.Source.{Chars, byte_len, Source}
use themelios.Base.Coordinate.{LineCol, ColumnEncoding}
use themelios.Base.Line.{index_of, position, offset}
use themelios.Base.Line.Tables.{units}
use themelios.Base.Line.Position.{
  breaks, EndsLine, OneLine, lines_and_rest, IsAdmitted, position_lem,
}
use themelios.Base.Line.Content.{EndsContent, first_line, OneLine-append, line_span_lem}
use themelios.Base.Line.Consumed.{offset_in_lem}

-- A coordinate of a character boundary has the boundary's offset.
offset_lem :
    (s : Source) (front cur tail rest : Chars) (e : ColumnEncoding)
    → IsAdmitted s
    → s.text ≡ (front ++ (cur ++ tail)) ++ rest
    → EndsLine front
    → OneLine (cur ++ tail)
    → EndsContent rest
    → offset (index_of s) (record { line = breaks front; col = units e cur }) e
      ≡ some (ok (byte_len (front ++ cur)))
unfolding offset
offset_lem s front cur tail rest e admitted split ends one content =
    rw (line_span_lem s front (cur ++ tail) rest admitted split ends one content)
      (ap some (offset_in_lem s front cur tail rest e split))

-- In an admitted source every character boundary, the end of the text included, has a coordinate in
-- each encoding, and that coordinate's offset is the boundary again.
pub offset-position :
    (s : Source) (p q : Chars) (e : ColumnEncoding)
    → IsAdmitted s
    → s.text ≡ p ++ q
    → (at : LineCol) × (position (index_of s) (byte_len p) e ≡ some (ok at))
      × (offset (index_of s) at e ≡ some (ok (byte_len p)))
offset-position s p q e admitted split =
    let (front, cur, whole, ends, one) = lines_and_rest p in
    let (tail, rest, after, one', content) = first_line q in
    let at : s.text ≡ (front ++ cur) ++ q = split ∙ ap (λ z. z ++ q) whole in
    let line : s.text ≡ (front ++ (cur ++ tail)) ++ rest =
      at
      ∙ ap (λ z. (front ++ cur) ++ z) after
      ∙ sym (append_assoc (front ++ cur) tail rest)
      ∙ ap (λ z. z ++ rest) (append_assoc front cur tail) in
    (
      record { line = breaks front; col = units e cur },
      ap (λ z. position (index_of s) (byte_len z) e) whole
          ∙ position_lem s front cur q e admitted at ends one,
      offset_lem s front cur tail rest e admitted line ends (OneLine-append cur tail one one')
            content
          ∙ ap (λ z. some (ok (byte_len z))) (sym whole),
    )
