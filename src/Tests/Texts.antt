-- ===== src/Tests/Texts.antt =====
-- Regions, the line index and the lexer, on a text of two lines with a wide character.
use themelios.Prelude.{
  ◌≤◌, ◌<◌, ◌≡◌, refl, true, false, List, [], ◌∷◌, ◌++◌, some, ok, err, arith, inl, inr, ◌⊎◌,
}
use themelios.Base.Span.{Span}
use themelios.Base.Source.{Chars, Source, byte_len, is_char_boundary, len_utf8, len_utf16}
use themelios.Base.Coordinate.{LineCol, code_points, utf16_units, PositionRefusal}
use themelios.Base.Line.{index_of, position, offset}
use themelios.Base.Line.Position.{position_lem}
use themelios.Base.Line.RoundTrip.{offset-position}
use themelios.Base.Line.Refusals.{position-is_char_boundary}
use themelios.Syntax.Scan.{chars}
use themelios.Syntax.Words.{same_text}
use themelios.Syntax.Comments.{lex-comment}
use themelios.Syntax.Strings.{lex-string}
use themelios.Syntax.Identifiers.{lex-word}
use themelios.Syntax.Token.{SyntaxKind, Token, LexMode, Dialect}
use themelios.Syntax.Lexer.{Lexer, lex, token_at}
use themelios.Syntax.Extents.Closed.{IsToken}
use themelios.Syntax.Munch.{lex-IsToken}
use themelios.Syntax.Tiling.{Tiles, texts, token_at-position, Tiles-text}

-- `%é`, a line break, and `é :- b.`.
abbrev wide_lines : Source
wide_lines = record { id = 0; text = b'%' ∷ 233 ∷ 10 ∷ 233 ∷ chars " :- b." }

abbrev wide_lexer : Lexer
wide_lexer = record { source = wide_lines; dialect = Dialect.clingo }

abbrev left_span : Span
left_span = record { start = 2; end = 7 }

abbrev right_span : Span
right_span = record { start = 5; end = 9 }

abbrev shared_span : Span
shared_span = record { start = 6; end = 7 }

abbrev whole_span : Span
whole_span = record { start = 1; end = 9 }

position_lem_example :
    position (index_of wide_lines) 6 utf16_units ≡ some (ok (record { line = 1; col = 1 }))
unfolding len_utf8 len_utf16
position_lem_example =
    position_lem wide_lines (b'%' ∷ 233 ∷ 10 ∷ []) (233 ∷ []) (chars " :- b.") utf16_units
      (omega arith) refl (inr (b'%' ∷ 233 ∷ [], refl)) (refl, tt)

offset-position_example :
    (at : LineCol) × (position (index_of wide_lines) 6 code_points ≡ some (ok at))
    × (offset (index_of wide_lines) at code_points ≡ some (ok 6))
unfolding len_utf8
offset-position_example =
    offset-position wide_lines (b'%' ∷ 233 ∷ 10 ∷ 233 ∷ []) (chars " :- b.") code_points
      (omega arith) refl

position-is_char_boundary_example :
    ((byte_len wide_lines.text < 5)
      × (position (index_of wide_lines) 5 utf16_units
          ≡ some (err (PositionRefusal.out_of_bounds 5 (byte_len wide_lines.text)))))
    ⊎ (((5 ≤ byte_len wide_lines.text)
          × (is_char_boundary wide_lines.text 5 ≡ false)
          × (position (index_of wide_lines) 5 utf16_units
              ≡ some (err (PositionRefusal.not_char_boundary (record { offset = 5 })))))
        ⊎ ((at : LineCol) × (is_char_boundary wide_lines.text 5 ≡ true)
            × (position (index_of wide_lines) 5 utf16_units ≡ some (ok at))
            × (offset (index_of wide_lines) at utf16_units ≡ some (ok 5))))
unfolding len_utf8
position-is_char_boundary_example = position-is_char_boundary wide_lines 5 utf16_units (omega arith)

lex-IsToken_example :
    IsToken
      (chars "%* a %* b *% c *% d")
      (lex (chars "%* a %* b *% c *% d") LexMode.normal Dialect.clingo)
lex-IsToken_example = lex-IsToken b'%' (chars "* a %* b *% c *% d") LexMode.normal Dialect.clingo

token_at-position_example :
    ((r : PositionRefusal) × (position (index_of wide_lines) 7 utf16_units ≡ some (err r))
      × (token_at wide_lexer 7 LexMode.normal ≡ some (err r)))
    ⊎ ((at : LineCol) × (t : Token) × (before : Chars) × (after : Chars) × (position
            (index_of wide_lines)
            7
            utf16_units
          ≡ some (ok at))
        × (token_at wide_lexer 7 LexMode.normal ≡ some (ok t))
        × (wide_lines.text ≡ before ++ (t.text ++ after))
        × (byte_len before ≡ 7)
        × ((7 ≡ byte_len wide_lines.text) ⊎ (1 ≤ byte_len t.text)))
unfolding len_utf8
token_at-position_example = token_at-position wide_lexer 7 LexMode.normal utf16_units (omega arith)

Tiles-text_example :
    (ts : List Token) × Tiles wide_lexer (λ _. LexMode.normal) 0 ts × (texts ts ≡ wide_lines.text)
unfolding len_utf8
Tiles-text_example = Tiles-text wide_lexer (λ _. LexMode.normal) (omega arith)

lex-word_example :
    (lex (chars "notin'1(X)") LexMode.normal Dialect.clingo ≡ (SyntaxKind.ident, 7))
    × (lex (chars "notin'1(X)") LexMode.theory Dialect.clingo ≡ (SyntaxKind.ident, 7))
unfolding same_text
lex-word_example =
    lex-word b'n' (chars "otin'1") (chars "(X)") Dialect.clingo refl
      (refl, (refl, (refl, (refl, (refl, (refl, tt)))))) refl

lex-comment_example :
    (lex (chars "% a fact\na.") LexMode.normal Dialect.asp_core_2 ≡ (SyntaxKind.line_comment, 8))
    × (lex (chars "% a fact\na.") LexMode.theory Dialect.asp_core_2 ≡ (SyntaxKind.line_comment, 8))
unfolding len_utf8
lex-comment_example =
    lex-comment (chars " a fact") (10 ∷ chars "a.") Dialect.asp_core_2
      (refl, (refl, (refl, (refl, (refl, (refl, (refl, tt))))))) refl (inr (chars "a.", refl))

lex-string_example :
    (lex (chars "\"a\\n\".") LexMode.normal Dialect.clingo ≡ (SyntaxKind.string, 5))
    × (lex (chars "\"a\\n\".") LexMode.theory Dialect.clingo ≡ (SyntaxKind.string, 5))
unfolding len_utf8
lex-string_example =
    lex-string (chars "a\\n") (chars ".") (inl ((refl, refl, refl), inr (refl, refl, tt)))
