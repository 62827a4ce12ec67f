-- ===== src/Syntax/Lexer.antt =====
-- The lexer (crates/themelios-syntax/src/lexer.rs). `shared` takes a text that is not empty, which is
-- what `lex` gives it, as its first character and the others.
use themelios.Prelude.{
  ℕ, ◌+◌, Bool, true, not, ◌&&◌, ◌||◌, if◌then◌else◌, [], ◌∷◌, Option, none, some, ltb, ◌==◌,
  is_some, Result, ok, err,
}
use themelios.Base.Span.{ByteOffset}
use themelios.Base.Source.{
  Char, Chars, len_utf8, byte_len, drop_bytes, take_bytes, is_char_boundary, Source, source_end,
}
use themelios.Base.Coordinate.{PositionRefusal}
use themelios.Syntax.Token.{SyntaxKind, Token, LexMode, Dialect, Lexed}
use themelios.Syntax.Scan.{
  chars, starts_with, is_digit, is_lower, is_upper, is_whitespace, run, line_end,
}
use themelios.Syntax.Words.{is_normal, hash_word, number, name}
use themelios.Syntax.Punctuation.{punctuation_normal, punctuation_theory}
use themelios.Syntax.Quoted.{block_comment, string_clingo, string_asp_core_2, script_body}

abbrev pub punctuation : LexMode → Chars → Option Lexed
punctuation LexMode.normal bytes = punctuation_normal bytes
punctuation LexMode.theory bytes = punctuation_theory bytes
punctuation LexMode.script_body bytes = none

-- Whether a token begins at the text `c ∷ cs`.
unfoldable pub begins_token : Char → Chars → LexMode → Bool
unfolding name punctuation_normal punctuation_theory
begins_token c cs mode =
    if is_whitespace c
      || (c == b'%' || (c == b'#' || (c == b'"' || (is_digit c || (is_lower c || is_upper c)))))
    then true
    else if c == b'_' || c == b'\''
    then is_some (name (c ∷ cs)) || (c == b'_' && is_normal mode)
    else is_some (punctuation mode (c ∷ cs))

-- The characters before the next token.
unfoldable pub error_rest : LexMode → Chars → ℕ
unfolding begins_token
error_rest mode [] = 0
error_rest mode (c ∷ cs) =
    let more = error_rest mode cs in if begins_token c cs mode then 0 else len_utf8 c + more

unfoldable pub error_run : Char → Chars → LexMode → Lexed
unfolding error_rest
error_run c cs mode = (SyntaxKind.error, len_utf8 c + error_rest mode cs)

abbrev pub string_token : Dialect → Chars → Lexed
string_token Dialect.clingo rest = string_clingo rest
string_token Dialect.asp_core_2 rest = string_asp_core_2 rest

abbrev pub or_else : {A : Type 0} → Option A → A → A
or_else none d = d
or_else (some a) d = a

-- A word that begins with a letter, `_` or a quote.
abbrev pub word : Char → Chars → LexMode → Lexed
word c cs mode =
    or_else (name (c ∷ cs))
      (if c == b'_' && is_normal mode then (SyntaxKind.anonymous, 1) else error_run c cs mode)

unfoldable pub shared : Char → Chars → LexMode → Dialect → Lexed
unfolding run starts_with line_end hash_word number name block_comment string_clingo
    string_asp_core_2 error_run punctuation_normal punctuation_theory
shared c cs mode dialect =
    let rest = c ∷ cs in
    if is_whitespace c
    then (SyntaxKind.whitespace, run is_whitespace rest)
    else if c == b'%' && starts_with (chars "%!") rest
    then (SyntaxKind.doc_comment, line_end rest)
    else if c == b'%' && starts_with (chars "%*") rest
    then block_comment rest dialect
    else if c == b'%'
    then (SyntaxKind.line_comment, line_end rest)
    else if c == b'#' && starts_with (chars "#!") rest
    then (SyntaxKind.shebang_comment, line_end rest)
    else if c == b'#'
    then hash_word rest mode
    else if c == b'"'
    then string_token dialect rest
    else if is_digit c
    then (SyntaxKind.number, number rest)
    else if is_lower c || (is_upper c || (c == b'_' || c == b'\''))
    then word c cs mode
    else or_else (punctuation mode rest) (error_run c cs mode)

abbrev pub by_mode : Char → Chars → LexMode → Dialect → Lexed
by_mode c cs LexMode.script_body dialect = script_body (c ∷ cs)
by_mode c cs LexMode.normal dialect = shared c cs LexMode.normal dialect
by_mode c cs LexMode.theory dialect = shared c cs LexMode.theory dialect

-- `lex`, of the text from the position on.
unfoldable pub lex : Chars → LexMode → Dialect → Lexed
unfolding shared script_body
lex [] mode dialect = (SyntaxKind.eof, 0)
lex (c ∷ cs) mode dialect = by_mode c cs mode dialect

pub record Lexer : Type 0 where
  pub source : Source
  pub dialect : Dialect

abbrev pub cut_token : SyntaxKind → Option Chars → Option (Result Token PositionRefusal)
cut_token kind none = none
cut_token kind (some text) = some (ok (record { kind = kind; text = text }))

abbrev pub token_from : Lexer → LexMode → Option Chars → Option (Result Token PositionRefusal)
token_from l mode none = none
token_from l mode (some rest) =
    let (kind, len) = lex rest mode l.dialect in cut_token kind (take_bytes len rest)

-- `token_at`; `none` is the panic of a slice off the boundaries.
unfoldable pub token_at : Lexer → ByteOffset → LexMode → Option (Result Token PositionRefusal)
unfolding lex drop_bytes take_bytes is_char_boundary
token_at l at mode =
    let text = l.source.text in
    if ltb (byte_len text) at
    then some (err (PositionRefusal.out_of_bounds at (source_end l.source)))
    else if not (is_char_boundary text at)
    then some (err (PositionRefusal.not_char_boundary (record { offset = at })))
    else token_from l mode (drop_bytes at text)
