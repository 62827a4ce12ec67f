-- ===== src/Syntax/Punctuation.antt =====
-- Punctuation and operators (crates/themelios-syntax/src/lexer.rs).
use themelios.Prelude.{
  ℕ, zero, suc, Bool, ◌&&◌, ◌||◌, if◌then◌else◌, [], ◌∷◌, Option, none, some, ◌==◌, get_elem?,
}
use themelios.Base.Source.{Char, Chars}
use themelios.Base.Line.{take}
use themelios.Syntax.Token.{SyntaxKind, Lexed}
use themelios.Syntax.Scan.{chars, run, is_byte}
use themelios.Syntax.Words.{same_text}

unfoldable pub form : Char → Option Char → Option Lexed
form first second =
    if first == b'.' && is_byte second b'.'
    then some (SyntaxKind.dotdot, 2)
    else if first == b'.'
    then some (SyntaxKind.dot, 1)
    else if first == b','
    then some (SyntaxKind.comma, 1)
    else if first == b';'
    then some (SyntaxKind.semicolon, 1)
    else if first == b':' && is_byte second b'-'
    then some (SyntaxKind.neck, 2)
    else if first == b':' && is_byte second b'~'
    then some (SyntaxKind.weak_neck, 2)
    else if first == b':'
    then some (SyntaxKind.colon, 1)
    else if first == b'|'
    then some (SyntaxKind.pipe, 1)
    else if first == b'('
    then some (SyntaxKind.l_paren, 1)
    else if first == b')'
    then some (SyntaxKind.r_paren, 1)
    else if first == b'['
    then some (SyntaxKind.l_bracket, 1)
    else if first == b']'
    then some (SyntaxKind.r_bracket, 1)
    else if first == b'{'
    then some (SyntaxKind.l_brace, 1)
    else if first == b'}'
    then some (SyntaxKind.r_brace, 1)
    else if first == b'+'
    then some (SyntaxKind.plus, 1)
    else if first == b'-'
    then some (SyntaxKind.minus, 1)
    else if first == b'*' && is_byte second b'*'
    then some (SyntaxKind.star_star, 2)
    else if first == b'*'
    then some (SyntaxKind.star, 1)
    else if first == b'/'
    then some (SyntaxKind.slash, 1)
    else if first == b'\\'
    then some (SyntaxKind.backslash, 1)
    else if first == b'^'
    then some (SyntaxKind.caret, 1)
    else if first == b'&'
    then some (SyntaxKind.ampersand, 1)
    else if first == b'~'
    then some (SyntaxKind.tilde, 1)
    else if first == b'?'
    then some (SyntaxKind.question, 1)
    else if first == b'@'
    then some (SyntaxKind.at, 1)
    else if first == b'=' && is_byte second b'='
    then some (SyntaxKind.eq, 2)
    else if first == b'='
    then some (SyntaxKind.eq, 1)
    else if first == b'!' && is_byte second b'='
    then some (SyntaxKind.neq, 2)
    else if first == b'<' && is_byte second b'>'
    then some (SyntaxKind.neq, 2)
    else if first == b'<' && is_byte second b'='
    then some (SyntaxKind.le, 2)
    else if first == b'<'
    then some (SyntaxKind.lt, 1)
    else if first == b'>' && is_byte second b'='
    then some (SyntaxKind.ge, 2)
    else if first == b'>'
    then some (SyntaxKind.gt, 1)
    else none

unfoldable pub punctuation_normal : Chars → Option Lexed
unfolding form
punctuation_normal [] = none
punctuation_normal (first ∷ rest) = form first (get_elem? rest 0)

unfoldable pub is_theory_operator_char : Char → Bool
is_theory_operator_char c =
    c == b'/'
    || (c == b'!'
        || (c == b'<'
            || (c == b'='
                || (c == b'>'
                    || (c == b'+'
                        || (c == b'-'
                            || (c == b'*'
                                || (c == b'\\'
                                    || (c == b'?'
                                        || (c == b'&'
                                            || (c == b'@'
                                                || (c == b'|'
                                                    || (c == b':'
                                                        || (c == b';'
                                                            || (c == b'~'
                                                            || (c == b'^'
                                                            || (c == b'.')))))))))))))))))

abbrev pub operator_kind : Chars → ℕ → Lexed
operator_kind op len =
    if same_text op (chars ".")
    then (SyntaxKind.dot, 1)
    else if same_text op (chars ";")
    then (SyntaxKind.semicolon, 1)
    else if same_text op (chars ":")
    then (SyntaxKind.colon, 1)
    else if same_text op (chars ":-")
    then (SyntaxKind.neck, 2)
    else (SyntaxKind.theory_op, len)

abbrev pub operator_of : Chars → ℕ → Option Lexed
operator_of bytes zero = none
operator_of bytes (suc len) = some (operator_kind (take (suc len) bytes) (suc len))

unfoldable pub theory_operator_run : Chars → Option Lexed
unfolding run is_theory_operator_char same_text
theory_operator_run bytes = operator_of bytes (run is_theory_operator_char bytes)

abbrev pub structural : Option Char → Option SyntaxKind
structural none = none
structural (some c) =
    if c == b','
    then some SyntaxKind.comma
    else if c == b'('
    then some SyntaxKind.l_paren
    else if c == b')'
    then some SyntaxKind.r_paren
    else if c == b'['
    then some SyntaxKind.l_bracket
    else if c == b']'
    then some SyntaxKind.r_bracket
    else if c == b'{'
    then some SyntaxKind.l_brace
    else if c == b'}'
    then some SyntaxKind.r_brace
    else none

unfoldable pub punctuation_theory : Chars → Option Lexed
unfolding theory_operator_run
punctuation_theory bytes = elim (structural (get_elem? bytes 0)) [
  | some kind ↦ some (kind, 1)
  | none ↦ theory_operator_run bytes
]
