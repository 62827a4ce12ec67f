-- ===== src/Syntax/Munch.antt =====
-- The lexer's tokens tile the text.
use themelios.Prelude.{
  suc, ◌≤◌, ◌≡◌, true, false, if◌then◌else◌, [], ◌∷◌, Option, none, some, ◌==◌, ◌&&◌, ◌||◌, arith,
  Bool-cases, Option-cases, inl, inr,
}
use themelios.Base.Source.{Char, Chars, byte_len}
use themelios.Base.Source.Cuts.{len_utf8_pos}
use themelios.Syntax.Token.{SyntaxKind, LexMode, Dialect, Lexed}
use themelios.Syntax.Scan.{
  chars, starts_with, find, run, line_end, is_whitespace, is_digit, is_lower, is_upper,
}
use themelios.Syntax.Words.{is_normal, hash_word, number, name}
use themelios.Syntax.Lexer.{
  begins_token, punctuation, error_rest, error_run, string_token, or_else, word, shared, lex,
}
use themelios.Syntax.Extents.{
  IsCut, IsAscii, IsCut-none, IsCut-cons, IsCut-ascii, IsCut-line_end, IsAscii-run,
  starts_with-IsAscii, find_cut,
}
use themelios.Syntax.Extents.Closed.{
  IsToken, string_clingo-IsToken, string_asp_core_2-IsToken, block_comment-IsToken,
  script_body-IsToken, found_after,
}
use themelios.Syntax.Extents.Forms.{
  IsForm, Forms, punctuation_normal-Forms, punctuation_theory-Forms,
}
use themelios.Syntax.Extents.Words.{hash_word-IsForm, number-extent, name-Forms}

IsForm-IsToken : (cs : Chars) (token : Lexed) → IsForm cs token → IsToken cs token
IsForm-IsToken cs token h = (IsCut-ascii token.1 cs h.0, h.1)

error_rest-IsCut : (mode : LexMode) (cs : Chars) → IsCut cs (error_rest mode cs)
unfolding error_rest
error_rest-IsCut mode [] = IsCut-none []
error_rest-IsCut mode (c ∷ cs) = elim (Bool-cases (begins_token c cs mode)) [
  | inl begins ↦ rw begins (IsCut-none (c ∷ cs))
  | inr goes_on ↦ rw goes_on (IsCut-cons c cs (error_rest mode cs) (error_rest-IsCut mode cs))
]

error_run-IsToken :
    (c : Char) (cs : Chars) (mode : LexMode) → IsToken (c ∷ cs) (error_run c cs mode)
unfolding error_run
error_run-IsToken c cs mode =
    (IsCut-cons c cs (error_rest mode cs) (error_rest-IsCut mode cs), omega (arith, len_utf8_pos c))

or_else-IsToken :
    (cs : Chars) (o : Option Lexed) (d : Lexed)
    → Forms cs o
    → IsToken cs d
    → IsToken cs (or_else o d)
or_else-IsToken cs none d h hd = hd
or_else-IsToken cs (some token) d h hd = IsForm-IsToken cs token h

word-IsToken : (c : Char) (cs : Chars) (mode : LexMode) → IsToken (c ∷ cs) (word c cs mode)
word-IsToken c cs mode =
    or_else-IsToken (c ∷ cs) (name (c ∷ cs)) _ (name-Forms (c ∷ cs))
      (elim (Bool-cases (c == b'_' && is_normal mode)) [
        | inl lone ↦ rw lone (
            IsForm-IsToken (c ∷ cs) (SyntaxKind.anonymous, 1)
              ((ground (arith, lone), tt), omega arith))
        | inr other ↦ rw other (error_run-IsToken c cs mode)
      ])

punctuation-Forms : (mode : LexMode) (cs : Chars) → Forms cs (punctuation mode cs)
punctuation-Forms LexMode.normal cs = punctuation_normal-Forms cs
punctuation-Forms LexMode.theory cs = punctuation_theory-Forms cs
punctuation-Forms LexMode.script_body cs = tt

string_token-IsToken :
    (dialect : Dialect) (cs : Chars) → IsAscii 1 cs → IsToken cs (string_token dialect cs)
string_token-IsToken Dialect.clingo cs h = string_clingo-IsToken cs h
string_token-IsToken Dialect.asp_core_2 cs h = string_asp_core_2-IsToken cs h

line_pos : (cs : Chars) → starts_with (10 ∷ []) cs ≡ false → 1 ≤ byte_len cs → 1 ≤ line_end cs
unfolding line_end
line_pos cs miss pos = elim (Option-cases (find (10 ∷ []) cs)) [
  | inl nowhere ↦ rw nowhere pos
  | inr (n, there) ↦
      let (p, q, e, at, found) = find_cut (10 ∷ []) cs n there in
      rw there (found_after (10 ∷ []) cs p q n miss e at found)
]

starts : (c : Char) (cs : Chars) → (c == 10) ≡ false → starts_with (10 ∷ []) (c ∷ cs) ≡ false
unfolding starts_with
starts c cs h = ground (arith, h)

-- A line's token is not empty where its first character is no line break.
line-IsToken :
    (kind : SyntaxKind) (c : Char) (cs : Chars)
    → (c == 10) ≡ false
    → IsToken (c ∷ cs) (kind, line_end (c ∷ cs))
line-IsToken kind c cs h =
    (IsCut-line_end (c ∷ cs), line_pos (c ∷ cs) (starts c cs h) (omega (arith, len_utf8_pos c)))

comment_line-IsToken :
    (kind : SyntaxKind) (c : Char) (cs : Chars)
    → (c == b'%' || c == b'#') ≡ true
    → IsToken (c ∷ cs) (kind, line_end (c ∷ cs))
comment_line-IsToken kind c cs h = line-IsToken kind c cs (ground (arith, h))

whitespace-IsToken :
    (c : Char) (cs : Chars)
    → is_whitespace c ≡ true
    → IsToken (c ∷ cs) (SyntaxKind.whitespace, suc (run is_whitespace cs))
whitespace-IsToken c cs h =
    IsForm-IsToken (c ∷ cs) (SyntaxKind.whitespace, suc (run is_whitespace cs))
      ((ground (arith, h), IsAscii-run is_whitespace cs (λ c h. ground (arith, h))), omega arith)

-- The tokens that are no blanks and no line comments.
abbrev plain : Char → Chars → LexMode → Dialect → Lexed
plain c cs mode dialect =
    let rest = c ∷ cs in
    if c == b'#'
    then hash_word rest mode
    else if c == b'"'
    then string_token dialect rest
    else if is_digit c
    then (SyntaxKind.number, number rest)
    else if is_lower c || (is_upper c || (c == b'_' || c == b'\''))
    then word c cs mode
    else or_else (punctuation mode rest) (error_run c cs mode)

plain-IsToken :
    (c : Char) (cs : Chars) (mode : LexMode) (dialect : Dialect)
    → IsToken (c ∷ cs) (plain c cs mode dialect)
plain-IsToken c cs mode dialect = elim (Bool-cases (c == b'#')) [
  | inl hash ↦ rw hash (
      IsForm-IsToken (c ∷ cs) (hash_word (c ∷ cs) mode)
        (hash_word-IsForm (c ∷ cs) mode (ground (arith, hash), tt)))
  | inr a ↦ elim (Bool-cases (c == b'"')) [
    | inl quote ↦ rw (a, quote) (string_token-IsToken dialect (c ∷ cs) (ground (arith, quote), tt))
    | inr b ↦ elim (Bool-cases (is_digit c)) [
      | inl digit ↦
          rw (a, b, digit)
            (IsForm-IsToken (c ∷ cs) (SyntaxKind.number, number (c ∷ cs))
              (number-extent c cs digit))
      | inr d ↦ elim (Bool-cases (is_lower c || (is_upper c || (c == b'_' || c == b'\'')))) [
        | inl letter ↦ rw (a, b, d, letter) (word-IsToken c cs mode)
        | inr other ↦
            rw (a, b, d, other)
              (or_else-IsToken (c ∷ cs) (punctuation mode (c ∷ cs)) (error_run c cs mode)
                (punctuation-Forms mode (c ∷ cs)) (error_run-IsToken c cs mode))
      ]
    ]
  ]
]

shared-IsToken :
    (c : Char) (cs : Chars) (mode : LexMode) (dialect : Dialect)
    → IsToken (c ∷ cs) (shared c cs mode dialect)
unfolding shared
shared-IsToken c cs mode dialect = elim (Bool-cases (is_whitespace c)) [
  | inl white ↦ rw white (whitespace-IsToken c cs white)
  | inr a ↦ elim (Bool-cases (c == b'%' && starts_with (chars "%!") (c ∷ cs))) [
    | inl doc ↦ rw (a, doc) (comment_line-IsToken SyntaxKind.doc_comment c cs (ground (arith, doc)))
    | inr b ↦ elim (Bool-cases (c == b'%' && starts_with (chars "%*") (c ∷ cs))) [
      | inl block ↦
          rw (a, b, block)
            (block_comment-IsToken (c ∷ cs) dialect (
              starts_with-IsAscii (chars "%*") (c ∷ cs) (omega arith, (omega arith, tt))
                (ground (arith, block))))
      | inr d ↦ elim (Bool-cases (c == b'%')) [
        | inl line ↦
            rw (a, b, d, line)
              (comment_line-IsToken SyntaxKind.line_comment c cs (ground (arith, line)))
        | inr e ↦ elim (Bool-cases (c == b'#' && starts_with (chars "#!") (c ∷ cs))) [
          | inl bang ↦
              rw (a, b, d, e, bang)
                (comment_line-IsToken SyntaxKind.shebang_comment c cs (ground (arith, bang)))
          | inr f ↦ rw (a, b, d, e, f) (plain-IsToken c cs mode dialect)
        ]
      ]
    ]
  ]
]

-- The token at a text that is not empty is a prefix of it, cut on a character boundary, and not empty
-- either, in every mode and dialect.
pub lex-IsToken :
    (c : Char) (cs : Chars) (mode : LexMode) (dialect : Dialect)
    → IsToken (c ∷ cs) (lex (c ∷ cs) mode dialect)
unfolding lex
lex-IsToken c cs LexMode.normal dialect = shared-IsToken c cs LexMode.normal dialect
lex-IsToken c cs LexMode.theory dialect = shared-IsToken c cs LexMode.theory dialect
lex-IsToken c cs LexMode.script_body dialect =
    script_body-IsToken (c ∷ cs) (omega (arith, len_utf8_pos c))
