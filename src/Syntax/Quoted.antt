-- ===== src/Syntax/Quoted.antt =====
-- Comments, strings and scripts (crates/themelios-syntax/src/lexer.rs). A loop's text is what is left
-- from its index on, and `total` is the length of the whole.
use themelios.Prelude.{
  ℕ, ◌+◌, ◌-◌, Bool, true, false, ◌&&◌, ◌||◌, if◌then◌else◌, [], ◌∷◌, Option, none, some, ◌==◌,
  is_some,
}
use themelios.Base.Source.{Char, Chars, len_utf8, byte_len}
use themelios.Base.Line.{drop}
use themelios.Syntax.Token.{SyntaxKind, Dialect, Lexed}
use themelios.Syntax.Scan.{chars, starts_with, find}

-- The loop of the nested block comment. `in_line` holds from a `%` that opens and closes nothing to the
-- next line break. A wide character's bytes are passed one after the other in the source, and together
-- here.
unfoldable pub comment_loop : ℕ → ℕ → Bool → ℕ → Chars → Lexed
comment_loop total depth in_line i [] = (SyntaxKind.error, total)
comment_loop total depth true i (c ∷ cs) =
    comment_loop total depth (if c == 10 then false else true) (i + len_utf8 c) cs
comment_loop total depth false i (c ∷ []) = (SyntaxKind.error, total)
comment_loop total depth false i (c ∷ d ∷ cs) = elim (c == b'%' && d == b'*') [
  | true ↦ comment_loop total (depth + 1) false (i + 2) cs
  | false ↦ elim (c == b'*' && d == b'%') [
    | true ↦ elim (depth - 1 == 0) [
      | true ↦ (SyntaxKind.block_comment, i + 2)
      | false ↦ comment_loop total (depth - 1) false (i + 2) cs
    ]
    | false ↦ elim (c == b'%') [
      | true ↦ comment_loop total depth true (i + len_utf8 c) (d ∷ cs)
      | false ↦ comment_loop total depth false (i + len_utf8 c) (d ∷ cs)
    ]
  ]
]

abbrev pub closed_by : ℕ → Option ℕ → Lexed
closed_by total none = (SyntaxKind.error, total)
closed_by total (some close) = (SyntaxKind.block_comment, close + 4)

-- Of the text that begins with `%*`.
unfoldable pub block_comment : Chars → Dialect → Lexed
unfolding find comment_loop
block_comment rest Dialect.asp_core_2 = closed_by (byte_len rest) (find (chars "*%") (drop 2 rest))
block_comment rest Dialect.clingo = comment_loop (byte_len rest) 1 false 2 (drop 2 rest)

abbrev pub is_escape : Char → Bool
is_escape c = c == b'"' || (c == b'\\' || c == b'n')

unfoldable pub clingo_loop : ℕ → Bool → ℕ → Chars → Lexed
clingo_loop total defective i [] = (SyntaxKind.error, total)
clingo_loop total defective i (c ∷ []) =
    if c == b'"'
    then ((if defective then SyntaxKind.error else SyntaxKind.string), i + 1)
    else if c == 10
    then (SyntaxKind.error, i)
    else if c == b'\\'
    then (SyntaxKind.error, i + 1)
    else (SyntaxKind.error, total)
clingo_loop total defective i (c ∷ d ∷ cs) = elim (c == b'"') [
  | true ↦ ((if defective then SyntaxKind.error else SyntaxKind.string), i + 1)
  | false ↦ elim (c == 10) [
    | true ↦ (SyntaxKind.error, i)
    | false ↦ elim (c == b'\\') [
      | true ↦ elim (is_escape d) [
        | true ↦ clingo_loop total defective (i + 2) cs
        | false ↦ elim (d == 10) [
          | true ↦ (SyntaxKind.error, i + 1)
          | false ↦ clingo_loop total true (i + (1 + len_utf8 d)) cs
        ]
      ]
      | false ↦ clingo_loop total defective (i + len_utf8 c) (d ∷ cs)
    ]
  ]
]

-- Of the text that begins with `"`.
unfoldable pub string_clingo : Chars → Lexed
unfolding clingo_loop
string_clingo rest = clingo_loop (byte_len rest) false 1 (drop 1 rest)

unfoldable pub asp_loop : ℕ → ℕ → Chars → Lexed
unfolding find
asp_loop total i [] = (SyntaxKind.error, total)
asp_loop total i (c ∷ []) =
    if c == b'"' then (SyntaxKind.string, i + 1) else (SyntaxKind.error, total)
asp_loop total i (c ∷ d ∷ cs) = elim (c == b'"') [
  | true ↦ (SyntaxKind.string, i + 1)
  | false ↦ elim (c == b'\\' && d == b'"') [
    | true ↦ elim (is_some (find (chars "\"") cs)) [
      | true ↦ asp_loop total (i + 2) cs
      | false ↦ (SyntaxKind.string, i + 2)
    ]
    | false ↦ asp_loop total (i + len_utf8 c) (d ∷ cs)
  ]
]

unfoldable pub string_asp_core_2 : Chars → Lexed
unfolding asp_loop
string_asp_core_2 rest = asp_loop (byte_len rest) 1 (drop 1 rest)

abbrev pub body_until : ℕ → Option ℕ → Lexed
body_until total none = (SyntaxKind.error, total)
body_until total (some end_) = (SyntaxKind.script_body, end_)

unfoldable pub script_body : Chars → Lexed
unfolding starts_with find
script_body rest =
    if starts_with (chars "#end") rest
    then (SyntaxKind.kw_end, 4)
    else body_until (byte_len rest) (find (chars "#end") rest)
