-- ===== src/Syntax/Strings.antt =====
-- Strings under the clingo rule (crates/themelios-syntax/src/lexer.rs) as the lexer reads them.
use themelios.Prelude.{ℕ, ◌+◌, ◌≡◌, ap, ◌∙◌, true, false, [], ◌∷◌, ◌++◌, ◌==◌, arith, inl, inr, ◌⊎◌}
use themelios.Base.Source.{Char, Chars, len_utf8, byte_len}
use themelios.Syntax.Token.{SyntaxKind, LexMode, Dialect}
use themelios.Syntax.Quoted.{clingo_loop, string_clingo, is_escape}
use themelios.Syntax.Extents.{len_utf8_ascii}
use themelios.Syntax.Lexer.{shared, lex}

-- What stands for itself in a string.
abbrev pub IsPlain : Char → Type 0
IsPlain c = ((c == b'"') ≡ false) × ((c == 10) ≡ false) × ((c == b'\\') ≡ false)

-- The inside of a string: characters that stand for themselves, and the three escapes.
abbrev pub IsBody : Chars → Type 0
IsBody [] = Unit
IsBody (c ∷ []) = IsPlain c
IsBody (c ∷ d ∷ cs) =
    (IsPlain c × IsBody (d ∷ cs)) ⊎ (((c == b'\\') ≡ true) × (is_escape d ≡ true) × IsBody cs)

loop_body :
    (total i : ℕ) (body rest : Chars)
    → IsBody body
    → clingo_loop total false i (body ++ b'"' ∷ rest) ≡ (SyntaxKind.string, i + byte_len body + 1)
unfolding clingo_loop
loop_body total i [] [] h = ap (λ n. (SyntaxKind.string, n)) (omega arith)
loop_body total i [] (d ∷ rest) h = ap (λ n. (SyntaxKind.string, n)) (omega arith)
loop_body total i (c ∷ []) rest h =
    rw (h.0, h.1, h.2, clingo_loop)
      (loop_body total (i + len_utf8 c) [] rest tt ∙ ap (λ n. (SyntaxKind.string, n)) (omega arith))
loop_body total i (c ∷ d ∷ cs) rest (inl (plain, more)) =
    rw (plain.0, plain.1, plain.2, clingo_loop)
      (loop_body total (i + len_utf8 c) (d ∷ cs) rest more
        ∙ ap (λ n. (SyntaxKind.string, n)) (omega arith))
loop_body total i (c ∷ d ∷ cs) rest (inr (slash, escape, more)) =
    let no_quote : (c == b'"') ≡ false = ground (arith, slash) in
    let no_break : (c == 10) ≡ false = ground (arith, slash) in
    let one = len_utf8_ascii c (ground (arith, slash)) in
    let one' = len_utf8_ascii d (ground (arith, escape)) in
    rw (no_quote, no_break, slash, escape, clingo_loop)
      (loop_body total (i + 2) cs rest more
        ∙ ap (λ n. (SyntaxKind.string, n)) (omega (arith, one, one')))

string_body :
    (body rest : Chars)
    → IsBody body
    → string_clingo (b'"' ∷ (body ++ b'"' ∷ rest)) ≡ (SyntaxKind.string, byte_len body + 2)
unfolding string_clingo
string_body body rest h =
    loop_body (byte_len (b'"' ∷ (body ++ b'"' ∷ rest))) 1 body rest h
    ∙ ap (λ n. (SyntaxKind.string, n)) (omega arith)

-- Under the clingo rule, in normal and theory mode, a quoted text of characters that stand for themselves
-- and of the escapes of the quote, the backslash and `n` is one string token, up to its closing quote,
-- whatever follows.
pub lex-string :
    (body rest : Chars)
    → IsBody body
    → (lex (b'"' ∷ (body ++ b'"' ∷ rest)) LexMode.normal Dialect.clingo
        ≡ (SyntaxKind.string, byte_len body + 2))
      × (lex (b'"' ∷ (body ++ b'"' ∷ rest)) LexMode.theory Dialect.clingo
          ≡ (SyntaxKind.string, byte_len body + 2))
unfolding lex shared
lex-string body rest h = (string_body body rest h, string_body body rest h)
