-- ===== src/Syntax/Comments.antt =====
-- Line comments (crates/themelios-syntax/src/lexer.rs) as the lexer reads them.
use themelios.Prelude.{
  ◌+◌, ◌≡◌, refl, ap, ◌∙◌, Bool, true, false, [], ◌∷◌, ◌++◌, append-nil, none, some, ◌==◌, ◌||◌,
  arith, inl, inr,
}
use themelios.Base.Source.{Char, Chars, len_utf8, byte_len}
use themelios.Base.Line.Position.{OneLine}
use themelios.Base.Line.Content.{EndsContent}
use themelios.Syntax.Token.{SyntaxKind, LexMode, Dialect}
use themelios.Syntax.Scan.{find, starts_with, line_end, unwrap_or}
use themelios.Syntax.Identifiers.{goes_on}
use themelios.Syntax.Lexer.{shared, lex}

find-OneLine : (w : Chars) → OneLine w → find (10 ∷ []) w ≡ none
unfolding find starts_with
find-OneLine [] h = refl
find-OneLine (c ∷ w) h =
    let no_break : (10 == c) ≡ false = ground (arith, h.0) in rw (no_break, find-OneLine w h.1) refl

find-break : (w r : Chars) → OneLine w → find (10 ∷ []) (w ++ 10 ∷ r) ≡ some (byte_len w)
unfolding find starts_with
find-break [] r h = refl
find-break (c ∷ w) r h =
    let no_break : (10 == c) ≡ false = ground (arith, h.0) in rw (no_break, find-break w r h.1) refl

-- The rest of a line, up to its break or the end of the text.
line_end-append :
    (w rest : Chars) → OneLine w → EndsContent rest → line_end (w ++ rest) ≡ byte_len w
unfolding line_end
line_end-append w rest h (inl empty) =
    ap (λ z. unwrap_or (byte_len z) (find (10 ∷ []) z)) (ap (λ z. w ++ z) empty ∙ append-nil w)
    ∙ ap (unwrap_or (byte_len w)) (find-OneLine w h)
line_end-append w rest h (inr (r, break)) =
    ap (λ z. unwrap_or (byte_len z) (find (10 ∷ []) z)) (ap (λ z. w ++ z) break)
    ∙ ap (unwrap_or (byte_len (w ++ 10 ∷ r))) (find-break w r h)

-- A character that makes another comment of the `%` before it.
abbrev pub marks : Char → Bool
marks c = c == b'!' || c == b'*'

no_mark :
    (b : Char) (w rest : Chars)
    → (b == b'!' || b == b'*') ≡ true
    → goes_on marks w ≡ false
    → EndsContent rest
    → starts_with (b'%' ∷ b ∷ []) (b'%' ∷ (w ++ rest)) ≡ false
unfolding starts_with
no_mark b [] rest mark h (inl empty) = ap (starts_with (b ∷ [])) empty
no_mark b [] rest mark h (inr (r, break)) = ap (starts_with (b ∷ [])) break ∙ ground (arith, mark)
no_mark b (c ∷ w) rest mark h ends = ground (arith, mark, h)

shared_comment :
    (w rest : Chars) (mode : LexMode) (dialect : Dialect)
    → OneLine w
    → goes_on marks w ≡ false
    → EndsContent rest
    → shared b'%' (w ++ rest) mode dialect ≡ (SyntaxKind.line_comment, 1 + byte_len w)
unfolding shared len_utf8
shared_comment w rest mode dialect one plain ends =
    let doc = no_mark b'!' w rest refl plain ends in
    let block = no_mark b'*' w rest refl plain ends in
    rw (doc, block, line_end-append (b'%' ∷ w) rest (refl, one) ends) refl

-- In normal and theory mode, under either dialect, a `%` that neither `!` nor `*` follows makes one line
-- comment of the rest of its line: up to the line break, which is not in it, or to the end of the text.
pub lex-comment :
    (w rest : Chars) (dialect : Dialect)
    → OneLine w
    → goes_on marks w ≡ false
    → EndsContent rest
    → (lex (b'%' ∷ (w ++ rest)) LexMode.normal dialect ≡ (SyntaxKind.line_comment, 1 + byte_len w))
      × (lex (b'%' ∷ (w ++ rest)) LexMode.theory dialect
          ≡ (SyntaxKind.line_comment, 1 + byte_len w))
unfolding lex
lex-comment w rest dialect one plain ends = (
  shared_comment w rest LexMode.normal dialect one plain ends,
  shared_comment w rest LexMode.theory dialect one plain ends,
)
