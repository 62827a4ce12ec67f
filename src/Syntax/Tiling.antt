-- ===== src/Syntax/Tiling.antt =====
-- The token source's laws (crates/themelios-syntax/src/token.rs), of the lexer.
use themelios.Prelude.{
  ℕ, zero, suc, ◌+◌, ◌≤◌, ◌<◌, ◌≡◌, refl, sym, ap, ap₂, subst, ◌∙◌, true, false, List, [], ◌∷◌,
  ◌++◌, append_assoc, append-nil, some, ltb, arith, List-cases, inl, inr, ◌⊎◌, ok, err,
}
use themelios.Base.Source.{Chars, byte_len, drop_bytes, take_bytes, is_char_boundary, source_end}
use themelios.Base.Source.Cuts.{
  boundary_cut, drop_bytes-append, take_bytes-append, is_char_boundary-append, byte_len-append,
  len_utf8_pos,
}
use themelios.Base.Coordinate.{LineCol, ColumnEncoding, PositionRefusal}
use themelios.Base.Line.{index_of, position}
use themelios.Base.Line.Position.{IsAdmitted}
use themelios.Base.Line.Refusals.{position-is_char_boundary}
use themelios.Syntax.Token.{SyntaxKind, Token, LexMode}
use themelios.Syntax.Lexer.{lex, Lexer, token_at, token_from, cut_token}
use themelios.Syntax.Munch.{lex-IsToken}

-- The token `text` of the kind stands at the front of the rest, and is empty at the end only, where its
-- kind is that of the end.
abbrev pub IsFront : Chars → Token → Chars → Type 0
IsFront rest t after =
    (rest ≡ t.text ++ after)
    × (1 ≤ byte_len rest → 1 ≤ byte_len t.text)
    × (byte_len rest ≡ 0 → t.kind ≡ SyntaxKind.eof)

module _ (l : Lexer) (mode : LexMode) (admitted : IsAdmitted l.source) where
  at_eof : token_from l mode (some []) ≡ some (ok (record { kind = SyntaxKind.eof; text = [] }))
  unfolding lex
  at_eof = ap (cut_token SyntaxKind.eof) (take_bytes-append [] [])

  answer :
      (rest : Chars)
      → (t : Token) × (after : Chars) × (token_from l mode (some rest) ≡ some (ok t))
        × IsFront rest t after
  unfolding lex
  answer [] = (
    record { kind = SyntaxKind.eof; text = [] },
    [],
    at_eof,
    (refl, (λ h. absurd (omega (arith, h))), (λ _. refl)),
  )
  answer (c ∷ cs) =
      let ((p, q, e, len), pos) = lex-IsToken c cs mode l.dialect in
      let token = lex (c ∷ cs) mode l.dialect in
      (
        record { kind = token.0; text = p },
        q,
        ap (cut_token token.0) (ap₂ take_bytes (sym len) e ∙ take_bytes-append p q),
        (e, (λ _. omega (arith, len, pos)), (λ h. absurd (omega (arith, h, len_utf8_pos c)))),
      )

  -- At a boundary the token is that of the rest.
  at_rest :
      (p rest : Chars)
      → l.source.text ≡ p ++ rest
      → token_at l (byte_len p) mode ≡ token_from l mode (some rest)
  unfolding token_at
  at_rest p rest split =
      let inside : ltb (byte_len l.source.text) (byte_len p) ≡ false =
        ground (arith, ap byte_len split, byte_len-append p rest) in
      let on : is_char_boundary l.source.text (byte_len p) ≡ true =
        ap (λ z. is_char_boundary z (byte_len p)) split ∙ is_char_boundary-append p rest in
      let dropped : drop_bytes (byte_len p) l.source.text ≡ some rest =
        ap (drop_bytes (byte_len p)) split ∙ drop_bytes-append p rest in
      rw (inside, on, dropped) refl

  at_boundary :
      (p rest : Chars)
      → l.source.text ≡ p ++ rest
      → (t : Token) × (after : Chars) × (token_at l (byte_len p) mode ≡ some (ok t))
        × IsFront rest t after
  at_boundary p rest split =
      let (t, after, at, front) = answer rest in (t, after, at_rest p rest split ∙ at, front)

  token_past :
      (o : ℕ)
      → byte_len l.source.text < o
      → token_at l o mode ≡ some (err (PositionRefusal.out_of_bounds o (byte_len l.source.text)))
  unfolding token_at
  token_past o h =
      let end_ : source_end l.source ≡ byte_len l.source.text = omega arith in
      let past : ltb (byte_len l.source.text) o ≡ true = ground arith in rw (past, end_) refl

  token_off :
      (o : ℕ)
      → o ≤ byte_len l.source.text
      → is_char_boundary l.source.text o ≡ false
      → token_at l o mode ≡ some (err (PositionRefusal.not_char_boundary (record { offset = o })))
  unfolding token_at
  token_off o h off =
      let inside : ltb (byte_len l.source.text) o ≡ false = ground arith in rw (inside, off) refl

-- On an admitted source, whatever the mode and the encoding, the lexer refuses an offset exactly where the
-- line index has no position for it, with the same refusal; elsewhere its token is the slice of the text
-- there, which is not empty before the end.
pub token_at-position :
    (l : Lexer) (o : ℕ) (mode : LexMode) (e : ColumnEncoding)
    → IsAdmitted l.source
    → ((r : PositionRefusal) × (position (index_of l.source) o e ≡ some (err r))
        × (token_at l o mode ≡ some (err r)))
      ⊎ ((at : LineCol) × (t : Token) × (before : Chars) × (after : Chars) × (position
              (index_of l.source)
              o
              e
            ≡ some (ok at))
          × (token_at l o mode ≡ some (ok t))
          × (l.source.text ≡ before ++ (t.text ++ after))
          × (byte_len before ≡ o)
          × ((o ≡ byte_len l.source.text) ⊎ (1 ≤ byte_len t.text)))
token_at-position l o mode e admitted = elim (position-is_char_boundary l.source o e admitted) [
  | inl (past, refused) ↦ inl (
    PositionRefusal.out_of_bounds o (byte_len l.source.text),
    refused,
    token_past l mode admitted o past,
  )
  | inr (inl (le, off, refused)) ↦ inl (
    PositionRefusal.not_char_boundary (record { offset = o }),
    refused,
    token_off l mode admitted o le off,
  )
  | inr (inr (lc, on, found, _)) ↦
      let (p, q, split, here) = boundary_cut l.source.text o on in
      let (t, after, at, (front, nonempty, _)) = at_boundary l mode admitted p q split in
      inr (
        lc,
        t,
        p,
        after,
        found,
        (ap (λ z. token_at l z mode) here ∙ at),
        (split ∙ ap (λ z. p ++ z) front),
        sym here,
        elim (List-cases q) [
          | inl at_end ↦
              inl (here ∙ sym (ap byte_len (split ∙ ap (λ z. p ++ z) at_end ∙ append-nil p)))
          | inr (c, cs, more) ↦ inr (nonempty (omega (arith, ap byte_len more, len_utf8_pos c)))
        ],
      )
]

-- The tokens from the offset `o` on, each under the mode that `modes` has for its offset, up to the end of
-- the text.
abbrev pub Tiles : Lexer → (ℕ → LexMode) → ℕ → List Token → Type 0
Tiles l modes o [] =
    (o ≡ byte_len l.source.text)
    × (token_at l o (modes o) ≡ some (ok (record { kind = SyntaxKind.eof; text = [] })))
Tiles l modes o (t ∷ ts) =
    (token_at l o (modes o) ≡ some (ok t))
    × (1 ≤ byte_len t.text)
    × Tiles l modes (o + byte_len t.text) ts

abbrev pub texts : List Token → Chars
texts [] = []
texts (t ∷ ts) = t.text ++ texts ts

Tiles-from :
    (l : Lexer) (modes : ℕ → LexMode) (fuel : ℕ) (p rest : Chars)
    → IsAdmitted l.source
    → byte_len rest ≤ fuel
    → l.source.text ≡ p ++ rest
    → (ts : List Token) × Tiles l modes (byte_len p) ts × (texts ts ≡ rest)
Tiles-from l modes fuel p [] admitted le split =
    let here : byte_len p ≡ byte_len l.source.text = ap byte_len (sym (append-nil p) ∙ sym split) in
    (
      [],
      (
        here,
        at_rest l (modes (byte_len p)) admitted p [] split ∙ at_eof l (modes (byte_len p)) admitted,
      ),
      refl,
    )
Tiles-from l modes zero p (c ∷ rest) admitted le split = absurd (omega (arith, le, len_utf8_pos c))
Tiles-from l modes (suc fuel) p (c ∷ rest) admitted le split =
    let (t, after, at, (front, nonempty, _)) =
      at_boundary l (modes (byte_len p)) admitted p (c ∷ rest) split in
    let pos = nonempty (omega (arith, len_utf8_pos c)) in
    let next : l.source.text ≡ (p ++ t.text) ++ after =
      split ∙ ap (λ z. p ++ z) front ∙ sym (append_assoc p t.text after) in
    let (ts, tiles, whole) =
      Tiles-from l modes fuel (p ++ t.text) after admitted
        (omega (arith, ap byte_len front, byte_len-append t.text after, pos, le)) next in
    (
      t ∷ ts,
      (at, pos, subst (λ z. Tiles l modes z ts) (byte_len-append p t.text) tiles),
      ap (λ z. t.text ++ z) whole ∙ sym front,
    )

-- In an admitted source the lexer's tokens, under any choice of modes, go on to the end in finitely many
-- steps: each but the last is not empty, the last is the end's, and their texts together are the source's.
pub Tiles-text :
    (l : Lexer) (modes : ℕ → LexMode)
    → IsAdmitted l.source
    → (ts : List Token) × Tiles l modes 0 ts × (texts ts ≡ l.source.text)
Tiles-text l modes admitted =
    Tiles-from l modes (byte_len l.source.text) [] l.source.text admitted (omega arith) refl
