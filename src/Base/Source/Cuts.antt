-- ===== src/Base/Source/Cuts.antt =====
-- The byte offsets of a text (crates/themelios-base/src/source.rs): on a character boundary, inside
-- a character, or past the end.
use themelios.Prelude.{
  ℕ, zero, suc, ◌+◌, ◌-◌, ◌%◌, ◌^◌, ◌≤◌, ◌<◌, ◌≡◌, refl, sym, ap, ◌∙◌, true, false, [], ◌∷◌, ◌++◌,
  append_assoc, none, some, ltb, leb, is_some, arith, Bool-cases, inl, inr, ◌⊎◌, ok,
}
use themelios.Base.Source.{
  Char, Chars, len_utf8, byte_len, drop_bytes, take_bytes, is_char_boundary, max_len, slice,
}

pub len_utf8_pos : (c : Char) → 1 ≤ len_utf8 c
unfolding len_utf8
len_utf8_pos c = ground arith

pub byte_len-append : (p q : Chars) → byte_len (p ++ q) ≡ byte_len p + byte_len q
byte_len-append [] q = omega arith
byte_len-append (c ∷ p) q = omega (arith, byte_len-append p q)

pub drop_bytes-append : (p q : Chars) → drop_bytes (byte_len p) (p ++ q) ≡ some q
unfolding drop_bytes
drop_bytes-append [] [] = refl
drop_bytes-append [] (c ∷ q) = refl
drop_bytes-append (c ∷ p) q =
    let back : (len_utf8 c + byte_len p) - len_utf8 c ≡ byte_len p = omega arith in
    rw back (ground (arith, len_utf8_pos c, drop_bytes-append p q))

pub take_bytes-append : (p q : Chars) → take_bytes (byte_len p) (p ++ q) ≡ some p
unfolding take_bytes
take_bytes-append [] [] = refl
take_bytes-append [] (c ∷ q) = refl
take_bytes-append (c ∷ p) q =
    let back : (len_utf8 c + byte_len p) - len_utf8 c ≡ byte_len p = omega arith in
    rw (back, take_bytes-append p q) (ground (arith, len_utf8_pos c))

-- Inside a character nothing is cut.
pub drop_bytes-inside :
    (p : Chars) (c : Char) (q : Chars) (o : ℕ)
    → byte_len p < o
    → o < byte_len p + len_utf8 c
    → drop_bytes o (p ++ c ∷ q) ≡ none
unfolding drop_bytes
drop_bytes-inside [] c q o lo hi = ground arith
drop_bytes-inside (d ∷ p) c q o lo hi =
    rw
      (drop_bytes-inside p c q (o - len_utf8 d) (omega (arith, len_utf8_pos d))
        (omega (arith, len_utf8_pos d)))
      (ground arith)

-- A byte offset cuts a text on a boundary, falls inside a character, or lies past the end.
pub cut :
    (o : ℕ) (t : Chars)
    → ((p : Chars) × (q : Chars) × (t ≡ p ++ q) × (o ≡ byte_len p))
      ⊎ (((p : Chars) × (c : Char) × (q : Chars) × (t ≡ p ++ c ∷ q)
            × (byte_len p < o)
            × (o < byte_len p + len_utf8 c))
          ⊎ (byte_len t < o))
cut zero t = inl ([], t, refl, refl)
cut (suc o) [] = inr (inr (omega arith))
cut (suc o) (c ∷ t) = elim (Bool-cases (leb (len_utf8 c) (suc o))) [
  | inr inside ↦ inr (inl ([], c, t, refl, omega arith, ground (arith, inside)))
  | inl beyond ↦ elim (cut (suc o - len_utf8 c) t) [
    | inl (p, q, e, at) ↦ inl (c ∷ p, q, ap (λ z. c ∷ z) e, ground (arith, at, beyond))
    | inr (inl (p, d, q, e, lo, hi)) ↦ inr (
        inl
          (c ∷ p, d, q, ap (λ z. c ∷ z) e, ground (arith, lo, beyond), ground (arith, hi, beyond)))
    | inr (inr past) ↦ inr (inr (ground (arith, past, beyond)))
  ]
]

pub is_char_boundary-append : (p q : Chars) → is_char_boundary (p ++ q) (byte_len p) ≡ true
unfolding is_char_boundary
is_char_boundary-append p q = ap is_some (drop_bytes-append p q)

pub is_char_boundary-inside :
    (p : Chars) (c : Char) (q : Chars) (o : ℕ)
    → byte_len p < o
    → o < byte_len p + len_utf8 c
    → is_char_boundary (p ++ c ∷ q) o ≡ false
unfolding is_char_boundary
is_char_boundary-inside p c q o lo hi = ap is_some (drop_bytes-inside p c q o lo hi)

drop_bytes-past : (t : Chars) (o : ℕ) → byte_len t < o → drop_bytes o t ≡ none
unfolding drop_bytes
drop_bytes-past [] o h = ground arith
drop_bytes-past (c ∷ t) o h =
    rw (drop_bytes-past t (o - len_utf8 c) (omega (arith, len_utf8_pos c)))
      (ground (arith, len_utf8_pos c))

pub is_char_boundary-past : (t : Chars) (o : ℕ) → byte_len t < o → is_char_boundary t o ≡ false
unfolding is_char_boundary
is_char_boundary-past t o h = ap is_some (drop_bytes-past t o h)

-- A boundary cuts the text.
pub boundary_cut :
    (t : Chars) (o : ℕ)
    → is_char_boundary t o ≡ true
    → (p : Chars) × (q : Chars) × (t ≡ p ++ q) × (o ≡ byte_len p)
boundary_cut t o on = elim (cut o t) [
  | inl found ↦ found
  | inr (inl (p, c, q, split, lo, hi)) ↦
      let off : false ≡ true =
        sym (ap (λ t. is_char_boundary t o) split ∙ is_char_boundary-inside p c q o lo hi) ∙ on in
      absurd (ground (arith, off))
  | inr (inr past) ↦
      let off : false ≡ true = sym (is_char_boundary-past t o past) ∙ on in
      absurd (ground (arith, off))
]

-- A span between two boundaries of an admitted text slices exactly the characters between them.
pub slice_lem :
    (id : ℕ) (p mid q : Chars)
    → byte_len (p ++ (mid ++ q)) ≤ max_len
    → slice
        (record { id = id; text = p ++ (mid ++ q) })
        (record { start = byte_len p; end = byte_len (p ++ mid) })
      ≡ some (ok mid)
unfolding slice
slice_lem id p mid q small =
    let inside : ltb (byte_len (p ++ (mid ++ q)) % 2 ^ 32) (byte_len (p ++ mid)) ≡ false =
      ground (arith, byte_len-append p (mid ++ q), byte_len-append mid q, byte_len-append p mid) in
    let end_ : is_char_boundary (p ++ (mid ++ q)) (byte_len (p ++ mid)) ≡ true =
      ap (λ t. is_char_boundary t (byte_len (p ++ mid))) (sym (append_assoc p mid q))
      ∙ is_char_boundary-append (p ++ mid) q in
    let width : byte_len (p ++ mid) - byte_len p ≡ byte_len mid =
      omega (arith, byte_len-append p mid) in
    rw
      (
        inside,
        is_char_boundary-append p (mid ++ q),
        end_,
        drop_bytes-append p (mid ++ q),
        width,
        take_bytes-append mid q,
      )
      refl
