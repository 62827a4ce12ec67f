-- ===== src/Base/Line/Refusals.antt =====
-- The offsets without a coordinate.
use themelios.Prelude.{
  ℕ, ◌+◌, ◌-◌, ◌≤◌, ◌<◌, ◌≡◌, refl, sym, ap, ap₂, ◌∙◌, true, false, if◌then◌else◌, List, [], ◌∷◌,
  ◌++◌, append_assoc, some, ltb, arith, length, inl, inr, ◌⊎◌, All-map, All-append, ok, err,
}
use themelios.Base.Source.{Char, Chars, len_utf8, len_utf16, byte_len, Source, is_char_boundary}
use themelios.Base.Source.Cuts.{
  cut, is_char_boundary-append, is_char_boundary-inside, byte_len-append,
}
use themelios.Base.Coordinate.{
  LineCol, ColumnEncoding, code_points, utf16_units, PositionRefusal, WideChar,
}
use themelios.Base.Line.{
  index_of, partition_point, wides_before, is_boundary, ends_by, last, take, position, offset,
}
use themelios.Base.Line.Tables.{extra, wide_from, wide_char, wide_from-Within}
use themelios.Base.Line.Split.{
  partition_point-append, take-append_length, table, table-append, table-before, wide_table,
}
use themelios.Base.Line.Position.{IsAdmitted, len_lem}
use themelios.Base.Line.RoundTrip.{offset-position}

last-append : {A : Type 0} (xs : List A) (x : A) → last (xs ++ x ∷ []) ≡ some x
last-append [] x = refl
last-append (y ∷ []) x = refl
last-append (y ∷ z ∷ xs) x = last-append (z ∷ xs) x

wide_of : (c : Char) → 1 < len_utf8 c → ltb c 128 ≡ false
unfolding len_utf8
wide_of c h = ground arith

module _ (p : Chars) (c : Char) (q : Chars) (o : ℕ) (lo : byte_len p < o)
    (hi : o < byte_len p + len_utf8 c) where
  abbrev char_entry : WideChar
  char_entry = wide_char (0 + byte_len p) (0 + extra code_points p) (0 + extra utf16_units p) c

  abbrev entries_after : List WideChar
  entries_after =
      wide_from ((0 + byte_len p) + len_utf8 c) ((0 + extra code_points p) + (len_utf8 c - 1))
        ((0 + extra utf16_units p) + (len_utf8 c - len_utf16 c)) q

  entries : table (p ++ c ∷ q) ≡ (table p ++ char_entry ∷ []) ++ entries_after
  entries =
      table-append p (c ∷ q)
      ∙ ap
          (λ b.
            table p
            ++ (if b
                then wide_from ((0 + byte_len p) + len_utf8 c) (0 + extra code_points p)
                    (0 + extra utf16_units p) q
                else char_entry ∷ entries_after))
          (wide_of c (omega arith))
      ∙ sym (append_assoc (table p) (char_entry ∷ []) entries_after)

  wides_inside :
      partition_point (λ w. ltb w.offset o) (table (p ++ c ∷ q))
      ≡ length (table p ++ char_entry ∷ [])
  wides_inside =
      ap (partition_point (λ w. ltb w.offset o)) entries
      ∙ partition_point-append (λ w. ltb w.offset o) (table p ++ char_entry ∷ []) entries_after
          (All-append (λ w. ltb w.offset o ≡ true) (table p) (char_entry ∷ [])
            (All-map (table p) (λ w h. ground (arith, h)) (table-before p)) (ground arith, tt))
          (All-map entries_after (λ w h. ground (arith, h.0))
            (wide_from-Within ((0 + byte_len p) + len_utf8 c)
              ((0 + extra code_points p) + (len_utf8 c - 1))
              ((0 + extra utf16_units p) + (len_utf8 c - len_utf16 c)) q))

  inside_lem : (s : Source) → s.text ≡ p ++ c ∷ q → is_boundary (index_of s) o ≡ false
  unfolding is_boundary wides_before
  inside_lem s e =
      let wide = wide_table s (p ++ c ∷ q) e in
      ap₂ (λ n z. ends_by o (last (take n z)))
        (ap (partition_point (λ w. ltb w.offset o)) wide ∙ wides_inside) (wide ∙ entries)
      ∙ ap (λ z. ends_by o (last z)) (take-append_length (table p ++ char_entry ∷ []) entries_after)
      ∙ ap (ends_by o) (last-append (table p) char_entry)
      ∙ ground arith

past_lem :
    (s : Source) (o : ℕ) (e : ColumnEncoding)
    → IsAdmitted s
    → byte_len s.text < o
    → position (index_of s) o e ≡ some (err (PositionRefusal.out_of_bounds o (byte_len s.text)))
unfolding position
past_lem s o e admitted h = rw (len_lem s admitted) (ground arith)

off_boundary_lem :
    (s : Source) (o : ℕ) (e : ColumnEncoding)
    → IsAdmitted s
    → o ≤ byte_len s.text
    → is_boundary (index_of s) o ≡ false
    → position (index_of s) o e
      ≡ some (err (PositionRefusal.not_char_boundary (record { offset = o })))
unfolding position
off_boundary_lem s o e admitted h off = rw (len_lem s admitted, off) (ground arith)

-- In an admitted source an offset past the end is refused as out of bounds, and one inside a
-- character as off a boundary, whichever the encoding; one on a boundary has a coordinate whose
-- offset it is.
pub position-is_char_boundary :
    (s : Source) (o : ℕ) (e : ColumnEncoding)
    → IsAdmitted s
    → ((byte_len s.text < o)
        × (position (index_of s) o e
            ≡ some (err (PositionRefusal.out_of_bounds o (byte_len s.text)))))
      ⊎ (((o ≤ byte_len s.text)
            × (is_char_boundary s.text o ≡ false)
            × (position (index_of s) o e
                ≡ some (err (PositionRefusal.not_char_boundary (record { offset = o })))))
          ⊎ ((at : LineCol) × (is_char_boundary s.text o ≡ true)
              × (position (index_of s) o e ≡ some (ok at))
              × (offset (index_of s) at e ≡ some (ok o))))
position-is_char_boundary s o e admitted = elim (cut o s.text) [
  | inl (p, q, split, here) ↦
      let (at, there, back) = offset-position s p q e admitted split in
      inr (
        inr (
          at,
          (ap₂ is_char_boundary split here ∙ is_char_boundary-append p q),
          (ap (λ z. position (index_of s) z e) here ∙ there),
          (back ∙ ap (λ z. some (ok z)) (sym here)),
        ))
  | inr (inl (p, c, q, split, lo, hi)) ↦
      let le : o ≤ byte_len s.text = omega (arith, ap byte_len split, byte_len-append p (c ∷ q)) in
      inr (
        inl (
          le,
          (ap (λ t. is_char_boundary t o) split ∙ is_char_boundary-inside p c q o lo hi),
          off_boundary_lem s o e admitted le (inside_lem p c q o lo hi s split),
        ))
  | inr (inr past) ↦ inl (past, past_lem s o e admitted past)
]
