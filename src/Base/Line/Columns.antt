-- ===== src/Base/Line/Columns.antt =====
-- The columns of the wide characters in a line.
use themelios.Prelude.{
  ℕ, ◌+◌, ◌-◌, ◌≤◌, ◌≡◌, refl, ◌∙◌, [], ◌∷◌, ltb, arith, Bool-cases, inl, inr, All, All-map,
}
use themelios.Base.Source.{Char, Chars, len_utf8, len_utf16}
use themelios.Base.Coordinate.{
  ColumnEncoding, utf8_bytes, code_points, utf16_units, WideChar, surplus_before, unit_len,
}
use themelios.Base.Line.Tables.{wide_from, wide_char, char_units, char_units-le, units, widths}

-- The columns of the wide characters of a part `p` of a line, `b` bytes and `s` units of surplus
-- after the line's start.
abbrev pub Columns : ColumnEncoding → ℕ → ℕ → ℕ → ℕ → WideChar → Type 0
Columns e start base lo hi w =
    (lo ≤ (w.offset - start) - (surplus_before w e - base))
    × ((w.offset - start) - (surplus_before w e - base) + unit_len w e ≤ hi)
    × (1 ≤ unit_len w e)

-- The surplus before, of those of the table.
abbrev pub pick : ColumnEncoding → ℕ → ℕ → ℕ
pick utf8_bytes cp u = 0
pick code_points cp u = cp
pick utf16_units cp u = u

pub pick-step :
    (e : ColumnEncoding) (cp u : ℕ) (c : Char)
    → pick e (cp + (len_utf8 c - 1)) (u + (len_utf8 c - len_utf16 c))
      ≡ pick e cp u + (len_utf8 c - char_units e c)
pick-step utf8_bytes cp u c = omega arith
pick-step code_points cp u c = refl
pick-step utf16_units cp u c = refl

column :
    (e : ColumnEncoding) (start base b s k cp u : ℕ) (c : Char) (n : ℕ)
    → s ≤ b
    → k ≡ start + b
    → pick e cp u ≡ base + s
    → Columns e start base (b - s) ((b - s) + (char_units e c + n)) (wide_char k cp u c)
column utf8_bytes start base b s k cp u c n le here at = (
  omega (arith, at, here),
  omega (arith, at, here, widths c),
  omega (arith, (widths c).0, (widths c).1),
)
column code_points start base b s k cp u c n le here at = (
  omega (arith, at, here),
  omega (arith, at, here, widths c),
  omega (arith, (widths c).0, (widths c).1),
)
column utf16_units start base b s k cp u c n le here at = (
  omega (arith, at, here),
  omega (arith, at, here, widths c),
  omega (arith, (widths c).0, (widths c).1),
)

pub wide_from-Columns :
    (e : ColumnEncoding) (start base b s k cp u : ℕ) (p : Chars)
    → s ≤ b
    → k ≡ start + b
    → pick e cp u ≡ base + s
    → All (Columns e start base (b - s) ((b - s) + units e p)) (wide_from k cp u p)
wide_from-Columns e start base b s k cp u [] le here at = tt
wide_from-Columns e start base b s k cp u (c ∷ p) le here at = elim (Bool-cases (ltb c 128)) [
  | inl ascii ↦
      let w = char_units-le e c in
      let same = w.2 ascii in
      rw ascii (
        All-map (wide_from (k + len_utf8 c) cp u p)
          (λ w h. (omega (arith, h.0, same), omega (arith, h.1, same), h.2))
          (wide_from-Columns e start base (b + len_utf8 c) s (k + len_utf8 c) cp u p (omega arith)
            (omega arith) at))
  | inr wide ↦
      let w = char_units-le e c in
      let cp' = cp + (len_utf8 c - 1) in
      let u' = u + (len_utf8 c - len_utf16 c) in
      let more = len_utf8 c - char_units e c in
      rw wide (
        column e start base b s k cp u c (units e p) le here at,
        All-map (wide_from (k + len_utf8 c) cp' u' p)
            (λ z h. (omega (arith, h.0, w.0, w.1), omega (arith, h.1, w.0, w.1), h.2))
            (wide_from-Columns e start base (b + len_utf8 c) (s + more) (k + len_utf8 c) cp' u' p
              (omega arith) (omega arith) (pick-step e cp u c ∙ omega (arith, at))),
      )
]
