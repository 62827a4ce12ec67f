-- ===== src/Base/Line/Tables.antt =====
-- The tables of the line index, by recursion on the text.
use themelios.Prelude.{
  ℕ, ◌+◌, ◌-◌, ◌≤◌, ◌≡◌, refl, sym, ap, ◌∙◌, true, if◌then◌else◌, List, [], ◌∷◌, ◌++◌, append_assoc,
  append-nil, ltb, ◌==◌, arith, Bool-cases, inl, inr, All, All-map,
}
use themelios.Base.Source.{Char, Chars, len_utf8, len_utf16, byte_len, Source}
pub use themelios.Base.Source.Cuts.{byte_len-append}
use themelios.Base.Coordinate.{ColumnEncoding, utf8_bytes, code_points, utf16_units, WideChar}
use themelios.Base.Line.{Scan, scan, scan_start, scan_char, index_of}

-- The starts of the lines after the first, in a text from the offset `k` on.
abbrev pub starts_from : ℕ → Chars → List ℕ
starts_from k [] = []
starts_from k (c ∷ cs) =
    if c == 10 then (k + 1) ∷ starts_from (k + len_utf8 c) cs else starts_from (k + len_utf8 c) cs

abbrev pub wide_char : ℕ → ℕ → ℕ → Char → WideChar
wide_char k cp u c = record {
  offset = k;
  byte_len = len_utf8 c;
  utf16_len = len_utf16 c;
  cp_before = cp;
  utf16_before = u;
}

-- The wide characters, with the surpluses `cp` and `u` before the text.
abbrev pub wide_from : ℕ → ℕ → ℕ → Chars → List WideChar
wide_from k cp u [] = []
wide_from k cp u (c ∷ cs) =
    if ltb c 128
    then wide_from (k + len_utf8 c) cp u cs
    else wide_char k cp u c
      ∷ wide_from (k + len_utf8 c) (cp + (len_utf8 c - 1)) (u + (len_utf8 c - len_utf16 c)) cs

-- The widths of a character: UTF-16 takes no more units than UTF-8 takes bytes, and an ASCII
-- character is one of each.
pub widths :
    (c : Char)
    → (1 ≤ len_utf8 c)
      × (1 ≤ len_utf16 c)
      × (len_utf16 c ≤ len_utf8 c)
      × (ltb c 128 ≡ true → (len_utf8 c ≡ 1) × (len_utf16 c ≡ 1))
unfolding len_utf8 len_utf16
widths c = ground arith

scan_lem :
    (s : Scan) (cs : Chars)
    → ((scan s cs).line_starts ≡ s.line_starts ++ starts_from s.offset cs)
      × ((scan s cs).wide ≡ s.wide ++ wide_from s.offset s.cp_before s.utf16_before cs)
unfolding scan
scan_lem s [] = (sym (append-nil s.line_starts), sym (append-nil s.wide))
scan_lem s (c ∷ cs) =
    let (starts, wide) = scan_lem (scan_char s c) cs in
    (
      ground (
        arith,
        widths c,
        starts,
        append_assoc s.line_starts ((s.offset + 1) ∷ []) (starts_from (s.offset + len_utf8 c) cs),
      ),
      ground (
        arith,
        wide,
        append_assoc s.wide (wide_char s.offset s.cp_before s.utf16_before c ∷ []) (
            wide_from (s.offset + len_utf8 c) (s.cp_before + (len_utf8 c - 1))
              (s.utf16_before + (len_utf8 c - len_utf16 c)) cs),
      ),
    )

pub line_starts_lem : (s : Source) → (index_of s).line_starts ≡ 0 ∷ starts_from 0 s.text
unfolding index_of
line_starts_lem s = (scan_lem scan_start s.text).0

pub wide_lem : (s : Source) → (index_of s).wide ≡ wide_from 0 0 0 s.text
unfolding index_of
wide_lem s = (scan_lem scan_start s.text).1

-- The bytes that a character or a text takes beyond its units.
abbrev pub char_units : ColumnEncoding → Char → ℕ
char_units utf8_bytes c = len_utf8 c
char_units code_points c = 1
char_units utf16_units c = len_utf16 c

abbrev pub units : ColumnEncoding → Chars → ℕ
units e [] = 0
units e (c ∷ cs) = char_units e c + units e cs

abbrev pub extra : ColumnEncoding → Chars → ℕ
extra e [] = 0
extra e (c ∷ cs) = (len_utf8 c - char_units e c) + extra e cs

pub char_units-le :
    (e : ColumnEncoding) (c : Char)
    → (1 ≤ char_units e c)
      × (char_units e c ≤ len_utf8 c)
      × (ltb c 128 ≡ true → char_units e c ≡ len_utf8 c)
char_units-le utf8_bytes c = ground (arith, widths c)
char_units-le code_points c = ground (arith, widths c)
char_units-le utf16_units c = ground (arith, widths c)

pub units-extra : (e : ColumnEncoding) (cs : Chars) → units e cs + extra e cs ≡ byte_len cs
units-extra e [] = refl
units-extra e (c ∷ cs) = omega (arith, units-extra e cs, char_units-le e c)

pub extra-append : (e : ColumnEncoding) (p q : Chars) → extra e (p ++ q) ≡ extra e p + extra e q
extra-append e [] q = omega arith
extra-append e (c ∷ p) q = omega (arith, extra-append e p q)

pub units-append : (e : ColumnEncoding) (p q : Chars) → units e (p ++ q) ≡ units e p + units e q
units-append e [] q = omega arith
units-append e (c ∷ p) q = omega (arith, units-append e p q)

wide_from-cong :
    {k l cp cp' u u' : ℕ} (q : Chars)
    → k ≡ l
    → cp ≡ cp'
    → u ≡ u'
    → wide_from k cp u q ≡ wide_from l cp' u' q
wide_from-cong q a b c = λ i. wide_from (a i) (b i) (c i) q

-- The table of a text in two parts.
pub wide_from-append :
    (k cp u : ℕ) (p q : Chars)
    → wide_from k cp u (p ++ q)
      ≡ wide_from k cp u p
        ++ wide_from (k + byte_len p) (cp + extra code_points p) (u + extra utf16_units p) q
wide_from-append k cp u [] q = wide_from-cong q (omega arith) (omega arith) (omega arith)
wide_from-append k cp u (c ∷ p) q = elim (Bool-cases (ltb c 128)) [
  | inl ascii ↦
      let w = (widths c).3 ascii in
      rw ascii (
        wide_from-append (k + len_utf8 c) cp u p q
        ∙ ap (λ t. wide_from (k + len_utf8 c) cp u p ++ t)
            (wide_from-cong q (omega arith) (omega (arith, w.0)) (omega (arith, w.0, w.1))))
  | inr wide ↦ rw wide (
      ap (λ t. wide_char k cp u c ∷ t)
        (wide_from-append (k + len_utf8 c) (cp + (len_utf8 c - 1)) (u + (len_utf8 c - len_utf16 c))
            p q
          ∙ ap
              (λ t.
                wide_from (k + len_utf8 c) (cp + (len_utf8 c - 1)) (u + (len_utf8 c - len_utf16 c))
                  p
                ++ t)
              (wide_from-cong q (omega arith) (omega arith) (omega arith))))
]

starts_from-cong : (k l : ℕ) (q : Chars) → k ≡ l → starts_from k q ≡ starts_from l q
starts_from-cong k l q e = ap (λ k. starts_from k q) e

pub starts_from-append :
    (k : ℕ) (p q : Chars)
    → starts_from k (p ++ q) ≡ starts_from k p ++ starts_from (k + byte_len p) q
starts_from-append k [] q = starts_from-cong k (k + 0) q (omega arith)
starts_from-append k (c ∷ p) q =
    let rest = starts_from-append (k + len_utf8 c) p q in
    let e =
      starts_from-cong (k + len_utf8 c + byte_len p) (k + (len_utf8 c + byte_len p)) q
        (omega arith) in
    ground (arith, rest, e)

-- Where the wide characters of a part of the text stand.
abbrev pub Within : ℕ → ℕ → WideChar → Type 0
Within k l w = (k ≤ w.offset) × (w.offset + w.byte_len ≤ l) × (1 ≤ w.byte_len)

pub wide_from-Within :
    (k cp u : ℕ) (p : Chars) → All (Within k (k + byte_len p)) (wide_from k cp u p)
wide_from-Within k cp u [] = tt
wide_from-Within k cp u (c ∷ p) = elim (Bool-cases (ltb c 128)) [
  | inl ascii ↦ rw ascii (
      All-map (wide_from (k + len_utf8 c) cp u p)
        (λ w h. (omega (arith, h.0), omega (arith, h.1), h.2))
        (wide_from-Within (k + len_utf8 c) cp u p))
  | inr wide ↦
      let cp' = cp + (len_utf8 c - 1) in
      let u' = u + (len_utf8 c - len_utf16 c) in
      rw wide (
        (omega arith, omega arith, (widths c).0),
        All-map (wide_from (k + len_utf8 c) cp' u' p)
            (λ w h. (omega (arith, h.0), omega (arith, h.1), h.2))
            (wide_from-Within (k + len_utf8 c) cp' u' p),
      )
]
