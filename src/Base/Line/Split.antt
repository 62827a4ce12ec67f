-- ===== src/Base/Line/Split.antt =====
-- The tables of the index at a place where the text is split.
use themelios.Prelude.{
  ℕ, ◌+◌, ◌-◌, ◌≤◌, ◌≡◌, refl, sym, ap, ◌∙◌, Bool, true, false, List, [], ◌∷◌, ◌++◌, append-nil,
  ltb, arith, length, get_elem?, Bool-cases, inl, inr, ◌⊎◌, All, All-map,
}
use themelios.Base.Source.{Char, Chars, len_utf8, len_utf16, byte_len, Source}
use themelios.Base.Coordinate.{
  ColumnEncoding, utf8_bytes, code_points, utf16_units, WideChar, surplus, surplus_before,
}
use themelios.Base.Line.{
  index_of, partition_point, last, take, drop, ends_by, surplus_through, surplus_at,
}
use themelios.Base.Line.Tables.{
  wide_from, wide_char, char_units, extra, wide_from-Within, char_units-le, wide_from-append,
  wide_lem,
}
use themelios.Base.Line.Columns.{pick, pick-step}

module _ {A : Type 0} where
  -- The test splits the list between the two parts.
  pub partition_point-append :
      (p : A → Bool) (xs ys : List A)
      → All (λ x. p x ≡ true) xs
      → All (λ y. p y ≡ false) ys
      → partition_point p (xs ++ ys) ≡ length xs
  unfolding partition_point
  partition_point-append p [] [] hx hy = refl
  partition_point-append p [] (y ∷ ys) hx hy = ground (arith, hy.0)
  partition_point-append p (x ∷ xs) ys hx hy =
      ground (arith, hx.0, partition_point-append p xs ys hx.1 hy)

  pub get_elem?-append_length : (xs ys : List A) → get_elem? (xs ++ ys) (length xs) ≡ get_elem? ys 0
  get_elem?-append_length [] ys = refl
  get_elem?-append_length (x ∷ xs) ys = get_elem?-append_length xs ys

  pub take-append_length : (xs ys : List A) → take (length xs) (xs ++ ys) ≡ xs
  take-append_length [] ys = refl
  take-append_length (x ∷ xs) ys = ap (λ t. x ∷ t) (take-append_length xs ys)

  pub drop-append_length : (xs ys : List A) → drop (length xs) (xs ++ ys) ≡ ys
  drop-append_length [] ys = refl
  drop-append_length (x ∷ xs) ys = drop-append_length xs ys

pub ends_by-last :
    (o : ℕ) (xs : List WideChar)
    → All (λ w. w.offset + w.byte_len ≤ o) xs
    → ends_by o (last xs) ≡ true
ends_by-last o [] h = refl
ends_by-last o (x ∷ []) h = ground (arith, h.0)
ends_by-last o (x ∷ y ∷ ys) h = ends_by-last o (y ∷ ys) h.1

-- The surplus through the last of the list, or `d`.
abbrev through_or : ColumnEncoding → ℕ → List WideChar → ℕ
through_or e d [] = d
through_or e d (x ∷ xs) = through_or e (surplus_before x e + surplus x e) xs

through_last :
    (e : ColumnEncoding) (d : ℕ) (x : WideChar) (xs : List WideChar)
    → surplus_through e (last (x ∷ xs)) ≡ through_or e d (x ∷ xs)
through_last e d x [] = refl
through_last e d x (y ∷ ys) = through_last e d y ys

surplus_through-last :
    (e : ColumnEncoding) (xs : List WideChar) → surplus_through e (last xs) ≡ through_or e 0 xs
surplus_through-last e [] = refl
surplus_through-last e (x ∷ xs) = through_last e 0 x xs

surplus_char :
    (e : ColumnEncoding) (k cp u : ℕ) (c : Char)
    → surplus_before (wide_char k cp u c) e + surplus (wide_char k cp u c) e
      ≡ pick e cp u + (len_utf8 c - char_units e c)
surplus_char utf8_bytes k cp u c = refl
surplus_char code_points k cp u c = refl
surplus_char utf16_units k cp u c = refl

through_or-wide_from :
    (e : ColumnEncoding) (k cp u : ℕ) (p : Chars)
    → through_or e (pick e cp u) (wide_from k cp u p) ≡ pick e cp u + extra e p
through_or-wide_from e k cp u [] = omega arith
through_or-wide_from e k cp u (c ∷ p) = elim (Bool-cases (ltb c 128)) [
  | inl ascii ↦
      let same = (char_units-le e c).2 ascii in
      rw ascii (through_or-wide_from e (k + len_utf8 c) cp u p ∙ omega (arith, same))
  | inr wide ↦
      let cp' = cp + (len_utf8 c - 1) in
      let u' = u + (len_utf8 c - len_utf16 c) in
      rw wide (
        ap (λ d. through_or e d (wide_from (k + len_utf8 c) cp' u' p))
          (surplus_char e k cp u c ∙ sym (pick-step e cp u c))
        ∙ through_or-wide_from e (k + len_utf8 c) cp' u' p
        ∙ omega (arith, pick-step e cp u c))
]

first :
    (e : ColumnEncoding) (k cp u : ℕ) (q : Chars)
    → (wide_from k cp u q ≡ [])
      ⊎ ((w : WideChar) × (ws : List WideChar) × (wide_from k cp u q ≡ w ∷ ws)
          × (surplus_before w e ≡ pick e cp u))
first e k cp u [] = inl refl
first e k cp u (c ∷ q) = elim (Bool-cases (ltb c 128)) [
  | inl ascii ↦ rw ascii (first e (k + len_utf8 c) cp u q)
  | inr wide ↦ rw wide (inr (wide_char k cp u c, _, refl, before e))
]
  where
    before : (e : ColumnEncoding) → surplus_before (wide_char k cp u c) e ≡ pick e cp u
    before utf8_bytes = refl
    before code_points = refl
    before utf16_units = refl

pub extra-utf8 : (p : Chars) → extra utf8_bytes p ≡ 0
extra-utf8 [] = refl
extra-utf8 (c ∷ p) = omega (arith, extra-utf8 p)

pub pick-extra :
    (e : ColumnEncoding) (p : Chars)
    → pick e (0 + extra code_points p) (0 + extra utf16_units p) ≡ extra e p
pick-extra utf8_bytes p = sym (extra-utf8 p)
pick-extra code_points p = omega arith
pick-extra utf16_units p = omega arith

pub table : Chars → List WideChar
table p = wide_from 0 0 0 p

-- The wide characters of `q` after `p`.
abbrev pub tail_table : Chars → Chars → List WideChar
tail_table p q = wide_from (0 + byte_len p) (0 + extra code_points p) (0 + extra utf16_units p) q

pub table-append : (p q : Chars) → table (p ++ q) ≡ table p ++ tail_table p q
unfolding table
table-append p q = wide_from-append 0 0 0 p q

-- The surplus at the index where the text is split is that of the first part.
surplus_end :
    (e : ColumnEncoding) (p : Chars) (ws : List WideChar)
    → ws ≡ []
    → surplus_at e (table p ++ ws) (get_elem? (table p ++ ws) (length (table p))) ≡ extra e p
unfolding table
surplus_end e p ws none_ =
    let xs = table p in
    ap (λ z. surplus_at e (xs ++ z) (get_elem? (xs ++ z) (length xs))) none_
    ∙ ap (surplus_at e (xs ++ [])) (get_elem?-append_length xs [])
    ∙ ap (λ z. surplus_through e (last z)) (append-nil xs)
    ∙ surplus_through-last e xs
    ∙ ap (λ d. through_or e d xs) (sym (zero_pick e))
    ∙ through_or-wide_from e 0 0 0 p
    ∙ ap (λ d. d + extra e p) (zero_pick e)
    ∙ omega arith
  where
    zero_pick : (e : ColumnEncoding) → pick e 0 0 ≡ 0
    zero_pick utf8_bytes = refl
    zero_pick code_points = refl
    zero_pick utf16_units = refl

pub surplus_split :
    (e : ColumnEncoding) (p q : Chars)
    → surplus_at e (table (p ++ q)) (get_elem? (table (p ++ q)) (length (table p))) ≡ extra e p
surplus_split e p q =
    let whole = table-append p q in
    ap (λ z. surplus_at e z (get_elem? z (length (table p)))) whole
    ∙ elim (first e (0 + byte_len p) (0 + extra code_points p) (0 + extra utf16_units p) q) [
      | inl none_ ↦ surplus_end e p (tail_table p q) none_
      | inr (w, ws, here, before) ↦
          ap (surplus_at e (table p ++ tail_table p q))
            (get_elem?-append_length (table p) (tail_table p q) ∙ ap (λ z. get_elem? z 0) here)
          ∙ before
          ∙ pick-extra e p
    ]

-- The wide characters before the split start before it, and those after it do not.
pub table-before : (p : Chars) → All (λ w. ltb w.offset (byte_len p) ≡ true) (table p)
unfolding table
table-before p = All-map (table p) (λ w h. ground (arith, h.1, h.2)) (wide_from-Within 0 0 0 p)

pub table-after : (p q : Chars) → All (λ w. ltb w.offset (byte_len p) ≡ false) (tail_table p q)
table-after p q =
    All-map (tail_table p q) (λ w h. ground (arith, h.0))
      (wide_from-Within (0 + byte_len p) (0 + extra code_points p) (0 + extra utf16_units p) q)

pub table-ends : (p : Chars) → All (λ w. w.offset + w.byte_len ≤ byte_len p) (table p)
unfolding table
table-ends p = All-map (table p) (λ w h. omega (arith, h.1)) (wide_from-Within 0 0 0 p)

pub partition_point-table :
    (p q : Chars)
    → partition_point (λ w. ltb w.offset (byte_len p)) (table (p ++ q)) ≡ length (table p)
partition_point-table p q =
    ap (partition_point (λ w. ltb w.offset (byte_len p))) (table-append p q)
    ∙ partition_point-append (λ w. ltb w.offset (byte_len p)) (table p) (tail_table p q)
        (table-before p) (table-after p q)

pub wide_table : (s : Source) (t : Chars) → s.text ≡ t → (index_of s).wide ≡ table t
unfolding table
wide_table s t e = wide_lem s ∙ ap table e
