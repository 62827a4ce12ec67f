-- ===== src/Syntax/Extents/Words.antt =====
-- The extents of names, numerals and `#`-words.
use themelios.Prelude.{
  ℕ, zero, suc, ◌+◌, ◌≤◌, ◌<◌, ◌≡◌, ap, subst, Bool, true, [], ◌∷◌, Option, none, some, ◌==◌, ◌&&◌,
  arith, Bool-cases, Option-cases, inl, inr, is_some, get_elem?,
}
use themelios.Base.Source.{Char, Chars}
use themelios.Base.Line.{take, drop}
use themelios.Syntax.Token.{SyntaxKind, LexMode}
use themelios.Syntax.Scan.{chars, run, is_byte, is_digit, is_name_char}
use themelios.Syntax.Words.{
  is_normal, same_text, hash_word, number, prefixed, digit_class, name, name_of, letter_kind,
  is_prefix_char, is_inner_char,
}
use themelios.Syntax.Extents.{IsAscii, IsAscii-run, IsAscii-skip}
use themelios.Syntax.Extents.Forms.{
  IsForm, Forms, is_ascii_next, IsAscii-le, IsAscii-two, IsAscii-next,
}

is_name_char_ascii : (c : Char) → is_name_char c ≡ true → c < 128
is_name_char_ascii c h = ground (arith, h)

word-IsAscii : (cs : Chars) → IsAscii 1 cs → IsAscii (1 + run is_name_char (drop 1 cs)) cs
word-IsAscii cs h =
    IsAscii-skip 1 (run is_name_char (drop 1 cs)) cs h
      (IsAscii-run is_name_char (drop 1 cs) is_name_char_ascii)

pub hash_word-IsForm : (cs : Chars) (mode : LexMode) → IsAscii 1 cs → IsForm cs (hash_word cs mode)
unfolding hash_word
hash_word-IsForm cs mode h =
    let n = 1 + run is_name_char (drop 1 cs) in
    elim (Bool-cases
      (is_normal mode && (same_text (take n cs) (chars "#sum") && is_byte (get_elem? cs n) b'+'))) [
        | inl plus ↦ rw plus (
          IsAscii-next n cs b'+' (word-IsAscii cs h) (ground (arith, plus)) (omega arith),
          omega arith,
        )
        | inr other ↦ rw other (word-IsAscii cs h, omega arith)
      ]

abbrev OfAscii : Option (Char → Bool) → Type 0
OfAscii none = Unit
OfAscii (some admits) = (c : Char) → admits c ≡ true → c < 128

digit_class-OfAscii : (o : Option Char) → OfAscii (digit_class o)
digit_class-OfAscii none = tt
digit_class-OfAscii (some c) = elim (Bool-cases (c == b'x')) [
  | inl hex ↦ rw hex (λ c h. ground (arith, h))
  | inr no_hex ↦ elim (Bool-cases (c == b'o')) [
    | inl oct ↦ rw (no_hex, oct) (λ c h. ground (arith, h))
    | inr no_oct ↦ elim (Bool-cases (c == b'b')) [
      | inl bin ↦ rw (no_hex, no_oct, bin) (λ c h. ground (arith, h))
      | inr no_bin ↦ rw (no_hex, no_oct, no_bin) tt
    ]
  ]
]

digit_class-next : (o : Option Char) → is_some (digit_class o) ≡ true → is_ascii_next o ≡ true
digit_class-next none h = ground (arith, h)
digit_class-next (some c) h = ground (arith, h)

-- A digit class stands for a second character `x`, `o` or `b`.
class_lem :
    (o : Option Char) (admits : Char → Bool)
    → digit_class o ≡ some admits
    → (is_ascii_next o ≡ true) × ((c : Char) → admits c ≡ true → c < 128)
class_lem o admits h = (digit_class-next o (ap is_some h), subst OfAscii h (digit_class-OfAscii o))

prefixed-IsAscii :
    (n : ℕ) (cs : Chars)
    → IsAscii 2 cs
    → IsAscii n (drop 2 cs)
    → IsAscii (prefixed n) cs × (1 ≤ prefixed n)
prefixed-IsAscii zero cs h more = (IsAscii-le 1 2 cs (omega arith) h, omega arith)
prefixed-IsAscii (suc n) cs h more = (IsAscii-skip 2 (suc n) cs h more, omega arith)

pub number-extent :
    (c : Char) (cs : Chars)
    → is_digit c ≡ true
    → IsForm (c ∷ cs) (SyntaxKind.number, number (c ∷ cs))
unfolding number run
number-extent c cs digit = elim (Bool-cases (c == b'0')) [
  | inr nonzero ↦
      rw (nonzero, digit)
        ((ground (arith, digit), IsAscii-run is_digit cs (λ c h. ground (arith, h))), omega arith)
  | inl zero_ ↦ elim (Option-cases (digit_class (get_elem? cs 0))) [
    | inl plain ↦ rw (zero_, plain) ((ground (arith, zero_), tt), omega arith)
    | inr (admits, class) ↦
        let (next, small) = class_lem (get_elem? cs 0) admits class in
        rw (zero_, class)
          (prefixed-IsAscii (run admits (drop 2 (c ∷ cs))) (c ∷ cs)
            (IsAscii-two 2 c cs (ground (arith, zero_)) (omega arith) (λ _. next))
            (IsAscii-run admits (drop 2 (c ∷ cs)) small))
  ]
]

letter_kind-IsAscii :
    (n : ℕ) (cs : Chars) (kind : SyntaxKind)
    → IsAscii n cs
    → letter_kind (get_elem? cs n) ≡ some kind
    → IsAscii (n + 1) cs
letter_kind-IsAscii n cs kind h at = IsAscii-skip n 1 cs h (one n cs at)
  where
    one : (n : ℕ) (cs : Chars) → letter_kind (get_elem? cs n) ≡ some kind → IsAscii 1 (drop n cs)
    one n [] at = absurd (ground (arith, at))
    one zero (c ∷ cs) at = (ground (arith, at), tt)
    one (suc n) (c ∷ cs) at = one n cs at

name_of-Forms :
    (cs : Chars) (n : ℕ) (kind : Option SyntaxKind)
    → 1 ≤ n
    → IsAscii n cs
    → Forms cs (name_of cs n kind)
name_of-Forms cs n none pos h = tt
name_of-Forms cs n (some SyntaxKind.ident) pos h =
    elim (Bool-cases (same_text (take n cs) (chars "not"))) [
      | inl keyword ↦ rw keyword (h, pos)
      | inr other ↦ rw other (h, pos)
    ]
name_of-Forms cs n (some _) pos h = (h, pos)

pub name-Forms : (cs : Chars) → Forms cs (name cs)
unfolding name
name-Forms cs =
    let n = run is_prefix_char cs in
    elim (Option-cases (letter_kind (get_elem? cs n))) [
      | inl no_letter ↦ rw no_letter tt
      | inr (kind, letter) ↦
          let front =
            letter_kind-IsAscii n cs kind (IsAscii-run is_prefix_char cs (λ c h. ground (arith, h)))
              letter in
          rw letter (
            name_of-Forms cs (n + 1 + run is_inner_char (drop (n + 1) cs)) (some kind) (omega arith)
              (IsAscii-skip (n + 1) (run is_inner_char (drop (n + 1) cs)) cs front
                (IsAscii-run is_inner_char (drop (n + 1) cs) (λ c h. ground (arith, h)))))
    ]
