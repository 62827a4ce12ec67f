-- ===== src/Syntax/Extents/Forms.antt =====
-- The extents of punctuation and operators.
use themelios.Prelude.{
  ℕ, zero, suc, ◌+◌, ◌≤◌, ◌<◌, ◌≡◌, refl, ap, Bool, true, false, [], ◌∷◌, Option, none, some, ltb,
  arith, Option-cases, inl, inr, length, get_elem?,
}
use themelios.Base.Source.{Char, Chars}
use themelios.Base.Line.{take, drop}
use themelios.Syntax.Token.{Lexed}
use themelios.Syntax.Scan.{chars, run, is_byte}
use themelios.Syntax.Words.{same_text}
use themelios.Syntax.Punctuation.{
  form, punctuation_normal, is_theory_operator_char, theory_operator_run, punctuation_theory,
  operator_kind, operator_of, structural,
}
use themelios.Syntax.Extents.{IsAscii, IsAscii-run, IsAscii-skip}

-- As many ASCII characters as the token has bytes, and at least one.
abbrev pub IsForm : Chars → Lexed → Type 0
IsForm cs token = IsAscii token.1 cs × (1 ≤ token.1)

-- What is formed, if anything.
abbrev pub Forms : Chars → Option Lexed → Type 0
Forms cs none = Unit
Forms cs (some token) = IsForm cs token

abbrev pub is_ascii_next : Option Char → Bool
is_ascii_next none = false
is_ascii_next (some d) = ltb d 128

-- One or two ASCII characters.
abbrev Fits : Char → Option Char → Option Lexed → Type 0
Fits first second none = Unit
Fits first second (some token) =
    (first < 128) × ((1 ≤ token.1) × (token.1 ≤ 2) × (2 ≤ token.1 → is_ascii_next second ≡ true))

form-Fits : (first : Char) (second : Option Char) → Fits first second (form first second)
unfolding form
form-Fits first none = ground arith
form-Fits first (some d) = ground arith

pub IsAscii-le : (m n : ℕ) (cs : Chars) → m ≤ n → IsAscii n cs → IsAscii m cs
IsAscii-le zero n cs le h = tt
IsAscii-le (suc m) zero cs le h = absurd (omega (arith, le))
IsAscii-le (suc m) (suc n) [] le h = h
IsAscii-le (suc m) (suc n) (c ∷ cs) le h = (h.0, IsAscii-le m n cs (omega (arith, le)) h.1)

pub IsAscii-two :
    (n : ℕ) (c : Char) (cs : Chars)
    → c < 128
    → n ≤ 2
    → (2 ≤ n → is_ascii_next (get_elem? cs 0) ≡ true)
    → IsAscii n (c ∷ cs)
IsAscii-two zero c cs small le next = tt
IsAscii-two (suc zero) c cs small le next = (small, tt)
IsAscii-two (suc (suc n)) c [] small le next = absurd (ground (arith, next (omega arith)))
IsAscii-two (suc (suc zero)) c (d ∷ cs) small le next =
    (small, (ground (arith, next (omega arith)), tt))
IsAscii-two (suc (suc (suc n))) c (d ∷ cs) small le next = absurd (omega (arith, le))

Fits-Forms :
    (c : Char) (cs : Chars) (o : Option Lexed) → Fits c (get_elem? cs 0) o → Forms (c ∷ cs) o
Fits-Forms c cs none h = tt
Fits-Forms c cs (some token) h = (IsAscii-two token.1 c cs h.0 h.1.1 h.1.2, h.1.0)

pub punctuation_normal-Forms : (cs : Chars) → Forms cs (punctuation_normal cs)
unfolding punctuation_normal
punctuation_normal-Forms [] = tt
punctuation_normal-Forms (c ∷ cs) =
    Fits-Forms c cs (form c (get_elem? cs 0)) (form-Fits c (get_elem? cs 0))

length-same_text : (cs ds : Chars) → same_text cs ds ≡ true → length cs ≡ length ds
unfolding same_text
length-same_text [] [] h = refl
length-same_text [] (d ∷ ds) h = absurd (ground (arith, h))
length-same_text (c ∷ cs) [] h = absurd (ground (arith, h))
length-same_text (c ∷ cs) (d ∷ ds) h = ap suc (length-same_text cs ds (ground (arith, h)))

length-take : (n : ℕ) (cs : Chars) → length (take n cs) ≤ n
length-take zero cs = omega arith
length-take (suc n) [] = omega arith
length-take (suc n) (c ∷ cs) = omega (arith, length-take n cs)

operator_extent :
    (op : Chars) (len : ℕ)
    → 1 ≤ len
    → length op ≤ len
    → (1 ≤ (operator_kind op len).1) × ((operator_kind op len).1 ≤ len)
operator_extent op len pos le = ground (
  arith,
  length-same_text op (chars "."),
  length-same_text op (chars ";"),
  length-same_text op (chars ":"),
  length-same_text op (chars ":-"),
)

operator_of-Forms : (n : ℕ) (cs : Chars) → IsAscii n cs → Forms cs (operator_of cs n)
operator_of-Forms zero cs h = tt
operator_of-Forms (suc n) cs h =
    let (pos, le) =
      operator_extent (take (suc n) cs) (suc n) (omega arith) (length-take (suc n) cs) in
    (IsAscii-le (operator_kind (take (suc n) cs) (suc n)).1 (suc n) cs le h, pos)

pub theory_operator_run-Forms : (cs : Chars) → Forms cs (theory_operator_run cs)
unfolding theory_operator_run is_theory_operator_char
theory_operator_run-Forms cs =
    operator_of-Forms (run is_theory_operator_char cs) cs
      (IsAscii-run is_theory_operator_char cs (λ c h. ground (arith, h)))

pub punctuation_theory-Forms : (cs : Chars) → Forms cs (punctuation_theory cs)
unfolding punctuation_theory
punctuation_theory-Forms [] = theory_operator_run-Forms []
punctuation_theory-Forms (c ∷ cs) = elim (Option-cases (structural (some c))) [
  | inl other ↦ rw (other, punctuation_theory) (theory_operator_run-Forms (c ∷ cs))
  | inr (kind, here) ↦ rw (here, punctuation_theory) ((ground (arith, here), tt), omega arith)
]

pub IsAscii-next :
    (n : ℕ) (cs : Chars) (b : Char)
    → IsAscii n cs
    → is_byte (get_elem? cs n) b ≡ true
    → b < 128
    → IsAscii (n + 1) cs
IsAscii-next n cs b h at small = IsAscii-skip n 1 cs h (one n cs at)
  where
    one : (n : ℕ) (cs : Chars) → is_byte (get_elem? cs n) b ≡ true → IsAscii 1 (drop n cs)
    one n [] at = absurd (ground (arith, at))
    one zero (c ∷ cs) at = (ground (arith, at, small), tt)
    one (suc n) (c ∷ cs) at = one n cs at
