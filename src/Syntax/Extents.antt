-- ===== src/Syntax/Extents.antt =====
-- The extents of the tokens: prefixes of the text, cut on character boundaries.
pub mod Loops
pub mod Closed
pub mod Words
pub mod Forms
use themelios.Prelude.{
  ℕ, zero, suc, ◌+◌, ◌-◌, ◌≤◌, ◌<◌, ◌≡◌, refl, sym, ap, ap₂, subst, ◌∙◌, Bool, true, false,
  if◌then◌else◌, List, [], ◌∷◌, ◌++◌, append_assoc, append-nil, Option, none, some, ltb, leb, ◌==◌,
  ◌&&◌, ◌||◌, arith, Bool-cases, Option-cases, inl, inr, ◌⊎◌, All, length,
}
use themelios.Base.Source.{Char, Chars, len_utf8, byte_len}
use themelios.Base.Source.Cuts.{byte_len-append}
use themelios.Base.Line.{take, drop}
use themelios.Syntax.Scan.{chars, starts_with, find, run, line_end, unwrap_or, shifted}

-- `n` bytes are a prefix of the text.
abbrev pub IsCut : Chars → ℕ → Type 0
IsCut cs n = (p : Chars) × (q : Chars) × (cs ≡ p ++ q) × (byte_len p ≡ n)

-- The first `n` characters are there, and ASCII.
abbrev pub IsAscii : ℕ → Chars → Type 0
IsAscii zero cs = Unit
IsAscii (suc n) [] = ⊥
IsAscii (suc n) (c ∷ cs) = (c < 128) × IsAscii n cs

pub len_utf8_ascii : (c : Char) → c < 128 → len_utf8 c ≡ 1
unfolding len_utf8
len_utf8_ascii c h = ground arith

pub IsCut-none : (cs : Chars) → IsCut cs 0
IsCut-none cs = ([], cs, refl, refl)

pub IsCut-all : (cs : Chars) → IsCut cs (byte_len cs)
IsCut-all cs = (cs, [], sym (append-nil cs), refl)

pub IsCut-cons : (c : Char) (cs : Chars) (n : ℕ) → IsCut cs n → IsCut (c ∷ cs) (len_utf8 c + n)
IsCut-cons c cs n (p, q, e, at) = (c ∷ p, q, ap (λ z. c ∷ z) e, ap (λ z. len_utf8 c + z) at)

pub IsCut-at : (cs : Chars) (n m : ℕ) → n ≡ m → IsCut cs n → IsCut cs m
IsCut-at cs n m e h = subst (IsCut cs) e h

pub IsCut-ascii : (n : ℕ) (cs : Chars) → IsAscii n cs → IsCut cs n
IsCut-ascii zero cs h = IsCut-none cs
IsCut-ascii (suc n) [] h = absurd h
IsCut-ascii (suc n) (c ∷ cs) h =
    IsCut-at (c ∷ cs) (len_utf8 c + n) (suc n) (omega (arith, len_utf8_ascii c h.0))
      (IsCut-cons c cs n (IsCut-ascii n cs h.1))

pub IsCut-skip :
    (n : ℕ) (cs : Chars) (m : ℕ) → IsAscii n cs → IsCut (drop n cs) m → IsCut cs (n + m)
IsCut-skip zero cs m h cut = IsCut-at cs m (0 + m) (omega arith) cut
IsCut-skip (suc n) [] m h cut = absurd h
IsCut-skip (suc n) (c ∷ cs) m h cut =
    IsCut-at (c ∷ cs) (len_utf8 c + (n + m)) (suc n + m) (omega (arith, len_utf8_ascii c h.0))
      (IsCut-cons c cs (n + m) (IsCut-skip n cs m h.1 cut))

IsAscii-at : (n m : ℕ) (cs : Chars) → n ≡ m → IsAscii n cs → IsAscii m cs
IsAscii-at n m cs e h = subst (λ z. IsAscii z cs) e h

pub IsAscii-skip :
    (n m : ℕ) (cs : Chars) → IsAscii n cs → IsAscii m (drop n cs) → IsAscii (n + m) cs
IsAscii-skip zero m cs h more = IsAscii-at m (0 + m) cs (omega arith) more
IsAscii-skip (suc n) m [] h more = absurd h
IsAscii-skip (suc n) m (c ∷ cs) h more =
    IsAscii-at (suc (n + m)) (suc n + m) (c ∷ cs) (omega arith) (h.0, IsAscii-skip n m cs h.1 more)

-- A run of a class of ASCII characters.
pub IsAscii-run :
    (admits : Char → Bool) (cs : Chars)
    → ((c : Char) → admits c ≡ true → c < 128)
    → IsAscii (run admits cs) cs
unfolding run
IsAscii-run admits [] h = tt
IsAscii-run admits (c ∷ cs) h = elim (Bool-cases (admits c)) [
  | inl hit ↦ rw hit (h c hit, IsAscii-run admits cs h)
  | inr miss ↦ rw miss tt
]

-- A text that starts with an ASCII pattern.
pub starts_with-IsAscii :
    (ps cs : Chars) → All (λ c. c < 128) ps → starts_with ps cs ≡ true → IsAscii (length ps) cs
unfolding starts_with
starts_with-IsAscii [] cs small h = tt
starts_with-IsAscii (p ∷ ps) [] small h = absurd (ground (arith, h))
starts_with-IsAscii (p ∷ ps) (c ∷ cs) small h =
    (ground (arith, small.0, h), starts_with-IsAscii ps cs small.1 (ground (arith, h)))

-- Where a pattern is found, the text is cut before it.
pub find_cut :
    (pattern_ cs : Chars) (n : ℕ)
    → find pattern_ cs ≡ some n
    → (p : Chars) × (q : Chars) × (cs ≡ p ++ q) × (byte_len p ≡ n) × (starts_with pattern_ q ≡ true)
unfolding find
find_cut pattern_ [] n h = elim (Bool-cases (starts_with pattern_ [])) [
  | inl hit ↦ ([], [], refl, ground (arith, h, hit), hit)
  | inr miss ↦ absurd (ground (arith, h, miss))
]
find_cut pattern_ (c ∷ cs) n h = elim (Bool-cases (starts_with pattern_ (c ∷ cs))) [
  | inl hit ↦ ([], c ∷ cs, refl, ground (arith, h, hit), hit)
  | inr miss ↦ elim (Option-cases (find pattern_ cs)) [
    | inl nowhere ↦ absurd (ground (arith, h, miss, nowhere))
    | inr (m, there) ↦
        let (p, q, e, at, found) = find_cut pattern_ cs m there in
        (c ∷ p, q, ap (λ z. c ∷ z) e, ground (arith, h, miss, there, at), found)
  ]
]

pub IsCut-line_end : (cs : Chars) → IsCut cs (line_end cs)
unfolding line_end
IsCut-line_end cs = elim (Option-cases (find (10 ∷ []) cs)) [
  | inl nowhere ↦ rw nowhere (IsCut-all cs)
  | inr (n, there) ↦ let (p, q, e, at, _) = find_cut (10 ∷ []) cs n there in rw there (p, q, e, at)
]
