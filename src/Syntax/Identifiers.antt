-- ===== src/Syntax/Identifiers.antt =====
-- Identifiers and variables (crates/themelios-syntax/src/lexer.rs) as the lexer reads them.
use themelios.Prelude.{
  suc, ◌+◌, ◌≡◌, refl, ap, Bool, true, false, if◌then◌else◌, [], ◌∷◌, ◌++◌, some, ◌==◌, ◌||◌, arith,
  Bool-cases, inl, inr, All, length,
}
use themelios.Base.Source.{Char, Chars}
use themelios.Base.Line.{take}
use themelios.Syntax.Token.{SyntaxKind, LexMode, Dialect, Lexed}
use themelios.Syntax.Scan.{chars, run, is_lower, is_upper, is_digit, is_whitespace}
use themelios.Syntax.Words.{same_text, name, is_prefix_char, is_inner_char}
use themelios.Syntax.Lexer.{shared, lex}

-- The text goes on with a character of the class.
abbrev pub goes_on : (Char → Bool) → Chars → Bool
goes_on admits [] = false
goes_on admits (c ∷ cs) = admits c

run-append :
    (admits : Char → Bool) (w rest : Chars)
    → All (λ d. admits d ≡ true) w
    → goes_on admits rest ≡ false
    → run admits (w ++ rest) ≡ length w
unfolding run
run-append admits [] [] h stop = refl
run-append admits [] (c ∷ rest) h stop = rw stop refl
run-append admits (d ∷ w) rest h stop = rw (h.0) (ap suc (run-append admits w rest h.1 stop))

take-append : (w rest : Chars) → take (length w) (w ++ rest) ≡ w
take-append [] rest = refl
take-append (c ∷ w) rest = ap (λ z. c ∷ z) (take-append w rest)

no_prefix :
    (c : Char) (cs : Chars) → (is_lower c || is_upper c) ≡ true → run is_prefix_char (c ∷ cs) ≡ 0
unfolding run
no_prefix c cs h = let other : is_prefix_char c ≡ false = ground (arith, h) in rw other refl

-- The kind of a word, by its first letter; `not` is the keyword.
abbrev pub word_kind : Char → Chars → SyntaxKind
word_kind c w =
    if is_lower c
    then (if same_text (c ∷ w) (chars "not") then SyntaxKind.kw_not else SyntaxKind.ident)
    else SyntaxKind.variable

word_name :
    (c : Char) (w rest : Chars)
    → (is_lower c || is_upper c) ≡ true
    → All (λ d. is_inner_char d ≡ true) w
    → goes_on is_inner_char rest ≡ false
    → name (c ∷ (w ++ rest)) ≡ some (word_kind c w, suc (length w))
unfolding name
word_name c w rest letter inner stop =
    let lone : run is_prefix_char (c ∷ (w ++ rest)) ≡ 0 = no_prefix c (w ++ rest) letter in
    let one : 0 + 1 + length w ≡ suc (length w) = omega arith in
    elim (Bool-cases (is_lower c)) [
      | inr capital ↦
          let upper : is_upper c ≡ true = ground (arith, letter, capital) in
          rw (lone, run-append is_inner_char w rest inner stop, capital, upper, one) refl
      | inl lower ↦ elim (Bool-cases (same_text (c ∷ w) (chars "not"))) [
        | inl keyword ↦
            rw
              (
                lone,
                run-append is_inner_char w rest inner stop,
                lower,
                one,
                take-append w rest,
                keyword,
              )
              refl
        | inr other ↦
            rw
              (
                lone,
                run-append is_inner_char w rest inner stop,
                lower,
                one,
                take-append w rest,
                other,
              )
              refl
      ]
    ]

-- The word is what `shared` reads where a letter comes first.
shared_word :
    (c : Char) (cs : Chars) (mode : LexMode) (dialect : Dialect) (token : Lexed)
    → (is_lower c || is_upper c) ≡ true
    → name (c ∷ cs) ≡ some token
    → shared c cs mode dialect ≡ token
unfolding shared
shared_word c cs mode dialect token letter named =
    let blank : is_whitespace c ≡ false = ground (arith, letter) in
    let percent : (c == b'%') ≡ false = ground (arith, letter) in
    let hash : (c == b'#') ≡ false = ground (arith, letter) in
    let quote : (c == b'"') ≡ false = ground (arith, letter) in
    let digit : is_digit c ≡ false = ground (arith, letter) in
    let word_ : (is_lower c || (is_upper c || (c == b'_' || c == b'\''))) ≡ true =
      ground (arith, letter) in
    rw (blank, percent, hash, quote, digit, word_, named) refl

-- In normal and theory mode, under either dialect, a letter with the longest run of name characters and
-- primes after it is one token: the keyword for `not`, an identifier for another word in a lower-case
-- letter, a variable for one in a capital.
pub lex-word :
    (c : Char) (w rest : Chars) (dialect : Dialect)
    → (is_lower c || is_upper c) ≡ true
    → All (λ d. is_inner_char d ≡ true) w
    → goes_on is_inner_char rest ≡ false
    → (lex (c ∷ (w ++ rest)) LexMode.normal dialect ≡ (word_kind c w, suc (length w)))
      × (lex (c ∷ (w ++ rest)) LexMode.theory dialect ≡ (word_kind c w, suc (length w)))
unfolding lex
lex-word c w rest dialect letter inner stop =
    let named = word_name c w rest letter inner stop in
    (
      shared_word c (w ++ rest) LexMode.normal dialect (word_kind c w, suc (length w)) letter named,
      shared_word c (w ++ rest) LexMode.theory dialect (word_kind c w, suc (length w)) letter named,
    )
