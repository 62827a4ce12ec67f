-- ===== src/Syntax/Extents/Closed.antt =====
-- The extents of whole comments, strings and scripts.
use themelios.Prelude.{
  ℕ, zero, suc, ◌+◌, ◌≤◌, ◌<◌, ◌≡◌, sym, ap, ◌∙◌, true, false, [], ◌∷◌, ◌++◌, append_assoc, some,
  arith, Bool-cases, Option-cases, inl, inr, All, length,
}
use themelios.Base.Source.{Chars, byte_len}
use themelios.Base.Source.Cuts.{byte_len-append, len_utf8_pos}
use themelios.Base.Line.{drop}
use themelios.Syntax.Token.{Dialect, Lexed}
use themelios.Syntax.Scan.{chars, starts_with, find}
use themelios.Syntax.Quoted.{block_comment, string_clingo, string_asp_core_2, script_body}
use themelios.Syntax.Extents.{
  IsCut, IsAscii, len_utf8_ascii, IsCut-all, IsCut-at, IsCut-ascii, IsCut-skip, find_cut,
  starts_with-IsAscii,
}
use themelios.Syntax.Extents.Loops.{Ends, comment_loop-Ends, clingo_loop-Ends, asp_loop-Ends}

-- A token that ends in the text, and is not empty.
abbrev pub IsToken : Chars → Lexed → Type 0
IsToken cs token = IsCut cs token.1 × (1 ≤ token.1)

IsToken-Ends :
    (n : ℕ) (cs : Chars) (token : Lexed)
    → 1 ≤ n
    → IsAscii n cs
    → Ends (drop n cs) n token.1
    → IsToken cs token
IsToken-Ends n cs token pos ascii (m, e, cut) =
    (IsCut-at cs (n + m) token.1 (sym e) (IsCut-skip n cs m ascii cut), omega arith)

byte_len-drop : (n : ℕ) (cs : Chars) → IsAscii n cs → byte_len cs ≡ n + byte_len (drop n cs)
byte_len-drop zero cs h = omega arith
byte_len-drop (suc n) [] h = absurd h
byte_len-drop (suc n) (c ∷ cs) h = omega (arith, len_utf8_ascii c h.0, byte_len-drop n cs h.1)

pub string_clingo-IsToken : (cs : Chars) → IsAscii 1 cs → IsToken cs (string_clingo cs)
unfolding string_clingo
string_clingo-IsToken cs h =
    IsToken-Ends 1 cs (string_clingo cs) (omega arith) h
      (clingo_loop-Ends (byte_len cs) false 1 (drop 1 cs) (byte_len-drop 1 cs h))

pub string_asp_core_2-IsToken : (cs : Chars) → IsAscii 1 cs → IsToken cs (string_asp_core_2 cs)
unfolding string_asp_core_2
string_asp_core_2-IsToken cs h =
    IsToken-Ends 1 cs (string_asp_core_2 cs) (omega arith) h
      (asp_loop-Ends (byte_len cs) 1 (drop 1 cs) (byte_len-drop 1 cs h))

-- Where the pattern is found after the opener, the token ends with the pattern.
found_token :
    (n : ℕ) (pattern_ cs : Chars) (at : ℕ)
    → IsAscii n cs
    → All (λ c. c < 128) pattern_
    → find pattern_ (drop n cs) ≡ some at
    → IsCut cs (at + (n + length pattern_))
found_token n pattern_ cs at h small there =
    let (p, q, e, here, found) = find_cut pattern_ (drop n cs) at there in
    let (p', q', e', here') =
      IsCut-ascii (length pattern_) q (starts_with-IsAscii pattern_ q small found) in
    IsCut-at cs (n + (byte_len p + length pattern_)) (at + (n + length pattern_))
      (omega (arith, here))
      (IsCut-skip n cs (byte_len p + length pattern_) h (
        p ++ p',
        q',
        e ∙ ap (λ z. p ++ z) e' ∙ sym (append_assoc p p' q'),
        byte_len-append p p' ∙ ap (λ z. byte_len p + z) here',
      ))

pub block_comment-IsToken :
    (cs : Chars) (dialect : Dialect) → IsAscii 2 cs → IsToken cs (block_comment cs dialect)
unfolding block_comment
block_comment-IsToken cs Dialect.clingo h =
    IsToken-Ends 2 cs (block_comment cs Dialect.clingo) (omega arith) h
      (comment_loop-Ends (byte_len cs) 1 false 2 (drop 2 cs) (byte_len-drop 2 cs h))
block_comment-IsToken cs Dialect.asp_core_2 h =
    elim (Option-cases (find (chars "*%") (drop 2 cs))) [
      | inl nowhere ↦ rw nowhere (IsCut-all cs, omega (arith, byte_len-drop 2 cs h))
      | inr (close, there) ↦ rw there (
        found_token 2 (chars "*%") cs close h (omega arith, (omega arith, tt)) there,
        omega arith,
      )
    ]

-- A pattern that the text does not start with is found after its first character.
pub found_after :
    (pattern_ cs p q : Chars) (n : ℕ)
    → starts_with pattern_ cs ≡ false
    → cs ≡ p ++ q
    → byte_len p ≡ n
    → starts_with pattern_ q ≡ true
    → 1 ≤ n
found_after pattern_ cs [] q n miss e at found =
    let clash : false ≡ true = sym miss ∙ ap (starts_with pattern_) e ∙ found in
    absurd (ground (arith, clash))
found_after pattern_ cs (d ∷ p) q n miss e at found = omega (arith, at, len_utf8_pos d)

pub script_body-IsToken : (cs : Chars) → 1 ≤ byte_len cs → IsToken cs (script_body cs)
unfolding script_body
script_body-IsToken cs some_ = elim (Bool-cases (starts_with (chars "#end") cs)) [
  | inl here ↦ rw here (
    IsCut-ascii 4 cs (
        starts_with-IsAscii (chars "#end") cs
          (omega arith, (omega arith, (omega arith, (omega arith, tt)))) here),
    omega arith,
  )
  | inr body ↦ elim (Option-cases (find (chars "#end") cs)) [
    | inl nowhere ↦ rw (body, nowhere) (IsCut-all cs, omega arith)
    | inr (n, there) ↦
        let (p, q, e, at, found) = find_cut (chars "#end") cs n there in
        rw (body, there) ((p, q, e, at), found_after (chars "#end") cs p q n body e at found)
  ]
]
