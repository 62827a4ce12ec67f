-- ===== src/Syntax/Words.antt =====
-- Names, numerals and `#`-words (crates/themelios-syntax/src/lexer.rs). Where the bytes of a prefix
-- are all ASCII, its byte length is its number of characters.
use themelios.Prelude.{
  ℕ, zero, suc, ◌+◌, Bool, true, false, ◌&&◌, ◌||◌, if◌then◌else◌, List, [], ◌∷◌, Option, none,
  some, ◌==◌, get_elem?,
}
use themelios.Base.Source.{Char, Chars}
use themelios.Base.Line.{take, drop}
use themelios.Syntax.Token.{SyntaxKind, LexMode, Lexed}
use themelios.Syntax.Scan.{
  chars, within, is_digit, is_lower, is_upper, is_hexdigit, is_name_char, run, is_byte,
}

-- Equality of `str`s.
unfoldable pub same_text : Chars → Chars → Bool
same_text [] [] = true
same_text [] (d ∷ ds) = false
same_text (c ∷ cs) [] = false
same_text (c ∷ cs) (d ∷ ds) = c == d && same_text cs ds

abbrev pub keywords : List (Chars × SyntaxKind)
keywords =
    (chars "#const", SyntaxKind.kw_const)
    ∷ (chars "#count", SyntaxKind.kw_count)
    ∷ (chars "#defined", SyntaxKind.kw_defined)
    ∷ (chars "#edge", SyntaxKind.kw_edge)
    ∷ (chars "#external", SyntaxKind.kw_external)
    ∷ (chars "#false", SyntaxKind.kw_false)
    ∷ (chars "#heuristic", SyntaxKind.kw_heuristic)
    ∷ (chars "#include", SyntaxKind.kw_include)
    ∷ (chars "#inf", SyntaxKind.kw_inf)
    ∷ (chars "#infimum", SyntaxKind.kw_inf)
    ∷ (chars "#max", SyntaxKind.kw_max)
    ∷ (chars "#maximize", SyntaxKind.kw_maximize)
    ∷ (chars "#maximise", SyntaxKind.kw_maximize)
    ∷ (chars "#min", SyntaxKind.kw_min)
    ∷ (chars "#minimize", SyntaxKind.kw_minimize)
    ∷ (chars "#minimise", SyntaxKind.kw_minimize)
    ∷ (chars "#program", SyntaxKind.kw_program)
    ∷ (chars "#project", SyntaxKind.kw_project)
    ∷ (chars "#script", SyntaxKind.kw_script)
    ∷ (chars "#show", SyntaxKind.kw_show)
    ∷ (chars "#sum", SyntaxKind.kw_sum)
    ∷ (chars "#sup", SyntaxKind.kw_sup)
    ∷ (chars "#supremum", SyntaxKind.kw_sup)
    ∷ (chars "#theory", SyntaxKind.kw_theory)
    ∷ (chars "#true", SyntaxKind.kw_true)
    ∷ []

unfoldable pub find_keyword : Chars → List (Chars × SyntaxKind) → Option SyntaxKind
unfolding same_text
find_keyword spelling [] = none
find_keyword spelling (entry ∷ rest) =
    let later = find_keyword spelling rest in
    if same_text entry.0 spelling then some entry.1 else later

unfoldable pub keyword_kind : Chars → Option SyntaxKind
unfolding find_keyword
keyword_kind spelling = find_keyword spelling keywords

-- Theory mode's filter of the keywords.
abbrev pub theory_keyword : Option SyntaxKind → Option SyntaxKind
theory_keyword (some SyntaxKind.kw_inf) = some SyntaxKind.kw_inf
theory_keyword (some SyntaxKind.kw_sup) = some SyntaxKind.kw_sup
theory_keyword _ = none

abbrev pub is_normal : LexMode → Bool
is_normal LexMode.normal = true
is_normal LexMode.theory = false
is_normal LexMode.script_body = false

abbrev pub mode_keyword : LexMode → Chars → Option SyntaxKind
mode_keyword LexMode.theory word = theory_keyword (keyword_kind word)
mode_keyword LexMode.normal word = keyword_kind word
mode_keyword LexMode.script_body word = keyword_kind word

abbrev pub keyword_or_error : Option SyntaxKind → SyntaxKind
keyword_or_error none = SyntaxKind.error
keyword_or_error (some kind) = kind

-- A `#`-word, of the text that begins with `#`.
unfoldable pub hash_word : Chars → LexMode → Lexed
unfolding run same_text keyword_kind
hash_word rest mode =
    let word_len = 1 + run is_name_char (drop 1 rest) in
    let word = take word_len rest in
    if is_normal mode && (same_text word (chars "#sum") && is_byte (get_elem? rest word_len) b'+')
    then (SyntaxKind.kw_sum_plus, word_len + 1)
    else (keyword_or_error (mode_keyword mode word), word_len)

abbrev pub octal : Char → Bool
octal c = within b'1' b'7' c

abbrev pub binary : Char → Bool
binary c = c == b'0' || c == b'1'

-- The class of digits that the character after the `0` selects.
abbrev pub digit_class : Option Char → Option (Char → Bool)
digit_class none = none
digit_class (some c) =
    if c == b'x'
    then some is_hexdigit
    else if c == b'o'
    then some octal
    else if c == b'b'
    then some binary
    else none

abbrev pub prefixed : ℕ → ℕ
prefixed zero = 1
prefixed (suc digits) = 2 + suc digits

abbrev pub number_of : Option (Char → Bool) → Chars → ℕ
number_of none bytes = 1
number_of (some admits) bytes = prefixed (run admits (drop 2 bytes))

unfoldable pub number : Chars → ℕ
unfolding run
number bytes =
    if is_byte (get_elem? bytes 0) b'0'
    then number_of (digit_class (get_elem? bytes 1)) bytes
    else run is_digit bytes

abbrev pub is_prefix_char : Char → Bool
is_prefix_char c = c == b'_' || c == b'\''

abbrev pub is_inner_char : Char → Bool
is_inner_char c = is_name_char c || c == b'\''

abbrev pub letter_kind : Option Char → Option SyntaxKind
letter_kind none = none
letter_kind (some c) =
    if is_lower c
    then some SyntaxKind.ident
    else if is_upper c
    then some SyntaxKind.variable
    else none

abbrev pub name_of : Chars → ℕ → Option SyntaxKind → Option Lexed
name_of rest len none = none
name_of rest len (some SyntaxKind.ident) =
    if same_text (take len rest) (chars "not")
    then some (SyntaxKind.kw_not, len)
    else some (SyntaxKind.ident, len)
name_of rest len (some kind) = some (kind, len)

unfoldable pub name : Chars → Option Lexed
unfolding run same_text
name rest =
    let prefix_ = run is_prefix_char rest in
    name_of rest (prefix_ + 1 + run is_inner_char (drop (prefix_ + 1) rest))
      (letter_kind (get_elem? rest prefix_))
