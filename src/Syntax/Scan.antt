-- ===== src/Syntax/Scan.antt =====
-- Scanning (crates/themelios-syntax/src/lexer.rs): the prefixes and searches of the token rules. The
-- bytes that the rules test are ASCII, so a character stands for its first byte; no other byte of it
-- passes a test.
use Prim.Native.String.{[] as empty, ◌∷◌ as letter}
use Prim.Native.Char.{code}
use themelios.Prelude.{
  ℕ, suc, ◌+◌, Bool, true, false, ◌&&◌, ◌||◌, if◌then◌else◌, [], ◌∷◌, Option, none, some, leb, ◌==◌,
  String,
}
use themelios.Base.Source.{Char, Chars, len_utf8, byte_len}

-- The characters of a literal.
abbrev pub chars : String → Chars
chars empty = []
chars (letter c s) = code c ∷ chars s

abbrev pub within : Char → Char → Char → Bool
within lo hi c = leb lo c && leb c hi

abbrev pub is_digit : Char → Bool
is_digit c = within b'0' b'9' c

abbrev pub is_lower : Char → Bool
is_lower c = within b'a' b'z' c

abbrev pub is_upper : Char → Bool
is_upper c = within b'A' b'Z' c

abbrev pub is_hexdigit : Char → Bool
is_hexdigit c = is_digit c || (within b'a' b'f' c || within b'A' b'F' c)

abbrev pub is_whitespace : Char → Bool
is_whitespace c = c == b' ' || (c == 9 || (c == 13 || c == 10))

abbrev pub is_name_char : Char → Bool
is_name_char c = is_digit c || (is_lower c || (is_upper c || c == b'_'))

-- `starts_with`, of a `str`.
unfoldable pub starts_with : Chars → Chars → Bool
starts_with [] rest = true
starts_with (p ∷ ps) [] = false
starts_with (p ∷ ps) (c ∷ rest) = p == c && starts_with ps rest

abbrev pub shifted : ℕ → Option ℕ → Option ℕ
shifted n none = none
shifted n (some m) = some (n + m)

-- `find`, of a `str`.
unfoldable pub find : Chars → Chars → Option ℕ
unfolding starts_with
find pattern_ [] = if starts_with pattern_ [] then some 0 else none
find pattern_ (c ∷ rest) =
    let later = find pattern_ rest in
    if starts_with pattern_ (c ∷ rest) then some 0 else shifted (len_utf8 c) later

abbrev pub unwrap_or : ℕ → Option ℕ → ℕ
unwrap_or d none = d
unwrap_or d (some n) = n

unfoldable pub run : (Char → Bool) → Chars → ℕ
run admits [] = 0
run admits (c ∷ cs) = let more = run admits cs in if admits c then suc more else 0

unfoldable pub line_end : Chars → ℕ
unfolding find
line_end rest = unwrap_or (byte_len rest) (find (10 ∷ []) rest)

-- A byte at hand: `get` against `Some(&byte)`.
abbrev pub is_byte : Option Char → Char → Bool
is_byte none b = false
is_byte (some c) b = c == b
