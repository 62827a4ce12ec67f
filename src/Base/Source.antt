-- ===== src/Base/Source.antt =====
-- Sources (crates/themelios-base/src/source.rs). A text is the list of its characters, as code
-- points, and its bytes are counted by their UTF-8 widths.
pub mod Cuts
pub mod Admission
use themelios.Prelude.{
  ℕ, ◌+◌, ◌-◌, ◌%◌, ◌^◌, Bool, not, if◌then◌else◌, List, [], ◌∷◌, Option, none, some, ltb, leb,
  ◌==◌, is_some, Result, ok, err,
}
use themelios.Base.Span.{ByteOffset, Span, covering}

abbrev pub Char : Type 0
Char = ℕ

abbrev pub Chars : Type 0
Chars = List Char

-- `char::len_utf8` and `char::len_utf16`.
unfoldable pub len_utf8 : Char → ℕ
len_utf8 c = if ltb c 128 then 1 else if ltb c 2048 then 2 else if ltb c 65536 then 3 else 4

unfoldable pub len_utf16 : Char → ℕ
len_utf16 c = if ltb c 65536 then 1 else 2

-- `str::len`.
abbrev pub byte_len : Chars → ℕ
byte_len [] = 0
byte_len (c ∷ cs) = len_utf8 c + byte_len cs

-- The text from a byte offset on; `none` inside a character and past the end.
unfoldable pub drop_bytes : ℕ → Chars → Option Chars
drop_bytes n [] = if n == 0 then some [] else none
drop_bytes n (c ∷ cs) =
    let rest = drop_bytes (n - len_utf8 c) cs in
    if n == 0 then some (c ∷ cs) else if leb (len_utf8 c) n then rest else none

abbrev pub prepend : Char → Option Chars → Option Chars
prepend c none = none
prepend c (some cs) = some (c ∷ cs)

unfoldable pub take_bytes : ℕ → Chars → Option Chars
take_bytes n [] = if n == 0 then some [] else none
take_bytes n (c ∷ cs) =
    let rest = take_bytes (n - len_utf8 c) cs in
    if n == 0 then some [] else if leb (len_utf8 c) n then prepend c rest else none

-- `str::is_char_boundary`.
unfoldable pub is_char_boundary : Chars → ByteOffset → Bool
unfolding drop_bytes
is_char_boundary text o = is_some (drop_bytes o text)

pub record Source : Type 0 where
  pub id : ℕ
  pub text : Chars

-- `Source::MAX_LEN`.
abbrev pub max_len : ℕ
max_len = 2 ^ 32 - 2

pub record TooLarge : Type 0 where
  pub len : ℕ

-- `Source::new`, by `admit_len`.
unfoldable pub source_of : ℕ → Chars → Result Source TooLarge
source_of id text =
    if ltb max_len (byte_len text)
    then err (record { len = byte_len text })
    else ok (record { id = id; text = text })

-- `Source::end`; the cast keeps the low 32 bits.
abbrev pub source_end : Source → ByteOffset
source_end s = byte_len s.text % 2 ^ 32

unfoldable pub source_span : Source → Span
unfolding covering
source_span s = covering 0 (source_end s)

pub record NotCharBoundary : Type 0 where
  pub offset : ByteOffset

pub data SliceRefusal : Type 0 where
  out_of_bounds : ByteOffset → ByteOffset → SliceRefusal
  not_char_boundary : NotCharBoundary → SliceRefusal

-- `Source::slice`. The last index is on boundaries: `none` is the panic that it cannot raise.
unfoldable pub slice : Source → Span → Option (Result Chars SliceRefusal)
unfolding is_char_boundary drop_bytes take_bytes
slice s span =
    if ltb (source_end s) span.end
    then some (err (SliceRefusal.out_of_bounds span.end (source_end s)))
    else if not (is_char_boundary s.text span.start)
    then some (err (SliceRefusal.not_char_boundary (record { offset = span.start })))
    else if not (is_char_boundary s.text span.end)
    then some (err (SliceRefusal.not_char_boundary (record { offset = span.end })))
    else elim (drop_bytes span.start s.text) [
      | none ↦ none
      | some rest ↦ elim (take_bytes (span.end - span.start) rest) [
        | none ↦ none
        | some text ↦ some (ok text)
      ]
    ]
