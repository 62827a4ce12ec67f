-- ===== src/Base/Source/Admission.antt =====
-- The admission of a text (crates/themelios-base/src/source.rs).
use themelios.Prelude.{ℕ, ◌%◌, ◌^◌, ◌<◌, ◌≡◌, refl, arith, ltb, Bool-cases, inl, inr, ◌⊎◌, ok, err}
use themelios.Base.Span.{covering}
use themelios.Base.Source.{Chars, byte_len, Source, source_of, source_span, source_end, max_len}
use themelios.Base.Line.Position.{IsAdmitted}

-- A text is refused with its length exactly where it is longer than the ceiling; else its source keeps the
-- text, is admitted, and its span and end are the text's, since no length is cut off to 32 bits.
pub source_of-IsAdmitted :
    (id : ℕ) (text : Chars)
    → ((source_of id text ≡ err (record { len = byte_len text })) × (max_len < byte_len text))
      ⊎ ((s : Source) × (source_of id text ≡ ok s)
          × (s.text ≡ text)
          × IsAdmitted s
          × (source_end s ≡ byte_len text)
          × (source_span s ≡ record { start = 0; end = byte_len text }))
unfolding source_of source_span covering
source_of-IsAdmitted id text = elim (Bool-cases (ltb max_len (byte_len text))) [
  | inl large ↦ rw large (inl (refl, ground (arith, large)))
  | inr fits ↦
      let whole : byte_len text % 2 ^ 32 ≡ byte_len text = ground (arith, fits) in
      rw fits (
        inr (
          record { id = id; text = text },
          refl,
          refl,
          ground (arith, fits),
          whole,
          rw whole (ground arith),
        ))
]
