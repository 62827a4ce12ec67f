-- ===== src/Base/Span/Regions.antt =====
-- What the operations on spans say of the offsets and the regions in them.
use themelios.Prelude.{
  ◌+◌, ◌≤◌, ◌<◌, ◌≡◌, ◌⊎◌, refl, Bool, true, false, ◌&&◌, Option, none, some, arith, min, max,
  Bool-cases, inl, inr, leb,
}
use themelios.Base.Span.{
  ByteOffset, u32_max, checked_add, checked_sub, Span, IsOrdered, contains_offset, contains_span,
  intersect, join,
}

abbrev pub contained : Option Span → ByteOffset → Bool
contained none o = false
contained (some s) o = contains_offset s o

-- An offset is in the intersection exactly where it is in both regions; where there is none, no offset is in
-- both.
pub contained-intersect :
    (s t : Span) (o : ByteOffset)
    → contained (intersect s t) o ≡ (contains_offset s o && contains_offset t o)
unfolding contains_offset intersect
contained-intersect s t o = ground arith

-- Where an ordered region, which may be empty, lies within two others, they have an intersection, which is
-- ordered, holds that region, and lies within both.
pub contains_span-intersect :
    (s t r : Span)
    → IsOrdered r
    → contains_span s r ≡ true
    → contains_span t r ≡ true
    → (m : Span) × (intersect s t ≡ some m)
      × IsOrdered m
      × (contains_span m r ≡ true)
      × (contains_span s m ≡ true)
      × (contains_span t m ≡ true)
unfolding contains_span intersect
contains_span-intersect s t r ordered hs ht = (
  record { start = max s.start t.start; end = min s.end t.end },
  ground arith,
  ground arith,
  ground arith,
  ground arith,
  ground arith,
)

-- The join of two ordered regions is ordered, holds both, and lies within every region that does.
pub contains_span-join :
    (s t r : Span)
    → IsOrdered s
    → IsOrdered t
    → contains_span r s ≡ true
    → contains_span r t ≡ true
    → IsOrdered (join s t)
      × (contains_span (join s t) s ≡ true)
      × (contains_span (join s t) t ≡ true)
      × (contains_span r (join s t) ≡ true)
unfolding contains_span join
contains_span-join s t r hs ht a b = (ground arith, ground arith, ground arith, ground arith)

-- From an offset within the range of a `u32`, a checked addition answers nothing exactly where the sum
-- overflows, and else a sum in the range, which a checked subtraction undoes.
pub checked_sub-checked_add :
    (a b : ByteOffset)
    → a ≤ u32_max
    → ((checked_add a b ≡ none) × (u32_max < a + b))
      ⊎ ((c : ByteOffset) × (checked_add a b ≡ some c)
          × (c ≤ u32_max)
          × (c ≡ a + b)
          × (checked_sub c b ≡ some a))
unfolding checked_add checked_sub
checked_sub-checked_add a b h = elim (Bool-cases (leb (a + b) u32_max)) [
  | inl fits ↦ inr (a + b, ground arith, ground arith, refl, ground arith)
  | inr over ↦ inl (ground arith, ground arith)
]
