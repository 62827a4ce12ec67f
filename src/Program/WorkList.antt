-- ===== src/Program/WorkList.antt =====
-- The work list of the borrowing walks (crates/themelios-program/src/work_list.rs): a stack whose
-- first entries live in an inline array, and the rest in a heap vector. A vector is a list whose
-- end is the list's head, so that `Vec::push` and `Vec::pop` work at the head.
pub mod Stack
use themelios.Prelude.{
  ℕ, zero, suc, ◌≤◌, ◌≡◌, ◌⊎◌, List, [], ◌∷◌, Option, none, some, length, get_elem?, set, replicate,
}

abbrev pub inline_cap : ℕ
inline_cap = 8

pub record WorkList (T : Type 0) : Type 0 where
  pub inline : List T
  pub len : ℕ
  pub spill : List T

module _ {T : Type 0} where
  unfoldable pub empty : T → WorkList T
  empty filler = record { inline = replicate inline_cap filler; len = 0; spill = [] }

  unfoldable pub push : WorkList T → T → WorkList T
  push w entry = elim (get_elem? w.inline w.len) [
    | some _ ↦ record w { inline = set w.inline w.len entry; len = suc w.len }
    | none ↦ record w { spill = entry ∷ w.spill }
  ]

  unfoldable pub new : T → WorkList T
  unfolding empty push
  new root = push (empty root) root

  -- `pop` below the spilled part: `checked_sub`, then the slot's entry.
  unfoldable pub pop_inline : WorkList T → ℕ → WorkList T × Option T
  pop_inline w zero = (w, none)
  pop_inline w (suc n) = (record w { len = n }, get_elem? w.inline n)

  unfoldable pub pop : WorkList T → WorkList T × Option T
  unfolding pop_inline
  pop w = elim w.spill [
    | entry ∷ rest ↦ (record w { spill = rest }, some entry)
    | [] ↦ pop_inline w w.len
  ]

  -- `Extend::extend`.
  unfoldable pub extend : WorkList T → List T → WorkList T
  extend w [] = w
  extend w (entry ∷ entries) = extend (push w entry) entries

  -- The inline array has its fixed size, and the heap part is used only while it is full.
  pub record IsValid (w : WorkList T) : Type 0 where
    pub sized : length w.inline ≡ inline_cap
    pub within : w.len ≤ inline_cap
    pub full : (w.spill ≡ []) ⊎ (w.len ≡ inline_cap)
