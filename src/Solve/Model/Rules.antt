-- ===== src/Solve/Model/Rules.antt =====
-- The show rule that a list of directives makes.
use themelios.Prelude.{
  ◌^◌, Bool, true, false, ◌&&◌, ◌||◌, List, [], ◌∷◌, Option, none, ◌≡◌, refl, ap, ◌∙◌, arith,
  length, any, ltb, is_none, not,
}
use themelios.Prelude.Order.{list_ord, nat_ord, pair_ord}
use themelios.Prelude.Sets.{contains, insert, contains-insert}
use themelios.Program.Symbol.{sign_ord, Name, Symbol, function, to_list, is_eq}
use themelios.Solve.Model.{
  Form, NameMap, Show, same_name, lookup, insert_form, or_empty, read_show, read_shows, show_rule,
  shows_in, shows,
}

-- The directive restricts what is shown.
abbrev pub restricts : Show → Bool
restricts Show.all = true
restricts (Show.signature s) = true
restricts _ = false

-- The directive shows the atoms of this form.
abbrev pub names_form : Name → Form → Show → Bool
names_form n form (Show.signature s) =
    same_name n s.name && is_eq (pair_ord.cmp form (s.sign, s.arity))
names_form n form _ = false

form_insert :
    (g f : Form) (forms : List Form)
    → contains g (insert f forms) ≡ (is_eq (pair_ord.cmp g f) || contains g forms)
form_insert g f forms = ground (arith, contains-insert f g forms)

name_eq : (a b : Name) → same_name a b ≡ true → a ≡ b
unfolding same_name
name_eq a b h = list_ord.eq_of_cmp a b (ground arith)

name_refl : (a : Name) → same_name a a ≡ true
unfolding same_name
name_refl a = ap is_eq (list_ord.cmp_refl a)

no_form : (g : Form) → contains g [] ≡ false
unfolding contains
no_form g = refl

lookup-insert_form :
    (n m : Name) (f g : Form) (names : NameMap)
    → contains g (lookup m (insert_form n f names))
      ≡ (same_name m n && is_eq (pair_ord.cmp g f) || contains g (lookup m names))
unfolding lookup insert_form
lookup-insert_form n m f g [] = ground (arith, form_insert g f [], no_form g)
lookup-insert_form n m f g ((k, forms) ∷ rest) = ground (
  arith,
  form_insert g f forms,
  lookup-insert_form n m f g rest,
  name_eq n k,
  name_eq m k,
  name_eq m n,
  name_refl m,
  name_refl n,
)

lookup_nil : (m : Name) (g : Form) → contains g (lookup m []) ≡ false
unfolding lookup contains
lookup_nil m g = refl

lookup-read_show :
    (r : Option NameMap) (d : Show) (m : Name) (g : Form)
    → contains g (lookup m (or_empty (read_show r d)))
      ≡ (contains g (lookup m (or_empty r)) || names_form m g d)
unfolding read_show
lookup-read_show r Show.all m g = ground arith
lookup-read_show r (Show.signature s) m g =
    ground (arith, lookup-insert_form s.name m (s.sign, s.arity) g (or_empty r))
lookup-read_show r Show.term m g = ground arith
lookup-read_show r Show.term_body m g = ground arith

is_none-read_show :
    (r : Option NameMap) (d : Show) → is_none (read_show r d) ≡ (is_none r && not (restricts d))
unfolding read_show
is_none-read_show r Show.all = ground arith
is_none-read_show r (Show.signature s) = ground arith
is_none-read_show r Show.term = ground arith
is_none-read_show r Show.term_body = ground arith

-- A form is shown after more directives where it was before, or where one of them names it.
lookup-read_shows :
    (r : Option NameMap) (ds : List Show) (m : Name) (g : Form)
    → contains g (lookup m (or_empty (read_shows r ds)))
      ≡ (contains g (lookup m (or_empty r)) || any (names_form m g) ds)
unfolding read_shows
lookup-read_shows r [] m g = ground arith
lookup-read_shows r (d ∷ ds) m g =
    lookup-read_shows (read_show r d) ds m g ∙ ground (arith, lookup-read_show r d m g)

is_none-read_shows :
    (r : Option NameMap) (ds : List Show)
    → is_none (read_shows r ds) ≡ (is_none r && not (any restricts ds))
unfolding read_shows
is_none-read_shows r [] = ground arith
is_none-read_shows r (d ∷ ds) =
    is_none-read_shows (read_show r d) ds ∙ ground (arith, is_none-read_show r d)

-- The reference reading of the directives: an atom is shown where no directive restricts, or where
-- a signature directive names its name, sign and arity.
pub shows_spec : List Show → Symbol → Bool
shows_spec ds (function n args sign) =
    not (any restricts ds)
    || ltb (length (to_list args)) (2 ^ 32) && any (names_form n (sign, length (to_list args))) ds
shows_spec ds _ = not (any restricts ds)

-- The rule of a list of directives shows an atom exactly where no directive restricts, or where a
-- signature directive names the atom's name, sign and arity, the arity fitting a `u32`.
pub shows-show_rule :
    (ds : List Show) (atom : Symbol) → shows (show_rule ds) atom ≡ shows_spec ds atom
unfolding shows show_rule shows_in shows_spec
shows-show_rule ds (function n args sign) = ground (
  arith,
  is_none-read_shows none ds,
  lookup-read_shows none ds n (sign, length (to_list args)),
  lookup_nil n (sign, length (to_list args)),
)
shows-show_rule ds _ = ground (arith, is_none-read_shows none ds)
