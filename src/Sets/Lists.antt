-- ===== src/Sets/Lists.antt =====
-- Sets of strings as lists: an instance of the interface.
use inplaceu.Base.{
  ◌≡◌, refl, Bool, true, false, not, List, [], ◌∷◌, Text, text_eq, ◌==◌, ==_iff, if◌then◌else◌,
  length, any, keep, arith,
}
use inplaceu.Sets.{StringSet}

abbrev pub member : Text → List Text → Bool
member x s = any (λ y. y == x) s

abbrev pub list_insert : Text → List Text → List Text
list_insert x s = if member x s then s else x ∷ s

abbrev pub list_delete : Text → List Text → List Text
list_delete x s = keep (λ y. not (y == x)) s

pub member-eq : (x y : Text) (s : List Text) → x ≡ y → member x s ≡ member y s
member-eq x y s e = rw e

pub member-insert :
    (x y : Text) (s : List Text)
    → member y (list_insert x s) ≡ (if x == y then true else member y s)
member-insert x y s = ground (arith, ==_iff x y, member-eq x y s)

pub member-delete :
    (x y : Text) (s : List Text)
    → member y (list_delete x s) ≡ (if x == y then false else member y s)
member-delete x y [] = ground arith
member-delete x y (z ∷ s) = ground (arith, member-delete x y s, ==_iff x y, ==_iff z x, ==_iff z y)

abbrev pub list_set : StringSet
list_set = record {
  Carrier = List Text;
  new = [];
  insert = list_insert;
  delete = list_delete;
  has = member;
  len = length;
  list = λ s. s;
  has-new = λ x. refl;
  has-insert = member-insert;
  has-delete = member-delete;
  has-list = λ x s. refl;
  len-list = λ s. refl;
}
