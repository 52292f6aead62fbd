-- ===== src/RevisionControl/Objects.antt =====
-- When two values of JSON are the same: an object is a map, so its fields may stand in any order.
use inplaceu.Base.{
  ◌≡◌, refl, sym, ap, subst, ◌∙◌, inl, inr, Option, none, some, Text, text_eq, ==_iff, ◌==◌, codes,
  arith, Bool-cases, Option-cases, if◌then◌else◌,
}
use inplaceu.RevisionControl.{
  Json, Fields, object, field, empty, get_field, set_field, as_object, template_of, in_spec,
}

mutual
  pub data SameJson : Json → Json → Type 0 where
    same_other : (t : Text) → SameJson (Json.other t) (Json.other t)
    same_object : (f g : Fields) → SameFields f g → SameJson (object f) (object g)

  -- Every key has the same value in both.
  pub data SameFields : Fields → Fields → Type 0 where
    same_fields :
        (f g : Fields)
        → ((key : Text) → SameValue (get_field key f) (get_field key g))
        → SameFields f g

  pub data SameValue : Option Json → Option Json → Type 0 where
    both_none : SameValue none none
    both_some : (v u : Json) → SameJson v u → SameValue (some v) (some u)

-- A value is the same as itself.
mutual
  unfolding get_field

  pub refl_json : (v : Json) → SameJson v v
  refl_json (object f) = same_object f f (same_fields f f (λ key. refl_value key f))
  refl_json (Json.other t) = same_other t

  refl_value : (key : Text) (f : Fields) → SameValue (get_field key f) (get_field key f)
  refl_value key empty = both_none
  refl_value key (field k v rest) = elim (Bool-cases (k == key)) [
    | inl h ↦ rw h (both_some v v (refl_json v))
    | inr h ↦ rw h (refl_value key rest)
  ]

pub refl_fields : (f : Fields) → SameFields f f
refl_fields f = same_fields f f (λ key. refl_value key f)

pub get_field-set_field :
    (key k : Text) (v : Json) (f : Fields)
    → get_field key (set_field k v f) ≡ (if k == key then some v else get_field key f)
unfolding get_field set_field
get_field-set_field key k v empty = refl
get_field-set_field key k v (field j u rest) =
    ground (arith, get_field-set_field key k v rest, ==_iff j k, ==_iff j key, ==_iff k key)

fields_of : Fields → Json → Fields
fields_of f (object g) = g
fields_of f (Json.other t) = f

object_injective : (f g : Fields) → object f ≡ object g → f ≡ g
unfolding fields_of
object_injective f g e = λ i. fields_of f (e i)

value_of : Json → Option Json → Json
value_of v none = v
value_of v (some u) = u

some_injective : (v u : Json) → ◌≡◌ {A = Option Json} (some v) (some u) → v ≡ u
unfolding value_of
some_injective v u e = λ i. value_of v (e i)

SameValue-object :
    (a b : Option Json) (f : Fields)
    → SameValue a b
    → as_object a ≡ some f
    → (g : Fields) × (as_object b ≡ some g) × SameFields f g
SameValue-object _ _ f both_none e = absurd cc
SameValue-object _ _ f (both_some _ _ (same_other t)) e = absurd cc
SameValue-object _ _ f (both_some _ _ (same_object f' g s)) e =
    let same : f' ≡ f = cc in (g, refl, subst (λ x. SameFields x g) same s)

pub SameFields-get :
    (f g : Fields) (key : Text) → SameFields f g → SameValue (get_field key f) (get_field key g)
SameFields-get _ _ key (same_fields f g h) = h key

-- The same set has the same template.
pub SameFields-template_of :
    (f g t : Fields)
    → SameFields f g
    → template_of f ≡ some t
    → (u : Fields) × (template_of g ≡ some u) × SameFields t u
unfolding template_of
SameFields-template_of f g t same e = elim (Option-cases (as_object (get_field (codes "spec") f))) [
  | inl h ↦
      absurd
        (let no_template : ◌≡◌ {A = Option Fields} none (some t) = sym (ap in_spec h) ∙ e in cc)
  | inr (x, h) ↦
      let (y, at_y, specs) = SameValue-object _ _ x (SameFields-get f g (codes "spec") same) h in
      let (u, at_u, templates) =
        SameValue-object _ _ t (SameFields-get x y (codes "template") specs) cc in
      (u, rw (at_y, at_u) refl, templates)
]
