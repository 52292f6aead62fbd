-- ===== src/RevisionControl/Templates.antt =====
-- What a revision keeps of the set that it is made from.
use inplaceu.Base.{
  ◌≡◌, ◌⊎◌, inl, inr, refl, subst, ◌∙◌, ap, Option, none, some, [], ◌∷◌, Text, text_eq, Dict, codes,
  lookup, lookup-insert, arith, ◌==◌, false,
}
use inplaceu.Base.Int.{ℤ}
use inplaceu.Api.{Inplaceu, ControllerRevision}
use inplaceu.RevisionControl.Objects.{
  SameFields, SameValue, both_none, both_some, same_other, same_object, get_field-set_field,
  SameFields-get, SameFields-template_of,
}
use inplaceu.RevisionControl.{
  Codec, Json, Fields, object, field, empty, get_field, set_field, set_revision_template,
  template_of, marshal_template, get_patch, new_revision, add_annotations, annotated, revision_of,
  patch_of, decoded_patch,
}

-- The value of the first map, or else of the second.
abbrev pub or_else {ℓ} : {A : Type ℓ} → Option A → Option A → Option A
or_else none b = b
or_else (some a) b = some a

lookup-add_annotations :
    (k : Text) (from annotations : Dict Text Text)
    → lookup k (add_annotations from annotations) ≡ or_else (lookup k from) (lookup k annotations)
unfolding add_annotations lookup
lookup-add_annotations k [] annotations = refl
lookup-add_annotations k ((j, v) ∷ from) annotations = ground (
  arith,
  lookup-insert j k v (add_annotations from annotations),
  lookup-add_annotations k from annotations,
)

-- A template that is marked to replace what it is merged into.
abbrev pub replacing : Fields → Fields
replacing template = set_field (codes "$patch") (Json.other (codes "\"replace\"")) template

-- A template that is marked to replace what it is merged into, and is as it was under every other key.
pub record Replaces (template stored : Fields) : Type 0 where
  pub mark : get_field (codes "$patch") stored ≡ some (Json.other (codes "\"replace\""))
  pub others :
      (key : Text)
      → (codes "$patch" == key) ≡ false
      → SameValue (get_field key template) (get_field key stored)

SameValue-other :
    (a b : Option Json) (t : Text)
    → SameValue a b
    → a ≡ some (Json.other t)
    → b ≡ some (Json.other t)
SameValue-other _ _ t both_none e = absurd cc
SameValue-other _ _ t (both_some _ _ (same_other u)) e = e
SameValue-other _ _ t (both_some _ _ (same_object f g s)) e = absurd cc

replacing-Replaces :
    (template stored : Fields) → SameFields (replacing template) stored → Replaces template stored
replacing-Replaces template stored same =
    let mark_text = Json.other (codes "\"replace\"") in
    record {
      mark =
          SameValue-other _ _ (codes "\"replace\"")
            (SameFields-get (replacing template) stored (codes "$patch") same)
            (get_field-set_field (codes "$patch") (codes "$patch") mark_text template);
      others = λ key h.
          subst (λ o. SameValue o (get_field key stored))
            (get_field-set_field key (codes "$patch") mark_text template ∙ rw h refl)
            (SameFields-get (replacing template) stored key same);
    }

module _ {E : Type 0} (codec : Codec E) where
  open codec use {encode, unmarshal, marshal, new_controller_revision}

  -- What JSON writes it reads back as the same map, with its fields in any order.
  abbrev pub ReadsBack : Type 0
  ReadsBack =
      (fields : Fields) (t : Text) → marshal fields ≡ inr t → SameFields fields (unmarshal t)

  -- A revision is made with the data that it is given.
  abbrev pub KeepsData : Type 0
  KeepsData =
      (iu : Inplaceu) (labels : Dict Text Text) (raw : Text) (n count : ℤ) (cr : ControllerRevision)
      → new_controller_revision iu labels raw n count ≡ inr cr
      → cr.raw ≡ raw

  -- What a revision of a set is: the one that Kubernetes makes, with the set's annotations over its
  -- own, and the template that the set's encoding has as its data, marked to replace.
  abbrev pub Keeps : Inplaceu → ControllerRevision → Type 0
  Keeps iu cr =
      (template : Fields) × (str : Text) × (encode iu ≡ inr str)
      × (template_of (unmarshal str) ≡ some template)
      × (stored : Fields) × (template_of (unmarshal cr.raw) ≡ some stored)
      × Replaces template stored
      × ((k : Text) (v : Text)
          → lookup k iu.annotations ≡ some v
          → lookup k cr.annotations ≡ some v)

  template_of_lem :
      (template : Fields)
      → template_of (field (codes "spec") (object (set_revision_template empty template)) empty)
        ≡ some (replacing template)
  unfolding template_of set_revision_template set_field get_field
  template_of_lem template = refl

  module _ (iu : Inplaceu) (n count : ℤ) (cr : ControllerRevision) (reads : ReadsBack)
      (keeps : KeepsData) where
    -- The revision's data and annotations.
    abbrev Made : Text → Type 0
    Made patch =
        (cr.raw ≡ patch)
        × ((k : Text) (v : Text)
            → lookup k iu.annotations ≡ some v
            → lookup k cr.annotations ≡ some v)

    annotated-Made :
        (patch : Text) (r : E ⊎ ControllerRevision)
        → ((base : ControllerRevision) → r ≡ inr base → base.raw ≡ patch)
        → annotated codec iu r ≡ inr cr
        → Made patch
    annotated-Made patch (inl e) same made = absurd cc
    annotated-Made patch (inr base) same made =
        let eq : record base { annotations = add_annotations iu.annotations base.annotations }
            ≡ cr =
          cc in
        subst
          (λ (r : ControllerRevision).
            (r.raw ≡ patch)
            × ((k : Text) (v : Text)
                → lookup k iu.annotations ≡ some v
                → lookup k r.annotations ≡ some v))
          eq
          (
            same base refl,
            (λ k v h. lookup-add_annotations k iu.annotations base.annotations ∙ rw h refl),
          )

    patch-Keeps :
        (str : Text) (template : Fields) (patch : E ⊎ Text)
        → encode iu ≡ inr str
        → template_of (unmarshal str) ≡ some template
        → marshal_template codec template ≡ patch
        → revision_of codec iu n count (some patch) ≡ some (inr cr)
        → Keeps iu cr
    patch-Keeps str template (inl e) enc dec mar made = absurd cc
    patch-Keeps str template (inr patch) enc dec mar made =
        let (stored, at_stored, same) =
          SameFields-template_of _ (unmarshal patch) (replacing template) (reads _ patch mar)
            (template_of_lem template) in
        let (raw, annotations) =
          annotated-Made patch (new_controller_revision iu iu.spec.template.labels patch n count)
            (keeps iu iu.spec.template.labels patch n count) cc in
        (
          template,
          str,
          enc,
          dec,
          stored,
          ap (λ t. template_of (unmarshal t)) raw ∙ at_stored,
          replacing-Replaces template stored same,
          annotations,
        )

    template-Keeps :
        (str : Text) (t : Option Fields)
        → encode iu ≡ inr str
        → template_of (unmarshal str) ≡ t
        → revision_of codec iu n count (patch_of codec t) ≡ some (inr cr)
        → Keeps iu cr
    template-Keeps str none enc dec made = absurd cc
    template-Keeps str (some template) enc dec made = patch-Keeps str template _ enc dec refl made

    encoded-Keeps :
        (e : E ⊎ Text)
        → encode iu ≡ e
        → revision_of codec iu n count (decoded_patch codec e) ≡ some (inr cr)
        → Keeps iu cr
    encoded-Keeps (inl e) enc made = absurd cc
    encoded-Keeps (inr str) enc made = template-Keeps str _ enc refl made

  -- Where JSON reads what it writes back as the same map and Kubernetes makes a revision with the data
  -- that it is given, a revision that is made from a set holds every annotation of the set, and its
  -- data reads as the template that the set's encoding has: under every key but `$patch` with the
  -- same value, and there with the mark that it replaces what it is merged into.
  pub new_revision-Keeps :
      (iu : Inplaceu) (n count : ℤ) (cr : ControllerRevision)
      → ReadsBack
      → KeepsData
      → new_revision codec iu n count ≡ some (inr cr)
      → Keeps iu cr
  unfolding new_revision get_patch
  new_revision-Keeps iu n count cr reads keeps made =
      encoded-Keeps iu n count cr reads keeps (encode iu) refl made
