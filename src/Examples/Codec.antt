-- ===== src/Examples/Codec.antt =====
-- A codec for maps, and the revision of a set with annotations.
use inplaceu.Base.{
  ℕ, zero, suc, ◌≡◌, refl, sym, subst, ap, ◌∙◌, inl, inr, some, List, [], ◌∷◌, Text, text_eq, codes,
  insert,
}
use inplaceu.Base.Int.{pos}
use inplaceu.Api.{Inplaceu, ControllerRevision}
use inplaceu.RevisionControl.{Codec, Json, Fields, object, field, empty, new_revision}
use inplaceu.RevisionControl.Objects.{SameFields, refl_fields}
use inplaceu.RevisionControl.Templates.{Keeps, ReadsBack, KeepsData, new_revision-Keeps}
use inplaceu.Examples.{web}
use inplaceu.Examples.Setting.{stored}

-- A value is written as the steps of a machine that builds it. The machine holds texts, values and maps
-- that are under way: a step pushes an empty text, makes a value of a text, makes a value of a
-- map, pushes an empty map, adds a field to a map, or adds a character to a text.
unfoldable write_text : Text → Text → Text
write_text [] out = 0 ∷ out
write_text (c ∷ t) out = write_text t (suc (suc (suc (suc (suc c)))) ∷ out)

unfoldable mutual
  write_json : Json → Text → Text
  write_json (Json.other t) out = write_text t (1 ∷ out)
  write_json (object f) out = write_fields f (2 ∷ out)

  write_fields : Fields → Text → Text
  write_fields empty out = 3 ∷ out
  write_fields (field k v rest) out = write_fields rest (write_json v (write_text k (4 ∷ out)))

data Step : Type 0 where
  new_text : Step
  put_value : Step
  put_object : Step
  new_map : Step
  put_field : Step
  put_char : ℕ → Step

abbrev step_of : ℕ → Step
step_of zero = new_text
step_of (suc zero) = put_value
step_of (suc (suc zero)) = put_object
step_of (suc (suc (suc zero))) = new_map
step_of (suc (suc (suc (suc zero)))) = put_field
step_of (suc (suc (suc (suc (suc c))))) = put_char c

record Machine : Type 0 where
  texts : List Text
  values : List Json
  maps : List Fields

-- A step with too little to work on is passed over.
abbrev make : Step → Machine → Machine
make new_text m = record m { texts = [] ∷ m.texts }
make new_map m = record m { maps = empty ∷ m.maps }
make (put_char c) m = elim m.texts [ [] ↦ m | (t ∷ ts) ↦ record m { texts = (c ∷ t) ∷ ts } ]
make put_value m = elim m.texts [
  | [] ↦ m
  | (t ∷ ts) ↦ record m { texts = ts; values = Json.other t ∷ m.values }
]
make put_object m = elim m.maps [
  | [] ↦ m
  | (f ∷ fs) ↦ record m { maps = fs; values = object f ∷ m.values }
]
make put_field m = elim m.texts [
  | [] ↦ m
  | (t ∷ ts) ↦ elim m.values [
    | [] ↦ m
    | (v ∷ vs) ↦ elim m.maps [
      | [] ↦ m
      | (f ∷ fs) ↦ record { texts = ts; values = vs; maps = field t v f ∷ fs }
    ]
  ]
]

unfoldable machine : Text → Machine → Machine
machine [] m = m
machine (n ∷ out) m = machine out (make (step_of n) m)

abbrev holding : List Text → List Json → List Fields → Machine
holding ts js fs = record { texts = ts; values = js; maps = fs }

machine-write_text :
    (t out : Text) (ts : List Text) (js : List Json) (fs : List Fields)
    → machine (write_text t out) (holding ts js fs) ≡ machine out (holding (t ∷ ts) js fs)
unfolding machine write_text
machine-write_text [] out ts js fs = refl
machine-write_text (c ∷ t) out ts js fs =
    machine-write_text t (suc (suc (suc (suc (suc c)))) ∷ out) ts js fs

mutual
  unfolding machine write_json

  machine-write_json :
      (v : Json) (out : Text) (ts : List Text) (js : List Json) (fs : List Fields)
      → machine (write_json v out) (holding ts js fs) ≡ machine out (holding ts (v ∷ js) fs)
  machine-write_json (Json.other t) out ts js fs = machine-write_text t (1 ∷ out) ts js fs
  machine-write_json (object f) out ts js fs = machine-write_fields f (2 ∷ out) ts js fs

  machine-write_fields :
      (f : Fields) (out : Text) (ts : List Text) (js : List Json) (fs : List Fields)
      → machine (write_fields f out) (holding ts js fs) ≡ machine out (holding ts js (f ∷ fs))
  machine-write_fields empty out ts js fs = refl
  machine-write_fields (field k v rest) out ts js fs =
      machine-write_fields rest (write_json v (write_text k (4 ∷ out))) ts js fs
      ∙ machine-write_json v (write_text k (4 ∷ out)) ts js (rest ∷ fs)
      ∙ machine-write_text k (4 ∷ out) ts (v ∷ js) (rest ∷ fs)

abbrev first_or_empty : List Fields → Fields
first_or_empty [] = empty
first_or_empty (f ∷ fs) = f

unfoldable read_fields : Text → Fields
unfolding machine
read_fields t = first_or_empty (machine t (holding [] [] [])).maps

read_fields-write_fields : (f : Fields) → read_fields (write_fields f []) ≡ f
unfolding read_fields machine
read_fields-write_fields f =
    ap (λ (m : Machine). first_or_empty m.maps) (machine-write_fields f [] [] [] [])

-- The encoding of a set: its name, and a template with one label.
abbrev encoded : Inplaceu → Fields
encoded iu = field (codes "name") (Json.other iu.name) (
    field (codes "spec")
      (object (
        field (codes "template") (object (field (codes "app") (Json.other (codes "1")) empty))
          empty))
      empty)

abbrev codec : Codec ℕ
codec = record {
  encode = λ iu. inr (write_fields (encoded iu) []);
  unmarshal = read_fields;
  marshal = λ f. inr (write_fields f []);
  strategic_merge_patch = λ t p. inl 1;
  unmarshal_set = λ t. inl 1;
  new_controller_revision = λ iu labels raw n count. inr (stored (codes "web-b2") raw n);
}

codec-ReadsBack : ReadsBack codec
codec-ReadsBack f t h =
    let same : write_fields f [] ≡ t = cc in
    subst (SameFields f) (sym (read_fields-write_fields f) ∙ ap read_fields same) (refl_fields f)

codec-KeepsData : KeepsData codec
codec-KeepsData iu labels raw n count cr h =
    let same : stored (codes "web-b2") raw n ≡ cr = cc in
    ap (λ (r : ControllerRevision). r.raw) (sym same)

abbrev noted : Inplaceu
noted = record web { annotations = (codes "note", codes "first") ∷ (codes "owner", codes "b") ∷ [] }

abbrev patch : Text
patch =
    write_fields
      (field (codes "spec")
        (object (
          field (codes "template")
            (object (
              field (codes "app") (Json.other (codes "1"))
                (field (codes "$patch") (Json.other (codes "\"replace\"")) empty)))
            empty))
        empty)
      []

abbrev made : ControllerRevision
made = record (stored (codes "web-b2") patch (pos 1)) {
  annotations = (codes "owner", codes "b") ∷ (codes "note", codes "first") ∷ [];
}

made_lem : new_revision codec noted (pos 1) (pos 0) ≡ some (inr made)
unfolding new_revision read_fields write_text write_json insert
made_lem = refl

new_revision-Keeps_example : Keeps codec noted made
new_revision-Keeps_example =
    new_revision-Keeps codec noted (pos 1) (pos 0) made codec-ReadsBack codec-KeepsData made_lem
