-- ===== src/RevisionControl.antt =====
-- internal/utils/revision/inplaceu_revision.go with the parts of
-- internal/inplaceu_core/inplaceu_core.go that it calls: a set's template as the data of a revision,
-- and a set with the template of a revision. The codec, JSON and the merge of patches are parameters.
pub mod Objects
pub mod Templates
use inplaceu.Base.{
  ◌⊎◌, inl, inr, Option, none, some, List, [], ◌∷◌, Text, text_eq, ◌==◌, Dict, codes, insert,
  if◌then◌else◌,
}
use inplaceu.Base.Int.{ℤ}
use inplaceu.Api.{Inplaceu, ControllerRevision}

-- A value that `json.Unmarshal` makes, by its text where it is not an object. An object is a
-- `map[string]interface{}`, as a list of its fields of which the first with a key counts; their order
-- means nothing, and RevisionControl/Objects says when two are the same map.
mutual
  pub data Json : Type 0 where
    object : Fields → Json
    other : Text → Json

  pub data Fields : Type 0 where
    empty : Fields
    field : Text → Json → Fields → Fields

unfoldable pub get_field : Text → Fields → Option Json
get_field key empty = none
get_field key (field k v rest) =
    let found = get_field key rest in if k == key then some v else found

unfoldable pub set_field : Text → Json → Fields → Fields
set_field key value empty = field key value empty
set_field key value (field k v rest) =
    let set = set_field key value rest in if k == key then field key value rest else field k v set

-- `SetRevisionTemplate`, which puts the template there and then marks it.
unfoldable pub set_revision_template : Fields → Fields → Fields
unfolding set_field
set_revision_template revision_spec template =
    set_field (codes "template")
      (object (set_field (codes "$patch") (other (codes "\"replace\"")) template)) revision_spec

-- What the revisions are made with.
pub record Codec (E : Type 0) : Type 0 where
  -- `runtime.Encode` of a set.
  pub encode : Inplaceu → E ⊎ Text
  -- `json.Unmarshal` into a map, whose error is dropped: the map is then as far as it was read.
  pub unmarshal : Text → Fields
  pub marshal : Fields → E ⊎ Text
  pub strategic_merge_patch : Text → Text → E ⊎ Text
  -- `json.Unmarshal` into a set.
  pub unmarshal_set : Text → E ⊎ Inplaceu
  -- `history.NewControllerRevision` of Kubernetes, with the labels, the data, the number and the
  -- collision count.
  pub new_controller_revision : Inplaceu → Dict Text Text → Text → ℤ → ℤ → E ⊎ ControllerRevision

abbrev pub as_object : Option Json → Option Fields
as_object (some (object fields)) = some fields
as_object _ = none

-- The template of a decoded set; `none` where a type assertion fails.
abbrev pub in_spec : Option Fields → Option Fields
in_spec none = none
in_spec (some spec) = as_object (get_field (codes "template") spec)

unfoldable pub template_of : Fields → Option Fields
unfolding get_field
template_of raw = in_spec (as_object (get_field (codes "spec") raw))

-- The loop that writes the set's annotations into those of the revision.
unfoldable pub add_annotations : Dict Text Text → Dict Text Text → Dict Text Text
add_annotations [] annotations = annotations
add_annotations ((k, v) ∷ from) annotations = insert k v (add_annotations from annotations)

module _ {E : Type 0} (codec : Codec E) where
  open codec use {
    encode, unmarshal, marshal, strategic_merge_patch, unmarshal_set, new_controller_revision,
  }

  -- The patch of a template.
  abbrev pub marshal_template : Fields → E ⊎ Text
  marshal_template template =
      marshal (field (codes "spec") (object (set_revision_template empty template)) empty)

  abbrev patch_of : Option Fields → Option (E ⊎ Text)
  patch_of none = none
  patch_of (some template) = some (marshal_template template)

  abbrev decoded_patch : E ⊎ Text → Option (E ⊎ Text)
  decoded_patch (inl e) = some (inl e)
  decoded_patch (inr str) = patch_of (template_of (unmarshal str))

  -- `getPatch`; `none` is a panic.
  unfoldable pub get_patch : Inplaceu → Option (E ⊎ Text)
  unfolding template_of set_revision_template
  get_patch iu = decoded_patch (encode iu)

  abbrev annotated : Inplaceu → E ⊎ ControllerRevision → E ⊎ ControllerRevision
  annotated iu (inl e) = inl e
  annotated iu (inr cr) =
      inr (record cr { annotations = add_annotations iu.annotations cr.annotations })

  abbrev revision_of : Inplaceu → ℤ → ℤ → Option (E ⊎ Text) → Option (E ⊎ ControllerRevision)
  revision_of iu revision count none = none
  revision_of iu revision count (some (inl e)) = some (inl e)
  revision_of iu revision count (some (inr patch)) =
      some (annotated iu (new_controller_revision iu iu.spec.template.labels patch revision count))

  unfoldable pub new_revision : Inplaceu → ℤ → ℤ → Option (E ⊎ ControllerRevision)
  unfolding get_patch add_annotations
  new_revision iu revision count = revision_of iu revision count (get_patch iu)

  abbrev apply_patched : E ⊎ Text → E ⊎ Inplaceu
  apply_patched (inl e) = inl e
  apply_patched (inr patched) = unmarshal_set patched

  abbrev apply_to : ControllerRevision → E ⊎ Text → E ⊎ Inplaceu
  apply_to revision (inl e) = inl e
  apply_to revision (inr bytes) = apply_patched (strategic_merge_patch bytes revision.raw)

  unfoldable pub apply_revision : Inplaceu → ControllerRevision → E ⊎ Inplaceu
  apply_revision iu revision = apply_to revision (encode iu)
