-- ===== src/InPlaceUpdate.antt =====
-- internal/inplace_update/inplace_update.go: which changes of a revision a running pod can take; the
-- pod that takes them is in Containers, and the writes are in Sending. The client is that of `AdapterRuntimeClient` of
-- internal/utils/podadapter/pod_adapter.go, the hashes are written as by internal/utils.
pub mod Containers
pub mod Sending
pub mod Reads
pub mod Spec
pub mod Patched
pub mod Makes
pub mod Written
use inplaceu.Base.{
  ℕ, zero, suc, ◌<◌, ◌⊎◌, inl, inr, Bool, true, false, not, ◌&&◌, ◌||◌, Option, none, some, List,
  [], ◌∷◌, ◌++◌, map, Text, text_eq, ◌==◌, Dict, codes, lookup, insert, split, parse_uint,
  get_elem?, length, is_empty, nat_beq, if◌then◌else◌,
}
use inplaceu.Base.Int.{ℤ, pos}
use inplaceu.Api.{Pod, PodTemplate, Container, ContainerStatus, ControllerRevision}
use inplaceu.Sets.{StringSet}
use inplaceu.Utils.Hash.{write_revision_hash}
use inplaceu.Sync.State.{Client, Error, api, message}
use inplaceu.Sync.Update.{InPlace, UpdateResult}

abbrev pub in_place_update_state_key : Text
in_place_update_state_key = codes "batch.inplace.kubebuilder.io/inplace-update-state"

-- `metav1.ObjectMeta`, by the maps that the update reads.
pub record Metadata : Type 0 where
  pub labels : Dict Text Text
  pub annotations : Dict Text Text

-- `corev1.ResourceRequirements`, by a text.
abbrev pub Resources : Type 0
Resources = Text

pub record InPlaceUpdateContainerBatch : Type 0 where
  pub timestamp : ℕ
  pub containers : List Text

-- The containers' last statuses are their image IDs, and the pre-check is the names of the containers
-- that have to be ready.
pub record InPlaceUpdateState : Type 0 where
  pub revision : Text
  pub update_timestamp : ℕ
  pub last_container_statuses : Dict Text Text
  pub update_env_from_metadata : Bool
  pub update_resources : Bool
  pub update_images : Bool
  pub next_container_images : Dict Text Text
  pub next_container_ref_metadata : Dict Text Metadata
  pub next_container_resources : Dict Text Resources
  pub pre_check_before_next : Option (List Text)
  pub container_batches_record : List InPlaceUpdateContainerBatch

-- `OldTemplate` and `NewTemplate` are never set.
pub record UpdateSpec : Type 0 where
  pub revision : Text
  pub container_images : Dict Text Text
  pub container_ref_metadata : Dict Text Metadata
  pub container_resources : Dict Text Resources
  pub meta_data_patch : Option Text
  pub update_env_from_metadata : Bool

-- An operation of a JSON patch. The value is read as a string of an image only, which it is.
pub record Operation : Type 0 where
  pub operation : Text
  pub path : Text
  pub value : Text

-- What the update calls and is not part of the program.
pub record Patching : Type 0 where
  -- `jsonpatch.CreatePatch` of the data of two revisions.
  pub create_patch : Text → Text → Option (List Operation)
  -- `json.Unmarshal` of the data of a revision, with the template taken out.
  pub read_template : Text → Option PodTemplate
  -- `strategicpatch.CreateTwoWayMergePatch` of the metadata of two templates.
  pub two_way_merge : PodTemplate → PodTemplate → Option Text
  -- `strategicpatch.StrategicMergePatch` of a pod, read again; the text of an error.
  pub merge_metadata : Pod → Text → Text ⊎ Pod
  pub state_json : InPlaceUpdateState → Text

-- The rest of a text behind a prefix.
unfoldable pub strip_prefix : Text → Text → Option Text
strip_prefix [] t = some t
strip_prefix (c ∷ p) [] = none
strip_prefix (c ∷ p) (d ∷ t) = let rest = strip_prefix p t in if nat_beq c d then rest else none

abbrev pub has_prefix : Text → Text → Bool
has_prefix prefix t = elim (strip_prefix prefix t) [ none ↦ false | some rest ↦ true ]

-- `strings.Replace(t, old, "", 1)` for a text that is not empty.
unfoldable pub remove_first : Text → Text → Text
unfolding strip_prefix
remove_first old [] = []
remove_first old (c ∷ t) =
    let later = remove_first old t in
    elim (strip_prefix old (c ∷ t)) [ some rest ↦ rest | none ↦ c ∷ later ]

-- The pieces of a path against `^/spec/containers/([0-9]+)/image$`: the index, `none` also where it
-- has more than 64 bits, which no list of containers reaches.
abbrev pub image_words : List Text → Option ℕ
image_words (root ∷ spec ∷ containers ∷ index ∷ image ∷ []) =
    if root == []
      && spec == codes "spec"
      && containers == codes "containers"
      && image == codes "image"
    then parse_uint index
    else none
image_words _ = none

unfoldable pub image_index : Text → Option ℕ
image_index path = image_words (split path b'/')

-- The kinds of operations, by their paths without the template's: of the metadata, of an image, and
-- those that no running pod takes.
pub data Change : Type 0 where
  metadata_change : Change
  image_change : Text → Text → Change
  other_change : Change

abbrev image_at : Operation → Option Container → Change
image_at op none = other_change
image_at op (some c) = image_change c.name op.value

abbrev image_of : PodTemplate → Operation → Option ℕ → Change
image_of old op none = other_change
image_of old op (some i) = image_at op (get_elem? old.containers i)

-- One round of the loop over the operations.
unfoldable pub classify : PodTemplate → Operation → Change
unfolding remove_first image_index strip_prefix
classify old op =
    let path = remove_first (codes "/spec/template") op.path in
    if not (has_prefix (codes "/spec/") path)
    then (if has_prefix (codes "/metadata/") path then metadata_change else other_change)
    else if not (op.operation == codes "replace")
    then other_change
    else image_of old op (image_index path)

-- The images so far, and whether an operation is of the metadata.
abbrev pub Found : Type 0
Found = Dict Text Text × Bool

abbrev pub note_change : Change → Found → (Found → Option Found) → Option Found
note_change metadata_change (images, metadata) next = next (images, true)
note_change (image_change name image) (images, metadata) next =
    next (insert name image images, metadata)
note_change other_change (images, metadata) next = none

unfoldable pub read_patches : PodTemplate → List Operation → Found → Option Found
unfolding classify
read_patches old [] found = some found
read_patches old (op ∷ ops) found = note_change (classify old op) found (read_patches old ops)

module _ (patching : Patching) where
  open patching use {create_patch, read_template, two_way_merge}

  abbrev spec_of : Text → Dict Text Text → Option Text → UpdateSpec
  spec_of name images patch = record {
    revision = name;
    container_images = images;
    container_ref_metadata = [];
    container_resources = [];
    meta_data_patch = patch;
    update_env_from_metadata = false;
  }

  abbrev with_metadata : Text → Dict Text Text → Option Text → Option UpdateSpec
  with_metadata name images none = none
  with_metadata name images (some patch) = some (spec_of name images (some patch))

  abbrev pub spec_found : Text → PodTemplate → PodTemplate → Option Found → Option UpdateSpec
  spec_found name old new none = none
  spec_found name old new (some (images, metadata)) =
      if metadata
      then with_metadata name images (two_way_merge old new)
      else some (spec_of name images none)

  abbrev pub spec_between :
      Text → Option (List Operation) → Option PodTemplate → Option PodTemplate → Option UpdateSpec
  spec_between name (some ops) (some old) (some new) =
      spec_found name old new (read_patches old ops ([], false))
  spec_between name _ _ _ = none

  -- `CalculateSpec`; the code never passes a missing new revision.
  unfoldable pub calculate_spec : Option ControllerRevision → ControllerRevision → Option UpdateSpec
  unfolding read_patches
  calculate_spec none new = none
  calculate_spec (some old) new =
      spec_between new.name (create_patch old.raw new.raw) (read_template old.raw)
        (read_template new.raw)
