-- ===== src/InPlaceUpdate/Containers.antt =====
-- `defaultPatchUpdateSpecToPod` of internal/inplace_update/inplace_update.go: the pod that takes an
-- update, by loops over its containers, and the state that it records.
use inplaceu.Base.{
  ℕ, ◌⊎◌, inl, inr, Bool, true, false, not, ◌&&◌, ◌||◌, Option, none, some, List, [], ◌∷◌, ◌++◌,
  Text, text_eq, Dict, lookup, insert, is_empty, if◌then◌else◌,
}
use inplaceu.Api.{Pod, Container, ContainerStatus}
use inplaceu.Sets.{StringSet}
use inplaceu.Utils.Hash.{write_revision_hash}
use inplaceu.InPlaceUpdate.{
  Metadata, InPlaceUpdateState, UpdateSpec, Patching, in_place_update_state_key,
}

module _ (patching : Patching) (sets : StringSet) where
  open patching use {merge_metadata, state_json}
  open sets use {Carrier, has, list}

  abbrev pub has_key {ℓ} : {V : Type ℓ} → Text → Dict Text V → Bool
  has_key k m = elim (lookup k m) [ none ↦ false | some v ↦ true ]

  abbrev pub is_changed : UpdateSpec → Container → Bool
  is_changed spec c =
      has_key c.name spec.container_images
      || has_key c.name spec.container_ref_metadata
      || has_key c.name spec.container_resources

  unfoldable pub containers_to_update : UpdateSpec → List Container → Carrier → Carrier
  unfolding lookup
  containers_to_update spec [] names = names
  containers_to_update spec (c ∷ cs) names =
      containers_to_update spec cs (if is_changed spec c then sets.insert c.name names else names)

  -- What the loop over the images leaves: the containers, the names of those with a new image, and
  -- the images for later.
  abbrev pub Images : Type 0
  Images = List Container × Carrier × Dict Text Text

  abbrev pub set_image :
      Carrier
      → Container
      → Option Text
      → Carrier × Dict Text Text
      → Container × Carrier × Dict Text Text
  set_image names c none (changed, next) = (c, changed, next)
  set_image names c (some image) (changed, next) =
      if has c.name names
      then (record c { image = image }, sets.insert c.name changed, next)
      else (c, changed, insert c.name image next)

  unfoldable pub update_images :
      UpdateSpec → Carrier → List Container → Carrier × Dict Text Text → Images
  unfolding lookup
  update_images spec names [] (changed, next) = ([], changed, next)
  update_images spec names (c ∷ cs) (changed, next) =
      let (c', changed', next') =
        set_image names c (lookup c.name spec.container_images) (changed, next) in
      let (cs', changed'', next'') = update_images spec names cs (changed', next') in
      (c' ∷ cs', changed'', next'')

  -- The first status of each container whose image changes.
  unfoldable pub last_statuses : Carrier → List ContainerStatus → Dict Text Text → Dict Text Text
  unfolding lookup
  last_statuses changed [] last = last
  last_statuses changed (c ∷ cs) last = last_statuses changed cs (
      if has c.name changed && not (has_key c.name last)
      then insert c.name c.image_id last
      else last)

  abbrev pub insert_all : Dict Text Text → Dict Text Text → Dict Text Text
  insert_all [] into = into
  insert_all ((k, v) ∷ from) into = insert_all from (insert k v into)

  -- The loop over the metadata of containers.
  unfoldable pub update_metadata :
      Carrier → Dict Text Metadata → Pod × Dict Text Metadata → Pod × Dict Text Metadata
  update_metadata names [] (pod, next) = (pod, next)
  update_metadata names ((name, meta) ∷ rest) (pod, next) = update_metadata names rest (
      if has name names
      then (
        record pod {
          labels = insert_all meta.labels pod.labels;
          annotations = insert_all meta.annotations pod.annotations;
        },
        next,
      )
      else (pod, insert name meta next))

  -- The state at the end, with the names of the containers, those whose image changed, and what is
  -- left for later; the pod gets it as an annotation.
  abbrev pub assemble :
      ℕ
      → InPlaceUpdateState
      → Pod
      → Carrier
      → Carrier
      → Dict Text Text
      → Pod × Dict Text Metadata
      → Pod × InPlaceUpdateState
  assemble now state pod names changed next_images (pod', next_metadata) =
      let waits = not (is_empty next_images) || not (is_empty next_metadata) in
      let state' : InPlaceUpdateState = record state {
        last_container_statuses =
            last_statuses changed pod.container_statuses state.last_container_statuses;
        next_container_images = next_images;
        next_container_ref_metadata = next_metadata;
        next_container_resources = [];
        pre_check_before_next = if waits then some (list names) else none;
        container_batches_record =
            state.container_batches_record
            ++ record { timestamp = now; containers = list names } ∷ [];
      } in
      (
        record pod' {
          annotations = insert in_place_update_state_key (state_json state') pod'.annotations;
        },
        state',
      )

  -- `defaultPatchUpdateSpecToPod` behind the patch of the metadata, at a time.
  unfoldable pub patch_containers :
      ℕ → UpdateSpec → InPlaceUpdateState → Pod → Pod × InPlaceUpdateState
  unfolding containers_to_update update_images last_statuses update_metadata
  patch_containers now spec state pod =
      let names = containers_to_update spec pod.containers sets.new in
      let (containers, changed, next_images) =
        update_images spec names pod.containers (sets.new, []) in
      assemble now state pod names changed next_images (
        update_metadata names spec.container_ref_metadata
          (record pod { containers = containers }, []))

  abbrev pub with_merged :
      ℕ → UpdateSpec → InPlaceUpdateState → Text ⊎ Pod → Text ⊎ (Pod × InPlaceUpdateState)
  with_merged now spec state (inl e) = inl e
  with_merged now spec state (inr pod) = inr (patch_containers now spec state pod)

  -- `defaultPatchUpdateSpecToPod`.
  unfoldable pub default_patch_update_spec_to_pod :
      ℕ → Pod → UpdateSpec → InPlaceUpdateState → Text ⊎ (Pod × InPlaceUpdateState)
  unfolding patch_containers
  default_patch_update_spec_to_pod now pod spec state = elim spec.meta_data_patch [
    | none ↦ inr (patch_containers now spec state pod)
    | some patch ↦ with_merged now spec state (merge_metadata pod patch)
  ]

  -- The state that the update of a pod starts from.
  abbrev pub first_state : ℕ → UpdateSpec → InPlaceUpdateState
  first_state now spec = record {
    revision = spec.revision;
    update_timestamp = now;
    last_container_statuses = [];
    update_env_from_metadata = spec.update_env_from_metadata;
    update_resources = not (is_empty spec.container_resources);
    update_images = not (is_empty spec.container_images);
    next_container_images = [];
    next_container_ref_metadata = [];
    next_container_resources = [];
    pre_check_before_next = none;
    container_batches_record = [];
  }

  -- The pod at the revision, with its first state.
  abbrev pub marked : ℕ → UpdateSpec → Pod → Pod
  marked now spec pod = record pod {
    labels = write_revision_hash pod.labels spec.revision;
    annotations =
        insert in_place_update_state_key (state_json (first_state now spec)) pod.annotations;
  }
