-- ===== src/InPlaceUpdate/Patched.antt =====
-- The containers of a pod that takes an update in place.
use inplaceu.Base.{
  ℕ, ◌≡◌, inl, inr, refl, sym, subst, ap, ◌∙◌, true, Option, none, some, List, [], ◌∷◌, map, Text,
  text_eq, ==_refl, Dict, lookup, insert, All, Bool-cases, arith,
}
use inplaceu.Api.{Pod, Container}
use inplaceu.Sets.{StringSet}
use inplaceu.InPlaceUpdate.{
  UpdateSpec, Patching, InPlaceUpdateState, Metadata, in_place_update_state_key,
}
use inplaceu.InPlaceUpdate.Containers.{
  is_changed, containers_to_update, update_images, set_image, update_metadata, assemble,
  patch_containers,
}

-- A container with the image that the images give it, if they do.
abbrev at_image : Container → Option Text → Container
at_image c none = c
at_image c (some image) = record c { image = image }

abbrev pub with_image : Dict Text Text → Container → Container
with_image images c = at_image c (lookup c.name images)

module _ (patching : Patching) (sets : StringSet) (spec : UpdateSpec) where
  open sets use {Carrier, has, has-insert}

  abbrev names_of : List Container → Carrier → Carrier
  names_of cs names = containers_to_update patching sets spec cs names

  names_of-keeps :
      (cs : List Container) (names : Carrier) (x : Text)
      → has x names ≡ true
      → has x (names_of cs names) ≡ true
  unfolding containers_to_update
  names_of-keeps [] names x h = h
  names_of-keeps (c ∷ cs) names x h = elim (Bool-cases (is_changed patching sets spec c)) [
    | inl e ↦
        rw (e, containers_to_update)
          (names_of-keeps cs (sets.insert c.name names) x
            (ground (arith, h, has-insert c.name x names)))
    | inr e ↦ rw (e, containers_to_update) (names_of-keeps cs names x h)
  ]

  -- The changed containers of a list are among the names.
  abbrev Covers : Carrier → List Container → Type 0
  Covers names cs = All (λ c. is_changed patching sets spec c ≡ true → has c.name names ≡ true) cs

  names_of-Covers : (cs : List Container) (names : Carrier) → Covers (names_of cs names) cs
  unfolding containers_to_update
  names_of-Covers [] names = tt
  names_of-Covers (c ∷ cs) names = elim (Bool-cases (is_changed patching sets spec c)) [
    | inl e ↦
        let names' = sets.insert c.name names in
        let same : names_of (c ∷ cs) names ≡ names_of cs names' =
          rw (e, containers_to_update) refl in
        let named =
          names_of-keeps cs names' c.name
            (has-insert c.name c.name names ∙ rw (==_refl c.name) refl) in
        subst (λ n. Covers n (c ∷ cs)) (sym same) ((λ changed. named), names_of-Covers cs names')
    | inr e ↦
        let same : names_of (c ∷ cs) names ≡ names_of cs names =
          rw (e, containers_to_update) refl in
        subst (λ n. Covers n (c ∷ cs)) (sym same) ((λ changed. absurd cc), names_of-Covers cs names)
  ]

  set_image-now :
      (names : Carrier) (c : Container) (o : Option Text) (changed : Carrier)
      (next : Dict Text Text)
      → ((image : Text) → o ≡ some image → has c.name names ≡ true)
      → let (c', changed', next') = set_image patching sets names c o (changed, next) in
        (c' ≡ at_image c o) × (next' ≡ next)
  set_image-now names c none changed next h = (refl, refl)
  set_image-now names c (some image) changed next h = rw (h image refl) (refl, refl)

  changed_of_image :
      (c : Container) (image : Text)
      → lookup c.name spec.container_images ≡ some image
      → is_changed patching sets spec c ≡ true
  changed_of_image c image e = ground (arith, e)

  update_images-now :
      (names : Carrier) (cs : List Container) (changed : Carrier) (next : Dict Text Text)
      → Covers names cs
      → let (cs', changed', next') = update_images patching sets spec names cs (changed, next) in
        (cs' ≡ map (with_image spec.container_images) cs) × (next' ≡ next)
  unfolding update_images
  update_images-now names [] changed next h = (refl, refl)
  update_images-now names (c ∷ cs) changed next (h, rest) =
      let o = lookup c.name spec.container_images in
      let (c', changed', next') = set_image patching sets names c o (changed, next) in
      let (image, none_later) =
        set_image-now names c o changed next (λ image e. h (changed_of_image c image e)) in
      let (images, later) = update_images-now names cs changed' next' rest in
      ((λ i. image i ∷ images i), later ∙ none_later)

  -- What a pod becomes: its containers have the images of the spec, all at once, and nothing is left
  -- for a next batch, so nothing has to be ready before one. All else but the annotation of the state is
  -- as it was.
  pub record Patched (now : ℕ) (state : InPlaceUpdateState) (pod : Pod)
      (r : Pod × InPlaceUpdateState) : Type 0 where
    pub pod_is : r.0 ≡ record pod {
      containers = map (with_image spec.container_images) pod.containers;
      annotations = insert in_place_update_state_key (patching.state_json r.1) pod.annotations;
    }
    pub no_images_later : r.1.next_container_images ≡ []
    pub no_metadata_later : r.1.next_container_ref_metadata ≡ []
    pub no_pre_check : r.1.pre_check_before_next ≡ none
    pub same_revision : r.1.revision ≡ state.revision

  module _ (now : ℕ) (state : InPlaceUpdateState) (pod : Pod) where
    abbrev new_containers : List Container
    new_containers = map (with_image spec.container_images) pod.containers

    assemble-Patched :
        (names changed : Carrier) (next_images : Dict Text Text) (r : Pod × Dict Text Metadata)
        → next_images ≡ []
        → r ≡ (record pod { containers = new_containers }, [])
        → Patched now state pod (assemble patching sets now state pod names changed next_images r)
    assemble-Patched names changed next_images r later all =
        subst
          (λ (p : Dict Text Text × Pod × Dict Text Metadata).
            Patched now state pod
              (assemble patching sets now state pod names changed p.0 (p.1, p.2)))
          (λ i. (sym later i, (sym all i).0, (sym all i).1))
          (record {
            pod_is = refl;
            no_images_later = refl;
            no_metadata_later = refl;
            no_pre_check = refl;
            same_revision = refl;
          })

    -- For a spec with no metadata of single containers, a pod takes all of the update in one batch.
    pub patch_containers-Patched :
        spec.container_ref_metadata ≡ []
        → Patched now state pod (patch_containers patching sets now spec state pod)
    unfolding patch_containers update_metadata
    patch_containers-Patched none_there =
        let names = names_of pod.containers sets.new in
        let updated = update_images patching sets spec names pod.containers (sets.new, []) in
        let (images, later) =
          update_images-now names pod.containers sets.new []
            (names_of-Covers pod.containers sets.new) in
        assemble-Patched names updated.1 updated.2 _ later (
          ap
            (λ m. update_metadata patching sets names m (record pod { containers = updated.0 }, []))
            none_there
          ∙ ap (λ cs. (record pod { containers = cs }, [])) images)
