-- ===== src/InPlaceUpdate/Makes.antt =====
-- The pod that an update in place makes of a read one.
use inplaceu.Base.{
  ℕ, ◌≡◌, ◌⊎◌, inl, inr, refl, sym, subst, none, some, [], map, Text, text_eq, Dict, Option-cases,
  sum-cases,
}
use inplaceu.Api.{Pod}
use inplaceu.Sets.{StringSet}
use inplaceu.Utils.Hash.{write_revision_hash}
use inplaceu.InPlaceUpdate.{UpdateSpec, Patching, InPlaceUpdateState}
use inplaceu.InPlaceUpdate.Containers.{
  default_patch_update_spec_to_pod, patch_containers, with_merged, first_state, marked,
}
use inplaceu.InPlaceUpdate.Patched.{with_image, patch_containers-Patched}

module _ (patching : Patching) (sets : StringSet) where
  -- A pod at the revision of a spec, and its first state in the annotations: all else is as read.
  abbrev pub AtRevision : Pod → UpdateSpec → Pod → Type 0
  AtRevision pod spec start =
      (annotations : Dict Text Text) × (start ≡ record pod {
        labels = write_revision_hash pod.labels spec.revision;
        annotations = annotations;
      })

  -- The pod that takes the new images: the one at the revision, behind the patch of the metadata if
  -- the spec has one.
  pub data Based (pod : Pod) (spec : UpdateSpec) : Pod → Type 0 where
    unpatched :
        (start : Pod)
        → spec.meta_data_patch ≡ none
        → AtRevision pod spec start
        → Based pod spec start
    merged :
        (patch : Text) (start base : Pod)
        → spec.meta_data_patch ≡ some patch
        → AtRevision pod spec start
        → patching.merge_metadata start patch ≡ inr base
        → Based pod spec base

  -- A pod that is made for a read one: each container of the pod that it is based on has the image that
  -- the spec gives it, if it gives one, and all but the annotations is as there.
  pub record Makes (pod : Pod) (spec : UpdateSpec) (sent : Pod) : Type 0 where
    pub base : Pod
    pub annotations : Dict Text Text
    pub based : Based pod spec base
    pub sent_is : sent ≡ record base {
      containers = map (with_image spec.container_images) base.containers;
      annotations = annotations;
    }

  module _ (spec : UpdateSpec) (plain : spec.container_ref_metadata ≡ []) where
    abbrev pub MakesIf : Pod → Text ⊎ (Pod × InPlaceUpdateState) → Type 0
    MakesIf pod (inl e) = Unit
    MakesIf pod (inr (sent, state)) = Makes pod spec sent

    -- Where the images are taken in one batch.
    patched-Makes :
        (now : ℕ) (pod base : Pod)
        → Based pod spec base
        → Makes pod spec
            (patch_containers patching sets now spec (first_state patching sets now spec) base).0
    patched-Makes now pod base based =
        let state = first_state patching sets now spec in
        let done = patch_containers-Patched patching sets spec now state base plain in
        record { base = base; annotations = _; based = based; sent_is = done.pod_is }

    module _ (now : ℕ) (pod : Pod) where
      abbrev state : InPlaceUpdateState
      state = first_state patching sets now spec

      abbrev at_revision : Pod
      at_revision = marked patching sets now spec pod

      abbrev made : Text ⊎ (Pod × InPlaceUpdateState)
      made = default_patch_update_spec_to_pod patching sets now at_revision spec state

      made-unpatched :
          spec.meta_data_patch ≡ none
          → made ≡ inr (patch_containers patching sets now spec state at_revision)
      unfolding default_patch_update_spec_to_pod
      made-unpatched e = rw (e, default_patch_update_spec_to_pod) refl

      made-merged :
          (patch : Text) (answer : Text ⊎ Pod)
          → spec.meta_data_patch ≡ some patch
          → patching.merge_metadata at_revision patch ≡ answer
          → made ≡ with_merged patching sets now spec state answer
      unfolding default_patch_update_spec_to_pod
      made-merged patch answer e h = rw (e, default_patch_update_spec_to_pod, h) refl

      pub default_patch-Makes : MakesIf pod made
      default_patch-Makes = elim (Option-cases spec.meta_data_patch) [
        | inl e ↦
            subst (MakesIf pod) (sym (made-unpatched e))
              (patched-Makes now pod at_revision (unpatched at_revision e (_, refl)))
        | inr (patch, e) ↦ elim (sum-cases (patching.merge_metadata at_revision patch)) [
          | inl (x, h) ↦ subst (MakesIf pod) (sym (made-merged patch (inl x) e h)) tt
          | inr (base, h) ↦
              subst (MakesIf pod) (sym (made-merged patch (inr base) e h))
                (patched-Makes now pod base (merged patch at_revision base e (_, refl) h))
        ]
      ]
