-- ===== src/InPlaceUpdate/Spec.antt =====
-- Which changes `CalculateSpec` lets through.
use inplaceu.Base.{
  ◌≡◌, inl, inr, refl, subst, Bool, true, false, Option, none, some, List, [], Text, text_eq, Dict,
  lookup, All,
}
use inplaceu.Api.{PodTemplate, ControllerRevision}
use inplaceu.InPlaceUpdate.Reads.{ReplacesImage, Among, Allowed, Reads, read_patches-Reads}
use inplaceu.InPlaceUpdate.{
  Operation, UpdateSpec, Patching, Found, calculate_spec, spec_of, with_metadata, spec_between,
  spec_found,
}

module _ (patching : Patching) (first : ControllerRevision) (new : ControllerRevision) where
  open patching use {create_patch, read_template}

  -- What a spec is made from: only changes that a running pod takes, with no image of its own.
  pub record Calculated (spec : UpdateSpec) : Type 0 where
    pub ops : List Operation
    pub old_template : PodTemplate
    pub patched : create_patch first.raw new.raw ≡ some ops
    pub read : read_template first.raw ≡ some old_template
    pub allowed : All (Allowed old_template) ops
    pub images :
        (name image : Text)
        → lookup name spec.container_images ≡ some image
        → Among (λ op. ReplacesImage old_template op name image) ops
    pub names_revision : spec.revision ≡ new.name
    pub no_metadata : spec.container_ref_metadata ≡ []
    pub no_resources : spec.container_resources ≡ []

  spec_of-Calculated :
      (ops : List Operation) (old : PodTemplate) (images : Dict Text Text) (patch : Option Text)
      (metadata : Bool)
      → create_patch first.raw new.raw ≡ some ops
      → read_template first.raw ≡ some old
      → Reads old ops [] (some (images, metadata))
      → Calculated (spec_of patching new.name images patch)
  unfolding lookup
  spec_of-Calculated ops old images patch metadata p t reads = record {
    ops = ops;
    old_template = old;
    patched = p;
    read = t;
    allowed = reads.0;
    images = λ name image e. elim (reads.1 name image e) [ inl a ↦ a | inr empty ↦ absurd cc ];
    names_revision = refl;
    no_metadata = refl;
    no_resources = refl;
  }

  merged-Calculated :
      (spec : UpdateSpec) (ops : List Operation) (old : PodTemplate) (images : Dict Text Text)
      (o : Option Text)
      → create_patch first.raw new.raw ≡ some ops
      → read_template first.raw ≡ some old
      → Reads old ops [] (some (images, true))
      → with_metadata patching new.name images o ≡ some spec
      → Calculated spec
  merged-Calculated spec ops old images none p t reads h = absurd cc
  merged-Calculated spec ops old images (some patch) p t reads h =
      let same : spec_of patching new.name images (some patch) ≡ spec = cc in
      subst Calculated same (spec_of-Calculated ops old images (some patch) true p t reads)

  found-Calculated :
      (spec : UpdateSpec) (ops : List Operation) (old new_template : PodTemplate) (r : Option Found)
      → create_patch first.raw new.raw ≡ some ops
      → read_template first.raw ≡ some old
      → Reads old ops [] r
      → spec_found patching new.name old new_template r ≡ some spec
      → Calculated spec
  found-Calculated spec ops old new_template none p t reads h = absurd cc
  found-Calculated spec ops old new_template (some (images, false)) p t reads h =
      let same : spec_of patching new.name images none ≡ spec = cc in
      subst Calculated same (spec_of-Calculated ops old images none false p t reads)
  found-Calculated spec ops old new_template (some (images, true)) p t reads h =
      merged-Calculated spec ops old images (patching.two_way_merge old new_template) p t reads h

  between-Calculated :
      (spec : UpdateSpec) (p : Option (List Operation)) (old new_template : Option PodTemplate)
      → create_patch first.raw new.raw ≡ p
      → read_template first.raw ≡ old
      → spec_between patching new.name p old new_template ≡ some spec
      → Calculated spec
  between-Calculated spec none old new_template e t h = absurd cc
  between-Calculated spec (some ops) none new_template e t h = absurd cc
  between-Calculated spec (some ops) (some old) none e t h = absurd cc
  between-Calculated spec (some ops) (some old) (some new_template) e t h =
      found-Calculated spec ops old new_template _ e t (read_patches-Reads old ops ([], false)) h

  -- A change of revisions that is made in place consists of changes of the metadata and of
  -- replacements of images of containers of the old template, by their indexes; every image that the
  -- spec sets is one that such a replacement gives for a container of that name. The spec is for the
  -- new revision, and has no metadata or resources of single containers.
  pub calculate_spec-Calculated :
      (spec : UpdateSpec) → calculate_spec patching (some first) new ≡ some spec → Calculated spec
  unfolding calculate_spec
  calculate_spec-Calculated spec h = between-Calculated spec _ _ _ refl refl h
