-- ===== src/Examples/InPlace.antt =====
-- The update in place on concrete inputs.
use inplaceu.Base.{
  ℕ, ◌≡◌, refl, ◌⊎◌, inr, false, Option, none, some, List, [], ◌∷◌, Text, text_eq, codes, insert,
  parse_uint,
}
use inplaceu.Base.Int.{pos}
use inplaceu.Api.{Pod, PodTemplate, Container, ControllerRevision}
use inplaceu.Sets.Lists.{list_set}
use inplaceu.InPlaceUpdate.{Operation, UpdateSpec, Patching, calculate_spec}
use inplaceu.InPlaceUpdate.Containers.{patch_containers, first_state}
use inplaceu.InPlaceUpdate.Spec.{Calculated, calculate_spec-Calculated}
use inplaceu.InPlaceUpdate.Patched.{Patched, patch_containers-Patched}
use inplaceu.Examples.{a}
use inplaceu.Examples.Setting.{stored}

abbrev container : Text → Text → Container
container name image = record { name = name; image = image }

abbrev template : PodTemplate
template = record {
  labels = [];
  annotations = [];
  containers =
      container (codes "app") (codes "app:1") ∷ container (codes "log") (codes "log:1") ∷ [];
}

-- The patch gives the second container a new image.
abbrev new_image : Operation
new_image = record {
  operation = codes "replace";
  path = codes "/spec/template/spec/containers/1/image";
  value = codes "log:2";
}

abbrev patching : Patching
patching = record {
  create_patch = λ x y. some (new_image ∷ []);
  read_template = λ t. some template;
  two_way_merge = λ x y. none;
  merge_metadata = λ pod patch. inr pod;
  state_json = λ state. codes "{}";
}

abbrev old : ControllerRevision
old = stored (codes "web-a1") (codes "old") (pos 1)

abbrev new : ControllerRevision
new = stored (codes "web-b2") (codes "new") (pos 2)

abbrev spec : UpdateSpec
spec = record {
  revision = codes "web-b2";
  container_images = (codes "log", codes "log:2") ∷ [];
  container_ref_metadata = [];
  container_resources = [];
  meta_data_patch = none;
  update_env_from_metadata = false;
}

spec_lem : calculate_spec patching (some old) new ≡ some spec
unfolding calculate_spec parse_uint insert
spec_lem = refl

calculate_spec-Calculated_example : Calculated patching old new spec
calculate_spec-Calculated_example = calculate_spec-Calculated patching old new spec spec_lem

abbrev pod : Pod
pod = record a { containers = template.containers }

patch_containers-Patched_example :
    Patched patching list_set spec 7
      (first_state patching list_set 7 spec)
      pod
      (patch_containers patching list_set 7 spec (first_state patching list_set 7 spec) pod)
patch_containers-Patched_example =
    patch_containers-Patched patching list_set spec 7 (first_state patching list_set 7 spec) pod
      refl

abbrev get_pod : Text → Text → List Text → ℕ ⊎ Pod
get_pod namespace name w = inr pod

abbrev update_client : Pod → List Text → List Text × Pod × Option ℕ
update_client p w = (p.name ∷ w, record p { resource_version = codes "2" }, none)
