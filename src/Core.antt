-- ===== src/Core.antt =====
-- internal/inplaceu_core/inplaceu_core.go: the pods of a revision. `from_template` is
-- `kubecontroller.GetPodFromTemplate` of Kubernetes, `none` where it fails: the code drops the error
-- and then writes to a nil pod, so `none` here is that panic.
pub mod NewPods
use inplaceu.Base.{
  ℕ, zero, suc, ◌++◌, Bool, true, false, Option, none, some, List, [], ◌∷◌, Text, text_eq, insert,
}
use inplaceu.Base.Int.{ℤ, pos_part}
use inplaceu.Api.{Pod, Inplaceu, inplaceu_instance_id}
use inplaceu.Utils.Hash.{write_revision_hash}

unfoldable pub is_initializing : Bool
is_initializing = false

unfoldable pub is_ready_to_scale : Bool
is_ready_to_scale = true

unfoldable pub is_pod_update_paused : Pod → Bool
is_pod_update_paused pod = false

-- One pod of the loop, made from the template's.
unfoldable pub versioned_pod : Inplaceu → Text → Pod → Text → Pod
versioned_pod iu revision pod id = record pod {
  name = iu.name ++ b'-' ∷ id;
  namespace = iu.namespace;
  labels = insert inplaceu_instance_id id (write_revision_hash pod.labels revision);
}

abbrev prepend {ℓ} : {A : Type ℓ} → A → Option (List A) → Option (List A)
prepend x none = none
prepend x (some xs) = some (x ∷ xs)

module _ (from_template : Inplaceu → Option Pod) where
  unfoldable pub new_versioned_pods_from : Inplaceu → Text → ℕ → List Text → Option (List Pod)
  unfolding versioned_pod
  new_versioned_pods_from iu revision zero ids = some []
  new_versioned_pods_from iu revision (suc i) [] = some []
  new_versioned_pods_from iu revision (suc i) (id ∷ ids) =
      let rest = new_versioned_pods_from iu revision i ids in
      elim (from_template iu) [
        | none ↦ none
        | some pod ↦ prepend (versioned_pod iu revision pod id) rest
      ]

  -- `NewVersionedPods`, whose error is always nil.
  unfoldable pub new_versioned_pods : Inplaceu → Text → ℤ → List Text → Option (List Pod)
  unfolding new_versioned_pods_from
  new_versioned_pods iu revision expected_creations ids =
      new_versioned_pods_from iu revision (pos_part expected_creations) ids
