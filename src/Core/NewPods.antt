-- ===== src/Core/NewPods.antt =====
-- The pods that `NewVersionedPods` makes.
use inplaceu.Base.{
  ℕ, zero, suc, ◌≡◌, refl, ap, ◌∙◌, ◌++◌, true, Option, some, List, [], ◌∷◌, Text, text_eq, insert,
  lookup, take, lookup-insert,
}
use inplaceu.Base.Int.{ℤ, pos_part}
use inplaceu.Api.{Pod, Inplaceu, inplaceu_instance_id, controller_revision_hash_label_key}
use inplaceu.Utils.Hash.{write_revision_hash, equal_to_revision_hash, text_or_empty}
use inplaceu.Utils.Hash.Labels.{equal_to_revision_hash_iff, lookup-write_revision_hash}
use inplaceu.Core.{versioned_pod, new_versioned_pods_from, new_versioned_pods}

-- What a new pod carries: its name and namespace, the instance ID, and the update revision.
pub record IsVersioned (iu : Inplaceu) (revision id : Text) (pod : Pod) : Type 0 where
  pub named : pod.name ≡ iu.name ++ b'-' ∷ id
  pub placed : pod.namespace ≡ iu.namespace
  pub identified : lookup inplaceu_instance_id pod.labels ≡ some id
  pub updated : equal_to_revision_hash pod.labels revision ≡ true

versioned_pod-IsVersioned :
    (iu : Inplaceu) (revision : Text) (pod : Pod) (id : Text)
    → IsVersioned iu revision id (versioned_pod iu revision pod id)
unfolding versioned_pod
versioned_pod-IsVersioned iu revision pod id =
    let labels = insert inplaceu_instance_id id (write_revision_hash pod.labels revision) in
    let hash =
      ap text_or_empty (
        lookup-insert inplaceu_instance_id controller_revision_hash_label_key id
          (write_revision_hash pod.labels revision))
      ∙ lookup-write_revision_hash pod.labels revision in
    record {
      named = refl;
      placed = refl;
      identified = simp lookup-insert;
      updated = (equal_to_revision_hash_iff labels revision).1 (rw hash);
    }

module _ (from_template : Inplaceu → Option Pod) where
  -- One pod for each of the first IDs.
  abbrev pub AllVersioned : Inplaceu → Text → List Text → List Pod → Type 0
  AllVersioned iu revision [] [] = Unit
  AllVersioned iu revision [] (p ∷ ps) = ⊥
  AllVersioned iu revision (id ∷ ids) [] = ⊥
  AllVersioned iu revision (id ∷ ids) (p ∷ ps) =
      IsVersioned iu revision id p × AllVersioned iu revision ids ps

  from-AllVersioned :
      (iu : Inplaceu) (revision : Text) (pod : Pod) (n : ℕ) (ids : List Text)
      → from_template iu ≡ some pod
      → (pods : List Pod) × (new_versioned_pods_from from_template iu revision n ids ≡ some pods)
        × AllVersioned iu revision (take n ids) pods
  unfolding new_versioned_pods_from
  from-AllVersioned iu revision pod zero ids h = ([], refl, tt)
  from-AllVersioned iu revision pod (suc n) [] h = ([], refl, tt)
  from-AllVersioned iu revision pod (suc n) (id ∷ ids) h =
      let (pods, e, all) = from-AllVersioned iu revision pod n ids h in
      (
        versioned_pod iu revision pod id ∷ pods,
        rw (h, new_versioned_pods_from, e),
        (versioned_pod-IsVersioned iu revision pod id, all),
      )

  -- Where the template gives a pod, `NewVersionedPods` makes one pod for each of the available IDs,
  -- as many as are asked for: named after the set and the ID, in its namespace, with the ID as its
  -- instance label and at the revision that is asked for.
  pub new_versioned_pods-AllVersioned :
      (iu : Inplaceu) (revision : Text) (pod : Pod) (expected_creations : ℤ) (ids : List Text)
      → from_template iu ≡ some pod
      → (pods : List Pod) × (new_versioned_pods from_template iu revision expected_creations ids
          ≡ some pods)
        × AllVersioned iu revision (take (pos_part expected_creations) ids) pods
  unfolding new_versioned_pods
  new_versioned_pods-AllVersioned iu revision pod expected_creations ids h =
      from-AllVersioned iu revision pod (pos_part expected_creations) ids h
