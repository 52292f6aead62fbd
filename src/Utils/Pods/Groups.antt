-- ===== src/Utils/Pods/Groups.antt =====
-- The two groups of `GroupUpdateAndNotUpdatePods`, and the names that `GetPodNames` collects.
use mathlib.Core.List.{append_assoc, append-nil}
use inplaceu.Base.{
  not, ◌||◌, List, [], ◌∷◌, ◌++◌, ◌≡◌, refl, Text, text_eq, ◌==◌, keep, any, arith, Bool-cases, inl,
  inr,
}
use inplaceu.Api.{Pod}
use inplaceu.Sets.{StringSet}
use inplaceu.Utils.Hash.{equal_to_revision_hash}
use inplaceu.Utils.Pods.{
  is_pod_update, group_from, group_update_and_not_update_pods, insert_names, get_pod_names,
}

group_from-keep :
    (rev : Text) (update not_update pods : List Pod)
    → group_from rev (update, not_update) pods ≡ (
      update ++ keep (is_pod_update rev) pods,
      not_update ++ keep (λ p. not (is_pod_update rev p)) pods,
    )
unfolding group_from
group_from-keep rev update not_update [] = simp append-nil
group_from-keep rev update not_update (p ∷ pods) = elim (Bool-cases (is_pod_update rev p)) [
  | inl e ↦ rw e (simp (group_from-keep rev (update ++ p ∷ []) not_update pods, append_assoc))
  | inr e ↦ rw e (simp (group_from-keep rev update (not_update ++ p ∷ []) pods, append_assoc))
]

-- The first group holds the pods at the update revision, the second the others, both in order.
pub group_update_and_not_update_pods-keep :
    (pods : List Pod) (rev : Text)
    → group_update_and_not_update_pods pods rev ≡ (
      keep (λ p. equal_to_revision_hash p.labels rev) pods,
      keep (λ p. not (equal_to_revision_hash p.labels rev)) pods,
    )
unfolding group_update_and_not_update_pods
group_update_and_not_update_pods-keep pods rev = group_from-keep rev [] [] pods

module _ (sets : StringSet) where
  open sets use {Carrier, new, insert, has, has-new, has-insert}

  has-insert_names :
      (x : Text) (s : Carrier) (pods : List Pod)
      → has x (insert_names sets s pods) ≡ (any (λ p. p.name == x) pods || has x s)
  unfolding insert_names
  has-insert_names x s [] = refl
  has-insert_names x s (p ∷ pods) =
      ground (arith, has-insert_names x (insert p.name s) pods, has-insert p.name x s)

  -- The set of names holds exactly the names of the pods.
  pub has-get_pod_names :
      (x : Text) (pods : List Pod) → has x (get_pod_names sets pods) ≡ any (λ p. p.name == x) pods
  unfolding get_pod_names
  has-get_pod_names x pods = ground (arith, has-insert_names x new pods, has-new x)
