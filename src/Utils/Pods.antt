-- ===== src/Utils/Pods.antt =====
-- Pods sorted by what the controller does with them: helpers of internal/utils/inplaceu_utils.go and
-- internal/specifieddelete/specified_delete.go.
pub mod Groups
use inplaceu.Base.{
  ℕ, Bool, true, false, ◌&&◌, Option, none, some, List, [], ◌∷◌, ◌++◌, map, Text, text_eq, Dict,
  lookup, last_or, codes, if◌then◌else◌,
}
use inplaceu.Base.Int.{ℤ, pos, ◌+ℤ◌}
use inplaceu.Api.{
  Pod, PodPhase, ControllerRevision, Inplaceu, unset, pending, running, succeeded, failed, unknown,
  specified_delete_key,
}
use inplaceu.Sets.{StringSet}
use inplaceu.Utils.Hash.{equal_to_revision_hash}

abbrev pub is_running_phase : PodPhase → Bool
is_running_phase running = true
is_running_phase _ = false

unfoldable pub is_running : Pod → Bool
is_running pod = is_running_phase pod.phase

-- `available` is `podutil.IsPodAvailable` of Kubernetes at the time of the call.
unfoldable pub is_pod_available : (Pod → ℤ → Bool) → Pod → ℤ → Bool
unfolding is_running
is_pod_available available pod min_ready_seconds = is_running pod && available pod min_ready_seconds

abbrev is_some {ℓ} : {A : Type ℓ} → Option A → Bool
is_some none = false
is_some (some a) = true

unfoldable pub is_specified_delete : Pod → Bool
unfolding lookup
is_specified_delete pod = is_some (lookup specified_delete_key pod.labels)

-- `GetControllerKey`: `types.NamespacedName.String` joins the two parts by a slash.
unfoldable pub get_controller_key : Inplaceu → Text
get_controller_key iu = iu.namespace ++ b'/' ∷ iu.name

abbrev pub is_pod_update : Text → Pod → Bool
is_pod_update update_revision pod = equal_to_revision_hash pod.labels update_revision

-- The loop of `GroupUpdateAndNotUpdatePods`, which appends to the two groups.
unfoldable pub group_from : Text → List Pod × List Pod → List Pod → List Pod × List Pod
group_from update_revision (update, not_update) [] = (update, not_update)
group_from update_revision (update, not_update) (p ∷ pods) =
    group_from update_revision
      (if is_pod_update update_revision p
        then (update ++ p ∷ [], not_update)
        else (update, not_update ++ p ∷ []))
      pods

unfoldable pub group_update_and_not_update_pods : List Pod → Text → List Pod × List Pod
unfolding group_from
group_update_and_not_update_pods pods update_revision = group_from update_revision ([], []) pods

-- `NextRevision`: 1 greater than the last revision's number.
unfoldable pub next_revision : List ControllerRevision → ℤ
next_revision [] = pos 1
next_revision (r ∷ revisions) = (last_or r revisions).revision +ℤ pos 1

module _ (sets : StringSet) where
  open sets use {Carrier, new, insert}

  insert_names : Carrier → List Pod → Carrier
  insert_names set [] = set
  insert_names set (pod ∷ pods) = insert_names (insert pod.name set) pods

  unfoldable pub get_pod_names : List Pod → Carrier
  unfolding insert_names
  get_pod_names pods = insert_names new pods
