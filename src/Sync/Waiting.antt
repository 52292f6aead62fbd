-- ===== src/Sync/Waiting.antt =====
-- The second step of `Update` of internal/sync/inplaceu_update.go: the indexes of the pods that wait
-- for an update.
pub mod Indexes
use inplaceu.Base.{ℕ, suc, Bool, true, false, not, ◌&&◌, List, [], ◌∷◌, Text, if◌then◌else◌}
use inplaceu.Api.{Pod, PodPhase, succeeded, failed, unknown}
use inplaceu.Utils.Hash.{equal_to_revision_hash}

-- The phases in which a pod is not updated.
abbrev pub is_over : PodPhase → Bool
is_over succeeded = true
is_over failed = true
is_over unknown = true
is_over _ = false

unfoldable pub can_update : Text → Pod → Bool
can_update update_revision pod =
    not (equal_to_revision_hash pod.labels update_revision) && not (is_over pod.phase)

-- The loop, at an index.
unfoldable pub wait_update_from : Text → ℕ → List Pod → List ℕ
unfolding can_update
wait_update_from update_revision i [] = []
wait_update_from update_revision i (pod ∷ pods) =
    let rest = wait_update_from update_revision (suc i) pods in
    if can_update update_revision pod then i ∷ rest else rest

unfoldable pub wait_update_indexes : Text → List Pod → List ℕ
unfolding wait_update_from
wait_update_indexes update_revision pods = wait_update_from update_revision 0 pods
