-- ===== src/Sync/Diffs/Counting.antt =====
-- The loop of `calculateDiffsWithExpectation` counts what its variables are named for.
use inplaceu.Base.{◌+◌, ◌≡◌, Bool, not, ◌&&◌, List, [], ◌∷◌, Text, count, arith, if◌then◌else◌}
use inplaceu.Api.{Pod}
use inplaceu.Utils.Hash.{equal_to_revision_hash}
use inplaceu.Utils.Pods.{is_running, is_specified_delete}
use inplaceu.Sync.Diffs.{Counts, count_new, count_old, count_pods}

-- The tests by which the pods are counted.
abbrev pub is_new : Text → Pod → Bool
is_new rev p = equal_to_revision_hash p.labels rev

abbrev pub is_old : Text → Pod → Bool
is_old rev p = not (is_new rev p)

-- Not specified to delete, and not running.
abbrev pub is_unavailable : Pod → Bool
is_unavailable p = not (is_specified_delete p) && not (is_running p)

abbrev pub counts_from : Text → List Pod → Counts → Counts
counts_from rev pods c = record {
  new_revision = c.new_revision + count (is_new rev) pods;
  old_revision = c.old_revision + count (is_old rev) pods;
  unavailable_new = c.unavailable_new + count (λ p. is_new rev p && is_unavailable p) pods;
  unavailable_old = c.unavailable_old + count (λ p. is_old rev p && is_unavailable p) pods;
  to_delete_new = c.to_delete_new + count (λ p. is_new rev p && is_specified_delete p) pods;
  to_delete_old = c.to_delete_old + count (λ p. is_old rev p && is_specified_delete p) pods;
}

pub count_pods-count :
    (rev : Text) (pods : List Pod) (c : Counts) → count_pods rev pods c ≡ counts_from rev pods c
unfolding count_pods
count_pods-count rev [] c = ground arith
count_pods-count rev (p ∷ pods) c = ground (
  arith,
  count_pods-count rev pods
      (if equal_to_revision_hash p.labels rev then count_new p c else count_old p c),
)
