-- ===== src/Examples/Control.antt =====
-- The control of the pods on concrete inputs.
use inplaceu.Base.{
  ℕ, ◌≡◌, ◌≤◌, ◌<◌, ◌⊎◌, refl, false, ◌&&◌, none, some, List, [], ◌∷◌, Text, text_eq, codes, lookup,
  take, get_elem?, map, keep, any, ltb, arith, All,
}
use inplaceu.Base.Int.{pos, ltb_ℤ, ◌+ℤ◌, ◌-ℤ◌, ◌≤ℤ◌, max_ℤ, min_ℤ}
use inplaceu.Api.{Pod, bare_pod, RollingUpdate, int_value}
use inplaceu.Sets.Lists.{list_set}
use inplaceu.Utils.Hash.{equal_to_revision_hash, get_short_hash}
use inplaceu.Utils.Pods.{is_running, is_specified_delete, get_controller_key}
use inplaceu.Core.{new_versioned_pods, new_versioned_pods_from, versioned_pod}
use inplaceu.Sync.Diffs.{
  ExpectationDiffs, calculate_diffs_with_expectation, diffs_of_counts, surge, scale_nums,
  ready_limit, count_pods, count_new, count_old,
}
use inplaceu.Sync.Diffs.Targets.{
  Reaches, total, doomed, unavailable, calculate_diffs-Reaches, calculate_diffs-ready_limit,
}
use inplaceu.Sync.Limit.{limit_update_indexes, unavailable_count, target_unavailable_count}
use inplaceu.Sync.Limit.Safety.{Chosen, limit_update_indexes-Chosen}
use inplaceu.Sync.Waiting.{wait_update_indexes}
use inplaceu.Sync.Waiting.Indexes.{waits, wait_update_indexes-pods}
use inplaceu.Sync.Deletes.{delete_pods}
use inplaceu.Sync.Deletes.Awaited.{Deleted, delete_pods-Deleted}
use inplaceu.Sync.Creates.{create_pods}
use inplaceu.Sync.Creates.Awaited.{Created, create_pods-Created}
use inplaceu.Sync.Scale.{scale, get_or_gen_available_ids}
use inplaceu.Sync.Scale.OneCall.{ScaledBy, scale-ScaledBy}
use inplaceu.Sync.Scale.Ids.{uses, get_or_gen_available_ids-fresh}
use inplaceu.Examples.{web, a, b, c, d, new_rev, cluster, start, kube, template_pod, resolve_plain}

abbrev pods : List Pod
pods = a ∷ b ∷ c ∷ d ∷ []

delete_pods-Deleted_example :
    let (s', modified, err) = delete_pods list_set cluster web (a ∷ c ∷ b ∷ []) start in
    (n : ℕ) × (modified ≡ ltb 0 n)
    × Deleted list_set cluster (get_controller_key web) (a ∷ c ∷ b ∷ []) start s' err n
delete_pods-Deleted_example = delete_pods-Deleted list_set cluster web (a ∷ c ∷ b ∷ []) start

abbrev made : List Pod
made = versioned_pod web new_rev (bare_pod []) (codes "x1") ∷ []

create_pods-Created_example :
    Created list_set cluster
      (get_controller_key web)
      made
      start
      (create_pods list_set cluster template_pod (pos 1) web new_rev (codes "x1" ∷ []) start)
unfolding new_versioned_pods new_versioned_pods_from
create_pods-Created_example =
    create_pods-Created list_set cluster template_pod (pos 1) web new_rev (codes "x1" ∷ []) made
      start refl

abbrev diffs : ExpectationDiffs
diffs = record {
  scale_up_num = pos 0;
  scale_down_num = pos 0;
  delete_ready_limit = pos 1;
  use_surge = pos 0;
  update_num = pos 2;
  update_max_unavailable = pos 2;
}

limit_update_indexes-Chosen_example :
    (k : ℕ) × (limit_update_indexes diffs (2 ∷ 0 ∷ []) pods new_rev ≡ some (take k (2 ∷ 0 ∷ [])))
    × (k ≤ 2)
    × Chosen
        (pos 2)
        pods
        (unavailable_count pods)
        (target_unavailable_count new_rev pods)
        k
        (take 2 (2 ∷ 0 ∷ []))
limit_update_indexes-Chosen_example =
    limit_update_indexes-Chosen diffs 2 (2 ∷ 0 ∷ []) pods new_rev refl
      (omega arith, (omega arith, tt))

wait_update_indexes-pods_example :
    All (λ i. i < 4) (wait_update_indexes new_rev pods)
    × (map (get_elem? pods) (wait_update_indexes new_rev pods)
        ≡ map some (keep (waits new_rev) pods))
wait_update_indexes-pods_example = wait_update_indexes-pods new_rev pods

get_or_gen_available_ids-fresh_example :
    let stream = codes "a" ∷ codes "x1" ∷ codes "x2" ∷ [] in
    (ids : List Text) × (rest : List Text) × (get_or_gen_available_ids list_set (pos 2) pods stream
      ≡ some (ids, rest))
    × ((id : Text) → (list_set.has id ids && any (uses id) pods) ≡ false)
unfolding lookup
get_or_gen_available_ids-fresh_example =
    get_or_gen_available_ids-fresh list_set (pos 2) pods (codes "a" ∷ codes "x1" ∷ codes "x2" ∷ [])
      (omega arith)

abbrev rolling : RollingUpdate
rolling = record { max_unavailable = some (int_value (pos 1)); max_surge = none }

-- The differences of four pods, one of them to be deleted, from three replicas.
abbrev computed : ExpectationDiffs
computed = record diffs { delete_ready_limit = pos 1 }

computed_lem : calculate_diffs_with_expectation resolve_plain web pods new_rev ≡ some computed
unfolding calculate_diffs_with_expectation diffs_of_counts surge scale_nums ready_limit count_pods
    count_new count_old lookup equal_to_revision_hash get_short_hash is_specified_delete is_running
    ltb_ℤ max_ℤ ◌+ℤ◌ ◌-ℤ◌ min_ℤ
computed_lem = refl

calculate_diffs-Reaches_example : Reaches (total pods) (doomed pods) (pos 3) computed
calculate_diffs-Reaches_example =
    calculate_diffs-Reaches resolve_plain web pods new_rev computed (pos 3) rolling refl refl
      computed_lem

calculate_diffs-ready_limit_example :
    (pos 0 ≤ℤ pos 1)
    × ((pos 1 ≡ pos 0) ⊎ (total pods -ℤ unavailable pods -ℤ pos 1 ≡ pos 3 -ℤ pos 1))
calculate_diffs-ready_limit_example =
    calculate_diffs-ready_limit resolve_plain web pods new_rev computed (pos 3) rolling refl refl
      computed_lem

scale-ScaledBy_example :
    ScaledBy list_set cluster kube web new_rev pods [] start computed
      (scale list_set cluster kube web new_rev pods [] start)
scale-ScaledBy_example =
    scale-ScaledBy list_set cluster kube web new_rev pods [] start computed (pos 3) rolling refl
      refl computed_lem (omega arith)
