-- ===== src/Utils/Sorts.antt =====
-- internal/utils/pod_sorts.go: the order in which pods are deleted. `ready` is `podutil.IsPodReady`
-- of Kubernetes; `sort` is `sort.Sort`, by the test that it is given. Ranks are `float64` values of
-- small whole numbers, here numbers.
pub mod Order
use inplaceu.Base.{
  ℕ, suc, ◌-◌, Bool, true, false, not, ◌&&◌, ◌||◌, Option, none, some, List, [], ◌∷◌, ◌++◌, Text,
  text_eq, ◌==◌, Dict, lookup, insert, codes, length, ltb, leb, nat_beq, if◌then◌else◌, is_empty,
  take,
}
use inplaceu.Base.Int.{ℤ, pos, max_ℤ, ltb_ℤ, eqb_ℤ}
use inplaceu.Api.{
  Pod, PodPhase, PodCondition, ContainerStatus, unset, pending, running, succeeded, failed, unknown,
}

-- `podPhaseToOrdinal`; a phase that the map lacks reads as 0.
abbrev pub pod_phase_to_ordinal : PodPhase → ℕ
pod_phase_to_ordinal unknown = 1
pod_phase_to_ordinal running = 2
pod_phase_to_ordinal _ = 0

unfoldable pub after_or_zero : ℕ → ℕ → Bool
after_or_zero t1 t2 = if nat_beq t1 0 || nat_beq t2 0 then nat_beq t1 0 else ltb t2 t1

abbrev ready_condition_time : List PodCondition → ℕ
ready_condition_time [] = 0
ready_condition_time (c ∷ cs) =
    let rest = ready_condition_time cs in
    if c.condition_type == codes "Ready" && c.status == codes "True"
    then c.last_transition_time
    else rest

unfoldable pub pod_ready_time : (Pod → Bool) → Pod → ℕ
pod_ready_time ready pod = if ready pod then ready_condition_time pod.conditions else 0

unfoldable pub max_restarts_from : ℤ → List ContainerStatus → ℤ
max_restarts_from max_restarts [] = max_restarts
max_restarts_from max_restarts (c ∷ cs) = max_restarts_from (max_ℤ max_restarts c.restart_count) cs

unfoldable pub max_container_restarts : Pod → ℤ
unfolding max_restarts_from
max_container_restarts pod = max_restarts_from (pos 0) pod.container_statuses

abbrev pub bool_ne : Bool → Bool → Bool
bool_ne true b = not b
bool_ne false b = b

-- A step of `Less`: where the pods differ it answers, else the later steps do.
abbrev pub step : Bool → Bool → Bool → Bool
step differs answer later = if differs then answer else later

abbrev pub available_of : Option (Pod → Bool) → Pod → Bool
available_of none p = true
available_of (some f) p = f p

-- The steps 5 to 7 of `Less`.
unfoldable pub less_by_time : (Pod → Bool) → Pod → Pod → Bool
unfolding pod_ready_time max_container_restarts after_or_zero
less_by_time ready a b =
    let ready_a = pod_ready_time ready a in
    let ready_b = pod_ready_time ready b in
    step (ready a && ready b && not (nat_beq ready_a ready_b)) (after_or_zero ready_a ready_b) (
      step (not (eqb_ℤ (max_container_restarts a) (max_container_restarts b)))
        (ltb_ℤ (max_container_restarts b) (max_container_restarts a))
        (step (not (nat_beq a.creation_timestamp b.creation_timestamp))
          (after_or_zero a.creation_timestamp b.creation_timestamp) false))

-- `Less`. With no availability function that step never answers; with no ranker all ranks are 0.
unfoldable pub less : (Pod → Bool) → Option (Pod → Bool) → (Pod → ℕ) → Pod → Pod → Bool
unfolding less_by_time
less ready available rank a b =
    step (not (a.node_name == b.node_name) && (is_empty a.node_name || is_empty b.node_name))
      (is_empty a.node_name)
      (step (not (nat_beq (pod_phase_to_ordinal a.phase) (pod_phase_to_ordinal b.phase)))
        (ltb (pod_phase_to_ordinal a.phase) (pod_phase_to_ordinal b.phase))
        (step (bool_ne (available_of available a) (available_of available b))
          (not (available_of available a))
          (step (bool_ne (ready a) (ready b)) (not (ready a)) (
            step (not (nat_beq (rank a) (rank b))) (ltb (rank b) (rank a))
              (less_by_time ready a b)))))

-- `podsOnNode`: the pods of each named node, in order.
abbrev pods_or_none : Option (List Pod) → List Pod
pods_or_none none = []
pods_or_none (some ps) = ps

unfoldable pub pods_on_node : List Pod → Dict Text (List Pod) → Dict Text (List Pod)
pods_on_node [] m = m
pods_on_node (p ∷ pods) m = pods_on_node pods (
    if is_empty p.node_name
    then m
    else insert p.node_name (pods_or_none (lookup p.node_name m) ++ p ∷ []) m)

-- `podRanks` after the pods of one node, the last of which is left out: `n - i` for the pod at `i`.
unfoldable pub rank_pods : ℕ → List Pod → Dict Text ℕ → Dict Text ℕ
rank_pods n [] ranks = ranks
rank_pods n (p ∷ pods) ranks = rank_pods (n - 1) pods (insert p.uid n ranks)

unfoldable pub rank_node :
    ((Pod → Pod → Bool) → List Pod → List Pod) → (Pod → Bool) → List Pod → Dict Text ℕ → Dict Text ℕ
unfolding rank_pods less
rank_node sort ready pods ranks =
    let n = length pods - 1 in
    if leb (length pods) 1
    then ranks
    else rank_pods n (take n (sort (less ready none (λ _. 0)) pods)) ranks

unfoldable pub rank_nodes :
    ((Pod → Pod → Bool) → List Pod → List Pod)
    → (Pod → Bool)
    → Dict Text (List Pod)
    → Dict Text ℕ
    → Dict Text ℕ
unfolding rank_node
rank_nodes sort ready [] ranks = ranks
rank_nodes sort ready ((_, pods) ∷ m) ranks =
    rank_nodes sort ready m (rank_node sort ready pods ranks)

abbrev rank_or_zero : Option ℕ → ℕ
rank_or_zero none = 0
rank_or_zero (some n) = n

-- `NewSameNodeRanker` and its `GetRank`.
unfoldable pub same_node_rank :
    ((Pod → Pod → Bool) → List Pod → List Pod) → (Pod → Bool) → List Pod → Pod → ℕ
unfolding rank_nodes pods_on_node
same_node_rank sort ready pods pod =
    rank_or_zero (lookup pod.uid (rank_nodes sort ready (pods_on_node pods []) []))
