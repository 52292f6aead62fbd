-- ===== src/Sync/Scale.antt =====
-- `Scale` of internal/sync/inplaceu_scale.go with `getPlannedDeletedPods`, `choosePodsToDelete` and
-- the generation of instance IDs.
pub mod Choice
pub mod Deletions
pub mod Ids
pub mod OneCall
pub mod Valid
use inplaceu.Base.{
  ℕ, zero, suc, ◌-◌, Bool, true, false, not, ◌&&◌, Option, none, some, List, [], ◌∷◌, map, Text,
  text_eq, codes, lookup, length, ltb, if◌then◌else◌, keep, is_empty,
}
use inplaceu.Base.Int.{ℤ, pos, negsuc, ◌-ℤ◌, ltb_ℤ, pos_part}
use inplaceu.Api.{Pod, Inplaceu, InplaceuSpec, IntOrString, inplaceu_instance_id}
use inplaceu.Sets.{StringSet}
use inplaceu.Utils.Hash.{text_or_empty}
use inplaceu.Utils.Pods.{
  is_running, is_pod_available, is_specified_delete, group_update_and_not_update_pods,
}
use inplaceu.Utils.Sorts.{less, same_node_rank}
use inplaceu.Sync.Diffs.{ExpectationDiffs, calculate_diffs_with_expectation}
use inplaceu.Sync.State.{Client, Error, api, message}
use inplaceu.Sync.Limit.{slice_to}
use inplaceu.Sync.Deletes.{Ctl, delete_pods}
use inplaceu.Sync.Creates.{create_pods}

-- `getPlannedDeletedPods`: the pods, and how many names they have.
module _ (sets : StringSet) where
  open sets use {Carrier, new, insert, len, has}

  abbrev pub planned_names : List Pod → Carrier → Carrier
  planned_names [] names = names
  planned_names (p ∷ pods) names =
      planned_names pods (if is_specified_delete p then insert p.name names else names)

  unfoldable pub get_planned_deleted_pods : List Pod → List Pod × ℕ
  get_planned_deleted_pods pods = (keep is_specified_delete pods, len (planned_names pods new))

  -- The instance IDs of the pods.
  unfoldable pub existing_ids : List Pod → Carrier → Carrier
  existing_ids [] ids = ids
  existing_ids (p ∷ pods) ids =
      let id = text_or_empty (lookup inplaceu_instance_id p.labels) in
      existing_ids pods (if is_empty id then ids else insert id ids)

  -- `getOrGenInstanceID`: the texts that `rand.String` returns are the stream, each taken once; the
  -- loop takes the first that is not in use. `none` means that the stream ended before.
  unfoldable pub get_or_gen_instance_id : Carrier → List Text → Option (Text × List Text)
  get_or_gen_instance_id existing [] = none
  get_or_gen_instance_id existing (id ∷ stream) =
      let rest = get_or_gen_instance_id existing stream in
      if has id existing then rest else some (id, stream)

  abbrev pub insert_generated :
      Carrier
      → Option (Text × List Text)
      → (List Text → Carrier → Option (Carrier × List Text))
      → Option (Carrier × List Text)
  insert_generated ret none k = none
  insert_generated ret (some (id, stream)) k = k stream (insert id ret)

  unfoldable pub gen_ids : ℕ → Carrier → List Text → Carrier → Option (Carrier × List Text)
  gen_ids zero existing stream ret = some (ret, stream)
  gen_ids (suc i) existing stream ret =
      insert_generated ret (get_or_gen_instance_id existing stream) (gen_ids i existing)

  unfoldable pub get_or_gen_available_ids : ℤ → List Pod → List Text → Option (Carrier × List Text)
  unfolding gen_ids existing_ids
  get_or_gen_available_ids num pods stream =
      gen_ids (pos_part num) (existing_ids pods new) stream new

-- The loop that takes every pod failing the test, and of the others as many as the limit allows.
unfoldable pub within_limit : (Pod → Bool) → ℤ → List Pod → List Pod × ℤ
within_limit serves limit [] = ([], limit)
within_limit serves limit (p ∷ pods) =
    let spent = serves p && ltb_ℤ (pos 0) limit in
    let (chosen, left) = within_limit serves (if spent then limit -ℤ pos 1 else limit) pods in
    (if not (serves p) then p ∷ chosen else if spent then p ∷ chosen else chosen, left)

-- `choosePodsToDelete`; `sort` is `sort.Sort` by the test that it is given, and `ready` is
-- `podutil.IsPodReady`. `none` is a slice bound out of range.
unfoldable pub choose_pods_to_delete :
    ((Pod → Pod → Bool) → List Pod → List Pod) → (Pod → Bool) → ℤ → List Pod → Option (List Pod)
unfolding less same_node_rank
choose_pods_to_delete sort ready diff pods =
    let count = pos (length pods) in
    if ltb_ℤ diff count
    then slice_to diff (sort (less ready (some is_running) (same_node_rank sort ready pods)) pods)
    else if ltb_ℤ count diff
    then some pods
    else slice_to diff pods

-- What `Scale` calls and is not part of the program.
pub record Kube : Type 0 where
  -- `podutil.IsPodAvailable` with the minimum of ready seconds, at the time of the call.
  pub available : Pod → ℤ → Bool
  pub resolve : IntOrString → ℤ → Bool → ℤ
  pub from_template : Inplaceu → Option Pod
  pub sort : (Pod → Pod → Bool) → List Pod → List Pod
  -- `podutil.IsPodReady`.
  pub ready : Pod → Bool

module _ (sets : StringSet) (client : Client) (kube : Kube) where
  open client use {World, ApiError}
  open sets use {Carrier, list}

  -- What a call returns: `none` is a panic, or random texts that ran out.
  abbrev pub Outcome : Type 0
  Outcome = Option (Ctl sets client × Bool × Option (Error ApiError))

  abbrev pub api_error : Option ApiError → Option (Error ApiError)
  api_error none = none
  api_error (some e) = some (api e)

  abbrev pub from_api : Option (Ctl sets client × Bool × Option ApiError) → Outcome
  from_api none = none
  from_api (some (s, modified, err)) = some (s, modified, api_error err)

  -- Step 5.
  unfoldable pub scale_in : Inplaceu → ℤ → ℤ → List Pod → Ctl sets client → Outcome
  scale_in iu scale_down_num limit updated_pods s =
      if ltb_ℤ (pos 0) scale_down_num
      then (elim (choose_pods_to_delete kube.sort kube.ready scale_down_num updated_pods) [
        | none ↦ none
        | some preparing ↦
            from_api
              (some (delete_pods sets client iu (within_limit is_running limit preparing).0 s))
      ])
      else some (s, false, none)

  -- Steps 4 and 5.
  abbrev pub after_specified :
      Ctl sets client × Bool × Option ApiError → (Ctl sets client → Outcome) → Outcome
  after_specified (s, modified, some e) rest = some (s, modified, some (api e))
  after_specified (s, true, none) rest = some (s, true, none)
  after_specified (s, false, none) rest = rest s

  unfoldable pub scale_deletions :
      Inplaceu → ExpectationDiffs → List Pod → List Pod → Ctl sets client → Outcome
  unfolding scale_in
  scale_deletions iu d specified updated_pods s =
      let serves = λ (p : Pod). is_pod_available kube.available p iu.spec.min_ready_seconds in
      let (can_delete, limit) = within_limit serves d.delete_ready_limit specified in
      if is_empty specified
      then scale_in iu d.scale_down_num d.delete_ready_limit updated_pods s
      else after_specified (delete_pods sets client iu can_delete s)
          (scale_in iu d.scale_down_num limit updated_pods)

  -- Step 3, with the random texts at hand.
  unfoldable pub scale_out :
      Inplaceu → Text → ExpectationDiffs → List Pod → List Text → Ctl sets client → Outcome
  scale_out iu update_revision d pods stream s =
      elim (get_or_gen_available_ids sets d.scale_up_num pods stream) [
        | none ↦ none
        | some (ids, _) ↦ from_api (
            create_pods sets client kube.from_template d.scale_up_num iu update_revision (list ids)
              s)
      ]

  unfoldable pub scale_by :
      Inplaceu → Text → ExpectationDiffs → List Pod → List Text → Ctl sets client → Outcome
  unfolding scale_out scale_deletions
  scale_by iu update_revision d pods stream s =
      if ltb_ℤ (pos 0) d.scale_up_num
      then scale_out iu update_revision d pods stream s
      else scale_deletions iu d (get_planned_deleted_pods sets pods).0
          (group_update_and_not_update_pods pods update_revision).0 s

  abbrev pub nil_replicas : Error ApiError
  nil_replicas = message (codes "spec.Replicas is nil")

  abbrev scale_diffs :
      Inplaceu → Text → Option ExpectationDiffs → List Pod → List Text → Ctl sets client → Outcome
  scale_diffs iu update_revision none pods stream s = none
  scale_diffs iu update_revision (some d) pods stream s =
      scale_by iu update_revision d pods stream s

  abbrev pub scale_if_set :
      Option ℤ → Inplaceu → Text → List Pod → List Text → Ctl sets client → Outcome
  scale_if_set none iu update_revision pods stream s = some (s, false, some nil_replicas)
  scale_if_set (some replicas) iu update_revision pods stream s =
      scale_diffs iu update_revision
        (calculate_diffs_with_expectation kube.resolve iu pods update_revision) pods stream s

  -- `Scale`, on the set at the update revision; the set at the current revision and that revision's
  -- name only go to calls that do not read them.
  unfoldable pub scale : Inplaceu → Text → List Pod → List Text → Ctl sets client → Outcome
  unfolding scale_by
  scale update_iu update_revision pods stream s =
      scale_if_set update_iu.spec.replicas update_iu update_revision pods stream s
