-- ===== src/Sync/Update.antt =====
-- `Update` and `updatePod` of internal/sync/inplaceu_update.go, with `PatchPodSpecifiedDelete` of
-- internal/specifieddelete/specified_delete.go.
pub mod Returns
pub mod Awaits
pub mod Valid
use inplaceu.Base.{
  ℕ, Bool, true, false, Option, none, some, List, [], ◌∷◌, ◌++◌, Text, text_eq, codes, lookup, find,
  get_elem?, if◌then◌else◌,
}
use inplaceu.Base.Int.{ℤ, pos, ltb_ℤ, eqb_ℤ}
use inplaceu.Api.{Pod, Inplaceu, IntOrString, ControllerRevision, specified_delete_key}
use inplaceu.Sets.{StringSet}
use inplaceu.Utils.Hash.{equal_to_revision_hash}
use inplaceu.Utils.Pods.{get_controller_key, is_specified_delete}
use inplaceu.Expectations.Versions as Versions
use inplaceu.Requeue.{push}
use inplaceu.Sync.Diffs.{ExpectationDiffs, calculate_diffs_with_expectation}
use inplaceu.Sync.Limit.{limit_update_indexes}
use inplaceu.Sync.Waiting.{wait_update_indexes}
use inplaceu.Sync.State.{
  Client, State, Error, api, record_event, successful_update_pod_in_place,
  failed_update_pod_in_place, failed_update_pod_re_create, successful_update_pod_re_create,
}
use inplaceu.Sync.Deletes.{Ctl}

-- `UpdateResult` of internal/inplace_update/inplace_update.go.
pub record UpdateResult (ApiError : Type 0) : Type 0 where
  pub in_place_update : Bool
  pub update_err : Option (Error ApiError)
  pub delay_duration : ℤ
  pub new_resource_version : Text

-- The interface of the in-place update, as `updatePod` calls it.
pub record InPlace (client : Client) : Type 0 where
  pub can_update_in_place : Option ControllerRevision → ControllerRevision → Bool
  pub update :
      Pod
      → Option ControllerRevision
      → ControllerRevision
      → client.World
      → client.World × UpdateResult client.ApiError

abbrev pub patch_body : Text → Text
patch_body value =
    codes "{\"metadata\":{\"labels\":{\""
    ++ specified_delete_key
    ++ codes "\":\""
    ++ value
    ++ codes "\"}}}"

module _ (sets : StringSet) (client : Client) (in_place : InPlace client) where
  open client use {World, ApiError, patch}

  -- The cluster, the pod as patched, whether a patch was sent, and its error.
  unfoldable pub patch_pod_specified_delete :
      Pod → Text → World → World × Pod × Bool × Option ApiError
  unfolding is_specified_delete
  patch_pod_specified_delete pod value w =
      let (w', pod', err) = patch pod (patch_body value) w in
      if is_specified_delete pod then (w, pod, false, none) else (w', pod', true, err)

  abbrev pub Result : Type 0
  Result = Ctl sets client × ℤ × Option (Error ApiError)

  abbrev pub expect_version : Text → Text → Ctl sets client → Ctl sets client
  expect_version uid version s = record s {
    resource_version_expectations = Versions.expect uid version s.resource_version_expectations;
  }

  abbrev pub after_patch : Pod → Ctl sets client → World × Pod × Bool × Option ApiError → Result
  after_patch pod s (w, pod', patched, some e) = (
    record_event failed_update_pod_re_create pod.name (record s { world = w }),
    pos 0,
    some (api e),
  )
  after_patch pod s (w, pod', false, none) =
      (record_event successful_update_pod_re_create pod.name (record s { world = w }), pos 0, none)
  after_patch pod s (w, pod', true, none) = (
    record_event successful_update_pod_re_create pod.name
        (expect_version pod'.uid pod'.resource_version (record s { world = w })),
    pos 0,
    none,
  )

  unfoldable pub re_create : Pod → Ctl sets client → Result
  unfolding patch_pod_specified_delete
  re_create pod s = after_patch pod s (patch_pod_specified_delete pod (codes "true") s.world)

  abbrev pub after_in_place : Pod → Ctl sets client → UpdateResult ApiError → Result
  after_in_place pod s res = elim res.update_err [
    | none ↦ (
      expect_version pod.uid res.new_resource_version
          (record_event successful_update_pod_in_place pod.name s),
      res.delay_duration,
      none,
    )
    | some e ↦ (record_event failed_update_pod_in_place pod.name s, res.delay_duration, some e)
  ]

  unfoldable pub update_pod :
      ControllerRevision → List ControllerRevision → Pod → Ctl sets client → Result
  unfolding re_create
  update_pod update_revision revisions pod s =
      let old_revision =
        find (λ (r : ControllerRevision). equal_to_revision_hash pod.labels r.name) revisions in
      let (w, res) = in_place.update pod old_revision update_revision s.world in
      let s' : Ctl sets client = record s { world = w } in
      if in_place.can_update_in_place old_revision update_revision
      then (if res.in_place_update then after_in_place pod s' res else re_create pod s')
      else re_create pod s

  abbrev pub note_duration : Text → ℤ → Ctl sets client → Ctl sets client
  note_duration key duration s =
      if ltb_ℤ (pos 0) duration
      then record s { duration_store = push key duration s.duration_store }
      else s

  -- The loop over the indexes; `none` is an index out of range.
  unfoldable pub update_from :
      Text
      → ControllerRevision
      → List ControllerRevision
      → List Pod
      → List ℕ
      → Ctl sets client
      → Option (Ctl sets client × Option (Error ApiError))
  unfolding update_pod
  update_from key update_revision revisions pods [] s = some (s, none)
  update_from key update_revision revisions pods (i ∷ is) s = elim (get_elem? pods i) [
    | none ↦ none
    | some pod ↦
        let (s₁, duration, err) = update_pod update_revision revisions pod s in
        let s₂ = note_duration key duration s₁ in
        let rest = update_from key update_revision revisions pods is s₂ in
        elim err [ some e ↦ some (s₂, some e) | none ↦ rest ]
  ]

  module _ (resolve : IntOrString → ℤ → Bool → ℤ) (sort_slice : List Pod → List ℕ → List ℕ) where
    abbrev pub update_limited :
        Inplaceu
        → ControllerRevision
        → List ControllerRevision
        → List Pod
        → Option (List ℕ)
        → Ctl sets client
        → Option (Ctl sets client × Option (Error ApiError))
    update_limited iu update_revision revisions pods none s = none
    update_limited iu update_revision revisions pods (some indexes) s =
        update_from (get_controller_key iu) update_revision revisions pods indexes s

    abbrev pub update_by :
        Inplaceu
        → ControllerRevision
        → List ControllerRevision
        → List Pod
        → Option ExpectationDiffs
        → Ctl sets client
        → Option (Ctl sets client × Option (Error ApiError))
    update_by iu update_revision revisions pods none s = none
    update_by iu update_revision revisions pods (some d) s =
        if eqb_ℤ d.update_num (pos 0)
        then some (s, none)
        else update_limited iu update_revision revisions pods
            (limit_update_indexes d
              (sort_slice pods (wait_update_indexes update_revision.name pods)) pods
              update_revision.name)
            s

    -- `Update`; `sort_slice` is the sort of the indexes by the core control's test.
    unfoldable pub update :
        Inplaceu
        → ControllerRevision
        → List ControllerRevision
        → List Pod
        → Ctl sets client
        → Option (Ctl sets client × Option (Error ApiError))
    unfolding update_from
    update iu update_revision revisions pods s =
        update_by iu update_revision revisions pods
          (calculate_diffs_with_expectation resolve iu pods update_revision.name) s
