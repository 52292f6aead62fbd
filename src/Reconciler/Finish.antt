-- ===== src/Reconciler/Finish.antt =====
-- `Reconcile` of internal/controller/inplaceu_controller.go, behind the choice of the revisions.
pub mod Valid
pub mod Returns
use inplaceu.Base.{
  ◌*◌, Bool, true, false, not, ◌&&◌, Option, none, some, List, [], map, Text, text_eq,
  if◌then◌else◌,
}
use inplaceu.Base.Int.{ℤ, pos, pos_part, ltb_ℤ, eqb_ℤ}
use inplaceu.Api.{Pod, Inplaceu, ControllerRevision, InplaceuStatus}
use inplaceu.Sets.{StringSet}
use inplaceu.Expectations.Versions.{Versions}
use inplaceu.Requeue.{push, pop}
use inplaceu.Status.{calculate_status, update_inplaceu_set_status, update_status}
use inplaceu.History.{truncate_history}
use inplaceu.Sync.State.{Client}
use inplaceu.Sync.Deletes.{Ctl}
use inplaceu.Reconciler.{ReconcileError, from_client, Active}
use inplaceu.Reconciler.Waiting.{Clock, wait_for_versions}
use inplaceu.Reconciler.Sync.{Setup, sync_inplaceu, Synced}

-- The status that a reconciliation starts from.
unfoldable pub new_status : Inplaceu → Active → InplaceuStatus
new_status iu (current, update, count) = record {
  observed_generation = iu.generation;
  replicas = pos 0;
  updated_replicas = pos 0;
  ready_replicas = pos 0;
  available_replicas = pos 0;
  conditions = [];
  collision_count = some count;
  update_revision = update.name;
  current_revision = current.name;
}

module _ (sets : StringSet) (client : Client) (setup : Setup client) where
  open client use {World, ApiError}
  open setup use {kube, calls}

  -- The state with what the reconciler returns: the time after which the request is queued again,
  -- and the error. `none` is a panic, or fuel or random texts that ran out.
  abbrev pub Outcome : Type 0
  Outcome = Option (Ctl sets client × ℤ × Option (ReconcileError ApiError))

  abbrev pub in_world : World → Ctl sets client → Ctl sets client
  in_world w s = record s { world = w }

  abbrev pub pop_key : Text → Ctl sets client → Ctl sets client
  pop_key key s = record s { duration_store = (pop key s.duration_store).0 }

  abbrev pub is_ok : Option (ReconcileError ApiError) → Bool
  is_ok none = true
  is_ok (some e) = false

  -- Behind the write of the status, whose counts are read.
  abbrev pub push_delay :
      Text
      → Inplaceu
      → InplaceuStatus
      → Option (ReconcileError ApiError)
      → Ctl sets client
      → Ctl sets client
  push_delay key iu status err s =
      if is_ok err
        && ltb_ℤ (pos 0) iu.spec.min_ready_seconds
        && not (eqb_ℤ status.available_replicas status.ready_replicas)
      then record s {
        duration_store =
            push key (pos (1000000000 * pos_part iu.spec.min_ready_seconds)) s.duration_store;
      }
      else s

  abbrev pub with_requeue : Text → Option (ReconcileError ApiError) → Ctl sets client → Outcome
  with_requeue key err s = some (pop_key key s, (pop key s.duration_store).1, err)

  -- The error of the truncation is only logged.
  abbrev pub truncated :
      Text
      → Inplaceu
      → Option InplaceuStatus
      → Option (ReconcileError ApiError)
      → Ctl sets client
      → Option (World × Option ApiError)
      → Outcome
  truncated key iu none err s r = none
  truncated key iu (some status) err s none = none
  truncated key iu (some status) err s (some (w, e)) =
      with_requeue key err (push_delay key iu status err (in_world w s))

  abbrev pub written :
      Text
      → Inplaceu
      → List Pod
      → List ControllerRevision
      → Active
      → InplaceuStatus
      → Option (ReconcileError ApiError)
      → Ctl sets client
      → Option (World × Option ApiError)
      → Outcome
  written key iu pods revisions active status err s none = none
  written key iu pods revisions active status err s (some (w, some e)) =
      some (in_world w s, pos 0, some (from_client e))
  written key iu pods revisions (current, update, count) status err s (some (w, none)) =
      truncated key iu (calculate_status kube.available iu status pods) err s
        (truncate_history calls.delete_revision iu pods revisions current.name update.name w)

  -- `updateStatus` of the status updater.
  abbrev pub status_writer : Inplaceu → InplaceuStatus → World → World × Option ApiError
  status_writer = update_status calls.get_instance calls.put_status calls.retry_status

  -- Behind `syncInplaceu`.
  abbrev pub finish :
      Text
      → Inplaceu
      → List Pod
      → List ControllerRevision
      → Active
      → Synced sets client setup
      → Outcome
  finish key iu pods revisions active none = none
  finish key iu pods revisions active (some (s, status, err)) =
      let pods' = map (calls.held s.world) pods in
      written key iu pods' revisions active status err s
        (update_inplaceu_set_status kube.available status_writer iu status pods' s.world)

  abbrev pub in_versions : Versions → Ctl sets client → Ctl sets client
  in_versions r s = record s { resource_version_expectations = r }

  abbrev pub sync_or_wait :
      Text
      → Inplaceu
      → List Pod
      → List ControllerRevision
      → Active
      → List Text
      → Ctl sets client
      → Versions × Option ℤ
      → Outcome
  sync_or_wait key iu pods revisions active stream s (r, some after) =
      some (in_versions r s, after, none)
  sync_or_wait key iu pods revisions (current, update, count) stream s (r, none) =
      finish key iu pods revisions (current, update, count)
        (sync_inplaceu sets client setup iu (new_status iu (current, update, count)) current update
          revisions pods stream (in_versions r s))

  -- Behind the choice of the revisions.
  unfoldable pub reconcile_active :
      Clock
      → List Text
      → Text
      → Inplaceu
      → List Pod
      → List ControllerRevision
      → Active
      → Ctl sets client
      → Outcome
  reconcile_active clock stream key iu pods revisions (current, update, count) s =
      sync_or_wait key iu pods revisions (current, update, count) stream s
        (wait_for_versions clock update pods s.resource_version_expectations)
