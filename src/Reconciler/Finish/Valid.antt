-- ===== src/Reconciler/Finish/Valid.antt =====
-- What follows the choice of the revisions keeps the cache of scale expectations valid.
use inplaceu.Base.{◌≡◌, sym, subst, Option, none, some, List, map, Text, arith}
use inplaceu.Base.Int.{ℤ}
use inplaceu.Api.{Pod, Inplaceu, ControllerRevision, InplaceuStatus}
use inplaceu.Sets.{StringSet}
use inplaceu.Expectations.Scale.Valid.{IsValid}
use inplaceu.Sync.State.{Client}
use inplaceu.Sync.Deletes.{Ctl}
use inplaceu.Reconciler.{ReconcileError, Active}
use inplaceu.Expectations.Versions.{Versions}
use inplaceu.History.{truncate_history}
use inplaceu.Status.{calculate_status, update_inplaceu_set_status}
use inplaceu.Reconciler.Sync.Valid.{SyncedValid, sync_inplaceu-Valid}
use inplaceu.Reconciler.Sync.{Setup, Synced}
use inplaceu.Reconciler.Finish.{
  status_writer, Outcome, reconcile_active, finish, in_world, in_versions, push_delay, truncated,
  written, sync_or_wait, new_status,
}
use inplaceu.Reconciler.Waiting.{Clock, wait_for_versions}

module _ (sets : StringSet) (client : Client) (setup : Setup client) where
  open client use {World, ApiError}
  open setup use {kube, in_place, sort_slice, calls}

  abbrev pub Valid : Ctl sets client → Type 0
  Valid s = IsValid sets s.scale_expectations

  -- What a reconciliation leaves, if it returns.
  abbrev pub OutcomeValid : Outcome sets client setup → Type 0
  OutcomeValid none = Unit
  OutcomeValid (some r) = Valid r.0

  push_delay-cache :
      (key : Text) (iu : Inplaceu) (status : InplaceuStatus)
      (err : Option (ReconcileError ApiError)) (s : Ctl sets client)
      → (push_delay sets client setup key iu status err s).scale_expectations ≡ s.scale_expectations
  push_delay-cache key iu status err s = ground arith

  truncated-Valid :
      (key : Text) (iu : Inplaceu) (status : Option InplaceuStatus)
      (err : Option (ReconcileError ApiError)) (s : Ctl sets client)
      (r : Option (World × Option ApiError))
      → Valid s
      → OutcomeValid (truncated sets client setup key iu status err s r)
  truncated-Valid key iu none err s r v = tt
  truncated-Valid key iu (some status) err s none v = tt
  truncated-Valid key iu (some status) err s (some (w, e)) v =
      subst (IsValid sets)
        (sym (push_delay-cache key iu status err (in_world sets client setup w s))) v

  written-Valid :
      (key : Text) (iu : Inplaceu) (pods : List Pod) (revisions : List ControllerRevision)
      (active : Active) (status : InplaceuStatus) (err : Option (ReconcileError ApiError))
      (s : Ctl sets client) (r : Option (World × Option ApiError))
      → Valid s
      → OutcomeValid (written sets client setup key iu pods revisions active status err s r)
  written-Valid key iu pods revisions active status err s none v = tt
  written-Valid key iu pods revisions active status err s (some (w, some e)) v = v
  written-Valid key iu pods revisions (current, rev, count) status err s (some (w, none)) v =
      truncated-Valid key iu (calculate_status kube.available iu status pods) err s
        (truncate_history calls.delete_revision iu pods revisions current.name rev.name w) v

  finish-Valid :
      (key : Text) (iu : Inplaceu) (pods : List Pod) (revisions : List ControllerRevision)
      (active : Active) (r : Synced sets client setup)
      → SyncedValid sets client setup r
      → OutcomeValid (finish sets client setup key iu pods revisions active r)
  finish-Valid key iu pods revisions active none v = tt
  finish-Valid key iu pods revisions active (some (s, status, err)) v =
      let pods' = map (calls.held s.world) pods in
      written-Valid key iu pods' revisions active status err s
        (update_inplaceu_set_status kube.available (status_writer sets client setup) iu status pods'
          s.world)
        v

  sync_or_wait-Valid :
      (key : Text) (iu : Inplaceu) (pods : List Pod) (revisions : List ControllerRevision)
      (active : Active) (stream : List Text) (s : Ctl sets client) (r : Versions × Option ℤ)
      → Valid s
      → OutcomeValid (sync_or_wait sets client setup key iu pods revisions active stream s r)
  sync_or_wait-Valid key iu pods revisions active stream s (r, some after) v = v
  sync_or_wait-Valid key iu pods revisions (current, rev, count) stream s (r, none) v =
      finish-Valid key iu pods revisions (current, rev, count) _
        (sync_inplaceu-Valid sets client setup iu (new_status iu (current, rev, count)) current rev
          revisions pods stream (in_versions sets client setup r s) v)

  pub reconcile_active-Valid :
      (clock : Clock) (stream : List Text) (key : Text) (iu : Inplaceu) (pods : List Pod)
      (revisions : List ControllerRevision) (active : Active) (s : Ctl sets client)
      → Valid s
      → OutcomeValid
          (reconcile_active sets client setup clock stream key iu pods revisions active s)
  unfolding reconcile_active
  reconcile_active-Valid clock stream key iu pods revisions (current, rev, count) s v =
      sync_or_wait-Valid key iu pods revisions (current, rev, count) stream s
        (wait_for_versions clock rev pods s.resource_version_expectations) v
