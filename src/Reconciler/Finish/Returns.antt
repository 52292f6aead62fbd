-- ===== src/Reconciler/Finish/Returns.antt =====
-- `Reconcile` returns once the revisions are chosen.
use inplaceu.Base.{
  ℕ, inl, inr, ◌≡◌, refl, sym, subst, Bool, true, Option, none, some, List, map, Text, length,
  Bool-cases,
}
use inplaceu.Base.Int.{ℤ, pos, ltb_ℤ, eqb_ℤ}
use inplaceu.Api.{Pod, Inplaceu, ControllerRevision, InplaceuStatus}
use inplaceu.Sets.{StringSet}
use inplaceu.Expectations.Versions.{Versions}
use inplaceu.RevisionControl.{apply_revision}
use inplaceu.Status.{
  calculate_status, stable, count_status, update_inplaceu_set_status, write_status,
}
use inplaceu.History.{truncate_history, limit_or_ten, forget, no_live_revisions}
use inplaceu.Sync.State.{Client}
use inplaceu.Sync.Deletes.{Ctl}
use inplaceu.Reconciler.{ReconcileError, Active}
use inplaceu.Reconciler.Sync.{Setup, Synced}
use inplaceu.Reconciler.Sync.Returns.{Returned, Workable, sync_inplaceu-Returned}
use inplaceu.Reconciler.Waiting.{Clock, wait_for_versions}
use inplaceu.Reconciler.Finish.{
  status_writer, reconcile_active, finish, written, truncated, sync_or_wait, new_status,
  in_versions,
}

stable_lem :
    (o : Option ℤ) (replicas : ℤ) (s : InplaceuStatus)
    → o ≡ some replicas
    → Returned (stable (λ p n. true) o s)
stable_lem none replicas s h = absurd cc
stable_lem (some n) replicas s h = (_, refl)

status_lem :
    (available : Pod → ℤ → Bool) (iu : Inplaceu) (replicas : ℤ) (s : InplaceuStatus)
    (pods : List Pod)
    → iu.spec.replicas ≡ some replicas
    → Returned (calculate_status available iu s pods)
unfolding calculate_status
status_lem available iu replicas s pods h =
    let t = count_status available iu pods s in
    elim (Bool-cases (eqb_ℤ t.updated_replicas t.replicas)) [
      | inl e ↦ rw (e, calculate_status) (stable_lem iu.spec.replicas replicas t h)
      | inr e ↦ rw (e, calculate_status) (t, refl)
    ]

forget_lem :
    {World ApiError : Type 0}
    (delete_revision : ControllerRevision → World → World × Option ApiError) (capacity limit : ℕ)
    (idle : List ControllerRevision) (w : World)
    → Returned (forget delete_revision capacity (pos limit) idle w)
unfolding forget
forget_lem delete_revision capacity limit idle w =
    elim (Bool-cases (ltb_ℤ (pos limit) (pos (length idle)))) [
      | inl e ↦ rw (e, forget) (_, refl)
      | inr e ↦ rw (e, forget) ((w, none), refl)
    ]

truncate_lem :
    {World ApiError : Type 0}
    (delete_revision : ControllerRevision → World → World × Option ApiError) (iu : Inplaceu)
    (limit : ℕ) (pods : List Pod) (revisions : List ControllerRevision) (current update : Text)
    (w : World)
    → limit_or_ten iu.spec.revision_history_limit ≡ pos limit
    → Returned (truncate_history delete_revision iu pods revisions current update w)
unfolding truncate_history
truncate_lem delete_revision iu limit pods revisions current update w h =
    let idle = no_live_revisions current update pods revisions in
    subst (λ n. Returned (forget delete_revision (length revisions) n idle w)) (sym h)
      (forget_lem delete_revision (length revisions) limit idle w)

module _ (sets : StringSet) (client : Client) (setup : Setup client) where
  open client use {World, ApiError}
  open setup use {kube, in_place, sort_slice, calls}

  module _ (iu : Inplaceu) (replicas : ℤ) (limit : ℕ)
      (has_replicas : iu.spec.replicas ≡ some replicas)
      (has_limit : limit_or_ten iu.spec.revision_history_limit ≡ pos limit) where
    truncated_lem :
        (key : Text) (o : Option InplaceuStatus) (err : Option (ReconcileError ApiError))
        (s : Ctl sets client) (r : Option (World × Option ApiError))
        → Returned o
        → Returned r
        → Returned (truncated sets client setup key iu o err s r)
    truncated_lem key none err s r (x, h) g = absurd cc
    truncated_lem key (some status) err s none h (x, g) = absurd cc
    truncated_lem key (some status) err s (some (w, e)) h g = (_, refl)

    written_lem :
        (key : Text) (pods : List Pod) (revisions : List ControllerRevision) (active : Active)
        (status : InplaceuStatus) (err : Option (ReconcileError ApiError)) (s : Ctl sets client)
        (r : Option (World × Option ApiError))
        → Returned r
        → Returned (written sets client setup key iu pods revisions active status err s r)
    written_lem key pods revisions active status err s none (x, h) = absurd cc
    written_lem key pods revisions active status err s (some (w, some e)) h = (_, refl)
    written_lem key pods revisions (current, rev, n) status err s (some (w, none)) h =
        truncated_lem key (calculate_status kube.available iu status pods) err s _
          (status_lem kube.available iu replicas status pods has_replicas)
          (truncate_lem calls.delete_revision iu limit pods revisions current.name rev.name w
            has_limit)

    write_lem :
        (status : InplaceuStatus) (o : Option InplaceuStatus) (w : World)
        → Returned o
        → Returned (write_status kube.available (status_writer sets client setup) iu o w)
    write_lem status none w (x, h) = absurd cc
    write_lem status (some t) w h = (_, refl)

    finish_lem :
        (key : Text) (pods : List Pod) (revisions : List ControllerRevision) (active : Active)
        (r : Synced sets client setup)
        → Returned r
        → Returned (finish sets client setup key iu pods revisions active r)
    unfolding update_inplaceu_set_status
    finish_lem key pods revisions active none (x, h) = absurd cc
    finish_lem key pods revisions active (some (s, status, err)) h =
        let pods' = map (calls.held s.world) pods in
        written_lem key pods' revisions active status err s
          (update_inplaceu_set_status kube.available (status_writer sets client setup) iu status
            pods' s.world)
          (write_lem status (calculate_status kube.available iu status pods') s.world
            (status_lem kube.available iu replicas status pods' has_replicas))

    waited_lem :
        (key : Text) (pods : List Pod) (revisions : List ControllerRevision) (active : Active)
        (stream : List Text) (s : Ctl sets client) (r : Versions × Option ℤ)
        → ((u : Inplaceu)
            → apply_revision calls.codec iu active.1 ≡ inr u
            → Workable sets client setup u active.1.name pods stream)
        → Returned (sync_or_wait sets client setup key iu pods revisions active stream s r)
    waited_lem key pods revisions active stream s (r, some after) workable = (_, refl)
    waited_lem key pods revisions (current, rev, n) stream s (r, none) workable =
        finish_lem key pods revisions (current, rev, n) _
          (sync_inplaceu-Returned sets client setup iu (new_status iu (current, rev, n)) current rev
            revisions pods stream (in_versions sets client setup r s) workable)

    -- On a set whose replicas are set and whose limit of revisions is not negative, and whose update
    -- revision, if it applies, gives a set that `Scale` and `Update` can work on, a reconciliation that has
    -- chosen its revisions returns: it does not panic, whatever the cluster answers.
    pub reconcile_active-Returned :
        (clock : Clock) (stream : List Text) (key : Text) (pods : List Pod)
        (revisions : List ControllerRevision) (active : Active) (s : Ctl sets client)
        → ((u : Inplaceu)
            → apply_revision calls.codec iu active.1 ≡ inr u
            → Workable sets client setup u active.1.name pods stream)
        → Returned (reconcile_active sets client setup clock stream key iu pods revisions active s)
    unfolding reconcile_active
    reconcile_active-Returned clock stream key pods revisions active s workable =
        waited_lem key pods revisions active stream s
          (wait_for_versions clock active.1 pods s.resource_version_expectations) workable
