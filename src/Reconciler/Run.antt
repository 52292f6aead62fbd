-- ===== src/Reconciler/Run.antt =====
-- `Reconcile` of internal/controller/inplaceu_controller.go.
pub mod Valid
pub mod Guards
use inplaceu.Base.{
  ℕ, zero, suc, ◌+◌, ◌*◌, ◌⊎◌, inl, inr, Bool, true, false, not, ◌&&◌, ◌||◌, Option, none, some,
  List, [], ◌∷◌, map, Text, Dict, text_eq, if◌then◌else◌,
}
use inplaceu.Base.Int.{ℤ, pos, pos_part, ltb_ℤ, eqb_ℤ, ◌-ℤ◌}
use inplaceu.Api.{Pod, Inplaceu, ControllerRevision, InplaceuStatus}
use inplaceu.Sets.{StringSet}
use inplaceu.Expectations.Scale.{Cache, Satisfied, satisfied_expectations, delete_expectations}
use inplaceu.Expectations.Versions as Versions
use inplaceu.Expectations.Versions.{Versions}
use inplaceu.Requeue.{push, pop}
use inplaceu.Events.{Request, request_key}
use inplaceu.Status.{calculate_status, update_inplaceu_set_status, update_status}
use inplaceu.History.{truncate_history}
use inplaceu.Refs.{RefError}
use inplaceu.Revisions.{list_controller_revisions}
use inplaceu.Sync.State.{Client, Error}
use inplaceu.Sync.Deletes.{Ctl}
use inplaceu.Reconciler.{
  Calls, ReconcileError, from_client, from_claims, Active, get_owned_pods, claim_pods, parent_of,
  get_active_revisions,
}
use inplaceu.Reconciler.Waiting.{Clock, wait_for_versions}
use inplaceu.Reconciler.Sync.{Setup, sync_inplaceu, Synced}
use inplaceu.Reconciler.Finish.{Outcome, in_world, pop_key, reconcile_active}

module _ (sets : StringSet) (client : Client) (setup : Setup client) where
  open client use {World, ApiError}
  open setup use {calls}

  abbrev fail : World → ReconcileError ApiError → Ctl sets client → Outcome sets client setup
  fail w e s = some (in_world sets client setup w s, pos 0, some e)

  abbrev with_active :
      (Active → Ctl sets client → Outcome sets client setup)
      → Ctl sets client
      → Option (World × (ReconcileError ApiError ⊎ Active))
      → Outcome sets client setup
  with_active next s none = none
  with_active next s (some (w, inl e)) = fail w e s
  with_active next s (some (w, inr active)) = next active (in_world sets client setup w s)

  abbrev with_revisions :
      (List ControllerRevision → Outcome sets client setup)
      → Ctl sets client
      → ApiError ⊎ List ControllerRevision
      → Outcome sets client setup
  with_revisions next s (inl e) = fail s.world (from_client e) s
  with_revisions next s (inr revisions) = next (calls.sort_revisions revisions)

  -- Behind the claim of the pods.
  unfoldable pub reconcile_claimed :
      ℕ
      → Clock
      → List Text
      → Text
      → Inplaceu
      → List Pod
      → Ctl sets client
      → Outcome sets client setup
  unfolding reconcile_active
  reconcile_claimed fuel clock stream key iu pods s =
      with_revisions
        (λ revisions.
          with_active (reconcile_active sets client setup clock stream key iu pods revisions) s
            (get_active_revisions calls fuel iu revisions s.world))
        s (list_controller_revisions (calls.revisions iu) (parent_of iu) s.world)

  abbrev with_claimed :
      (List Pod → Ctl sets client → Outcome sets client setup)
      → Ctl sets client
      → World × (List (RefError ApiError) ⊎ List Pod)
      → Outcome sets client setup
  with_claimed next s (w, inl errs) = fail w (from_claims errs) s
  with_claimed next s (w, inr pods) = next pods (in_world sets client setup w s)

  -- Behind the guard of the scale expectations.
  unfoldable pub reconcile_owned :
      ℕ
      → Clock
      → List Text
      → Text
      → Inplaceu
      → (Dict Text Text → Bool)
      → Ctl sets client
      → Outcome sets client setup
  unfolding reconcile_claimed
  reconcile_owned fuel clock stream key iu matches s = elim (get_owned_pods calls iu s.world) [
    | inl e ↦ fail s.world (from_client e) s
    | inr (active, inactive) ↦
        with_claimed (reconcile_claimed fuel clock stream key iu) s
          (claim_pods calls iu matches active s.world)
  ]

  abbrev pub in_cache : Cache sets → Ctl sets client → Ctl sets client
  in_cache cache s = record s { scale_expectations = cache }

  -- The guard. The numbers are nanoseconds.
  unfoldable pub reconcile_instance :
      ℕ
      → Clock
      → List Text
      → Text
      → Inplaceu
      → (Dict Text Text → Bool)
      → Ctl sets client
      → Outcome sets client setup
  unfolding reconcile_owned
  reconcile_instance fuel clock stream key iu matches s =
      let (now, later) = clock 0 in
      let (cache, r) = satisfied_expectations sets now later key s.scale_expectations in
      let s' = in_cache cache s in
      if not r.satisfied
      then some (s', pos 1000 -ℤ r.unsatisfied_duration, none)
      else reconcile_owned fuel clock stream key iu matches s'

  abbrev with_selector :
      ((Dict Text Text → Bool) → Outcome sets client setup)
      → Ctl sets client
      → Option (Dict Text Text → Bool)
      → Outcome sets client setup
  with_selector next s none = some (s, pos 0, none)
  with_selector next s (some matches) = next matches

  abbrev forget_key : Text → Ctl sets client → Ctl sets client
  forget_key key s = in_cache (delete_expectations sets key s.scale_expectations) s

  -- All but the deferred function.
  unfoldable pub reconcile_body :
      ℕ → Clock → List Text → Request → Ctl sets client → Outcome sets client setup
  unfolding reconcile_instance
  reconcile_body fuel clock stream req s =
      let key = request_key req in
      elim (calls.get_instance req.namespace req.name s.world) [
        | inl e ↦
            if calls.is_not_found e
            then some (forget_key key s, pos 0, none)
            else fail s.world (from_client e) s
        | inr iu ↦
            with_selector (λ matches. reconcile_instance fuel clock stream key iu matches s) s
              (calls.selector_of iu)
      ]

  abbrev pub deferred : Text → Outcome sets client setup → Outcome sets client setup
  deferred key none = none
  deferred key (some (s, after, err)) = some (pop_key sets client setup key s, after, err)

  unfoldable pub reconcile :
      ℕ → Clock → List Text → Request → Ctl sets client → Outcome sets client setup
  unfolding reconcile_body
  reconcile fuel clock stream req s =
      deferred (request_key req) (reconcile_body fuel clock stream req s)
