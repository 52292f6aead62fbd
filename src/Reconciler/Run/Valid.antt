-- ===== src/Reconciler/Run/Valid.antt =====
-- A reconciliation keeps the cache of scale expectations valid.
use inplaceu.Base.{
  ℕ, ◌⊎◌, inl, inr, Bool, Option, none, some, List, Text, Dict, Bool-cases, sum-cases,
}
use inplaceu.Api.{Pod, Inplaceu, ControllerRevision}
use inplaceu.Sets.{StringSet}
use inplaceu.Expectations.Scale.{satisfied_expectations}
use inplaceu.Expectations.Scale.Valid.{delete_expectations-IsValid}
use inplaceu.Expectations.Scale.Verdict.{satisfied_expectations-Verdict}
use inplaceu.Events.{Request, request_key}
use inplaceu.Refs.{RefError}
use inplaceu.Sync.State.{Client}
use inplaceu.Sync.Deletes.{Ctl}
use inplaceu.Reconciler.{
  ReconcileError, Active, get_owned_pods, claim_pods, parent_of, get_active_revisions,
}
use inplaceu.Revisions.{list_controller_revisions}
use inplaceu.Reconciler.Sync.{Setup}
use inplaceu.Reconciler.Finish.{Outcome, reconcile_active, in_world}
use inplaceu.Reconciler.Run.{
  reconcile, reconcile_body, reconcile_instance, reconcile_owned, reconcile_claimed, deferred,
  in_cache, with_active, with_revisions, with_claimed, with_selector,
}
use inplaceu.Reconciler.Waiting.{Clock}
use inplaceu.Reconciler.Finish.Valid.{Valid, OutcomeValid, reconcile_active-Valid}

module _ (sets : StringSet) (client : Client) (setup : Setup client) where
  open client use {World, ApiError}
  open setup use {kube, in_place, sort_slice, calls}

  with_active-Valid :
      (next : Active → Ctl sets client → Outcome sets client setup) (s : Ctl sets client)
      (r : Option (World × (ReconcileError ApiError ⊎ Active)))
      → Valid sets client setup s
      → ((active : Active) (s' : Ctl sets client)
          → Valid sets client setup s'
          → OutcomeValid sets client setup (next active s'))
      → OutcomeValid sets client setup (with_active sets client setup next s r)
  with_active-Valid next s none v h = tt
  with_active-Valid next s (some (w, inl e)) v h = v
  with_active-Valid next s (some (w, inr active)) v h = h active (in_world sets client setup w s) v

  with_revisions-Valid :
      (next : List ControllerRevision → Outcome sets client setup) (s : Ctl sets client)
      (r : ApiError ⊎ List ControllerRevision)
      → Valid sets client setup s
      → ((revisions : List ControllerRevision) → OutcomeValid sets client setup (next revisions))
      → OutcomeValid sets client setup (with_revisions sets client setup next s r)
  with_revisions-Valid next s (inl e) v h = v
  with_revisions-Valid next s (inr revisions) v h = h (calls.sort_revisions revisions)

  module _ (fuel : ℕ) (clock : Clock) (stream : List Text) (key : Text) (iu : Inplaceu) where
    reconcile_claimed-Valid :
        (pods : List Pod) (s : Ctl sets client)
        → Valid sets client setup s
        → OutcomeValid sets client setup
            (reconcile_claimed sets client setup fuel clock stream key iu pods s)
    unfolding reconcile_claimed
    reconcile_claimed-Valid pods s v =
        with_revisions-Valid _ s
          (list_controller_revisions (calls.revisions iu) (parent_of iu) s.world) v
          (λ revisions.
            with_active-Valid
              (reconcile_active sets client setup clock stream key iu pods revisions) s
              (get_active_revisions calls fuel iu revisions s.world) v
              (reconcile_active-Valid sets client setup clock stream key iu pods revisions))

    with_claimed-Valid :
        (s : Ctl sets client) (r : World × (List (RefError ApiError) ⊎ List Pod))
        → Valid sets client setup s
        → OutcomeValid sets client setup (
            with_claimed sets client setup
              (reconcile_claimed sets client setup fuel clock stream key iu)
              s
              r)
    with_claimed-Valid s (w, inl e) v = v
    with_claimed-Valid s (w, inr pods) v =
        reconcile_claimed-Valid pods (in_world sets client setup w s) v

    module _ (matches : Dict Text Text → Bool) where
      reconcile_owned-Valid :
          (s : Ctl sets client)
          → Valid sets client setup s
          → OutcomeValid sets client setup
              (reconcile_owned sets client setup fuel clock stream key iu matches s)
      unfolding reconcile_owned
      reconcile_owned-Valid s v = elim (sum-cases (get_owned_pods calls iu s.world)) [
        | inl (e, h) ↦ rw (h, reconcile_owned) v
        | inr ((active, inactive), h) ↦
            rw (h, reconcile_owned)
              (with_claimed-Valid s (claim_pods calls iu matches active s.world) v)
      ]

      reconcile_instance-Valid :
          (s : Ctl sets client)
          → Valid sets client setup s
          → OutcomeValid sets client setup
              (reconcile_instance sets client setup fuel clock stream key iu matches s)
      unfolding reconcile_instance
      reconcile_instance-Valid s v =
          let (now, later) = clock 0 in
          let (cache, r) = satisfied_expectations sets now later key s.scale_expectations in
          let (_, _, valid) =
            satisfied_expectations-Verdict sets now later key s.scale_expectations v in
          elim (Bool-cases r.satisfied) [
            | inl h ↦
                rw (h, reconcile_instance)
                  (reconcile_owned-Valid (in_cache sets client setup cache s) valid)
            | inr h ↦ rw (h, reconcile_instance) valid
          ]

  with_selector-Valid :
      (next : (Dict Text Text → Bool) → Outcome sets client setup) (s : Ctl sets client)
      (r : Option (Dict Text Text → Bool))
      → Valid sets client setup s
      → ((matches : Dict Text Text → Bool) → OutcomeValid sets client setup (next matches))
      → OutcomeValid sets client setup (with_selector sets client setup next s r)
  with_selector-Valid next s none v h = v
  with_selector-Valid next s (some matches) v h = h matches

  reconcile_body-Valid :
      (fuel : ℕ) (clock : Clock) (stream : List Text) (req : Request) (s : Ctl sets client)
      → Valid sets client setup s
      → OutcomeValid sets client setup (reconcile_body sets client setup fuel clock stream req s)
  unfolding reconcile_body
  reconcile_body-Valid fuel clock stream req s v =
      let key = request_key req in
      elim (sum-cases (calls.get_instance req.namespace req.name s.world)) [
        | inl (e, h) ↦ elim (Bool-cases (calls.is_not_found e)) [
          | inl g ↦
              rw (h, reconcile_body, g)
                (delete_expectations-IsValid sets key s.scale_expectations v)
          | inr g ↦ rw (h, reconcile_body, g) v
        ]
        | inr (iu, h) ↦
            rw (h, reconcile_body)
              (with_selector-Valid _ s (calls.selector_of iu) v
                (λ matches. reconcile_instance-Valid fuel clock stream key iu matches s v))
      ]

  deferred-Valid :
      (key : Text) (o : Outcome sets client setup)
      → OutcomeValid sets client setup o
      → OutcomeValid sets client setup (deferred sets client setup key o)
  deferred-Valid key none v = tt
  deferred-Valid key (some (s, after, err)) v = v

  -- A reconciliation that returns leaves the cache valid.
  pub reconcile-OutcomeValid :
      (fuel : ℕ) (clock : Clock) (stream : List Text) (req : Request) (s : Ctl sets client)
      → Valid sets client setup s
      → OutcomeValid sets client setup (reconcile sets client setup fuel clock stream req s)
  unfolding reconcile
  reconcile-OutcomeValid fuel clock stream req s v =
      deferred-Valid (request_key req) _ (reconcile_body-Valid fuel clock stream req s v)
