-- ===== src/Reconciler/Run/Guards.antt =====
-- What a reconciliation does while its set awaits pods, and what it leaves in the store of durations.
use inplaceu.Base.{
  ℕ, inl, inr, ◌≡◌, refl, ap, ◌∙◌, Bool, true, false, none, some, List, Text, text_eq, Dict, lookup,
  lookup-remove, Option-cases, ==_refl,
}
use inplaceu.Base.Int.{ℤ, pos, ◌-ℤ◌}
use inplaceu.Api.{Inplaceu}
use inplaceu.Sets.{StringSet}
use inplaceu.Expectations.Scale.{ScaleAction, Cache, satisfied_expectations}
use inplaceu.Expectations.Scale.Pending.{pending}
use inplaceu.Expectations.Scale.Valid.{IsValid}
use inplaceu.Expectations.Scale.Verdict.{Verdict, satisfied_expectations-Verdict}
use inplaceu.Requeue.{DurationStore, pop}
use inplaceu.Events.{Request, request_key}
use inplaceu.Sync.State.{Client}
use inplaceu.Sync.Deletes.{Ctl}
use inplaceu.Reconciler.Sync.{Setup}
use inplaceu.Reconciler.Finish.{Outcome, pop_key}
use inplaceu.Reconciler.Run.{
  reconcile, reconcile_body, reconcile_instance, reconcile_owned, deferred, in_cache,
}
use inplaceu.Reconciler.Waiting.{Clock}

module _ (sets : StringSet) (client : Client) (setup : Setup client) where
  open client use {ApiError}
  open setup use {calls}

  unsatisfied_lem :
      (key : Text) (cache : Cache sets) (a : ScaleAction) (x : Text) (b : Bool)
      → pending sets key a x cache ≡ true
      → Verdict sets key cache b
      → b ≡ false
  unsatisfied_lem key cache a x true p v = cc (v a x)
  unsatisfied_lem key cache a x false p v = refl

  -- A reconciliation that only waits: it calls nothing that changes the cluster, records no event,
  -- awaits what it did before, and is queued again after 1000 less the time that it has waited.
  pub record Waits (now later : ℕ) (key : Text) (s : Ctl sets client)
      (r : Outcome sets client setup) : Type 0 where
    pub s' : Ctl sets client
    pub after : ℤ
    pub result : r ≡ some (s', after, none)
    pub requeued :
        after
        ≡ pos 1000
          -ℤ (satisfied_expectations sets now later key s.scale_expectations).1.unsatisfied_duration
    pub same_world : s'.world ≡ s.world
    pub same_events : s'.events ≡ s.events
    pub same_versions : s'.resource_version_expectations ≡ s.resource_version_expectations
    pub same_pending :
        (k : Text) (a : ScaleAction) (x : Text)
        → pending sets k a x s'.scale_expectations ≡ pending sets k a x s.scale_expectations

  reconcile_instance-held :
      (fuel : ℕ) (clock : Clock) (stream : List Text) (key : Text) (iu : Inplaceu)
      (matches : Dict Text Text → Bool) (s : Ctl sets client)
      → let (cache, r) =
          satisfied_expectations sets (clock 0).0 (clock 0).1 key s.scale_expectations in
        r.satisfied ≡ false
        → reconcile_instance sets client setup fuel clock stream key iu matches s
          ≡ some (in_cache sets client setup cache s, pos 1000 -ℤ r.unsatisfied_duration, none)
  unfolding reconcile_instance
  reconcile_instance-held fuel clock stream key iu matches s h = rw (h, reconcile_instance) refl

  pub reconcile_instance-released :
      (fuel : ℕ) (clock : Clock) (stream : List Text) (key : Text) (iu : Inplaceu)
      (matches : Dict Text Text → Bool) (s : Ctl sets client)
      → let (cache, r) =
          satisfied_expectations sets (clock 0).0 (clock 0).1 key s.scale_expectations in
        r.satisfied ≡ true
        → reconcile_instance sets client setup fuel clock stream key iu matches s
          ≡ reconcile_owned sets client setup fuel clock stream key iu matches
              (in_cache sets client setup cache s)
  unfolding reconcile_instance
  reconcile_instance-released fuel clock stream key iu matches s h = rw (h, reconcile_instance) refl

  -- On a valid cache, while one name is awaited under the key of a set that is there and whose
  -- selector is well formed, a reconciliation only waits.
  pub reconcile-Waits :
      (fuel : ℕ) (clock : Clock) (stream : List Text) (req : Request) (s : Ctl sets client)
      (iu : Inplaceu) (matches : Dict Text Text → Bool) (a : ScaleAction) (x : Text)
      → IsValid sets s.scale_expectations
      → calls.get_instance req.namespace req.name s.world ≡ inr iu
      → calls.selector_of iu ≡ some matches
      → pending sets (request_key req) a x s.scale_expectations ≡ true
      → Waits
          (clock 0).0
          (clock 0).1
          (request_key req)
          s
          (reconcile sets client setup fuel clock stream req s)
  unfolding reconcile reconcile_body
  reconcile-Waits fuel clock stream req s iu matches a x v got selects p =
      let key = request_key req in
      let (cache, r) =
        satisfied_expectations sets (clock 0).0 (clock 0).1 key s.scale_expectations in
      let (verdict, same, _) =
        satisfied_expectations-Verdict sets (clock 0).0 (clock 0).1 key s.scale_expectations v in
      let held = unsatisfied_lem key s.scale_expectations a x r.satisfied p verdict in
      let s' = in_cache sets client setup cache s in
      record {
        s' = pop_key sets client setup key s';
        after = pos 1000 -ℤ r.unsatisfied_duration;
        result =
            rw (got, reconcile_body, selects)
              (ap (deferred sets client setup key)
                (reconcile_instance-held fuel clock stream key iu matches s held));
        requeued = refl;
        same_world = refl;
        same_events = refl;
        same_versions = refl;
        same_pending = same;
      }

  pop-none : (key : Text) (dm : DurationStore) → lookup key (pop key dm).0 ≡ none
  unfolding pop
  pop-none key dm = elim (Option-cases (lookup key dm)) [
    | inl h ↦ rw (h, pop) h
    | inr (v, h) ↦ rw (h, pop) (lookup-remove key key dm ∙ rw (==_refl key))
  ]

  -- The store holds nothing under a key, where there is an outcome.
  abbrev pub Popped : Text → Outcome sets client setup → Type 0
  Popped key none = Unit
  Popped key (some r) = lookup key r.0.duration_store ≡ none

  deferred-Popped :
      (key : Text) (o : Outcome sets client setup) → Popped key (deferred sets client setup key o)
  deferred-Popped key none = tt
  deferred-Popped key (some (s, after, err)) = pop-none key s.duration_store

  -- However a reconciliation returns, the store of durations holds nothing under its key.
  pub reconcile-Popped :
      (fuel : ℕ) (clock : Clock) (stream : List Text) (req : Request) (s : Ctl sets client)
      → Popped (request_key req) (reconcile sets client setup fuel clock stream req s)
  unfolding reconcile
  reconcile-Popped fuel clock stream req s =
      deferred-Popped (request_key req) (reconcile_body sets client setup fuel clock stream req s)
