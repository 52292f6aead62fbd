-- ===== src/System/Resumes.antt =====
-- A controller that waits for its pods goes on once it was told of all of them.
use inplaceu.Base.{
  ℕ, ◌≡◌, inr, refl, sym, subst, ap, ◌∙◌, Bool, true, false, not, ◌&&◌, Option, none, some, List,
  [], ◌∷◌, Text, text_eq, Dict, arith,
}
use inplaceu.Base.Int.{ℤ}
use inplaceu.Api.{Inplaceu}
use inplaceu.Sets.{StringSet}
use inplaceu.Expectations.Scale.{ScaleAction, Cache, satisfied_expectations}
use inplaceu.Expectations.Scale.Pending.{pending}
use inplaceu.Expectations.Scale.Valid.{IsValid}
use inplaceu.Expectations.Scale.Verdict.{Verdict, satisfied_expectations-Verdict}
use inplaceu.Sync.State.{Client}
use inplaceu.Sync.Deletes.{Ctl}
use inplaceu.Events.{Handler, Handling, Request, request_key}
use inplaceu.Events.Observed.{PodEvent, handle, cache_of, Observed}
use inplaceu.Events.Handled.{handle-Observed}
use inplaceu.Events.Delivery.{told, Observed-satisfied}
use inplaceu.Reconciler.{ReconcileError}
use inplaceu.Reconciler.Sync.{Setup}
use inplaceu.Reconciler.Run.{reconcile, reconcile_body, reconcile_owned, deferred, in_cache}
use inplaceu.Reconciler.Run.Guards.{Waits, reconcile-Waits, reconcile_instance-released}
use inplaceu.Reconciler.Run.Valid.{reconcile-OutcomeValid}
use inplaceu.Reconciler.Finish.{Outcome}
use inplaceu.Reconciler.Finish.Valid.{OutcomeValid}
use inplaceu.Reconciler.Waiting.{Clock}
use inplaceu.System.{in_world, in_ctl, Reach, Reach-IsValid}

module _ (sets : StringSet) (client : Client) (setup : Setup client)
    (handler : Handler client.World) where
  open client use {World, ApiError}
  open setup use {calls}

  -- What happens between two states, with the events of pods in it: changes of the cluster by others,
  -- and reconciliations of the request while its set awaits a name.
  pub data Between (req : Request)
      : List PodEvent → Handling sets handler → Handling sets handler → Type 0 where
    over : (h : Handling sets handler) → Between req [] h h
    observed :
        (e : PodEvent) (es : List PodEvent) (h h' : Handling sets handler)
        → Between req es (handle sets handler e h) h'
        → Between req (e ∷ es) h h'
    cluster_moved :
        (w : World) (es : List PodEvent) (h h' : Handling sets handler)
        → Between req es (in_world sets client setup handler w h) h'
        → Between req es h h'
    reconciled :
        (fuel : ℕ) (clock : Clock) (stream : List Text) (iu : Inplaceu)
        (matches : Dict Text Text → Bool) (a : ScaleAction) (x : Text) (s : Ctl sets client)
        (after : ℤ) (err : Option (ReconcileError ApiError)) (es : List PodEvent)
        (h h' : Handling sets handler)
        → calls.get_instance req.namespace req.name h.ctl.world ≡ inr iu
        → calls.selector_of iu ≡ some matches
        → pending sets (request_key req) a x (cache_of sets handler h) ≡ true
        → reconcile sets client setup fuel clock stream req h.ctl ≡ some (s, after, err)
        → Between req es (in_ctl sets client setup handler s h) h'
        → Between req es h h'

  -- What is awaited in the state of an outcome.
  abbrev Keeps : Ctl sets client → Outcome sets client setup → Type 0
  Keeps s none = Unit
  Keeps s (some r) =
      (k : Text) (a : ScaleAction) (x : Text)
      → pending sets k a x r.0.scale_expectations ≡ pending sets k a x s.scale_expectations

  Between-Observed :
      (req : Request) (es : List PodEvent) (h h' : Handling sets handler)
      → Between req es h h'
      → IsValid sets (cache_of sets handler h)
      → Observed sets handler
          (told sets handler es)
          (cache_of sets handler h)
          (cache_of sets handler h')
  Between-Observed req _ h _ (over _) v = ((λ k a x. refl), v)
  Between-Observed req _ h h' (observed e es _ _ rest) v =
      let (one, valid) = handle-Observed sets handler e h v in
      let (later, valid') = Between-Observed req es (handle sets handler e h) h' rest valid in
      ((λ k a x. ground (arith, one k a x, later k a x)), valid')
  Between-Observed req es h h' (cluster_moved w _ _ _ rest) v =
      Between-Observed req es (in_world sets client setup handler w h) h' rest v
  Between-Observed req es h h'
        (reconciled fuel clock stream iu matches a x s after err _ _ _ got selects awaited returned
          rest)
        v =
      let waits : Waits sets client setup (clock 0).0 (clock 0).1 (request_key req) h.ctl
          (reconcile sets client setup fuel clock stream req h.ctl) =
        reconcile-Waits sets client setup fuel clock stream req h.ctl iu matches a x v got selects
          awaited in
      let same : Keeps h.ctl (some (s, after, err)) =
        subst (Keeps h.ctl) (sym waits.result ∙ returned) waits.same_pending in
      let valid : IsValid sets s.scale_expectations =
        subst (OutcomeValid sets client setup) returned
          (reconcile-OutcomeValid sets client setup fuel clock stream req h.ctl v) in
      let (later, valid') =
        Between-Observed req es (in_ctl sets client setup handler s h) h' rest valid in
      (
        (λ k b y. later k b y ∙ ap (λ t. not (told sets handler es k b y) && t) (same k b y)),
        valid',
      )

  -- A reconciliation that does not wait: it goes on behind its guard, in a state that differs only in
  -- the cache of expectations, where nothing is awaited under the key and the rest is as it was.
  pub record Resumes (fuel : ℕ) (clock : Clock) (stream : List Text) (req : Request) (iu : Inplaceu)
      (matches : Dict Text Text → Bool) (s : Ctl sets client) : Type 0 where
    pub cache : Cache sets
    pub goes_on :
        reconcile sets client setup fuel clock stream req s
        ≡ deferred sets client setup (request_key req) (
            reconcile_owned sets client setup fuel clock stream
              (request_key req)
              iu
              matches
              (in_cache sets client setup cache s))
    pub none_awaited :
        (a : ScaleAction) (x : Text) → pending sets (request_key req) a x cache ≡ false
    pub same_pending :
        (k : Text) (a : ScaleAction) (x : Text)
        → pending sets k a x cache ≡ pending sets k a x s.scale_expectations

  Verdict-none :
      (key : Text) (cache : Cache sets) (b : Bool)
      → b ≡ true
      → Verdict sets key cache b
      → (a : ScaleAction) (x : Text) → pending sets key a x cache ≡ false
  Verdict-none key cache true e v = v
  Verdict-none key cache false e v = absurd cc

  -- Let the controller be in a state that it reaches, and let events of pods happen that tell of every
  -- name awaited under the key of a set, in any order and among others, with changes of the cluster
  -- and with reconciliations of this set that come while it awaits a name. If the set is then there
  -- with a selector that is well formed, its next reconciliation does not wait: it goes on with the
  -- pods of the set, and nothing is awaited under its key.
  pub Reach-Resumes :
      (fuel : ℕ) (clock : Clock) (stream : List Text) (req : Request) (iu : Inplaceu)
      (matches : Dict Text Text → Bool) (es : List PodEvent) (h h' : Handling sets handler)
      → Reach sets client setup handler h
      → Between req es h h'
      → ((a : ScaleAction) (x : Text)
          → pending sets (request_key req) a x (cache_of sets handler h) ≡ true
          → told sets handler es (request_key req) a x ≡ true)
      → calls.get_instance req.namespace req.name h'.ctl.world ≡ inr iu
      → calls.selector_of iu ≡ some matches
      → Resumes fuel clock stream req iu matches h'.ctl
  unfolding reconcile reconcile_body
  Reach-Resumes fuel clock stream req iu matches es h h' r between all_told got selects =
      let key = request_key req in
      let seen =
        Between-Observed req es h h' between (Reach-IsValid sets client setup handler h r) in
      let (cache, answer) =
        satisfied_expectations sets (clock 0).0 (clock 0).1 key h'.ctl.scale_expectations in
      let released : answer.satisfied ≡ true =
        Observed-satisfied sets handler (clock 0).0 (clock 0).1 key (told sets handler es)
          (cache_of sets handler h) (cache_of sets handler h') seen all_told in
      let (verdict, same, _) =
        satisfied_expectations-Verdict sets (clock 0).0 (clock 0).1 key h'.ctl.scale_expectations
          seen.1 in
      record {
        cache = cache;
        goes_on =
            rw (got, reconcile_body, selects)
              (ap (deferred sets client setup key) (
                reconcile_instance-released sets client setup fuel clock stream key iu matches
                  h'.ctl released));
        none_awaited = λ a x.
            same key a x
            ∙ Verdict-none key h'.ctl.scale_expectations answer.satisfied released verdict a x;
        same_pending = same;
      }
