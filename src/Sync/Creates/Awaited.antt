-- ===== src/Sync/Creates/Awaited.antt =====
-- After `createPods` the controller awaits exactly the pods that the cluster accepted.
use inplaceu.Base.{
  ℕ, zero, suc, ◌+◌, ◌≤◌, ◌<◌, ◌≡◌, ◌≢◌, refl, sym, ap, subst, ◌∙◌, Bool, not, ◌&&◌, Option, none,
  some, List, [], ◌∷◌, Text, text_eq, ◌==◌, arith, take, length, nat_beq, if◌then◌else◌,
  Option-cases, inl, inr,
}
use inplaceu.Api.{Pod, Inplaceu}
use inplaceu.Sets.{StringSet}
use inplaceu.Utils.Slowly.Batches.{calls, do_it_slowly-Outcome}
use inplaceu.Expectations.Scale.{ScaleAction, action_eq}
use inplaceu.Expectations.Scale.Valid.{IsValid}
use inplaceu.Expectations.Scale.Pending.{pending}
use inplaceu.Base.Int.{ℤ}
use inplaceu.Core.{new_versioned_pods}
use inplaceu.Utils.Pods.{get_controller_key}
use inplaceu.Sync.State.{Client}
use inplaceu.Sync.Deletes.{Ctl}
use inplaceu.Sync.Deletes.Awaited.{awaits, named}
use inplaceu.Sync.Creates.Expected.{
  member, expect_creations-awaits, expect_creations-world, failed-named, roll_back-awaits,
  roll_back-world, IsValidCtl, expect_creations-IsValidCtl, roll_back-IsValidCtl,
}
use inplaceu.Sync.Creates.{
  Creating, create_one_pod, create_next, after_create, expect_creations, roll_back, create_all,
  create_pods, create_if_made, finish_calls, initial_batch_size, receive,
}

module _ (sets : StringSet) (client : Client) where
  open client use {World, ApiError, create}

  -- A create call for each pod, in order: the cluster, and the names of those it accepted.
  abbrev note_name : Text → Option ApiError → List Text → List Text
  note_name x none names = x ∷ names
  note_name x (some e) names = names

  pub run_creates : List Pod → World × List Text → World × List Text
  run_creates [] r = r
  run_creates (p ∷ pods) (w, names) =
      let (w', err) = create p w in run_creates pods (w', note_name p.name err names)

  -- What the calls of `DoItSlowly` leave, from a state with `n` pods or more in the channel.
  record Called (n : ℕ) (c c' : Creating sets client) (successes : ℕ) : Type 0 where
    made :
        (c'.ctl.world, c'.success_pod_names)
        ≡ run_creates (take n c.queue) (c.ctl.world, c.success_pod_names)
    kept : c'.ctl.scale_expectations ≡ c.ctl.scale_expectations
    counted : c'.created ≡ c.created + successes
    collected : length c'.success_pod_names ≡ length c.success_pod_names + successes

  abbrev one_if_ok : Option ApiError → ℕ
  one_if_ok none = 1
  one_if_ok (some e) = 0

  -- One call, on the pod at the front of the channel.
  record Took (p : Pod) (queue : List Pod) (c : Creating sets client)
      (r : Creating sets client × Option ApiError) : Type 0 where
    left : r.0.queue ≡ queue
    world : r.0.ctl.world ≡ (create p c.ctl.world).0
    verdict : r.1 ≡ (create p c.ctl.world).1
    names : r.0.success_pod_names ≡ note_name p.name r.1 c.success_pod_names
    expectations : r.0.ctl.scale_expectations ≡ c.ctl.scale_expectations
    counted_one : r.0.created ≡ c.created + one_if_ok r.1

  create_one-Took :
      (c : Creating sets client) (p : Pod) (queue : List Pod)
      → Took p queue c (after_create sets client c p queue (create_one_pod sets client p c.ctl))
  unfolding create_one_pod
  create_one-Took c p queue = elim (Option-cases (create p c.ctl.world).1) [
    | inl ok ↦ ground (arith, ok)
    | inr (e, ko) ↦ ground (arith, ko)
  ]

  create_next-Took :
      (c : Creating sets client) (p : Pod) (queue : List Pod)
      → c.queue ≡ p ∷ queue
      → Took p queue c (create_next sets client c)
  unfolding create_next
  create_next-Took c p queue h =
      subst (λ q. Took p queue c (receive sets client q c)) (sym h) (create_one-Took c p queue)

  calls-Called :
      (n : ℕ) (c : Creating sets client) (queue : List Pod)
      → c.queue ≡ queue
      → n ≤ length queue
      → let (c', successes) = calls (create_next sets client) n c in Called n c c' successes
  unfolding calls run_creates
  calls-Called zero c queue h b = ground arith
  calls-Called (suc n) c [] h b = absurd (omega arith)
  calls-Called (suc n) c (p ∷ queue) h b =
      let (c₁, err) = create_next sets client c in
      let one = create_next-Took c p queue h in
      let rest = calls-Called n c₁ queue one.left (omega arith) in
      let named_now : c₁.success_pod_names
          ≡ note_name p.name (create p c.ctl.world).1 c.success_pod_names =
        one.names ∙ ap (λ v. note_name p.name v c.success_pod_names) one.verdict in
      record {
        made =
            rest.made
            ∙ subst
                (λ q.
                  run_creates (take n c₁.queue) (c₁.ctl.world, c₁.success_pod_names)
                  ≡ run_creates (take (suc n) q) (c.ctl.world, c.success_pod_names))
                (sym h) (λ i. run_creates (take n (one.left i)) (one.world i, named_now i));
        kept = rest.kept ∙ one.expectations;
        counted = ground (arith, rest.counted, one.counted_one);
        collected = ground (arith, rest.collected, one.names);
      }

  -- The results of `createPods` behind the making of the pods: of the first `n` pods `names` were
  -- accepted, and the others of those refused.
  pub record Created (key : Text) (pods : List Pod) (s : Ctl sets client)
      (r : Option (Ctl sets client × Bool × Option ApiError)) : Type 0 where
    pub s' : Ctl sets client
    pub err : Option ApiError
    pub n : ℕ
    pub names : List Text
    pub result : r ≡ some (s', not (nat_beq (length names) 0), err)
    pub fits : n ≤ length pods
    pub made : (s'.world, names) ≡ run_creates (take n pods) (s.world, [])
    pub no_error : err ≡ none → (n ≡ length pods) × (length names ≡ n)
    pub one_refused : err ≢ none → length names < n
    pub awaited :
        (k : Text) (a : ScaleAction) (x : Text)
        → awaits sets client k a x s' ≡ (
            if key == k && ScaleAction.create == a && named x pods
            then member x names
            else awaits sets client k a x s)
    pub kept_valid : IsValidCtl sets client s → IsValidCtl sets client s'

  create_all-Created :
      (key : Text) (pods : List Pod) (s : Ctl sets client)
      → Created key pods s (create_all sets client key pods s)
  unfolding create_all
  create_all-Created key pods s =
      let start : Creating sets client = record {
        ctl = expect_creations sets client key pods s;
        queue = pods;
        created = 0;
        success_pod_names = [];
      } in
      let (n, err, fits, eq, all, some_fail) =
        do_it_slowly-Outcome (create_next sets client) (length pods) initial_batch_size start
          (omega arith) in
      let c' = (calls (create_next sets client) n start).0 in
      let called = calls-Called n start pods refl fits in
      let names = c'.success_pod_names in
      record {
        s' = roll_back sets client key names pods c'.ctl;
        err = err;
        n = n;
        names = names;
        result =
            ap (finish_calls sets client key pods) eq
            ∙ ap some (ground (arith, called.counted, called.collected));
        fits = fits;
        made =
            ap (λ w. (w, names)) (roll_back-world sets client key names pods c'.ctl)
            ∙ called.made
            ∙ ap (λ w. run_creates (take n pods) (w, []))
                (expect_creations-world sets client key pods s);
        no_error = λ e. ground (arith, all e, called.collected);
        one_refused = λ e. omega (arith, some_fail e, called.collected);
        kept_valid = λ v. roll_back-IsValidCtl sets client key names pods c'.ctl (
            subst (IsValid sets) (sym called.kept)
              (expect_creations-IsValidCtl sets client key pods s v));
        awaited = λ k a x. ground (
          arith,
          roll_back-awaits sets client key names pods c'.ctl k a x,
          failed-named sets client x names pods,
          ap (pending sets k a x) called.kept,
          expect_creations-awaits sets client key pods s k a x,
        );
      }

  -- `createPods` always returns, unless the template gives no pod. It has asked the cluster to create
  -- the first `n` pods, in order; with no error these are all of them and all were accepted, with an
  -- error fewer than `n` were. It reports whether one was accepted. Of the pods it made it awaits
  -- exactly those that were accepted, under this controller; nothing else that is awaited changes.
  pub create_pods-Created :
      (from_template : Inplaceu → Option Pod) (num : ℤ) (iu : Inplaceu) (rev : Text)
      (ids : List Text) (pods : List Pod) (s : Ctl sets client)
      → new_versioned_pods from_template iu rev num ids ≡ some pods
      → Created
          (get_controller_key iu)
          pods
          s
          (create_pods sets client from_template num iu rev ids s)
  unfolding create_pods
  create_pods-Created from_template num iu rev ids pods s h =
      subst
        (λ m.
          Created (get_controller_key iu) pods s
            (create_if_made sets client (get_controller_key iu) m s))
        (sym h) (create_all-Created (get_controller_key iu) pods s)
