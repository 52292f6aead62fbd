-- ===== src/Sync/Deletes/Awaited.antt =====
-- After `deletePods` the controller awaits exactly the deletions that the cluster accepted.
use inplaceu.Base.{
  ℕ, suc, ◌≤◌, ◌≡◌, refl, inl, inr, Bool, true, false, not, ◌&&◌, ◌||◌, Option, none, some, List,
  [], ◌∷◌, sym, ap, subst, ◌∙◌, Text, text_eq, ◌==◌, arith, any, take, length, ltb, get_elem?,
  Option-cases,
}
use inplaceu.Api.{Pod, Inplaceu}
use inplaceu.Sets.{StringSet}
use inplaceu.Utils.Pods.{get_controller_key}
use inplaceu.Expectations.Scale.{ScaleAction, action_eq}
use inplaceu.Expectations.Scale.Pending.{pending, pending-expect_scale, pending-observe_scale}
use inplaceu.Sync.State.{Client}
use inplaceu.Sync.Deletes.{Ctl, expect, delete_one, delete_from, delete_pods}

-- Whether a name is that of a pod of the list.
abbrev pub named : Text → List Pod → Bool
named x = any (λ p. p.name == x)

module _ (sets : StringSet) (client : Client) where
  open client use {World, ApiError, delete}

  -- What is awaited in a state.
  abbrev pub awaits : Text → ScaleAction → Text → Ctl sets client → Bool
  awaits k a x s = pending sets k a x s.scale_expectations

  delete_one-awaits :
      (key : Text) (pod : Pod) (s : Ctl sets client) (k : Text) (a : ScaleAction) (x : Text)
      → let (s', err) = delete_one sets client key pod s in
        let this = key == k && ScaleAction.delete == a && pod.name == x in
        (err ≡ none → awaits k a x s' ≡ (this || awaits k a x s))
        × ((e : ApiError) → err ≡ some e → awaits k a x s' ≡ (not this && awaits k a x s))
  unfolding delete_one
  delete_one-awaits key pod s k a x = ground (
    arith,
    pending-expect_scale sets key k ScaleAction.delete a pod.name x s.scale_expectations,
    pending-observe_scale sets key k ScaleAction.delete a pod.name x
        (expect sets client key ScaleAction.delete pod.name s).scale_expectations,
  )

  delete_one-world :
      (key : Text) (pod : Pod) (s : Ctl sets client)
      → (delete_one sets client key pod s).0.world ≡ (delete pod s.world).0
  unfolding delete_one
  delete_one-world key pod s = ground arith

  delete_one-err :
      (key : Text) (pod : Pod) (s : Ctl sets client)
      → (delete_one sets client key pod s).1 ≡ (delete pod s.world).1
  unfolding delete_one
  delete_one-err key pod s = elim (Option-cases (delete pod s.world).1) [
    | inl h ↦ rw (h, delete_one) refl
    | inr (e, h) ↦ rw (h, delete_one) refl
  ]

  -- The cluster after a delete call for each pod.
  pub run_deletes : List Pod → World → World
  run_deletes [] w = w
  run_deletes (pod ∷ pods) w = run_deletes pods (delete pod w).0

  -- The cluster accepts the delete calls for the pods, one after the other.
  abbrev pub Accepted : List Pod → World → Type 0
  Accepted [] w = Unit
  Accepted (pod ∷ pods) w = ((delete pod w).1 ≡ none) × Accepted pods (delete pod w).0

  -- A run that made `n` accepted calls and then stopped, by the end of the list or by the error that
  -- the next call returned.
  pub record Deleted (key : Text) (pods : List Pod) (s s' : Ctl sets client) (err : Option ApiError)
      (n : ℕ) : Type 0 where
    pub fits : n ≤ length pods
    pub called : s'.world ≡ run_deletes (take (suc n) pods) s.world
    pub accepted : Accepted (take n pods) s.world
    pub all_accepted :
        err ≡ none
        → (n ≡ length pods)
          × ((k : Text) (a : ScaleAction) (x : Text)
              → awaits k a x s'
                ≡ ((key == k && ScaleAction.delete == a && named x pods) || awaits k a x s))
    pub one_refused :
        (e : ApiError)
        → err ≡ some e
        → (p : Pod) × (get_elem? pods n ≡ some p)
          × ((delete p (run_deletes (take n pods) s.world)).1 ≡ some e)
          × ((k : Text) (a : ScaleAction) (x : Text)
              → awaits k a x s' ≡ (
                  not (key == k && ScaleAction.delete == a && p.name == x)
                  && ((key == k && ScaleAction.delete == a && named x (take n pods))
                      || awaits k a x s)))

  module _ (key : Text) (pod : Pod) (pods : List Pod) (s s₁ : Ctl sets client) where
    awaits_refused :
        (e : ApiError)
        → delete_one sets client key pod s ≡ (s₁, some e)
        → (k : Text) (a : ScaleAction) (x : Text)
        → awaits k a x s₁
          ≡ (not (key == k && ScaleAction.delete == a && pod.name == x) && awaits k a x s)
    awaits_refused e h k a x =
        sym (ap (λ r. awaits k a x r.0) h)
        ∙ (delete_one-awaits key pod s k a x).1 e (ap (λ r. r.1) h)

    awaits_accepted :
        delete_one sets client key pod s ≡ (s₁, none)
        → (k : Text) (a : ScaleAction) (x : Text)
        → awaits k a x s₁
          ≡ ((key == k && ScaleAction.delete == a && pod.name == x) || awaits k a x s)
    awaits_accepted h k a x =
        sym (ap (λ r. awaits k a x r.0) h) ∙ (delete_one-awaits key pod s k a x).0 (ap (λ r. r.1) h)

    world_lem :
        (err : Option ApiError)
        → delete_one sets client key pod s ≡ (s₁, err)
        → s₁.world ≡ (delete pod s.world).0
    world_lem err h = sym (ap (λ r. r.0.world) h) ∙ delete_one-world key pod s

    refused_first :
        (e : ApiError)
        → delete_one sets client key pod s ≡ (s₁, some e)
        → Deleted key (pod ∷ pods) s s₁ (some e) 0
    unfolding run_deletes
    refused_first e h = record {
      fits = omega arith;
      called = world_lem (some e) h;
      accepted = tt;
      all_accepted = λ g. cc;
      one_refused = λ e' g. (
        pod,
        refl,
        sym (delete_one-err key pod s) ∙ ap (λ r. r.1) h ∙ g,
        λ k a x. ground (arith, awaits_refused e h k a x),
      );
    }

    accepted_first :
        (s' : Ctl sets client) (err : Option ApiError) (n : ℕ)
        → delete_one sets client key pod s ≡ (s₁, none)
        → Deleted key pods s₁ s' err n
        → Deleted key (pod ∷ pods) s s' err (suc n)
    unfolding run_deletes
    accepted_first s' err n h d = record {
      fits = omega (arith, d.fits);
      called = d.called ∙ ap (run_deletes (take (suc n) pods)) (world_lem none h);
      accepted = (
        sym (delete_one-err key pod s) ∙ ap (λ r. r.1) h,
        subst (Accepted (take n pods)) (world_lem none h) d.accepted,
      );
      all_accepted = λ g.
          let (whole, same) = d.all_accepted g in
          (omega arith, λ k a x. ground (arith, same k a x, awaits_accepted h k a x));
      one_refused = λ e g.
          let (p, at_n, refusal, same) = d.one_refused e g in
          (
            p,
            at_n,
            ap (λ w. (delete p (run_deletes (take n pods) w)).1) (sym (world_lem none h)) ∙ refusal,
            λ k a x. ground (arith, same k a x, awaits_accepted h k a x),
          );
    }

  -- The results of the loop, `modified` before it.
  abbrev Run :
      Text → List Pod → Bool → Ctl sets client → Ctl sets client × Bool × Option ApiError → Type 0
  Run key pods modified s r = (n : ℕ) × (r.1 ≡ (modified || ltb 0 n)) × Deleted key pods s r.0 r.2 n

  module _ (key : Text) (pod : Pod) (pods : List Pod) (modified : Bool) (s : Ctl sets client) where
    abbrev first : Ctl sets client × Option ApiError
    first = delete_one sets client key pod s

    delete_from-refused :
        (e : ApiError)
        → first.1 ≡ some e
        → delete_from sets client key (pod ∷ pods) modified s ≡ (first.0, modified, some e)
    unfolding delete_from
    delete_from-refused e h = rw (h, delete_from)

    delete_from-accepted :
        first.1 ≡ none
        → delete_from sets client key (pod ∷ pods) modified s
          ≡ delete_from sets client key pods true first.0
    unfolding delete_from
    delete_from-accepted h = rw (h, delete_from)

  delete_from-Run :
      (key : Text) (pods : List Pod) (modified : Bool) (s : Ctl sets client)
      → Run key pods modified s (delete_from sets client key pods modified s)
  delete_from-Run key [] modified s =
      unfold delete_from run_deletes in (0, ground arith, ground arith)
  delete_from-Run key (pod ∷ pods) modified s =
      let s₁ = (delete_one sets client key pod s).0 in
      let (n, flag, d) = delete_from-Run key pods true s₁ in
      elim (Option-cases (delete_one sets client key pod s).1) [
        | inr (e, h) ↦
            subst (Run key (pod ∷ pods) modified s)
              (sym (delete_from-refused key pod pods modified s e h))
              (0, ground arith, refused_first key pod pods s s₁ e (ap (λ t. (s₁, t)) h))
        | inl h ↦
            subst (Run key (pod ∷ pods) modified s)
              (sym (delete_from-accepted key pod pods modified s h))
              (
                suc n,
                flag ∙ ground arith,
                accepted_first key pod pods s s₁ _ _ n (ap (λ t. (s₁, t)) h) d,
              )
      ]

  -- `deletePods` makes delete calls in order until the cluster refuses one, whose error it returns, and
  -- reports whether one was accepted. With no error the cluster accepted the call for every pod of the
  -- list, and this controller awaits their deletions; with an error it accepted those before the
  -- refused pod, and this controller awaits their deletions and not the refused pod's name. Nothing
  -- else that is awaited changes.
  pub delete_pods-Deleted :
      (iu : Inplaceu) (pods : List Pod) (s : Ctl sets client)
      → let (s', modified, err) = delete_pods sets client iu pods s in
        (n : ℕ) × (modified ≡ ltb 0 n) × Deleted (get_controller_key iu) pods s s' err n
  unfolding delete_pods
  delete_pods-Deleted iu pods s = delete_from-Run (get_controller_key iu) pods false s
