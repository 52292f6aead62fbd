-- ===== src/Sync/Scale/Deletions.antt =====
-- The deletions of `Scale` as one run of `deletePods`.
use inplaceu.Base.{
  ℕ, zero, suc, ◌≡◌, ◌≤◌, refl, sym, subst, ap, ◌∙◌, Bool, true, false, Option, none, some, List,
  [], ◌∷◌, count, arith,
}
use inplaceu.Base.Int.{ℤ, pos, ◌-ℤ◌, ltb_ℤ, pos_part, lt→ltb_ℤ}
use inplaceu.Api.{Pod, Inplaceu}
use inplaceu.Sets.{StringSet}
use inplaceu.Utils.Pods.{is_running, is_pod_available}
use inplaceu.Sync.Diffs.{ExpectationDiffs}
use inplaceu.Sync.State.{Client}
use inplaceu.Sync.Deletes.{Ctl, delete_pods, delete_from}
use inplaceu.Sync.Deletes.Awaited.{delete_pods-Deleted}
use inplaceu.Sync.Scale.{
  within_limit, Kube, Outcome, from_api, scale_in, after_specified, scale_deletions,
}
use inplaceu.Sync.Scale.Choice.{Within-bounds, within_limit-Within, choose-bounds}

minus_zero : (x : ℤ) → x -ℤ pos 0 ≡ x
unfolding ◌-ℤ◌
minus_zero x = ground arith

module _ (sets : StringSet) (client : Client) (kube : Kube) where
  -- A call is one run of `deletePods`, on few pods that serve.
  pub record OneRun (serves : Pod → Bool) (iu : Inplaceu) (limit : ℤ) (s : Ctl sets client)
      (r : Outcome sets client kube) : Type 0 where
    pub chosen : List Pod
    pub run : r ≡ from_api sets client kube (some (delete_pods sets client iu chosen s))
    pub few : count serves chosen ≤ pos_part limit

  scale_in-OneRun :
      (iu : Inplaceu) (n : ℕ) (limit : ℤ) (pods : List Pod) (s : Ctl sets client)
      → OneRun is_running iu limit s (scale_in sets client kube iu (pos n) limit pods s)
  unfolding scale_in ltb_ℤ
  scale_in-OneRun iu zero limit pods s = record {
    chosen = [];
    run = unfold delete_pods delete_from in refl;
    few = omega arith;
  }
  scale_in-OneRun iu (suc n) limit pods s =
      let (preparing, e, _) = choose-bounds kube.sort kube.ready (suc n) pods in
      record {
        chosen = (within_limit is_running limit preparing).0;
        run = rw (e, lt→ltb_ℤ (pos 0) (pos (suc n)) (omega arith));
        few =
            (Within-bounds is_running limit preparing _ _
              (within_limit-Within is_running limit preparing)).1;
      }

  -- The test of `IsPodAvailable` with the spec's minimum of ready seconds.
  abbrev pub serving : Inplaceu → Pod → Bool
  serving iu p = is_pod_available kube.available p iu.spec.min_ready_seconds

  running-serving :
      (iu : Inplaceu) (pods : List Pod) → count (serving iu) pods ≤ count is_running pods
  unfolding is_pod_available
  running-serving iu [] = omega arith
  running-serving iu (p ∷ pods) = ground (arith, running-serving iu pods)

  OneRun-serving :
      (iu : Inplaceu) (limit : ℤ) (s : Ctl sets client) (r : Outcome sets client kube)
      → OneRun is_running iu limit s r
      → OneRun (serving iu) iu limit s r
  OneRun-serving iu limit s r o = record {
    chosen = o.chosen;
    run = o.run;
    few = omega (arith, o.few, running-serving iu o.chosen);
  }

  -- A run of `deletePods` that deletes nothing and returns no error had nothing to delete.
  delete_pods-idle :
      (iu : Inplaceu) (pods : List Pod) (s s' : Ctl sets client)
      → delete_pods sets client iu pods s ≡ (s', false, none)
      → pods ≡ []
  delete_pods-idle iu [] s s' h = refl
  delete_pods-idle iu (p ∷ pods) s s' h =
      let (n, flag, d) = delete_pods-Deleted sets client iu (p ∷ pods) s in
      let (whole, _) = d.all_accepted (ap (λ r. r.2) h) in
      absurd (ground (arith, whole, sym flag ∙ ap (λ r. r.1) h))

  delete_pods-nil :
      (iu : Inplaceu) (s : Ctl sets client) → delete_pods sets client iu [] s ≡ (s, false, none)
  unfolding delete_pods delete_from
  delete_pods-nil iu s = refl

  module _ (iu : Inplaceu) (limit : ℤ) (n : ℕ) (updated_pods : List Pod) (s : Ctl sets client) where
    after-OneRun :
        (can_delete : List Pod) (left : ℤ)
        → count (serving iu) can_delete ≤ pos_part limit
        → (can_delete ≡ [] → left ≡ limit)
        → (r : Ctl sets client × Bool × Option client.ApiError)
        → delete_pods sets client iu can_delete s ≡ r
        → OneRun (serving iu) iu limit s (
            after_specified sets client kube r
              (scale_in sets client kube iu (pos n) left updated_pods))
    after-OneRun can left few same (s', modified, some e) h = record {
      chosen = can;
      run = sym (ap (λ t. from_api sets client kube (some t)) h);
      few = few;
    }
    after-OneRun can left few same (s', true, none) h = record {
      chosen = can;
      run = sym (ap (λ t. from_api sets client kube (some t)) h);
      few = few;
    }
    after-OneRun can left few same (s', false, none) h =
        let nothing : can ≡ [] = delete_pods-idle iu can s s' h in
        let unmoved : s ≡ s' =
          ap (λ t. t.0)
            (sym (delete_pods-nil iu s)
              ∙ ap (λ ps. delete_pods sets client iu ps s) (sym nothing)
              ∙ h) in
        subst
          (λ t.
            OneRun (serving iu) iu limit s
              (scale_in sets client kube iu (pos n) left updated_pods t))
          unmoved
          (subst
            (λ l.
              OneRun (serving iu) iu limit s
                (scale_in sets client kube iu (pos n) l updated_pods s))
            (sym (same nothing))
            (OneRun-serving iu limit s _ (scale_in-OneRun iu n limit updated_pods s)))

  -- With a number to scale down by that is not negative, the deletions of `Scale` do not panic, and
  -- whatever the cluster answers they are one run of `deletePods`, on pods of which no more are
  -- available than the limit on deleting such pods.
  pub scale_deletions-OneRun :
      (iu : Inplaceu) (d : ExpectationDiffs) (n : ℕ) (specified updated_pods : List Pod)
      (s : Ctl sets client)
      → d.scale_down_num ≡ pos n
      → OneRun
          (serving iu)
          iu
          d.delete_ready_limit
          s
          (scale_deletions sets client kube iu d specified updated_pods s)
  unfolding scale_deletions
  scale_deletions-OneRun iu d n [] updated_pods s h = rw h (
      OneRun-serving iu d.delete_ready_limit s _
        (scale_in-OneRun iu n d.delete_ready_limit updated_pods s))
  scale_deletions-OneRun iu d n (p ∷ specified) updated_pods s h =
      let w = within_limit-Within (serving iu) d.delete_ready_limit (p ∷ specified) in
      let (can, left) = within_limit (serving iu) d.delete_ready_limit (p ∷ specified) in
      rw h (
        after-OneRun iu d.delete_ready_limit n updated_pods s can left
          (Within-bounds (serving iu) d.delete_ready_limit (p ∷ specified) can left w).1
          (λ e.
            w.spent
            ∙ ap (λ c. d.delete_ready_limit -ℤ pos (count (serving iu) c)) e
            ∙ minus_zero d.delete_ready_limit)
          _ refl)
