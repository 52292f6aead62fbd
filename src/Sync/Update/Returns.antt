-- ===== src/Sync/Update/Returns.antt =====
-- `Update` against the choice of the pods that it may update.
use inplaceu.Base.{
  ℕ, ◌≡◌, ◌≤◌, ◌<◌, refl, sym, ap, ◌∙◌, Bool, Option, none, some, List, [], ◌∷◌, Text, length, take,
  get_elem?, true, false, All, All-take, arith, Bool-cases, Option-cases, inl, inr,
}
use inplaceu.Base.Int.{ℤ, pos, pos_part, ltb_ℤ, eqb_ℤ, eqb_ℤ_iff}
use inplaceu.Api.{Pod, Inplaceu, IntOrString, RollingUpdate, ControllerRevision}
use inplaceu.Sets.{StringSet}
use inplaceu.Utils.Pods.{get_controller_key}
use inplaceu.Sync.Diffs.{ExpectationDiffs, calculate_diffs_with_expectation}
use inplaceu.Sync.Diffs.Targets.{calculate_diffs-update_num}
use inplaceu.Sync.Limit.{limit_update_indexes, unavailable_count, target_unavailable_count}
use inplaceu.Sync.Limit.Safety.{Chosen, limit_update_indexes-Chosen, get_elem?-lt}
use inplaceu.Requeue.{push}
use inplaceu.Sync.Waiting.{wait_update_indexes}
use inplaceu.Sync.State.{Client, Error}
use inplaceu.Sync.Deletes.{Ctl}
use inplaceu.Sync.Update.{InPlace, update_pod, note_duration, update_from, update_by, update}

module _ (sets : StringSet) (client : Client) (in_place : InPlace client) where
  open client use {ApiError}

  -- The duration that the update of a pod returned is pushed under the key, if it is positive.
  pub data Noted (key : Text) (duration : ℤ) (s : Ctl sets client) : Ctl sets client → Type 0 where
    pushed :
        ltb_ℤ (pos 0) duration ≡ true
        → Noted key duration s (record s { duration_store = push key duration s.duration_store })
    left : ltb_ℤ (pos 0) duration ≡ false → Noted key duration s s

  -- The updates of the pods at the indexes, in order: each is made in the state that those before it
  -- left, the first error ends them and is returned, and with no error all of them are made.
  pub data Run (key : Text) (rev : ControllerRevision) (revisions : List ControllerRevision)
      (pods : List Pod)
      : List ℕ → Ctl sets client → Ctl sets client × Option (Error ApiError) → Type 0 where
    finished : (s : Ctl sets client) → Run key rev revisions pods [] s (s, none)
    failed :
        (i : ℕ) (is : List ℕ) (pod : Pod) (s s₁ s₂ : Ctl sets client) (duration : ℤ)
        (e : Error ApiError)
        → get_elem? pods i ≡ some pod
        → update_pod sets client in_place rev revisions pod s ≡ (s₁, duration, some e)
        → Noted key duration s₁ s₂
        → Run key rev revisions pods (i ∷ is) s (s₂, some e)
    went_on :
        (i : ℕ) (is : List ℕ) (pod : Pod) (s s₁ s₂ : Ctl sets client) (duration : ℤ)
        (r : Ctl sets client × Option (Error ApiError))
        → get_elem? pods i ≡ some pod
        → update_pod sets client in_place rev revisions pod s ≡ (s₁, duration, none)
        → Noted key duration s₁ s₂
        → Run key rev revisions pods is s₂ r
        → Run key rev revisions pods (i ∷ is) s r

  note_duration-Noted :
      (key : Text) (duration : ℤ) (s : Ctl sets client)
      → Noted key duration s (note_duration sets client in_place key duration s)
  note_duration-Noted key duration s = elim (Bool-cases (ltb_ℤ (pos 0) duration)) [
    | inl h ↦ rw h (pushed h)
    | inr h ↦ rw h (left h)
  ]

  update_from-Run :
      (key : Text) (rev : ControllerRevision) (revisions : List ControllerRevision)
      (pods : List Pod) (indexes : List ℕ) (s : Ctl sets client)
      → All (λ i. i < length pods) indexes
      → (r : Ctl sets client × Option (Error ApiError)) × (update_from sets client in_place key rev
            revisions pods indexes s
          ≡ some r)
        × Run key rev revisions pods indexes s r
  unfolding update_from
  update_from-Run key rev revisions pods [] s h = ((s, none), refl, finished s)
  update_from-Run key rev revisions pods (i ∷ is) s (lt, h) =
      let (pod, e) = get_elem?-lt pods i lt in
      let (s₁, duration, err) = update_pod sets client in_place rev revisions pod s in
      let s₂ = note_duration sets client in_place key duration s₁ in
      let noted = note_duration-Noted key duration s₁ in
      let (r, eq, run) = update_from-Run key rev revisions pods is s₂ h in
      elim (Option-cases err) [
        | inl ok ↦ (
          r,
          rw (e, update_from, ok) eq,
          went_on i is pod s s₁ s₂ duration r e (ap (λ o. (s₁, duration, o)) ok) noted run,
        )
        | inr (x, ko) ↦ (
          (s₂, some x),
          rw (e, update_from, ko) refl,
          failed i is pod s s₁ s₂ duration x e (ap (λ o. (s₁, duration, o)) ko) noted,
        )
      ]

  module _ (resolve : IntOrString → ℤ → Bool → ℤ) (sort_slice : List Pod → List ℕ → List ℕ)
      (iu : Inplaceu) (rev : ControllerRevision) (revisions : List ControllerRevision)
      (pods : List Pod) (s : Ctl sets client) where
    abbrev pub sorted : List ℕ
    sorted = sort_slice pods (wait_update_indexes rev.name pods)

    -- A call returns, and updates in order the first `k` waiting pods, which the limits allow, up to
    -- the first error.
    pub record Updated (d : ExpectationDiffs) : Type 0 where
      pub m : ℕ
      pub k : ℕ
      pub number : d.update_num ≡ pos m
      pub fits : k ≤ m
      pub chosen :
          Chosen d.update_max_unavailable pods
            (unavailable_count pods)
            (target_unavailable_count rev.name pods)
            k
            (take m sorted)
      pub result : Ctl sets client × Option (Error ApiError)
      pub runs : Run (get_controller_key iu) rev revisions pods (take k sorted) s result
      pub returned :
          update sets client in_place resolve sort_slice iu rev revisions pods s ≡ some result

    update_by-limited :
        (m k : ℕ) (d : ExpectationDiffs)
        → d.update_num ≡ pos m
        → k ≤ m
        → limit_update_indexes d sorted pods rev.name ≡ some (take k sorted)
        → update_by sets client in_place resolve sort_slice iu rev revisions pods (some d) s
          ≡ update_from sets client in_place
              (get_controller_key iu)
              rev
              revisions
              pods
              (take k sorted)
              s
    unfolding update_from
    update_by-limited m k d h b e = elim (Bool-cases (eqb_ℤ d.update_num (pos 0))) [
      | inl z ↦
          let zero_m : m ≡ 0 = ap pos_part (sym h ∙ (eqb_ℤ_iff d.update_num (pos 0)).0 z) in
          let zero_k : k ≡ 0 = omega (arith, zero_m) in rw (z, zero_k) refl
      | inr z ↦ rw (z, e) refl
    ]

    -- With the replicas and the rolling update set, and a sort that keeps the indexes in range,
    -- `Update` does not panic. It calls `updatePod` in order for the first `k` of the waiting pods, no
    -- more than `updateNum` and as many as `limitUpdateIndexes` may let through; the first error ends
    -- it and is returned, and positive durations are noted under the set's key.
    pub update-Updated :
        (d : ExpectationDiffs) (replicas : ℤ) (rolling : RollingUpdate)
        → iu.spec.replicas ≡ some replicas
        → iu.spec.rolling_update ≡ some rolling
        → calculate_diffs_with_expectation resolve iu pods rev.name ≡ some d
        → All (λ i. i < length pods) sorted
        → Updated d
    unfolding update
    update-Updated d replicas rolling h g computed in_range =
        let (m, number) =
          calculate_diffs-update_num resolve iu pods rev.name d replicas rolling h g computed in
        let (k, limited, fits, chosen) =
          limit_update_indexes-Chosen d m sorted pods rev.name number in_range in
        let (r, eq, run) =
          update_from-Run (get_controller_key iu) rev revisions pods (take k sorted) s
            (All-take (λ i. i < length pods) k sorted in_range) in
        record {
          m = m;
          k = k;
          number = number;
          fits = fits;
          chosen = chosen;
          result = r;
          runs = run;
          returned = rw computed (update_by-limited m k d number fits limited ∙ eq);
        }
