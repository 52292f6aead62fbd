-- ===== src/Sync/Diffs/Targets.antt =====
-- `calculateDiffsWithExpectation` on the pods: the numbers lead to what the spec asks.
use inplaceu.Base.{
  ℕ, ◌-◌, ◌≡◌, subst, ◌⊎◌, inl, inr, Bool, List, Text, length, count, arith, Option, none, some,
  count-split,
}
use inplaceu.Base.Int.{ltb_ℤ, ℤ, pos, ◌+ℤ◌, ◌-ℤ◌, ◌≤ℤ◌, ◌<ℤ◌, le→ltb_ℤ}
use inplaceu.Api.{Inplaceu, Pod, IntOrString, RollingUpdate}
use inplaceu.Utils.Pods.{is_specified_delete}
use inplaceu.Sync.Diffs.{
  Counts, no_counts, surge, scale_nums, limits, diffs_of_counts, diffs_of_spec, ExpectationDiffs,
  calculate_diffs_with_expectation,
}
use inplaceu.Sync.Diffs.Counting.{is_new, is_unavailable, counts_from, count_pods-count}
use inplaceu.Sync.Diffs.Bounds.{
  to_delete, scale_nums_bounds, surge_bounds, ready_limit_bounds, int_tests,
}

-- The pods, those specified to delete, and those that are neither that nor running.
abbrev pub total : List Pod → ℤ
total pods = pos (length pods)

abbrev pub doomed : List Pod → ℤ
doomed pods = pos (count is_specified_delete pods)

abbrev pub unavailable : List Pod → ℤ
unavailable pods = pos (count is_unavailable pods)

to_delete-count :
    (rev : Text) (pods : List Pod) → to_delete (counts_from rev pods no_counts) ≡ doomed pods
to_delete-count rev pods = omega (int_tests, count-split (is_new rev) is_specified_delete pods)

unavailable-count :
    (rev : Text) (pods : List Pod)
    → let c = counts_from rev pods no_counts in
      pos c.unavailable_old +ℤ pos c.unavailable_new ≡ unavailable pods
unavailable-count rev pods = omega (int_tests, count-split (is_new rev) is_unavailable pods)

-- What the two scaling numbers lead to: no number is negative; creating `scale_up_num` pods reaches
-- the replicas with the surge, and so does deleting `scale_down_num` pods behind those specified to
-- delete; where neither is asked for, there are pods for the replicas with the surge, and at most
-- those specified to delete above them.
pub record Reaches (total doomed replicas : ℤ) (d : ExpectationDiffs) : Type 0 where
  pub up_nonneg : pos 0 ≤ℤ d.scale_up_num
  pub down_nonneg : pos 0 ≤ℤ d.scale_down_num
  pub surge_nonneg : pos 0 ≤ℤ d.use_surge
  pub up_reaches :
      pos 0 <ℤ d.scale_up_num
      → (total +ℤ d.scale_up_num ≡ replicas +ℤ d.use_surge) × (d.scale_down_num ≡ pos 0)
  pub down_reaches :
      pos 0 <ℤ d.scale_down_num → total -ℤ doomed -ℤ d.scale_down_num ≡ replicas +ℤ d.use_surge
  pub at_rest :
      d.scale_up_num ≤ℤ pos 0
      → d.scale_down_num ≤ℤ pos 0
      → (replicas +ℤ d.use_surge ≤ℤ total) × (total ≤ℤ replicas +ℤ d.use_surge +ℤ doomed)

module _ (replicas max_surge max_unavailable current : ℤ) (c : Counts) where
  abbrev of_counts : ExpectationDiffs
  of_counts = diffs_of_counts replicas max_surge max_unavailable current c

  of_counts-Reaches : Reaches current (to_delete c) replicas of_counts
  unfolding diffs_of_counts
  of_counts-Reaches =
      let use_surge = surge max_surge c in
      let nums = scale_nums_bounds (replicas +ℤ use_surge) current c in
      record {
        up_nonneg = nums.0;
        down_nonneg = nums.1;
        surge_nonneg = (surge_bounds max_surge c).0;
        up_reaches = nums.2;
        down_reaches = nums.3;
        at_rest = nums.4;
      }

  of_counts-update_num : (m : ℕ) × (of_counts.update_num ≡ pos m)
  unfolding diffs_of_counts ltb_ℤ ◌-ℤ◌
  of_counts-update_num = (c.old_revision - c.to_delete_old, ground arith)

  of_counts-surge :
      ((of_counts.use_surge ≡ pos 0) ⊎ (of_counts.use_surge ≤ℤ max_surge))
      × (max_surge ≤ℤ pos 0 → of_counts.use_surge ≡ pos 0)
  unfolding diffs_of_counts surge
  of_counts-surge = ((surge_bounds max_surge c).1, λ h. rw (le→ltb_ℤ (pos 0) max_surge h))

  of_counts-ready_limit :
      (pos 0 ≤ℤ of_counts.delete_ready_limit)
      × ((of_counts.delete_ready_limit ≡ pos 0)
          ⊎ (current
                -ℤ (pos c.unavailable_old +ℤ pos c.unavailable_new)
                -ℤ of_counts.delete_ready_limit
              ≡ replicas -ℤ max_unavailable))
  unfolding diffs_of_counts
  of_counts-ready_limit =
      let limit =
        ready_limit_bounds max_unavailable current replicas
          (scale_nums (replicas +ℤ surge max_surge c) current c).1 c in
      (limit.0, elim limit.1 [ inl z ↦ inl z | inr e ↦ inr (rw e (omega int_tests)) ])

module _ (resolve : IntOrString → ℤ → Bool → ℤ) where
  -- The numbers are those of the counts, if both pointers are set.
  calculate-counts :
      (replicas' : Option ℤ) (rolling' : Option RollingUpdate) (pods : List Pod) (rev : Text)
      (d : ExpectationDiffs) (replicas : ℤ) (rolling : RollingUpdate)
      → replicas' ≡ some replicas
      → rolling' ≡ some rolling
      → diffs_of_spec resolve replicas' rolling' pods rev ≡ some d
      → diffs_of_counts replicas
          (limits resolve rolling replicas).0
          (limits resolve rolling replicas).1
          (total pods)
          (counts_from rev pods no_counts)
        ≡ d
  calculate-counts none rolling' pods rev d replicas rolling h g e = cc
  calculate-counts (some r) none pods rev d replicas rolling h g e = cc
  calculate-counts (some r) (some l) pods rev d replicas rolling h g e =
      ground (arith, count_pods-count rev pods no_counts)

  module _ (iu : Inplaceu) (pods : List Pod) (rev : Text) (d : ExpectationDiffs) (replicas : ℤ)
      (rolling : RollingUpdate) (has_replicas : iu.spec.replicas ≡ some replicas)
      (has_rolling : iu.spec.rolling_update ≡ some rolling)
      (computed : calculate_diffs_with_expectation resolve iu pods rev ≡ some d) where
    same :
        diffs_of_counts replicas
          (limits resolve rolling replicas).0
          (limits resolve rolling replicas).1
          (total pods)
          (counts_from rev pods no_counts)
        ≡ d
    unfolding calculate_diffs_with_expectation
    same =
        calculate-counts iu.spec.replicas iu.spec.rolling_update pods rev d replicas rolling
          has_replicas has_rolling computed

    -- With the replicas and the rolling update set, neither number nor the surge is negative; creating
    -- `scaleUpNum` pods, if that is positive, reaches the replicas with the surge, and so does deleting
    -- `scaleDownNum` pods behind those specified to delete, and only one of the two is asked for; where neither is, the pods are no
    -- fewer than the replicas with the surge, and above them are at most those specified to delete.
    pub calculate_diffs-Reaches : Reaches (total pods) (doomed pods) replicas d
    calculate_diffs-Reaches = subst (Reaches (total pods) (doomed pods) replicas) same (
        rw (← to_delete-count rev pods)
          (of_counts-Reaches replicas _ _ (total pods) (counts_from rev pods no_counts)))

    -- With the replicas and the rolling update set, the surge is 0 or within `maxSurge`, and is 0 where
    -- `maxSurge` is not positive.
    pub calculate_diffs-surge :
        let max_surge = (limits resolve rolling replicas).0 in
        ((d.use_surge ≡ pos 0) ⊎ (d.use_surge ≤ℤ max_surge))
        × (max_surge ≤ℤ pos 0 → d.use_surge ≡ pos 0)
    calculate_diffs-surge =
        let max_surge = (limits resolve rolling replicas).0 in
        subst
          (λ t.
            ((t.use_surge ≡ pos 0) ⊎ (t.use_surge ≤ℤ max_surge))
            × (max_surge ≤ℤ pos 0 → t.use_surge ≡ pos 0))
          same (of_counts-surge replicas _ _ (total pods) (counts_from rev pods no_counts))

    -- With the replicas and the rolling update set, the limit on deleting running pods is not negative;
    -- it is 0, or leaves exactly the replicas less `maxUnavailable` of the pods that are not counted as
    -- unavailable, which are those that run and those specified to delete.
    pub calculate_diffs-ready_limit :
        let max_unavailable = (limits resolve rolling replicas).1 in
        (pos 0 ≤ℤ d.delete_ready_limit)
        × ((d.delete_ready_limit ≡ pos 0)
            ⊎ (total pods -ℤ unavailable pods -ℤ d.delete_ready_limit
                ≡ replicas -ℤ max_unavailable))
    calculate_diffs-ready_limit =
        let max_unavailable = (limits resolve rolling replicas).1 in
        subst
          (λ t.
            (pos 0 ≤ℤ t.delete_ready_limit)
            × ((t.delete_ready_limit ≡ pos 0)
                ⊎ (total pods -ℤ unavailable pods -ℤ t.delete_ready_limit
                    ≡ replicas -ℤ max_unavailable)))
          same
          (rw (← unavailable-count rev pods) (
            of_counts-ready_limit replicas _ max_unavailable (total pods)
              (counts_from rev pods no_counts)))

    -- The number of pods to update is not negative.
    pub calculate_diffs-update_num : (m : ℕ) × (d.update_num ≡ pos m)
    calculate_diffs-update_num =
        subst (λ t. (m : ℕ) × (t.update_num ≡ pos m)) same
          (of_counts-update_num replicas _ _ (total pods) (counts_from rev pods no_counts))
