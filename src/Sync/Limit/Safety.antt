-- ===== src/Sync/Limit/Safety.antt =====
-- The pods chosen for an update keep the unavailable pods within the limit, and are as many as it
-- allows.
use native.Mathlib.Nat.{add-zero, zero-add}
use inplaceu.Base.{
  ℕ, suc, ◌+◌, ◌≡◌, refl, ap, ◌∙◌, ◌≤◌, ◌<◌, ◌⊎◌, inl, inr, Bool, true, false, ◌&&◌, Option, none,
  some, List, [], ◌∷◌, Text, length, count, take, get_elem?, ltb, if◌then◌else◌, arith, All,
  take_all, take-take, All-take, length-take, Bool-cases,
}
use inplaceu.Base.Int.{ℤ, pos, ltb_ℤ, ◌≤ℤ◌, ◌<ℤ◌, ltb_ℤ→lt, ltb_ℤ→le}
use inplaceu.Api.{Pod}
use inplaceu.Utils.Pods.{is_running}
use inplaceu.Sync.Diffs.{ExpectationDiffs}
use inplaceu.Sync.Limit.{
  can_update_from, limit_update_indexes, unavailable_count, target_unavailable_count, ge_ℤ,
  limit_waiting, limit_to_count,
}

-- Whether the pod at an index runs.
abbrev pub runs : Option Pod → Bool
runs none = false
runs (some p) = is_running p

abbrev pub running_at : List Pod → ℕ → Bool
running_at pods i = runs (get_elem? pods i)

-- How many of the first `k` waiting pods run, and so become unavailable by an update.
abbrev pub stopped : List Pod → ℕ → List ℕ → ℕ
stopped pods k waiting = count (running_at pods) (take k waiting)

abbrev pub next_runs : List Pod → ℕ → List ℕ → Bool
next_runs pods k [] = false
next_runs pods ℕ.zero (i ∷ is) = running_at pods i
next_runs pods (suc k) (i ∷ is) = next_runs pods k is

-- What the choice of the first `k` waiting pods respects, and why it stops there.
pub record Chosen (max : ℤ) (pods : List Pod) (unavailable target k : ℕ) (waiting : List ℕ)
    : Type 0 where
  pub fits : k ≤ length waiting
  pub target_bound : (k ≡ 0) ⊎ (pos (target + k) ≤ℤ max)
  pub total_bound :
      (stopped pods k waiting ≡ 0) ⊎ (pos (unavailable + stopped pods k waiting) ≤ℤ max)
  pub stops :
      (k ≡ length waiting)
      ⊎ (max ≤ℤ pos (target + k))
      ⊎ ((next_runs pods k waiting ≡ true) × (max ≤ℤ pos (unavailable + stopped pods k waiting)))

pub get_elem?-lt {ℓ} :
    {A : Type ℓ} (xs : List A) (i : ℕ) → i < length xs → (x : A) × (get_elem? xs i ≡ some x)
get_elem?-lt [] i h = absurd (omega arith)
get_elem?-lt (x ∷ xs) ℕ.zero h = (x, refl)
get_elem?-lt (x ∷ xs) (suc i) h = get_elem?-lt xs i (omega arith)

-- One round of the loop: it stops at once, or goes on with the pod's availability lost.
module _ (max : ℤ) (pods : List Pod) (u t can i : ℕ) (is : List ℕ) (p : Pod)
    (e : get_elem? pods i ≡ some p) where
  stop_Chosen :
      (max ≤ℤ pos (t + can)) ⊎ ((is_running p ≡ true) × (max ≤ℤ pos u))
      → Chosen max pods u (t + can) 0 (i ∷ is)
  stop_Chosen (inl full) = record {
    fits = omega arith;
    target_bound = inl refl;
    total_bound = inl refl;
    stops = inr (inl (omega arith));
  }
  stop_Chosen (inr (runs_now, full)) = record {
    fits = omega arith;
    target_bound = inl refl;
    total_bound = inl refl;
    stops = inr (inr (rw e runs_now, omega arith));
  }

  next_Chosen :
      (k : ℕ)
      → pos (t + can) <ℤ max
      → (is_running p ≡ false) ⊎ (pos u <ℤ max)
      → Chosen max pods (if is_running p then suc u else u) (t + suc can) k is
      → Chosen max pods u (t + can) (suc k) (i ∷ is)
  next_Chosen k room free c = record {
    fits = omega (arith, c.fits);
    target_bound = inr (ground (arith, c.target_bound));
    total_bound = ground (arith, e, c.total_bound);
    stops = ground (arith, e, c.stops);
  }

can_update_from-Chosen :
    (max : ℤ) (pods : List Pod) (unavailable target can : ℕ) (waiting : List ℕ)
    → All (λ i. i < length pods) waiting
    → (k : ℕ) × (can_update_from max pods unavailable target can waiting ≡ some (can + k))
      × Chosen max pods unavailable (target + can) k waiting
unfolding can_update_from
can_update_from-Chosen max pods u t can [] h = (0, ground arith, ground arith)
can_update_from-Chosen max pods u t can (i ∷ is) (lt, h) =
    let (p, e) = get_elem?-lt pods i lt in
    let u' = if is_running p then suc u else u in
    let (k, eq, c) = can_update_from-Chosen max pods u' t (suc can) is h in
    elim (Bool-cases (ltb_ℤ (pos (t + can)) max)) [
      | inr full ↦ (
        0,
        rw (e, can_update_from, full) (ground arith),
        stop_Chosen max pods u t can i is p e (inl (ltb_ℤ→le _ _ full)),
      )
      | inl room ↦ elim (Bool-cases (is_running p && ge_ℤ (pos u) max)) [
        | inl stop ↦ (
          0,
          rw (e, can_update_from, room, stop) (ground arith),
          stop_Chosen max pods u t can i is p e (inr (ground (arith, ltb_ℤ→le (pos u) max))),
        )
        | inr go ↦ (
          suc k,
          rw (e, can_update_from, room, go) (ground (arith, eq)),
          next_Chosen max pods u t can i is p e k (ltb_ℤ→lt _ _ room)
              (ground (arith, ltb_ℤ→lt (pos u) max)) c,
        )
      ]
    ]

-- The two slices of `limitUpdateIndexes`, on a number that is not negative.
limit-slices :
    (d : ExpectationDiffs) (m : ℕ) (waiting : List ℕ) (pods : List Pod) (rev : Text)
    → d.update_num ≡ pos m
    → limit_update_indexes d waiting pods rev ≡ limit_waiting d (some (take m waiting)) pods rev
unfolding limit_update_indexes
limit-slices d m waiting pods rev e =
    elim (Bool-cases (ltb_ℤ d.update_num (pos (length waiting)))) [
      | inl cut ↦ rw (cut, e)
      | inr whole ↦ rw (
        whole,
        take_all m waiting (omega (arith, ltb_ℤ→le (pos m) (pos (length waiting)) (rw e at whole))),
      )
    ]

limit_to_count-take :
    (k : ℕ) (waiting : List ℕ)
    → k ≤ length waiting
    → limit_to_count (some k) waiting ≡ some (take k waiting)
limit_to_count-take k waiting h = elim (Bool-cases (ltb k (length waiting))) [
  | inl less ↦ rw less
  | inr all ↦ rw (all, take_all k waiting (ground arith))
]

-- The pods that `limitUpdateIndexes` lets through are the first `k` that wait, no more than
-- `updateNum`. Should all of them stop running, the unavailable pods of the target revision stay
-- within `updateMaxUnavailable`, or none is chosen; so do those of all revisions, or no running pod
-- is chosen. It lets as many through as these limits allow.
pub limit_update_indexes-Chosen :
    (d : ExpectationDiffs) (m : ℕ) (waiting : List ℕ) (pods : List Pod) (rev : Text)
    → d.update_num ≡ pos m
    → All (λ i. i < length pods) waiting
    → (k : ℕ) × (limit_update_indexes d waiting pods rev ≡ some (take k waiting))
      × (k ≤ m)
      × Chosen d.update_max_unavailable pods
          (unavailable_count pods)
          (target_unavailable_count rev pods)
          k
          (take m waiting)
limit_update_indexes-Chosen d m waiting pods rev e h =
    let candidates = take m waiting in
    let (k, eq, c) =
      can_update_from-Chosen d.update_max_unavailable pods (unavailable_count pods)
        (target_unavailable_count rev pods) 0 candidates
        (All-take (λ i. i < length pods) m waiting h) in
    let small : k ≤ m = omega (arith, c.fits, length-take m waiting) in
    (
      k,
      limit-slices d m waiting pods rev e
          ∙ rw (eq, zero-add, limit_waiting)
              (limit_to_count-take k candidates c.fits ∙ ap some (take-take k m waiting small)),
      small,
      rw add-zero at c,
    )
