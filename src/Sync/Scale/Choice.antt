-- ===== src/Sync/Scale/Choice.antt =====
-- The pods that `Scale` takes for deletion.
use inplaceu.Base.{
  ℕ, zero, suc, ◌≡◌, ◌≤◌, sym, ap, ◌∙◌, Bool, not, some, List, [], ◌∷◌, length, take, keep, count,
  arith, Bool-cases, inl, inr, length-keep, length-take, count-complement,
}
use inplaceu.Base.Int.{ℤ, pos, negsuc, ◌-ℤ◌, ltb_ℤ, pos_part, ltb_ℤ→lt}
use inplaceu.Api.{Pod}
use inplaceu.Utils.Pods.{is_running}
use inplaceu.Utils.Sorts.{less, same_node_rank}
use inplaceu.Sync.Scale.{within_limit, choose_pods_to_delete}

module _ (serves : Pod → Bool) where
  -- What the loop takes of some pods within a limit, and what is left of the limit.
  pub record Within (limit : ℤ) (pods chosen : List Pod) (left : ℤ) : Type 0 where
    pub others : keep (λ p. not (serves p)) chosen ≡ keep (λ p. not (serves p)) pods
    pub serving : keep serves chosen ≡ take (pos_part limit) (keep serves pods)
    pub spent : left ≡ limit -ℤ pos (count serves chosen)

  -- Of the pods that `Scale` may delete it takes every one that does not serve, and of those that do
  -- the first ones, as many as the limit allows; the limit goes down by the number of the latter.
  pub within_limit-Within :
      (limit : ℤ) (pods : List Pod)
      → let (chosen, left) = within_limit serves limit pods in Within limit pods chosen left
  unfolding within_limit ◌-ℤ◌ ltb_ℤ
  within_limit-Within (negsuc n) [] = ground arith
  within_limit-Within (pos zero) [] = ground arith
  within_limit-Within (pos (suc n)) [] = ground arith
  within_limit-Within (negsuc n) (p ∷ pods) =
      let c = within_limit-Within (negsuc n) pods in
      record {
        others = ground (arith, c.others);
        serving = ground (arith, c.serving);
        spent = ground (arith, c.spent);
      }
  within_limit-Within (pos zero) (p ∷ pods) =
      let c = within_limit-Within (pos zero) pods in
      record {
        others = ground (arith, c.others);
        serving = ground (arith, c.serving);
        spent = ground (arith, c.spent);
      }
  within_limit-Within (pos (suc n)) (p ∷ pods) =
      let c = within_limit-Within (pos n) pods in
      let d = within_limit-Within (pos (suc n)) pods in
      record {
        others = ground (arith, c.others, d.others);
        serving = ground (arith, c.serving, d.serving);
        spent = ground (arith, c.spent, d.spent);
      }

  pub Within-bounds :
      (limit : ℤ) (pods chosen : List Pod) (left : ℤ)
      → Within limit pods chosen left
      → (length chosen ≤ length pods) × (count serves chosen ≤ pos_part limit)
  Within-bounds limit pods chosen left w =
      let others : count (λ p. not (serves p)) chosen ≡ count (λ p. not (serves p)) pods =
        sym (length-keep _ chosen) ∙ ap length w.others ∙ length-keep _ pods in
      let serving : count serves chosen ≡ length (take (pos_part limit) (keep serves pods)) =
        sym (length-keep _ chosen) ∙ ap length w.serving in
      (
        omega (
          arith,
          others,
          serving,
          length-take (pos_part limit) (keep serves pods),
          length-keep serves pods,
          count-complement serves chosen,
          count-complement serves pods,
        ),
        omega (arith, serving, length-take (pos_part limit) (keep serves pods)),
      )

module _ (sort : (Pod → Pod → Bool) → List Pod → List Pod) (ready : Pod → Bool) where
  -- The choice of the pods to delete does not fail, and has no more pods than asked for.
  pub choose-bounds :
      (n : ℕ) (pods : List Pod)
      → (chosen : List Pod) × (choose_pods_to_delete sort ready (pos n) pods ≡ some chosen)
        × (length chosen ≤ n)
  unfolding choose_pods_to_delete
  choose-bounds n pods =
      let sorted : List Pod =
        sort (less ready (some is_running) (same_node_rank sort ready pods)) pods in
      elim (Bool-cases (ltb_ℤ (pos n) (pos (length pods)))) [
        | inl less ↦ (take n sorted, rw less, omega (arith, length-take n sorted))
        | inr enough ↦ elim (Bool-cases (ltb_ℤ (pos (length pods)) (pos n))) [
          | inl more ↦ (pods, rw (enough, more), omega (arith, ltb_ℤ→lt _ _ more))
          | inr equal ↦ (take n pods, rw (enough, equal), omega (arith, length-take n pods))
        ]
      ]
