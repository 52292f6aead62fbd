-- ===== src/Sync/Limit.antt =====
-- `limitUpdateIndexes` of internal/sync/inplaceu_update.go: which of the waiting pods may be updated
-- now. The indexes point into the pods; `none` is an index or a slice bound out of range.
pub mod Safety
use inplaceu.Base.{
  ℕ, suc, ◌+◌, Bool, true, false, not, ◌&&◌, Option, none, some, List, [], ◌∷◌, Text, length, count,
  take, get_elem?, ltb, if◌then◌else◌,
}
use inplaceu.Base.Int.{ℤ, pos, negsuc, ltb_ℤ}
use inplaceu.Api.{Pod}
use inplaceu.Utils.Hash.{equal_to_revision_hash}
use inplaceu.Utils.Pods.{is_running}
use inplaceu.Sync.Diffs.{ExpectationDiffs}

-- `s[:n]` for an `n` below the length.
abbrev pub slice_to {ℓ} : {A : Type ℓ} → ℤ → List A → Option (List A)
slice_to (pos n) xs = some (take n xs)
slice_to (negsuc n) xs = none

-- `a >= b`.
abbrev pub ge_ℤ : ℤ → ℤ → Bool
ge_ℤ a b = not (ltb_ℤ a b)

-- The two counters of the first loop.
abbrev pub unavailable_count : List Pod → ℕ
unavailable_count = count (λ p. not (is_running p))

abbrev pub target_unavailable_count : Text → List Pod → ℕ
target_unavailable_count rev =
    count (λ p. not (is_running p) && equal_to_revision_hash p.labels rev)

-- The second loop, which returns `canUpdateCount`.
unfoldable pub can_update_from : ℤ → List Pod → ℕ → ℕ → ℕ → List ℕ → Option ℕ
can_update_from max pods unavailable target can [] = some can
can_update_from max pods unavailable target can (i ∷ is) = elim (get_elem? pods i) [
  | none ↦ if ge_ℤ (pos (target + can)) max then some can else none
  | some p ↦
      let next = if is_running p then suc unavailable else unavailable in
      let rest = can_update_from max pods next target (suc can) is in
      if ge_ℤ (pos (target + can)) max
      then some can
      else if is_running p && ge_ℤ (pos unavailable) max
      then some can
      else rest
]

abbrev pub limit_to_count : Option ℕ → List ℕ → Option (List ℕ)
limit_to_count none waiting = none
limit_to_count (some can) waiting =
    some (if ltb can (length waiting) then take can waiting else waiting)

abbrev pub limit_waiting : ExpectationDiffs → Option (List ℕ) → List Pod → Text → Option (List ℕ)
limit_waiting d none pods rev = none
limit_waiting d (some waiting) pods rev =
    limit_to_count
      (can_update_from d.update_max_unavailable pods (unavailable_count pods)
        (target_unavailable_count rev pods) 0 waiting)
      waiting

unfoldable pub limit_update_indexes : ExpectationDiffs → List ℕ → List Pod → Text → Option (List ℕ)
unfolding can_update_from
limit_update_indexes d waiting pods target_revision_hash =
    limit_waiting d
      (if ltb_ℤ d.update_num (pos (length waiting))
        then slice_to d.update_num waiting
        else some waiting)
      pods target_revision_hash
