-- ===== src/Sync/Waiting/Indexes.antt =====
-- The waiting indexes against the pods.
use inplaceu.Base.{
  ℕ, suc, ◌+◌, ◌<◌, ◌≡◌, refl, ap, ◌∙◌, subst, ◌≤◌, Bool, not, ◌&&◌, some, List, [], ◌∷◌, ◌++◌, map,
  Text, keep, get_elem?, length, length-append, All, arith, Bool-cases, inl, inr,
}
use inplaceu.Api.{Pod}
use inplaceu.Utils.Hash.{equal_to_revision_hash}
use inplaceu.Sync.Waiting.{wait_update_from, wait_update_indexes, can_update, is_over}

append-assoc-one {ℓ} :
    {A : Type ℓ} (xs : List A) (x : A) (ys : List A) → (xs ++ x ∷ []) ++ ys ≡ xs ++ x ∷ ys
append-assoc-one [] x ys = refl
append-assoc-one (z ∷ xs) x ys = ap (◌∷◌ z) (append-assoc-one xs x ys)

get_elem?-append {ℓ} :
    {A : Type ℓ} (xs : List A) (x : A) (ys : List A) → get_elem? (xs ++ x ∷ ys) (length xs) ≡ some x
get_elem?-append [] x ys = refl
get_elem?-append (z ∷ xs) x ys = get_elem?-append xs x ys

module _ (rev : Text) where
  -- Not at the update revision, and not in one of the phases of a pod that is over.
  abbrev pub waits : Pod → Bool
  waits p = not (equal_to_revision_hash p.labels rev) && not (is_over p.phase)

  from-pods :
      (before pods : List Pod)
      → map (get_elem? (before ++ pods)) (wait_update_from rev (length before) pods)
        ≡ map some (keep waits pods)
  unfolding wait_update_from can_update
  from-pods before [] = refl
  from-pods before (p ∷ pods) =
      let rest : map (get_elem? (before ++ p ∷ pods))
            (wait_update_from rev (suc (length before)) pods)
          ≡ map some (keep waits pods) =
        subst
          (λ (n : ℕ).
            map (get_elem? (before ++ p ∷ pods)) (wait_update_from rev n pods)
            ≡ map some (keep waits pods))
          (length-append before (p ∷ []) ∙ omega arith)
          (subst
            (λ (l : List Pod).
              map (get_elem? l) (wait_update_from rev (length (before ++ p ∷ [])) pods)
              ≡ map some (keep waits pods))
            (append-assoc-one before p pods) (from-pods (before ++ p ∷ []) pods)) in
      elim (Bool-cases (waits p)) [
        | inl w ↦ rw w (λ i. get_elem?-append before p pods i ∷ rest i)
        | inr w ↦ rw w rest
      ]

  from-bound :
      (i : ℕ) (pods : List Pod)
      → (n : ℕ) → i + length pods ≤ n
      → All (λ j. j < n) (wait_update_from rev i pods)
  unfolding wait_update_from can_update
  from-bound i [] n h = tt
  from-bound i (p ∷ pods) n h =
      let rest = from-bound (suc i) pods n (omega arith) in
      elim (Bool-cases (waits p)) [ inl w ↦ rw w (omega arith, rest) | inr w ↦ rw w rest ]

  -- The waiting indexes are in range, and the pods at them are, in order, all pods that are not at
  -- the update revision and whose phase is not Succeeded, Failed or Unknown.
  pub wait_update_indexes-pods :
      (pods : List Pod)
      → All (λ i. i < length pods) (wait_update_indexes rev pods)
        × (map (get_elem? pods) (wait_update_indexes rev pods) ≡ map some (keep waits pods))
  unfolding wait_update_indexes
  wait_update_indexes-pods pods = (from-bound 0 pods (length pods) (omega arith), from-pods [] pods)
