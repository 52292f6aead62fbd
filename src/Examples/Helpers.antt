-- ===== src/Examples/Helpers.antt =====
-- The helpers on concrete inputs.
use inplaceu.Base.{
  ◌⊎◌, inr, ℕ, zero, suc, ◌<◌, ◌≤◌, ◌≡◌, ◌≢◌, ◌↔◌, refl, true, false, Option, none, some, List, [],
  ◌∷◌, Text, text_eq, ◌==◌, codes, lookup, arith,
}
use inplaceu.Base.Int.{eqb_ℤ, inc32, ◌+ℤ◌, pos, negsuc}
use inplaceu.Api.{
  Pod, Inplaceu, InplaceuStatus, controller_revision_hash_label_key,
  default_deployment_unique_label_key, bare_pod,
}
use inplaceu.Utils.Hash.{get_short_hash, equal_to_revision_hash, write_revision_hash}
use inplaceu.Utils.Hash.Labels.{write_revision_hash_labels}
use inplaceu.Utils.Pods.{is_running, is_pod_available}
use inplaceu.Utils.Slowly.{do_it_slowly}
use inplaceu.Utils.Slowly.Batches.{calls, do_it_slowly-Outcome}
use inplaceu.Utils.Sorts.{less}
use inplaceu.Utils.Sorts.Order.{IsStrictWeak, less-IsStrictWeak}
use inplaceu.Core.{new_versioned_pods}
use inplaceu.Core.NewPods.{AllVersioned, new_versioned_pods-AllVersioned}
use inplaceu.Requeue.{pop}
use inplaceu.Requeue.Shortest.{push_all, IsShortest, pop-push_all}
use inplaceu.Status.{calculate_status, update_inplaceu_set_status, update_status}
use inplaceu.Status.Written.{Settled, update_inplaceu_set_status-Settled}
use inplaceu.Base.Retry.{stop}
use inplaceu.Status.Pods.{StatusOf, calculate_status-StatusOf}
use inplaceu.Examples.{web, a, b, c, new_rev, old_rev, template_pod}

write_revision_hash_labels_example :
    (equal_to_revision_hash (write_revision_hash a.labels new_rev) new_rev ≡ true)
    × ((equal_to_revision_hash (write_revision_hash a.labels new_rev) old_rev ≡ true)
        ↔ (get_short_hash new_rev ≡ get_short_hash old_rev))
    × (lookup default_deployment_unique_label_key (write_revision_hash a.labels new_rev)
        ≡ some (get_short_hash new_rev))
    × ((key : Text)
        → key ≢ controller_revision_hash_label_key
        → key ≢ default_deployment_unique_label_key
        → lookup key (write_revision_hash a.labels new_rev) ≡ lookup key a.labels)
write_revision_hash_labels_example = write_revision_hash_labels a.labels new_rev old_rev

-- A call that fails from the third on.
abbrev third_fails : ℕ → ℕ × Option ℕ
third_fails zero = (1, none)
third_fails (suc zero) = (2, none)
third_fails (suc (suc n)) = (suc (suc (suc n)), some 7)

do_it_slowly-Outcome_example :
    (n : ℕ) × (err : Option ℕ) × (n ≤ 5)
    × (do_it_slowly third_fails 5 1 0
        ≡ some ((calls third_fails n 0).0, (calls third_fails n 0).1, err))
    × (err ≡ none → (n ≡ 5) × ((calls third_fails n 0).1 ≡ n))
    × (err ≢ none → (calls third_fails n 0).1 < n)
do_it_slowly-Outcome_example = do_it_slowly-Outcome third_fails 5 1 0 (omega arith)

less-IsStrictWeak_example : IsStrictWeak (less (λ p. true) (some is_running) (λ p. 0))
less-IsStrictWeak_example = less-IsStrictWeak (λ p. true) (some is_running) (λ p. 0)

new_versioned_pods-AllVersioned_example :
    (pods : List Pod) × (new_versioned_pods template_pod web new_rev
        (pos 2)
        (codes "x1" ∷ codes "x2" ∷ [])
      ≡ some pods)
    × AllVersioned template_pod web new_rev (codes "x1" ∷ codes "x2" ∷ []) pods
new_versioned_pods-AllVersioned_example =
    new_versioned_pods-AllVersioned template_pod web new_rev (bare_pod []) (pos 2)
      (codes "x1" ∷ codes "x2" ∷ []) refl

pop-push_all_example :
    let durations = pos 5 ∷ negsuc 0 ∷ pos 3 ∷ [] in
    let (dm', r) = pop (codes "web") (push_all (codes "web") durations []) in
    IsShortest r durations
    × (lookup (codes "web") dm' ≡ none)
    × ((other : Text) → (codes "web" == other) ≡ false → lookup other dm' ≡ none)
unfolding lookup
pop-push_all_example = pop-push_all (codes "web") (pos 5 ∷ negsuc 0 ∷ pos 3 ∷ []) [] refl

abbrev next_status : InplaceuStatus
next_status = record web.status { observed_generation = pos 2 }

calculate_status-StatusOf_example :
    (s' : InplaceuStatus) × (calculate_status (λ p n. true) web next_status (a ∷ b ∷ c ∷ [])
      ≡ some s')
    × StatusOf (λ p n. true) web (a ∷ b ∷ c ∷ []) (pos 3) next_status s'
calculate_status-StatusOf_example =
    calculate_status-StatusOf (λ p n. true) web (a ∷ b ∷ c ∷ []) (pos 3) next_status refl refl refl
      refl refl (omega arith)

-- The set of its name is found, and the write is recorded.
abbrev get_web : Text → Text → List Text → ℕ ⊎ Inplaceu
get_web namespace name w = inr web

abbrev put_web : Inplaceu → List Text → List Text × Option ℕ
put_web iu w = (iu.name ∷ w, none)

abbrev counted : InplaceuStatus
counted = record next_status {
  replicas = pos 3;
  ready_replicas = pos 2;
  available_replicas = pos 2;
  updated_replicas = pos 1;
}

counted_lem : calculate_status (λ p n. true) web next_status (a ∷ b ∷ c ∷ []) ≡ some counted
unfolding calculate_status eqb_ℤ equal_to_revision_hash lookup get_short_hash inc32 ◌+ℤ◌ is_running
    is_pod_available
counted_lem = refl

update_inplaceu_set_status-Settled_example :
    (res : List Text × Option ℕ) × (update_inplaceu_set_status
        (λ p n. true)
        (update_status get_web put_web (λ f w. f w))
        web
        next_status
        (a ∷ b ∷ c ∷ [])
        []
      ≡ some res)
    × (res.1 ≡ none
        → Settled
            (λ p n. true)
            get_web
            put_web
            (λ e. true)
            (λ f w. f w)
            (λ f w. stop w)
            web
            counted
            []
            res.0)
update_inplaceu_set_status-Settled_example =
    update_inplaceu_set_status-Settled (λ p n. true) get_web put_web (λ e. true) (λ f w. f w)
      (λ f w. stop w) web next_status counted (a ∷ b ∷ c ∷ []) [] counted_lem
