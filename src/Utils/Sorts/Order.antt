-- ===== src/Utils/Sorts/Order.antt =====
-- The order of internal/utils/pod_sorts.go against the laws of a strict weak order.

use inplaceu.Base.{
  ℕ, ◌≡◌, sym, ◌∙◌, Bool, true, false, not, ◌&&◌, ◌||◌, Option, text_eq, ◌==◌, nat_beq, ltb,
  is_empty, arith, ==_iff,
}
use inplaceu.Base.Int.{ℤ, ltb_ℤ, eqb_ℤ}
use inplaceu.Api.{Pod}
use inplaceu.Utils.Sorts.{
  step, less, less_by_time, after_or_zero, pod_ready_time, max_container_restarts, available_of,
  pod_phase_to_ordinal,
}

-- Asymmetric, and what is not less stays so over a third pod.
pub record IsStrictWeak (lt : Pod → Pod → Bool) : Type 0 where
  pub asymmetric : (a b : Pod) → lt a b ≡ true → lt b a ≡ false
  pub negatively_transitive : (a b c : Pod) → lt a b ≡ false → lt b c ≡ false → lt a c ≡ false

-- One order before another one, which answers where the first does not tell the pods apart.
abbrev then_by : (Pod → Pod → Bool) → (Pod → Pod → Bool) → Pod → Pod → Bool
then_by first later a b = step (first a b || first b a) (first a b) (later a b)

then_by-IsStrictWeak :
    (first later : Pod → Pod → Bool)
    → IsStrictWeak first
    → IsStrictWeak later
    → IsStrictWeak (then_by first later)
then_by-IsStrictWeak first later p q = record {
  asymmetric = λ a b h. ground (arith, p.asymmetric a b, q.asymmetric a b);
  negatively_transitive = λ a b c h k. ground (
    arith,
    p.asymmetric a b,
    p.asymmetric b c,
    p.asymmetric a c,
    p.asymmetric b a,
    p.asymmetric c b,
    p.negatively_transitive a b c,
    p.negatively_transitive c b a,
    p.negatively_transitive b a c,
    p.negatively_transitive b c a,
    p.negatively_transitive c a b,
    p.negatively_transitive a c b,
    q.negatively_transitive a b c,
  );
}

ext-IsStrictWeak :
    (f g : Pod → Pod → Bool) → ((a b : Pod) → f a b ≡ g a b) → IsStrictWeak g → IsStrictWeak f
ext-IsStrictWeak f g e q = record {
  asymmetric = λ a b h. e b a ∙ q.asymmetric a b (sym (e a b) ∙ h);
  negatively_transitive =
      λ a b c h k. e a c ∙ q.negatively_transitive a b c (sym (e a b) ∙ h) (sym (e b c) ∙ k);
}

-- By a number of each pod, the least first.
abbrev by_least : (Pod → ℕ) → Pod → Pod → Bool
by_least key a b = ltb (key a) (key b)

by_least-IsStrictWeak : (key : Pod → ℕ) → IsStrictWeak (by_least key)
by_least-IsStrictWeak key = record {
  asymmetric = λ a b h. ground arith;
  negatively_transitive = λ a b c h k. ground arith;
}

abbrev by_most : (Pod → ℕ) → Pod → Pod → Bool
by_most key a b = ltb (key b) (key a)

by_most-IsStrictWeak : (key : Pod → ℕ) → IsStrictWeak (by_most key)
by_most-IsStrictWeak key = record {
  asymmetric = λ a b h. ground arith;
  negatively_transitive = λ a b c h k. ground arith;
}

-- By a test, the pods that fail it first.
abbrev by_test : (Pod → Bool) → Pod → Pod → Bool
by_test test a b = not (test a) && test b

by_test-IsStrictWeak : (test : Pod → Bool) → IsStrictWeak (by_test test)
by_test-IsStrictWeak test = record {
  asymmetric = λ a b h. ground arith;
  negatively_transitive = λ a b c h k. ground arith;
}

-- By a time, the zero time first and then the latest.
abbrev by_time : (Pod → ℕ) → Pod → Pod → Bool
by_time key a b = not (nat_beq (key a) (key b)) && after_or_zero (key a) (key b)

by_time-IsStrictWeak : (key : Pod → ℕ) → IsStrictWeak (by_time key)
unfolding after_or_zero
by_time-IsStrictWeak key = record {
  asymmetric = λ a b h. ground arith;
  negatively_transitive = λ a b c h k. ground arith;
}

abbrev by_restarts : (Pod → ℤ) → Pod → Pod → Bool
by_restarts key a b = ltb_ℤ (key b) (key a)

by_restarts-IsStrictWeak : (key : Pod → ℤ) → IsStrictWeak (by_restarts key)
unfolding ltb_ℤ
by_restarts-IsStrictWeak key = record {
  asymmetric = λ a b h. ground arith;
  negatively_transitive = λ a b c h k. ground arith;
}

abbrev has_node : Pod → Bool
has_node p = not (is_empty p.node_name)

-- The levels of `Less`, in their order.
module _ (ready : Pod → Bool) where
  by_ages : Pod → Pod → Bool
  by_ages =
      then_by (by_time (pod_ready_time ready))
        (then_by (by_restarts max_container_restarts) (by_time (λ p. p.creation_timestamp)))

  by_levels : Option (Pod → Bool) → (Pod → ℕ) → Pod → Pod → Bool
  by_levels available rank = then_by (by_test has_node) (
      then_by (by_least (λ p. pod_phase_to_ordinal p.phase)) (
        then_by (by_test (available_of available))
          (then_by (by_test ready) (then_by (by_most rank) by_ages))))

  less_by_time-by_ages : (a b : Pod) → ready a ≡ ready b → less_by_time ready a b ≡ by_ages a b
  unfolding less_by_time by_ages after_or_zero pod_ready_time ltb_ℤ eqb_ℤ
  less_by_time-by_ages a b h = ground arith

  -- Both ways of asking whether one pod has a node and the other has none.
  node_step :
      (a b : Pod) (later : Bool)
      → step
          (not (a.node_name == b.node_name) && (is_empty a.node_name || is_empty b.node_name))
          (is_empty a.node_name)
          later
        ≡ step (by_test has_node a b || by_test has_node b a) (by_test has_node a b) later
  node_step a b later = ground (arith, ==_iff a.node_name b.node_name)

  less-by_levels :
      (available : Option (Pod → Bool)) (rank : Pod → ℕ) (a b : Pod)
      → less ready available rank a b ≡ by_levels available rank a b
  unfolding less by_levels
  less-by_levels available rank a b = node_step a b _ ∙ ground (arith, less_by_time-by_ages a b)

  -- For every readiness test, optional availability test and ranking, the order in which pods are
  -- deleted is a strict weak order: `Less` never holds both ways, and if it fails from a to b and
  -- from b to c, it fails from a to c. This is what `sort.Sort` asks of it.
  pub less-IsStrictWeak :
      (available : Option (Pod → Bool)) (rank : Pod → ℕ) → IsStrictWeak (less ready available rank)
  unfolding by_levels by_ages
  less-IsStrictWeak available rank =
      ext-IsStrictWeak (less ready available rank) (by_levels available rank)
        (less-by_levels available rank)
        (then_by-IsStrictWeak _ _ (by_test-IsStrictWeak has_node) (
          then_by-IsStrictWeak _ _ (by_least-IsStrictWeak (λ p. pod_phase_to_ordinal p.phase)) (
            then_by-IsStrictWeak _ _ (by_test-IsStrictWeak (available_of available)) (
              then_by-IsStrictWeak _ _ (by_test-IsStrictWeak ready) (
                then_by-IsStrictWeak _ _ (by_most-IsStrictWeak rank) (
                  then_by-IsStrictWeak _ _ (by_time-IsStrictWeak (pod_ready_time ready)) (
                    then_by-IsStrictWeak _ _ (by_restarts-IsStrictWeak max_container_restarts)
                      (by_time-IsStrictWeak (λ p. p.creation_timestamp)))))))))
