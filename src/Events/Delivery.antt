-- ===== src/Events/Delivery.antt =====
-- Once every name that a controller awaits was told of by events, it no longer waits.
use inplaceu.Base.{
  ℕ, ◌≡◌, refl, inl, inr, Bool, true, false, List, Text, text_eq, any, arith, Bool-cases,
}
use inplaceu.Sets.{StringSet}
use inplaceu.Expectations.Scale.{ScaleAction, action_eq, Cache, satisfied_expectations}
use inplaceu.Expectations.Scale.Pending.{pending}
use inplaceu.Expectations.Scale.Verdict.{Verdict, satisfied_expectations-Verdict}
use inplaceu.Events.{Handler}
use inplaceu.Events.Observed.{PodEvent, sees, Observed}

module _ (sets : StringSet) {World : Type 0} (handler : Handler World) where
  abbrev pub told : List PodEvent → Text → ScaleAction → Text → Bool
  told events k a x = any (sees sets handler k a x) events

  Verdict-true :
      (key : Text) (cache : Cache sets) (b : Bool)
      → ((a : ScaleAction) (x : Text) → pending sets key a x cache ≡ false)
      → Verdict sets key cache b
      → b ≡ true
  Verdict-true key cache true none_left v = refl
  Verdict-true key cache false none_left (a, x, p) = cc (none_left a x)

  -- Once every name that a controller awaited was seen, its expectations are satisfied.
  pub Observed-satisfied :
      (now later : ℕ) (key : Text) (seen : Text → ScaleAction → Text → Bool)
      (before after : Cache sets)
      → Observed sets handler seen before after
      → ((a : ScaleAction) (x : Text) → pending sets key a x before ≡ true → seen key a x ≡ true)
      → (satisfied_expectations sets now later key after).1.satisfied ≡ true
  Observed-satisfied now later key seen before after (same, valid) all_seen =
      Verdict-true key after _
        (λ a x. elim (Bool-cases (pending sets key a x before)) [
          | inl p ↦ ground (arith, same key a x, all_seen a x p)
          | inr p ↦ ground (arith, same key a x, p)
        ])
        (satisfied_expectations-Verdict sets now later key after valid).0
