-- ===== src/Sync/Creates/Expected.antt =====
-- The two loops of `createPods` over the expectations: what they make the controller await.
use inplaceu.Base.{
  ◌≡◌, refl, ap, Bool, not, ◌&&◌, ◌||◌, List, [], ◌∷◌, Text, text_eq, ◌==◌, ==_iff, arith, any,
  Bool-cases, inl, inr,
}
use inplaceu.Api.{Pod}
use inplaceu.Sets.{StringSet}
use inplaceu.Expectations.Scale.{ScaleAction, action_eq}
use inplaceu.Expectations.Scale.Pending.{pending-expect_scale, pending-observe_scale}
use inplaceu.Sync.State.{Client}
use inplaceu.Sync.Deletes.{Ctl, expect, observe}
use inplaceu.Sync.Deletes.Awaited.{awaits, named}
use inplaceu.Sync.Creates.{expect_creations, roll_back}
use inplaceu.Expectations.Scale.Valid.{IsValid, expect_scale-IsValid, observe_scale-IsValid}

abbrev pub member : Text → List Text → Bool
member x = any (λ y. y == x)

module _ (sets : StringSet) (client : Client) where
  abbrev pub IsValidCtl : Ctl sets client → Type 0
  IsValidCtl s = IsValid sets s.scale_expectations

  pub expect_creations-IsValidCtl :
      (key : Text) (pods : List Pod) (s : Ctl sets client)
      → IsValidCtl s
      → IsValidCtl (expect_creations sets client key pods s)
  unfolding expect_creations
  expect_creations-IsValidCtl key [] s v = v
  expect_creations-IsValidCtl key (p ∷ pods) s v =
      expect_creations-IsValidCtl key pods (expect sets client key ScaleAction.create p.name s)
        (expect_scale-IsValid sets key ScaleAction.create p.name s.scale_expectations v)

  pub roll_back-IsValidCtl :
      (key : Text) (names : List Text) (pods : List Pod) (s : Ctl sets client)
      → IsValidCtl s
      → IsValidCtl (roll_back sets client key names pods s)
  unfolding roll_back
  roll_back-IsValidCtl key names [] s v = v
  roll_back-IsValidCtl key names (p ∷ pods) s v = elim (Bool-cases (any (λ x. x == p.name) names)) [
    | inl made ↦ rw (made, roll_back) (roll_back-IsValidCtl key names pods s v)
    | inr failed ↦
        rw (failed, roll_back)
          (roll_back-IsValidCtl key names pods (observe sets client key ScaleAction.create p.name s)
            (observe_scale-IsValid sets key ScaleAction.create p.name s.scale_expectations v))
  ]

  pub expect_creations-awaits :
      (key : Text) (pods : List Pod) (s : Ctl sets client) (k : Text) (a : ScaleAction) (x : Text)
      → awaits sets client k a x (expect_creations sets client key pods s)
        ≡ ((key == k && ScaleAction.create == a && named x pods) || awaits sets client k a x s)
  unfolding expect_creations
  expect_creations-awaits key [] s k a x = ground arith
  expect_creations-awaits key (p ∷ pods) s k a x = ground (
    arith,
    expect_creations-awaits key pods (expect sets client key ScaleAction.create p.name s) k a x,
    pending-expect_scale sets key k ScaleAction.create a p.name x s.scale_expectations,
  )

  pub expect_creations-world :
      (key : Text) (pods : List Pod) (s : Ctl sets client)
      → (expect_creations sets client key pods s).world ≡ s.world
  unfolding expect_creations
  expect_creations-world key [] s = refl
  expect_creations-world key (p ∷ pods) s =
      expect_creations-world key pods (expect sets client key ScaleAction.create p.name s)

  -- Some pod of the list has the name `x`, and that is not among the names.
  abbrev pub failed : Text → List Text → List Pod → Bool
  failed x names = any (λ p. not (member p.name names) && p.name == x)

  pub failed-named :
      (x : Text) (names : List Text) (pods : List Pod)
      → failed x names pods ≡ (named x pods && not (member x names))
  failed-named x names [] = refl
  failed-named x names (p ∷ pods) = elim (Bool-cases (p.name == x)) [
    | inl same ↦ ground (
      arith,
      same,
      failed-named x names pods,
      ap (λ t. member t names) ((==_iff p.name x).0 same),
    )
    | inr other ↦ ground (arith, other, failed-named x names pods)
  ]

  pub roll_back-awaits :
      (key : Text) (names : List Text) (pods : List Pod) (s : Ctl sets client) (k : Text)
      (a : ScaleAction) (x : Text)
      → awaits sets client k a x (roll_back sets client key names pods s) ≡ (
          not (key == k && ScaleAction.create == a && failed x names pods)
          && awaits sets client k a x s)
  unfolding roll_back
  roll_back-awaits key names [] s k a x = ground arith
  roll_back-awaits key names (p ∷ pods) s k a x = ground (
    arith,
    roll_back-awaits key names pods s k a x,
    roll_back-awaits key names pods (observe sets client key ScaleAction.create p.name s) k a x,
    pending-observe_scale sets key k ScaleAction.create a p.name x s.scale_expectations,
  )

  pub roll_back-world :
      (key : Text) (names : List Text) (pods : List Pod) (s : Ctl sets client)
      → (roll_back sets client key names pods s).world ≡ s.world
  unfolding roll_back
  roll_back-world key names [] s = refl
  roll_back-world key names (p ∷ pods) s = ground (
    arith,
    roll_back-world key names pods s,
    roll_back-world key names pods (observe sets client key ScaleAction.create p.name s),
  )
