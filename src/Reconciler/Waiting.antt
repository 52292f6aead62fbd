-- ===== src/Reconciler/Waiting.antt =====
-- The waits of `Reconcile` for resource versions, internal/controller/inplaceu_controller.go. The clock
-- gives, for each question to the expectations in the order of the code, the times at `time.Now` and
-- at `time.Since`.
use inplaceu.Base.{ℕ, suc, ◌*◌, not, Option, none, some, List, [], ◌∷◌, text_eq, if◌then◌else◌}
use inplaceu.Base.Int.{ℤ, pos, ltb_ℤ, ◌-ℤ◌}
use inplaceu.Api.{Pod, ControllerRevision}
use inplaceu.Expectations.Versions as Versions
use inplaceu.Expectations.Versions.{Versions}

abbrev pub Clock : Type 0
Clock = ℕ → ℕ × ℕ

-- 5 minutes, in nanoseconds.
abbrev pub five_minutes : ℤ
five_minutes = pos (5 * 60 * 1000000000)

module _ (clock : Clock) where
  -- The loop over the pods from a question on: a time, where the loop returns with that.
  unfoldable pub wait_for_pods : ℕ → List Pod → Versions → Versions × Option ℤ
  wait_for_pods n [] r = (r, none)
  wait_for_pods n (pod ∷ pods) r =
      let (now, later) = clock n in
      let (r', satisfied, duration) =
        Versions.is_satisfied now later pod.uid pod.resource_version
          (Versions.observe pod.uid pod.resource_version r) in
      let rest = wait_for_pods (suc n) pods r' in
      if satisfied
      then rest
      else if not (ltb_ℤ duration five_minutes)
      then (r', some (pos 0))
      else (r', some (five_minutes -ℤ duration))

  -- The same for the update revision, which is forgotten when the time is over.
  unfoldable pub wait_for_revision : ControllerRevision → Versions → Versions × Option ℤ
  wait_for_revision update r =
      let (now, later) = clock 1 in
      let (r', satisfied, duration) =
        Versions.is_satisfied now later update.uid update.resource_version
          (Versions.observe update.uid update.resource_version r) in
      if satisfied
      then (r', none)
      else if ltb_ℤ duration five_minutes
      then (r', some (five_minutes -ℤ duration))
      else (Versions.delete update.uid r', none)

  abbrev pub wait_then :
      Versions × Option ℤ → (Versions → Versions × Option ℤ) → Versions × Option ℤ
  wait_then (r, some after) next = (r, some after)
  wait_then (r, none) next = next r

  unfoldable pub wait_for_versions : ControllerRevision → List Pod → Versions → Versions × Option ℤ
  unfolding wait_for_pods wait_for_revision
  wait_for_versions update pods r = wait_then (wait_for_revision update r) (wait_for_pods 2 pods)
