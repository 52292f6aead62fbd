-- ===== src/Sync/Update/Valid.antt =====
-- `Update` leaves the scale expectations alone on every branch.
use inplaceu.Base.{
  ℕ, ◌≡◌, refl, ◌∙◌, inl, inr, Bool, Option, none, some, List, [], ◌∷◌, Text, Bool-cases,
  Option-cases, get_elem?,
}
use inplaceu.Base.Int.{ℤ, pos, ltb_ℤ, eqb_ℤ}
use inplaceu.Api.{Pod, Inplaceu, IntOrString, ControllerRevision}
use inplaceu.Sets.{StringSet}
use inplaceu.Utils.Pods.{get_controller_key}
use inplaceu.Expectations.Scale.{Cache}
use inplaceu.Sync.State.{Client, Error}
use inplaceu.Sync.Deletes.{Ctl}
use inplaceu.Sync.Diffs.{ExpectationDiffs}
use inplaceu.Sync.Update.{
  InPlace, update_pod, note_duration, update_from, update_by, update, update_limited,
}
use inplaceu.Sync.Update.Awaits.{update_pod-Awaits}

module _ (sets : StringSet) (client : Client) (in_place : InPlace client) where
  open client use {ApiError}

  note_duration-cache :
      (key : Text) (duration : ℤ) (s : Ctl sets client)
      → (note_duration sets client in_place key duration s).scale_expectations
        ≡ s.scale_expectations
  note_duration-cache key duration s = elim (Bool-cases (ltb_ℤ (pos 0) duration)) [
    | inl e ↦ rw e refl
    | inr e ↦ rw e refl
  ]

  -- An outcome, if there is one, has the scale expectations of a state.
  abbrev pub SameCache : Cache sets → Option (Ctl sets client × Option (Error ApiError)) → Type 0
  SameCache cache none = Unit
  SameCache cache (some r) = r.0.scale_expectations ≡ cache

  update_from-SameCache :
      (key : Text) (rev : ControllerRevision) (revisions : List ControllerRevision)
      (pods : List Pod) (indexes : List ℕ) (s : Ctl sets client) (cache : Cache sets)
      → s.scale_expectations ≡ cache
      → SameCache cache (update_from sets client in_place key rev revisions pods indexes s)
  unfolding update_from
  update_from-SameCache key rev revisions pods [] s cache h = h
  update_from-SameCache key rev revisions pods (i ∷ is) s cache h =
      elim (Option-cases (get_elem? pods i)) [
        | inl e ↦ rw (e, update_from) tt
        | inr (pod, e) ↦
            let (s₁, duration, err) = update_pod sets client in_place rev revisions pod s in
            let s₂ = note_duration sets client in_place key duration s₁ in
            let same =
              note_duration-cache key duration s₁
              ∙ (update_pod-Awaits sets client in_place rev revisions pod s).same_scale
              ∙ h in
            elim (Option-cases err) [
              | inl ok ↦
                  rw (e, update_from, ok)
                    (update_from-SameCache key rev revisions pods is s₂ cache same)
              | inr (x, ko) ↦ rw (e, update_from, ko) same
            ]
      ]

  module _ (resolve : IntOrString → ℤ → Bool → ℤ) (sort_slice : List Pod → List ℕ → List ℕ) where
    update_limited-SameCache :
        (iu : Inplaceu) (rev : ControllerRevision) (revisions : List ControllerRevision)
        (pods : List Pod) (o : Option (List ℕ)) (s : Ctl sets client)
        → SameCache s.scale_expectations
            (update_limited sets client in_place resolve sort_slice iu rev revisions pods o s)
    update_limited-SameCache iu rev revisions pods none s = tt
    update_limited-SameCache iu rev revisions pods (some is) s =
        update_from-SameCache (get_controller_key iu) rev revisions pods is s s.scale_expectations
          refl

    update_by-SameCache :
        (iu : Inplaceu) (rev : ControllerRevision) (revisions : List ControllerRevision)
        (pods : List Pod) (o : Option ExpectationDiffs) (s : Ctl sets client)
        → SameCache s.scale_expectations
            (update_by sets client in_place resolve sort_slice iu rev revisions pods o s)
    update_by-SameCache iu rev revisions pods none s = tt
    update_by-SameCache iu rev revisions pods (some d) s =
        elim (Bool-cases (eqb_ℤ d.update_num (pos 0))) [
          | inl e ↦ rw e refl
          | inr e ↦ rw e (update_limited-SameCache iu rev revisions pods _ s)
        ]

    pub update-SameCache :
        (iu : Inplaceu) (rev : ControllerRevision) (revisions : List ControllerRevision)
        (pods : List Pod) (s : Ctl sets client)
        → SameCache s.scale_expectations
            (update sets client in_place resolve sort_slice iu rev revisions pods s)
    unfolding update
    update-SameCache iu rev revisions pods s = update_by-SameCache iu rev revisions pods _ s
