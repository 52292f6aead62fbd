-- ===== src/Status/Written.antt =====
-- The write of the status.
use inplaceu.Base.{
  ◌≡◌, ◌⊎◌, inl, inr, refl, ap, Bool, true, false, not, Option, none, some, List, Text, sum-cases,
  if◌then◌else◌,
}
use inplaceu.Base.Int.{ℤ}
use inplaceu.Base.Retry.{Tried, Tried-last}
use inplaceu.Status.Pods.{Agrees, inconsistent_status-Agrees, inconsistent_status-differs}
use inplaceu.Api.{Pod, Inplaceu, InplaceuStatus}
use inplaceu.Status.{
  inconsistent_status, calculate_status, write_status, update_inplaceu_set_status, try_status,
  update_status,
}

module _ {World ApiError : Type 0} (available : Pod → ℤ → Bool)
    (get_inplaceu : Text → Text → World → ApiError ⊎ Inplaceu)
    (put_status : Inplaceu → World → World × Option ApiError) (conflicts : ApiError → Bool)
    (retry : (World → World × Option ApiError) → World → World × Option ApiError)
    (tried : (f : World → World × Option ApiError) (w : World)
      → Tried conflicts f w (retry f w)) where
  -- The set was read under its name, and the cluster accepted it with the status: the last call.
  pub record Put (iu : Inplaceu) (s : InplaceuStatus) (after : World) : Type 0 where
    pub w : World
    pub clone : Inplaceu
    pub read : get_inplaceu iu.namespace iu.name w ≡ inr clone
    pub accepted : put_status (record clone { status = s }) w ≡ (after, none)

  abbrev IsPut : Inplaceu → InplaceuStatus → World × Option ApiError → Type 0
  IsPut iu s res = res.1 ≡ none → Put iu s res.0

  try_status-IsPut :
      (iu : Inplaceu) (s : InplaceuStatus) (w : World)
      → IsPut iu s (try_status get_inplaceu put_status iu s w)
  unfolding try_status
  try_status-IsPut iu s w = elim (sum-cases (get_inplaceu iu.namespace iu.name w)) [
    | inl (e, h) ↦ rw (h, try_status) (λ ok. absurd cc)
    | inr (clone, h) ↦
        rw (h, try_status)
          (λ ok. record {
            w = w;
            clone = clone;
            read = h;
            accepted = λ i. ((put_status (record clone { status = s }) w).0, ok i);
          })
  ]

  -- The computed status agrees with that of the set and nothing is written, or it does not agree and is
  -- written.
  abbrev pub Settled : Inplaceu → InplaceuStatus → World → World → Type 0
  Settled iu s before after =
      (Agrees iu.status s × (after ≡ before)) ⊎ ((¬ Agrees iu.status s) × Put iu s after)

  written_lem :
      (iu : Inplaceu) (s : InplaceuStatus) (w : World) (b : Bool)
      → inconsistent_status iu.status s ≡ b
      → let res = if not b then (w, none) else update_status get_inplaceu put_status retry iu s w in
        res.1 ≡ none → Settled iu s w res.0
  unfolding update_status
  written_lem iu s w false e ok = inl (inconsistent_status-Agrees iu.status s e, refl)
  written_lem iu s w true e ok = inr (
    inconsistent_status-differs iu.status s e,
    Tried-last conflicts (try_status get_inplaceu put_status iu s) (IsPut iu s) w _
        (try_status-IsPut iu s) (tried (try_status get_inplaceu put_status iu s) w) ok,
  )

  -- Where the status of the pods is computed, the write of the status does not panic. If it returns no
  -- error, then either the computed status has no later generation and the same counts and revisions as
  -- that of the set, and nothing is written, or it does not, and the set was read again and accepted
  -- with the computed status, as the last call.
  pub update_inplaceu_set_status-Settled :
      (iu : Inplaceu) (new_status s : InplaceuStatus) (pods : List Pod) (w : World)
      → calculate_status available iu new_status pods ≡ some s
      → (res : World × Option ApiError) × (update_inplaceu_set_status available
            (update_status get_inplaceu put_status retry)
            iu
            new_status
            pods
            w
          ≡ some res)
        × (res.1 ≡ none → Settled iu s w res.0)
  unfolding update_inplaceu_set_status
  update_inplaceu_set_status-Settled iu new_status s pods w h = (
    _,
    ap (λ o. write_status available (update_status get_inplaceu put_status retry) iu o w) h,
    written_lem iu s w (inconsistent_status iu.status s) refl,
  )
