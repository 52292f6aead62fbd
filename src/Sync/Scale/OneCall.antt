-- ===== src/Sync/Scale/OneCall.antt =====
-- `Scale` as a whole: it either creates or deletes, by one call.
use inplaceu.Base.{
  ℕ, ◌≡◌, ◌≤◌, ◌⊎◌, inl, inr, refl, sym, subst, ap, ◌∙◌, false, ◌&&◌, some, List, Text, count, any,
  arith, Bool-cases,
}
use inplaceu.Base.Int.{ℤ, pos, pos_part, ◌≤ℤ◌, ◌<ℤ◌, ltb_ℤ, ltb_ℤ→lt, ltb_ℤ→le}
use inplaceu.Api.{Pod, Inplaceu, RollingUpdate}
use inplaceu.Sets.{StringSet}
use inplaceu.Sync.Diffs.{ExpectationDiffs, calculate_diffs_with_expectation}
use inplaceu.Sync.Diffs.Targets.{calculate_diffs-Reaches}
use inplaceu.Sync.State.{Client}
use inplaceu.Sync.Deletes.{Ctl}
use inplaceu.Sync.Creates.{create_pods}
use inplaceu.Sync.Scale.{
  Kube, Outcome, from_api, scale, scale_by, scale_if_set, scale_diffs, scale_out,
}
use inplaceu.Sync.Scale.Deletions.{OneRun, serving, scale_deletions-OneRun}
use inplaceu.Sync.Scale.Ids.{is_fresh, uses, get_or_gen_available_ids-fresh}

nonneg : (x : ℤ) → pos 0 ≤ℤ x → (n : ℕ) × (x ≡ pos n)
nonneg x h = (pos_part x, ground arith)

module _ (sets : StringSet) (client : Client) (kube : Kube) (iu : Inplaceu) (rev : Text)
    (pods : List Pod) (stream : List Text) (s : Ctl sets client) where
  open sets use {Carrier, has, list}

  -- One run of `createPods`, for the number of pods to create and with IDs that no pod uses.
  pub record OneCreation (d : ExpectationDiffs) (r : Outcome sets client kube) : Type 0 where
    pub asked : pos 0 <ℤ d.scale_up_num
    pub ids : Carrier
    pub run :
        r
        ≡ from_api sets client kube
            (create_pods sets client kube.from_template d.scale_up_num iu rev (list ids) s)
    pub fresh : (id : Text) → (has id ids && any (uses id) pods) ≡ false

  scale_out-OneCreation :
      (d : ExpectationDiffs)
      → pos 0 <ℤ d.scale_up_num
      → pos_part d.scale_up_num ≤ count (is_fresh pods) stream
      → OneCreation d (scale_out sets client kube iu rev d pods stream s)
  unfolding scale_out
  scale_out-OneCreation d asked enough =
      let (ids, rest, e, fresh) =
        get_or_gen_available_ids-fresh sets d.scale_up_num pods stream enough in
      record { asked = asked; ids = ids; run = rw (e, scale_out) refl; fresh = fresh }

  scale-by :
      (d : ExpectationDiffs) (replicas : ℤ)
      → iu.spec.replicas ≡ some replicas
      → calculate_diffs_with_expectation kube.resolve iu pods rev ≡ some d
      → scale sets client kube iu rev pods stream s
        ≡ scale_by sets client kube iu rev d pods stream s
  unfolding scale
  scale-by d replicas h computed =
      ap (λ o. scale_if_set sets client kube o iu rev pods stream s) h
      ∙ ap (λ o. scale_diffs sets client kube iu rev o pods stream s) computed

  -- The two kinds of calls.
  abbrev pub ScaledBy : ExpectationDiffs → Outcome sets client kube → Type 0
  ScaledBy d r =
      OneCreation d r
      ⊎ ((d.scale_up_num ≤ℤ pos 0)
          × OneRun sets client kube (serving sets client kube iu) iu d.delete_ready_limit s r)

  scale_by-ScaledBy :
      (d : ExpectationDiffs)
      → (n : ℕ) × (d.scale_down_num ≡ pos n)
      → pos_part d.scale_up_num ≤ count (is_fresh pods) stream
      → ScaledBy d (scale_by sets client kube iu rev d pods stream s)
  unfolding scale_by
  scale_by-ScaledBy d (n, down) enough = elim (Bool-cases (ltb_ℤ (pos 0) d.scale_up_num)) [
    | inl up ↦
        rw (up, scale_by)
          (inl (scale_out-OneCreation d (ltb_ℤ→lt (pos 0) d.scale_up_num up) enough))
    | inr still ↦
        rw (still, scale_by)
          (inr (
            ltb_ℤ→le (pos 0) d.scale_up_num still,
            scale_deletions-OneRun sets client kube iu d n _ _ s down,
          ))
  ]

  -- With the replicas and the rolling update set, and random texts enough for the pods to create,
  -- `Scale` makes one call: where there are pods to create, one run of `createPods` for that number
  -- with IDs that no pod uses; else one run of `deletePods`, on pods of which no more are available
  -- than the limit on deleting such pods.
  pub scale-ScaledBy :
      (d : ExpectationDiffs) (replicas : ℤ) (rolling : RollingUpdate)
      → iu.spec.replicas ≡ some replicas
      → iu.spec.rolling_update ≡ some rolling
      → calculate_diffs_with_expectation kube.resolve iu pods rev ≡ some d
      → pos_part d.scale_up_num ≤ count (is_fresh pods) stream
      → ScaledBy d (scale sets client kube iu rev pods stream s)
  scale-ScaledBy d replicas rolling h g computed enough =
      let reaches =
        calculate_diffs-Reaches kube.resolve iu pods rev d replicas rolling h g computed in
      subst (ScaledBy d) (sym (scale-by d replicas h computed))
        (scale_by-ScaledBy d (nonneg d.scale_down_num reaches.down_nonneg) enough)
