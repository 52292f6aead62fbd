-- ===== src/Sync/Scale/Valid.antt =====
-- `Scale` keeps the cache of expectations valid on every branch.
use inplaceu.Base.{
  inl, inr, Bool, true, false, Option, none, some, List, Text, Bool-cases, Option-cases, is_empty,
}
use inplaceu.Base.Int.{ℤ, pos, ltb_ℤ}
use inplaceu.Api.{Pod, Inplaceu}
use inplaceu.Sets.{StringSet}
use inplaceu.Utils.Pods.{is_pod_available}
use inplaceu.Core.{new_versioned_pods}
use inplaceu.Expectations.Scale.Valid.{IsValid}
use inplaceu.Sync.State.{Client}
use inplaceu.Sync.Deletes.{Ctl, delete_pods}
use inplaceu.Sync.Deletes.Valid.{delete_pods-IsValid}
use inplaceu.Sync.Creates.{create_pods}
use inplaceu.Sync.Creates.Awaited.{create_pods-Created}
use inplaceu.Sync.Diffs.{ExpectationDiffs, calculate_diffs_with_expectation}
use inplaceu.Sync.Scale.{
  Kube, Outcome, scale, scale_by, scale_if_set, scale_diffs, scale_out, scale_in, scale_deletions,
  within_limit, choose_pods_to_delete, after_specified, from_api, get_or_gen_available_ids,
}

module _ (sets : StringSet) (client : Client) (kube : Kube) where
  open client use {ApiError}

  -- What an outcome leaves, if it leaves anything.
  abbrev pub KeepsValid : Outcome sets client kube → Type 0
  KeepsValid none = Unit
  KeepsValid (some r) = IsValid sets r.0.scale_expectations

  abbrev Valid : Ctl sets client → Type 0
  Valid s = IsValid sets s.scale_expectations

  made-KeepsValid :
      (n : ℤ) (iu : Inplaceu) (rev : Text) (ids : List Text) (s : Ctl sets client)
      → Valid s
      → KeepsValid
          (from_api sets client kube (create_pods sets client kube.from_template n iu rev ids s))
  unfolding create_pods
  made-KeepsValid n iu rev ids s v =
      elim (Option-cases (new_versioned_pods kube.from_template iu rev n ids)) [
        | inl e ↦ rw (e, create_pods) tt
        | inr (pods, e) ↦
            let created =
              create_pods-Created sets client kube.from_template n iu rev ids pods s e in
            rw created.result (created.kept_valid v)
      ]

  scale_out-KeepsValid :
      (iu : Inplaceu) (rev : Text) (d : ExpectationDiffs) (pods : List Pod) (stream : List Text)
      (s : Ctl sets client)
      → Valid s
      → KeepsValid (scale_out sets client kube iu rev d pods stream s)
  unfolding scale_out
  scale_out-KeepsValid iu rev d pods stream s v =
      elim (Option-cases (get_or_gen_available_ids sets d.scale_up_num pods stream)) [
        | inl e ↦ rw (e, scale_out) tt
        | inr ((ids, rest), e) ↦
            rw (e, scale_out) (made-KeepsValid d.scale_up_num iu rev (sets.list ids) s v)
      ]

  scale_in-KeepsValid :
      (iu : Inplaceu) (n limit : ℤ) (pods : List Pod) (s : Ctl sets client)
      → Valid s
      → KeepsValid (scale_in sets client kube iu n limit pods s)
  unfolding scale_in
  scale_in-KeepsValid iu n limit pods s v = elim (Bool-cases (ltb_ℤ (pos 0) n)) [
    | inr e ↦ rw (e, scale_in) v
    | inl e ↦ elim (Option-cases (choose_pods_to_delete kube.sort kube.ready n pods)) [
      | inl g ↦ rw (e, scale_in, g) tt
      | inr (preparing, g) ↦ rw (e, scale_in, g) (delete_pods-IsValid sets client iu _ s v)
    ]
  ]

  after_specified-KeepsValid :
      (r : Ctl sets client × Bool × Option ApiError)
      (rest : Ctl sets client → Outcome sets client kube)
      → Valid r.0
      → ((s : Ctl sets client) → Valid s → KeepsValid (rest s))
      → KeepsValid (after_specified sets client kube r rest)
  after_specified-KeepsValid (s, modified, some e) rest v next = v
  after_specified-KeepsValid (s, true, none) rest v next = v
  after_specified-KeepsValid (s, false, none) rest v next = next s v

  scale_deletions-KeepsValid :
      (iu : Inplaceu) (d : ExpectationDiffs) (specified pods : List Pod) (s : Ctl sets client)
      → Valid s
      → KeepsValid (scale_deletions sets client kube iu d specified pods s)
  unfolding scale_deletions
  scale_deletions-KeepsValid iu d specified pods s v = elim (Bool-cases (is_empty specified)) [
    | inl e ↦
        rw (e, scale_deletions)
          (scale_in-KeepsValid iu d.scale_down_num d.delete_ready_limit pods s v)
    | inr e ↦
        let serves = λ (p : Pod). is_pod_available kube.available p iu.spec.min_ready_seconds in
        let (chosen, limit) = within_limit serves d.delete_ready_limit specified in
        rw (e, scale_deletions)
          (after_specified-KeepsValid (delete_pods sets client iu chosen s)
            (scale_in sets client kube iu d.scale_down_num limit pods)
            (delete_pods-IsValid sets client iu chosen s v)
            (scale_in-KeepsValid iu d.scale_down_num limit pods))
  ]

  scale_by-KeepsValid :
      (iu : Inplaceu) (rev : Text) (d : ExpectationDiffs) (pods : List Pod) (stream : List Text)
      (s : Ctl sets client)
      → Valid s
      → KeepsValid (scale_by sets client kube iu rev d pods stream s)
  unfolding scale_by
  scale_by-KeepsValid iu rev d pods stream s v = elim (Bool-cases (ltb_ℤ (pos 0) d.scale_up_num)) [
    | inl e ↦ rw (e, scale_by) (scale_out-KeepsValid iu rev d pods stream s v)
    | inr e ↦ rw (e, scale_by) (scale_deletions-KeepsValid iu d _ _ s v)
  ]

  scale_diffs-KeepsValid :
      (iu : Inplaceu) (rev : Text) (o : Option ExpectationDiffs) (pods : List Pod)
      (stream : List Text) (s : Ctl sets client)
      → Valid s
      → KeepsValid (scale_diffs sets client kube iu rev o pods stream s)
  scale_diffs-KeepsValid iu rev none pods stream s v = tt
  scale_diffs-KeepsValid iu rev (some d) pods stream s v =
      scale_by-KeepsValid iu rev d pods stream s v

  scale_if_set-KeepsValid :
      (o : Option ℤ) (iu : Inplaceu) (rev : Text) (pods : List Pod) (stream : List Text)
      (s : Ctl sets client)
      → Valid s
      → KeepsValid (scale_if_set sets client kube o iu rev pods stream s)
  scale_if_set-KeepsValid none iu rev pods stream s v = v
  scale_if_set-KeepsValid (some n) iu rev pods stream s v =
      scale_diffs-KeepsValid iu rev (calculate_diffs_with_expectation kube.resolve iu pods rev) pods
        stream s v

  pub scale-KeepsValid :
      (iu : Inplaceu) (rev : Text) (pods : List Pod) (stream : List Text) (s : Ctl sets client)
      → Valid s
      → KeepsValid (scale sets client kube iu rev pods stream s)
  unfolding scale
  scale-KeepsValid iu rev pods stream s v =
      scale_if_set-KeepsValid iu.spec.replicas iu rev pods stream s v
