-- ===== src/Examples/Syncing.antt =====
-- syncInplaceu and what surrounds it on concrete inputs.
use inplaceu.Base.{
  ℕ, ◌≡◌, refl, sym, ap, ◌⊎◌, inr, false, none, some, [], ◌∷◌, text_eq, arith, ◌≤◌, count, Option,
  subst,
}
use inplaceu.Base.Int.{pos, eqb_ℤ, ltb_ℤ, ◌-ℤ◌, ◌+ℤ◌, pos_part}
use inplaceu.Api.{Inplaceu, bare_pod, int_value}
use inplaceu.Reconciler.Sync.Returns.{Returned, Workable}
use inplaceu.Reconciler.Finish.Returns.{reconcile_active-Returned}
use inplaceu.Reconciler.Finish.{reconcile_active, new_status}
use inplaceu.Sync.Waiting.{wait_update_indexes}
use inplaceu.Sync.Diffs.{ExpectationDiffs, calculate_diffs_with_expectation}
use inplaceu.Sync.Scale.Ids.{is_fresh}
use inplaceu.Sets.Lists.{list_set}
use inplaceu.Sync.Scale.{scale, nil_replicas}
use inplaceu.Events.{request_key}
use inplaceu.Reconciler.Sync.{Setup, sync_inplaceu}
use inplaceu.Reconciler.Sync.Unset.{sync_inplaceu-unset}
use inplaceu.RevisionControl.{apply_revision}
use inplaceu.Examples.{web, a, cluster, start, kube}
use inplaceu.Examples.Setting.{json, calls, setting, request}
use inplaceu.Examples.Revising.{made}
use inplaceu.Examples.Reconciling.{clock, stream}

-- The set with no replicas, and a codec that reads it.
abbrev unset : Inplaceu
unset = record web { spec = record web.spec { replicas = none } }

abbrev unset_setting : Setup cluster
unset_setting = record setting {
  calls = record calls { codec = record json { unmarshal_set = λ t. inr unset } };
}

sync_inplaceu-unset_example :
    (scale list_set cluster kube unset made.name (a ∷ []) [] start
      ≡ some (start, false, some (nil_replicas list_set cluster kube)))
    × (sync_inplaceu list_set cluster unset_setting unset
          (new_status unset (made, made, pos 0))
          made
          made
          (made ∷ [])
          (a ∷ [])
          []
          start
        ≡ none)
unfolding apply_revision wait_update_indexes
sync_inplaceu-unset_example =
    sync_inplaceu-unset list_set cluster unset_setting unset unset unset
      (new_status unset (made, made, pos 0)) made made (made ∷ []) (a ∷ []) [] start refl refl refl
      refl

inr_lem : (x y : Inplaceu) → ◌≡◌ {A = ℕ ⊎ Inplaceu} (inr x) (inr y) → x ≡ y
inr_lem x y e = cc

up_three :
    (d : ExpectationDiffs)
    → calculate_diffs_with_expectation kube.resolve web [] made.name ≡ some d
    → pos_part d.scale_up_num ≤ count (is_fresh []) stream
unfolding calculate_diffs_with_expectation ltb_ℤ ◌-ℤ◌ ◌+ℤ◌ eqb_ℤ
up_three d e =
    let three : pos_part d.scale_up_num ≡ 3 =
      ap (λ (o : Option ExpectationDiffs). elim o [ none ↦ 3 | some x ↦ pos_part x.scale_up_num ])
        (sym e) in
    omega (arith, three)

web-Workable :
    (u : Inplaceu)
    → apply_revision json web made ≡ inr u
    → Workable list_set cluster setting u made.name [] stream
unfolding apply_revision wait_update_indexes
web-Workable u e =
    subst (λ x. Workable list_set cluster setting x made.name [] stream) (inr_lem web u e)
      (record {
        replicas = pos 3;
        has_replicas = refl;
        rolling = record { max_unavailable = some (int_value (pos 1)); max_surge = none };
        has_rolling = refl;
        template = bare_pod [];
        has_template = refl;
        enough = up_three;
        in_range = tt;
      })

reconcile_active-Returned_example : Returned (
    reconcile_active list_set cluster setting clock stream
      (request_key request)
      web
      []
      []
      (made, made, pos 0)
      start)
reconcile_active-Returned_example =
    reconcile_active-Returned list_set cluster setting web (pos 3) 10 refl refl clock stream
      (request_key request) [] [] (made, made, pos 0) start web-Workable
