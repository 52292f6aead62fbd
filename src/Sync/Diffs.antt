-- ===== src/Sync/Diffs.antt =====
-- `calculateDiffsWithExpectation` of internal/sync/inplaceu_scale_util.go. `resolve` is
-- `intstrutil.GetValueFromIntOrPercent` of Kubernetes, whose error the code drops; the counts of a
-- Go `int` are integers here, with no bound. `none` is a dereference of a nil pointer.
pub mod Counting
pub mod Bounds
pub mod Targets
use inplaceu.Base.{
  ℕ, suc, Bool, true, false, ◌&&◌, ◌||◌, Option, none, some, List, [], ◌∷◌, Text, length,
  if◌then◌else◌,
}
use inplaceu.Base.Int.{ℤ, pos, ◌+ℤ◌, ◌-ℤ◌, ltb_ℤ, eqb_ℤ, max_ℤ, min_ℤ}
use inplaceu.Api.{Inplaceu, Pod, IntOrString, int_value, RollingUpdate}
use inplaceu.Utils.Hash.{equal_to_revision_hash}
use inplaceu.Utils.Pods.{is_running, is_specified_delete}

pub record ExpectationDiffs : Type 0 where
  pub scale_up_num : ℤ
  pub scale_down_num : ℤ
  pub delete_ready_limit : ℤ
  pub use_surge : ℤ
  pub update_num : ℤ
  pub update_max_unavailable : ℤ

abbrev pub no_diffs : ExpectationDiffs
no_diffs = record {
  scale_up_num = pos 0;
  scale_down_num = pos 0;
  delete_ready_limit = pos 0;
  use_surge = pos 0;
  update_num = pos 0;
  update_max_unavailable = pos 0;
}

-- `isEmpty` compares every field with that of the zero value.
unfoldable pub is_empty : ExpectationDiffs → Bool
is_empty e =
    eqb_ℤ e.scale_up_num (pos 0)
    && eqb_ℤ e.scale_down_num (pos 0)
    && eqb_ℤ e.delete_ready_limit (pos 0)
    && eqb_ℤ e.use_surge (pos 0)
    && eqb_ℤ e.update_num (pos 0)
    && eqb_ℤ e.update_max_unavailable (pos 0)

-- The six counters of the loop over the pods.
pub record Counts : Type 0 where
  pub new_revision : ℕ
  pub old_revision : ℕ
  pub unavailable_new : ℕ
  pub unavailable_old : ℕ
  pub to_delete_new : ℕ
  pub to_delete_old : ℕ

abbrev pub no_counts : Counts
no_counts = record {
  new_revision = 0;
  old_revision = 0;
  unavailable_new = 0;
  unavailable_old = 0;
  to_delete_new = 0;
  to_delete_old = 0;
}

unfoldable pub count_new : Pod → Counts → Counts
count_new p c =
    let c' = record c { new_revision = suc c.new_revision } in
    if is_specified_delete p
    then record c' { to_delete_new = suc c.to_delete_new }
    else if is_running p
    then c'
    else record c' { unavailable_new = suc c.unavailable_new }

unfoldable pub count_old : Pod → Counts → Counts
count_old p c =
    let c' = record c { old_revision = suc c.old_revision } in
    if is_specified_delete p
    then record c' { to_delete_old = suc c.to_delete_old }
    else if is_running p
    then c'
    else record c' { unavailable_old = suc c.unavailable_old }

unfoldable pub count_pods : Text → List Pod → Counts → Counts
unfolding count_new count_old
count_pods update_revision [] c = c
count_pods update_revision (p ∷ pods) c =
    count_pods update_revision pods
      (if equal_to_revision_hash p.labels update_revision then count_new p c else count_old p c)

-- The surge: as many as will be deleted or have to be updated, within the limit.
unfoldable pub surge : ℤ → Counts → ℤ
surge max_surge c =
    let to_delete = pos c.to_delete_new +ℤ pos c.to_delete_old in
    let wanted = if ltb_ℤ (pos 0) to_delete then to_delete else pos 0 in
    let stale = pos c.old_revision -ℤ pos c.to_delete_old in
    let wanted' =
      if ltb_ℤ (pos c.to_delete_old) (pos c.old_revision) then max_ℤ wanted stale else wanted in
    if ltb_ℤ (pos 0) max_surge then min_ℤ wanted' max_surge else pos 0

unfoldable pub scale_nums : ℤ → ℤ → Counts → ℤ × ℤ
scale_nums expected current c =
    let num = expected -ℤ current in
    let down_num = current -ℤ expected -ℤ pos c.to_delete_new -ℤ pos c.to_delete_old in
    if ltb_ℤ (pos 0) num
    then (num, pos 0)
    else if ltb_ℤ (pos 0) down_num
    then (pos 0, down_num)
    else (pos 0, pos 0)

unfoldable pub ready_limit : ℤ → ℤ → ℤ → ℤ → Counts → ℤ
ready_limit max_unavailable current replicas scale_down_num c =
    let total_unavailable = pos c.unavailable_old +ℤ pos c.unavailable_new in
    if ltb_ℤ (pos 0) (pos c.to_delete_new)
      || ltb_ℤ (pos 0) (pos c.to_delete_old)
      || ltb_ℤ (pos 0) scale_down_num
    then max_ℤ (max_unavailable +ℤ (current -ℤ replicas) -ℤ total_unavailable) (pos 0)
    else pos 0

-- The part behind the loop, from the replicas, the two limits and the number of pods.
unfoldable pub diffs_of_counts : ℤ → ℤ → ℤ → ℤ → Counts → ExpectationDiffs
unfolding surge scale_nums ready_limit
diffs_of_counts replicas max_surge max_unavailable current c =
    let use_surge = surge max_surge c in
    let nums = scale_nums (replicas +ℤ use_surge) current c in
    let outdated = ltb_ℤ (pos c.to_delete_old) (pos c.old_revision) in
    record {
      scale_up_num = nums.0;
      scale_down_num = nums.1;
      delete_ready_limit = ready_limit max_unavailable current replicas nums.1 c;
      use_surge = use_surge;
      update_num = if outdated then pos c.old_revision -ℤ pos c.to_delete_old else pos 0;
      update_max_unavailable = if outdated then max_unavailable +ℤ current -ℤ replicas else pos 0;
    }

module _ (resolve : IntOrString → ℤ → Bool → ℤ) where
  abbrev pub max_surge_of : Option IntOrString → ℤ → ℤ
  max_surge_of none replicas = pos 0
  max_surge_of (some v) replicas = resolve v replicas true

  -- `intstrutil.ValueOrDefault`.
  abbrev pub value_or_default : Option IntOrString → IntOrString → IntOrString
  value_or_default none d = d
  value_or_default (some v) d = v

  abbrev pub limits : RollingUpdate → ℤ → ℤ × ℤ
  limits rolling replicas =
      let max_surge = max_surge_of rolling.max_surge replicas in
      (
        max_surge,
        resolve (value_or_default rolling.max_unavailable (int_value (pos 0))) replicas
            (eqb_ℤ max_surge (pos 0)),
      )

  abbrev pub diffs_of_spec :
      Option ℤ → Option RollingUpdate → List Pod → Text → Option ExpectationDiffs
  diffs_of_spec none rolling pods update_revision = none
  diffs_of_spec (some replicas) none pods update_revision = none
  diffs_of_spec (some replicas) (some rolling) pods update_revision =
      let (max_surge, max_unavailable) = limits rolling replicas in
      some (
        diffs_of_counts replicas max_surge max_unavailable (pos (length pods))
          (count_pods update_revision pods no_counts))

  unfoldable pub calculate_diffs_with_expectation :
      Inplaceu → List Pod → Text → Option ExpectationDiffs
  unfolding diffs_of_counts count_pods
  calculate_diffs_with_expectation iu pods update_revision =
      diffs_of_spec iu.spec.replicas iu.spec.rolling_update pods update_revision
