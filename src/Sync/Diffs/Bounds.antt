-- ===== src/Sync/Diffs/Bounds.antt =====
-- What the numbers of `calculateDiffsWithExpectation` promise to the scaling and the updating.
use inplaceu.Base.{
  ℕ, suc, ◌+◌, ◌≡◌, refl, ◌≤◌, ◌<◌, ◌⊎◌, inl, inr, Bool, true, false, not, ◌&&◌, ◌||◌, List, [],
  ◌∷◌, Text, length, count, arith, if◌then◌else◌, Bool-cases,
}
use inplaceu.Base.Int.{
  ℤ, pos, ◌+ℤ◌, ◌-ℤ◌, ltb_ℤ, eqb_ℤ, max_ℤ, min_ℤ, ◌≤ℤ◌, ◌<ℤ◌, +ℤ_parts, -ℤ_parts, eq_of_parts,
  ltb_ℤ→lt, ltb_ℤ→le, max_ℤ_bounds, min_ℤ_bounds,
}
use inplaceu.Sync.Diffs.{Counts, surge, scale_nums, ready_limit}

pub ruleset int_tests =
    (arith, +ℤ_parts, -ℤ_parts, eq_of_parts, ltb_ℤ→lt, ltb_ℤ→le, max_ℤ_bounds, min_ℤ_bounds)

-- The pods specified to delete, of both revisions.
abbrev pub to_delete : Counts → ℤ
to_delete c = pos c.to_delete_new +ℤ pos c.to_delete_old

pub scale_nums_bounds :
    (expected current : ℤ) (c : Counts)
    → let (up, down) = scale_nums expected current c in
      (pos 0 ≤ℤ up)
      × (pos 0 ≤ℤ down)
      × (pos 0 <ℤ up → (current +ℤ up ≡ expected) × (down ≡ pos 0))
      × (pos 0 <ℤ down → current -ℤ to_delete c -ℤ down ≡ expected)
      × (up ≤ℤ pos 0 → down ≤ℤ pos 0 → (expected ≤ℤ current) × (current ≤ℤ expected +ℤ to_delete c))
unfolding scale_nums
scale_nums_bounds expected current c =
    let num = expected -ℤ current in
    let down_num = current -ℤ expected -ℤ pos c.to_delete_new -ℤ pos c.to_delete_old in
    elim (Bool-cases (ltb_ℤ (pos 0) num)) [
      | inl up ↦ rw up (omega int_tests)
      | inr no_up ↦ elim (Bool-cases (ltb_ℤ (pos 0) down_num)) [
        | inl down ↦ rw (no_up, down) (omega int_tests)
        | inr no_down ↦ rw (no_up, no_down) (omega int_tests)
      ]
    ]

pub surge_bounds :
    (max_surge : ℤ) (c : Counts)
    → (pos 0 ≤ℤ surge max_surge c)
      × ((surge max_surge c ≡ pos 0) ⊎ (surge max_surge c ≤ℤ max_surge))
      × ((surge max_surge c ≤ℤ to_delete c)
          ⊎ (surge max_surge c ≤ℤ pos c.old_revision -ℤ pos c.to_delete_old))
unfolding surge max_ℤ min_ℤ ltb_ℤ ◌+ℤ◌ ◌-ℤ◌
surge_bounds max_surge c = ground arith

-- The limit on the running pods that may be deleted, when one may be.
pub ready_limit_bounds :
    (max_unavailable current replicas down : ℤ) (c : Counts)
    → (pos 0 ≤ℤ ready_limit max_unavailable current replicas down c)
      × ((ready_limit max_unavailable current replicas down c ≡ pos 0)
          ⊎ (ready_limit max_unavailable current replicas down c
              ≡ max_unavailable
                +ℤ (current -ℤ replicas)
                -ℤ (pos c.unavailable_old +ℤ pos c.unavailable_new)))
unfolding ready_limit max_ℤ
ready_limit_bounds max_unavailable current replicas down c =
    let tests =
      ltb_ℤ (pos 0) (pos c.to_delete_new)
      || ltb_ℤ (pos 0) (pos c.to_delete_old)
      || ltb_ℤ (pos 0) down in
    let spare =
      max_unavailable
      +ℤ (current -ℤ replicas)
      -ℤ (pos c.unavailable_old +ℤ pos c.unavailable_new) in
    elim (Bool-cases tests) [
      | inl some_delete ↦ rw some_delete (elim (Bool-cases (ltb_ℤ spare (pos 0))) [
        | inl short ↦ rw short (omega arith, inl refl)
        | inr long ↦ rw long (omega int_tests, inr refl)
      ])
      | inr no_delete ↦ rw no_delete (omega arith, inl refl)
    ]
