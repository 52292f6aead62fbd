-- ===== src/Expectations/Versions/Answer.antt =====
-- What `IsSatisfied` and `Observe` leave in the store of resource versions.
use inplaceu.Base.{
  ℕ, Bool, true, false, none, some, ◌≡◌, refl, sym, ◌∙◌, Text, text_eq, lookup, insert, remove,
  nat_beq, subst, if◌then◌else◌, arith, lookup-insert, lookup-remove, ==_refl, ◌==◌, Bool-cases,
  inl, inr, Option-cases,
}
use inplaceu.Base.Int.{pos, sub_ℕ}
use inplaceu.Expectations.Versions.{
  ObjectCacheVersions, Versions, is_resource_version_newer, observe, is_satisfied,
}

-- What `IsSatisfied` leaves: the object's expectation, and those of the others.
abbrev Effect : Text → Versions → Bool → Versions → Type 0
Effect uid r verdict r' =
    (verdict ≡ true → lookup uid r' ≡ none)
    × (verdict ≡ false
        → (e e' : ObjectCacheVersions) → lookup uid r ≡ some e
        → lookup uid r' ≡ some e'
        → e'.version ≡ e.version)
    × ((other : Text) → (uid == other) ≡ false → lookup other r' ≡ lookup other r)

remove-Effect : (uid : Text) (r : Versions) → Effect uid r true (remove uid r)
remove-Effect uid r = (
  (λ _. lookup-remove uid uid r ∙ rw (==_refl uid)),
  (λ h. cc),
  λ other h. lookup-remove uid other r ∙ rw h,
)

restamp-Effect :
    (uid : Text) (t : ℕ) (e : ObjectCacheVersions) (r : Versions)
    → lookup uid r ≡ some e
    → Effect uid r false (insert uid (record e { first_unsatisfied_timestamp = t }) r)
restamp-Effect uid t e r h =
    let e₁ : ObjectCacheVersions = record e { first_unsatisfied_timestamp = t } in
    (
      (λ g. cc),
      (λ _ d d' p q. ground (arith, h, lookup-insert uid uid e₁ r, ==_refl uid)),
      λ other g. lookup-insert uid other e₁ r ∙ rw g,
    )

module _ (now later : ℕ) (uid w : Text) (r : Versions) (e : ObjectCacheVersions)
    (h : lookup uid r ≡ some e) where
  met :
      is_resource_version_newer e.version w ≡ true
      → is_satisfied now later uid w r ≡ (remove uid r, true, pos 0)
  unfolding is_satisfied
  met newer = rw (h, is_satisfied, newer)

  unmet :
      is_resource_version_newer e.version w ≡ false
      → let first : ℕ =
          if nat_beq e.first_unsatisfied_timestamp 0 then now else e.first_unsatisfied_timestamp in
        is_satisfied now later uid w r ≡ (
          insert uid (record e { first_unsatisfied_timestamp = first }) r,
          false,
          sub_ℕ later first,
        )
  unfolding is_satisfied
  unmet older = rw (h, is_satisfied, older)

no_expectation :
    (now later : ℕ) (uid w : Text) (r : Versions)
    → lookup uid r ≡ none
    → is_satisfied now later uid w r ≡ (r, true, pos 0)
unfolding is_satisfied
no_expectation now later uid w r h = rw (h, is_satisfied)

-- A version that meets the expectation ends it, and one that does not leaves the expected version;
-- no other object is touched.
pub is_satisfied-Effect :
    (now later : ℕ) (uid w : Text) (r : Versions)
    → let (r', verdict, waited) = is_satisfied now later uid w r in
      (verdict ≡ true → lookup uid r' ≡ none)
      × (verdict ≡ false
          → (e e' : ObjectCacheVersions) → lookup uid r ≡ some e
          → lookup uid r' ≡ some e'
          → e'.version ≡ e.version)
      × ((other : Text) → (uid == other) ≡ false → lookup other r' ≡ lookup other r)
is_satisfied-Effect now later uid w r = elim (Option-cases (lookup uid r)) [
  | inl h ↦
      subst (λ t. Effect uid r t.1 t.0) (sym (no_expectation now later uid w r h))
        ((λ _. h), (λ g. cc), λ other g. refl)
  | inr (e, h) ↦ elim (Bool-cases (is_resource_version_newer e.version w)) [
    | inl newer ↦
        subst (λ t. Effect uid r t.1 t.0) (sym (met now later uid w r e h newer))
          (remove-Effect uid r)
    | inr older ↦
        subst (λ t. Effect uid r t.1 t.0) (sym (unmet now later uid w r e h older))
          (restamp-Effect uid _ e r h)
  ]
]

-- Observing a version first gives the verdict that asking for it gives.
pub is_satisfied-observe :
    (now later : ℕ) (uid w : Text) (r : Versions)
    → (is_satisfied now later uid w (observe uid w r)).1 ≡ (is_satisfied now later uid w r).1
unfolding observe
is_satisfied-observe now later uid w r = elim (Option-cases (lookup uid r)) [
  | inl h ↦ rw (h, observe)
  | inr (e, h) ↦ elim (Bool-cases (is_resource_version_newer e.version w)) [
    | inl newer ↦
        rw (h, observe, newer)
          (cc (
            met now later uid w r e h newer,
            no_expectation now later uid w (remove uid r)
                (rw (lookup-remove uid uid r, ==_refl uid)),
          ))
    | inr older ↦ rw (h, observe, older)
  ]
]
