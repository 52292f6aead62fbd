-- ===== src/Expectations/Versions/Newest.antt =====
-- The expectation of an object is its newest version: it is met by a version as new as every one
-- that was expected.
use inplaceu.Base.{
  ℕ, true, none, some, List, [], ◌∷◌, ◌≡◌, refl, ◌∙◌, ◌↔◌, ◌≤◌, Text, text_eq, lookup, insert,
  parse_uint, arith, All, lookup-insert, ==_refl, Bool-cases, inl, inr, ◌⊎◌,
}
use inplaceu.Expectations.Versions.{
  ObjectCacheVersions, Versions, is_resource_version_newer, expect, is_satisfied,
}

-- The number that a resource version stands for.
abbrev pub IsNumber : Text → ℕ → Type 0
IsNumber version n = parse_uint version ≡ some n

newer_iff :
    (old new : Text) {a b : ℕ}
    → IsNumber old a
    → IsNumber new b
    → (is_resource_version_newer old new ≡ true) ↔ (a ≤ b)
unfolding is_resource_version_newer parse_uint
newer_iff [] new p q = cc
newer_iff (c ∷ old) new p q = ground arith

-- The loop that expects one version after another of an object.
abbrev pub expect_all : Text → List Text → Versions → Versions
expect_all uid [] r = r
expect_all uid (v ∷ vs) r = expect_all uid vs (expect uid v r)

-- Every version of the list is a number at most `n`.
abbrev pub AllAtMost : ℕ → List Text → Type 0
AllAtMost n = All (λ v. (m : ℕ) × IsNumber v m × (m ≤ n))

abbrev pub Numbers : List Text → Type 0
Numbers = All (λ v. (m : ℕ) × IsNumber v m)

-- The expectation of the object is the number `m`.
Expects : Text → ℕ → Versions → Type 0
Expects uid m r = (e : ObjectCacheVersions) × (lookup uid r ≡ some e) × IsNumber e.version m

Expects-insert :
    (uid : Text) {m : ℕ} (e : ObjectCacheVersions) (r : Versions)
    → IsNumber e.version m
    → Expects uid m (insert uid e r)
unfolding Expects
Expects-insert uid e r p = (e, lookup-insert uid uid e r ∙ rw (==_refl uid), p)

expect-first :
    (uid v : Text) {n : ℕ} (r : Versions)
    → lookup uid r ≡ none
    → IsNumber v n
    → Expects uid n (expect uid v r)
unfolding expect is_resource_version_newer
expect-first uid v r h p = rw (h, expect) (Expects-insert uid _ r p)

-- One more version raises the expectation to it, if it is newer.
expect-next :
    (uid v : Text) {m n : ℕ} (r : Versions)
    → Expects uid m r
    → IsNumber v n
    → (k : ℕ) × Expects uid k (expect uid v r) × ((k ≡ m) ⊎ (k ≡ n)) × (m ≤ k) × (n ≤ k)
unfolding expect Expects
expect-next uid v {m} {n} r (e, h, q) p =
    elim (Bool-cases (is_resource_version_newer e.version v)) [
      | inl newer ↦ (
        n,
        rw (h, expect, newer) (Expects-insert uid _ r p),
        inr refl,
        (newer_iff e.version v q p).0 newer,
        omega arith,
      )
      | inr older ↦ (
        m,
        rw (h, expect, older) (Expects-insert uid e r q),
        inl refl,
        omega arith,
        ground (arith, newer_iff e.version v q p),
      )
    ]

expect_all-Expects :
    (uid : Text) (m : ℕ) (vs : List Text) (r : Versions)
    → Expects uid m r
    → Numbers vs
    → (k : ℕ) × Expects uid k (expect_all uid vs r)
      × ((n : ℕ) → (k ≤ n) ↔ ((m ≤ n) × AllAtMost n vs))
expect_all-Expects uid m [] r x ns = (m, x, λ n. ((λ h. (h, tt)), (λ h. h.0)))
expect_all-Expects uid m (v ∷ vs) r x ((n, p), ns) =
    let (k, x', choice, above_m, above_n) = expect-next uid v r x p in
    let (j, x'', bound) = expect_all-Expects uid k vs (expect uid v r) x' ns in
    (
      j,
      x'',
      λ t. (
        (λ h. let (below, rest) = (bound t).0 h in (omega arith, ((n, p, omega arith), rest))),
        (λ h. (bound t).1 (ground arith, h.1.1)),
      ),
    )

is_satisfied-Expects :
    (now later : ℕ) (uid w : Text) {m n : ℕ} (r : Versions)
    → Expects uid m r
    → IsNumber w n
    → ((is_satisfied now later uid w r).1 ≡ true) ↔ (m ≤ n)
unfolding is_satisfied Expects
is_satisfied-Expects now later uid w r (e, h, q) p =
    rw (h, is_satisfied) (ground (arith, newer_iff e.version w q p))

-- After any versions were expected of an object that had no expectation, a version meets the
-- expectation exactly when it is at least as new as every one of them.
pub is_satisfied-expect_all :
    (now later : ℕ) (uid w v : Text) (vs : List Text) (n : ℕ) (r : Versions)
    → lookup uid r ≡ none
    → Numbers (v ∷ vs)
    → IsNumber w n
    → ((is_satisfied now later uid w (expect_all uid (v ∷ vs) r)).1 ≡ true) ↔ AllAtMost n (v ∷ vs)
is_satisfied-expect_all now later uid w v vs n r h ((m, p), ns) q =
    let (k, x, bound) =
      expect_all-Expects uid m vs (expect uid v r) (expect-first uid v r h p) ns in
    let met = is_satisfied-Expects now later uid w _ x q in
    (
      (λ s. let (below, rest) = (bound n).0 (met.0 s) in ((m, p, below), rest)),
      (λ a. met.1 ((bound n).1 (ground arith, a.1))),
    )
