-- ===== src/Expectations/Versions.antt =====
-- internal/utils/expectations/resource_version_expection.go: the resource versions that the
-- controller has written and not seen yet. An object is taken by its UID and its resource version.
-- `now` is the clock at `time.Now`, `later` at `time.Since`; the mutex makes each method one step.
pub mod Answer
pub mod Newest
use inplaceu.Base.{
  ℕ, Bool, true, false, Option, none, some, [], Text, text_eq, Dict, lookup, insert, remove, leb,
  nat_beq, is_empty, parse_uint, if◌then◌else◌,
}
use inplaceu.Base.Int.{ℤ, pos, sub_ℕ}

pub record ObjectCacheVersions : Type 0 where
  pub version : Text
  pub first_unsatisfied_timestamp : ℕ

-- The field `objectVersions`.
abbrev pub Versions : Type 0
Versions = Dict Text ObjectCacheVersions

unfoldable pub new_resource_version_expectation : Versions
new_resource_version_expectation = []

abbrev newer_count : Option ℕ → Option ℕ → Bool
newer_count none new = true
newer_count (some old) none = false
newer_count (some old) (some new) = leb old new

unfoldable pub is_resource_version_newer : Text → Text → Bool
is_resource_version_newer old new =
    if is_empty old then true else newer_count (parse_uint old) (parse_uint new)

abbrev or_new : Option ObjectCacheVersions → ObjectCacheVersions
or_new none = record { version = []; first_unsatisfied_timestamp = 0 }
or_new (some e) = e

unfoldable pub expect : Text → Text → Versions → Versions
expect uid resource_version r =
    let e = or_new (lookup uid r) in
    insert uid
      (if is_resource_version_newer e.version resource_version
        then record e { version = resource_version }
        else e)
      r

unfoldable pub observe : Text → Text → Versions → Versions
observe uid resource_version r = elim (lookup uid r) [
  | none ↦ r
  | some e ↦ if is_resource_version_newer e.version resource_version then remove uid r else r
]

-- The new state, the verdict and how long it has not held.
unfoldable pub is_satisfied : ℕ → ℕ → Text → Text → Versions → Versions × Bool × ℤ
is_satisfied now later uid resource_version r = elim (lookup uid r) [
  | none ↦ (r, true, pos 0)
  | some e ↦
      let first : ℕ =
        if nat_beq e.first_unsatisfied_timestamp 0 then now else e.first_unsatisfied_timestamp in
      if is_resource_version_newer e.version resource_version
      then (remove uid r, true, pos 0)
      else (
        insert uid (record e { first_unsatisfied_timestamp = first }) r,
        false,
        sub_ℕ later first,
      )
]

unfoldable pub delete : Text → Versions → Versions
delete uid r = remove uid r
