-- ===== src/Utils/Hash/Labels.antt =====
-- What the hash labels say after they are written, and when two hashes are taken as one.
use mathlib.Core.List.{append_assoc, append-nil}
use inplaceu.Base.{
  true, [], ◌∷◌, ◌++◌, ◌≡◌, ◌≢◌, refl, sym, subst, ==_ne, ◌∙◌, ◌↔◌, Text, text_eq, Dict, split_from,
  last_or, arith, All, lookup, lookup-insert, text_beq_iff, some,
}
use inplaceu.Api.{controller_revision_hash_label_key, default_deployment_unique_label_key}
use inplaceu.Utils.Hash.{get_short_hash, equal_to_revision_hash, write_revision_hash, text_or_empty}

abbrev pub Dashless : Text → Type 0
Dashless = All (λ c. c ≢ b'-')

last-split-Dashless : (d cur s : Text) → Dashless s → last_or d (split_from b'-' cur s) ≡ cur ++ s
last-split-Dashless d cur [] h = rw append-nil
last-split-Dashless d cur (c ∷ s) h =
    ground (arith, last-split-Dashless d (cur ++ c ∷ []) s h.1, append_assoc cur (c ∷ []) s)

last-split_any :
    (d e cur s : Text) → last_or d (split_from b'-' cur s) ≡ last_or e (split_from b'-' cur s)
last-split_any d e cur [] = refl
last-split_any d e cur (c ∷ s) = ground (arith, last-split_any d e (cur ++ c ∷ []) s)

last-split-prefix :
    (d cur p s : Text) → last_or d (split_from b'-' cur (p ++ b'-' ∷ s)) ≡ get_short_hash s
unfolding get_short_hash
last-split-prefix d cur [] s = last-split_any cur [] [] s
last-split-prefix d cur (c ∷ p) s =
    ground (arith, last-split-prefix cur [] p s, last-split-prefix d (cur ++ c ∷ []) p s)

-- The short hash of `<name>-<hash>` is the hash, if that has no dash of its own.
pub get_short_hash_suffix :
    (name hash : Text) → Dashless hash → get_short_hash (name ++ b'-' ∷ hash) ≡ hash
unfolding get_short_hash
get_short_hash_suffix name hash h =
    last-split-prefix [] [] name hash ∙ last-split-Dashless [] [] hash h

-- Two hashes are the same revision exactly when their short forms are equal.
pub equal_to_revision_hash_iff :
    (labels : Dict Text Text) (hash : Text)
    → (equal_to_revision_hash labels hash ≡ true) ↔ (
        get_short_hash (text_or_empty (lookup controller_revision_hash_label_key labels))
        ≡ get_short_hash hash)
unfolding equal_to_revision_hash
equal_to_revision_hash_iff labels hash =
    let found = text_or_empty (lookup controller_revision_hash_label_key labels) in
    ground
      (arith, text_beq_iff found hash, text_beq_iff (get_short_hash hash) (get_short_hash found))

pub lookup-write_revision_hash :
    (labels : Dict Text Text) (hash : Text)
    → text_or_empty (lookup controller_revision_hash_label_key (write_revision_hash labels hash))
      ≡ hash
unfolding write_revision_hash
lookup-write_revision_hash labels hash = simp lookup-insert

equal-write_revision_hash :
    (labels : Dict Text Text) (hash other : Text)
    → (equal_to_revision_hash (write_revision_hash labels hash) other ≡ true)
      ↔ (get_short_hash hash ≡ get_short_hash other)
equal-write_revision_hash labels hash other =
    subst
      (λ t.
        (equal_to_revision_hash (write_revision_hash labels hash) other ≡ true)
        ↔ (get_short_hash t ≡ get_short_hash other))
      (lookup-write_revision_hash labels hash)
      (equal_to_revision_hash_iff (write_revision_hash labels hash) other)

-- After a write the object is at the revision that was written, and at another one exactly when
-- the short hashes are equal; the short label holds the short hash; no other label changes.
pub write_revision_hash_labels :
    (labels : Dict Text Text) (hash other : Text)
    → (equal_to_revision_hash (write_revision_hash labels hash) hash ≡ true)
      × ((equal_to_revision_hash (write_revision_hash labels hash) other ≡ true)
          ↔ (get_short_hash hash ≡ get_short_hash other))
      × (lookup default_deployment_unique_label_key (write_revision_hash labels hash)
          ≡ some (get_short_hash hash))
      × ((key : Text)
          → key ≢ controller_revision_hash_label_key
          → key ≢ default_deployment_unique_label_key
          → lookup key (write_revision_hash labels hash) ≡ lookup key labels)
unfolding write_revision_hash
write_revision_hash_labels labels hash other = (
  (equal-write_revision_hash labels hash hash).1 refl,
  equal-write_revision_hash labels hash other,
  simp lookup-insert,
  λ key h k. simp (lookup-insert, ==_ne (λ e. h (sym e)), ==_ne (λ e. k (sym e))),
)
