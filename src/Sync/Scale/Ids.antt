-- ===== src/Sync/Scale/Ids.antt =====
-- The instance IDs that `getOrGenAvailableIDs` of internal/sync/inplaceu_scale.go makes.
use inplaceu.Base.{
  ℕ, zero, suc, ◌≡◌, ◌≤◌, refl, sym, ap, subst, Bool, false, not, ◌&&◌, ◌||◌, some, List, [], ◌∷◌,
  Text, text_eq, ◌==◌, ==_iff, lookup, count, any, is_empty, arith, Bool-cases, inl, inr,
}
use inplaceu.Base.Int.{ℤ, pos_part}
use inplaceu.Api.{Pod, inplaceu_instance_id}
use inplaceu.Sets.{StringSet}
use inplaceu.Utils.Hash.{text_or_empty}
use inplaceu.Sync.Scale.{existing_ids, get_or_gen_instance_id, gen_ids, get_or_gen_available_ids}

abbrev pub instance_id : Pod → Text
instance_id p = text_or_empty (lookup inplaceu_instance_id p.labels)

-- The pod has this instance ID, and it is not empty.
abbrev pub uses : Text → Pod → Bool
uses id p = not (is_empty (instance_id p)) && instance_id p == id

abbrev pub is_fresh : List Pod → Text → Bool
is_fresh pods id = not (any (uses id) pods)

module _ (sets : StringSet) where
  open sets use {Carrier, new, insert, has, has-new, has-insert}

  has-existing_ids :
      (pods : List Pod) (ids : Carrier) (id : Text)
      → has id (existing_ids sets pods ids) ≡ (any (uses id) pods || has id ids)
  unfolding existing_ids
  has-existing_ids [] ids id = ground arith
  has-existing_ids (p ∷ pods) ids id = elim (Bool-cases (is_empty (instance_id p))) [
    | inl e ↦ rw e (has-existing_ids pods ids id)
    | inr e ↦ rw e (
        ground (
          arith,
          has-existing_ids pods (insert (instance_id p) ids) id,
          has-insert (instance_id p) id ids,
        ))
  ]

  -- The loop returns, leaving all but one of the fresh texts.
  first_fresh :
      (existing : Carrier) (n : ℕ) (stream : List Text)
      → suc n ≤ count (λ id. not (has id existing)) stream
      → (id : Text) × (rest : List Text) × (get_or_gen_instance_id sets existing stream
          ≡ some (id, rest))
        × (has id existing ≡ false)
        × (n ≤ count (λ x. not (has x existing)) rest)
  unfolding get_or_gen_instance_id
  first_fresh existing n [] h = absurd (omega arith)
  first_fresh existing n (id ∷ stream) h = elim (Bool-cases (has id existing)) [
    | inl used ↦
        let (x, rest, e, free, left) = first_fresh existing n stream (ground (arith, used)) in
        (x, rest, rw used e, free, left)
    | inr free ↦ (id, stream, rw free, free, ground (arith, free))
  ]

  gen_ids-fresh :
      (existing : Carrier) (n : ℕ) (stream : List Text) (ret : Carrier)
      → n ≤ count (λ id. not (has id existing)) stream
      → ((id : Text) → (has id ret && has id existing) ≡ false)
      → (ids : Carrier) × (rest : List Text) × (gen_ids sets n existing stream ret
          ≡ some (ids, rest))
        × ((id : Text) → (has id ids && has id existing) ≡ false)
  unfolding gen_ids
  gen_ids-fresh existing zero stream ret h apart = (ret, stream, refl, apart)
  gen_ids-fresh existing (suc n) stream ret h apart =
      let (id, stream', e, free, left) = first_fresh existing n stream h in
      let (ids, rest, e', apart') = gen_ids-fresh existing n stream' (insert id ret) left (λ x.
        elim (Bool-cases (id == x)) [
          | inl same ↦ ground (arith, ap (λ t. has t existing) ((==_iff id x).0 same), free)
          | inr other ↦ ground (arith, has-insert id x ret, other, apart x)
        ]) in
      (ids, rest, rw e e', apart')

  -- If the random texts hold as many as are asked for, counted with repetitions, that no pod uses as
  -- its instance ID, then `getOrGenAvailableIDs` returns, and none of the IDs in its set is one that
  -- a pod uses.
  pub get_or_gen_available_ids-fresh :
      (num : ℤ) (pods : List Pod) (stream : List Text)
      → pos_part num ≤ count (is_fresh pods) stream
      → (ids : Carrier) × (rest : List Text) × (get_or_gen_available_ids sets num pods stream
          ≡ some (ids, rest))
        × ((id : Text) → (has id ids && any (uses id) pods) ≡ false)
  unfolding get_or_gen_available_ids
  get_or_gen_available_ids-fresh num pods stream h =
      let existing = existing_ids sets pods new in
      let known : (id : Text) → has id existing ≡ any (uses id) pods =
        λ id. ground (arith, has-existing_ids pods new id, has-new id) in
      let (ids, rest, e, apart) =
        gen_ids-fresh existing (pos_part num) stream new
          (subst (λ (f : Text → Bool). pos_part num ≤ count (λ id. not (f id)) stream)
            (λ i id. sym (known id) i) h)
          (λ id. ground (arith, has-new id)) in
      (ids, rest, e, λ id. ground (arith, apart id, known id))
