-- ===== src/Requeue/Shortest.antt =====
-- What `Pop` returns after any pushes.
use inplaceu.Base.{
  true, false, not, ◌&&◌, ◌||◌, none, some, List, [], ◌∷◌, ◌≡◌, refl, sym, subst, ◌∙◌, ◌⊎◌, inl,
  inr, Text, text_eq, lookup, any, if◌then◌else◌, arith, All, lookup-insert, lookup-remove, ==_refl,
  ◌==◌,
}
use inplaceu.Base.Int.{ℤ, pos, ltb_ℤ, ◌≤ℤ◌, ◌<ℤ◌, int_eq}
use inplaceu.Requeue.{
  Duration, StoreValue, DurationStore, duration_value, other_value, update, push, pop, load_or_zero,
  zero_duration,
}

-- The last duration of the list is pushed first.
abbrev pub push_all : Text → List ℤ → DurationStore → DurationStore
push_all key [] dm = dm
push_all key (d ∷ ds) dm = push key d (push_all key ds dm)

-- The shortest positive duration of a list, or 0 where none is positive.
abbrev pub IsShortest : ℤ → List ℤ → Type 0
IsShortest r ds =
    ((r ≡ pos 0) ⊎ ((pos 0 <ℤ r) × (any (λ d. d == r) ds ≡ true)))
    × All (λ d. (d ≤ℤ pos 0) ⊎ ((pos 0 <ℤ r) × (r ≤ℤ d))) ds

-- The duration that the store has for a key, 0 where it has none.
Holds : Text → ℤ → DurationStore → Type 0
Holds key r dm =
    ((lookup key dm ≡ none) × (r ≡ pos 0))
    ⊎ ((rd : Duration) × (lookup key dm ≡ some (duration_value rd)) × (rd.duration ≡ r))

shorter : ℤ → ℤ → ℤ
shorter e r = if ltb_ℤ (pos 0) e && (not (ltb_ℤ (pos 0) r) || ltb_ℤ e r) then e else r

push-Holds :
    (key : Text) (r e : ℤ) (dm : DurationStore)
    → Holds key r dm
    → Holds key (shorter e r) (push key e dm)
unfolding Holds push update shorter
push-Holds key r e dm (inl (h, z)) =
    rw (h, push)
      (inr (
        update e zero_duration,
        lookup-insert key key _ dm ∙ rw (==_refl key),
        rw z (ground arith),
      ))
push-Holds key r e dm (inr (rd, h, p)) =
    rw (h, push) (inr (update e rd, lookup-insert key key _ dm ∙ rw (==_refl key), ground arith))

-- A shorter bound keeps what a longer one covers.
covers :
    (r e : ℤ) (ds : List ℤ)
    → (pos 0 <ℤ e) × ((r ≤ℤ pos 0) ⊎ (e <ℤ r))
    → All (λ d. (d ≤ℤ pos 0) ⊎ ((pos 0 <ℤ r) × (r ≤ℤ d))) ds
    → All (λ d. (d ≤ℤ pos 0) ⊎ ((pos 0 <ℤ e) × (e ≤ℤ d))) ds
covers r e [] h a = tt
covers r e (d ∷ ds) h a = (omega arith, covers r e ds h a.1)

shorter_cases :
    (e r : ℤ)
    → ((shorter e r ≡ e) × (pos 0 <ℤ e) × ((r ≤ℤ pos 0) ⊎ (e <ℤ r)))
      ⊎ ((shorter e r ≡ r) × ((e ≤ℤ pos 0) ⊎ ((pos 0 <ℤ r) × (r ≤ℤ e))))
unfolding shorter ltb_ℤ
shorter_cases e r = ground arith

shorter-IsShortest : (e r : ℤ) (ds : List ℤ) → IsShortest r ds → IsShortest (shorter e r) (e ∷ ds)
shorter-IsShortest e r ds (found, below) = elim (shorter_cases e r) [
  | inl (same, p, q) ↦
      subst (λ t. IsShortest t (e ∷ ds)) (sym same)
        (inr (p, ground (arith, ==_refl e)), (inr (p, omega arith), covers r e ds (p, q) below))
  | inr (same, q) ↦ subst (λ t. IsShortest t (e ∷ ds)) (sym same) (later found, (q, below))
]
  where
    later :
        (r ≡ pos 0) ⊎ ((pos 0 <ℤ r) × (any (λ d. d == r) ds ≡ true))
        → (r ≡ pos 0) ⊎ ((pos 0 <ℤ r) × (any (λ d. d == r) (e ∷ ds) ≡ true))
    later (inl z) = inl z
    later (inr (p, h)) = inr (p, ground (arith, h))

push_all-Holds :
    (key : Text) (ds : List ℤ) (dm : DurationStore)
    → lookup key dm ≡ none
    → (r : ℤ) × Holds key r (push_all key ds dm) × IsShortest r ds
unfolding Holds
push_all-Holds key [] dm h = (pos 0, inl (h, refl), (inl refl, tt))
push_all-Holds key (d ∷ ds) dm h =
    let (r, held, shortest) = push_all-Holds key ds dm h in
    (shorter d r, push-Holds key r d _ held, shorter-IsShortest d r ds shortest)

push-other :
    (key other : Text) (d : ℤ) (v : StoreValue) (dm : DurationStore)
    → (key == other) ≡ false
    → load_or_zero (lookup key dm) ≡ v
    → lookup other (push key d dm) ≡ lookup other dm
unfolding push
push-other key other d (duration_value rd) dm h e =
    rw (e, push) (rw (lookup-insert key other (duration_value (update d rd)) dm, h))
push-other key other d other_value dm h e = rw (e, push) (rw (lookup-remove key other dm, h))

push_all-other :
    (key other : Text) (ds : List ℤ) (dm : DurationStore)
    → (key == other) ≡ false
    → lookup other (push_all key ds dm) ≡ lookup other dm
push_all-other key other [] dm h = refl
push_all-other key other (d ∷ ds) dm h =
    push-other key other d _ (push_all key ds dm) h refl ∙ push_all-other key other ds dm h

abbrev Popped : Text → ℤ → DurationStore → DurationStore × ℤ → Type 0
Popped key r dm t =
    (t.1 ≡ r)
    × (lookup key t.0 ≡ none)
    × ((other : Text) → (key == other) ≡ false → lookup other t.0 ≡ lookup other dm)

pop-Holds :
    (key : Text) (r : ℤ) (dm : DurationStore) → Holds key r dm → Popped key r dm (pop key dm)
unfolding Holds pop
pop-Holds key r dm (inl (h, z)) = rw (h, pop) (sym z, h, λ other g. refl)
pop-Holds key r dm (inr (rd, h, p)) =
    rw (h, pop)
      (
        p,
        (rw (lookup-remove key key dm, ==_refl key)),
        λ other g. rw (lookup-remove key other dm, g),
      )

-- After any pushes under a key that had none, `Pop` returns the shortest positive duration that was
-- pushed, 0 where none was; it forgets the key, and no other key was touched.
pub pop-push_all :
    (key : Text) (ds : List ℤ) (dm : DurationStore)
    → lookup key dm ≡ none
    → let (dm', r) = pop key (push_all key ds dm) in
      IsShortest r ds
      × (lookup key dm' ≡ none)
      × ((other : Text) → (key == other) ≡ false → lookup other dm' ≡ lookup other dm)
pop-push_all key ds dm h =
    let (r, held, shortest) = push_all-Holds key ds dm h in
    let (same, gone, others) = pop-Holds key r (push_all key ds dm) held in
    (
      subst (λ t. IsShortest t ds) (sym same) shortest,
      gone,
      λ other g. others other g ∙ push_all-other key other ds dm g,
    )
