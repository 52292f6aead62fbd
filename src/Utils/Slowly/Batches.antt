-- ===== src/Utils/Slowly/Batches.antt =====
-- `DoItSlowly` ends, counts the calls that succeed, and makes every call when none fails.
use native.Mathlib.Nat.{suc-add}
use inplaceu.Base.{
  ℕ, zero, suc, ◌+◌, ◌-◌, ◌*◌, ◌≤◌, ◌<◌, ◌≡◌, ◌≢◌, inl, inr, Option, none, some, arith,
  Option-cases,
}
use inplaceu.Utils.Slowly.{Batch, min_ℕ, note_call, run_batch, start_batch, slowly, do_it_slowly}

module _ {S E : Type 0} (fn : S → S × Option E) where
  -- The state after `n` calls in a row, and how many of them succeed.
  unfoldable pub calls : ℕ → S → S × ℕ
  calls zero s = (s, 0)
  calls (suc n) s =
      let (s', e) = fn s in
      let (s'', k) = calls n s' in (s'', (elim e [ none ↦ suc k | some _ ↦ k ]))

  run_batch-calls :
      (n : ℕ) (b : Batch S E)
      → ((run_batch fn n b).state ≡ (calls n b.state).0)
        × ((run_batch fn n b).successes ≡ b.successes + (calls n b.state).1)
  unfolding run_batch calls
  run_batch-calls zero b = ground arith
  run_batch-calls (suc n) b = ground (arith, run_batch-calls n (note_call fn b (fn b.state)))

  calls-add :
      (m n : ℕ) (s : S)
      → calls (m + n) s ≡ ((calls n (calls m s).0).0, (calls m s).1 + (calls n (calls m s).0).1)
  unfolding calls
  calls-add zero n s = ground arith
  calls-add (suc m) n s = rw (suc-add m n) (ground (arith, calls-add m n (fn s).0))

  -- A batch that starts with no error ends with one exactly when a call of it fails.
  run_batch-first_err :
      (n : ℕ) (b : Batch S E)
      → ((run_batch fn n b).first_err ≡ none
          → (b.first_err ≡ none) × ((run_batch fn n b).successes ≡ b.successes + n))
        × (b.first_err ≡ none
            → (run_batch fn n b).first_err ≢ none
            → (run_batch fn n b).successes < b.successes + n)
        × ((run_batch fn n b).successes ≤ b.successes + n)
  unfolding run_batch
  run_batch-first_err zero b = ((λ e. (e, omega arith)), (λ e f. absurd (f e)), omega arith)
  run_batch-first_err (suc n) b =
      ground (arith, run_batch-first_err n (note_call fn b (fn b.state)))

  -- The calls that were made, `n` of at most `remaining`, and what their results say.
  abbrev pub Outcome : ℕ → S → ℕ → Option (S × ℕ × Option E) → Type 0
  Outcome remaining s acc r =
      (n : ℕ) × (err : Option E) × (n ≤ remaining)
      × (r ≡ some ((calls n s).0, acc + (calls n s).1, err))
      × (err ≡ none → (n ≡ remaining) × ((calls n s).1 ≡ n))
      × (err ≢ none → (calls n s).1 < n)

  slowly-failed :
      (fuel remaining acc k : ℕ) (s : S) (e : E)
      → (run_batch fn (suc k) (start_batch fn s)).first_err ≡ some e
      → slowly fn (suc fuel) remaining acc (suc k) s ≡ (
          let b = run_batch fn (suc k) (start_batch fn s) in
          some (b.state, acc + b.successes, some e))
  unfolding slowly
  slowly-failed fuel remaining acc k s e h = rw (h, slowly)

  slowly-passed :
      (fuel remaining acc k : ℕ) (s : S)
      → (run_batch fn (suc k) (start_batch fn s)).first_err ≡ none
      → slowly fn (suc fuel) remaining acc (suc k) s ≡ (
          let b = run_batch fn (suc k) (start_batch fn s) in
          let left = remaining - suc k in
          slowly fn fuel left (acc + b.successes) (min_ℕ (2 * suc k) left) b.state)
  unfolding slowly
  slowly-passed fuel remaining acc k s h = rw (h, slowly)

  -- A whole batch before an outcome is an outcome.
  Outcome-batch :
      (remaining acc k : ℕ) (s : S) (r : Option (S × ℕ × Option E))
      → suc k ≤ remaining
      → (run_batch fn (suc k) (start_batch fn s)).first_err ≡ none
      → (let b = run_batch fn (suc k) (start_batch fn s) in
          Outcome (remaining - suc k) b.state (acc + b.successes) r)
      → Outcome remaining s acc r
  Outcome-batch remaining acc k s r le e (n, err, fits, eq, all, some_fail) =
      let made = run_batch-calls (suc k) (start_batch fn s) in
      let whole = run_batch-first_err (suc k) (start_batch fn s) in
      let both = calls-add (suc k) n s in
      (suc k + n, err, omega arith, ground arith, ground arith, ground arith)

  slowly-Outcome :
      (fuel remaining acc batch_size : ℕ) (s : S)
      → remaining < fuel
      → batch_size ≤ remaining
      → (batch_size ≡ 0 → remaining ≡ 0)
      → Outcome remaining s acc (slowly fn fuel remaining acc batch_size s)
  slowly-Outcome zero remaining acc k s h b z = absurd (omega arith)
  slowly-Outcome (suc fuel) remaining acc zero s h b z =
      unfold slowly calls in (0, none, omega arith, ground arith, ground arith, ground arith)
  slowly-Outcome (suc fuel) remaining acc (suc k) s h b z =
      let bt = run_batch fn (suc k) (start_batch fn s) in
      let left = remaining - suc k in
      let made = run_batch-calls (suc k) (start_batch fn s) in
      let errs = run_batch-first_err (suc k) (start_batch fn s) in
      elim (Option-cases (run_batch fn (suc k) (start_batch fn s)).first_err) [
        | inl e ↦ rw (slowly-passed fuel remaining acc k s e) (
            Outcome-batch remaining acc k s _ b e (
              slowly-Outcome fuel left (acc + bt.successes) (min_ℕ (2 * suc k) left) bt.state
                (omega arith) (ground arith) (ground arith)))
        | inr (e, h') ↦
            rw (slowly-failed fuel remaining acc k s e h')
              (suc k, some e, b, ground arith, ground arith, ground arith)
      ]

-- `DoItSlowly` with a positive first batch size always returns. It has made `n` of the calls, in
-- sequence, and counts those that succeeded. With no error it made all of them, and all succeeded;
-- with an error at least one of those that it made failed.
pub do_it_slowly-Outcome :
    {S E : Type 0} (fn : S → S × Option E) (count initial_batch_size : ℕ) (s : S)
    → 0 < initial_batch_size
    → (n : ℕ) × (err : Option E) × (n ≤ count)
      × (do_it_slowly fn count initial_batch_size s
          ≡ some ((calls fn n s).0, (calls fn n s).1, err))
      × (err ≡ none → (n ≡ count) × ((calls fn n s).1 ≡ n))
      × (err ≢ none → (calls fn n s).1 < n)
unfolding do_it_slowly
do_it_slowly-Outcome fn count initial_batch_size s h =
    let (n, err, fits, eq, all, some_fail) =
      slowly-Outcome fn (suc count) count 0 (min_ℕ count initial_batch_size) s (omega arith)
        (ground arith) (ground arith) in
    (n, err, fits, ground arith, all, some_fail)
