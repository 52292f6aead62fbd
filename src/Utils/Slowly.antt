-- ===== src/Utils/Slowly.antt =====
-- `DoItSlowly` of internal/utils/inplaceu_utils.go: batches that double until one call fails. The
-- calls of a batch run at once; each changes the state, and the order in which they take effect is
-- that of the sequence here. `<-errCh` gives the error that was sent first.
pub mod Batches
use inplaceu.Base.{ℕ, zero, suc, ◌+◌, ◌-◌, ◌*◌, Option, none, some, ltb, if◌then◌else◌}

abbrev pub min_ℕ : ℕ → ℕ → ℕ
min_ℕ a b = if ltb b a then b else a

-- What a batch leaves: the state, the calls that succeeded, and the first error.
pub record Batch (S E : Type 0) : Type 0 where
  pub state : S
  pub successes : ℕ
  pub first_err : Option E

abbrev or_else {ℓ} : {E : Type ℓ} → Option E → Option E → Option E
or_else none e = e
or_else (some d) e = some d

module _ {S E : Type 0} (fn : S → S × Option E) where
  abbrev pub note_call : Batch S E → S × Option E → Batch S E
  note_call b (s, none) = record b { state = s; successes = b.successes + 1 }
  note_call b (s, some e) = record b { state = s; first_err = or_else b.first_err (some e) }

  unfoldable pub run_batch : ℕ → Batch S E → Batch S E
  run_batch zero b = b
  run_batch (suc i) b = run_batch i (note_call b (fn b.state))

  abbrev pub start_batch : S → Batch S E
  start_batch s = record { state = s; successes = 0; first_err = none }

  -- `none` means that the fuel ran out. The result is the state, the successes and the error.
  unfoldable pub slowly : ℕ → ℕ → ℕ → ℕ → S → Option (S × ℕ × Option E)
  slowly zero remaining successes batch_size s = none
  slowly (suc fuel) remaining successes zero s = some (s, successes, none)
  slowly (suc fuel) remaining successes (suc k) s =
      let b = run_batch (suc k) (start_batch s) in
      let left = remaining - suc k in
      elim b.first_err [
        | some e ↦ some (b.state, successes + b.successes, some e)
        | none ↦ slowly fuel left (successes + b.successes) (min_ℕ (2 * suc k) left) b.state
      ]

  -- Every batch lowers the remaining count, so one more round than calls is enough.
  unfoldable pub do_it_slowly : ℕ → ℕ → S → Option (S × ℕ × Option E)
  unfolding slowly run_batch
  do_it_slowly count initial_batch_size s =
      slowly (suc count) count 0 (min_ℕ count initial_batch_size) s
