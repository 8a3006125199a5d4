-- ===== src/Runtime/Lock/Race.antt =====
-- index.ts, RuntimeOwnerLock: the recovery of a stale file also takes a fresh one.
use dsh_gateway.Prelude.{
  ℕ, Bool, true, false, ◌&&◌, Option, none, some, List, [], ◌∷◌, ◌≤◌, ◌≡◌, ◌≢◌, arith,
}
use dsh_gateway.Runtime.Lock.{
  idle, World, acquires, opens, writes, reads, judges, renames, goes, read_record, is_own,
  next_attempt, try_open, write_record, judge, rename_stale, act, Event, acts, step,
}
use dsh_gateway.Runtime.Lock.Exclusion.{is_held}

module _ (pid : ℕ → ℕ) (max_recovery_attempts : ℕ) where
  abbrev then_step : Event pid max_recovery_attempts → Option World → Option World
  then_step e none = none
  then_step e (some w) = step pid max_recovery_attempts e w

  abbrev pub run : List (Event pid max_recovery_attempts) → Option World → Option World
  run [] w = w
  run (e ∷ es) w = run es (then_step e w)

  -- The second object finds the file that the first has opened and not yet written.
  abbrev pub racing_events : ℕ → ℕ → List (Event pid max_recovery_attempts)
  racing_events i j =
      acts i acquires
      ∷ acts i opens
      ∷ acts j acquires
      ∷ acts j opens
      ∷ acts j reads
      ∷ acts j judges
      ∷ acts j renames
      ∷ acts i writes
      ∷ acts j opens
      ∷ acts j writes
      ∷ []

  abbrev pub both_held : ℕ → ℕ → Option World → Bool
  both_held i j none = false
  both_held i j (some w) =
      (w.alive (pid i) && is_held (w.pc i)) && (w.alive (pid j) && is_held (w.pc j))

  -- Two live objects that hold the lock at once: with at least two attempts, the second of them finds
  -- the file that the first has created and not yet written, takes it for stale, and renames it.
  pub two_owners :
      (i j : ℕ) (w : World)
      → i ≢ j
      → 2 ≤ max_recovery_attempts
      → w.file ≡ none
      → w.pc i ≡ idle
      → w.pc j ≡ idle
      → w.alive (pid i) ≡ true
      → w.alive (pid j) ≡ true
      → both_held i j (run (racing_events i j) (some w)) ≡ true
  unfolding step act try_open write_record judge rename_stale goes read_record is_own next_attempt
  two_owners i j w d m f a b l k = ground arith
