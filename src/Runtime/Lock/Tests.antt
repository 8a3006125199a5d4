-- ===== src/Runtime/Lock/Tests.antt =====
-- index.ts: RuntimeOwnerLock on concrete runs.
use dsh_gateway.Prelude.{ℕ, Bool, true, false, Option, none, some, [], ◌∷◌, ◌≡◌, ◌≢◌, refl, arith}
use dsh_gateway.Runtime.Lock.{
  idle, opening, releasing, World, acquires, opens, writes, reads, judges, renames, releases,
  rereads, removes, goes, next_attempt, try_open, write_record, judge, rename_stale, read_record,
  is_own, act, acts, dies, step,
}
use dsh_gateway.Runtime.Lock.Exclusion.{is_held, here, next, one_owner}
use dsh_gateway.Runtime.Lock.Race.{run, racing_events, both_held, two_owners}

abbrev pid : ℕ → ℕ
pid i = i

abbrev world : World
world = record { file = none; pc = λ i. idle; alive = λ p. true }

abbrev held_by : ℕ → Option World → Bool
held_by i none = false
held_by i (some w) = is_held (w.pc i)

abbrev locked : World
locked = write_record pid 5 1 (try_open pid 5 1 4 (goes 1 (opening 4) world))

-- An object releases the lock, and another acquires it.
handover :
    held_by 2 (
      run pid 5
        (acts 1 releases
          ∷ acts 1 rereads
          ∷ acts 1 removes
          ∷ acts 2 acquires
          ∷ acts 2 opens
          ∷ acts 2 writes
          ∷ [])
        (some locked))
    ≡ true
unfolding step write_record try_open act is_own read_record next_attempt
handover = refl

-- The lock of a process that has died is recovered.
recovery :
    held_by 2 (
      run pid 5
        (dies 1
          ∷ acts 2 acquires
          ∷ acts 2 opens
          ∷ acts 2 reads
          ∷ acts 2 judges
          ∷ acts 2 renames
          ∷ acts 2 opens
          ∷ acts 2 writes
          ∷ [])
        (some locked))
    ≡ true
unfolding step write_record try_open act next_attempt judge read_record rename_stale
recovery = refl

one_owner_example :
    (read_record locked.file ≡ some 1)
    × ((j : ℕ) → locked.alive (pid j) ≡ true → is_held (locked.pc j) ≡ true → 1 ≡ j)
    × ((w : World)
        → w.alive (pid 1) ≡ true
        → w.pc 1 ≡ releasing
        → read_record w.file ≢ some 1
        → step pid 5 (acts 1 rereads) w ≡ some (goes 1 idle w))
unfolding step act goes try_open write_record next_attempt
one_owner_example =
    let asking =
      next {u = world} {v = goes 1 (opening 4) world} (acts 1 acquires) here (λ j l s. ground arith)
        refl in
    let creating =
      next {u = goes 1 (opening 4) world} {v = try_open pid 5 1 4 (goes 1 (opening 4) world)}
        (acts 1 opens) asking (λ j l s. ground arith) refl in
    one_owner pid 5 world locked (λ i. refl)
      (next {u = try_open pid 5 1 4 (goes 1 (opening 4) world)} {v = locked} (acts 1 writes)
        creating (λ j l s. ground arith) refl)
      1 refl refl

two_owners_example : both_held pid 5 1 2 (run pid 5 (racing_events pid 5 1 2) (some world)) ≡ true
two_owners_example =
    two_owners pid 5 1 2 world (ground arith) (ground arith) refl refl refl refl refl
