-- ===== src/Runtime/Lock.antt =====
-- packages/runtime/src/index.ts, RuntimeOwnerLock: the lock objects of several processes on one lock
-- file. A step is what an object does between two awaits.
pub mod Exclusion
pub mod Race
mod Tests
use dsh_gateway.Prelude.{
  ℕ, zero, suc, Bool, true, false, ◌&&◌, ◌||◌, not, if◌then◌else◌, Option, none, some, ◌==◌, max,
  ◌≡◌,
}

-- The lock file: the object whose record it is for, and whether the record has been written.
pub record LockFile : Type 0 where
  pub maker : ℕ
  pub written : Bool

-- The await at which a lock object stands; the number counts the attempts left behind this one.
pub data Pc : Type 0 where
  idle : Pc
  opening : ℕ → Pc
  created : Pc
  reading : ℕ → Pc
  judging : ℕ → Option ℕ → Pc
  renaming : ℕ → Pc
  held : Pc  -- `acquired`
  releasing : Pc  -- the record is read again
  removing : Pc

pub record World : Type 0 where
  pub file : Option LockFile
  pub pc : ℕ → Pc
  pub alive : ℕ → Bool  -- by process

pub data Action : Type 0 where
  acquires opens writes fails reads judges renames releases rereads removes : Action

abbrev pub put : {A : Type 0} → ℕ → A → (ℕ → A) → ℕ → A
put i x f j = if i == j then x else f j

unfoldable pub goes : ℕ → Pc → World → World
goes i p w = record w { pc = put i p w.pc }

-- `readRecord`: a file that is missing or not yet written has no record.
unfoldable pub read_record : Option LockFile → Option ℕ
read_record none = none
read_record (some f) = if f.written then some f.maker else none

-- The record names this object.
unfoldable pub is_own : ℕ → Option ℕ → Bool
is_own i none = false
is_own i (some j) = i == j

-- The loop of `acquire`: without an attempt left it throws.
unfoldable pub next_attempt : ℕ → Pc
next_attempt zero = idle
next_attempt (suc k) = opening k

module _ (pid : ℕ → ℕ) (max_recovery_attempts : ℕ) where
  -- `open` with the flag wx
  unfoldable pub try_open : ℕ → ℕ → World → World
  unfolding goes
  try_open i k w = create w.file
    where
      create : Option LockFile → World
      create none = record (goes i created w) {
        file = some (record { maker = i; written = false });
      }
      create (some f) = goes i (reading k) w

  -- `writeFile` goes to the file that the object has opened, wherever it has been moved.
  unfoldable pub write_record : ℕ → World → World
  unfolding goes
  write_record i w = record (goes i held w) { file = written w.file }
    where
      written : Option LockFile → Option LockFile
      written none = none
      written (some f) = some (if f.maker == i then record f { written = true } else f)

  -- A record of a live process refuses the lock.
  unfoldable pub judge : ℕ → ℕ → Option ℕ → World → World
  unfolding goes
  judge i k none w = goes i (renaming k) w
  judge i k (some j) w = goes i (if w.alive (pid j) then idle else renaming k) w

  -- `rename` of the path, whatever it now names; a missing file is no error.
  unfoldable pub rename_stale : ℕ → ℕ → World → World
  unfolding goes next_attempt
  rename_stale i k w = record (goes i (next_attempt k) w) { file = none }

  -- An action of an object at an await; the others cannot happen there.
  unfoldable pub act : Pc → Action → ℕ → World → Option World
  act idle acquires i w = some (goes i (next_attempt (max 1 max_recovery_attempts)) w)
  act (opening k) opens i w = some (try_open i k w)
  act (opening k) fails i w = some (goes i idle w)
  act created writes i w = some (write_record i w)
  act created fails i w = some (goes i idle w)
  act (reading k) reads i w = some (goes i (judging k (read_record w.file)) w)
  act (judging k r) judges i w = some (judge i k r w)
  act (renaming k) renames i w = some (rename_stale i k w)
  act (renaming k) fails i w = some (goes i idle w)
  act held releases i w = some (goes i releasing w)
  act releasing rereads i w =
      some (goes i (if is_own i (read_record w.file) then removing else idle) w)
  act removing removes i w = some (record (goes i idle w) { file = none })
  act removing fails i w = some (goes i idle w)
  act _ _ i w = none

  pub data Event : Type 0 where
    acts : ℕ → Action → Event
    dies : ℕ → Event  -- a process

  unfoldable pub step : Event → World → Option World
  step (acts i a) w = if w.alive (pid i) then act (w.pc i) a i w else none
  step (dies p) w = some (record w { alive = put p false w.alive })
