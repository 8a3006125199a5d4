-- ===== src/Runtime/Lock/Exclusion.antt =====
-- index.ts, RuntimeOwnerLock: at most one live owner while no object steps into a segment of another.
use dsh_gateway.Prelude.{
  ℕ, Bool, true, false, ◌&&◌, Option, none, some, ◌==◌, ◌≡◌, ◌≢◌, refl, arith, ==→≡, Bool-cases,
  inl, inr,
}
use dsh_gateway.Runtime.Lock.{
  LockFile, Pc, idle, created, judging, renaming, held, releasing, removing, World, Action, judges,
  rereads, goes, read_record, is_own, next_attempt, try_open, write_record, judge, rename_stale,
  act, Event, acts, dies, step,
}

abbrev pub owns : Pc → Bool
owns created = true
owns held = true
owns releasing = true
owns removing = true
owns _ = false

abbrev pub is_held : Pc → Bool
is_held held = true
is_held _ = false

-- The file is written, as far as the object knows.
abbrev has_written : Pc → Bool
has_written held = true
has_written releasing = true
has_written removing = true
has_written _ = false

-- Between creating the file and writing the record, or between reading a record and renaming the file.
abbrev pub in_segment : Pc → Bool
in_segment created = true
in_segment (judging k r) = true
in_segment (renaming k) = true
in_segment _ = false

abbrev is_renaming : Pc → Bool
is_renaming (renaming k) = true
is_renaming _ = false

-- The record that an object has read and is about to judge, or the given one.
abbrev judged_record : Pc → Option ℕ → Option ℕ
judged_record (judging k x) r = x
judged_record _ r = r

abbrev made_by : ℕ → Option LockFile → Bool
made_by i none = false
made_by i (some f) = f.maker == i

module _ (pid : ℕ → ℕ) (max_recovery_attempts : ℕ) where
  -- The file of an object that lives and has not given it up.
  abbrev pub in_use : World → Option LockFile → Bool
  in_use w none = false
  in_use w (some f) = w.alive (pid f.maker) && owns (w.pc f.maker)

  -- While a live object is in a segment, no other object takes a step. Any process may die.
  abbrev pub IsAlone : Event pid max_recovery_attempts → World → Type 0
  IsAlone (acts i a) w = (j : ℕ) → w.alive (pid j) ≡ true → in_segment (w.pc j) ≡ true → i ≡ j
  IsAlone (dies p) w = Unit

  -- Runs in which no step of another object falls into a segment.
  pub data Reach (w : World) : World → Type 0 where
    here : Reach w w
    next :
        {u v : World} (e : Event pid max_recovery_attempts)
        → Reach w u
        → IsAlone e u
        → step pid max_recovery_attempts e u ≡ some v
        → Reach w v

  -- A live object that has the lock file made it, its record is in it once written, a judged record is
  -- that of the file, and a file about to be renamed is not in use.
  pub record Claims (w : World) (i : ℕ) : Type 0 where
    pub made : w.alive (pid i) ≡ true → owns (w.pc i) ≡ true → made_by i w.file ≡ true
    pub recorded :
        w.alive (pid i) ≡ true → has_written (w.pc i) ≡ true → read_record w.file ≡ some i
    pub judged :
        w.alive (pid i) ≡ true → judged_record (w.pc i) (read_record w.file) ≡ read_record w.file
    pub stale : w.alive (pid i) ≡ true → is_renaming (w.pc i) ≡ true → in_use w w.file ≡ false

  abbrev pub IsClaimed : World → Type 0
  IsClaimed w = (i : ℕ) → Claims w i

  module _ (w : World) (h : IsClaimed w) where
    -- A file that an object judges to be stale is not in use.
    judged_unused :
        (i k : ℕ) (x : Option ℕ) (f : Option LockFile)
        → w.alive (pid i) ≡ true
        → w.pc i ≡ judging k x
        → IsAlone (acts i judges) w
        → w.file ≡ f
        → is_renaming ((judge pid max_recovery_attempts i k x w).pc i) ≡ true
        → in_use w f ≡ false
    unfolding judge goes read_record
    judged_unused i k x none l q c e s = refl
    judged_unused i k x (some f) l q c e s =
        let mine = h i in let maker = h f.maker in let alone = c f.maker in ground arith

    act-Claims :
        (p : Pc) (a : Action) (i j : ℕ) (v : World)
        → w.alive (pid i) ≡ true
        → w.pc i ≡ p
        → IsAlone (acts i a) w
        → act pid max_recovery_attempts p a i w ≡ some v
        → Claims v j
    unfolding act try_open write_record judge rename_stale goes read_record is_own next_attempt
    act-Claims (judging k y) judges i j v l q c e =
        let x = h i in
        let y = h j in
        let alone = c j in
        let unused = judged_unused i k _ w.file l q c refl in
        elim (Bool-cases (i == j)) [
          | inl t ↦ let u = ==→≡ i j t in ground arith
          | inr t ↦ ground arith
        ]
    act-Claims p a i j v l q c e =
        let x = h i in
        let y = h j in
        let alone = c j in
        elim (Bool-cases (i == j)) [
          | inl t ↦ let u = ==→≡ i j t in ground arith
          | inr t ↦ ground arith
        ]

  step-IsClaimed :
      (e : Event pid max_recovery_attempts) (u v : World)
      → IsClaimed u
      → IsAlone e u
      → step pid max_recovery_attempts e u ≡ some v
      → IsClaimed v
  unfolding step
  step-IsClaimed (acts i a) u v h c q j = elim (Bool-cases (u.alive (pid i))) [
    | inl l ↦ act-Claims u h (u.pc i) a i j v l refl c (rw l at q)
    | inr l ↦ let no : none ≡ some v = rw l at q in cc
  ]
  step-IsClaimed (dies p) u v h c q j = let x = h j in ground arith

  Reach-IsClaimed : {u v : World} → IsClaimed u → Reach u v → IsClaimed v
  Reach-IsClaimed h here = h
  Reach-IsClaimed h (next e r c q) = step-IsClaimed e _ _ (Reach-IsClaimed h r) c q

  -- From a start where every object is idle, with any lock file, as long as no other object takes a
  -- step while a live object is between creating the file and writing its record, or between reading
  -- a record and renaming its file, and whichever processes die: of the live objects one at most holds
  -- the lock, and its record is in the lock file. In any state, an object that releases while another
  -- record or none is in the file leaves the file as it is.
  pub one_owner :
      (u v : World)
      → ((i : ℕ) → u.pc i ≡ idle)
      → Reach u v
      → (i : ℕ) → v.alive (pid i) ≡ true
      → is_held (v.pc i) ≡ true
      → (read_record v.file ≡ some i)
        × ((j : ℕ) → v.alive (pid j) ≡ true → is_held (v.pc j) ≡ true → i ≡ j)
        × ((w : World)
            → w.alive (pid i) ≡ true
            → w.pc i ≡ releasing
            → read_record w.file ≢ some i
            → step pid max_recovery_attempts (acts i rereads) w ≡ some (goes i idle w))
  unfolding step act is_own
  one_owner u v free r i l o =
      let claimed : IsClaimed u = λ k. let q = free k in ground arith in
      let all = Reach-IsClaimed claimed r in
      let mine = (all i).recorded l (ground arith) in
      (
        mine,
        λ j m p. let theirs = (all j).recorded m (ground arith) in ground arith,
        λ w b p d. ground arith,
      )
