-- ===== src/Core/SemaphoreRwLock/Counters.antt =====
-- core/SemaphoreRWLock.cpp: what the counters of a process say of the lock that it holds.
use rdm.Prelude.{ℕ, zero, suc, ◌<◌, ◌≡◌, ◌≢◌, ◌⊎◌, inl, inr, Option-cases, arith}
use rdm.Prelude.Run.{Run-cases, ok}
use rdm.Core.SemaphoreRwLock.{
  LockType, f_rdlck, f_wrlck, f_unlck, FileLocks, SemaphoreRwLock, perform_lock, lock_read,
  lock_write, unlock,
}

module _ (sys : FileLocks) where
  perform_lock-granted :
      (f : ℕ) (k : sys.Kernel) (p : ℕ) (t : LockType) (r : ℕ × sys.Kernel)
      → perform_lock sys f k p t ≡ ok r
      → r.0 ≡ 0
      → sys.held r.1 p ≡ t
  unfolding perform_lock
  perform_lock-granted zero k p t r h e = ground (arith, h)
  perform_lock-granted (suc f) k p t r h e = elim (Option-cases (sys.fcntl k p t)) [
    | inl a ↦ ground (arith, h, a)
    | inr (answer, a) ↦
        ground (arith, h, e, a, perform_lock-granted f answer.1 p t r, sys.granted k p t answer a)
  ]

  perform_lock-refused :
      (f : ℕ) (k : sys.Kernel) (p : ℕ) (t : LockType) (r : ℕ × sys.Kernel)
      → perform_lock sys f k p t ≡ ok r
      → r.0 ≢ 0
      → sys.held r.1 p ≡ sys.held k p
  unfolding perform_lock
  perform_lock-refused zero k p t r h e = ground (arith, h)
  perform_lock-refused (suc f) k p t r h e = elim (Option-cases (sys.fcntl k p t)) [
    | inl a ↦ ground (arith, h, a)
    | inr (answer, a) ↦
        ground (arith, h, e, a, perform_lock-refused f answer.1 p t r, sys.refused k p t answer a)
  ]

  perform_lock-others :
      (f : ℕ) (k : sys.Kernel) (p q : ℕ) (t : LockType) (r : ℕ × sys.Kernel)
      → perform_lock sys f k p t ≡ ok r
      → p ≢ q
      → sys.held r.1 q ≡ sys.held k q
  unfolding perform_lock
  perform_lock-others zero k p q t r h e = ground (arith, h)
  perform_lock-others (suc f) k p q t r h e = elim (Option-cases (sys.fcntl k p t)) [
    | inl a ↦ ground (arith, h, a)
    | inr (answer, a) ↦
        ground (arith, h, e, a, perform_lock-others f answer.1 p q t r, sys.others k p q t answer a)
  ]

  -- The counters of a process against the lock that it holds on the file: never both are positive,
  -- writers hold the write lock, and readers hold a lock.
  abbrev pub IsBacked : sys.Kernel → ℕ → SemaphoreRwLock → Type 0
  IsBacked k p l =
      ((l.num_read_locks ≡ 0) ⊎ (l.num_write_locks ≡ 0))
      × (0 < l.num_write_locks → sys.held k p ≡ f_wrlck)
      × (0 < l.num_read_locks → sys.held k p ≢ f_unlck)

  -- A lock that the process takes.
  module _ (f : ℕ) (k : sys.Kernel) (p : ℕ) (l : SemaphoreRwLock)
      (r : ℕ × sys.Kernel × SemaphoreRwLock) where
    pub lock_read-IsBacked : lock_read sys f k p l ≡ ok r → IsBacked k p l → IsBacked r.1 p r.2
    unfolding lock_read
    lock_read-IsBacked h b = elim (Run-cases (perform_lock sys f k p f_rdlck)) [
      | inl (a, e) ↦ ground (
        arith,
        h,
        e,
        b,
        perform_lock-granted f k p f_rdlck a e,
        perform_lock-refused f k p f_rdlck a e,
      )
      | inr (x, e) ↦ ground (arith, h, e, b)
    ]

    pub lock_write-IsBacked : lock_write sys f k p l ≡ ok r → IsBacked k p l → IsBacked r.1 p r.2
    unfolding lock_write
    lock_write-IsBacked h b = elim (Run-cases (perform_lock sys f k p f_wrlck)) [
      | inl (a, e) ↦ ground (
        arith,
        h,
        e,
        b,
        perform_lock-granted f k p f_wrlck a e,
        perform_lock-refused f k p f_wrlck a e,
      )
      | inr (x, e) ↦ ground (arith, h, e, b)
    ]

    -- The file lock is given up with the last counter only.
    pub unlock-IsBacked : unlock sys f k p l ≡ ok r → IsBacked k p l → IsBacked r.1 p r.2
    unfolding unlock
    unlock-IsBacked h b = elim (Run-cases (perform_lock sys f k p f_unlck)) [
      | inl (a, e) ↦ ground (arith, h, e, b)
      | inr (x, e) ↦ ground (arith, h, e, b)
    ]

    pub lock_read-others :
        lock_read sys f k p l ≡ ok r → (q : ℕ) → p ≢ q → sys.held r.1 q ≡ sys.held k q
    unfolding lock_read
    lock_read-others h q n = elim (Run-cases (perform_lock sys f k p f_rdlck)) [
      | inl (a, e) ↦ ground (arith, h, e, perform_lock-others f k p q f_rdlck a e n)
      | inr (x, e) ↦ ground (arith, h, e)
    ]

    pub lock_write-others :
        lock_write sys f k p l ≡ ok r → (q : ℕ) → p ≢ q → sys.held r.1 q ≡ sys.held k q
    unfolding lock_write
    lock_write-others h q n = elim (Run-cases (perform_lock sys f k p f_wrlck)) [
      | inl (a, e) ↦ ground (arith, h, e, perform_lock-others f k p q f_wrlck a e n)
      | inr (x, e) ↦ ground (arith, h, e)
    ]

    pub unlock-others : unlock sys f k p l ≡ ok r → (q : ℕ) → p ≢ q → sys.held r.1 q ≡ sys.held k q
    unfolding unlock
    unlock-others h q n = elim (Run-cases (perform_lock sys f k p f_unlck)) [
      | inl (a, e) ↦ ground (arith, h, e, perform_lock-others f k p q f_unlck a e n)
      | inr (x, e) ↦ ground (arith, h, e)
    ]
