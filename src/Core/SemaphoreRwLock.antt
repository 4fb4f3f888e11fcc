-- ===== src/Core/SemaphoreRwLock.antt =====
-- core/SemaphoreRWLock.h and .cpp: a counted lock of a process over a POSIX record lock on a file.
pub mod Counters
pub mod Exclusion
mod Tests
use rdm.Prelude.{
  ℕ, zero, suc, ◌+◌, ◌-◌, ◌%◌, ◌^◌, ◌<◌, ◌≡◌, ◌≢◌, Bool, true, false, not, ◌==◌, ltb, if◌then◌else◌,
  Option, none, some,
}
use rdm.Prelude.Run.{Run, ok, fault, out_of_fuel, blocked, ◌>>=◌}

-- `F_RDLCK`, `F_WRLCK` and `F_UNLCK`
pub data LockType : Type 0 where
  f_rdlck f_wrlck f_unlck : LockType

abbrev pub eintr : ℕ
eintr = 4

abbrev pub einval : ℕ
einval = 22

abbrev pub edeadlk : ℕ
edeadlk = 35

-- The system calls on the lock file: `fcntl(fd, F_SETLKW, …)` of a process answers 0 or an errno, or
-- not at all, where it blocks for good; `close` gives up the lock of the process. The laws are those
-- that POSIX documents: a lock that is granted is held, a call that fails changes no lock, no call
-- changes that of another process, and a write lock excludes every lock of another process.
pub record FileLocks : Type 1 where
  pub Kernel : Type 0
  pub fcntl : Kernel → ℕ → LockType → Option (ℕ × Kernel)
  pub close : Kernel → ℕ → Kernel
  pub held : Kernel → ℕ → LockType
  pub granted :
      (k : Kernel) (p : ℕ) (t : LockType) (r : ℕ × Kernel)
      → fcntl k p t ≡ some r
      → r.0 ≡ 0
      → held r.1 p ≡ t
  pub refused :
      (k : Kernel) (p : ℕ) (t : LockType) (r : ℕ × Kernel)
      → fcntl k p t ≡ some r
      → r.0 ≢ 0
      → held r.1 p ≡ held k p
  pub others :
      (k : Kernel) (p q : ℕ) (t : LockType) (r : ℕ × Kernel)
      → fcntl k p t ≡ some r
      → p ≢ q
      → held r.1 q ≡ held k q
  pub closed : (k : Kernel) (p : ℕ) → held (close k p) p ≡ f_unlck
  pub close_others : (k : Kernel) (p q : ℕ) → p ≢ q → held (close k p) q ≡ held k q
  pub exclusive : (k : Kernel) (p q : ℕ) → p ≢ q → held k p ≡ f_wrlck → held k q ≡ f_unlck

-- `is_valid` says that `fd_` is not -1.
pub record SemaphoreRwLock : Type 0 where
  pub is_valid : Bool
  pub num_read_locks : ℕ
  pub num_write_locks : ℕ

-- `x++` on an `unsigned`
abbrev pub increment : ℕ → ℕ
increment x = (x + 1) % 2 ^ 32

module _ (sys : FileLocks) where
  -- The loop ends with the first answer that is not `EINTR`. Signals may come without end, and the
  -- call may block: the code returns only where the fuel suffices and every call answers.
  unfoldable pub perform_lock : ℕ → sys.Kernel → ℕ → LockType → Run (ℕ × sys.Kernel)
  perform_lock zero k p t = fault out_of_fuel
  perform_lock (suc f) k p t = elim (sys.fcntl k p t) [
    | none ↦ fault blocked
    | some answer ↦
        let again = perform_lock f answer.1 p t in if answer.0 == eintr then again else ok answer
  ]

  -- An operation of process `p`: the status, the kernel and the lock after it.
  abbrev pub Outcome : Type 0
  Outcome = Run (ℕ × sys.Kernel × SemaphoreRwLock)

  unfoldable pub lock_read : ℕ → sys.Kernel → ℕ → SemaphoreRwLock → Outcome
  unfolding perform_lock
  lock_read f k p l =
      let taken : Outcome = perform_lock f k p f_rdlck >>= λ (status, after).
      ok (status, after, if status == 0 then record l { num_read_locks = 1 } else l) in
      if not l.is_valid
      then ok (einval, k, l)
      else if ltb 0 l.num_write_locks
      then ok (edeadlk, k, l)
      else if ltb 0 l.num_read_locks
      then ok (0, k, record l { num_read_locks = increment l.num_read_locks })
      else taken

  unfoldable pub lock_write : ℕ → sys.Kernel → ℕ → SemaphoreRwLock → Outcome
  unfolding perform_lock
  lock_write f k p l =
      let taken : Outcome = perform_lock f k p f_wrlck >>= λ (status, after).
      ok (status, after, if status == 0 then record l { num_write_locks = 1 } else l) in
      if not l.is_valid
      then ok (einval, k, l)
      else if ltb 0 l.num_read_locks
      then ok (edeadlk, k, l)
      else if ltb 0 l.num_write_locks
      then ok (0, k, record l { num_write_locks = increment l.num_write_locks })
      else taken

  unfoldable pub unlock : ℕ → sys.Kernel → ℕ → SemaphoreRwLock → Outcome
  unfolding perform_lock
  unlock f k p l =
      let released : SemaphoreRwLock → Outcome =
        λ m. perform_lock f k p f_unlck >>= λ (status, after). ok (status, after, m) in
      let last_write = released (record l { num_write_locks = l.num_write_locks - 1 }) in
      let last_read = released (record l { num_read_locks = l.num_read_locks - 1 }) in
      if not l.is_valid
      then ok (einval, k, l)
      else if ltb 1 l.num_write_locks
      then ok (0, k, record l { num_write_locks = l.num_write_locks - 1 })
      else if l.num_write_locks == 1
      then last_write
      else if ltb 1 l.num_read_locks
      then ok (0, k, record l { num_read_locks = l.num_read_locks - 1 })
      else if l.num_read_locks == 1
      then last_read
      else ok (0, k, l)

  -- `DestroyOSResource`, with the answer of `unlink` (0, or an errno other than `ENOENT`).
  unfoldable pub destroy_os_resource : sys.Kernel → ℕ → SemaphoreRwLock → ℕ → Outcome
  destroy_os_resource k p l unlinked =
      if not l.is_valid
      then ok (0, k, l)
      else ok (
        unlinked,
        sys.close k p,
        record { is_valid = false; num_read_locks = 0; num_write_locks = 0 },
      )

  -- `Create` and `Attach`, with the answer of `open` (0, or an errno). The counters stay.
  unfoldable pub open_file : sys.Kernel → ℕ → SemaphoreRwLock → ℕ → Outcome
  open_file k p l opened =
      let after = if l.is_valid then sys.close k p else k in
      ok (opened, after, record l { is_valid = opened == 0 })

  -- `ScopedReadLock` and `ScopedWriteLock`: whether the lock was taken, and the way back.
  unfoldable pub scoped_read :
      ℕ → sys.Kernel → ℕ → SemaphoreRwLock → Run (Bool × sys.Kernel × SemaphoreRwLock)
  unfolding lock_read
  scoped_read f k p l = lock_read f k p l >>= λ (status, after, m). ok (status == 0, after, m)

  unfoldable pub scoped_write :
      ℕ → sys.Kernel → ℕ → SemaphoreRwLock → Run (Bool × sys.Kernel × SemaphoreRwLock)
  unfolding lock_write
  scoped_write f k p l = lock_write f k p l >>= λ (status, after, m). ok (status == 0, after, m)

  unfoldable pub end_scope :
      Bool → ℕ → sys.Kernel → ℕ → SemaphoreRwLock → Run (sys.Kernel × SemaphoreRwLock)
  unfolding unlock
  end_scope true f k p l = unlock f k p l >>= λ (status, after, m). ok (after, m)
  end_scope false f k p l = ok (k, l)
