-- ===== src/Core/SemaphoreRwLock/Exclusion.antt =====
-- core/SemaphoreRWLock.cpp: processes that share a lock file, in any order of their operations.
use rdm.Prelude.{ℕ, ◌≡◌, ℕ_discrete}
use rdm.Prelude.Run.{Run, ok}
use rdm.Core.SemaphoreRwLock.{
  FileLocks, SemaphoreRwLock, lock_read, lock_write, unlock, destroy_os_resource, open_file,
}

module _ (sys : FileLocks) where
  pub record System : Type 0 where
    pub kernel : sys.Kernel
    pub locks : ℕ → SemaphoreRwLock

  -- The lock of process `p` is replaced.
  abbrev pub with_lock : (ℕ → SemaphoreRwLock) → ℕ → SemaphoreRwLock → ℕ → SemaphoreRwLock
  with_lock locks p l q = elim (ℕ_discrete p q) [ yes _ ↦ l | no _ ↦ locks q ]

  pub data Operation : Type 0 where
    to_read to_write to_unlock : Operation
    to_destroy to_open : ℕ → Operation

  abbrev pub perform :
      Operation → ℕ → sys.Kernel → ℕ → SemaphoreRwLock → Run (ℕ × sys.Kernel × SemaphoreRwLock)
  perform to_read f k p l = lock_read sys f k p l
  perform to_write f k p l = lock_write sys f k p l
  perform to_unlock f k p l = unlock sys f k p l
  perform (to_destroy unlinked) f k p l = destroy_os_resource sys k p l unlinked
  perform (to_open opened) f k p l = open_file sys k p l opened

  -- `Create` and `Attach` are called only on a lock of which the process counts no lock; they close
  -- the file and leave the counters as they are.
  abbrev pub May : Operation → SemaphoreRwLock → Type 0
  May (to_open opened) l = (l.num_read_locks ≡ 0) × (l.num_write_locks ≡ 0)
  May to_read l = Unit
  May to_write l = Unit
  May to_unlock l = Unit
  May (to_destroy unlinked) l = Unit

  -- One process performs one operation, which returns.
  pub data Reachable : System → Type 0 where
    start :
        (k : sys.Kernel) (locks : ℕ → SemaphoreRwLock)
        → ((p : ℕ) → (locks p).num_read_locks ≡ 0)
        → ((p : ℕ) → (locks p).num_write_locks ≡ 0)
        → Reachable (record { kernel = k; locks = locks })
    step :
        (op : Operation) (f p : ℕ) (k : sys.Kernel) (locks : ℕ → SemaphoreRwLock)
        (r : ℕ × sys.Kernel × SemaphoreRwLock)
        → Reachable (record { kernel = k; locks = locks })
        → May op (locks p)
        → perform op f k p (locks p) ≡ ok r
        → Reachable (record { kernel = r.1; locks = with_lock locks p r.2 })
