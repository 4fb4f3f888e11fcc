-- ===== src/Core/SemaphoreRwLock/Tests.antt =====
-- The lock on a small kernel, which gives the file to one process at a time.
use rdm.Prelude.{ℕ, ◌≡◌, refl, true, arith, Option, none, some, ◌==◌, if◌then◌else◌}
use rdm.Prelude.Run.{ok, fault, blocked}
use rdm.Core.SemaphoreRwLock.{
  LockType, f_rdlck, f_wrlck, f_unlck, FileLocks, SemaphoreRwLock, lock_read, perform_lock,
}
use rdm.Core.SemaphoreRwLock.Exclusion.{System, with_lock}

data Holder : Type 0 where
  nobody : Holder
  reader writer : ℕ → Holder

abbrev take : ℕ → LockType → Holder
take p f_rdlck = reader p
take p f_wrlck = writer p
take p f_unlck = nobody

-- A process blocks while another one has the file.
abbrev refuse : LockType → Holder → Option (ℕ × Holder)
refuse f_unlck h = some (0, h)
refuse f_rdlck h = none
refuse f_wrlck h = none

abbrev one_fcntl : Holder → ℕ → LockType → Option (ℕ × Holder)
one_fcntl nobody p t = some (0, take p t)
one_fcntl (reader q) p t = if q == p then some (0, take p t) else refuse t (reader q)
one_fcntl (writer q) p t = if q == p then some (0, take p t) else refuse t (writer q)

abbrev one_close : Holder → ℕ → Holder
one_close nobody p = nobody
one_close (reader q) p = if q == p then nobody else reader q
one_close (writer q) p = if q == p then nobody else writer q

abbrev one_held : Holder → ℕ → LockType
one_held nobody p = f_unlck
one_held (reader q) p = if q == p then f_rdlck else f_unlck
one_held (writer q) p = if q == p then f_wrlck else f_unlck

abbrev one_holder : FileLocks
one_holder = record {
  Kernel = Holder;
  fcntl = one_fcntl;
  close = one_close;
  held = one_held;
  granted = λ k p t r e z. ground (arith, e, z);
  refused = λ k p t r e z. ground (arith, e, z);
  others = λ k p q t r e n. ground (arith, e, n);
  closed = λ k p. ground arith;
  close_others = λ k p q n. ground arith;
  exclusive = λ k p q n e. ground (arith, e);
}

abbrev fresh : SemaphoreRwLock
fresh = record { is_valid = true; num_read_locks = 0; num_write_locks = 0 }

abbrev writing : SemaphoreRwLock
writing = record { is_valid = true; num_read_locks = 0; num_write_locks = 1 }

abbrev all_fresh : ℕ → SemaphoreRwLock
all_fresh p = fresh

abbrev one_writes : System one_holder
one_writes = record { kernel = writer 7; locks = with_lock one_holder all_fresh 7 writing }

-- A second process blocks, and the writer itself may not read.
read_blocked : lock_read one_holder 1 (writer 7) 8 fresh ≡ fault blocked
unfolding lock_read perform_lock
read_blocked = refl

read_deadlock : lock_read one_holder 1 (writer 7) 7 writing ≡ ok (35, writer 7, writing)
unfolding lock_read perform_lock
read_deadlock = refl
