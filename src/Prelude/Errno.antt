-- ===== src/Prelude/Errno.antt =====
-- The error numbers of the system that the code answers with or compares with.
use rdm.Prelude.{ℕ}

abbrev pub eio : ℕ
eio = 5

abbrev pub eagain : ℕ
eagain = 11

abbrev pub enomem : ℕ
enomem = 12

abbrev pub eacces : ℕ
eacces = 13

abbrev pub einval : ℕ
einval = 22

abbrev pub enospc : ℕ
enospc = 28
