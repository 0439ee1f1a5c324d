-- ===== src/Counting.antt =====
-- A counting semaphore, as the users of src/Interface/Semaphore.h see one: a number that `acquire`
-- takes one from, waiting while it is zero, and that `release` adds one to. src/Util/PosixSemaphore.cpp
-- is the class that stands behind it (`PosixSemaphore`).
use slirp4tinc.Prelude.{ℕ, zero, suc}
use slirp4tinc.Prelude.Run.{Run, ok, blocked}

abbrev pub acquire : ℕ → Run ℕ
acquire zero = blocked
acquire (suc n) = ok n

abbrev pub release : ℕ → Run ℕ
release n = ok (suc n)
