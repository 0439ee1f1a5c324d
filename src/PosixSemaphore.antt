-- ===== src/PosixSemaphore.antt =====
-- src/Util/PosixSemaphore.cpp: the semaphores of a ring, on the calls of the C library, which are a
-- parameter: what each does to the state `S` of a semaphore, and whether it succeeds.
use slirp4tinc.Prelude.{ℕ}
use slirp4tinc.Prelude.Run.{Run, ok, exited, ◌>>=◌}
use slirp4tinc.Daemon.Os.{Sys, done, fail}

pub record Calls (S : Type 0) : Type 0 where
  pub sem_wait : S → Run (Sys S)
  pub sem_post : S → Run (Sys S)
  pub sem_init : ℕ → S → Run (Sys S)

module _ {S : Type 0} where
  -- `if (res) { perror(...); exit(-1); }`
  unfoldable pub check_result : Sys S → Run S
  check_result (done s) = ok s
  check_result (fail e) = exited 255

  module _ (calls : Calls S) where
    pub acquire : S → Run S
    unfolding check_result
    acquire s = do res ← calls.sem_wait s; check_result res

    pub release : S → Run S
    unfolding check_result
    release s = do res ← calls.sem_post s; check_result res

    pub init : ℕ → S → Run S
    unfolding check_result
    init initial s = do res ← calls.sem_init initial s; check_result res
