-- ===== src/Mutex.antt =====
-- src/Interface/Mutex.h and Semaphore.h: the interfaces of the locks, on a program state `W`, and the
-- lock that a block of code holds.
use slirp4tinc.Prelude.{ℕ, zero, suc, ◌≡◌, refl}
use slirp4tinc.Prelude.Int.{ℤ}
use slirp4tinc.Prelude.Run.{Run, ok, blocked, ◌>>=◌}
use slirp4tinc.Counting

pub record Mutex (W : Type 0) : Type 0 where
  pub acquire : W → Run W
  pub release : W → Run W

pub record Semaphore (W : Type 0) : Type 0 where
  pub mutex : Mutex W
  pub init : ℤ → W → Run W

module _ {W : Type 0} (m : Mutex W) where
  -- `Mutex::ScopedLock`, around a block of code without a jump out of it: the constructor acquires,
  -- the destructor releases.
  pub scoped_lock : {A : Type 0} → (W → Run (A × W)) → W → Run (A × W)
  scoped_lock body w = do held ← m.acquire w; (a, w') ← body held; w'' ← m.release w'; ok (a, w'')

-- A counting semaphore, as a lock of its own count.
pub counter : Mutex ℕ
counter = record { acquire = λ n. Counting.acquire n; release = λ n. Counting.release n }

-- While the count is zero the block waits and is not run. Otherwise it runs with one less, and if it
-- leaves the count alone, the lock gives back what it took.
scoped_lock-counter :
    {A : Type 0} (body : ℕ → Run (A × ℕ)) (n : ℕ) (a : A)
    → body n ≡ ok (a, n)
    → (scoped_lock counter body zero ≡ blocked) × (scoped_lock counter body (suc n) ≡ ok (a, suc n))
unfolding scoped_lock counter
scoped_lock-counter body n a ran = (refl, rw (ran) refl)
