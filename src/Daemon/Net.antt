-- ===== src/Daemon/Net.antt =====
-- `net_sendto`, `net_recvfrom` and the macro `CATCH_EINTR`: a system call that is repeated while a
-- signal interrupts it. The list holds the answers of its attempts; a call whose list ends has not
-- returned. The result comes with `errno`.
use mathlib.Core.Path.{subst}
use slirp4tinc.Prelude.{
  ◌⊎◌, inl, inr, Bool-cases, true, ℕ, zero, suc, ◌≡◌, refl, ◌≢◌, List, [], ◌∷◌, ◌++◌, ◌==◌,
  if◌then◌else◌, replicate, length, take, ne→==, eq→==,
}
use slirp4tinc.Prelude.Int.{ℤ, pos, neg, is_negative}
use slirp4tinc.Prelude.Run.{Run, ok, blocked, ◌>>=◌, ◌>>◌, >>=-eq-ok, ok-injective}
use slirp4tinc.Daemon.Os.{Sys, done, fail, Abi, Pointer, address, pass}

module _ (abi : Abi) where
  -- `CATCH_EINTR(n = expr)`: the last answer, which is no interruption.
  pub catch_eintr : {A : Type 0} → List (Sys A) → Run (Sys A)
  catch_eintr [] = blocked
  catch_eintr (done a ∷ rest) = ok (done a)
  catch_eintr (fail e ∷ rest) =
      let again = catch_eintr rest in if e == abi.eintr then again else ok (fail e)

  -- What both functions make of the number of bytes, with the value of `errno` behind the call.
  pub classify : Sys ℕ → ℤ × ℕ
  classify (fail e) = (if e == abi.eagain then pos 0 else neg e, e)
  classify (done zero) = (neg abi.enotconn, 0)
  classify (done (suc n)) = (pos (suc n), 0)

  -- How many bytes an answer of `recvfrom` has, and which.
  abbrev pub received_count : Sys (List ℕ) → Sys ℕ
  received_count (done bytes) = done (length bytes)
  received_count (fail e) = fail e

  abbrev pub received_bytes : Sys (List ℕ) → List ℕ
  received_bytes (done bytes) = bytes
  received_bytes (fail e) = []

  -- The part of a message that an answer of `sendto` says was sent.
  abbrev pub sent_bytes : List ℕ → Sys ℕ → List ℕ
  sent_bytes message (done n) = take n message
  sent_bytes message (fail e) = []

  -- `net_sendto`: the result, `errno`, and the bytes sent.
  pub net_sendto : List ℕ → List (Sys ℕ) → Run (ℤ × ℕ × List ℕ)
  unfolding catch_eintr classify
  net_sendto message attempts = do
    n ← catch_eintr attempts
    let (result, errno) = classify n
    ok (result, errno, sent_bytes message n)

  -- `net_recvfrom`: the result, `errno`, and the bytes put at the start of the buffer.
  pub net_recvfrom : List (Sys (List ℕ)) → Run (ℤ × ℕ × List ℕ)
  unfolding catch_eintr classify
  net_recvfrom attempts = do
    n ← catch_eintr attempts
    let (result, errno) = classify (received_count n)
    ok (result, errno, received_bytes n)

  -- `daemon_user_write`, whose destination is the switch's data address.
  pub daemon_user_write : List ℕ → Pointer → List (Sys ℕ) → Run (ℤ × ℕ × List ℕ)
  unfolding net_sendto
  daemon_user_write message data_addr attempts = do pass data_addr; net_sendto message attempts

  -- The loop ends at the first answer that is no interruption.
  catch_eintr-done :
      {A : Type 0} (k : ℕ) (a : A) (rest : List (Sys A))
      → catch_eintr (replicate k (fail abi.eintr) ++ done a ∷ rest) ≡ ok (done a)
  unfolding catch_eintr
  catch_eintr-done zero a rest = refl
  catch_eintr-done (suc k) a rest = rw (eq→== abi.eintr abi.eintr refl) (catch_eintr-done k a rest)

  catch_eintr-fail :
      {A : Type 0} (k e : ℕ) (rest : List (Sys A))
      → e ≢ abi.eintr
      → catch_eintr (replicate k (fail abi.eintr) ++ fail e ∷ rest) ≡ ok (fail e)
  unfolding catch_eintr
  catch_eintr-fail zero e rest ne = rw (ne→== e abi.eintr ne)
  catch_eintr-fail (suc k) e rest ne =
      rw (eq→== abi.eintr abi.eintr refl) (catch_eintr-fail k e rest ne)

  classify_received :
      (n : Sys (List ℕ))
      → let (r, errno) = classify (received_count n) in
        (r ≡ pos (length (received_bytes n))) ⊎ ((received_bytes n ≡ []) × (is_negative r ≡ true))
  unfolding classify
  classify_received (done []) = nothing abi.enotconn
    where
      nothing : (e : ℕ) → (neg e ≡ pos 0) ⊎ (◌≡◌ {A = List ℕ} [] [] × (is_negative (neg e) ≡ true))
      nothing zero = inl refl
      nothing (suc e) = inr (refl, refl)
  classify_received (done (b ∷ bytes)) = inl refl
  classify_received (fail e) = elim (Bool-cases (e == abi.eagain)) [
    | inl h ↦ rw h (inl refl)
    | inr h ↦ rw h (failed e)
  ]
    where
      failed : (e : ℕ) → (neg e ≡ pos 0) ⊎ (◌≡◌ {A = List ℕ} [] [] × (is_negative (neg e) ≡ true))
      failed zero = inl refl
      failed (suc e) = inr (refl, refl)

  -- A `net_recvfrom` that returns gives the number of bytes that it received, or a negative number
  -- and no bytes.
  pub net_recvfrom_count :
      (attempts : List (Sys (List ℕ))) (r : ℤ) (errno : ℕ) (received : List ℕ)
      → net_recvfrom attempts ≡ ok (r, errno, received)
      → (r ≡ pos (length received)) ⊎ ((received ≡ []) × (is_negative r ≡ true))
  unfolding net_recvfrom
  net_recvfrom_count attempts r errno received e =
      let (n, e1, e2) = >>=-eq-ok (catch_eintr attempts) _ e in
      subst
        (λ (t : ℤ × ℕ × List ℕ). (t.0 ≡ pos (length t.2)) ⊎ ((t.2 ≡ []) × (is_negative t.0 ≡ true)))
        (ok-injective e2) (classify_received n)

  -- However often signals interrupt it, `net_recvfrom` returns by its first other answer: the
  -- number of bytes, the bytes and a zero `errno` if there are any, and the negative ENOTCONN,
  -- still with a zero `errno`, if there are none; for EAGAIN, which is another number than EINTR,
  -- it returns 0, and for any other error the negative error, which `errno` holds.
  pub net_recvfrom_lem :
      (k b : ℕ) (bytes : List ℕ) (e : ℕ) (rest : List (Sys (List ℕ)))
      → abi.eagain ≢ abi.eintr
      → e ≢ abi.eintr
      → e ≢ abi.eagain
      → let interrupted = replicate k (fail abi.eintr) in
        (net_recvfrom (interrupted ++ done (b ∷ bytes) ∷ rest)
          ≡ ok (pos (length (b ∷ bytes)), 0, b ∷ bytes))
        × (net_recvfrom (interrupted ++ done [] ∷ rest) ≡ ok (neg abi.enotconn, 0, []))
        × (net_recvfrom (interrupted ++ fail abi.eagain ∷ rest) ≡ ok (pos 0, abi.eagain, []))
        × (net_recvfrom (interrupted ++ fail e ∷ rest) ≡ ok (neg e, e, []))
  unfolding net_recvfrom
  net_recvfrom_lem k b bytes e rest n1 n2 n3 = (
    rw (catch_eintr-done k (b ∷ bytes) rest),
    rw (catch_eintr-done k [] rest),
    rw (catch_eintr-fail k abi.eagain rest n1, eq→== abi.eagain abi.eagain refl),
    rw (catch_eintr-fail k e rest n2, ne→== e abi.eagain n3),
  )

  -- However often signals interrupt it, `daemon_user_write` with a destination returns by its first
  -- other answer: the number of bytes that were sent from the front of the message, the negative
  -- ENOTCONN if there are none, 0 for EAGAIN, which is another number than EINTR, and the negative
  -- error for any other one.
  pub daemon_user_write_lem :
      (k n e a : ℕ) (message : List ℕ) (rest : List (Sys ℕ))
      → abi.eagain ≢ abi.eintr
      → e ≢ abi.eintr
      → e ≢ abi.eagain
      → let interrupted = replicate k (fail abi.eintr) in
        (daemon_user_write message (address a) (interrupted ++ done (suc n) ∷ rest)
          ≡ ok (pos (suc n), 0, take (suc n) message))
        × (daemon_user_write message (address a) (interrupted ++ done 0 ∷ rest)
            ≡ ok (neg abi.enotconn, 0, []))
        × (daemon_user_write message (address a) (interrupted ++ fail abi.eagain ∷ rest)
            ≡ ok (pos 0, abi.eagain, []))
        × (daemon_user_write message (address a) (interrupted ++ fail e ∷ rest) ≡ ok (neg e, e, []))
  unfolding daemon_user_write pass
  daemon_user_write_lem k n e a message rest n1 n2 n3 = (
    rw (catch_eintr-done k (suc n) rest),
    rw (catch_eintr-done k 0 rest),
    rw (catch_eintr-fail k abi.eagain rest n1, eq→== abi.eagain abi.eagain refl),
    rw (catch_eintr-fail k e rest n2, ne→== e abi.eagain n3),
  )
