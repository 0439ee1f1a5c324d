-- ===== src/FdIoStream/Errors.antt =====
-- When a stream reports an error, and what it transfers then.
use slirp4tinc.Prelude.{
  ℕ, zero, suc, ◌<◌, ◌≡◌, ◌≢◌, refl, sym, ◌⊎◌, inl, inr, Bool, true, false, List, arith, lt→ltb,
}
use mathlib.Core.Path.{subst}
use slirp4tinc.Packets.{is_nonzero}
use slirp4tinc.Prelude.Int.{pos}
use slirp4tinc.Prelude.Run.{ok}
use slirp4tinc.Daemon.Os.{Sys, done, fail}
use slirp4tinc.FdIoStream.{
  FdIoStream, Constants, has_posix_error, hard_error, write_block, after_select, read_block,
}

module _ (constants : Constants) where
  -- The call failed, and not because it would have had to wait.
  abbrev pub Failed : {A : Type 0} → Sys A → ℕ → Type 0
  Failed answer e =
      (answer ≡ fail e) × (e ≢ 0) × (e ≢ constants.eagain) × (e ≢ constants.ewouldblock)

  hard_error_lem :
      (e : ℕ)
      → is_nonzero (hard_error constants e) ≡ true
      → (hard_error constants e ≡ e)
        × (e ≢ 0)
        × (e ≢ constants.eagain)
        × (e ≢ constants.ewouldblock)
  unfolding hard_error
  hard_error_lem e h = ground arith

  hard_error-Failed :
      {A : Type 0} (e : ℕ)
      → is_nonzero (hard_error constants e) ≡ true
      → Failed {A = A} (fail e) (hard_error constants e)
  hard_error-Failed {A} e h =
      let (same, n1, n2, n3) = hard_error_lem e h in
      subst (λ (k : ℕ). Failed {A = A} (fail e) k) (sym same) (refl, n1, n2, n3)

  -- A stream that reports an error after `writeBlock` wrote nothing, and the error is that of the
  -- call, which did not fail for want of room.
  pub write_block_error :
      (answer : Sys ℕ) (s : FdIoStream)
      → has_posix_error (write_block constants answer s).1 ≡ true
      → ((write_block constants answer s).0 ≡ 0)
        × Failed answer (write_block constants answer s).1.my_errno
  unfolding write_block
  write_block_error (done n) s h = cc
  write_block_error (fail e) s h = (refl, hard_error-Failed e h)

  -- `readBlock` on a descriptor that fits into an `fd_set` returns what `after_select` makes of the
  -- answers. If the stream then reports an error, nothing was read, the buffer is as before, and the
  -- error is that of `select`, or that of `read`, which did not fail for want of data.
  pub read_block_error :
      (selected : Sys (ℕ × Bool)) (answer : Sys (List ℕ)) (b : List ℕ) (s : FdIoStream) (f : ℕ)
      → s.sys_fd ≡ pos f
      → f < constants.fd_setsize
      → has_posix_error (after_select constants selected answer b s).2 ≡ true
      → (read_block constants selected answer b s ≡ ok (after_select constants selected answer b s))
        × ((after_select constants selected answer b s).0 ≡ 0)
        × ((after_select constants selected answer b s).1 ≡ b)
        × ((selected ≡ fail (after_select constants selected answer b s).2.my_errno)
            ⊎ Failed answer (after_select constants selected answer b s).2.my_errno)
  unfolding read_block
  read_block_error selected answer b s f at fits h =
      let (nothing, same, cause) = ended selected answer h in
      (rw (at, lt→ltb f constants.fd_setsize fits), nothing, same, cause)
    where
      ended :
          (selected : Sys (ℕ × Bool)) (answer : Sys (List ℕ))
          → has_posix_error (after_select constants selected answer b s).2 ≡ true
          → ((after_select constants selected answer b s).0 ≡ 0)
            × ((after_select constants selected answer b s).1 ≡ b)
            × ((selected ≡ fail (after_select constants selected answer b s).2.my_errno)
                ⊎ Failed answer (after_select constants selected answer b s).2.my_errno)
      ended (fail e) answer h = (refl, refl, inl refl)
      ended (done (zero, is_set)) answer h = cc
      ended (done (suc n, false)) answer h = cc
      ended (done (suc n, true)) (done bytes) h = cc
      ended (done (suc n, true)) (fail e) h = (refl, refl, inr (hard_error-Failed e h))
