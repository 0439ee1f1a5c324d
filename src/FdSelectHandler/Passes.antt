-- ===== src/FdSelectHandler/Passes.antt =====
-- The passes of the loops of `waitOn`, one by one.
use slirp4tinc.Prelude.{
  ℕ, suc, ◌+◌, ◌≡◌, refl, ap, Bool, true, ◌||◌, if◌then◌else◌, Option, none, some, List, [], ◌∷◌,
  ◌<◌, ltb, lt→ltb, false, Bool-cases, inl, inr, has, ◌&&◌, zero,
}
use slirp4tinc.Prelude.Int.{ℤ, pos, negsuc}
use slirp4tinc.Prelude.Run.{ok}
use slirp4tinc.Daemon.Os.{Sys, done, fail}
use slirp4tinc.FdSelectHandler.{
  Client, Sets, next_of, max_fd, fd_isset_if, collect_one, collect_loop, dispatch_loop,
  after_pselect, wait_on, Timeout,
}

and_true : (t : Bool) → t && true ≡ t
and_true true = refl
and_true false = refl

and_false : (t : Bool) → t && false ≡ false
and_false true = refl
and_false false = refl

pub fd_isset_if_lem :
    (size : ℕ) (flag : Bool) (fd : ℕ) (fds : List ℕ)
    → fd < size
    → fd_isset_if size flag (pos fd) fds ≡ ok (has fd fds && flag)
fd_isset_if_lem size true fd fds less = rw (and_true (has fd fds), lt→ltb fd size less) refl
fd_isset_if_lem size false fd fds less = rw (and_false (has fd fds)) refl

module _ {W : Type 0} (client : Client W) where
  -- What a handler adds to the sets.
  pub collect_one_lem :
      (size fd : ℕ) (fd_max : ℤ) (read_set write_set : List ℕ) (for_read for_write : Bool) (w : W)
      → fd < size
      → collect_one client size (fd_max, read_set, write_set) (pos fd, for_read, for_write, w)
        ≡ ok (
          (
            max_fd fd_max fd,
            if for_read then fd ∷ read_set else read_set,
            if for_write then fd ∷ write_set else write_set,
          ),
          w,
        )
  unfolding collect_one
  collect_one_lem size fd fd_max read_set write_set true true w less = rw (lt→ltb fd size less) refl
  collect_one_lem size fd fd_max read_set write_set true false w less =
      rw (lt→ltb fd size less) refl
  collect_one_lem size fd fd_max read_set write_set false true w less =
      rw (lt→ltb fd size less) refl
  collect_one_lem size fd fd_max read_set write_set false false w less = refl

  pub collect_loop-some :
      (fuel size h : ℕ) (next : Option ℕ) (sets sets' : Sets client) (w w' : W)
      (answer : ℤ × Bool × Bool × W)
      → client.fd h w ≡ ok answer
      → collect_one client size sets answer ≡ ok (sets', w')
      → next_of client w' h ≡ next
      → collect_loop client (suc fuel) size (some h) sets w
        ≡ collect_loop client fuel size next sets' w'
  unfolding collect_loop
  collect_loop-some fuel size h next sets sets' w w' answer asked collected linked =
      rw (asked, collected) (ap (λ (k : Option ℕ). collect_loop client fuel size k sets' w') linked)

  pub collect_loop-none :
      (fuel size : ℕ) (sets : Sets client) (w : W)
      → collect_loop client (suc fuel) size none sets w ≡ ok (sets, w)
  unfolding collect_loop
  collect_loop-none fuel size sets w = refl

  pub dispatch_loop-some :
      (size fuel h : ℕ) (next : Option ℕ) (read_set write_set : List ℕ) (w w1 w2 : W) (fd : ℤ)
      (for_read for_write readable writable : Bool)
      → client.fd h w ≡ ok (fd, for_read, for_write, w1)
      → fd_isset_if size for_read fd read_set ≡ ok readable
      → fd_isset_if size for_write fd write_set ≡ ok writable
      → (if readable || writable then client.execute h readable writable w1 else ok w1) ≡ ok w2
      → next_of client w1 h ≡ next
      → dispatch_loop client size (suc fuel) read_set write_set (some h) w
        ≡ dispatch_loop client size fuel read_set write_set next w2
  unfolding dispatch_loop
  dispatch_loop-some size fuel h next read_set write_set w w1 w2 fd for_read for_write readable
        writable asked can_read can_write executed linked =
      rw (asked, can_read, can_write, executed)
        (ap (λ (k : Option ℕ). dispatch_loop client size fuel read_set write_set k w2) linked)

  pub dispatch_loop-none :
      (size fuel : ℕ) (read_set write_set : List ℕ) (w : W)
      → dispatch_loop client size (suc fuel) read_set write_set none w ≡ ok w
  unfolding dispatch_loop
  dispatch_loop-none size fuel read_set write_set w = refl

  pub wait_on-collected :
      (fuel size c h m : ℕ) (pselect : Timeout → ℕ → List ℕ → List ℕ → Sys (ℕ × List ℕ × List ℕ))
      (nanosleep : ℕ × ℕ → Sys (Unit {0})) (timeout : Timeout) (read_set write_set : List ℕ)
      (w w1 : W)
      → (client.handlers w).chains c ≡ some h
      → collect_loop client fuel size (some h) (negsuc 0, [], []) w
        ≡ ok ((pos m, read_set, write_set), w1)
      → wait_on client fuel size pselect nanosleep timeout c w
        ≡ after_pselect client size fuel c (pselect timeout (m + 1) read_set write_set) w1
  unfolding wait_on
  wait_on-collected fuel size c h m pselect nanosleep timeout read_set write_set w w1 head
        collected =
      rw (wait_on, head, collected) refl

  -- `pselect` fails, or finds nothing.
  pub after_pselect-fail :
      (size fuel c e : ℕ) (w : W) → after_pselect client size fuel c (fail e) w ≡ ok (false, w)
  unfolding after_pselect
  after_pselect-fail size fuel c e w = refl

  pub after_pselect-none :
      (size fuel c : ℕ) (read_set write_set : List ℕ) (w : W)
      → after_pselect client size fuel c (done (zero, read_set, write_set)) w ≡ ok (false, w)
  unfolding after_pselect
  after_pselect-none size fuel c read_set write_set w = refl

  pub after_pselect-done :
      (size fuel c k h : ℕ) (read_set write_set : List ℕ) (w w' : W)
      → (client.handlers w).chains c ≡ some h
      → dispatch_loop client size fuel read_set write_set (some h) w ≡ ok w'
      → after_pselect client size fuel c (done (suc k, read_set, write_set)) w ≡ ok (true, w')
  unfolding after_pselect
  after_pselect-done size fuel c k h read_set write_set w w' head dispatched =
      rw (head, dispatched) refl

pub max_fd_lem : (m fd : ℕ) → max_fd (pos m) fd ≡ pos (if ltb m fd then fd else m)
max_fd_lem m fd = elim (Bool-cases (ltb m fd)) [ inl e ↦ rw e refl | inr e ↦ rw e refl ]
