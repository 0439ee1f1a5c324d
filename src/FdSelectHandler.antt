-- ===== src/FdSelectHandler.antt =====
-- src/Interface/FdSelectHandler.h and .cpp: the chain of handlers, linked through the handlers
-- themselves. A handler is a number, and so is the variable of a chain's first handler; `prev`, `next`
-- and `chain` point at them or are null.
pub mod Neighbours
pub mod Chain
pub mod Dispatch
pub mod Passes
pub mod Waits
pub mod Bounds
pub mod Tests
use slirp4tinc.Prelude.{
  ℕ, zero, suc, ◌+◌, ◌&&◌, ◌||◌, ltb, has, Bool, true, false, Option, none, some, List, [], ◌∷◌,
  ◌==◌, if◌then◌else◌,
}
use slirp4tinc.Prelude.Int.{ℤ, pos, negsuc}
use slirp4tinc.Prelude.Run.{Run, ok, blocked, undefined, ◌>>=◌}
use slirp4tinc.Daemon.Os.{Sys, done, fail}

pub record Links : Type 0 where
  pub prev : Option ℕ
  pub next : Option ℕ
  pub chain : Option ℕ

-- All handlers and all chain variables.
pub record Handlers : Type 0 where
  pub links : ℕ → Links
  pub chains : ℕ → Option ℕ

-- The constructor
abbrev pub unlinked : Links
unlinked = record { prev = none; next = none; chain = none }

abbrev pub points_to : Option ℕ → ℕ → Bool
points_to none i = false
points_to (some x) i = x == i

-- `p->next = v` and `p->prev = v`, if `p` is not null.
abbrev pub write_next : Option ℕ → Option ℕ → Handlers → Handlers
write_next p v s = record s {
  links = λ i. if points_to p i then record (s.links i) { next = v } else s.links i;
}

abbrev pub write_prev : Option ℕ → Option ℕ → Handlers → Handlers
write_prev p v s = record s {
  links = λ i. if points_to p i then record (s.links i) { prev = v } else s.links i;
}

abbrev pub write_links : ℕ → Links → Handlers → Handlers
write_links h v s = record s { links = λ i. if h == i then v else s.links i }

abbrev pub write_chain : Option ℕ → Option ℕ → Handlers → Handlers
write_chain c v s = record s { chains = λ i. if points_to c i then v else s.chains i }

-- `addTo(_chain)`
unfoldable pub add_to : ℕ → ℕ → Handlers → Handlers
add_to h c s =
    let s1 = write_links h (record { prev = none; next = s.chains c; chain = some c }) s in
    let s2 = write_prev (s1.links h).next (some h) s1 in write_chain (some c) (some h) s2

-- The first statement of `removeFromChain()`
pub unlink_before : ℕ → Handlers → Handlers
unlink_before h s = elim (s.links h).prev [
  | some p ↦ write_next (some p) (s.links h).next s
  | none ↦ write_chain (s.links h).chain (s.links h).next s
]

-- `removeFromChain()`
pub remove_from_chain : ℕ → Handlers → Handlers
unfolding unlink_before
remove_from_chain h s =
    let s1 = unlink_before h s in
    let s2 = write_prev (s1.links h).next (s1.links h).prev s1 in write_links h unlinked s2

-- What a handler's class makes of `fd()` and `execute()`, on the state `W` of the program: `fd` gives
-- the descriptor and the flags `waitForRead` and `waitForWrite` that it leaves.
pub record Client (W : Type 0) : Type 0 where
  pub handlers : W → Handlers
  pub fd : ℕ → W → Run (ℤ × Bool × Bool × W)
  pub execute : ℕ → Bool → Bool → W → Run W

-- `FD_SET(fd, &set)` and `FD_ISSET(fd, &set)`, if the flag is set.
abbrev pub fd_set_if : ℕ → Bool → ℕ → List ℕ → Run (List ℕ)
fd_set_if size false fd fds = ok fds
fd_set_if size true fd fds = if ltb fd size then ok (fd ∷ fds) else undefined

abbrev pub fd_isset_if : ℕ → Bool → ℤ → List ℕ → Run Bool
fd_isset_if size false fd fds = ok false
fd_isset_if size true (negsuc n) fds = undefined
fd_isset_if size true (pos fd) fds = if ltb fd size then ok (has fd fds) else undefined

abbrev pub max_fd : ℤ → ℕ → ℤ
max_fd (negsuc n) fd = pos fd
max_fd (pos m) fd = if ltb m fd then pos fd else pos m

-- `struct timespec*`: null, or seconds and nanoseconds.
abbrev pub Timeout : Type 0
Timeout = Option (ℕ × ℕ)

module _ {W : Type 0} (client : Client W) where
  abbrev pub next_of : W → ℕ → Option ℕ
  next_of w h = ((client.handlers w).links h).next

  -- The sets of the first loop of `waitOn`: `fdMax`, `readSet` and `writeSet`.
  abbrev pub Sets : Type 0
  Sets = ℤ × List ℕ × List ℕ

  -- What a handler adds to the sets; `size` is FD_SETSIZE.
  pub collect_one : ℕ → Sets → ℤ × Bool × Bool × W → Run (Sets × W)
  collect_one size sets (negsuc n, for_read, for_write, w) = ok (sets, w)
  collect_one size (fd_max, read_set, write_set) (pos fd, for_read, for_write, w) = do
    read_set' ← fd_set_if size for_read fd read_set
    write_set' ← fd_set_if size for_write fd write_set
    ok ((max_fd fd_max fd, read_set', write_set'), w)

  pub collect_loop : ℕ → ℕ → Option ℕ → Sets → W → Run (Sets × W)
  unfolding collect_one
  collect_loop zero size h sets w = blocked
  collect_loop (suc fuel) size none sets w = ok (sets, w)
  collect_loop (suc fuel) size (some h) sets w = do
    answer ← client.fd h w
    (sets', w') ← collect_one size sets answer
    collect_loop fuel size (next_of w' h) sets' w'

  -- A pass of the second loop; the next handler is read before `execute`.
  pub dispatch_one : ℕ → List ℕ → List ℕ → ℕ → W → Run (Option ℕ × W)
  dispatch_one size read_set write_set h w = do
    (fd, for_read, for_write, w1) ← client.fd h w
    readable ← fd_isset_if size for_read fd read_set
    writable ← fd_isset_if size for_write fd write_set
    w2 ← if readable || writable then client.execute h readable writable w1 else ok w1
    ok (next_of w1 h, w2)

  pub dispatch_loop : ℕ → ℕ → List ℕ → List ℕ → Option ℕ → W → Run W
  unfolding dispatch_one
  dispatch_loop size zero read_set write_set h w = blocked
  dispatch_loop size (suc fuel) read_set write_set none w = ok w
  dispatch_loop size (suc fuel) read_set write_set (some h) w = do
    (next, w') ← dispatch_one size read_set write_set h w
    dispatch_loop size fuel read_set write_set next w'

  -- The part of `waitOn` behind `pselect`, whose answer is the number of ready descriptors and the
  -- sets of those that are readable and writable. An error is reported on stderr only.
  pub after_pselect : ℕ → ℕ → ℕ → Sys (ℕ × List ℕ × List ℕ) → W → Run (Bool × W)
  unfolding dispatch_loop
  after_pselect size fuel c (fail e) w = ok (false, w)
  after_pselect size fuel c (done (zero, read_set, write_set)) w = ok (false, w)
  after_pselect size fuel c (done (suc n, read_set, write_set)) w = do
    w' ← dispatch_loop size fuel read_set write_set ((client.handlers w).chains c) w
    ok (true, w')

  -- `if (relativeTimeout) { ... nanosleep ... }`; an error is reported on stderr only.
  pub relative_wait : (ℕ × ℕ → Sys (Unit {0})) → Timeout → W → Run (Bool × W)
  relative_wait nanosleep none w = ok (false, w)
  relative_wait nanosleep (some t) w = elim (nanosleep t) [
    | done _ ↦ ok (false, w)
    | fail e ↦ ok (false, w)
  ]

  -- `waitOn(chain, relativeTimeout)`. Without descriptors it sleeps, if there is a timeout, and does
  -- no work. `pselect` answers for the timeout, the number of descriptors and the sets.
  pub wait_on :
      ℕ
      → ℕ
      → (Timeout → ℕ → List ℕ → List ℕ → Sys (ℕ × List ℕ × List ℕ))
      → (ℕ × ℕ → Sys (Unit {0}))
      → Timeout
      → ℕ
      → W
      → Run (Bool × W)
  unfolding collect_loop after_pselect relative_wait
  wait_on fuel size pselect nanosleep timeout c w = elim ((client.handlers w).chains c) [
    | none ↦ relative_wait nanosleep timeout w
    | some h ↦ (do
      ((fd_max, read_set, write_set), w') ← collect_loop fuel size (some h) (negsuc 0, [], []) w
      elim fd_max [
        | negsuc n ↦ relative_wait nanosleep timeout w'
        | pos m ↦ after_pselect size fuel c (pselect timeout (m + 1) read_set write_set) w'
      ])
  ]

  -- `checkAll(chain)`: the timeout is zero.
  pub check_all :
      ℕ
      → ℕ
      → (Timeout → ℕ → List ℕ → List ℕ → Sys (ℕ × List ℕ × List ℕ))
      → (ℕ × ℕ → Sys (Unit {0}))
      → ℕ
      → W
      → Run (Bool × W)
  unfolding wait_on
  check_all fuel size pselect nanosleep c w = wait_on fuel size pselect nanosleep (some (0, 0)) c w
