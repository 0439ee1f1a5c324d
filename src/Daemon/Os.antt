-- ===== src/Daemon/Os.antt =====
-- What daemon_user.c uses of the operating system: file descriptors, heap memory for addresses, and
-- the answers of system calls, which are parameters.
use slirp4tinc.Prelude.{
  ◌≡◌, arith, ℕ, Bool, true, false, Option, none, some, List, ◌==◌, if◌then◌else◌,
}
use slirp4tinc.Prelude.Int.{ℤ, pos, negsuc}
use slirp4tinc.Prelude.Run.{Run, ok, undefined}

-- The answer of a system call: its value, or -1 with this `errno`.
pub data Sys {ℓ} (A : Type ℓ) : Type ℓ where
  done : A → Sys A
  fail : ℕ → Sys A

-- The constants of the system's headers that the code uses.
pub record Abi : Type 0 where
  pub eintr : ℕ
  pub eagain : ℕ
  pub enomem : ℕ
  pub enotconn : ℕ
  -- `sizeof(sun_path)`, `sizeof(struct sockaddr_un)` and `sizeof(struct request_v3)`
  pub sun_path_size : ℕ
  pub sockaddr_size : ℕ
  pub request_size : ℕ
  -- The memory of the structure `name` of `daemon_user_init`, given its `pid` and `usecs`.
  pub name_image : ℕ → ℕ → List ℕ

-- A `struct sockaddr_un` of family `AF_UNIX`: the bytes that were copied into `sun_path`.
pub record Sockaddr : Type 0 where
  pub sun_path : List ℕ

-- A pointer to a `struct sockaddr_un` on the heap.
pub data Pointer : Type 0 where
  uninitialised : Pointer
  null : Pointer
  address : ℕ → Pointer

-- `enum request_type`
pub data RequestType : Type 0 where
  req_new_control : RequestType

-- `struct request_v3`
pub record Request : Type 0 where
  pub magic : ℕ
  pub version : ℕ
  pub request_type : RequestType
  pub sock : Sockaddr

-- The process: which descriptors are open, what the heap holds, and the requests written so far.
pub record World : Type 0 where
  pub fds : ℕ → Bool
  pub heap : ℕ → Option Sockaddr
  pub requests : List Request

abbrev pub set_fd : (ℕ → Bool) → ℕ → Bool → ℕ → Bool
set_fd f fd b k = if fd == k then b else f k

abbrev pub set_cell : (ℕ → Option Sockaddr) → ℕ → Option Sockaddr → ℕ → Option Sockaddr
set_cell h a c k = if a == k then c else h k

abbrev pub open_fd : ℕ → World → World
open_fd fd w = record w { fds = set_fd w.fds fd true }

-- `close(fd)`. A descriptor that is not open gives an error, which no caller looks at.
abbrev pub close : ℤ → World → World
close (pos fd) w = record w { fds = set_fd w.fds fd false }
close (negsuc n) w = w

abbrev pub store : ℕ → Sockaddr → World → World
store a c w = record w { heap = set_cell w.heap a (some c) }

-- `*p`
abbrev pub load : Pointer → World → Run Sockaddr
load uninitialised w = undefined
load null w = undefined
load (address a) w = elim (w.heap a) [ none ↦ undefined | some c ↦ ok c ]

-- `free(p)`. Only a null pointer and the address of an allocated object may be freed.
abbrev pub free : Pointer → World → Run World
free uninitialised w = undefined
free null w = ok w
free (address a) w = elim (w.heap a) [
  | none ↦ undefined
  | some c ↦ ok (record w { heap = set_cell w.heap a none })
]

-- Passing an indeterminate pointer to a system call is undefined; the call checks any other one.
unfoldable pub pass : Pointer → Run (Unit {0})
pass uninitialised = undefined
pass null = ok tt
pass (address a) = ok tt

pub pass-address : (p : Pointer) (a : ℕ) → p ≡ address a → pass p ≡ ok tt
unfolding pass
pass-address p a e = ground arith
