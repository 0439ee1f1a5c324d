-- ===== src/FdIoStream.antt =====
-- src/Util/FdIoStream.h and .cpp: a byte stream on a file descriptor. The answers of `fcntl`,
-- `select`, `read` and `write` are arguments.
pub mod Errors
use slirp4tinc.Prelude.{
  ℕ, zero, suc, ◌<◌, ◌≡◌, Bool, true, false, not, ◌||◌, List, [], ◌∷◌, ◌==◌, if◌then◌else◌, ltb,
  length,
}
use slirp4tinc.Prelude.Int.{ℤ, pos, negsuc}
use slirp4tinc.Prelude.Run.{Run, ok, undefined, ◌>>=◌, ◌>>◌}
use slirp4tinc.Daemon.Os.{Sys, done, fail}
use slirp4tinc.Packets.{is_nonzero, overwrite}

pub record FdIoStream : Type 0 where
  pub sys_fd : ℤ
  pub my_errno : ℕ

-- The constants `EAGAIN`, `EWOULDBLOCK` and `FD_SETSIZE`, and `flags | O_NONBLOCK`.
pub record Constants : Type 0 where
  pub eagain : ℕ
  pub ewouldblock : ℕ
  pub fd_setsize : ℕ
  pub or_nonblock : ℤ → ℤ

abbrev pub has_posix_error : FdIoStream → Bool
has_posix_error s = is_nonzero s.my_errno

abbrev pub get_errno : FdIoStream → ℕ
get_errno s = s.my_errno

abbrev pub fd : FdIoStream → ℤ
fd s = s.sys_fd

module _ (constants : Constants) where
  -- The requests `F_SETFL` made for a descriptor, given what `F_GETFL` answers.
  pub make_nonblocking : (ℕ → ℤ) → ℤ → List (ℕ × ℤ)
  make_nonblocking getfl (negsuc n) = []
  make_nonblocking getfl (pos n) = (n, constants.or_nonblock (getfl n)) ∷ []

  -- The constructor and `setFd`
  pub construct : (ℕ → ℤ) → ℤ → FdIoStream × List (ℕ × ℤ)
  unfolding make_nonblocking
  construct getfl sys_fd = (record { sys_fd = sys_fd; my_errno = 0 }, make_nonblocking getfl sys_fd)

  pub set_fd : (ℕ → ℤ) → ℤ → FdIoStream → FdIoStream × List (ℕ × ℤ)
  unfolding make_nonblocking
  set_fd getfl sys_fd s = (record s { sys_fd = sys_fd }, make_nonblocking getfl sys_fd)

  -- `if ((errno != EAGAIN) && (errno != EWOULDBLOCK)) myErrno = errno;` behind `myErrno = 0`
  unfoldable pub hard_error : ℕ → ℕ
  hard_error e = if (e == constants.eagain) || (e == constants.ewouldblock) then 0 else e

  -- `writeBlock`, given the answer of `write`
  unfoldable pub write_block : Sys ℕ → FdIoStream → ℕ × FdIoStream
  unfolding hard_error
  write_block (done n) s = (n, record s { my_errno = 0 })
  write_block (fail e) s = (0, record s { my_errno = hard_error e })

  -- `FD_SET` of a descriptor outside of the set is undefined.
  pub fd_set : ℤ → Run (Unit {0})
  fd_set (negsuc n) = undefined
  fd_set (pos n) = if ltb n constants.fd_setsize then ok tt else undefined

  -- The part of `readBlock` behind `select`: the count, the buffer and the stream.
  unfoldable pub read_ready : Sys (List ℕ) → List ℕ → FdIoStream → ℕ × List ℕ × FdIoStream
  unfolding hard_error
  read_ready (done bytes) b s = (length bytes, overwrite bytes b, record s { my_errno = 0 })
  read_ready (fail e) b s = (0, b, record s { my_errno = hard_error e })

  -- What `select` answers is turned into a count: the number of ready descriptors, and whether this
  -- one is among them.
  unfoldable pub after_select :
      Sys (ℕ × Bool) → Sys (List ℕ) → List ℕ → FdIoStream → ℕ × List ℕ × FdIoStream
  unfolding read_ready
  after_select (fail e) answer b s = (0, b, record s { my_errno = e })
  after_select (done (zero, is_set)) answer b s = (0, b, record s { my_errno = 0 })
  after_select (done (suc n, false)) answer b s = (0, b, record s { my_errno = 0 })
  after_select (done (suc n, true)) answer b s = read_ready answer b s

  pub read_block :
      Sys (ℕ × Bool) → Sys (List ℕ) → List ℕ → FdIoStream → Run (ℕ × List ℕ × FdIoStream)
  unfolding fd_set after_select
  read_block selected answer b s = do fd_set s.sys_fd; ok (after_select selected answer b s)
