-- ===== src/Daemon/Switch.antt =====
-- Setting up and taking down the connection: `new_addr`, `connect_to_switch`, `daemon_user_init`,
-- `daemon_open` and `daemon_remove`. Each `goto` target is a function that goes on to the next one.
-- The messages to stderr are left out.
pub mod Connect
pub mod Lifecycle
pub mod Tests
use Prim.Native.String.{String}
use text.Mathlib.Text.{◌==◌ as str_eq}
use slirp4tinc.Prelude.{
  ℕ, Option, none, some, List, [], ◌∷◌, ◌++◌, ◌==◌, if◌then◌else◌, leb, length,
}
use slirp4tinc.Prelude.Int.{ℤ, pos, negsuc, neg, is_negative}
use slirp4tinc.Prelude.Run.{Run, ok, undefined, ◌>>=◌, ◌>>◌}
use slirp4tinc.Daemon.Os.{
  Sys, done, fail, Abi, Sockaddr, Pointer, null, address, Request, req_new_control, World, open_fd,
  close, store, load, free, pass,
}

-- `struct daemon_data`; `ctl_sock` without its terminating zero.
pub record DaemonData : Type 0 where
  pub sock_type : String
  pub ctl_sock : List ℕ
  pub ctl_addr : Pointer
  pub data_addr : Pointer
  pub local_addr : Pointer
  pub fd : ℤ
  pub control : ℤ
  pub dev : ℕ

-- The answers of the calls that a connection makes. `malloc` gives an address or fails.
pub record Answers : Type 0 where
  pub ctl_memory : Option ℕ
  pub pid : ℕ
  pub usecs : ℕ
  pub local_memory : Option ℕ
  pub control_socket : Sys ℕ
  pub control_connect : Sys (Unit {0})
  pub data_socket : Sys ℕ
  pub data_bind : Sys (Unit {0})
  pub reply_memory : Option ℕ
  pub request_written : Sys ℕ
  pub reply_read : Sys (ℕ × Sockaddr)

abbrev pub switch_magic : ℕ
switch_magic = 0xfeedface

abbrev pub switch_version : ℕ
switch_version = 3

-- A call returns its result and the changed process and data.
abbrev pub Outcome : Type 0
Outcome = ℤ × World × DaemonData

-- `out:`, `out_close:` and `out_free:` of `connect_to_switch`
pub out : ℤ → DaemonData → World → Run Outcome
out err d w = ok (err, close d.control w, d)

pub out_close : ℕ → ℤ → DaemonData → World → Run Outcome
unfolding out
out_close fd err d w = out err d (close (pos fd) w)

pub out_free : Pointer → ℕ → ℤ → DaemonData → World → Run Outcome
unfolding out_close
out_free sun fd err d w = do w' ← free sun w; out_close fd err d w'

-- The end of `daemon_user_init`, behind `connect_to_switch`.
pub finish_init : Outcome → Run Outcome
finish_init (fd, w, d) =
    if is_negative fd
    then (do w' ← free d.local_addr w; ok (fd, w', record d { fd = fd; local_addr = null }))
    else ok (pos 0, w, record d { fd = fd })

module _ (abi : Abi) where
  -- `memcpy` past the end of `sun_path` leaves the allocated object.
  pub new_addr : List ℕ → Option ℕ → World → Run (Pointer × World)
  new_addr name none w = ok (null, w)
  new_addr name (some a) w =
      if leb (length name) abi.sun_path_size
      then ok (address a, store a (record { sun_path = name }) w)
      else undefined

  -- From `n = read(pri->control, sun, sizeof(*sun))` on, with the answer of that call.
  pub read_reply : Sys (ℕ × Sockaddr) → ℕ → ℕ → DaemonData → World → Run Outcome
  unfolding out_free
  read_reply (fail e) fd sun d w = out_free (address sun) fd (neg abi.enotconn) d w
  read_reply (done (n, reply)) fd sun d w =
      if n == abi.sockaddr_size
      then ok (pos fd, store sun reply w, record d { data_addr = address sun })
      else out_free (address sun) fd (neg abi.enotconn) d w

  -- From `n = write(pri->control, &req, sizeof(req))` on.
  pub write_request : Answers → Sys ℕ → Request → ℕ → ℕ → DaemonData → World → Run Outcome
  unfolding read_reply
  write_request k (fail e) req fd sun d w = out_free (address sun) fd (neg abi.enotconn) d w
  write_request k (done n) req fd sun d w =
      if n == abi.request_size
      then read_reply k.reply_read fd sun d (record w { requests = w.requests ++ req ∷ [] })
      else out_free (address sun) fd (neg abi.enotconn) d w

  -- From `sun = malloc(sizeof(struct sockaddr_un))` on. The `read` fills the memory.
  pub allocate_reply : Answers → Option ℕ → ℕ → DaemonData → World → Run Outcome
  unfolding write_request
  allocate_reply k none fd d w = out_close fd (neg abi.enomem) d w
  allocate_reply k (some sun) fd d w = do
    let w1 = store sun (record { sun_path = [] }) w
    sock ← load d.local_addr w1
    let req : Request = record {
      magic = switch_magic;
      version = switch_version;
      request_type = req_new_control;
      sock = sock;
    }
    write_request k k.request_written req fd sun d w1

  -- From `bind(fd, local_addr, sizeof(*local_addr))` on.
  pub bind_data : Answers → Sys (Unit {0}) → ℕ → DaemonData → World → Run Outcome
  unfolding allocate_reply
  bind_data k (fail e) fd d w = out_close fd (neg e) d w
  bind_data k (done _) fd d w = allocate_reply k k.reply_memory fd d w

  -- From `fd = socket(AF_UNIX, SOCK_DGRAM, 0)` on.
  pub open_data : Answers → Sys ℕ → DaemonData → World → Run Outcome
  unfolding bind_data
  open_data k (fail e) d w = out (neg e) d w
  open_data k (done fd) d w = do pass d.local_addr; bind_data k k.data_bind fd d (open_fd fd w)

  -- From `connect(pri->control, ctl_addr, sizeof(*ctl_addr))` on.
  pub connect_control : Answers → Sys (Unit {0}) → DaemonData → World → Run Outcome
  unfolding open_data
  connect_control k (fail e) d w = out (neg e) d w
  connect_control k (done _) d w = open_data k k.data_socket d w

  -- From `pri->control = socket(AF_UNIX, SOCK_STREAM, 0)` on.
  pub open_control : Answers → Sys ℕ → DaemonData → World → Run Outcome
  unfolding connect_control
  open_control k (fail e) d w = ok (neg e, w, record d { control = negsuc 0 })
  open_control k (done c) d w = do
    pass d.ctl_addr
    connect_control k k.control_connect (record d { control = pos c }) (open_fd c w)

  pub connect_to_switch : Answers → DaemonData → World → Run Outcome
  unfolding open_control
  connect_to_switch k d w = open_control k k.control_socket d w

  -- The address of the control socket is set for a socket of type "unix" only.
  pub new_ctl_addr : Answers → DaemonData → World → Run (Pointer × World)
  unfolding new_addr
  new_ctl_addr k d w =
      if str_eq d.sock_type "unix"
      then new_addr (d.ctl_sock ++ 0 ∷ []) k.ctl_memory w
      else ok (d.ctl_addr, w)

  pub daemon_user_init : Answers → ℕ → DaemonData → World → Run Outcome
  unfolding new_ctl_addr connect_to_switch finish_init
  daemon_user_init k dev d w = do
    (ctl, w1) ← new_ctl_addr k d w
    (local, w2) ← new_addr (abi.name_image k.pid k.usecs) k.local_memory w1
    connected ← connect_to_switch k (record d { ctl_addr = ctl; local_addr = local; dev = dev }) w2
    finish_init connected

pub daemon_open : DaemonData → ℤ
daemon_open d = d.fd

pub daemon_remove : DaemonData → World → Run (World × DaemonData)
daemon_remove d w = do
  let w1 = close d.fd w
  let w2 = close d.control w1
  w3 ← free d.data_addr w2
  w4 ← free d.ctl_addr w3
  w5 ← free d.local_addr w4
  ok (
    w5,
    record d {
      fd = negsuc 0;
      control = negsuc 0;
      data_addr = null;
      ctl_addr = null;
      local_addr = null;
    },
  )
