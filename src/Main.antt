-- ===== src/Main.antt =====
-- src/main.cpp: the start of the program and its loop, which waits for both handlers again and again.
pub mod Joined
pub mod Turns
pub mod Flow
pub mod Forward
pub mod Drain
use slirp4tinc.Prelude.{
  ℕ, suc, ◌+◌, Bool, true, false, not, Option, none, some, List, [], ◌∷◌, ◌++◌, ◌==◌, if◌then◌else◌,
}
use slirp4tinc.Prelude.Int.{ℤ}
use slirp4tinc.Prelude.Run.{Run, ok, undefined, assert, ◌>>=◌, ◌>>◌}
use slirp4tinc.Daemon.Os
use slirp4tinc.Daemon.Os.{Abi, Sys, done}
use slirp4tinc.Daemon.Switch.{Answers}
use slirp4tinc.Packets.{Buffers, XferBuffer, ring_size}
use slirp4tinc.ProducerConsumer
use slirp4tinc.UmlNetworkSocketPlug
use slirp4tinc.UmlNetworkSocketPlug.{UmlNetworkSocketPlug, has_posix_error}
use slirp4tinc.SlirpHandler
use slirp4tinc.SlirpHandler.{SlirpHandler}
use slirp4tinc.FdSelectHandler.{Handlers, Client, unlinked, add_to, wait_on}
use slirp4tinc.Bridge.{connect_plug, connect_slirp}

-- The two handlers, the rings, the chain, and what has been given to the library and to the switch.
pub record Program : Type 0 where
  pub plug : UmlNetworkSocketPlug
  pub slirp : SlirpHandler
  pub buffers : Buffers
  pub handlers : Handlers
  pub given : List (List ℕ)
  pub written : List (List ℕ)

-- The numbers of the handlers, and of the variable `connections`.
abbrev pub slirp_network : ℕ
slirp_network = 0

abbrev pub uml_plug : ℕ
uml_plug = 1

abbrev pub connections : ℕ
connections = 0

-- `connections` is null, and no handler is in a chain.
abbrev pub no_connections : Handlers
no_connections = record { links = λ i. unlinked; chains = λ i. none }

-- `slirpNetwork.addTo(connections)` and `umlPlug.addTo(connections)`
pub add_both : Handlers → Handlers
unfolding add_to
add_both s = add_to uml_plug connections (add_to slirp_network connections s)

-- From the construction of the slirp handler up to the loop.
pub join : UmlNetworkSocketPlug → Option ℕ → Buffers → Program
unfolding add_both
join u my_slirp b = record {
  plug = connect_plug u;
  slirp = connect_slirp (SlirpHandler.construct my_slirp);
  buffers = b;
  handlers = add_both no_connections;
  given = [];
  written = [];
}

-- `main` up to the loop, for the socket path that the command line gives; `vdeslirp_open` returns
-- `my_slirp`, and `memory` is what the arrays of packets contain at first.
pub start :
    Abi
    → Answers
    → ℕ
    → ℕ
    → List ℕ
    → Option ℕ
    → (ℕ → XferBuffer)
    → Os.World
    → Run (Program × Os.World)
unfolding join
start abi answers errno dev socket_path my_slirp memory w = do
  (u, w') ← UmlNetworkSocketPlug.construct abi answers errno dev socket_path w
  assert (not (has_posix_error u))
  uml2slirp ← ProducerConsumer.construct ring_size memory
  slirp2uml ← ProducerConsumer.construct ring_size memory
  let b : Buffers = record { uml2slirp_buffers = uml2slirp; slirp2uml_buffers = slirp2uml }
  ok (join u my_slirp b, w')

-- What the system answers in one round of the loop: `recvfrom` and `sendto`, `vdeslirp_recv`, and
-- `pselect` without a timeout.
pub record Round : Type 0 where
  pub read_attempts : List (Sys (List ℕ))
  pub write_attempts : List (Sys ℕ)
  pub library : Sys (List ℕ)
  pub pselect : ℕ → List ℕ → List ℕ → Sys (ℕ × List ℕ × List ℕ)

-- `waitOn` is called without a timeout, so that it never sleeps.
abbrev pub no_sleep : ℕ × ℕ → Sys (Unit {0})
no_sleep t = done tt

module _ (abi : Abi) (vdeslirp_fd : ℕ → ℤ) (fd_setsize : ℕ) where
  pub handler_fd : ℕ → Program → Run (ℤ × Bool × Bool × Program)
  handler_fd h w =
      let for_plug = do
        (fd, u, b) ← UmlNetworkSocketPlug.fd w.plug w.buffers
        ok (fd, u.wait_for_read, u.wait_for_write, record w { plug = u; buffers = b })
      in let for_slirp = do
        (fd, s, b) ← SlirpHandler.fd vdeslirp_fd w.slirp w.buffers
        ok (fd, s.wait_for_read, s.wait_for_write, record w { slirp = s; buffers = b })
        in if h == uml_plug then for_plug else if h == slirp_network then for_slirp else undefined

  pub handler_execute : Round → ℕ → Bool → Bool → Program → Run Program
  handler_execute r h readable writable w =
      let by_plug = do
        (u, b, sent) ←
            UmlNetworkSocketPlug.execute abi r.write_attempts r.read_attempts readable writable
              w.plug w.buffers
        ok (record w { plug = u; buffers = b; written = w.written ++ sent })
      in let by_slirp = do
        (s, b, sent) ← SlirpHandler.execute r.library readable writable w.slirp w.buffers
        ok (record w { slirp = s; buffers = b; given = w.given ++ sent })
        in if h == uml_plug then by_plug else if h == slirp_network then by_slirp else undefined

  -- Both classes behind the virtual functions of FdSelectHandler.
  pub both_handlers : Round → Client Program
  both_handlers r = record {
    handlers = λ w. w.handlers;
    fd = handler_fd;
    execute = handler_execute r;
  }

  -- `while (true)`, for the rounds that are given; the chain has two handlers.
  pub main_loop : List Round → Program → Run Program
  unfolding both_handlers
  main_loop [] w = ok w
  main_loop (r ∷ rounds) w = do
    (did_work, w') ←
        wait_on (both_handlers r) 3 fd_setsize (λ timeout. r.pselect) no_sleep none connections w
    main_loop rounds w'
