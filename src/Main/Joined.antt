-- ===== src/Main/Joined.antt =====
-- The program joined as `main` joins it, and what its handlers answer when they are asked.
use slirp4tinc.Prelude.{
  ℕ, ◌-◌, ◌<◌, ◌≡◌, refl, ap, ◌∙◌, Bool, true, false, none, some, List, [], ◌∷◌, length, ltb,
  if◌then◌else◌,
}
use slirp4tinc.Prelude.Int.{ℤ, pos, negsuc}
use slirp4tinc.Prelude.Run.{ok}
use slirp4tinc.Daemon.Os.{Abi, done}
use slirp4tinc.Packets.{Buffers, uml2slirp, slirp2uml, ring_size, is_nonzero}
use slirp4tinc.Packets.View.{Carries}
use slirp4tinc.UmlNetworkSocketPlug.{UmlNetworkSocketPlug}
use slirp4tinc.UmlNetworkSocketPlug.Transfer.{plug_fd_lem}
use slirp4tinc.SlirpHandler
use slirp4tinc.SlirpHandler.{SlirpHandler}
use slirp4tinc.SlirpHandler.Transfer.{IsConnected, slirp_fd_lem}
use slirp4tinc.FdSelectHandler.{collect_loop, Handlers, add_to}
use slirp4tinc.FdSelectHandler.Passes.{
  collect_one_lem, max_fd_lem, collect_loop-some, collect_loop-none,
}
use slirp4tinc.Bridge.{connect_plug, connect_slirp}
use slirp4tinc.Main.{
  Program, Round, handler_fd, both_handlers, add_both, join, no_connections, uml_plug,
  slirp_network, connections,
}

-- The ring to the library has a free slot.
abbrev pub has_room : List (List ℕ) → Bool
has_room ps = is_nonzero (ring_size - length ps)

module _ (a b slirp : ℕ) where
  -- Joined as `main` joins them, with the packets `ps` on the way to the library and none on the way
  -- to the switch; the descriptors are `a` and `b`.
  pub record IsJoined (vdeslirp_fd : ℕ → ℤ) (w : Program) (ps : List (List ℕ)) : Type 0 where
    pub chain : w.handlers ≡ add_both no_connections
    pub plug_tx : w.plug.tx_packets ≡ some slirp2uml
    pub plug_rx : w.plug.rx_packets ≡ some uml2slirp
    pub plug_fd : w.plug.xfer_fd ≡ pos a
    pub connected : IsConnected w.slirp uml2slirp slirp2uml slirp
    pub slirp_fd : vdeslirp_fd slirp ≡ pos b
    pub to_slirp : Carries w.buffers.uml2slirp_buffers ps
    pub to_uml : Carries w.buffers.slirp2uml_buffers []

-- The program after the plug's `fd`, and after the slirp handler's.
abbrev pub plug_asked : Program → List (List ℕ) → Program
plug_asked w ps = record w {
  plug = record (w.plug) { wait_for_read = has_room ps; wait_for_write = false };
}

abbrev pub slirp_asked : Program → List (List ℕ) → Program
slirp_asked w ps = record w {
  slirp = record (w.slirp) { wait_for_read = true; wait_for_write = is_nonzero (length ps) };
}

abbrev pub both_asked : Program → List (List ℕ) → Program
both_asked w ps = slirp_asked (plug_asked w ps) ps

-- The chain: the plug, and the slirp handler behind it.
pub first_handler :
    (w : Program)
    → w.handlers ≡ add_both no_connections
    → w.handlers.chains connections ≡ some uml_plug
unfolding add_both add_to
first_handler w e = ap (λ (s : Handlers). s.chains connections) e

pub plug_next :
    (w : Program)
    → w.handlers ≡ add_both no_connections
    → (w.handlers.links uml_plug).next ≡ some slirp_network
unfolding add_both add_to
plug_next w e = ap (λ (s : Handlers). (s.links uml_plug).next) e

pub slirp_next :
    (w : Program)
    → w.handlers ≡ add_both no_connections
    → (w.handlers.links slirp_network).next ≡ none
unfolding add_both add_to
slirp_next w e = ap (λ (s : Handlers). (s.links slirp_network).next) e

-- What `pselect` is asked to watch: the library's descriptor for reading, the plug's too if there is
-- room for a packet, and the library's for writing if a packet waits for it.
abbrev pub watched_read : ℕ → ℕ → List (List ℕ) → List ℕ
watched_read a b ps = b ∷ (if has_room ps then a ∷ [] else [])

abbrev pub watched_write : ℕ → List (List ℕ) → List ℕ
watched_write b ps = if is_nonzero (length ps) then b ∷ [] else []

abbrev pub highest : ℕ → ℕ → ℕ
highest a b = if ltb a b then b else a

module _ {vdeslirp_fd : ℕ → ℤ} {a b slirp : ℕ} where
  -- Neither call changes how the program is joined, nor what waits in the rings.
  pub plug_asked-IsJoined :
      (w : Program) (ps : List (List ℕ))
      → IsJoined a b slirp vdeslirp_fd w ps
      → IsJoined a b slirp vdeslirp_fd (plug_asked w ps) ps
  plug_asked-IsJoined w ps j = record {
    chain = j.chain;
    plug_tx = j.plug_tx;
    plug_rx = j.plug_rx;
    plug_fd = j.plug_fd;
    connected = j.connected;
    slirp_fd = j.slirp_fd;
    to_slirp = j.to_slirp;
    to_uml = j.to_uml;
  }

  pub slirp_asked-IsJoined :
      (w : Program) (ps : List (List ℕ))
      → IsJoined a b slirp vdeslirp_fd w ps
      → IsJoined a b slirp vdeslirp_fd (slirp_asked w ps) ps
  slirp_asked-IsJoined w ps j = record {
    chain = j.chain;
    plug_tx = j.plug_tx;
    plug_rx = j.plug_rx;
    plug_fd = j.plug_fd;
    connected = record {
      tx_ring = j.connected.tx_ring;
      rx_ring = j.connected.rx_ring;
      library = j.connected.library;
    };
    slirp_fd = j.slirp_fd;
    to_slirp = j.to_slirp;
    to_uml = j.to_uml;
  }

module _ (abi : Abi) {vdeslirp_fd : ℕ → ℤ} (fd_setsize : ℕ) {a b slirp : ℕ} where
  pub plug_answers :
      (w : Program) (ps : List (List ℕ))
      → IsJoined a b slirp vdeslirp_fd w ps
      → handler_fd abi vdeslirp_fd fd_setsize uml_plug w
        ≡ ok (pos a, has_room ps, false, plug_asked w ps)
  unfolding handler_fd
  plug_answers w ps j =
      rw
        (
          plug_fd_lem w.plug w.buffers slirp2uml uml2slirp [] ps j.plug_tx j.plug_rx j.to_uml
              j.to_slirp,
          j.plug_fd,
        )
        refl

  pub slirp_answers :
      (w : Program) (ps : List (List ℕ))
      → IsJoined a b slirp vdeslirp_fd w ps
      → handler_fd abi vdeslirp_fd fd_setsize slirp_network w
        ≡ ok (pos b, true, is_nonzero (length ps), slirp_asked w ps)
  unfolding handler_fd
  slirp_answers w ps j =
      rw
        (
          slirp_fd_lem w.buffers uml2slirp w.slirp slirp2uml slirp (done []) j.connected vdeslirp_fd
              ps [] j.to_slirp j.to_uml,
          j.slirp_fd,
        )
        refl

  pub collected :
      (r : Round) (w : Program) (ps : List (List ℕ))
      → IsJoined a b slirp vdeslirp_fd w ps
      → a < fd_setsize
      → b < fd_setsize
      → collect_loop
          (both_handlers abi vdeslirp_fd fd_setsize r)
          3
          fd_setsize
          (some uml_plug)
          (negsuc 0, [], [])
          w
        ≡ ok ((pos (highest a b), watched_read a b ps, watched_write b ps), both_asked w ps)
  unfolding both_handlers
  collected r w ps j small_a small_b =
      let client = both_handlers abi vdeslirp_fd fd_setsize r in
      let j1 = plug_asked-IsJoined w ps j in
      let plug_set : List ℕ = if has_room ps then a ∷ [] else [] in
      let sets : ℤ × List ℕ × List ℕ =
        (pos (highest a b), watched_read a b ps, watched_write b ps) in
      collect_loop-some client 2 fd_setsize uml_plug (some slirp_network) (negsuc 0, [], [])
        (pos a, plug_set, []) w (plug_asked w ps) _ (plug_answers w ps j)
        (collect_one_lem client fd_setsize a (negsuc 0) [] [] (has_room ps) false (plug_asked w ps)
          small_a)
        (plug_next w j.chain)
      ∙ collect_loop-some client 1 fd_setsize slirp_network none (pos a, plug_set, []) sets
          (plug_asked w ps) (both_asked w ps) _ (slirp_answers (plug_asked w ps) ps j1)
          (collect_one_lem client fd_setsize b (pos a) plug_set [] true (is_nonzero (length ps))
              (both_asked w ps) small_b
            ∙ ap (λ (m : ℤ). ok ((m, watched_read a b ps, watched_write b ps), both_asked w ps))
                (max_fd_lem a b))
          (slirp_next w j.chain)
      ∙ collect_loop-none client 0 fd_setsize sets (both_asked w ps)

-- What `join` makes of a started plug, a handle of the library and empty rings is joined so.
pub join-IsJoined :
    (a b slirp : ℕ) (vdeslirp_fd : ℕ → ℤ) (u : UmlNetworkSocketPlug) (buffers : Buffers)
    → u.xfer_fd ≡ pos a
    → vdeslirp_fd slirp ≡ pos b
    → Carries buffers.uml2slirp_buffers []
    → Carries buffers.slirp2uml_buffers []
    → IsJoined a b slirp vdeslirp_fd (join u (some slirp) buffers) []
unfolding join connect_plug connect_slirp SlirpHandler.construct
join-IsJoined a b slirp vdeslirp_fd u buffers plug_fd slirp_fd to_slirp to_uml = record {
  chain = refl;
  plug_tx = refl;
  plug_rx = refl;
  plug_fd = plug_fd;
  connected = record { tx_ring = refl; rx_ring = refl; library = refl };
  slirp_fd = slirp_fd;
  to_slirp = to_slirp;
  to_uml = to_uml;
}
