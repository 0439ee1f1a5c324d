-- ===== src/Main/Turns.antt =====
-- What one handler does in its pass of the second loop of `waitOn`.
use mathlib.Core.Path.{subst}
use mathlib.Core.List.{append-nil}
use slirp4tinc.Prelude.{
  ℕ, ◌<◌, ◌≡◌, refl, sym, Bool, true, false, ◌&&◌, ◌||◌, if◌then◌else◌, List, [], ◌∷◌, ◌++◌, arith,
  length, suc, ne→==,
}
use slirp4tinc.Prelude.Int.{ℤ}
use slirp4tinc.Prelude.Run.{ok}
use slirp4tinc.Daemon.Os.{Abi}
use slirp4tinc.Daemon.Net.{net_recvfrom}
use slirp4tinc.Packets.{uml2slirp, slirp2uml, put_ring, ring_size, is_nonzero}
use slirp4tinc.Packets.View.{Carries}
use slirp4tinc.ProducerConsumer.Exchange.{with_room_space}
use slirp4tinc.UmlNetworkSocketPlug.{transfer_errno}
use slirp4tinc.UmlNetworkSocketPlug.Transfer.{execute_receives}
use slirp4tinc.SlirpHandler.Transfer.{nonempty, execute_sends}
use slirp4tinc.Main.{Program, Round, handler_execute, uml_plug, slirp_network}
use slirp4tinc.Main.Joined.{IsJoined, has_room}

has_room-less : (ps : List (List ℕ)) → has_room ps ≡ true → length ps < ring_size
has_room-less ps e = ground (arith, e)

-- What a writable library is given, and what then waits.
abbrev pub take_one : Bool → List (List ℕ) → List (List ℕ) × List (List ℕ)
take_one seen [] = ([], [])
take_one true (p ∷ ps) = (nonempty p, ps)
take_one false (p ∷ ps) = ([], p ∷ ps)

module _ (abi : Abi) {vdeslirp_fd : ℕ → ℤ} (fd_setsize : ℕ) {a b slirp : ℕ} where
  -- The plug receives `p`.
  pub plug_executes :
      (r : Round) (w : Program) (ps : List (List ℕ)) (d : ℤ) (errno : ℕ) (p : List ℕ)
      → IsJoined a b slirp vdeslirp_fd w ps
      → has_room ps ≡ true
      → net_recvfrom abi r.read_attempts ≡ ok (d, errno, p)
      → (w' : Program) × IsJoined a b slirp vdeslirp_fd w' (ps ++ p ∷ [])
        × (w'.given ≡ w.given)
        × (handler_execute abi vdeslirp_fd fd_setsize r uml_plug true false w ≡ ok w')
  unfolding handler_execute
  plug_executes r w ps d errno p j room answered =
      let (s, e, carries) =
        execute_receives abi w.plug w.buffers uml2slirp ps r.read_attempts d errno p answered
          j.to_slirp slirp2uml r.write_attempts j.plug_tx j.plug_rx in
      (
        record w {
          plug = record (w.plug) { my_errno = transfer_errno abi d errno w.plug.my_errno };
          buffers = put_ring uml2slirp s w.buffers;
          written = w.written ++ [];
        },
        record {
          chain = j.chain;
          plug_tx = j.plug_tx;
          plug_rx = j.plug_rx;
          plug_fd = j.plug_fd;
          connected = j.connected;
          slirp_fd = j.slirp_fd;
          to_slirp =
              subst (λ l. Carries s (l ++ p ∷ []))
                (with_room_space ring_size ps (has_room-less ps room)) carries;
          to_uml = j.to_uml;
        },
        refl,
        rw e refl,
      )

  -- The slirp handler gives `p` to the library.
  pub slirp_executes :
      (r : Round) (w : Program) (p : List ℕ) (ps : List (List ℕ))
      → IsJoined a b slirp vdeslirp_fd w (p ∷ ps)
      → (w' : Program) × IsJoined a b slirp vdeslirp_fd w' ps
        × (w'.given ≡ w.given ++ nonempty p)
        × (handler_execute abi vdeslirp_fd fd_setsize r slirp_network false true w ≡ ok w')
  unfolding handler_execute
  slirp_executes r w p ps j =
      let (s, e, carries) =
        execute_sends w.buffers uml2slirp w.slirp slirp2uml slirp r.library j.connected p ps
          j.to_slirp in
      (
        record w { buffers = put_ring uml2slirp s w.buffers; given = w.given ++ nonempty p },
        record {
          chain = j.chain;
          plug_tx = j.plug_tx;
          plug_rx = j.plug_rx;
          plug_fd = j.plug_fd;
          connected = j.connected;
          slirp_fd = j.slirp_fd;
          to_slirp = carries;
          to_uml = j.to_uml;
        },
        refl,
        rw e refl,
      )

  -- The plug's pass, if its descriptor is `ready` or not.
  pub plug_turn :
      (r : Round) (w : Program) (ps : List (List ℕ)) (d : ℤ) (errno : ℕ) (p : List ℕ) (ready : Bool)
      → IsJoined a b slirp vdeslirp_fd w ps
      → (ready ≡ true → has_room ps ≡ true)
      → net_recvfrom abi r.read_attempts ≡ ok (d, errno, p)
      → (w' : Program) × IsJoined a b slirp vdeslirp_fd w' (ps ++ (if ready then p ∷ [] else []))
        × (w'.given ≡ w.given)
        × ((if ready || false
              then handler_execute abi vdeslirp_fd fd_setsize r uml_plug ready false w
              else ok w)
            ≡ ok w')
  plug_turn r w ps d errno p true j room answered =
      plug_executes r w ps d errno p j (room refl) answered
  plug_turn r w ps d errno p false j room answered = (w, rw (append-nil ps) j, refl, refl)

  -- The slirp handler's pass, if the library's descriptor is `seen` to be writable or not.
  pub slirp_turn :
      (r : Round) (w : Program) (ps : List (List ℕ)) (seen : Bool)
      → IsJoined a b slirp vdeslirp_fd w ps
      → (w' : Program) × IsJoined a b slirp vdeslirp_fd w' (take_one seen ps).1
        × (w'.given ≡ w.given ++ (take_one seen ps).0)
        × ((if false || (seen && is_nonzero (length ps))
              then handler_execute abi vdeslirp_fd fd_setsize r slirp_network false
                  (seen && is_nonzero (length ps))
                  w
              else ok w)
            ≡ ok w')
  slirp_turn r w [] true j = (w, j, sym (append-nil w.given), refl)
  slirp_turn r w [] false j = (w, j, sym (append-nil w.given), refl)
  slirp_turn r w (p ∷ ps) true j =
      rw (ne→== (suc (length ps)) 0 (λ e. omega (arith, e))) (slirp_executes r w p ps j)
  slirp_turn r w (p ∷ ps) false j = (w, j, sym (append-nil w.given), refl)
