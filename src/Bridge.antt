-- ===== src/Bridge.antt =====
-- src/main.cpp: how the two handlers are joined by the two rings, and a packet's way from the switch to
-- the slirp library.
pub mod Relay
pub mod Order
use slirp4tinc.Prelude.{ℕ, ◌≡◌, refl, true, false, some, List, []}
use slirp4tinc.Prelude.Int.{ℤ}
use slirp4tinc.Prelude.Run.{ok}
use slirp4tinc.Packets.{uml2slirp, slirp2uml, Buffers, put_ring}
use slirp4tinc.Packets.View.{Carries}
use slirp4tinc.Daemon.Os.{Sys, Abi}
use slirp4tinc.Daemon.Net.{net_recvfrom}
use slirp4tinc.UmlNetworkSocketPlug
use slirp4tinc.UmlNetworkSocketPlug.{UmlNetworkSocketPlug}
use slirp4tinc.UmlNetworkSocketPlug.Transfer.{execute_receives}
use slirp4tinc.SlirpHandler
use slirp4tinc.SlirpHandler.{SlirpHandler}
use slirp4tinc.SlirpHandler.Transfer.{nonempty, execute_sends}

-- `umlPlug.connectTransferBuffers(&slirp2umlBuffers, &uml2slirpBuffers)`
unfoldable pub connect_plug : UmlNetworkSocketPlug → UmlNetworkSocketPlug
unfolding UmlNetworkSocketPlug.connect_transfer_buffers
connect_plug u = UmlNetworkSocketPlug.connect_transfer_buffers (some slirp2uml) (some uml2slirp) u

-- `slirpNetwork.connectTransferBuffers(&uml2slirpBuffers, &slirp2umlBuffers)`
unfoldable pub connect_slirp : SlirpHandler → SlirpHandler
unfolding SlirpHandler.connect_transfer_buffers
connect_slirp h = SlirpHandler.connect_transfer_buffers (some uml2slirp) (some slirp2uml) h

-- A packet on its way: what the plug's `execute` leaves, and then the slirp handler's.
pub record Passed (abi : Abi) (attempts : List (Sys (List ℕ))) (answer : Sys (List ℕ))
    (u : UmlNetworkSocketPlug) (h : SlirpHandler) (b : Buffers) (p : List ℕ) : Type 0 where
  pub plug_after : UmlNetworkSocketPlug
  pub between : Buffers
  pub after : Buffers
  pub received :
      UmlNetworkSocketPlug.execute abi [] attempts true false (connect_plug u) b
      ≡ ok (plug_after, between, [])
  pub sent :
      SlirpHandler.execute answer false true (connect_slirp h) between
      ≡ ok (connect_slirp h, after, nonempty p)
  pub emptied : Carries after.uml2slirp_buffers []
  pub other_ring : after.slirp2uml_buffers ≡ b.slirp2uml_buffers

-- Joined as `main` joins them, with no packet in the ring between them and no slot of it held, the
-- two handlers pass a packet on: what the plug receives from the switch, the slirp handler then
-- gives to the library, unless it is empty. Both calls return, the ring carries nothing again, and
-- the ring in the other direction is as before.
pub passes_packet :
    (abi : Abi) (attempts : List (Sys (List ℕ))) (answer : Sys (List ℕ)) (u : UmlNetworkSocketPlug)
    (h : SlirpHandler) (b : Buffers) (slirp errno : ℕ) (r : ℤ) (p : List ℕ)
    → h.my_slirp ≡ some slirp
    → net_recvfrom abi attempts ≡ ok (r, errno, p)
    → Carries b.uml2slirp_buffers []
    → Passed abi attempts answer u h b p
unfolding connect_plug connect_slirp
passes_packet abi attempts answer u h b slirp errno r p library answered nothing =
    let (s, received, carries) =
      execute_receives abi (connect_plug u) b uml2slirp [] attempts r errno p answered nothing
        slirp2uml [] refl refl in
    let between : Buffers = put_ring uml2slirp s b in
    let (s', sent, emptied) =
      execute_sends between uml2slirp (connect_slirp h) slirp2uml slirp answer
        (record { tx_ring = refl; rx_ring = refl; library = library }) p [] carries in
    record {
      plug_after = _;
      between = between;
      after = put_ring uml2slirp s' between;
      received = received;
      sent = sent;
      emptied = emptied;
      other_ring = refl;
    }
