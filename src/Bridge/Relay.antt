-- ===== src/Bridge/Relay.antt =====
-- Packets from the switch to the slirp library, in any sequence of calls of both handlers.
use slirp4tinc.Prelude.{ℕ, ◌≡◌, refl, true, false, some, List, [], ◌∷◌, ◌++◌}
use slirp4tinc.Prelude.Int.{ℤ}
use slirp4tinc.Prelude.Run.{Run, ok, ◌>>=◌}
use slirp4tinc.Packets.{uml2slirp, slirp2uml, Buffers, put_ring, ring_size}
use slirp4tinc.Packets.View.{Carries}
use slirp4tinc.ProducerConsumer.Exchange.{with_room}
use slirp4tinc.Daemon.Os.{Sys, Abi}
use slirp4tinc.Daemon.Net.{net_recvfrom}
use slirp4tinc.UmlNetworkSocketPlug
use slirp4tinc.UmlNetworkSocketPlug.{UmlNetworkSocketPlug, transfer_errno}
use slirp4tinc.UmlNetworkSocketPlug.Transfer.{execute_receives}
use slirp4tinc.SlirpHandler
use slirp4tinc.SlirpHandler.{SlirpHandler}
use slirp4tinc.SlirpHandler.Transfer.{IsConnected, nonempty, execute_sends, execute_sends-nothing}

-- The plug's descriptor is readable, with the answers that its attempts to receive `packet` get; or
-- the library's descriptor is writable.
pub data Event : Type 0 where
  plug_readable : List (Sys (List ℕ)) → List ℕ → Event
  slirp_writable : Sys (List ℕ) → Event

pub record Joined : Type 0 where
  pub plug : UmlNetworkSocketPlug
  pub handler : SlirpHandler
  pub buffers : Buffers

-- The packets that the library is given.
abbrev pub Given : Type 0
Given = List (List ℕ)

module _ (abi : Abi) where
  pub on_event : Event → Joined → Run (Joined × Given)
  on_event (plug_readable attempts packet) j = do
    (u, b, sent) ← UmlNetworkSocketPlug.execute abi [] attempts true false j.plug j.buffers
    ok (record j { plug = u; buffers = b }, [])
  on_event (slirp_writable answer) j = do
    (h, b, given) ← SlirpHandler.execute answer false true j.handler j.buffers
    ok (record j { handler = h; buffers = b }, given)

  pub on_events : List Event → Joined → Run (Joined × Given)
  unfolding on_event
  on_events [] j = ok (j, [])
  on_events (e ∷ es) j = do
    (j', given) ← on_event e j
    (j'', more) ← on_events es j'
    ok (j'', given ++ more)

  -- The attempts of each readable plug end with the packet.
  abbrev pub AreAnswered : List Event → Type 0
  AreAnswered [] = Unit
  AreAnswered (plug_readable attempts packet ∷ es) =
      ((r : ℤ) × (errno : ℕ) × (net_recvfrom abi attempts ≡ ok (r, errno, packet))) × AreAnswered es
  AreAnswered (slirp_writable answer ∷ es) = AreAnswered es

-- What the packets do: one that comes waits behind the others, the oldest of which is dropped if the
-- ring is full; a writable library gets the oldest one, unless it is empty.
abbrev pub relay : List Event → List (List ℕ) → List (List ℕ) × Given
relay [] ps = (ps, [])
relay (plug_readable attempts packet ∷ es) ps = relay es (with_room ring_size ps ++ packet ∷ [])
relay (slirp_writable answer ∷ es) [] = relay es []
relay (slirp_writable answer ∷ es) (p ∷ ps) = ((relay es ps).0, nonempty p ++ (relay es ps).1)

-- Joined as `main` joins them, with the packets `ps` in the ring to the library.
pub record IsJoined (j : Joined) (slirp : ℕ) (ps : List (List ℕ)) : Type 0 where
  pub plug_tx : j.plug.tx_packets ≡ some slirp2uml
  pub plug_rx : j.plug.rx_packets ≡ some uml2slirp
  pub connected : IsConnected j.handler uml2slirp slirp2uml slirp
  pub carries : Carries j.buffers.uml2slirp_buffers ps

module _ (abi : Abi) (slirp : ℕ) where
  -- The calls return, with what `relay` says.
  pub on_events-relay :
      (es : List Event) (j : Joined) (ps : List (List ℕ))
      → AreAnswered abi es
      → IsJoined j slirp ps
      → (j' : Joined) × (on_events abi es j ≡ ok (j', (relay es ps).1))
        × IsJoined j' slirp (relay es ps).0
        × (j'.buffers.slirp2uml_buffers ≡ j.buffers.slirp2uml_buffers)
  unfolding on_events
  on_events-relay [] j ps answered joined = (j, refl, joined, refl)
  on_events-relay (plug_readable attempts packet ∷ es) j ps ((r, errno, answer), answered) joined =
      let (s, received, carries) =
        execute_receives abi j.plug j.buffers uml2slirp ps attempts r errno packet answer
          joined.carries slirp2uml [] joined.plug_tx joined.plug_rx in
      let (j', same, after, other) =
        on_events-relay es
          (record j {
            plug = record (j.plug) { my_errno = transfer_errno abi r errno j.plug.my_errno };
            buffers = put_ring uml2slirp s j.buffers;
          })
          (with_room ring_size ps ++ packet ∷ []) answered
          (record {
            plug_tx = joined.plug_tx;
            plug_rx = joined.plug_rx;
            connected = joined.connected;
            carries = carries;
          }) in
      (j', rw (received, same) refl, after, other)
  on_events-relay (slirp_writable answer ∷ es) j [] answered joined =
      let idle : SlirpHandler = record (j.handler) { wait_for_write = false } in
      let (j', same, after, other) =
        on_events-relay es (record j { handler = idle }) [] answered
          (record {
            plug_tx = joined.plug_tx;
            plug_rx = joined.plug_rx;
            connected = record {
              tx_ring = joined.connected.tx_ring;
              rx_ring = joined.connected.rx_ring;
              library = joined.connected.library;
            };
            carries = joined.carries;
          }) in
      (
        j',
        rw
            (
              execute_sends-nothing j.buffers uml2slirp j.handler slirp2uml slirp answer
                  joined.connected joined.carries,
              same,
            )
            refl,
        after,
        other,
      )
  on_events-relay (slirp_writable answer ∷ es) j (p ∷ ps) answered joined =
      let (s, sent, carries) =
        execute_sends j.buffers uml2slirp j.handler slirp2uml slirp answer joined.connected p ps
          joined.carries in
      let (j', same, after, other) =
        on_events-relay es (record j { buffers = put_ring uml2slirp s j.buffers }) ps answered
          (record {
            plug_tx = joined.plug_tx;
            plug_rx = joined.plug_rx;
            connected = joined.connected;
            carries = carries;
          }) in
      (j', rw (sent, same) refl, after, other)
