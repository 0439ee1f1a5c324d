-- ===== src/UmlNetworkSocketPlug/Transfer.antt =====
-- What `execute` and `fd` of the plug do with the packets in the rings.
use slirp4tinc.Prelude.{
  ℕ, ◌-◌, ◌≡◌, ◌≢◌, refl, ◌⊎◌, inl, inr, sym, ap, ◌∙◌, Bool, true, false, none, some, List, [], ◌∷◌,
  ◌++◌, arith, ◌==◌, length, ne→==,
}
use slirp4tinc.Prelude.Int.{ℤ, pos, negsuc, is_negative}
use slirp4tinc.Prelude.Run.{ok, undefined}
use slirp4tinc.ProducerConsumer.Exchange.{
  Holds, with_room, produce_lends, release_lent, consume_cleanup, consume_nothing_lem,
}
use slirp4tinc.Packets.{
  put_get, assert_some-some, XferBuffer, ring_size, BufferId, Buffers, get_ring, put_ring,
  overwrite, is_nonzero, PacketRingBuffer,
}
use slirp4tinc.Packets.View.{
  ArePackets, IsPacket, Carries, ArePackets-with_room, ArePackets-append, take-overwrite,
  Carries-available,
}
use slirp4tinc.Daemon.Os.{Sys, Abi}
use slirp4tinc.Daemon.Net.{net_recvfrom, net_recvfrom_count}
use slirp4tinc.UmlNetworkSocketPlug.{
  UmlNetworkSocketPlug, fd, transfer_errno, received_fill, write_running, send_packet,
  receive_packet, execute,
}

fill_of_negative : (r : ℤ) → is_negative r ≡ true → received_fill r ≡ 0
unfolding received_fill
fill_of_negative (pos n) e = cc
fill_of_negative (negsuc n) e = refl

fill_of_count :
    (r : ℤ) (received : List ℕ)
    → (r ≡ pos (length received)) ⊎ ((received ≡ []) × (is_negative r ≡ true))
    → received_fill r ≡ length received
unfolding received_fill
fill_of_count r received (inl e) = rw e
fill_of_count r received (inr (e, n)) = rw e (fill_of_negative r n)

module _ (abi : Abi) where
  -- What a call of `net_recvfrom` that received bytes, or none, makes of a ring's packets: they wait
  -- behind the others, the oldest of which is dropped if all slots are taken.
  module _ (u : UmlNetworkSocketPlug) (b : Buffers) (rx : BufferId) (ps : List (List ℕ))
      (attempts : List (Sys (List ℕ))) (r : ℤ) (errno : ℕ) (received : List ℕ)
      (answered : net_recvfrom abi attempts ≡ ok (r, errno, received))
      (carries : Carries (get_ring rx b) ps) where
    new-IsPacket :
        (v : XferBuffer)
        → v.fill ≡ received_fill r
        → (old : List ℕ) → v.bytes ≡ overwrite received old
        → IsPacket v received
    new-IsPacket v e old f =
        let n : v.fill ≡ length received =
          e
          ∙ fill_of_count r received (net_recvfrom_count abi attempts r errno received answered) in
        record { bytes = rw (n, f) (take-overwrite received old); fill = n }

    receive_packet_lem :
        (s : PacketRingBuffer) × (receive_packet abi attempts rx u b
          ≡ ok (record u { my_errno = transfer_errno abi r errno u.my_errno }, put_ring rx s b))
        × Carries s (with_room ring_size ps ++ received ∷ [])
    unfolding receive_packet
    receive_packet_lem =
        let (x, s1, it, made, lent) = produce_lends carries.holds in
        let v : XferBuffer = record {
          bytes = overwrite received it.payload.bytes;
          fill = received_fill r;
        } in
        let (s', released, holds) = release_lent v lent in
        (
          s',
          rw (made, lent.item, answered, released),
          record {
            buffers = with_room ring_size carries.buffers ++ v ∷ [];
            holds = holds;
            packets =
                ArePackets-append (with_room ring_size carries.buffers) (with_room ring_size ps) v
                  received (ArePackets-with_room ring_size carries.buffers ps carries.packets)
                  (new-IsPacket v refl it.payload.bytes refl);
          },
        )

    -- Called for a readable descriptor while both rings are connected, and packets wait in the
    -- receive ring with none of its slots held, `execute` returns if `net_recvfrom` does. It sends
    -- nothing, and puts what was received behind the packets of the ring; if all slots wait, the
    -- oldest packet is dropped. Of the plug only the error number may change.
    pub execute_receives :
        (tx : BufferId) (write_attempts : List (Sys ℕ))
        → u.tx_packets ≡ some tx
        → u.rx_packets ≡ some rx
        → (s : PacketRingBuffer) × (execute abi write_attempts attempts true false u b
            ≡ ok (
              record u { my_errno = transfer_errno abi r errno u.my_errno },
              put_ring rx s b,
              [],
            ))
          × Carries s (with_room ring_size ps ++ received ∷ [])
    unfolding execute
    execute_receives tx write_attempts et er =
        let (s, e, c) = receive_packet_lem in (s, executes s e, c)
      where
        executes :
            (s : PacketRingBuffer)
            → receive_packet abi attempts rx u b
              ≡ ok (record u { my_errno = transfer_errno abi r errno u.my_errno }, put_ring rx s b)
            → execute abi write_attempts attempts true false u b
              ≡ ok (
                record u { my_errno = transfer_errno abi r errno u.my_errno },
                put_ring rx s b,
                [],
              )
        executes s e = rw (assert_some-some u.tx_packets et, assert_some-some u.rx_packets er, e)

  write_running-undefined :
      (u : UmlNetworkSocketPlug) (wa : List (Sys ℕ))
      → u.running_tx_packet ≡ none
      → write_running abi wa u ≡ undefined
  unfolding write_running
  write_running-undefined u wa e = ground arith

  send_packet-undefined :
      (u : UmlNetworkSocketPlug) (b : Buffers) (tx : BufferId) (p : List ℕ) (ps : List (List ℕ))
      (wa : List (Sys ℕ)) (l : List XferBuffer)
      → u.running_tx_packet ≡ none
      → length p ≢ 0
      → Holds ring_size (get_ring tx b) l
      → ArePackets l (p ∷ ps)
      → send_packet abi wa tx u b ≡ undefined
  unfolding send_packet
  send_packet-undefined u b tx p ps wa [] running long h q = absurd q
  send_packet-undefined u b tx p ps wa (v ∷ l) running long h q =
      let t = consume_cleanup h in
      let full : (t.item.payload.fill == 0) ≡ false =
        ne→== _ 0
          (λ e. long (sym q.0.fill ∙ ap (λ (w : XferBuffer). w.fill) (sym t.payload) ∙ e)) in
      rw (t.consumed, t.item_found, full, write_running-undefined u wa running)

  send_packet-empty :
      (u : UmlNetworkSocketPlug) (b : Buffers) (tx : BufferId) (wa : List (Sys ℕ))
      (l : List XferBuffer)
      → Holds ring_size (get_ring tx b) l
      → ArePackets l []
      → send_packet abi wa tx u b ≡ ok (record u { wait_for_write = false }, b, [])
  unfolding send_packet
  send_packet-empty u b tx wa [] h q = rw (consume_nothing_lem h, put_get tx b)
  send_packet-empty u b tx wa (v ∷ l) h q = absurd q

  -- While `runningTxPacket` is null, as the constructor leaves it, a packet that is not empty
  -- cannot be sent: called for a writable descriptor with one waiting, a connected plug's `execute`
  -- reads through the null pointer.
  pub execute_writable-undefined :
      (u : UmlNetworkSocketPlug) (b : Buffers) (tx rx : BufferId) (p : List ℕ) (ps : List (List ℕ))
      (write_attempts : List (Sys ℕ)) (read_attempts : List (Sys (List ℕ))) (readable : Bool)
      → u.tx_packets ≡ some tx
      → u.rx_packets ≡ some rx
      → u.running_tx_packet ≡ none
      → length p ≢ 0
      → Carries (get_ring tx b) (p ∷ ps)
      → execute abi write_attempts read_attempts readable true u b ≡ undefined
  unfolding execute
  execute_writable-undefined u b tx rx p ps wa ra readable et er running long c = rw (
    assert_some-some u.tx_packets et,
    assert_some-some u.rx_packets er,
    send_packet-undefined u b tx p ps wa c.buffers running long c.holds c.packets,
  )

  -- With nothing to send, `execute` of a connected plug for a writable descriptor returns, sends
  -- nothing, leaves the rings and stops waiting for the descriptor to become writable.
  pub execute_writable-empty :
      (u : UmlNetworkSocketPlug) (b : Buffers) (tx rx : BufferId) (write_attempts : List (Sys ℕ))
      (read_attempts : List (Sys (List ℕ)))
      → u.tx_packets ≡ some tx
      → u.rx_packets ≡ some rx
      → Carries (get_ring tx b) []
      → execute abi write_attempts read_attempts false true u b
        ≡ ok (record u { wait_for_write = false }, b, [])
  unfolding execute
  execute_writable-empty u b tx rx wa ra et er c = rw (
    assert_some-some u.tx_packets et,
    assert_some-some u.rx_packets er,
    send_packet-empty u b tx wa c.buffers c.holds c.packets,
  )

-- With no slot of either ring held, `fd` of a connected plug returns the descriptor and leaves the
-- rings: the plug then waits for the descriptor to be readable if the receive ring has a free slot,
-- and to be writable if a packet waits to be sent.
pub plug_fd_lem :
    (u : UmlNetworkSocketPlug) (b : Buffers) (tx rx : BufferId) (ps qs : List (List ℕ))
    → u.tx_packets ≡ some tx
    → u.rx_packets ≡ some rx
    → Carries (get_ring tx b) ps
    → Carries (get_ring rx b) qs
    → fd u b
      ≡ ok (
        u.xfer_fd,
        record u {
          wait_for_read = is_nonzero (ring_size - length qs);
          wait_for_write = is_nonzero (length ps);
        },
        b,
      )
unfolding fd
plug_fd_lem u b tx rx ps qs et er ct cr =
    let (slots, unused) = Carries-available cr in
    let (unused', items) = Carries-available ct in
    rw (
      assert_some-some u.tx_packets et,
      assert_some-some u.rx_packets er,
      slots,
      put_get rx b,
      items,
      put_get tx b,
    )
