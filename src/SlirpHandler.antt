-- ===== src/SlirpHandler.antt =====
-- src/SlirpHandler.h and src/SlirpHandler.cpp: packets between the rings and the slirp library, which
-- is a parameter: its descriptor and what `vdeslirp_recv` answers are arguments, the packets given
-- to `vdeslirp_send` and the handles given to `vdeslirp_close` are results.
pub mod Transfer
use slirp4tinc.Prelude.{
  ℕ, zero, suc, ◌-◌, Bool, true, false, Option, none, some, List, [], ◌∷◌, ◌++◌, ◌==◌,
  if◌then◌else◌, length, take,
}
use slirp4tinc.Prelude.Int.{ℤ}
use slirp4tinc.Prelude.Run.{Run, ok, ◌>>=◌, ◌>>◌}
use slirp4tinc.ProducerConsumer.{
  Ref, slot, foreign, Item, item_at, produce, release, consume, cleanup, slots_available,
  items_available,
}
use slirp4tinc.Packets.{
  XferBuffer, ring_size, BufferId, Buffers, get_ring, put_ring, overwrite, is_nonzero, assert_some,
}
use slirp4tinc.Daemon.Os.{Sys, done, fail}

-- `my_slirp` is the handle of the library, if there is one.
pub record SlirpHandler : Type 0 where
  pub my_slirp : Option ℕ
  pub tx_packets : Option BufferId
  pub rx_packets : Option BufferId
  pub wait_for_read : Bool
  pub wait_for_write : Bool

unfoldable pub construct : Option ℕ → SlirpHandler
construct slirp_desc = record {
  my_slirp = slirp_desc;
  tx_packets = none;
  rx_packets = none;
  wait_for_read = false;
  wait_for_write = false;
}

unfoldable pub connect_transfer_buffers :
    Option BufferId → Option BufferId → SlirpHandler → SlirpHandler
connect_transfer_buffers tx rx h = record h { tx_packets = tx; rx_packets = rx }

-- `destroy()`: the handler, and the handles closed.
pub destroy : SlirpHandler → SlirpHandler × List ℕ
destroy h = elim h.my_slirp [
  | none ↦ (h, [])
  | some slirp ↦ (record h { my_slirp = none }, slirp ∷ [])
]

-- `if (0 < doneBytes) rxBuffer.fill = doneBytes;`, the bytes being in the buffer already.
pub fill_received : Sys (List ℕ) → XferBuffer → XferBuffer
fill_received (fail e) buffer = buffer
fill_received (done []) buffer = buffer
fill_received (done (b ∷ bytes)) buffer = record {
  bytes = overwrite (b ∷ bytes) buffer.bytes;
  fill = length (b ∷ bytes);
}

-- The branch for `readable`. `auto rxBuffer` is a copy of the item's `XferBuffer`, so `release` is
-- given a reference to a local object, and not the one that `produce` returned.
pub receive_packet : Sys (List ℕ) → BufferId → Buffers → Run Buffers
unfolding fill_received
receive_packet answer rx b = do
  (x, s1) ← produce ring_size false (get_ring rx b)
  it ← item_at s1 x
  let rx_buffer : XferBuffer = fill_received answer it.payload
  s2 ← release ring_size foreign s1
  ok (put_ring rx s2 b)

-- What `vdeslirp_send` is given, if the packet is not empty.
pub packets_sent : XferBuffer → List (List ℕ)
packets_sent buffer = if buffer.fill == 0 then [] else take buffer.fill buffer.bytes ∷ []

-- The branch for `writable`.
pub send_packet : BufferId → SlirpHandler → Buffers → Run (SlirpHandler × Buffers × List (List ℕ))
unfolding packets_sent
send_packet tx h b = do
  (object, s1) ← consume ring_size false (get_ring tx b)
  elim object [
    | none ↦ ok (record h { wait_for_write = false }, put_ring tx s1 b, [])
    | some x ↦ (do
      it ← item_at s1 x
      s2 ← cleanup ring_size (some (slot x)) s1
      ok (h, put_ring tx s2 b, packets_sent it.payload))
  ]

pub execute :
    Sys (List ℕ)
    → (readable writable : Bool) → SlirpHandler
    → Buffers
    → Run (SlirpHandler × Buffers × List (List ℕ))
execute answer readable writable h b = do
  tx ← assert_some h.tx_packets
  rx ← assert_some h.rx_packets
  slirp ← assert_some h.my_slirp
  b1 ← if readable then receive_packet answer rx b else ok b
  if writable then send_packet tx h b1 else ok (h, b1, [])

-- `fd()`, with the library's `vdeslirp_fd`
pub fd : (ℕ → ℤ) → SlirpHandler → Buffers → Run (ℤ × SlirpHandler × Buffers)
fd vdeslirp_fd h b = do
  tx ← assert_some h.tx_packets
  rx ← assert_some h.rx_packets
  slirp ← assert_some h.my_slirp
  (slots, s1) ← slots_available ring_size (get_ring rx b)
  let b1 = put_ring rx s1 b
  (items, s2) ← items_available (get_ring tx b1)
  ok (
    vdeslirp_fd slirp,
    record h { wait_for_read = is_nonzero slots; wait_for_write = is_nonzero items },
    put_ring tx s2 b1,
  )
