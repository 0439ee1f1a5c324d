-- ===== src/UmlNetworkSocketPlug.antt =====
-- src/umlplug/UmlNetworkSocketPlug.h and .cpp: packets between the rings and the UML switch.
pub mod Transfer
use Prim.Native.String.{String}
use slirp4tinc.Prelude.{
  ℕ, zero, suc, ◌-◌, Bool, true, false, not, Option, none, some, List, [], ◌∷◌, ◌++◌, ◌==◌,
  if◌then◌else◌, length, take, drop,
}
use slirp4tinc.Prelude.Int.{ℤ, pos, negsuc, neg, is_negative}
use slirp4tinc.Prelude.Run.{Run, ok, deref, ◌>>=◌, ◌>>◌}
use slirp4tinc.ProducerConsumer.{
  Ref, slot, Item, item_at, put_item, produce, release, consume, cleanup, slots_available,
  items_available,
}
use slirp4tinc.Packets.{
  XferBuffer, ring_size, BufferId, Buffers, get_ring, put_ring, overwrite, is_nonzero, assert_some,
}
use slirp4tinc.Daemon.Os.{Sys, Abi, Pointer, uninitialised, World}
use slirp4tinc.Daemon.Net.{net_recvfrom, daemon_user_write}
use slirp4tinc.Daemon.Switch.{DaemonData, Answers}
use slirp4tinc.Daemon.Info.{daemon_user_info}

-- `my_errno` may be set to a negated error code. `running_tx_packet` points at a buffer or is null.
pub record UmlNetworkSocketPlug : Type 0 where
  pub priv_data : DaemonData
  pub xfer_fd : ℤ
  pub my_errno : ℤ
  pub tx_packets : Option BufferId
  pub rx_packets : Option BufferId
  pub running_tx_packet : Option XferBuffer
  pub tx_done_length : ℕ
  pub wait_for_read : Bool
  pub wait_for_write : Bool

-- `privData` has no initialiser; its descriptors are assigned before they are read.
abbrev pub fresh_data : List ℕ → DaemonData
fresh_data socket_path = record {
  sock_type = "unix";
  ctl_sock = socket_path;
  ctl_addr = uninitialised;
  data_addr = uninitialised;
  local_addr = uninitialised;
  fd = negsuc 0;
  control = negsuc 0;
  dev = 0;
}

-- The constructor; `errno` is what the failed call left there, `dev` the address of the object.
pub construct : Abi → Answers → ℕ → ℕ → List ℕ → World → Run (UmlNetworkSocketPlug × World)
construct abi k errno dev socket_path w = do
  (r, w1, d) ← (daemon_user_info abi).init k dev (fresh_data socket_path) w
  let plug : UmlNetworkSocketPlug = record {
    priv_data = d;
    xfer_fd = negsuc 0;
    my_errno = pos 0;
    tx_packets = none;
    rx_packets = none;
    running_tx_packet = none;
    tx_done_length = 0;
    wait_for_read = false;
    wait_for_write = false;
  }
  ok (
    if is_negative r then record plug { my_errno = pos errno } else record plug {
      xfer_fd = (daemon_user_info abi).open_connection d;
      wait_for_read = true;
      wait_for_write = false;
    },
    w1,
  )

pub destroy : Abi → UmlNetworkSocketPlug → World → Run (UmlNetworkSocketPlug × World)
destroy abi u w = do
  (w1, d) ← (daemon_user_info abi).remove u.priv_data w
  ok (record u { priv_data = d; xfer_fd = d.fd }, w1)

unfoldable pub connect_transfer_buffers :
    Option BufferId → Option BufferId → UmlNetworkSocketPlug → UmlNetworkSocketPlug
connect_transfer_buffers tx rx u = record u { tx_packets = tx; rx_packets = rx }

-- `!!myErrno`
pub has_posix_error : UmlNetworkSocketPlug → Bool
has_posix_error u = elim u.my_errno [ pos n ↦ is_nonzero n | negsuc n ↦ true ]

-- `getPosixError(errnum, eText)`: whether there is an error, the number, which `errno` becomes too, and
-- the text if the caller wants one. `strerror` is the C library's.
pub get_posix_error :
    {Text : Type 0} → (ℤ → Text) → Bool → UmlNetworkSocketPlug → Bool × ℤ × Option Text
unfolding has_posix_error
get_posix_error strerror wants_text u =
    (has_posix_error u, u.my_errno, if wants_text then some (strerror u.my_errno) else none)

-- `fd()`
pub fd : UmlNetworkSocketPlug → Buffers → Run (ℤ × UmlNetworkSocketPlug × Buffers)
fd u b = do
  tx ← assert_some u.tx_packets
  rx ← assert_some u.rx_packets
  (slots, s1) ← slots_available ring_size (get_ring rx b)
  let b1 = put_ring rx s1 b
  (items, s2) ← items_available (get_ring tx b1)
  ok (
    u.xfer_fd,
    record u { wait_for_read = is_nonzero slots; wait_for_write = is_nonzero items },
    put_ring tx s2 b1,
  )

-- `myErrno` after a transfer of `doneBytes` that left `errno`.
unfoldable pub transfer_errno : Abi → ℤ → ℕ → ℤ → ℤ
transfer_errno abi (pos zero) errno my_errno = neg abi.enotconn
transfer_errno abi (pos (suc n)) errno my_errno = my_errno
transfer_errno abi (negsuc n) errno my_errno = pos errno

-- `rxBuffer.fill` behind the call of `net_recvfrom`.
pub received_fill : ℤ → ℕ
received_fill (pos n) = n
received_fill (negsuc n) = 0

module _ (abi : Abi) where
  -- The write of a packet that is not empty: it goes through `runningTxPacket`.
  pub write_running :
      List (Sys ℕ) → UmlNetworkSocketPlug → Run (UmlNetworkSocketPlug × List (List ℕ))
  unfolding transfer_errno
  write_running attempts u = do
    running ← deref u.running_tx_packet
    let message = take (running.fill - u.tx_done_length) (drop u.tx_done_length running.bytes)
    (done_bytes, errno, sent) ← daemon_user_write abi message u.priv_data.data_addr attempts
    ok (record u { my_errno = transfer_errno abi done_bytes errno u.my_errno }, sent ∷ [])

  -- The branch for `writable`, with the messages sent.
  pub send_packet :
      List (Sys ℕ)
      → BufferId
      → UmlNetworkSocketPlug
      → Buffers
      → Run (UmlNetworkSocketPlug × Buffers × List (List ℕ))
  unfolding write_running
  send_packet attempts tx u b = do
    (object, s1) ← consume ring_size false (get_ring tx b)
    elim object [
      | none ↦ ok (record u { wait_for_write = false }, put_ring tx s1 b, [])
      | some x ↦ (do
        it ← item_at s1 x
        (u1, sent) ← if it.payload.fill == 0 then ok (u, []) else write_running attempts u
        s2 ← cleanup ring_size (some (slot x)) s1
        ok (u1, put_ring tx s2 b, sent))
    ]

  -- The branch for `readable`: the reference that `produce` returned is filled and released.
  pub receive_packet :
      List (Sys (List ℕ))
      → BufferId
      → UmlNetworkSocketPlug
      → Buffers
      → Run (UmlNetworkSocketPlug × Buffers)
  unfolding transfer_errno received_fill
  receive_packet attempts rx u b = do
    (x, s1) ← produce ring_size false (get_ring rx b)
    it ← item_at s1 x
    (done_bytes, errno, received) ← net_recvfrom abi attempts
    let rx_buffer : XferBuffer = record {
      bytes = overwrite received it.payload.bytes;
      fill = received_fill done_bytes;
    }
    let s2 = put_item s1 x (record it { payload = rx_buffer })
    s3 ← release ring_size (slot x) s2
    ok (record u { my_errno = transfer_errno abi done_bytes errno u.my_errno }, put_ring rx s3 b)

  pub execute :
      List (Sys ℕ)
      → List (Sys (List ℕ))
      → (readable writable : Bool) → UmlNetworkSocketPlug
      → Buffers
      → Run (UmlNetworkSocketPlug × Buffers × List (List ℕ))
  execute write_attempts read_attempts readable writable u b = do
    tx ← assert_some u.tx_packets
    rx ← assert_some u.rx_packets
    (u1, b1, sent) ← if writable then send_packet write_attempts tx u b else ok (u, b, [])
    (u2, b2) ← if readable then receive_packet read_attempts rx u1 b1 else ok (u1, b1)
    ok (u2, b2, sent)
