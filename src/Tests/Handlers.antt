-- ===== src/Tests/Handlers.antt =====
-- src/SlirpHandler.cpp and src/umlplug/UmlNetworkSocketPlug.cpp: packets that pass through two new
-- rings, from the switch to the slirp library.
use slirp4tinc.Prelude.{ℕ, ◌≡◌, refl, true, false, some, none, [], ◌∷◌, arith}
use slirp4tinc.Prelude.Int.{pos}
use slirp4tinc.Prelude.Run.{ok, undefined}
use slirp4tinc.ProducerConsumer.{construct}
use slirp4tinc.ProducerConsumer.Pool
use slirp4tinc.ProducerConsumer.Rep.{Rep}
use slirp4tinc.ProducerConsumer.Refine.Construct.{construct-Rep}
use slirp4tinc.Packets.{
  XferBuffer, ring_size, uml2slirp, slirp2uml, Buffers, put_ring, PacketRingBuffer,
}
use slirp4tinc.Packets.View.{Carries}
use slirp4tinc.Daemon.Os.{done}
use slirp4tinc.UmlNetworkSocketPlug
use slirp4tinc.UmlNetworkSocketPlug.{UmlNetworkSocketPlug, fresh_data}
use slirp4tinc.UmlNetworkSocketPlug.Transfer.{execute_receives, execute_writable-undefined}
use slirp4tinc.SlirpHandler
use slirp4tinc.SlirpHandler.{SlirpHandler}
use slirp4tinc.SlirpHandler.Transfer.{IsConnected, execute_sends, execute_readable-undefined}
use slirp4tinc.Main.{Program, join}
use slirp4tinc.Main.Joined.{IsJoined, join-IsJoined}
use slirp4tinc.Tests.Abis.{linux, received_two, received_two_lem}

abbrev zeroed : ℕ → XferBuffer
zeroed i = record { bytes = []; fill = 0 }

abbrev pub new :
    (s : PacketRingBuffer) × (construct ring_size zeroed ≡ ok s)
    × Rep ring_size s (Pool.initial ring_size zeroed)
new = construct-Rep ring_size zeroed (omega arith) (omega arith)

pub empty_Carries : Carries new.0 []
empty_Carries = record {
  buffers = [];
  holds = record {
    pool = Pool.initial ring_size zeroed;
    rep = new.2;
    idle = record { producing = refl; consuming = refl };
    waiting = refl;
  };
  packets = tt;
}

abbrev pub new_buffers : Buffers
new_buffers = record { uml2slirp_buffers = new.0; slirp2uml_buffers = new.0 }

abbrev pub plug : UmlNetworkSocketPlug
plug = record {
  priv_data = fresh_data (47 ∷ []);
  xfer_fd = pos 4;
  my_errno = pos 0;
  tx_packets = some slirp2uml;
  rx_packets = some uml2slirp;
  running_tx_packet = none;
  tx_done_length = 0;
  wait_for_read = true;
  wait_for_write = false;
}

abbrev pub handler : SlirpHandler
handler = record {
  my_slirp = some 9;
  tx_packets = some uml2slirp;
  rx_packets = some slirp2uml;
  wait_for_read = false;
  wait_for_write = false;
}

handler-IsConnected : IsConnected handler uml2slirp slirp2uml 9
handler-IsConnected = record { tx_ring = refl; rx_ring = refl; library = refl }

-- A packet of two bytes is received by the plug.
pub loaded :
    (s : PacketRingBuffer) × (UmlNetworkSocketPlug.execute linux [] received_two true false plug
        new_buffers
      ≡ ok (plug, put_ring uml2slirp s new_buffers, []))
    × Carries s ((1 ∷ 2 ∷ []) ∷ [])
unfolding UmlNetworkSocketPlug.transfer_errno
loaded =
    execute_receives linux plug new_buffers uml2slirp [] received_two (pos 2) 0 (1 ∷ 2 ∷ [])
      received_two_lem empty_Carries slirp2uml [] refl refl

abbrev loaded_buffers : Buffers
loaded_buffers = record { uml2slirp_buffers = loaded.0; slirp2uml_buffers = loaded.0 }

execute_receives_example :
    (s : PacketRingBuffer) × (UmlNetworkSocketPlug.execute linux [] received_two true false plug
        loaded_buffers
      ≡ ok (plug, put_ring uml2slirp s loaded_buffers, []))
    × Carries s ((1 ∷ 2 ∷ []) ∷ (1 ∷ 2 ∷ []) ∷ [])
unfolding UmlNetworkSocketPlug.transfer_errno
execute_receives_example =
    execute_receives linux plug loaded_buffers uml2slirp ((1 ∷ 2 ∷ []) ∷ []) received_two (pos 2) 0
      (1 ∷ 2 ∷ []) received_two_lem loaded.2 slirp2uml [] refl refl

execute_writable-undefined_example :
    UmlNetworkSocketPlug.execute linux [] [] false true plug loaded_buffers ≡ undefined
execute_writable-undefined_example =
    execute_writable-undefined linux plug loaded_buffers slirp2uml uml2slirp (1 ∷ 2 ∷ []) [] [] []
      false refl refl refl (λ e. cc) loaded.2

execute_sends_example :
    (s : PacketRingBuffer) × (SlirpHandler.execute (done []) false true handler loaded_buffers
      ≡ ok (handler, put_ring uml2slirp s loaded_buffers, (1 ∷ 2 ∷ []) ∷ []))
    × Carries s []
execute_sends_example =
    execute_sends loaded_buffers uml2slirp handler slirp2uml 9 (done []) handler-IsConnected
      (1 ∷ 2 ∷ []) [] loaded.2

execute_readable-undefined_example :
    SlirpHandler.execute (done (5 ∷ [])) true false handler new_buffers ≡ undefined
execute_readable-undefined_example =
    execute_readable-undefined new_buffers uml2slirp handler slirp2uml 9 (done (5 ∷ []))
      handler-IsConnected false [] empty_Carries

-- The program as `main` joins it, with the plug on descriptor 4 and the library on 9.
abbrev pub running : Program
running = join plug (some 9) new_buffers

pub running-IsJoined : IsJoined 4 9 9 pos running []
running-IsJoined = join-IsJoined 4 9 9 pos plug new_buffers refl refl empty_Carries empty_Carries
