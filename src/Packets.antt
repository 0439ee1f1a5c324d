-- ===== src/Packets.antt =====
-- src/Slirp4TincTypes.h, and the two packet rings that `main` shares between the handlers.
pub mod View
use slirp4tinc.Prelude.{
  ◌≡◌, refl, ℕ, ◌+◌, Bool, true, false, not, Option, none, some, List, ◌++◌, ◌==◌, length, drop,
}
use slirp4tinc.Prelude.Run.{Run, ok, assert_failed}
use slirp4tinc.ProducerConsumer.{ProducerConsumer}

-- ETH_MAX_PACKET + ETH_ADDR_LEN + ETH_HEADER_ETHERTAP + ETH_HEADER_OTHER of src/umlplug/net_user.h
abbrev pub packet_size : ℕ
packet_size = 1500 + 6 + 16 + 26

-- `struct XferBuffer`: `packet_size` bytes, of which the first `fill` are a packet.
pub record XferBuffer : Type 0 where
  pub bytes : List ℕ
  pub fill : ℕ

-- The number of items of a `PacketRingBuffer`.
abbrev pub ring_size : ℕ
ring_size = 256

abbrev pub PacketRingBuffer : Type 0
PacketRingBuffer = ProducerConsumer XferBuffer

-- Where a pointer to a packet ring points, and what stands there.
pub data BufferId : Type 0 where
  uml2slirp slirp2uml : BufferId

pub record Buffers : Type 0 where
  pub uml2slirp_buffers : PacketRingBuffer
  pub slirp2uml_buffers : PacketRingBuffer

abbrev pub get_ring : BufferId → Buffers → PacketRingBuffer
get_ring uml2slirp b = b.uml2slirp_buffers
get_ring slirp2uml b = b.slirp2uml_buffers

abbrev pub put_ring : BufferId → PacketRingBuffer → Buffers → Buffers
put_ring uml2slirp s b = record b { uml2slirp_buffers = s }
put_ring slirp2uml s b = record b { slirp2uml_buffers = s }

-- Bytes received into the front of an array.
abbrev pub overwrite : List ℕ → List ℕ → List ℕ
overwrite received bytes = received ++ drop (length received) bytes

-- `!! n`
abbrev pub is_nonzero : ℕ → Bool
is_nonzero n = not (n == 0)

-- `assert(p)` of a pointer, which is then used.
unfoldable pub assert_some : {A : Type 0} → Option A → Run A
assert_some none = assert_failed
assert_some (some a) = ok a

pub assert_some-some : {A : Type 0} (o : Option A) {a : A} → o ≡ some a → assert_some o ≡ ok a
unfolding assert_some
assert_some-some none e = cc
assert_some-some (some b) e = cc

pub put_get : (i : BufferId) (b : Buffers) → put_ring i (get_ring i b) b ≡ b
put_get uml2slirp b = refl
put_get slirp2uml b = refl
