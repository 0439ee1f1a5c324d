-- ===== src/Daemon/Info.antt =====
-- The table `daemon_user_info` of src/umlplug/daemon_user.c, through which the plug calls the
-- functions, and `struct net_user_info` of net_user.h.
use slirp4tinc.Prelude.{ℕ, ◌+◌, ◌≤◌, Option, none, List, arith}
use slirp4tinc.Prelude.Int.{ℤ}
use slirp4tinc.Prelude.Run.{Run}
use slirp4tinc.Packets.{packet_size}
use slirp4tinc.Daemon.Os.{Abi, World}
use slirp4tinc.Daemon.Switch.{
  DaemonData, Answers, Outcome, daemon_user_init, daemon_open, daemon_remove,
}

abbrev pub eth_max_packet : ℕ
eth_max_packet = 1500

abbrev pub eth_header_other : ℕ
eth_header_other = 26

-- `struct net_user_info`; a function that is not there is a null pointer, and `open_connection` is
-- its member `open`.
pub record NetUserInfo : Type 0 where
  pub init : Answers → ℕ → DaemonData → World → Run Outcome
  pub open_connection : DaemonData → ℤ
  pub close : Option (ℤ → DaemonData → World → Run World)
  pub remove : DaemonData → World → Run (World × DaemonData)
  pub add_address : Option (List ℕ → List ℕ → DaemonData → World → Run World)
  pub delete_address : Option (List ℕ → List ℕ → DaemonData → World → Run World)
  pub max_packet : ℕ
  pub mtu : ℕ

abbrev pub daemon_user_info : Abi → NetUserInfo
daemon_user_info abi = record {
  init = λ k dev d w. daemon_user_init abi k dev d w;
  open_connection = λ d. daemon_open d;
  close = none;
  remove = λ d w. daemon_remove d w;
  add_address = none;
  delete_address = none;
  mtu = eth_max_packet;
  max_packet = eth_max_packet + eth_header_other;
}

-- The largest packet that the table names fits into a buffer of the rings.
max_packet_fits : (abi : Abi) → (daemon_user_info abi).max_packet ≤ packet_size
max_packet_fits abi = omega arith
