-- ===== src/Tests/Abis.antt =====
-- The constants of a Linux system, and answers of system calls.
use slirp4tinc.Prelude.{ℕ, ◌≡◌, List, [], ◌∷◌}
use slirp4tinc.Prelude.Int.{pos}
use slirp4tinc.Prelude.Run.{ok}
use slirp4tinc.Daemon.Os.{Sys, done, fail, Abi}
use slirp4tinc.Daemon.Net.{net_recvfrom, net_recvfrom_lem}

abbrev pub linux : Abi
linux = record {
  eintr = 4;
  eagain = 11;
  enomem = 12;
  enotconn = 107;
  sun_path_size = 108;
  sockaddr_size = 110;
  request_size = 124;
  name_image = λ pid usecs. 0 ∷ 0 ∷ 0 ∷ 0 ∷ pid ∷ 0 ∷ 0 ∷ 0 ∷ usecs ∷ 0 ∷ 0 ∷ 0 ∷ [];
}

-- A signal interrupts the first attempt; the second one receives two bytes.
abbrev pub received_two : List (Sys (List ℕ))
received_two = fail 4 ∷ done (1 ∷ 2 ∷ []) ∷ []

pub received_two_lem : net_recvfrom linux received_two ≡ ok (pos 2, 0, 1 ∷ 2 ∷ [])
received_two_lem = (net_recvfrom_lem linux 1 1 (2 ∷ []) 5 [] (λ e. cc) (λ e. cc) (λ e. cc)).0
