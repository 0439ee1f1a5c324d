-- ===== src/Daemon/Switch/Tests.antt =====
-- src/umlplug/daemon_user.c: calls with concrete answers.
use slirp4tinc.Prelude.{ℕ, ◌≡◌, refl, false, some, none, List, [], ◌∷◌, arith}
use slirp4tinc.Prelude.Int.{pos, negsuc}
use slirp4tinc.Prelude.Run.{ok, undefined, Returns}
use slirp4tinc.Daemon.Os.{done, fail, uninitialised, address, World, pass}
use slirp4tinc.Daemon.Net.{net_recvfrom, daemon_user_write, net_recvfrom_lem, daemon_user_write_lem}
use slirp4tinc.Daemon.Switch.{
  DaemonData, Answers, Outcome, new_ctl_addr, new_addr, finish_init, connect_to_switch,
  daemon_user_init, daemon_remove,
}
use slirp4tinc.Daemon.Switch.Connect.{IsDocumented, FailedOrConnected, connect_to_switch_lem}
use slirp4tinc.Daemon.Switch.Lifecycle.{
  CanAllocate, Ended, allocated, addressed, daemon_user_init_lem, daemon_remove-undefined,
}
use slirp4tinc.Tests.Abis.{linux}

net_recvfrom_lem_example :
    (net_recvfrom linux (fail 4 ∷ fail 4 ∷ done (1 ∷ 2 ∷ []) ∷ []) ≡ ok (pos 2, 0, 1 ∷ 2 ∷ []))
    × (net_recvfrom linux (fail 4 ∷ fail 4 ∷ done [] ∷ []) ≡ ok (negsuc 106, 0, []))
    × (net_recvfrom linux (fail 4 ∷ fail 4 ∷ fail 11 ∷ []) ≡ ok (pos 0, 11, []))
    × (net_recvfrom linux (fail 4 ∷ fail 4 ∷ fail 104 ∷ []) ≡ ok (negsuc 103, 104, []))
net_recvfrom_lem_example = net_recvfrom_lem linux 2 1 (2 ∷ []) 104 [] (λ e. cc) (λ e. cc) (λ e. cc)

daemon_user_write_lem_example :
    (daemon_user_write linux (1 ∷ 2 ∷ 3 ∷ []) (address 8) (fail 4 ∷ done 2 ∷ [])
      ≡ ok (pos 2, 0, 1 ∷ 2 ∷ []))
    × (daemon_user_write linux (1 ∷ 2 ∷ 3 ∷ []) (address 8) (fail 4 ∷ done 0 ∷ [])
        ≡ ok (negsuc 106, 0, []))
    × (daemon_user_write linux (1 ∷ 2 ∷ 3 ∷ []) (address 8) (fail 4 ∷ fail 11 ∷ [])
        ≡ ok (pos 0, 11, []))
    × (daemon_user_write linux (1 ∷ 2 ∷ 3 ∷ []) (address 8) (fail 4 ∷ fail 104 ∷ [])
        ≡ ok (negsuc 103, 104, []))
daemon_user_write_lem_example =
    daemon_user_write_lem linux 1 1 104 8 (1 ∷ 2 ∷ 3 ∷ []) [] (λ e. cc) (λ e. cc) (λ e. cc)

abbrev answers : Answers
answers = record {
  ctl_memory = some 100;
  pid = 1;
  usecs = 2;
  local_memory = some 200;
  control_socket = done 3;
  control_connect = done tt;
  data_socket = done 4;
  data_bind = done tt;
  reply_memory = some 300;
  request_written = done 124;
  reply_read = done (110, record { sun_path = 7 ∷ [] });
}

abbrev before : World
before = record { fds = λ n. false; heap = λ a. none; requests = [] }

abbrev data_of : List ℕ → DaemonData
data_of path = record {
  sock_type = "unix";
  ctl_sock = path;
  ctl_addr = uninitialised;
  data_addr = uninitialised;
  local_addr = uninitialised;
  fd = negsuc 0;
  control = negsuc 0;
  dev = 0;
}

abbrev unstarted : DaemonData
unstarted = data_of (47 ∷ 115 ∷ [])

can : CanAllocate linux answers unstarted before 100 200
can = record {
  is_unix = refl;
  ctl_fits = omega arith;
  name_fits = omega arith;
  ctl_memory = refl;
  local_memory = refl;
  ctl_fresh = refl;
  local_fresh = refl;
  distinct = λ e. omega (arith, e);
}

abbrev with_names : World
with_names = allocated linux answers 0 unstarted before 100 200 can

abbrev with_addresses : DaemonData
with_addresses = addressed linux answers 0 unstarted before 100 200 can

documented : IsDocumented linux answers with_names
documented = record {
  enomem_pos = omega arith;
  enotconn_pos = omega arith;
  control_socket_errno = λ e h. cc;
  control_connect_errno = λ e h. cc;
  data_socket_errno = λ e h. cc;
  data_bind_errno = λ e h. cc;
  control_fresh = λ c h. refl;
  data_fresh = λ c fd h i. (refl, ground (arith, h, i));
  reply_fresh = λ a h. ground (arith, h);
}

connect_to_switch_lem_example :
    Returns
      (FailedOrConnected with_names with_addresses (record { sun_path = linux.name_image 1 2 }))
      (connect_to_switch linux answers with_addresses with_names)
connect_to_switch_lem_example =
    connect_to_switch_lem linux answers with_names with_addresses
      (record { sun_path = linux.name_image 1 2 }) documented 200 refl refl 100 refl

daemon_user_init_lem_example :
    Returns
      (Ended linux answers 0 unstarted before 100 200 can)
      (daemon_user_init linux answers 0 unstarted before)
daemon_user_init_lem_example =
    daemon_user_init_lem linux answers 0 unstarted before 100 200 can documented

-- The control socket is refused.
abbrev refusing : Answers
refusing = record answers { control_connect = fail 111 }

refusing-CanAllocate : CanAllocate linux refusing unstarted before 100 200
refusing-CanAllocate = record {
  is_unix = refl;
  ctl_fits = omega arith;
  name_fits = omega arith;
  ctl_memory = refl;
  local_memory = refl;
  ctl_fresh = refl;
  local_fresh = refl;
  distinct = λ e. omega (arith, e);
}

refusal-IsDocumented :
    IsDocumented linux refusing
      (allocated linux refusing 0 unstarted before 100 200 refusing-CanAllocate)
refusal-IsDocumented = record {
  enomem_pos = omega arith;
  enotconn_pos = omega arith;
  control_socket_errno = λ e h. cc;
  control_connect_errno = λ e h. ground (arith, h);
  data_socket_errno = λ e h. cc;
  data_bind_errno = λ e h. cc;
  control_fresh = λ c h. refl;
  data_fresh = λ c fd h i. (refl, ground (arith, h, i));
  reply_fresh = λ a h. ground (arith, h);
}

refused : (o : Outcome) × (daemon_user_init linux refusing 0 unstarted before ≡ ok o)
unfolding daemon_user_init connect_to_switch new_ctl_addr new_addr finish_init pass
refused = (_, refl)

daemon_remove-undefined_example : daemon_remove refused.0.2 refused.0.1 ≡ undefined
unfolding refused
daemon_remove-undefined_example =
    daemon_remove-undefined linux refusing 0 unstarted before 100 200 refusing-CanAllocate
      refused.0.0 refused.0.1 refused.0.2 refusal-IsDocumented refl refused.1 refl
