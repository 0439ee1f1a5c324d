-- ===== src/Daemon/Switch/Lifecycle.antt =====
-- `daemon_user_init` and `daemon_remove`: what a failed and a successful start leave, and what the
-- removal gives back.
use text.Mathlib.Text.{◌==◌ as str_eq}
use mathlib.Core.Path.{subst}
use slirp4tinc.Prelude.{
  ℕ, ◌≤◌, ◌<◌, ◌≡◌, refl, sym, ap, ◌∙◌, ◌≢◌, true, false, none, some, [], ◌∷◌, ◌++◌, arith, ◌==◌,
  if◌then◌else◌, ◌⊎◌, inl, inr, length, length-append,
}
use slirp4tinc.Prelude.Int.{ℤ, pos, negsuc, is_negative}
use slirp4tinc.Prelude.Run.{ok, undefined, Returns, Returns->>=, ◌>>=◌, >>=-eq-ok, ok-injective}
use slirp4tinc.Daemon.Os.{
  Abi, Sockaddr, uninitialised, null, address, World, close, store, free, set_fd, set_cell,
}
use slirp4tinc.Daemon.Switch.{
  DaemonData, Answers, Outcome, new_addr, new_ctl_addr, finish_init, connect_to_switch,
  daemon_user_init, daemon_remove,
}
use slirp4tinc.Daemon.Switch.Connect.{
  IsDocumented, Failed, Connected, FailedOrConnected, connect_to_switch_lem,
}

-- The names fit into `sun_path`, and `malloc` gives unused memory for both.
pub record CanAllocate (abi : Abi) (k : Answers) (d : DaemonData) (w : World) (x l : ℕ)
    : Type 0 where
  pub is_unix : str_eq d.sock_type "unix" ≡ true
  pub ctl_fits : length d.ctl_sock < abi.sun_path_size
  pub name_fits : length (abi.name_image k.pid k.usecs) ≤ abi.sun_path_size
  pub ctl_memory : k.ctl_memory ≡ some x
  pub local_memory : k.local_memory ≡ some l
  pub ctl_fresh : w.heap x ≡ none
  pub local_fresh : w.heap l ≡ none
  pub distinct : x ≢ l

-- After a failed start the descriptors are as before, the local address is given back, and the
-- address of the control socket is still allocated.
pub record NotStarted (w : World) (d : DaemonData) (x : ℕ) (r : ℤ) (w' : World) (d' : DaemonData)
    : Type 0 where
  pub negative : is_negative r ≡ true
  pub fds : (n : ℕ) → w'.fds n ≡ w.fds n
  pub ctl_cell : Sockaddr
  pub heap : (a : ℕ) → w'.heap a ≡ (if x == a then some ctl_cell else w.heap a)
  pub ctl_addr : d'.ctl_addr ≡ address x
  pub local_addr : d'.local_addr ≡ null
  pub data_addr : d'.data_addr ≡ d.data_addr

-- After a removal the descriptors and the heap are as in `w`.
pub record Restored (w : World) (w' : World) (d' : DaemonData) : Type 0 where
  pub fds : (n : ℕ) → w'.fds n ≡ w.fds n
  pub heap : (a : ℕ) → w'.heap a ≡ w.heap a
  pub closed : (d'.fd ≡ negsuc 0) × (d'.control ≡ negsuc 0)
  pub cleared : (d'.ctl_addr ≡ null) × (d'.data_addr ≡ null) × (d'.local_addr ≡ null)

-- A removal frees the data address, which a failed start leaves as it was.
NotStarted-remove :
    (w w' : World) (d d' : DaemonData) (x : ℕ) (r : ℤ)
    → d.data_addr ≡ uninitialised
    → NotStarted w d x r w' d'
    → daemon_remove d' w' ≡ undefined
unfolding daemon_remove
NotStarted-remove w w' d d' x r e f = rw (f.data_addr, e)

module _ (abi : Abi) (k : Answers) (dev : ℕ) (d : DaemonData) (w : World) (x l : ℕ)
    (can : CanAllocate abi k d w x l) where
  abbrev ctl_sockaddr : Sockaddr
  ctl_sockaddr = record { sun_path = d.ctl_sock ++ 0 ∷ [] }

  abbrev local_sockaddr : Sockaddr
  local_sockaddr = record { sun_path = abi.name_image k.pid k.usecs }

  -- The process and the data when `connect_to_switch` is called.
  abbrev pub allocated : World
  allocated = store l local_sockaddr (store x ctl_sockaddr w)

  abbrev pub addressed : DaemonData
  addressed = record d { ctl_addr = address x; local_addr = address l; dev = dev }

  new_ctl_addr_lem : new_ctl_addr abi k d w ≡ ok (address x, store x ctl_sockaddr w)
  unfolding new_ctl_addr
  new_ctl_addr_lem =
      rw (can.is_unix, can.ctl_memory, new_addr)
        (ground (arith, can.ctl_fits, length-append d.ctl_sock (0 ∷ [])))

  init-eq :
      daemon_user_init abi k dev d w ≡ (connect_to_switch abi k addressed allocated >>= finish_init)
  unfolding daemon_user_init
  init-eq = rw (new_ctl_addr_lem, can.local_memory, new_addr) (ground (arith, can.name_fits))

  -- The successful start, and what a removal gives back after it.
  abbrev pub Started : Outcome → Type 0
  Started (r, w', d') =
      (r ≡ pos 0) × Returns (λ (w'', d''). Restored w w'' d'') (daemon_remove d' w')

  abbrev pub Ended : Outcome → Type 0
  Ended (r, w', d') = NotStarted w d x r w' d' ⊎ Started (r, w', d')

  module _ (r : ℤ) (w' : World) (d' : DaemonData) where
    module _ (f : Failed allocated addressed r w' d') where
      local_addr_kept : d'.local_addr ≡ address l
      local_addr_kept = ap (λ (e : DaemonData). e.local_addr) f.same_data

      local_cell : w'.heap l ≡ some local_sockaddr
      local_cell = f.heap l ∙ ground arith

      finish_failed_eq :
          finish_init (r, w', d')
          ≡ ok (
            r,
            record w' { heap = set_cell w'.heap l none },
            record d' { fd = r; local_addr = null },
          )
      unfolding finish_init
      finish_failed_eq = ground (arith, f.negative, local_addr_kept, local_cell)

      finish_failed : Returns Ended (finish_init (r, w', d'))
      finish_failed = subst (Returns Ended) (sym finish_failed_eq) (
          inl (record {
            negative = f.negative;
            fds = f.fds;
            ctl_cell = ctl_sockaddr;
            heap = λ a. ground (arith, f.heap a, can.local_fresh, can.distinct);
            ctl_addr = ap (λ (e : DaemonData). e.ctl_addr) f.same_data;
            local_addr = refl;
            data_addr = ap (λ (e : DaemonData). e.data_addr) f.same_data;
          }))

    module _ (c : Connected allocated addressed local_sockaddr r w' d') where
      finish_connected_eq : finish_init (r, w', d') ≡ ok (pos 0, w', record d' { fd = r })
      unfolding finish_init
      finish_connected_eq = rw c.result

      memory_apart : (c.memory ≢ x) × (c.memory ≢ l)
      memory_apart = ground (arith, c.was_free)

      -- The process after the removal.
      abbrev removed : World
      removed = record w' {
        fds = set_fd (set_fd w'.fds c.fd false) c.control_fd false;
        heap = set_cell (set_cell (set_cell w'.heap c.memory none) x none) l none;
      }

      remove_eq :
          daemon_remove (record d' { fd = r }) w'
          ≡ ok (
            removed,
            record d' {
              fd = negsuc 0;
              control = negsuc 0;
              data_addr = null;
              ctl_addr = null;
              local_addr = null;
            },
          )
      unfolding daemon_remove
      remove_eq = ground (
        arith,
        c.result,
        memory_apart,
        can.distinct,
        c.heap c.memory,
        c.heap x,
        c.heap l,
        ap (λ (e : DaemonData). e.control) c.new_data,
        ap (λ (e : DaemonData). e.data_addr) c.new_data,
        ap (λ (e : DaemonData). e.ctl_addr) c.new_data,
        ap (λ (e : DaemonData). e.local_addr) c.new_data,
      )

      finish_connected : Returns Ended (finish_init (r, w', d'))
      finish_connected = subst (Returns Ended) (sym finish_connected_eq) (
          inr (
            refl,
            subst (Returns (λ (w'', d''). Restored w w'' d'')) (sym remove_eq) (record {
              fds = λ n. ground (arith, c.fds n, c.was_closed);
              heap = λ a.
                  ground
                    (arith, c.heap a, memory_apart, can.ctl_fresh, can.local_fresh, c.was_free);
              closed = (refl, refl);
              cleared = (refl, refl, refl);
            }),
          ))

  -- If both names fit and both addresses can be allocated, `daemon_user_init` returns for all
  -- answers of the system calls that are as documented. Either it returns a negative number, with
  -- the descriptors as before, the local address given back and the control address still
  -- allocated; or it returns 0, and the removal that ends the connection returns too, with every
  -- descriptor and all memory given back.
  pub daemon_user_init_lem :
      IsDocumented abi k allocated → Returns Ended (daemon_user_init abi k dev d w)
  daemon_user_init_lem doc = subst (Returns Ended) (sym init-eq) (
      Returns->>= (FailedOrConnected allocated addressed local_sockaddr) Ended
        (connect_to_switch abi k addressed allocated) finish_init
        (connect_to_switch_lem abi k allocated addressed local_sockaddr doc l refl local_cell_new x
          refl)
        finish)
    where
      local_cell_new : allocated.heap l ≡ some local_sockaddr
      local_cell_new = ground arith

      finish :
          (o : Outcome)
          → FailedOrConnected allocated addressed local_sockaddr o
          → Returns Ended (finish_init o)
      finish (r, w', d') (inl f) = finish_failed r w' d' f
      finish (r, w', d') (inr c) = finish_connected r w' d' c

  -- If both names fit and both addresses can be allocated, the answers of the system calls are as
  -- documented, and `daemon_user_init` is called with a data address that is not initialised, and
  -- fails, then a `daemon_remove` behind it is undefined: no failure assigns the data address, and
  -- the removal frees it.
  pub daemon_remove-undefined :
      (r : ℤ) (w' : World) (d' : DaemonData)
      → IsDocumented abi k allocated
      → d.data_addr ≡ uninitialised
      → daemon_user_init abi k dev d w ≡ ok (r, w', d')
      → is_negative r ≡ true
      → daemon_remove d' w' ≡ undefined
  daemon_remove-undefined r w' d' doc unset failed negative =
      elim (subst (Returns Ended) failed (daemon_user_init_lem doc)) [
        | inl f ↦ NotStarted-remove w w' d d' x r unset f
        | inr started ↦ absurd (let zero : is_negative r ≡ false = ap is_negative started.0 in cc)
      ]

-- A removal that returned may be repeated: the second one changes nothing.
pub daemon_remove_twice :
    (d d' : DaemonData) (w w' : World)
    → daemon_remove d w ≡ ok (w', d')
    → daemon_remove d' w' ≡ ok (w', d')
unfolding daemon_remove
daemon_remove_twice d d' w w' e =
    let (w3, e3, r3) = >>=-eq-ok (free d.data_addr (close d.control (close d.fd w))) _ e in
    let (w4, e4, r4) = >>=-eq-ok (free d.ctl_addr w3) _ r3 in
    let (w5, e5, r5) = >>=-eq-ok (free d.local_addr w4) _ r4 in
    subst (λ (o : World × DaemonData). daemon_remove o.1 o.0 ≡ ok o) (ok-injective r5) refl
