-- ===== src/Daemon/Switch/Connect.antt =====
-- `connect_to_switch` ends with a connection, or with everything closed and freed.
use slirp4tinc.Prelude.{
  zero, suc, Bool-cases, sym, ℕ, ◌<◌, ◌≡◌, refl, ◌≢◌, true, false, Option, none, some, List, [],
  ◌∷◌, ◌++◌, arith, ◌==◌, if◌then◌else◌, ◌⊎◌, inl, inr,
}
use mathlib.Core.Path.{subst}
use slirp4tinc.Prelude.Int.{ℤ, pos, neg, is_negative}
use slirp4tinc.Prelude.Run.{ok, Returns}
use slirp4tinc.Daemon.Os.{
  Sys, done, fail, Abi, Sockaddr, address, Request, req_new_control, World, open_fd, store, load,
  pass-address, set_fd, set_cell,
}
use slirp4tinc.Daemon.Switch.{
  DaemonData, Answers, Outcome, switch_magic, switch_version, out, out_close, out_free, read_reply,
  write_request, allocate_reply, open_data, open_control, bind_data, connect_control,
  connect_to_switch,
}

-- What the manual pages say of the answers: `errno` values are positive, a new descriptor is not
-- open, and `malloc` returns unused memory.
pub record IsDocumented (abi : Abi) (k : Answers) (w : World) : Type 0 where
  pub enomem_pos : 0 < abi.enomem
  pub enotconn_pos : 0 < abi.enotconn
  pub control_socket_errno : (e : ℕ) → k.control_socket ≡ fail e → 0 < e
  pub control_connect_errno : (e : ℕ) → k.control_connect ≡ fail e → 0 < e
  pub data_socket_errno : (e : ℕ) → k.data_socket ≡ fail e → 0 < e
  pub data_bind_errno : (e : ℕ) → k.data_bind ≡ fail e → 0 < e
  pub control_fresh : (c : ℕ) → k.control_socket ≡ done c → w.fds c ≡ false
  pub data_fresh :
      (c fd : ℕ)
      → k.control_socket ≡ done c
      → k.data_socket ≡ done fd
      → (w.fds fd ≡ false) × (c ≢ fd)
  pub reply_fresh : (a : ℕ) → k.reply_memory ≡ some a → w.heap a ≡ none

-- The call failed: nothing that it opened or allocated is left, and of the data only `control` may
-- have changed.
pub record Failed (w : World) (d : DaemonData) (r : ℤ) (w' : World) (d' : DaemonData) : Type 0 where
  pub negative : is_negative r ≡ true
  pub fds : (n : ℕ) → w'.fds n ≡ w.fds n
  pub heap : (a : ℕ) → w'.heap a ≡ w.heap a
  pub same_data : d' ≡ record d { control = d'.control }

-- The call connected: two descriptors are open, the data address is in memory, and the request with
-- the local address was written.
pub record Connected (w : World) (d : DaemonData) (sock : Sockaddr) (r : ℤ) (w' : World)
    (d' : DaemonData) : Type 0 where
  pub fd : ℕ
  pub control_fd : ℕ
  pub memory : ℕ
  pub reply : Sockaddr
  pub result : r ≡ pos fd
  pub distinct : control_fd ≢ fd
  pub was_closed : (w.fds fd ≡ false) × (w.fds control_fd ≡ false)
  pub was_free : w.heap memory ≡ none
  pub fds :
      (n : ℕ) → w'.fds n ≡ (if fd == n then true else if control_fd == n then true else w.fds n)
  pub heap : (a : ℕ) → w'.heap a ≡ (if memory == a then some reply else w.heap a)
  pub new_data : d' ≡ record d { control = pos control_fd; data_addr = address memory }
  pub request :
      w'.requests
      ≡ w.requests
        ++ record {
          magic = switch_magic;
          version = switch_version;
          request_type = req_new_control;
          sock = sock;
        }
          ∷ []

abbrev pub FailedOrConnected : World → DaemonData → Sockaddr → Outcome → Type 0
FailedOrConnected w d sock (r, w', d') = Failed w d r w' d' ⊎ Connected w d sock r w' d'

module _ (abi : Abi) (k : Answers) (w : World) (d : DaemonData) (sock : Sockaddr)
    (doc : IsDocumented abi k w) (l : ℕ) (local : d.local_addr ≡ address l)
    (cell : w.heap l ≡ some sock) (x : ℕ) (ctl : d.ctl_addr ≡ address x) where
  -- The process with both descriptors open, and then with the memory for the reply.
  abbrev both_open : ℕ → ℕ → World
  both_open c fd = open_fd fd (open_fd c w)

  abbrev with_memory : ℕ → ℕ → ℕ → World
  with_memory c fd a = store a (record { sun_path = [] }) (both_open c fd)

  abbrev with_control : ℕ → DaemonData
  with_control c = record d { control = pos c }

  abbrev P : Outcome → Type 0
  P = FailedOrConnected w d sock

  closed_again :
      (c n : ℕ) → k.control_socket ≡ done c → set_fd (set_fd w.fds c true) c false n ≡ w.fds n
  closed_again c n ec = ground (arith, doc.control_fresh c ec)

  both_closed :
      (c fd n : ℕ)
      → k.control_socket ≡ done c
      → k.data_socket ≡ done fd
      → set_fd (set_fd (both_open c fd).fds fd false) c false n ≡ w.fds n
  both_closed c fd n ec ef = ground (arith, doc.control_fresh c ec, doc.data_fresh c fd ec ef)

  freed_again :
      (a n : ℕ) (s : Sockaddr)
      → k.reply_memory ≡ some a
      → set_cell (set_cell w.heap a (some s)) a none n ≡ w.heap n
  freed_again a n s ea = ground (arith, doc.reply_fresh a ea)

  module _ (err : ℤ) (negative : is_negative err ≡ true) (c : ℕ)
      (ec : k.control_socket ≡ done c) where
    out_lem : Returns P (out err (with_control c) (open_fd c w))
    unfolding out
    out_lem = inl (record {
      negative = negative;
      fds = λ n. closed_again c n ec;
      heap = λ a. refl;
      same_data = refl;
    })

    module _ (fd : ℕ) (ef : k.data_socket ≡ done fd) where
      out_close_lem : Returns P (out_close fd err (with_control c) (both_open c fd))
      unfolding out_close
      out_close_lem = inl (record {
        negative = negative;
        fds = λ n. both_closed c fd n ec ef;
        heap = λ a. refl;
        same_data = refl;
      })

      out_free_eq :
          (a : ℕ) (rs : List Request)
          → out_free
              (address a)
              fd
              err
              (with_control c)
              (record (with_memory c fd a) { requests = rs })
            ≡ ok (
              err,
              record w {
                fds = set_fd (set_fd (both_open c fd).fds fd false) c false;
                heap = set_cell (with_memory c fd a).heap a none;
                requests = rs;
              },
              with_control c,
            )
      unfolding out_free
      out_free_eq a rs = ground arith

      out_free_lem :
          (a : ℕ) (rs : List Request)
          → k.reply_memory ≡ some a
          → Returns P (
              out_free
                (address a)
                fd
                err
                (with_control c)
                (record (with_memory c fd a) { requests = rs }))
      out_free_lem a rs ea = subst (Returns P) (sym (out_free_eq a rs)) (
          inl (record {
            negative = negative;
            fds = λ n. both_closed c fd n ec ef;
            heap = λ n. freed_again a n (record { sun_path = [] }) ea;
            same_data = refl;
          }))

  neg_lem : (e : ℕ) → 0 < e → is_negative (neg e) ≡ true
  neg_lem zero h = absurd (omega arith)
  neg_lem (suc e) h = refl

  module _ (c : ℕ) (ec : k.control_socket ≡ done c) (fd : ℕ) (ef : k.data_socket ≡ done fd) (a : ℕ)
      (ea : k.reply_memory ≡ some a) where
    enotconn_neg : is_negative (neg abi.enotconn) ≡ true
    enotconn_neg = neg_lem abi.enotconn doc.enotconn_pos

    abbrev request : Request
    request = record {
      magic = switch_magic;
      version = switch_version;
      request_type = req_new_control;
      sock = sock;
    }

    connected :
        (reply : Sockaddr)
        → P (
          pos fd,
          store a reply (record (with_memory c fd a) { requests = w.requests ++ request ∷ [] }),
          record (with_control c) { data_addr = address a },
        )
    connected reply = inr (record {
      fd = fd;
      control_fd = c;
      memory = a;
      reply = reply;
      result = refl;
      distinct = (doc.data_fresh c fd ec ef).1;
      was_closed = ((doc.data_fresh c fd ec ef).0, doc.control_fresh c ec);
      was_free = doc.reply_fresh a ea;
      fds = λ n. refl;
      heap = λ n. ground arith;
      new_data = refl;
      request = refl;
    })

    read_reply_lem :
        (answer : Sys (ℕ × Sockaddr))
        → Returns P (
            read_reply abi answer fd a
              (with_control c)
              (record (with_memory c fd a) { requests = w.requests ++ request ∷ [] }))
    unfolding read_reply
    read_reply_lem (fail e) = out_free_lem (neg abi.enotconn) enotconn_neg c ec fd ef a _ ea
    read_reply_lem (done (n, reply)) = elim (Bool-cases (n == abi.sockaddr_size)) [
      | inl e ↦ rw e (connected reply)
      | inr e ↦ rw e (out_free_lem (neg abi.enotconn) enotconn_neg c ec fd ef a _ ea)
    ]

    write_request_lem :
        (answer : Sys ℕ)
        → Returns P (write_request abi k answer request fd a (with_control c) (with_memory c fd a))
    unfolding write_request
    write_request_lem (fail e) = out_free_lem (neg abi.enotconn) enotconn_neg c ec fd ef a _ ea
    write_request_lem (done n) = elim (Bool-cases (n == abi.request_size)) [
      | inl e ↦ rw e (read_reply_lem k.reply_read)
      | inr e ↦ rw e (out_free_lem (neg abi.enotconn) enotconn_neg c ec fd ef a _ ea)
    ]

    loaded : load d.local_addr (with_memory c fd a) ≡ ok sock
    loaded = ground (arith, doc.reply_fresh a ea)

  module _ (c : ℕ) (ec : k.control_socket ≡ done c) where
    allocate_reply_lem :
        (fd : ℕ)
        → k.data_socket ≡ done fd
        → (o : Option ℕ) → k.reply_memory ≡ o
        → Returns P (allocate_reply abi k o fd (with_control c) (both_open c fd))
    unfolding allocate_reply
    allocate_reply_lem fd ef none eo =
        out_close_lem (neg abi.enomem) (neg_lem abi.enomem doc.enomem_pos) c ec fd ef
    allocate_reply_lem fd ef (some a) ea =
        rw (loaded c ec fd ef a ea) (write_request_lem c ec fd ef a ea k.request_written)

    bind_data_lem :
        (fd : ℕ)
        → k.data_socket ≡ done fd
        → (answer : Sys (Unit {0})) → k.data_bind ≡ answer
        → Returns P (bind_data abi k answer fd (with_control c) (both_open c fd))
    unfolding bind_data
    bind_data_lem fd ef (fail e) eb =
        out_close_lem (neg e) (neg_lem e (doc.data_bind_errno e eb)) c ec fd ef
    bind_data_lem fd ef (done _) eb = allocate_reply_lem fd ef k.reply_memory refl

    open_data_lem :
        (answer : Sys ℕ)
        → k.data_socket ≡ answer
        → Returns P (open_data abi k answer (with_control c) (open_fd c w))
    unfolding open_data
    open_data_lem (fail e) ef = out_lem (neg e) (neg_lem e (doc.data_socket_errno e ef)) c ec
    open_data_lem (done fd) ef =
        rw (pass-address d.local_addr l local) (bind_data_lem fd ef k.data_bind refl)

    connect_control_lem :
        (answer : Sys (Unit {0}))
        → k.control_connect ≡ answer
        → Returns P (connect_control abi k answer (with_control c) (open_fd c w))
    unfolding connect_control
    connect_control_lem (fail e) en =
        out_lem (neg e) (neg_lem e (doc.control_connect_errno e en)) c ec
    connect_control_lem (done _) en = open_data_lem k.data_socket refl

  open_control_lem :
      (answer : Sys ℕ) → k.control_socket ≡ answer → Returns P (open_control abi k answer d w)
  unfolding open_control
  open_control_lem (fail e) ec = inl (record {
    negative = neg_lem e (doc.control_socket_errno e ec);
    fds = λ n. refl;
    heap = λ n. refl;
    same_data = refl;
  })
  open_control_lem (done c) ec =
      rw (pass-address d.ctl_addr x ctl) (connect_control_lem c ec k.control_connect refl)

  -- With both addresses allocated, `connect_to_switch` returns for all answers of the system calls
  -- that are as documented: either a negative number, with every descriptor and all memory that it
  -- had opened or allocated given back and only `control` changed; or the data descriptor, with
  -- both descriptors open, the reply in memory at the data address, and one request with magic
  -- number, version and the local address written.
  pub connect_to_switch_lem : Returns (FailedOrConnected w d sock) (connect_to_switch abi k d w)
  unfolding connect_to_switch
  connect_to_switch_lem = open_control_lem k.control_socket refl
