-- ===== src/Main/Forward.antt =====
-- Any rounds of the loop: every packet that comes from the switch is passed on.
use mathlib.Core.List.{append-nil}
use slirp4tinc.Prelude.{
  ℕ, zero, suc, ◌+◌, ◌<◌, ◌≡◌, refl, sym, ap, ◌∙◌, Bool, true, false, ◌&&◌, if◌then◌else◌, some,
  none, List, [], ◌∷◌, ◌++◌, length, has, arith, lt→ltb,
}
use slirp4tinc.Prelude.Int.{ℤ, pos}
use slirp4tinc.Prelude.Run.{ok}
use slirp4tinc.Daemon.Os.{Abi, Sys, done, fail}
use slirp4tinc.Packets.{is_nonzero}
use slirp4tinc.FdSelectHandler.{wait_on, dispatch_loop, after_pselect}
use slirp4tinc.FdSelectHandler.Passes.{
  dispatch_loop-some, dispatch_loop-none, after_pselect-fail, after_pselect-none,
  after_pselect-done, fd_isset_if_lem, wait_on-collected,
}
use slirp4tinc.Main.{Program, Round, both_handlers, no_sleep, uml_plug, slirp_network, connections}
use slirp4tinc.Main.Joined.{
  IsJoined, has_room, plug_asked, slirp_asked, both_asked, highest, watched_read, watched_write,
  plug_answers, slirp_answers, plug_asked-IsJoined, slirp_asked-IsJoined, first_handler, plug_next,
  slirp_next, collected,
}
use slirp4tinc.Main.Flow.{found, IsAnswered, IsSilent, answer, flow, flow_none}
use slirp4tinc.Main.Turns.{take_one, plug_turn, slirp_turn}

module _ (abi : Abi) (a b : ℕ) where
  module _ {vdeslirp_fd : ℕ → ℤ} (fd_setsize : ℕ) {slirp : ℕ} (small_a : a < fd_setsize)
      (small_b : b < fd_setsize) where
    dispatched :
        (r : Round) (w : Program) (ps : List (List ℕ)) (read_set write_set : List ℕ)
        → IsJoined a b slirp vdeslirp_fd w ps
        → has b read_set ≡ false
        → IsAnswered abi r
        → (w' : Program) × IsJoined a b slirp vdeslirp_fd w'
            (flow abi a b r ps (read_set, write_set)).1
          × (w'.given ≡ w.given ++ (flow abi a b r ps (read_set, write_set)).0)
          × (dispatch_loop
                (both_handlers abi vdeslirp_fd fd_setsize r)
                fd_setsize
                3
                read_set
                write_set
                (some uml_plug)
                w
              ≡ ok w')
    unfolding both_handlers
    dispatched r w ps read_set write_set j silent (d, errno, p, answered) =
        let client = both_handlers abi vdeslirp_fd fd_setsize r in
        let ready : Bool = has a read_set && has_room ps in
        let w1 = plug_asked w ps in
        let j1 = plug_asked-IsJoined w ps j in
        let (w2, j2, same, e2) =
          plug_turn abi fd_setsize r w1 ps d errno p ready j1 (λ e. ground (arith, e)) answered in
        let qs : List (List ℕ) = ps ++ (if ready then p ∷ [] else []) in
        let w3 = slirp_asked w2 qs in
        let j3 = slirp_asked-IsJoined w2 qs j2 in
        let (w4, j4, given, e4) = slirp_turn abi fd_setsize r w3 qs (has b write_set) j3 in
        (
          w4,
          rw answered j4,
          rw answered (given ∙ ap (λ l. l ++ (take_one (has b write_set) qs).0) same),
          dispatch_loop-some client fd_setsize 2 uml_plug (some slirp_network) read_set write_set w
                w1 w2 (pos a) (has_room ps) false ready false (plug_answers abi fd_setsize w ps j)
                (fd_isset_if_lem fd_setsize (has_room ps) a read_set small_a) refl e2
                (plug_next w1 j1.chain)
              ∙ dispatch_loop-some client fd_setsize 1 slirp_network none read_set write_set w2 w3
                  w4 (pos b) true (is_nonzero (length qs)) false
                  (has b write_set && is_nonzero (length qs))
                  (slirp_answers abi fd_setsize w2 qs j2)
                  (rw (lt→ltb b fd_setsize small_b) (ap ok silent))
                  (fd_isset_if_lem fd_setsize (is_nonzero (length qs)) b write_set small_b) e4
                  (slirp_next w3 j3.chain)
              ∙ dispatch_loop-none client fd_setsize 0 read_set write_set w4,
        )

    answered_by :
        (r : Round) (w : Program) (ps : List (List ℕ)) (s : Sys (ℕ × List ℕ × List ℕ))
        → IsJoined a b slirp vdeslirp_fd w ps
        → has b (found s).0 ≡ false
        → IsAnswered abi r
        → (did_work : Bool) × (w' : Program) × IsJoined a b slirp vdeslirp_fd w'
            (flow abi a b r ps (found s)).1
          × (w'.given ≡ w.given ++ (flow abi a b r ps (found s)).0)
          × (after_pselect (both_handlers abi vdeslirp_fd fd_setsize r) fd_setsize 3 connections s w
              ≡ ok (did_work, w'))
    unfolding both_handlers
    answered_by r w ps (fail e) j silent answered =
        let client = both_handlers abi vdeslirp_fd fd_setsize r in
        (
          false,
          w,
          rw (flow_none abi a b r ps) j,
          rw (flow_none abi a b r ps) (sym (append-nil w.given)),
          after_pselect-fail client fd_setsize 3 connections e w,
        )
    answered_by r w ps (done (zero, read_set, write_set)) j silent answered =
        let client = both_handlers abi vdeslirp_fd fd_setsize r in
        (
          false,
          w,
          rw (flow_none abi a b r ps) j,
          rw (flow_none abi a b r ps) (sym (append-nil w.given)),
          after_pselect-none client fd_setsize 3 connections read_set write_set w,
        )
    answered_by r w ps (done (suc k, read_set, write_set)) j silent answered =
        let client = both_handlers abi vdeslirp_fd fd_setsize r in
        let (w', j', given, e) = dispatched r w ps read_set write_set j silent answered in
        (
          true,
          w',
          j',
          given,
          after_pselect-done client fd_setsize 3 connections k uml_plug read_set write_set w w'
              (first_handler w j.chain) e,
        )

    pub one_round :
        (r : Round) (w : Program) (ps : List (List ℕ))
        → IsJoined a b slirp vdeslirp_fd w ps
        → IsSilent b r
        → IsAnswered abi r
        → (did_work : Bool) × (w' : Program) × IsJoined a b slirp vdeslirp_fd w'
            (flow abi a b r ps (found (answer abi a b r ps))).1
          × (w'.given ≡ w.given ++ (flow abi a b r ps (found (answer abi a b r ps))).0)
          × (wait_on
                (both_handlers abi vdeslirp_fd fd_setsize r)
                3
                fd_setsize
                (λ timeout. r.pselect)
                no_sleep
                none
                connections
                w
              ≡ ok (did_work, w'))
    unfolding both_handlers
    one_round r w ps j silent answered =
        let client = both_handlers abi vdeslirp_fd fd_setsize r in
        let w1 = both_asked w ps in
        let j1 = slirp_asked-IsJoined (plug_asked w ps) ps (plug_asked-IsJoined w ps j) in
        let (did, w', j', given, e) =
          answered_by r w1 ps (answer abi a b r ps) j1
            (silent (highest a b + 1) (watched_read a b ps) (watched_write b ps)) answered in
        (
          did,
          w',
          j',
          given,
          wait_on-collected client 3 fd_setsize connections uml_plug (highest a b)
                (λ timeout. r.pselect) no_sleep none (watched_read a b ps) (watched_write b ps) w w1
                (first_handler w j.chain) (collected abi fd_setsize r w ps j small_a small_b)
              ∙ e,
        )
