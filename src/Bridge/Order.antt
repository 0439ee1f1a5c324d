-- ===== src/Bridge/Order.antt =====
-- The order of the packets that pass the ring from the switch to the slirp library.
use mathlib.Core.List.{append-nil, append_assoc}
use mathlib.Core.Path.{subst}
use slirp4tinc.Prelude.{ℕ, ◌≡◌, refl, some, List, [], ◌∷◌, ◌++◌, length, ◌==◌, Bool-cases, inl, inr}
use slirp4tinc.Prelude.Run.{ok}
use slirp4tinc.Packets.{ring_size, Buffers}
use slirp4tinc.Packets.View.{Carries}
use slirp4tinc.ProducerConsumer.Exchange.{tail, with_room}
use slirp4tinc.ProducerConsumer.Session.Subsequence.{
  Subsequence, nil, keep, skip, Subsequence-append, Subsequence-nil, Subsequence-self,
  Subsequence-trans,
}
use slirp4tinc.Daemon.Os.{Abi}
use slirp4tinc.UmlNetworkSocketPlug.{UmlNetworkSocketPlug}
use slirp4tinc.SlirpHandler.{SlirpHandler}
use slirp4tinc.SlirpHandler.Transfer.{nonempty}
use slirp4tinc.Bridge.{connect_plug, connect_slirp}
use slirp4tinc.Bridge.Relay.{
  Event, plug_readable, slirp_writable, Joined, Given, on_events, AreAnswered, relay, IsJoined,
  on_events-relay,
}

-- The packets that come.
abbrev pub came : List Event → List (List ℕ)
came [] = []
came (plug_readable attempts packet ∷ es) = packet ∷ came es
came (slirp_writable answer ∷ es) = came es

-- The packets that are not empty.
abbrev pub nonempties : List (List ℕ) → List (List ℕ)
nonempties [] = []
nonempties (p ∷ ps) = nonempty p ++ nonempties ps

nonempties-Subsequence :
    {xs ys : List (List ℕ)} → Subsequence xs ys → Subsequence (nonempties xs) (nonempties ys)
nonempties-Subsequence nil = nil
nonempties-Subsequence (keep {x = x} s) =
    Subsequence-append (Subsequence-self (nonempty x)) (nonempties-Subsequence s)
nonempties-Subsequence (skip {y = y} s) =
    Subsequence-append (Subsequence-nil (nonempty y)) (nonempties-Subsequence s)

tail-Subsequence : (ps : List (List ℕ)) → Subsequence (tail ps) ps
tail-Subsequence [] = nil
tail-Subsequence (p ∷ ps) = skip (Subsequence-self ps)

with_room-Subsequence : (n : ℕ) (ps : List (List ℕ)) → Subsequence (with_room n ps) ps
with_room-Subsequence n ps = elim (Bool-cases (length ps == n)) [
  | inl e ↦ rw e (tail-Subsequence ps)
  | inr e ↦ rw e (Subsequence-self ps)
]

-- What is given and what then waits.
abbrev passed : List Event → List (List ℕ) → List (List ℕ)
passed es ps = (relay es ps).1 ++ nonempties (relay es ps).0

relay-Subsequence :
    (es : List Event) (ps : List (List ℕ)) → Subsequence (passed es ps) (nonempties (ps ++ came es))
relay-Subsequence [] ps = rw (append-nil ps) (Subsequence-self (nonempties ps))
relay-Subsequence (plug_readable attempts packet ∷ es) ps =
    Subsequence-trans
      (nonempties-Subsequence (
        Subsequence-append (with_room-Subsequence ring_size ps)
          (Subsequence-self (packet ∷ came es))))
      (subst (λ l. Subsequence (passed (plug_readable attempts packet ∷ es) ps) (nonempties l))
        (append_assoc (with_room ring_size ps) (packet ∷ []) (came es))
        (relay-Subsequence es (with_room ring_size ps ++ packet ∷ [])))
relay-Subsequence (slirp_writable answer ∷ es) [] = relay-Subsequence es []
relay-Subsequence (slirp_writable answer ∷ es) (p ∷ ps) =
    rw (append_assoc (nonempty p) (relay es ps).1 (nonempties (relay es ps).0))
      (Subsequence-append (Subsequence-self (nonempty p)) (relay-Subsequence es ps))

-- The calls of `es` return, the library is given `given`, and `waiting` is in the ring to it.
pub record Relayed (abi : Abi) (slirp : ℕ) (es : List Event) (j j' : Joined) (given waiting : Given)
    : Type 0 where
  pub returned : on_events abi es j ≡ ok (j', given)
  pub joined : IsJoined j' slirp waiting
  pub other_ring : j'.buffers.slirp2uml_buffers ≡ j.buffers.slirp2uml_buffers

-- The handlers as `main` connects them to the rings.
abbrev pub connected : UmlNetworkSocketPlug → SlirpHandler → Buffers → Joined
connected u h b = record { plug = connect_plug u; handler = connect_slirp h; buffers = b }

module _ (abi : Abi) (u : UmlNetworkSocketPlug) (h : SlirpHandler) (b : Buffers) (slirp : ℕ) where
  connected-IsJoined :
      (ps : List (List ℕ))
      → h.my_slirp ≡ some slirp
      → Carries b.uml2slirp_buffers ps
      → IsJoined (connected u h b) slirp ps
  unfolding connect_plug connect_slirp
  connected-IsJoined ps library carries = record {
    plug_tx = refl;
    plug_rx = refl;
    connected = record { tx_ring = refl; rx_ring = refl; library = library };
    carries = carries;
  }

  relays :
      (es : List Event) (ps : List (List ℕ))
      → AreAnswered abi es
      → h.my_slirp ≡ some slirp
      → Carries b.uml2slirp_buffers ps
      → (j' : Joined) × Relayed abi slirp es (connected u h b) j' (relay es ps).1 (relay es ps).0
  relays es ps answered library carries =
      let (j', returned, joined, other) =
        on_events-relay abi slirp es (connected u h b) ps answered
          (connected-IsJoined ps library carries) in
      (j', record { returned = returned; joined = joined; other_ring = other })

  -- With the handlers connected as `main` connects them and `ps` waiting in the ring to the library,
  -- every sequence of calls of `execute` returns that are each of the plug for a readable descriptor,
  -- where `recvfrom` answers, or of the slirp handler for a writable one. What the library was given, followed by what
  -- still waits, is in the order of `ps` and of the packets that came, with no packet twice (empty
  -- ones left aside); both handlers stay connected and the ring in the other direction is as before.
  pub relays_in_order :
      (es : List Event) (ps : List (List ℕ))
      → AreAnswered abi es
      → h.my_slirp ≡ some slirp
      → Carries b.uml2slirp_buffers ps
      → (j' : Joined) × (given : Given) × (waiting : List (List ℕ)) × Relayed abi slirp es
          (connected u h b)
          j'
          given
          waiting
        × Subsequence (given ++ nonempties waiting) (nonempties (ps ++ came es))
  relays_in_order es ps answered library carries =
      let (j', relayed) = relays es ps answered library carries in
      (j', (relay es ps).1, (relay es ps).0, relayed, relay-Subsequence es ps)
