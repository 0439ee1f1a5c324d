-- ===== src/Tests/Relay.antt =====
-- src/SlirpHandler.cpp and src/umlplug/UmlNetworkSocketPlug.cpp: packets that pass between calls of
-- both handlers.
use slirp4tinc.Prelude.{ℕ, refl, List, [], ◌∷◌, ◌++◌}
use slirp4tinc.Prelude.Int.{pos}
use slirp4tinc.ProducerConsumer.Session.Subsequence.{Subsequence}
use slirp4tinc.Daemon.Os.{done}
use slirp4tinc.Bridge.Relay.{Event, plug_readable, slirp_writable, Joined, Given, AreAnswered}
use slirp4tinc.Bridge.Order
use slirp4tinc.Bridge.Order.{nonempties, Relayed, connected, relays_in_order}
use slirp4tinc.Main.{Program, Round}
use slirp4tinc.Main.Flow.{came}
use slirp4tinc.Tests.Abis.{linux, received_two, received_two_lem}
use slirp4tinc.Tests.Handlers.{new, new_buffers, empty_Carries, plug, handler, loaded, running}

-- Two packets come, and then the library can be written; a third one comes.
abbrev events : List Event
events =
    plug_readable received_two (1 ∷ 2 ∷ [])
    ∷ plug_readable received_two (1 ∷ 2 ∷ [])
    ∷ slirp_writable (done [])
    ∷ plug_readable received_two (1 ∷ 2 ∷ [])
    ∷ []

events-AreAnswered : AreAnswered linux events
events-AreAnswered = (
  (pos 2, 0, received_two_lem),
  ((pos 2, 0, received_two_lem), ((pos 2, 0, received_two_lem), tt)),
)

relays_in_order_example :
    (j' : Joined) × (given : Given) × (waiting : List (List ℕ)) × Relayed linux 9 events
      (connected plug handler new_buffers)
      j'
      given
      waiting
    × Subsequence (given ++ nonempties waiting) (nonempties (Order.came events))
relays_in_order_example =
    relays_in_order linux plug handler new_buffers 9 events [] events-AreAnswered refl empty_Carries

-- `pselect` finds descriptor 4 readable, and then 9 writable too.
abbrev plug_ready : Round
plug_ready = record {
  read_attempts = received_two;
  write_attempts = [];
  library = done [];
  pselect = λ n read_set write_set. done (1, 4 ∷ [], []);
}

abbrev both_ready : Round
both_ready = record {
  read_attempts = received_two;
  write_attempts = [];
  library = done [];
  pselect = λ n read_set write_set. done (2, 4 ∷ [], 9 ∷ []);
}

-- The program with a packet of two bytes on its way to the library.
abbrev loaded_program : Program
loaded_program = record running {
  buffers = record { uml2slirp_buffers = loaded.0; slirp2uml_buffers = new.0 };
}
