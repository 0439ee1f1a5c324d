-- ===== src/ProducerConsumer/Session/Tests.antt =====
-- A session with a context of two slots.
use slirp4tinc.Prelude.{ℕ, refl, false, List, [], ◌∷◌, arith}
use slirp4tinc.ProducerConsumer.{construct, produce, release, consume, cleanup}
use slirp4tinc.ProducerConsumer.Session.{
  Op, produce_op, write_op, release_op, consume_op, cleanup_op, run,
}
use slirp4tinc.ProducerConsumer.Session.Subsequence.{Subsequence}
use slirp4tinc.ProducerConsumer.Session.Fifo.{received-Subsequence}

abbrev zeros : ℕ → ℕ
zeros i = 0

-- Three payloads go into two slots, so that the first one is dropped.
abbrev calls : List (Op ℕ)
calls =
    produce_op false
    ∷ write_op 0 7
    ∷ release_op 0
    ∷ produce_op false
    ∷ write_op 1 8
    ∷ release_op 1
    ∷ produce_op false
    ∷ write_op 0 9
    ∷ release_op 0
    ∷ consume_op false
    ∷ cleanup_op 1
    ∷ []

received-Subsequence_example : Subsequence {A = ℕ} (8 ∷ []) (7 ∷ 8 ∷ 9 ∷ [])
unfolding construct run produce release consume cleanup
received-Subsequence_example =
    received-Subsequence 2 zeros _ calls _ (omega arith) (omega arith) refl refl
