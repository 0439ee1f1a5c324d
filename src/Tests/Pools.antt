-- ===== src/Tests/Pools.antt =====
-- src/Util/ProducerConsumer.h: a context of two slots, and what its clients see.
use slirp4tinc.Prelude.{ℕ, Option, ◌≡◌, refl, true, false, some, [], ◌∷◌, arith}
use slirp4tinc.Prelude.Run.{ok}
use slirp4tinc.ProducerConsumer.{
  ProducerConsumer, slot, produce, release, consume, cleanup, construct,
}
use slirp4tinc.ProducerConsumer.Pool
use slirp4tinc.ProducerConsumer.Pool.{Pool}
use slirp4tinc.ProducerConsumer.Rep.{Rep, Simulates, Simulates-returns, Agree}
use slirp4tinc.ProducerConsumer.Refine.Construct.{construct-Rep}
use slirp4tinc.ProducerConsumer.Refine.Produce.{produce_refines}
use slirp4tinc.ProducerConsumer.Refine.Release.{release_refines}
use slirp4tinc.ProducerConsumer.Refine.Consume.{consume_refines}
use slirp4tinc.ProducerConsumer.Refine.Cleanup.{cleanup_refines}

abbrev zeros : ℕ → ℕ
zeros i = 0

abbrev new : (s : ProducerConsumer ℕ) × (construct 2 zeros ≡ ok s) × Rep 2 s (Pool.initial 2 zeros)
new = construct-Rep 2 zeros (omega arith) (omega arith)

abbrev new_Rep : Rep 2 new.0 (Pool.initial 2 zeros)
new_Rep = new.2

-- Slot 0 is in production, then released, then in consumption.
abbrev made_pool : Pool ℕ
made_pool = record {
  free = 1 ∷ [];
  released = [];
  producing = 0 ∷ [];
  consuming = [];
  payload = zeros;
}

abbrev released_pool : Pool ℕ
released_pool = record {
  free = 1 ∷ [];
  released = 0 ∷ [];
  producing = [];
  consuming = [];
  payload = zeros;
}

abbrev taken_pool : Pool ℕ
taken_pool = record {
  free = 1 ∷ [];
  released = [];
  producing = [];
  consuming = 0 ∷ [];
  payload = zeros;
}

made_answer : Pool.produce true (Pool.initial 2 zeros) ≡ ok (0, made_pool)
unfolding Pool.produce
made_answer = refl

released_answer : Pool.release (slot 0) made_pool ≡ ok released_pool
unfolding Pool.release
released_answer = refl

taken_answer : Pool.consume true released_pool ≡ ok (some 0, taken_pool)
unfolding Pool.consume
taken_answer = refl

made : (r : ℕ × ProducerConsumer ℕ) × (produce 2 true new.0 ≡ ok r) × Agree 2 r (0, made_pool)
made = Simulates-returns (Agree 2) (produce 2 true new.0) made_answer (produce_refines true new_Rep)

released : (s : ProducerConsumer ℕ) × (release 2 (slot 0) made.0.1 ≡ ok s) × Rep 2 s released_pool
released =
    Simulates-returns (Rep 2) (release 2 (slot 0) made.0.1) released_answer
      (release_refines 0 (omega arith) made.2.1)

taken :
    (r : Option ℕ × ProducerConsumer ℕ) × (consume 2 true released.0 ≡ ok r)
    × Agree 2 r (some 0, taken_pool)
taken =
    Simulates-returns (Agree 2) (consume 2 true released.0) taken_answer
      (consume_refines true released.2)

construct-Rep_example :
    (s : ProducerConsumer ℕ) × (construct 2 zeros ≡ ok s) × Rep 2 s (Pool.initial 2 zeros)
construct-Rep_example = construct-Rep 2 zeros (omega arith) (omega arith)

produce_refines_example :
    Simulates (Agree 2) (produce 2 false released.0) (Pool.produce false released_pool)
produce_refines_example = produce_refines false released.2

release_refines_example :
    Simulates (Rep 2) (release 2 (slot 0) made.0.1) (Pool.release (slot 0) made_pool)
release_refines_example = release_refines 0 (omega arith) made.2.1

consume_refines_example :
    Simulates (Agree 2) (consume 2 false released.0) (Pool.consume false released_pool)
consume_refines_example = consume_refines false released.2

cleanup_refines_example :
    Simulates
      (Rep 2)
      (cleanup 2 (some (slot 0)) taken.0.1)
      (Pool.cleanup (some (slot 0)) taken_pool)
cleanup_refines_example = cleanup_refines 0 (omega arith) taken.2.1
