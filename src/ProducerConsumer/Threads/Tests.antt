-- ===== src/ProducerConsumer/Threads/Tests.antt =====
-- src/Util/ProducerConsumer.h: two threads on a context of two items.
use slirp4tinc.Prelude.{
  ℕ, ◌≡◌, refl, get_elem?, Bool, true, false, none, some, ◌∷◌, [], ◌++◌, List, length, arith,
}
use slirp4tinc.Prelude.Run.{ok, blocked, Safe, Returns}
use slirp4tinc.ProducerConsumer.{ProducerConsumer, Item, slot, construct, fresh_item, produce}
use slirp4tinc.ProducerConsumer.Threads.{
  outside, free_acquire, take_section, item_acquire, consume_section, begin, proceed, consume_call,
  produce_call, begins, proceeds, writes, release_call, item_release, release_lock, Reachable,
  starts, steps, AreOrderly,
}
use slirp4tinc.ProducerConsumer.Threads.Invariant.{IsConsistent}
use slirp4tinc.ProducerConsumer.Threads.Runs.{
  Reachable-IsConsistent, Reachable-Safe, Reachable-waits,
}
use slirp4tinc.ProducerConsumer.Session.Subsequence.{Subsequence}
use slirp4tinc.ProducerConsumer.Threads.Log.{received, values, released_in, log_of}
use slirp4tinc.ProducerConsumer.Threads.Fifo.{receptions, released_order}
use slirp4tinc.ProducerConsumer.Threads.Races.{consume_races, release_races}

abbrev numbers : ℕ → ℕ
numbers i = i

abbrev start : ProducerConsumer ℕ
start = record {
  item_buffer = fresh_item numbers 0 ∷ fresh_item numbers 1 ∷ [];
  free_buffer = some 0 ∷ some 1 ∷ [];
  released_buffer = none ∷ none ∷ [];
  num_produced_items = 0;
  num_released_items = 0;
  free = 2;
  item = 0;
  mutex = 1;
  next_add = 0;
  next_release = 0;
  next_consume = 0;
  next_removed = 0;
}

start-eq : construct 2 numbers ≡ ok start
unfolding construct
start-eq = refl

abbrev one_taken : ProducerConsumer ℕ
one_taken = record start { free = 1 }

-- Both threads enter `produce`, and the first one takes the semaphore.
reached : Reachable 2 start (take_section ∷ free_acquire ∷ [], one_taken)
unfolding begin proceed
reached =
    steps
      (steps
        (steps (starts 2)
          (begins [] (outside none ∷ []) none (produce_call true) free_acquire start start refl))
        (begins (free_acquire ∷ []) [] none (produce_call false) free_acquire start start refl))
      (proceeds [] (free_acquire ∷ []) free_acquire take_section start one_taken refl)

reached-AreOrderly : AreOrderly reached
unfolding AreOrderly reached
reached-AreOrderly = (((tt, tt), tt), tt)

-- One thread waits for a released item.
waiting : Reachable 2 start (item_acquire ∷ [], start)
unfolding begin
waiting = steps (starts 1) (begins [] [] none (consume_call true) item_acquire start start refl)

waiting-AreOrderly : AreOrderly waiting
unfolding AreOrderly waiting
waiting-AreOrderly = (tt, tt)

Reachable-IsConsistent_example : IsConsistent 2 (take_section ∷ free_acquire ∷ []) one_taken
Reachable-IsConsistent_example =
    Reachable-IsConsistent 2 numbers start (omega arith) (omega arith) start-eq
      (take_section ∷ free_acquire ∷ []) one_taken reached reached-AreOrderly

Reachable-Safe_example :
    Safe (λ after. Unit) (proceed 2 take_section one_taken)
    × ((block : Bool) → Returns (λ after. Unit) (begin 2 (produce_call block) one_taken))
    × ((block : Bool) → Returns (λ after. Unit) (begin 2 (consume_call block) one_taken))
Reachable-Safe_example =
    Reachable-Safe 2 numbers start (omega arith) (omega arith) start-eq [] (free_acquire ∷ [])
      take_section one_taken reached reached-AreOrderly

Reachable-waits_example :
    (proceed 2 free_acquire start ≡ blocked → start.num_produced_items ≡ 2)
    × (proceed 2 item_acquire start ≡ blocked → start.num_released_items ≡ 0)
Reachable-waits_example =
    Reachable-waits 2 numbers start (omega arith) (omega arith) start-eq (item_acquire ∷ []) start
      waiting waiting-AreOrderly (refl, refl, tt)

-- One item has been released.
abbrev one_released : ProducerConsumer ℕ
one_released = record start { num_produced_items = 1; num_released_items = 1; free = 1; item = 1 }

consume_races_example :
    (t : ProducerConsumer ℕ) × (begin 2 (consume_call false) one_released
      ≡ ok (item_acquire, one_released))
    × (proceed 2 item_acquire one_released ≡ ok (consume_section, t))
    × (proceed 2 item_acquire t ≡ blocked)
consume_races_example = consume_races 2 one_released refl refl refl

-- Both items have been released, so that `produce` takes the oldest one back.
abbrev all_released : ProducerConsumer ℕ
all_released = record start {
  item_buffer = taken 0 ∷ taken 1 ∷ [];
  free_buffer = none ∷ none ∷ [];
  released_buffer = some 0 ∷ some 1 ∷ [];
  num_produced_items = 2;
  num_released_items = 2;
  free = 0;
  item = 2;
}
  where
    taken : ℕ → Item ℕ
    taken i = record (fresh_item numbers i) { in_use = true }

evicts :
    Returns
      (λ r. (r.0 ≡ 0) × (r.1.item ≡ 1) × (r.1.num_produced_items ≡ 2))
      (produce 2 false all_released)
unfolding produce
evicts = (refl, refl, refl)

-- Behind the calls of one thread that produces an item, writes 7 to it, releases and consumes it.
abbrev received_one : ProducerConsumer ℕ
received_one = record start {
  item_buffer =
      record { payload = 7; in_production = false; in_consumption = true; in_use = true }
      ∷ fresh_item numbers 1
      ∷ [];
  free_buffer = none ∷ some 1 ∷ [];
  num_produced_items = 1;
  free = 1;
  next_add = 1;
  next_release = 1;
  next_consume = 1;
}

produced : (s : ProducerConsumer ℕ) × Reachable 2 start (outside (some 0) ∷ [], s)
unfolding begin proceed
produced = (
  _,
  steps
      (steps
        (steps (starts 1) (begins [] [] none (produce_call true) free_acquire start start refl))
        (proceeds [] [] free_acquire take_section start _ refl))
      (proceeds [] [] take_section (outside (some 0)) _ _ refl),
)

-- The thread has written 7 to the item, and stands before the section of `release`.
released : (s : ProducerConsumer ℕ) × Reachable 2 start (release_lock 0 ∷ [], s)
unfolding begin proceed produced
released = (
  _,
  steps (steps produced.1 (writes (outside (some 0) ∷ []) 0 _ 7 _ refl refl))
      (begins [] [] (some 0) (release_call (slot 0)) (release_lock 0) _ _ refl),
)

one_run : Reachable 2 start (outside (some 0) ∷ [], received_one)
unfolding begin proceed produced released
one_run =
    steps
      (steps
        (steps
          (steps (steps released.1 (proceeds [] [] (release_lock 0) item_release _ _ refl))
            (proceeds [] [] item_release (outside none) _ _ refl))
          (begins [] [] none (consume_call true) item_acquire _ _ refl))
        (proceeds [] [] item_acquire consume_section _ _ refl))
      (proceeds [] [] consume_section (outside (some 0)) _ _ refl)

one_run-AreOrderly : AreOrderly one_run
unfolding AreOrderly one_run released produced
one_run-AreOrderly = ((((((((((tt, tt), tt), tt), tt), refl), tt), tt), tt), tt), tt)

one_run_log : (released_in one_run ≡ 7 ∷ []) × (log_of one_run ≡ received 7 ∷ [])
unfolding released_in log_of one_run released produced
one_run_log = (refl, refl)

released_order_example :
    (queue : List ℕ) × (released_in one_run ≡ values (log_of one_run) ++ queue)
    × (length queue ≡ 0)
    × Subsequence {A = ℕ} (receptions (log_of one_run)) (released_in one_run)
released_order_example =
    released_order 2 numbers start (omega arith) (omega arith) start-eq (outside (some 0) ∷ [])
      received_one one_run one_run-AreOrderly

-- The first item is in production.
abbrev one_produced : ProducerConsumer ℕ
one_produced = record start {
  item_buffer =
      record { payload = 0; in_production = true; in_consumption = false; in_use = true }
      ∷ fresh_item numbers 1
      ∷ [];
  free_buffer = none ∷ some 1 ∷ [];
  num_produced_items = 1;
  free = 1;
  next_add = 1;
}

release_races_example :
    (t t' : ProducerConsumer ℕ) × (begin 2 (release_call (slot 0)) one_produced
      ≡ ok (release_lock 0, one_produced))
    × (proceed 2 (release_lock 0) one_produced ≡ ok (item_release, t))
    × (proceed 2 (release_lock 0) t ≡ ok (item_release, t'))
    × (get_elem? t'.released_buffer 0 ≡ some (some 0))
    × (get_elem? t'.released_buffer 1 ≡ some (some 0))
    × (t'.num_released_items ≡ 2)
release_races_example =
    release_races 2 one_produced refl 0 _ refl refl refl (omega arith) (omega arith) (omega arith)
      refl (omega arith) (omega arith)
