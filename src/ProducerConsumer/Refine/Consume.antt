-- ===== src/ProducerConsumer/Refine/Consume.antt =====
-- `consume`, `slotsAvailable` and `itemsAvailable`
use slirp4tinc.Prelude.{
  ℕ, suc, ◌≡◌, refl, Bool, true, false, none, some, List, ◌∷◌, [], arith, ◌==◌, if◌then◌else◌,
  length, get_elem?, set, count, List-cases, inl, inr,
}
use slirp4tinc.Prelude.Run.{ok, blocked}
use slirp4tinc.ProducerConsumer.{
  ProducerConsumer, Item, consume, slots_available, items_available, advance, decrement,
}
use slirp4tinc.ProducerConsumer.Pool
use slirp4tinc.ProducerConsumer.Pool.{Pool}
use slirp4tinc.ProducerConsumer.Ring.{IsRing, IsRing-pop, front}
use slirp4tinc.ProducerConsumer.Rep.{
  Rep, Simulates, Agree, item_of, HoldsItems-set, released-in_range,
}

module _ {T : Type 0} where
  -- The pool after the oldest released slot `x` went into consumption.
  abbrev pub consumed_pool : Pool T → ℕ → List ℕ → Pool T
  consumed_pool p x xs = record p { released = xs; consuming = x ∷ p.consuming }

  abbrev pub consumed : ℕ → ProducerConsumer T → ℕ → ℕ → Item T → ProducerConsumer T
  consumed n s x left it = record s {
    item_buffer = set s.item_buffer x it;
    released_buffer = set s.released_buffer s.next_consume none;
    next_consume = advance n s.next_consume;
    num_released_items = decrement s.num_released_items;
    mutex = 1;
    item = left;
  }

  module _ {n : ℕ} {s : ProducerConsumer T} {p : Pool T} (r : Rep n s p) where
    consume_waits : p.released ≡ [] → consume n true s ≡ blocked
    unfolding consume
    consume_waits e = ground (arith, r.counts.mutex, r.counts.item)

    pub consume_nothing : p.released ≡ [] → consume n false s ≡ ok (none, s)
    unfolding consume
    consume_nothing e = ground (arith, r.counts.mutex, r.counts.released)

    module _ (x : ℕ) (xs : List ℕ) (e : p.released ≡ x ∷ xs) where
      pub item_x : get_elem? s.item_buffer x ≡ some (item_of p x)
      item_x = r.items.each x (released-in_range r.partition e)

      pub released_once :
          (count x p.free ≡ 0)
          × (count x p.producing ≡ 0)
          × (count x p.consuming ≡ 0)
          × (count x xs ≡ 0)
      released_once = ground (arith, r.partition.once x)

      item_value : s.item ≡ suc (length xs)
      item_value = ground (arith, r.counts.item)

      some_released : (0 == s.num_released_items) ≡ false
      some_released = ground (arith, r.counts.released)

      pub released_front : IsRing n s.released_buffer s.next_consume s.next_release (x ∷ xs)
      released_front = rw e at r.released_ring

      consume_oldest :
          (block : Bool)
          → consume n block s
            ≡ ok (some x, consumed n s x (length xs) (item_of (consumed_pool p x xs) x))
      unfolding consume
      consume_oldest block = ground (
        arith,
        r.counts.mutex,
        item_value,
        some_released,
        front r.small released_front,
        item_x,
        released_once,
      )

      pub consumed-Rep :
          Rep n
            (consumed n s x (length xs) (item_of (consumed_pool p x xs) x))
            (consumed_pool p x xs)
      consumed-Rep = record {
        small = r.small;
        partition = record {
          once = λ i. ground (arith, r.partition.once i);
          total = ground (arith, r.partition.total);
        };
        items =
            HoldsItems-set (consumed_pool p x xs) x (released-in_range r.partition e)
              (λ i ne. ground (arith, ne)) r.items;
        free_ring = r.free_ring;
        released_ring = IsRing-pop r.small released_front;
        counts = ground (
          arith, r.counts.produced, r.counts.mutex, r.counts.released, r.counts.free, r.counts.item,
          r.small, r.partition.total,
        );
      }

  pool_nothing :
      (p : Pool T) (block : Bool)
      → p.released ≡ []
      → Pool.consume block p ≡ (if block then blocked else ok (none, p))
  unfolding Pool.consume
  pool_nothing p block e = ground arith

  pub pool_oldest :
      (p : Pool T) (block : Bool) (x : ℕ) (xs : List ℕ)
      → p.released ≡ x ∷ xs
      → Pool.consume block p ≡ ok (some x, consumed_pool p x xs)
  unfolding Pool.consume
  pool_oldest p block x xs e = ground arith

  -- `consume` of a context that represents a pool returns the slot that was released first; with
  -- none released it waits, or returns null if it may not block.
  pub consume_refines :
      {n : ℕ} {s : ProducerConsumer T} {p : Pool T} (block : Bool)
      → Rep n s p
      → Simulates (Agree n) (consume n block s) (Pool.consume block p)
  consume_refines {n} {s} {p} block r = elim (List-cases p.released) [
    | inl e ↦ nothing block e
    | inr (x, xs, e) ↦
        rw (consume_oldest r x xs e block, pool_oldest p block x xs e) (refl, consumed-Rep r x xs e)
  ]
    where
      nothing :
          (b : Bool) → p.released ≡ [] → Simulates (Agree n) (consume n b s) (Pool.consume b p)
      nothing true e = rw (consume_waits r e, pool_nothing p true e) tt
      nothing false e = rw (consume_nothing r e, pool_nothing p false e) (refl, r)

  -- `slotsAvailable` and `itemsAvailable` of a context that represents a pool return how many slots
  -- are free and how many are released, and change nothing.
  pub available_lem :
      {n : ℕ} {s : ProducerConsumer T} {p : Pool T}
      → Rep n s p
      → (slots_available n s ≡ ok (length p.free, s))
        × (items_available s ≡ ok (length p.released, s))
  unfolding slots_available items_available
  available_lem r = (
    ground (arith, r.counts.mutex, r.counts.produced, r.small),
    ground (arith, r.counts.mutex, r.counts.released),
  )
