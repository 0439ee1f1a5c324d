-- ===== src/ProducerConsumer/Refine/Produce.antt =====
-- `produce`
use slirp4tinc.Prelude.{
  ℕ, suc, ◌≡◌, refl, ap, Bool, true, false, List-cases, inl, inr, none, some, List, ◌∷◌, [], ◌++◌,
  arith, ◌==◌, length, get_elem?, set, count, has,
}
use slirp4tinc.Prelude.Run.{ok, blocked}
use slirp4tinc.ProducerConsumer.{ProducerConsumer, Item, produce, advance, increment, decrement}
use slirp4tinc.ProducerConsumer.Pool
use slirp4tinc.ProducerConsumer.Pool.{Pool}
use slirp4tinc.ProducerConsumer.Ring.{IsRing, IsRing-pop, IsRing-push, front}
use slirp4tinc.ProducerConsumer.Rep.{
  Rep, Simulates, Agree, item_of, HoldsItems-set, free-in_range, released-in_range,
}

module _ {T : Type 0} where
  -- The pool after the oldest free slot `f` went into production.
  abbrev pub taken_pool : Pool T → ℕ → List ℕ → Pool T
  taken_pool p f fs = record p { free = fs; producing = f ∷ p.producing }

  abbrev pub taken : ℕ → ProducerConsumer T → ℕ → ℕ → Item T → ProducerConsumer T
  taken n s f left it = record s {
    free = left;
    mutex = 1;
    free_buffer = set s.free_buffer s.next_add none;
    item_buffer = set s.item_buffer f it;
    next_add = advance n s.next_add;
    num_produced_items = increment s.num_produced_items;
  }

  module _ {n : ℕ} {s : ProducerConsumer T} {p : Pool T} (f : ℕ) (fs : List ℕ) (e : p.free ≡ f ∷ fs)
      (r : Rep n s p) where
    pub item_f : get_elem? s.item_buffer f ≡ some (item_of p f)
    item_f = r.items.each f (free-in_range r.partition e)

    pub not_producing :
        (has f p.producing ≡ false)
        × (has f p.consuming ≡ false)
        × (has f p.free ≡ true)
        × (count f fs ≡ 0)
    not_producing = ground (arith, r.partition.once f)

    pub ring : IsRing n s.free_buffer s.next_add s.next_removed (f ∷ fs)
    ring = rw e at r.free_ring

    free_value : s.free ≡ suc (length fs)
    free_value = ground (arith, r.counts.free)

    some_room : (n == s.num_produced_items) ≡ false
    some_room = ground (arith, r.counts.produced)

    -- With a free slot the call returns it, whether or not it may block.
    produce_room :
        (block : Bool)
        → produce n block s ≡ ok (f, taken n s f (length fs) (item_of (taken_pool p f fs) f))
    unfolding produce
    produce_room block =
        ground
          (arith, r.counts.mutex, free_value, some_room, front r.small ring, item_f, not_producing)

    pub taken-Rep :
        Rep n (taken n s f (length fs) (item_of (taken_pool p f fs) f)) (taken_pool p f fs)
    taken-Rep = record {
      small = r.small;
      partition = record {
        once = λ i. ground (arith, r.partition.once i);
        total = ground (arith, r.partition.total);
      };
      items =
          HoldsItems-set (taken_pool p f fs) f (free-in_range r.partition e)
            (λ i ne. ground (arith, ne)) r.items;
      free_ring = IsRing-pop r.small ring;
      released_ring = r.released_ring;
      counts = ground (
        arith, r.counts.produced, r.counts.mutex, r.counts.released, r.counts.free, r.counts.item,
        r.small, r.partition.total,
      );
    }

  -- The pool after the oldest released slot `x` was freed.
  abbrev pub evicted_pool : Pool T → ℕ → List ℕ → Pool T
  evicted_pool p x xs = record p { free = p.free ++ x ∷ []; released = xs }

  abbrev pub evicted : ℕ → ProducerConsumer T → ℕ → ℕ → Item T → ProducerConsumer T
  evicted n s x left it = record s {
    item_buffer = set s.item_buffer x it;
    free_buffer = set s.free_buffer s.next_removed (some x);
    released_buffer = set s.released_buffer s.next_consume none;
    next_consume = advance n s.next_consume;
    next_removed = advance n s.next_removed;
    num_produced_items = decrement s.num_produced_items;
    num_released_items = decrement s.num_released_items;
    free = 1;
    item = left;
    mutex = 1;
  }

  module _ {n : ℕ} {s : ProducerConsumer T} {p : Pool T} (full : p.free ≡ []) (r : Rep n s p) where
    no_room : (n == s.num_produced_items) ≡ true
    no_room = ground (arith, r.counts.produced)

    free_zero : s.free ≡ 0
    free_zero = ground (arith, r.counts.free)

    -- With no free slot a blocking call waits.
    produce_waits : produce n true s ≡ blocked
    unfolding produce
    produce_waits = ground (arith, r.counts.mutex, free_zero)

    -- With no free and no released slot the other call waits too.
    produce_waits_released : p.released ≡ [] → produce n false s ≡ blocked
    unfolding produce
    produce_waits_released none_released =
        ground (arith, r.counts.mutex, r.counts.item, no_room, none_released)

    module _ (x : ℕ) (xs : List ℕ) (e : p.released ≡ x ∷ xs) where
      pub item_x : get_elem? s.item_buffer x ≡ some (item_of p x)
      item_x = r.items.each x (released-in_range r.partition e)

      pub not_held : (has x p.producing ≡ false) × (has x p.consuming ≡ false) × (count x xs ≡ 0)
      not_held = ground (arith, r.partition.once x)

      item_value : s.item ≡ suc (length xs)
      item_value = ground (arith, r.counts.item)

      pub released_front : IsRing n s.released_buffer s.next_consume s.next_release (x ∷ xs)
      released_front = rw e at r.released_ring

      -- A call that may not block takes the oldest released slot back first.
      produce_evicts :
          produce n false s
          ≡ produce n true (evicted n s x (length xs) (item_of (evicted_pool p x xs) x))
      unfolding produce
      produce_evicts = ground (
        arith,
        r.counts.mutex,
        free_zero,
        no_room,
        item_value,
        front r.small released_front,
        item_x,
        not_held,
      )

      pub evicted-Rep :
          Rep n (evicted n s x (length xs) (item_of (evicted_pool p x xs) x)) (evicted_pool p x xs)
      evicted-Rep = record {
        small = r.small;
        partition = record {
          once = λ i. ground (arith, r.partition.once i);
          total = ground (arith, r.partition.total);
        };
        items =
            HoldsItems-set (evicted_pool p x xs) x (released-in_range r.partition e)
              (λ i ne. ground (arith, ne)) r.items;
        free_ring = IsRing-push r.small r.free_ring x (ground (arith, r.free_ring.head_in));
        released_ring = IsRing-pop r.small released_front;
        counts = ground (
          arith, r.counts.produced, r.counts.mutex, r.counts.released, r.counts.free, r.counts.item,
          r.small, r.partition.total,
        );
      }

  pool_room :
      (p : Pool T) (f : ℕ) (fs : List ℕ) (block : Bool)
      → p.free ≡ f ∷ fs
      → Pool.produce block p ≡ ok (f, taken_pool p f fs)
  unfolding Pool.produce
  pool_room p f fs block e = ground arith

  pool_waits : (p : Pool T) → p.free ≡ [] → Pool.produce true p ≡ blocked
  unfolding Pool.produce
  pool_waits p e = ground arith

  pool_waits_released :
      (p : Pool T) → p.free ≡ [] → p.released ≡ [] → Pool.produce false p ≡ blocked
  unfolding Pool.produce
  pool_waits_released p e d = ground arith

  pool_evicts :
      (p : Pool T) (x : ℕ) (xs : List ℕ)
      → p.free ≡ []
      → p.released ≡ x ∷ xs
      → Pool.produce false p ≡ Pool.produce true (evicted_pool p x xs)
  unfolding Pool.produce
  pool_evicts p x xs e d = ground arith

  room_refines :
      {n : ℕ} {s : ProducerConsumer T} {p : Pool T} (f : ℕ) (fs : List ℕ) (block : Bool)
      → p.free ≡ f ∷ fs
      → Rep n s p
      → Simulates (Agree n) (produce n block s) (Pool.produce block p)
  room_refines {p} f fs block e r =
      rw (produce_room f fs e r block, pool_room p f fs block e) (refl, taken-Rep f fs e r)

  full_refines :
      {n : ℕ} {s : ProducerConsumer T} {p : Pool T} (block : Bool)
      → p.free ≡ []
      → Rep n s p
      → Simulates (Agree n) (produce n block s) (Pool.produce block p)
  full_refines {p} true full r = rw (produce_waits full r, pool_waits p full) tt
  full_refines {n} {s} {p} false full r = elim (List-cases p.released) [
    | inl e ↦ rw (produce_waits_released full r e, pool_waits_released p full e) tt
    | inr (x, xs, e) ↦
        rw (produce_evicts full r x xs e, pool_evicts p x xs full e)
          (room_refines x [] true (ap (λ l. l ++ x ∷ []) full) (evicted-Rep full r x xs e))
  ]

  -- `produce` of a context that represents a pool returns, waits and changes the slots as the
  -- pool's `produce` does: it hands out the slot that has been free longest, and with none free a
  -- call that may not block takes the oldest released slot back for itself.
  pub produce_refines :
      {n : ℕ} {s : ProducerConsumer T} {p : Pool T} (block : Bool)
      → Rep n s p
      → Simulates (Agree n) (produce n block s) (Pool.produce block p)
  produce_refines {p} block r = elim (List-cases p.free) [
    | inl e ↦ full_refines block e r
    | inr (f, fs, e) ↦ room_refines f fs block e r
  ]
