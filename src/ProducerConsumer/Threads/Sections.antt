-- ===== src/ProducerConsumer/Threads/Sections.antt =====
-- What the sections do to a context that represents a pool, whatever the semaphores stand at.
use slirp4tinc.Prelude.{
  ℕ, suc, ◌≡◌, ◌<◌, ◌+◌, refl, true, false, none, some, List, ◌∷◌, [], arith, length, has, set,
  get_elem?, count, count-remove, count-append, length-append, Bool-cases, ltb, ltb→lt, inl, inr,
  get_elem?_beyond,
}
use slirp4tinc.Prelude.Run.{Run, ok, assert_failed, Ends}
use slirp4tinc.ProducerConsumer.{ProducerConsumer, slot, advance, increment, decrement}
use slirp4tinc.ProducerConsumer.Pool.{Pool}
use slirp4tinc.ProducerConsumer.Ring.{front, IsRing, IsRing-push, IsRing-pop}
use slirp4tinc.ProducerConsumer.Rep.{Rep, item_of, HoldsItems-set, released-in_range}
use slirp4tinc.ProducerConsumer.Refine.Produce
use slirp4tinc.ProducerConsumer.Refine.Consume
use slirp4tinc.ProducerConsumer.Refine.Release
use slirp4tinc.ProducerConsumer.Refine.Cleanup
use slirp4tinc.ProducerConsumer.Threads.{
  Point, outside, take_section, evict_section, free_acquire, proceed, consume_section, item_release,
  free_release, release_lock, cleanup_lock, begin, release_call, cleanup_call,
}

module _ {T : Type 0} where
  -- The context with its semaphores at the numbers of free and of released slots.
  abbrev pub settled : ProducerConsumer T → Pool T → ProducerConsumer T
  settled s p = record s { free = length p.free; item = length p.released; mutex = 1 }

  pub Rep-settled :
      {n : ℕ} {s : ProducerConsumer T} {p : Pool T} → Rep n s p → Rep n (settled s p) p
  Rep-settled r = record {
    small = r.small;
    partition = r.partition;
    items = r.items;
    free_ring = r.free_ring;
    released_ring = r.released_ring;
    counts = record {
      produced = r.counts.produced;
      released = r.counts.released;
      free = refl;
      item = refl;
      mutex = refl;
    };
  }

  -- A section that posts the semaphore of the free slots `freed` times, and leads to a context that represents the pool `p`.
  abbrev pub Leads :
      ℕ → ProducerConsumer T → ℕ → Point → Pool T → Run (Point × ProducerConsumer T) → Type 0
  Leads n s freed after p r =
      (s' : ProducerConsumer T) × (r ≡ ok (after, s'))
      × (s'.free ≡ s.free + freed)
      × (s'.item ≡ s.item)
      × (s'.mutex ≡ 1)
      × Rep n (settled s' p) p

  module _ {n : ℕ} (s : ProducerConsumer T) {p : Pool T} (r : Rep n (settled s p) p)
      (unlocked : s.mutex ≡ 1) where
    pub take_section_lem :
        (f : ℕ) (fs : List ℕ)
        → p.free ≡ f ∷ fs
        → Leads n s 0 (outside (some f)) (Produce.taken_pool p f fs) (proceed n take_section s)
    unfolding proceed
    take_section_lem f fs e = (
      record s {
        mutex = 1;
        free_buffer = set s.free_buffer s.next_add none;
        item_buffer = set s.item_buffer f (item_of (Produce.taken_pool p f fs) f);
        next_add = advance n s.next_add;
        num_produced_items = increment s.num_produced_items;
      },
      ground (
        arith,
        unlocked,
        front r.small (Produce.ring f fs e r),
        Produce.item_f f fs e r,
        Produce.not_producing f fs e r,
      ),
      omega arith,
      refl,
      refl,
      Produce.taken-Rep f fs e r,
    )

    pub consume_section_lem :
        (x : ℕ) (xs : List ℕ)
        → p.released ≡ x ∷ xs
        → Leads n s 0
            (outside (some x))
            (Consume.consumed_pool p x xs)
            (proceed n consume_section s)
    unfolding proceed
    consume_section_lem x xs e = (
      record s {
        mutex = 1;
        item_buffer = set s.item_buffer x (item_of (Consume.consumed_pool p x xs) x);
        released_buffer = set s.released_buffer s.next_consume none;
        next_consume = advance n s.next_consume;
        num_released_items = decrement s.num_released_items;
      },
      ground (
        arith,
        unlocked,
        front r.small (Consume.released_front r x xs e),
        Consume.item_x r x xs e,
        Consume.released_once r x xs e,
      ),
      omega arith,
      refl,
      refl,
      Consume.consumed-Rep r x xs e,
    )

    pub release_section_lem :
        (x : ℕ)
        → has x p.producing ≡ true
        → Leads n s 0 item_release (Release.released_pool p x) (proceed n (release_lock x) s)
    unfolding proceed
    release_section_lem x e = (
      record s {
        mutex = 1;
        item_buffer = set s.item_buffer x (item_of (Release.released_pool p x) x);
        released_buffer = set s.released_buffer s.next_release (some x);
        next_release = advance n s.next_release;
        num_released_items = increment s.num_released_items;
      },
      ground (
        arith,
        r.items.each x (Release.held x r e),
        unlocked,
        Release.produced_once x r e,
        count-remove x x p.producing,
      ),
      omega arith,
      refl,
      refl,
      Rep-settled (Release.released-Rep x r e),
    )

    pub cleanup_section_lem :
        (x : ℕ)
        → has x p.consuming ≡ true
        → Leads n s 0 free_release (Cleanup.cleaned_pool p x) (proceed n (cleanup_lock x) s)
    unfolding proceed
    cleanup_section_lem x e = (
      record s {
        mutex = 1;
        item_buffer = set s.item_buffer x (item_of (Cleanup.cleaned_pool p x) x);
        free_buffer = set s.free_buffer s.next_removed (some x);
        next_removed = advance n s.next_removed;
        num_produced_items = decrement s.num_produced_items;
      },
      ground (
        arith,
        r.items.each x (Cleanup.held x r e),
        unlocked,
        Cleanup.consumed_once x r e,
        count-remove x x p.consuming,
        count-append x p.free (x ∷ []),
      ),
      omega arith,
      refl,
      refl,
      Rep-settled (Cleanup.cleaned-Rep x r e),
    )

    -- The asserts hold of a slot in that place, and fail for every other slot.
    pub release_checks_held :
        (x : ℕ)
        → has x p.producing ≡ true
        → begin n (release_call (slot x)) s ≡ ok (release_lock x, s)
    unfolding begin
    release_checks_held x e =
        ground (arith, r.items.each x (Release.held x r e), Release.produced_once x r e)

    release_checks_fail :
        (x : ℕ)
        → x < n
        → has x p.producing ≡ false
        → begin n (release_call (slot x)) s ≡ assert_failed
    unfolding begin
    release_checks_fail x less e = ground (arith, r.items.each x less)

    pub release_checks_wrong :
        (Q : Point × ProducerConsumer T → Type 0) (x : ℕ)
        → has x p.producing ≡ false
        → Ends Q (begin n (release_call (slot x)) s)
    unfolding begin
    release_checks_wrong Q x e = elim (Bool-cases (ltb x n)) [
      | inl less ↦ rw (release_checks_fail x (ltb→lt x n less) e) tt
      | inr more ↦ rw (get_elem?_beyond s.item_buffer x (ground (arith, more, r.items.size))) tt
    ]

    -- The asserts hold of a slot in that place, and fail for every other slot.
    pub cleanup_checks_held :
        (x : ℕ)
        → has x p.consuming ≡ true
        → begin n (cleanup_call (some (slot x))) s ≡ ok (cleanup_lock x, s)
    unfolding begin
    cleanup_checks_held x e =
        ground (arith, r.items.each x (Cleanup.held x r e), Cleanup.consumed_once x r e)

    cleanup_checks_fail :
        (x : ℕ)
        → x < n
        → has x p.consuming ≡ false
        → begin n (cleanup_call (some (slot x))) s ≡ assert_failed
    unfolding begin
    cleanup_checks_fail x less e = ground (arith, r.items.each x less)

    pub cleanup_checks_wrong :
        (Q : Point × ProducerConsumer T → Type 0) (x : ℕ)
        → has x p.consuming ≡ false
        → Ends Q (begin n (cleanup_call (some (slot x))) s)
    unfolding begin
    cleanup_checks_wrong Q x e = elim (Bool-cases (ltb x n)) [
      | inl less ↦ rw (cleanup_checks_fail x (ltb→lt x n less) e) tt
      | inr more ↦ rw (get_elem?_beyond s.item_buffer x (ground (arith, more, r.items.size))) tt
    ]

    module _ (x : ℕ) (xs : List ℕ) (e : p.released ≡ x ∷ xs) where
      once :
          (has x p.producing ≡ false)
          × (has x p.consuming ≡ false)
          × (count x p.free ≡ 0)
          × (count x xs ≡ 0)
      once = ground (arith, r.partition.once x)

      released_front : IsRing n s.released_buffer s.next_consume s.next_release (x ∷ xs)
      released_front = rw e at r.released_ring

      item_x : get_elem? s.item_buffer x ≡ some (item_of p x)
      item_x = r.items.each x (released-in_range r.partition e)

      after_evict : ProducerConsumer T
      after_evict = record s {
        mutex = 1;
        free = suc s.free;
        item_buffer = set s.item_buffer x (item_of (Produce.evicted_pool p x xs) x);
        free_buffer = set s.free_buffer s.next_removed (some x);
        released_buffer = set s.released_buffer s.next_consume none;
        next_consume = advance n s.next_consume;
        next_removed = advance n s.next_removed;
        num_produced_items = decrement s.num_produced_items;
        num_released_items = decrement s.num_released_items;
      }

      after_evict-Rep :
          Rep n (settled after_evict (Produce.evicted_pool p x xs)) (Produce.evicted_pool p x xs)
      unfolding after_evict
      after_evict-Rep = record {
        small = r.small;
        partition = record {
          once = λ i. ground (arith, r.partition.once i, count-append i p.free (x ∷ []));
          total = ground (arith, r.partition.total, length-append p.free (x ∷ []));
        };
        items =
            HoldsItems-set (Produce.evicted_pool p x xs) x (released-in_range r.partition e)
              (λ i ne. ground (arith, ne, count-append i p.free (x ∷ []))) r.items;
        free_ring = IsRing-push r.small r.free_ring x (ground (arith, r.partition.total, e));
        released_ring = IsRing-pop r.small released_front;
        counts = ground (
          arith,
          r.counts.produced,
          r.counts.released,
          r.small,
          r.partition.total,
          length-append p.free (x ∷ []),
        );
      }

      pub evict_section_lem :
          Leads n s 1 free_acquire (Produce.evicted_pool p x xs) (proceed n evict_section s)
      unfolding proceed after_evict
      evict_section_lem = (
        after_evict,
        ground (
          arith,
          unlocked,
          front r.small released_front,
          item_x,
          once,
          count-append x p.free (x ∷ []),
        ),
        omega arith,
        refl,
        refl,
        after_evict-Rep,
      )
