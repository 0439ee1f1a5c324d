-- ===== src/ProducerConsumer/Refine/Cleanup.antt =====
-- `cleanup`
use slirp4tinc.Prelude.{
  get_elem?_beyond, ◌≤◌, ℕ, suc, ◌<◌, ◌≡◌, true, false, some, ◌∷◌, [], ◌++◌, arith, set, count, has,
  remove, count-remove, length-remove, count-append, length-append, Bool-cases, inl, inr,
}
use slirp4tinc.Prelude.Run.{undefined, ok, assert_failed}
use slirp4tinc.ProducerConsumer.{ProducerConsumer, Item, slot, cleanup, advance, decrement}
use slirp4tinc.ProducerConsumer.Pool
use slirp4tinc.ProducerConsumer.Pool.{Pool}
use slirp4tinc.ProducerConsumer.Ring.{IsRing-push}
use slirp4tinc.ProducerConsumer.Rep.{Rep, Simulates, item_of, HoldsItems-set, in_range}

module _ {T : Type 0} where
  -- The pool after the consumed slot `x` was cleaned up.
  abbrev pub cleaned_pool : Pool T → ℕ → Pool T
  cleaned_pool p x = record p { consuming = remove x p.consuming; free = p.free ++ x ∷ [] }

  abbrev cleaned : ℕ → ProducerConsumer T → ℕ → Item T → ProducerConsumer T
  cleaned n s x it = record s {
    item_buffer = set s.item_buffer x it;
    free_buffer = set s.free_buffer s.next_removed (some x);
    next_removed = advance n s.next_removed;
    num_produced_items = decrement s.num_produced_items;
    mutex = 1;
    free = suc s.free;
  }

  module _ {n : ℕ} {s : ProducerConsumer T} {p : Pool T} (x : ℕ) (r : Rep n s p) where
    cleanup_wrong : x < n → has x p.consuming ≡ false → cleanup n (some (slot x)) s ≡ assert_failed
    unfolding cleanup
    cleanup_wrong hx e = ground (arith, r.items.each x hx)

    pub cleanup_outside : n ≤ x → cleanup n (some (slot x)) s ≡ undefined
    unfolding cleanup
    cleanup_outside h = rw (get_elem?_beyond s.item_buffer x (omega (arith, r.items.size)))

    module _ (e : has x p.consuming ≡ true) where
      pub held : x < n
      held = in_range r.partition x (ground arith)

      pub consumed_once :
          (count x p.consuming ≡ 1)
          × (count x p.free ≡ 0)
          × (count x p.released ≡ 0)
          × (count x p.producing ≡ 0)
      consumed_once = ground (arith, r.partition.once x)

      cleanup_held : cleanup n (some (slot x)) s ≡ ok (cleaned n s x (item_of (cleaned_pool p x) x))
      unfolding cleanup
      cleanup_held = ground (
        arith,
        r.items.each x held,
        r.counts.mutex,
        consumed_once,
        count-remove x x p.consuming,
        count-append x p.free (x ∷ []),
      )

      pub cleaned-Rep : Rep n (cleaned n s x (item_of (cleaned_pool p x) x)) (cleaned_pool p x)
      cleaned-Rep = record {
        small = r.small;
        partition = record {
          once = λ i. ground (
            arith,
            r.partition.once i,
            count-remove i x p.consuming,
            count-append i p.free (x ∷ []),
            consumed_once,
          );
          total = ground (
            arith,
            r.partition.total,
            length-remove x p.consuming,
            length-append p.free (x ∷ []),
            consumed_once,
          );
        };
        items =
            HoldsItems-set (cleaned_pool p x) x held
              (λ i ne.
                ground (arith, ne, count-remove i x p.consuming, count-append i p.free (x ∷ [])))
              r.items;
        free_ring =
            IsRing-push r.small r.free_ring x
              (ground (arith, r.partition.total, length-remove x p.consuming, consumed_once));
        released_ring = r.released_ring;
        counts = ground (
          arith,
          r.counts.produced,
          r.counts.mutex,
          r.counts.released,
          r.counts.free,
          r.counts.item,
          r.small,
          r.partition.total,
          length-append p.free (x ∷ []),
          length-remove x p.consuming,
          consumed_once,
        );
      }

  -- `cleanup` of an item of a context that represents a pool moves a slot in consumption behind the
  -- free ones, and fails an assert for every other slot.
  pub cleanup_refines :
      {n : ℕ} {s : ProducerConsumer T} {p : Pool T} (x : ℕ)
      → x < n
      → Rep n s p
      → Simulates (Rep n) (cleanup n (some (slot x)) s) (Pool.cleanup (some (slot x)) p)
  unfolding Pool.cleanup
  cleanup_refines {p} x hx r = elim (Bool-cases (has x p.consuming)) [
    | inl e ↦ rw (cleanup_held x r e, e) (cleaned-Rep x r e)
    | inr e ↦ rw (cleanup_wrong x r hx e, e) tt
  ]
